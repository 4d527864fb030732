-- ===== src/Server.antt =====
-- server/proxy_server.h and proxy_server.cc: the event loop. Log lines are left out, and with them
-- the look-ups of addresses that only feed them.
pub mod Quiet
pub mod Serving
pub mod Reading
pub mod Turns
pub mod Steps
pub mod Loop
pub mod Invariant
pub mod CleanUp
pub mod Handshake
pub mod Relay
pub mod Reused
pub mod Tunnel
pub mod Closing
pub mod Bugs
mod Tests
mod ClosingTests
mod TunnelTests
mod Lone
mod OpeningTests
use proxy_server_sa.Base.{
  ℕ, zero, suc, ◌+◌, Bool, true, false, not, ◌&&◌, ◌||◌, Option, none, some, List, [], ◌∷◌, ◌++◌,
  ◌>>=◌, if◌then◌else◌, bit_or,
}
use proxy_server_sa.Base.Int.{ℤ, pos, negsuc, minus_one, is_negative, is_positive, ◌==ℤ◌}
use proxy_server_sa.Base.Map.{find, erase, update}
use proxy_server_sa.Base.Text.{codes}
use proxy_server_sa.Net.{
  Network, PollEvent, has_flag, event_readable, event_writable, event_error, event_hangup,
  event_other,
}
use proxy_server_sa.Protocol.{
  Protocol, as_socks4, as_socks5, Socks4, State, init, established, failed,
}
use proxy_server_sa.Connection.{
  Connection, ConnectionMap, ConnectionResult, ConnectionRole, ok, client, upstream, destroy,
}
use proxy_server_sa.Socks4.{Peer, null, itself, other, on_readable, on_writable}

-- `ProxyServer` without its configuration and its logger, which the loop does not change.
pub record Server : Type 0 where
  pub socket : ℤ
  pub poller : ℤ
  pub connections : ConnectionMap

-- How an event ends: with the next one, or with the end of the loop.
pub data Flow : Type 0 where
  next_event stop_running : Flow

abbrev pub health_text : List ℕ
health_text =
    codes
      "HTTP/1.1 200 OK\r\nContent-Type: text/plain\r\nContent-Length: 30\r\n\r\nHello from your proxy server!\n"

-- `HealthResponse`
unfoldable pub health_response : Connection → Connection
health_response c = record c { send_buffer = c.send_buffer ++ health_text; want_write = true }

-- The look-up of the peer: the connection, whose link is cleared if it leads nowhere, and the key
-- of the peer if there is one.
unfoldable pub resolve_peer : ConnectionMap → Connection → Connection × Option ℤ
resolve_peer connections c =
    if c.peer_socket_id ==ℤ minus_one then (c, none) else elim (find c.peer_socket_id connections) [
      | none ↦ (record c { peer_socket_id = minus_one }, none)
      | some p ↦ (c, some c.peer_socket_id)
    ]

-- What the pointer to the peer points to, for the connection at `fd`.
unfoldable pub peer_value : ConnectionMap → ℤ → Option ℤ → Peer
peer_value connections fd none = null
peer_value connections fd (some k) =
    if k ==ℤ fd then itself else elim (find k connections) [ none ↦ null | some p ↦ other p ]

-- The writes through that pointer.
unfoldable pub store_peer : Option ℤ → Peer → ConnectionMap → ConnectionMap
store_peer none p connections = connections
store_peer (some k) null connections = connections
store_peer (some k) itself connections = connections
store_peer (some k) (other p) connections = update k p connections

unfoldable pub is_established : State → Bool
is_established init = false
is_established established = true
is_established failed = false

-- What the turn of one connection has come to: the map, the connection itself (its entry in the map
-- is written when the turn ends) and whether the turn is over, by `continue`.
pub record Turn : Type 0 where
  pub connections : ConnectionMap
  pub connection : Connection
  pub over : Bool

abbrev pub going : ConnectionMap → Connection → Turn
going connections c = record { connections = connections; connection = c; over = false }

abbrev pub over : ConnectionMap → Connection → Turn
over connections c = record { connections = connections; connection = c; over = true }

-- The protocol of the connection that the pointer to the peer points to; `c` is the connection
-- whose turn it is.
unfoldable pub peer_protocol : Connection → Peer → Option Protocol
peer_protocol c null = none
peer_protocol c itself = c.protocol
peer_protocol c (other p) = p.protocol

-- The protocol object behind that pointer, after a call of one of its methods.
unfoldable pub set_peer_protocol : Socks4 → Connection → Peer → Connection × Peer
set_peer_protocol p c null = (c, null)
set_peer_protocol p c itself = (record c { protocol = some (as_socks4 p) }, itself)
set_peer_protocol p c (other q) = (c, other (record q { protocol = some (as_socks4 p) }))

unfoldable pub is_ok : ConnectionResult → Bool
is_ok ok = true
is_ok _ = false

module _ (net : Network) where
  open net use {World, update_event_interest, close_socket}

  -- `connections_.erase(it)`, which runs the destructor.
  unfoldable pub erase_connection : ℤ → ConnectionMap → World → ConnectionMap × World
  erase_connection k connections w = elim (find k connections) [
    | none ↦ (connections, w)
    | some c ↦ (erase k connections, destroy net c w)
  ]
