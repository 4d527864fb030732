-- ===== src/Connection.antt =====
-- core/connection.h and connection.cc: one socket with its buffers. The logger is left out: its
-- calls read the connection and change nothing. The capacity that `reserve` asks for is no part of
-- a vector's contents.
pub mod Read
pub mod Write
pub mod Streaming
pub mod Open
pub mod Move
pub mod Held
pub mod Opening
pub mod Accepting
pub mod Choose
mod Tests
use proxy_server_sa.Base.{
  ℕ, zero, suc, ◌+◌, ◌*◌, Bool, true, false, not, Option, none, some, List, [], ◌∷◌, ◌++◌, ◌>>=◌,
  if◌then◌else◌, take, drop, length, is_empty, get_or, bit_or,
}
use proxy_server_sa.Base.Int.{ℤ, pos, negsuc, minus_one, is_negative, ◌==ℤ◌}
use proxy_server_sa.Base.Map.{find}
use proxy_server_sa.Net.{Network}
use proxy_server_sa.Protocol.{
  Protocol, as_socks4, new_socks4, ProtocolType, unknown, socks4, socks4a, socks5, http,
  unsupported,
}
use proxy_server_sa.Detector.{probe_protocol}

pub data ConnectionResult : Type 0 where
  ok accept_failed epoll_register_failed receive_failed peer_closed unknown_error : ConnectionResult

pub data ConnectionRole : Type 0 where
  client upstream : ConnectionRole

pub record Connection : Type 0 where
  pub id : ℤ
  pub role : ConnectionRole
  pub peer_socket_id : ℤ
  pub receive_buffer : List ℕ
  pub send_buffer : List ℕ
  pub want_write : Bool
  pub closed : Bool
  pub protocol : Option Protocol

abbrev pub ConnectionMap : Type 0
ConnectionMap = List (ℤ × Connection)

-- `Connection(id, role, logger)`
unfoldable pub new_connection : ℤ → ConnectionRole → Connection
new_connection id role = record {
  id = id;
  role = role;
  peer_socket_id = minus_one;
  receive_buffer = [];
  send_buffer = [];
  want_write = false;
  closed = false;
  protocol = none;
}

-- `Connection(logger)`
unfoldable pub default_connection : Connection
unfolding new_connection
default_connection = new_connection minus_one client

-- What a move leaves behind: the vectors and the pointer are empty, the rest says "closed".
unfoldable pub moved_from : Connection → Connection
moved_from c = record c {
  id = minus_one;
  peer_socket_id = minus_one;
  receive_buffer = [];
  send_buffer = [];
  want_write = false;
  closed = true;
  protocol = none;
}

-- `Connection(Connection&& other)`: the new object, and `other` afterwards.
unfoldable pub move_construct : Connection → Connection × Connection
unfolding moved_from
move_construct other = (other, moved_from other)

-- `SetProtocol`, after the protocol is known not to be set.
unfoldable pub choose_protocol : ProtocolType → Connection → Bool × Connection
unfolding new_socks4
choose_protocol http c = (false, c)
choose_protocol socks5 c = (false, c)
choose_protocol socks4 c = (true, record c { protocol = some (as_socks4 new_socks4) })
choose_protocol socks4a c = (false, c)
choose_protocol unsupported c = (false, c)
choose_protocol unknown c = (false, c)

-- The local `type` that the detector writes to.
unfoldable pub probed : Bool × Option ProtocolType → Connection → Bool × Connection
probed (false, t) c = (false, c)
probed (true, none) c = (false, c)
probed (true, some t) c = choose_protocol t c

unfoldable pub set_protocol : Connection → Bool × Connection
unfolding probed choose_protocol
set_protocol c = elim c.protocol [
  | some p ↦ (true, c)
  | none ↦ probed (probe_protocol c.receive_buffer (some unknown)) c
]

abbrev pub k_16kb : ℕ
k_16kb = 16 * 1024

module _ (net : Network) where
  open net use {World, receive, send, close_socket}

  unfoldable pub close : Connection → World → Connection × World
  close c w =
      if is_negative c.id
      then (record c { closed = true }, w)
      else (record c { id = minus_one; closed = true }, close_socket c.id w)

  -- `~Connection`
  unfoldable pub destroy : Connection → World → World
  unfolding close
  destroy c w = (close c w).1

  -- `operator=(Connection&& other)`: this object, `other` and the machine afterwards. With
  -- `this == &other` nothing happens.
  unfoldable pub move_assign :
      Bool → Connection → Connection → World → Connection × Connection × World
  unfolding moved_from close
  move_assign same this other w =
      if same then (this, other, w) else (other, moved_from other, (close this w).1)

  -- The loop of `Read`. `none`: out of fuel.
  unfoldable pub read_loop : ℕ → Connection → World → Option (Connection × World)
  read_loop zero c w = none
  read_loop (suc fuel) c w =
      let (n, buffer, w') = receive c.id k_16kb w in
      elim n [
        | pos zero ↦ some (record c { closed = true }, w')
        | pos (suc m) ↦
            read_loop fuel (record c { receive_buffer = c.receive_buffer ++ take (suc m) buffer })
              w'
        | negsuc e ↦ some (c, w')
      ]

  unfoldable pub after_read : Connection × World → ConnectionResult × Connection × World
  unfolding close
  after_read (c, w) = if c.closed then (peer_closed, (close c w).0, (close c w).1) else (ok, c, w)

  unfoldable pub read : ℕ → Connection → World → Option (ConnectionResult × Connection × World)
  unfolding after_read
  read fuel c w = read_loop fuel c w >>= λ r. some (after_read r)

  -- The loop of `Write`. `none`: out of fuel.
  unfoldable pub write_loop : ℕ → Connection → World → Option (Connection × World)
  write_loop zero c w = none
  write_loop (suc fuel) c w = elim (is_empty c.send_buffer) [
    | true ↦ some (c, w)
    | false ↦
        let (sent, w') = send c.id c.send_buffer w in
        elim sent [
          | pos zero ↦ some (c, w')
          | pos (suc m) ↦ write_loop fuel (record c { send_buffer = drop (suc m) c.send_buffer }) w'
          | negsuc e ↦ some (c, w')
        ]
  ]

  unfoldable pub after_write : Connection × World → ConnectionResult × Connection × World
  after_write (c, w) = (ok, record c { want_write = not (is_empty c.send_buffer) }, w)

  -- Every round sends a byte at least, so the number of bytes is fuel enough.
  unfoldable pub write : Connection → World → Option (ConnectionResult × Connection × World)
  unfolding after_write
  write c w = write_loop (suc (length c.send_buffer)) c w >>= λ r. some (after_write r)
