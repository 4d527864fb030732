-- ===== src/Server/Relay.antt =====
-- The tunnel, as the event loop drives it, in both directions.
use proxy_server_sa.Base.{ℕ, ◌≡◌, refl, ◌∙◌, true, false, some, List, [], ◌∷◌, ◌++◌}
use proxy_server_sa.Base.Int.{ℤ, minus_one, ◌==ℤ◌, ==ℤ_comm}
use proxy_server_sa.Base.Map.{find, update}
use proxy_server_sa.Net.{Network}
use proxy_server_sa.Protocol.{Socks4, as_socks4, established}
use proxy_server_sa.Connection.{Connection, ConnectionMap}
use proxy_server_sa.Socks4.{on_readable, on_readable_in, on_readable_established}
use proxy_server_sa.Server.{Turn, going, peer_value, store_peer, peer_protocol, set_peer_protocol}
use proxy_server_sa.Server.Steps.{serve_socks4, serve, on_client_data, forward_by, on_upstream_data}

module _ (net : Network) (poller : ℤ) (m : ConnectionMap) (w : net.World) (b : ℕ)
    (bs : List ℕ) where
  open net use {World, update_event_interest}

  -- `self` has nothing unread, and the bytes stand behind those that `peer`, under the number `k`,
  -- has to send already.
  abbrev pub relayed : Connection → ℤ → Connection → Turn × World
  relayed self k peer = (
    going (update k (record peer { send_buffer = peer.send_buffer ++ b ∷ bs; want_write = true }) m)
        (record self { receive_buffer = [] }),
    (update_event_interest poller peer.id true true w).1,
  )

  -- In the tunnel of a client `c` under `kc`, whose SOCKS4 protocol is established and which has a
  -- link, and the upstream connection `u` under another number `ku`, bytes that one side has just
  -- sent are queued for the other behind what waits there, and the other is asked to write. Nothing
  -- else in the map changes, and no second upstream connection is made.
  pub relay_both_ways :
      (kc ku : ℤ) (c u : Connection) (p : Socks4)
      → (ku ==ℤ kc) ≡ false
      → find kc m ≡ some c
      → find ku m ≡ some u
      → c.protocol ≡ some (as_socks4 p)
      → p.state ≡ established
      → (c.peer_socket_id ==ℤ minus_one) ≡ false
      → (on_client_data net poller kc (some ku) m (record c { receive_buffer = b ∷ bs }) w
          ≡ some (relayed c ku u))
        × (on_upstream_data net poller ku (some kc) m (record u { receive_buffer = b ∷ bs }) w
            ≡ relayed u kc c)
  unfolding on_client_data serve serve_socks4 on_upstream_data forward_by peer_value store_peer
      peer_protocol set_peer_protocol on_readable on_readable_in on_readable_established
  relay_both_ways kc ku c u p ne fc fu e s link =
      (rw (e, ne, fu, s, link) refl, rw (==ℤ_comm kc ku ∙ ne, fc, e, s) refl)
