-- ===== src/Server/Tunnel/Passing.antt =====
-- What one end has read passes to the other.
use proxy_server_sa.Base.{ℕ, ◌≡◌, refl, ◌∙◌, Bool, true, false, some, List, [], ◌∷◌, append-nil}
use proxy_server_sa.Base.Int.{ℤ, minus_one, ◌==ℤ◌}
use proxy_server_sa.Base.Map.{find, update}
use proxy_server_sa.Net.{Network}
use proxy_server_sa.Net.Laws.{Streams, Apart}
use proxy_server_sa.Protocol.{Socks4, as_socks4, established}
use proxy_server_sa.Connection.{Connection, ConnectionMap, ConnectionRole, client, upstream}
use proxy_server_sa.Socks4.{on_readable, on_readable_in, on_readable_established}
use proxy_server_sa.Server.{going, peer_value, store_peer, peer_protocol, set_peer_protocol}
use proxy_server_sa.Server.Steps.{
  serve_socks4, serve, on_client_data, forward_by, on_upstream_data, on_data,
}
use proxy_server_sa.Server.Tunnel.{spoken, given, Quiet}

module _ (net : Network) (st : Streams net) (apart : Apart net st) where
  open net use {World, update_event_interest}
  open st use {pending, sent}

  pub update-Quiet :
      (p fd : ℤ) (r s : Bool) (w : World) → Quiet net st w (update_event_interest p fd r s w).1
  update-Quiet p fd r s w k =
      (apart.update_takes_none p fd r s w k, apart.update_sends_none p fd r s w k)

  pub Quiet-then : (w w1 w2 : World) → Quiet net st w w1 → Quiet net st w1 w2 → Quiet net st w w2
  Quiet-then w w1 w2 p q k = ((q k).0 ∙ (p k).0, (q k).1 ∙ (p k).1)

  -- The machine after the bytes have passed.
  abbrev pub told : ℤ → Connection → List ℕ → World → World
  told poller b [] w = w
  told poller b (x ∷ l) w = (update_event_interest poller b.id true true w).1

  pub told-Quiet :
      (poller : ℤ) (b : Connection) (l : List ℕ) (w : World) → Quiet net st w (told poller b l w)
  told-Quiet poller b [] w k = (refl, refl)
  told-Quiet poller b (x ∷ l) w k = update-Quiet poller b.id true true w k

  pub passes :
      (role : ConnectionRole) (l : List ℕ) (poller kf kp : ℤ) (m : ConnectionMap) (a b : Connection)
      (w : World) (p : Socks4)
      → (kp ==ℤ kf) ≡ false
      → find kp m ≡ some b
      → (a.peer_socket_id ==ℤ minus_one) ≡ false
      → spoken role a.protocol b.protocol ≡ some (as_socks4 p)
      → p.state ≡ established
      → on_data net role poller kf (some kp) m (record a { receive_buffer = l }) w
        ≡ some (
          going
              (update kp (given (record a { receive_buffer = l }) b) m)
              (record a { receive_buffer = [] }),
          told poller b l w,
        )
  unfolding on_data on_client_data serve serve_socks4 on_upstream_data forward_by peer_value
      store_peer peer_protocol set_peer_protocol on_readable on_readable_in on_readable_established
  passes client [] poller kf kp m a b w p ne f link e s = rw (e, ne, f, s, link, append-nil) refl
  passes client (x ∷ l) poller kf kp m a b w p ne f link e s = rw (e, ne, f, s, link) refl
  passes upstream [] poller kf kp m a b w p ne f link e s = rw (ne, f, e, s, append-nil) refl
  passes upstream (x ∷ l) poller kf kp m a b w p ne f link e s = rw (ne, f, e, s) refl
