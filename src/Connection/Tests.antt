-- ===== src/Connection/Tests.antt =====
-- Connections on the small machine of `Net.Sim`.
use proxy_server_sa.Base.{
  ◌≡◌, refl, Bool, true, false, not, ◌||◌, none, some, [], ◌∷◌, ◌++◌, arith, is_empty,
  if◌then◌else◌, Returns,
}
use proxy_server_sa.Base.Int.{ℤ, pos, minus_one, is_zero}
use proxy_server_sa.Base.Map.{has}
use proxy_server_sa.Net.Sim.{Machine, sim, idle}
use proxy_server_sa.Net.SimLaws.{sim_descriptors, sim_streams, sim_supply}
use proxy_server_sa.Connection.{
  Connection, client, ok, peer_closed, k_16kb, close, destroy, move_construct, move_assign, read,
  write,
}
use proxy_server_sa.Connection.Open.{accept_new_client_connection, create_upstream_tcp_connection}
use proxy_server_sa.Connection.Held.{Held}
use proxy_server_sa.Connection.Move.{moves_close_once}
use proxy_server_sa.Connection.Opening.{
  AcceptsHeld, accept-Returns-Held, IsLinked, create_upstream_links,
}
use proxy_server_sa.Connection.Read.{Drained, read_total}
use proxy_server_sa.Connection.Write.{Handed, write_total}

abbrev busy : Machine
busy = record idle { waiting = 2; inbox = 4 ∷ 1 ∷ 0 ∷ [] }

abbrev browser : Connection
browser = record {
  id = pos 5;
  role = client;
  peer_socket_id = minus_one;
  receive_buffer = 7 ∷ [];
  send_buffer = 1 ∷ 2 ∷ 3 ∷ [];
  want_write = false;
  closed = false;
  protocol = none;
}

abbrev nobody : ℤ → Bool
nobody k = false

nobody-Held : Held sim sim_descriptors nobody [] busy
unfolding has
nobody-Held = record { own = tt; apart = λ k. refl; exact = λ k. refl }

read_total_example :
    (d : Drained sim sim_streams browser busy) × (read sim 10 browser busy ≡ (
      let (n, _, w1) = sim.receive (pos 5) k_16kb d.w0 in
      if is_zero n || false
      then some (
        peer_closed,
        record browser {
          id = minus_one;
          receive_buffer = browser.receive_buffer ++ d.got;
          closed = true;
        },
        sim.close_socket (pos 5) w1,
      )
      else some (
        ok,
        record browser { receive_buffer = browser.receive_buffer ++ d.got; closed = false },
        w1,
      )))
read_total_example = read_total sim sim_streams 10 browser busy refl (omega arith)

write_total_example :
    (d : Handed sim sim_streams browser busy) × (write sim browser busy
      ≡ some
          (ok, record browser { send_buffer = d.rest; want_write = not (is_empty d.rest) }, d.w1))
write_total_example = write_total sim sim_streams browser busy

accept-Returns-Held_example :
    Returns
      (AcceptsHeld sim sim_descriptors sim_supply nobody (pos 1) (pos 2) 5)
      (accept_new_client_connection sim 6 (pos 1) (pos 2) [] (some []) busy)
accept-Returns-Held_example =
    accept-Returns-Held sim sim_descriptors sim_supply nobody (pos 1) (pos 2) 6 5 [] (some []) busy
      (omega arith) (omega arith) nobody-Held

create_upstream_links_example :
    IsLinked sim sim_descriptors sim_supply nobody
      (pos 2)
      []
      browser
      busy
      (create_upstream_tcp_connection sim (pos 2) [] browser (93 ∷ 184 ∷ 216 ∷ 34 ∷ []) 80 busy)
create_upstream_links_example =
    create_upstream_links sim sim_descriptors sim_supply nobody (pos 2) [] browser busy
      (93 ∷ 184 ∷ 216 ∷ 34 ∷ []) 80 nobody-Held refl

moves_close_once_example :
    (close sim (close sim browser busy).0 (close sim browser busy).1 ≡ close sim browser busy)
    × (destroy sim (move_construct browser).1 (destroy sim (move_construct browser).0 busy)
        ≡ destroy sim browser busy)
    × (destroy sim (move_construct browser).0 (destroy sim (move_construct browser).1 busy)
        ≡ destroy sim browser busy)
    × (let (this', c', w') = move_assign sim false browser browser busy in
        destroy sim c' (destroy sim this' w') ≡ destroy sim browser (destroy sim browser busy))
    × (move_assign sim true browser browser busy ≡ (browser, browser, busy))
moves_close_once_example = moves_close_once sim browser browser busy
