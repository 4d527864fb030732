-- ===== src/Server/OpeningTests.antt =====
-- A request that comes in at the socket 5, on the machine of `Server.Lone`.
use proxy_server_sa.Base.{◌≡◌, refl, Bool, false, some, [], ◌∷◌, ◌++◌, arith, Returns}
use proxy_server_sa.Base.Int.{ℤ, pos, ◌==ℤ◌}
use proxy_server_sa.Base.Map.{find, has}
use proxy_server_sa.Net.{has_flag}
use proxy_server_sa.Net.Sim.{Machine, idle}
use proxy_server_sa.Connection.{Connection, client, new_connection, read, ok}
use proxy_server_sa.Connection.Held.{Held}
use proxy_server_sa.Socks4.Request.{request}
use proxy_server_sa.Server.Loop.{on_event}
use proxy_server_sa.Server.Tunnel.Pipelined.{Unsent, pipelined_bytes_stay}
use proxy_server_sa.Server.Tunnel.Opening.{Opened, event_opens_tunnel}
use proxy_server_sa.Server.Lone.{
  lone, lone_descriptors, lone_supply, lone_streams, lone_apart, emptied, goes_on,
}

-- A client on a machine where only its own socket is open, which has sent a request for
-- 93.184.216.34, port 80, of the user "a".
abbrev caller : Connection
caller = new_connection (pos 5) client

abbrev calling : Machine
calling = record idle {
  next = 6;
  inbox = request 4 1 0 80 93 184 216 34 (97 ∷ []);
  is_open = λ k. k ==ℤ pos 5;
}

abbrev nobody : ℤ → Bool
nobody k = false

calling-Held : Held lone lone_descriptors nobody ((pos 5, caller) ∷ []) calling
unfolding new_connection has
calling-Held = record { own = ((refl, refl), tt); apart = λ k. refl; exact = λ k. ground arith }

event_opens_tunnel_example :
    (w1 : Machine) × (read lone 20 caller calling
      ≡ some (
        ok,
        record caller {
          receive_buffer = request 4 1 0 80 93 184 216 34 (97 ∷ []) ++ [];
          closed = false;
        },
        w1,
      ))
    × Returns
        (Opened lone lone_descriptors lone_supply lone_streams lone_apart nobody 0 80 93 184 216 34
          (97 ∷ [])
          []
          (pos 5)
          ((pos 5, caller) ∷ [])
          caller
          (pos 4)
          w1)
        (on_event lone 20
          (record { socket = pos 3; poller = pos 4; connections = (pos 5, caller) ∷ [] })
          (record { fd = pos 5; mask = 1 })
          calling)
unfolding new_connection find has_flag request
event_opens_tunnel_example =
    event_opens_tunnel lone lone_descriptors lone_supply lone_streams lone_apart nobody 0 80 93 184
      216 34 (97 ∷ []) [] (pos 5) ((pos 5, caller) ∷ []) caller 20 (pos 3) (pos 4) 1 calling
      calling-Held refl refl refl refl refl refl refl (λ x. absurd (omega (arith, x.0)))
      (omega arith, tt) (omega arith) (omega arith) refl refl refl refl
      (λ v h. emptied v.inbox v refl h) (λ v. goes_on v.inbox v) (omega arith) (omega arith)

-- The same client, which has sent one more byte, and whose socket is writable too.
abbrev eager : Machine
eager = record calling { inbox = request 4 1 0 80 93 184 216 34 (97 ∷ []) ++ 71 ∷ [] }

eager-Held : Held lone lone_descriptors nobody ((pos 5, caller) ∷ []) eager
unfolding new_connection has
eager-Held = record { own = ((refl, refl), tt); apart = λ k. refl; exact = λ k. ground arith }

pipelined_bytes_stay_example :
    Returns
      (λ r. Unsent (pos 5) (71 ∷ []) r.0.connections)
      (on_event lone 20
        (record { socket = pos 3; poller = pos 4; connections = (pos 5, caller) ∷ [] })
        (record { fd = pos 5; mask = 3 })
        eager)
unfolding new_connection find has_flag request
pipelined_bytes_stay_example =
    pipelined_bytes_stay lone lone_descriptors lone_supply lone_streams lone_apart nobody 0 80 93
      184 216 34 (97 ∷ []) (71 ∷ []) (pos 5) ((pos 5, caller) ∷ []) caller 20 (pos 3) (pos 4) 3
      eager eager-Held refl refl refl refl refl refl refl (λ x. absurd (omega (arith, x.0)))
      (omega arith, tt) (omega arith) (omega arith) refl refl refl (λ v h. emptied v.inbox v refl h)
      (λ v. goes_on v.inbox v) (omega arith) (omega arith)
