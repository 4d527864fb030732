-- ===== src/Server/Tests.antt =====
-- The event loop on the small machine of `Net.Sim`.
use proxy_server_sa.Base.{◌≡◌, refl, ◌||◌, true, false, none, some, [], ◌∷◌, ◌++◌, arith, Returns}
use proxy_server_sa.Base.Int.{ℤ, pos, ◌==ℤ◌}
use proxy_server_sa.Base.Map.{find, has}
use proxy_server_sa.Config.{Config}
use proxy_server_sa.Net.{PollEvent, event_readable, event_hangup, has_flag}
use proxy_server_sa.Net.Sim.{Machine, sim, idle}
use proxy_server_sa.Net.SimLaws.{sim_descriptors, sim_supply, sim_rounds}
use proxy_server_sa.Protocol.{Socks4, as_socks4, established, new_socks4}
use proxy_server_sa.Connection.{
  Connection, ConnectionMap, client, upstream, new_connection, destroy, close, read, read_loop,
  after_read,
}
use proxy_server_sa.Server.{Server, over, health_text, erase_connection}
use proxy_server_sa.Server.Steps.{on_client_data}
use proxy_server_sa.Server.Loop.{on_event, on_events, run}
use proxy_server_sa.Server.Turns.{EventOk}
use proxy_server_sa.Server.Invariant.{own_sockets, IsSafe, on_events_safe}
use proxy_server_sa.Server.CleanUp.{LeavesClosed, run_closes_all}
use proxy_server_sa.Server.Reused.{holder, stale_link_leaks}
use proxy_server_sa.Server.Bugs.{short_request_answered, run_closes_stray}

abbrev defaults : Config
defaults = record {
  port = pos 8080;
  bind_host = [];
  backlog = pos 128;
  max_events = pos 64;
  verbose = false;
  log_file_name = [];
}

abbrev readable : ℤ → PollEvent
readable fd = record { fd = fd; mask = event_readable }

-- A client comes, and then sends three bytes.
abbrev visited : Machine
visited = record idle {
  waiting = 1;
  inbox = 4 ∷ 1 ∷ 0 ∷ [];
  batches = (readable (pos 3) ∷ []) ∷ (readable (pos 5) ∷ []) ∷ [];
}

run_closes_all_example :
    Returns
      (LeavesClosed sim sim_descriptors sim_supply sim_rounds (pos 5))
      (run sim 7 7 defaults (pos 0) visited)
run_closes_all_example =
    run_closes_all sim sim_descriptors sim_supply sim_rounds 7 7 defaults (pos 0) visited (pos 5)
      (λ j. refl) refl refl (omega arith) (omega arith)

-- The server once its two sockets are open.
abbrev listening : Server
listening = record { socket = pos 3; poller = pos 4; connections = [] }

abbrev listening_world : Machine
listening_world = record visited { next = 5; is_open = λ k. (k ==ℤ pos 3) || (k ==ℤ pos 4) }

listening-IsSafe : IsSafe sim sim_descriptors sim_supply listening listening_world
unfolding has
listening-IsSafe = record { own = tt; apart = λ k. ground arith; exact = λ k. ground arith }

on_events_safe_example :
    Returns
      (EventOk sim sim_descriptors sim_supply (own_sockets listening) 6 listening)
      (on_events sim 7 listening (readable (pos 3) ∷ readable (pos 5) ∷ []) listening_world)
on_events_safe_example =
    on_events_safe sim sim_descriptors sim_supply 7 6 listening
      (readable (pos 3) ∷ readable (pos 5) ∷ []) listening_world listening-IsSafe (refl, (refl, tt))
      (omega arith) (omega arith)

abbrev beginner : Connection
beginner = record (new_connection (pos 5) client) { receive_buffer = 4 ∷ 1 ∷ 0 ∷ [] }

short_request_answered_example :
    on_client_data sim (pos 4) (pos 5) none [] beginner idle
    ≡ some (
      over [] (record beginner {
        send_buffer = beginner.send_buffer ++ health_text;
        want_write = true;
      }),
      idle,
    )
unfolding new_connection
short_request_answered_example =
    short_request_answered sim (pos 4) (pos 5) none [] beginner idle (1 ∷ 0 ∷ []) refl refl
      (omega arith)

abbrev tunnelled : Socks4
tunnelled = record new_socks4 { state = established }

-- The two ends of a tunnel, on a machine where a client waits and 6 is the next number.
abbrev old_client : Connection
old_client = record (new_connection (pos 5) client) {
  peer_socket_id = pos 6;
  protocol = some (as_socks4 tunnelled);
}

abbrev old_upstream : Connection
old_upstream = record (new_connection (pos 6) upstream) { peer_socket_id = pos 5 }

abbrev old_tunnel : ConnectionMap
old_tunnel = (pos 6, old_upstream) ∷ (pos 5, old_client) ∷ []

abbrev crowded : Machine
crowded = record idle { next = 6; waiting = 1; is_open = λ k. k ==ℤ pos 6 }

-- The machine once the new client has come, and one on which the old client has sent a byte.
abbrev visited_again : Machine
visited_again = (sim.accept_connection (pos 3) (sim.close_socket (pos 6) crowded)).1

abbrev talking : Machine
talking = record idle { inbox = 42 ∷ [] }

stale_link_leaks_example :
    Returns
      (λ r.
        (find (pos 5) r.0.connections ≡ some old_client)
        × Returns
            (λ q. find (pos 6) q.0.connections ≡ some (holder sim (pos 6) (42 ∷ [])))
            (on_event sim 2 r.0 (readable (pos 5)) talking))
      (on_events sim 2
        (record { socket = pos 3; poller = pos 4; connections = old_tunnel })
        (record { fd = pos 6; mask = event_hangup } ∷ readable (pos 3) ∷ [])
        crowded)
unfolding new_connection new_socks4 find erase_connection destroy close read read_loop after_read
    has_flag
stale_link_leaks_example =
    stale_link_leaks sim 0 (pos 3) (pos 4) (pos 5) (pos 6) event_hangup event_readable
      event_readable old_tunnel old_client old_upstream tunnelled 42 [] crowded visited_again
      visited_again visited_again talking idle refl refl refl refl refl refl refl refl refl refl
      refl refl refl refl refl refl refl refl refl refl

-- A machine whose sockets cannot be made non-blocking, and that holds the descriptor 9.
abbrev blocking : Machine
blocking = record idle { unblocks = false; is_open = λ k. k ==ℤ pos 9 }

run_closes_stray_example :
    Returns
      (λ r. sim_descriptors.is_open r.1 (pos 9) ≡ false)
      (run sim 1 1 defaults (pos 9) blocking)
run_closes_stray_example =
    run_closes_stray sim sim_descriptors sim_supply 1 1 defaults (pos 9) blocking refl refl refl

abbrev near : Connection
near = record (new_connection (pos 5) client) {
  peer_socket_id = pos 6;
  protocol = some (as_socks4 tunnelled);
}

abbrev far : Connection
far = record (new_connection (pos 6) upstream) { peer_socket_id = pos 5 }

abbrev tunnel : ConnectionMap
tunnel = (pos 5, near) ∷ (pos 6, far) ∷ []
