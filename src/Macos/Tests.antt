-- ===== src/Macos/Tests.antt =====
-- A poller with two sockets, the first of which has been closed, so that `poll` answers `POLLNVAL`.
use proxy_server_sa.Server.Loop.{clean_up_resources}
use proxy_server_sa.Net.Sim.{Machine, idle}
use proxy_server_sa.Linux.Sim.{sim_kernel, sim_opens, seen}
use proxy_server_sa.Macos.Whole.{PollCalls, macos, clean_up_closes_standard_output}
use proxy_server_sa.Base.{ℕ, suc, ◌≡◌, refl, true, ◌&&◌, some, List, [], ◌∷◌, if◌then◌else◌, false}
use proxy_server_sa.Base.Int.{pos, minus_one, ◌==ℤ◌, ℤ}
use proxy_server_sa.Base.Map.{has}
use proxy_server_sa.Macos.{
  PollFd, PollSystem, wait_for_events, PollerStore, no_pollers, create_event_poller,
  register_read_event, update_event_interest, poll_interest,
}
use proxy_server_sa.Macos.Pollers.{interest_of, update_event_interest-interest_of}

abbrev system : PollSystem
system = record {
  World = ℕ;
  errno = λ w. pos 0;
  eintr = pos 4;
  poll = λ vec timeout w. (pos 1, 32 ∷ 0 ∷ [], suc w);
  close = λ socket w. suc w;
  pollin = 1;
  pollout = 4;
  pollerr = 8;
  pollhup = 16;
  pollnval = 32;
}

abbrev two_sockets : List PollFd
two_sockets =
    record { fd = pos 7; events = 1; revents = 0 }
    ∷ record { fd = pos 8; events = 1; revents = 0 }
    ∷ []

abbrev store : PollerStore
store = record { g_pollers = (pos 1, two_sockets) ∷ []; g_next_poller_id = 2 }

-- The store is what the operations make.
made :
    (register_read_event system
      (pos 1)
      (pos 8)
      (register_read_event system (pos 1) (pos 7) (create_event_poller no_pollers).1).1).1
    ≡ store
unfolding register_read_event create_event_poller no_pollers
made = refl

update_event_interest-interest_of_example :
    ((update_event_interest system (pos 1) (pos 7) true true store).0 ≡ has (pos 1) store.g_pollers)
    × (interest_of (pos 1) (pos 7) (update_event_interest system (pos 1) (pos 7) true true store).1
        ≡ (if (update_event_interest system (pos 1) (pos 7) true true store).0
              && ((pos 1 ==ℤ pos 1) && (pos 7 ==ℤ pos 7))
            then some (poll_interest system true true)
            else interest_of (pos 1) (pos 7) store))
update_event_interest-interest_of_example =
    update_event_interest-interest_of system (pos 1) (pos 7) (pos 1) (pos 7) true true store

-- The closed socket is reported as an error, and still has its entry afterwards.
closed_is_reported : wait_for_events system (pos 1) (pos 64) minus_one store 0 ≡ (
  pos 1,
  record { fd = pos 7; mask = 0xf0 } ∷ [],
  record store {
    g_pollers =
        (
          pos 1,
          record { fd = pos 7; events = 1; revents = 32 }
              ∷ record { fd = pos 8; events = 1; revents = 0 }
              ∷ [],
        )
        ∷ [];
  },
  1,
)
unfolding wait_for_events
closed_is_reported = refl

abbrev calls : PollCalls sim_kernel
calls = record {
  poll = λ vec timeout w. (pos 0, [], w);
  pollin = 1;
  pollout = 4;
  pollerr = 8;
  pollhup = 16;
  pollnval = 32;
}

abbrev unconnected : ℕ → ℕ → Machine → ℤ × Machine
unconnected ip port w = (minus_one, w)

-- All of the descriptors are open at the start.
abbrev crowded : Machine
crowded = record idle { is_open = λ k. true }

clean_up_closes_standard_output_example :
    seen
      (clean_up_resources
        (macos sim_kernel calls unconnected)
        (record { socket = pos 5; poller = (create_event_poller no_pollers).0; connections = [] })
        (record { machine = crowded; pollers = (create_event_poller no_pollers).1 })).1.machine
      (pos 1)
    ≡ false
clean_up_closes_standard_output_example =
    clean_up_closes_standard_output sim_kernel calls unconnected sim_opens (pos 5) [] crowded
