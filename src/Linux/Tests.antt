-- ===== src/Linux/Tests.antt =====
-- The server on the small kernel of `Linux.Sim`.
use proxy_server_sa.Connection.Open.{accept_new_client_connection}
use proxy_server_sa.Base.{ℕ, ◌≡◌, refl, true, false, none, some, List, [], arith, ◌∷◌}
use proxy_server_sa.Base.Decimal.{decimal}
use proxy_server_sa.Base.Int.{pos, minus_one}
use proxy_server_sa.Base.Text.{codes}
use proxy_server_sa.Net.{has_flag}
use proxy_server_sa.Net.Laws.{Descriptors, Streams, Supply, Rounds}
use proxy_server_sa.Net.Sim.{idle, Machine, open_next}
use proxy_server_sa.Server.Loop.{on_events, run, clean_up_resources, on_event}
use proxy_server_sa.Linux.{
  linux, wait_for_events, wait_with_room, create_listening_socket, try_candidates,
  initialize_network, set_socket_non_blocking, create_event_poller, register_read_event,
  accept_connection,
}
use proxy_server_sa.Linux.Syscalls.{Kernel}
use proxy_server_sa.Config.{Config}
use proxy_server_sa.Linux.Sim.{sim_kernel, sim_opens, sim_moves, sim_brings}
use proxy_server_sa.Linux.Refinement.{linux_implements}
use proxy_server_sa.Linux.Running.{Comes, SetUp, starting, signal_ends_run}
use proxy_server_sa.Linux.Info.{Lookup, socket_to_address}
use proxy_server_sa.Linux.Ports.{socket_to_address_throws}

linux_implements_example :
    (d : Descriptors (linux sim_kernel)) × (s : Streams (linux sim_kernel)) × (sup : Supply
      (linux sim_kernel))
    × Rounds (linux sim_kernel) sup
    × (d.is_open ≡ sim_opens.is_open)
    × (s.pending ≡ sim_moves.pending)
    × (s.sent ≡ sim_moves.sent)
    × (sup.supply ≡ sim_brings.supply)
linux_implements_example = linux_implements sim_kernel sim_opens sim_moves sim_brings

-- Every call that fails was interrupted by a signal.
abbrev signalled : Kernel
signalled = record sim_kernel { errno = λ w. pos 4 }

abbrev defaults : Config
defaults = record {
  port = pos 8080;
  bind_host = [];
  backlog = pos 128;
  max_events = pos 64;
  verbose = false;
  log_file_name = [];
}

-- The listening socket is reported once, and then nothing comes.
abbrev knocked : Machine
knocked = record idle { batches = (record { fd = pos 3; mask = 1 } ∷ []) ∷ [] }

abbrev started : Machine
started = (open_next (open_next knocked).1).1

abbrev quiet : Machine
quiet = record started { batches = [] }

started-SetUp : SetUp signalled defaults knocked (pos 3) (pos 4) started
unfolding create_listening_socket try_candidates initialize_network set_socket_non_blocking
    create_event_poller register_read_event
started-SetUp = record {
  w1 = (open_next knocked).1;
  w2 = (open_next knocked).1;
  w3 = started;
  listens = refl;
  socket_made = refl;
  unblocked = refl;
  polls = refl;
  poller_made = refl;
  registers = refl;
}

one_round :
    Comes signalled 5
      (pos 64)
      1
      (starting signalled (pos 3) (pos 4))
      started
      (starting signalled (pos 3) (pos 4))
      quiet
unfolding Comes wait_with_room on_events on_event accept_new_client_connection accept_connection
one_round = (0, starting signalled (pos 3) (pos 4), quiet, refl, refl, (refl, refl))

signal_ends_run_example :
    (wait_for_events signalled (pos 4) (pos 64) minus_one quiet ≡ some (minus_one, [], quiet))
    × (run (linux signalled) 7 5 defaults (pos 0) knocked
        ≡ some (clean_up_resources (linux signalled) (starting signalled (pos 3) (pos 4)) quiet))
signal_ends_run_example =
    signal_ends_run signalled 1 7 5 defaults (pos 0) knocked (pos 3) (pos 4) started
      (starting signalled (pos 3) (pos 4)) quiet (omega arith) started-SetUp refl one_round refl
      refl

-- Names are given for services unless numbers are asked for (the flag 2).
abbrev names : ℕ → List ℕ
names flags = elim (has_flag flags 2) [ true ↦ decimal 8080 | false ↦ codes "http-alt" ]

abbrev sim_lookup : Lookup
sim_lookup = record {
  Address = ℕ;
  getpeername = λ fd. (pos 0, 0);
  getsockname = λ fd. (pos 0, 0);
  getnameinfo = λ a flags. (pos 0, codes "10.0.0.1", names flags);
  getsockopt = λ fd level option. (pos 0, pos 1);
  ss_family = λ a. pos 2;
  af_inet6 = pos 10;
  ni_numerichost = 1;
  ni_numericserv = 2;
  sol_socket = pos 1;
  so_sndbuf = pos 7;
  so_rcvbuf = pos 8;
  so_keepalive = pos 9;
  ipproto_tcp = pos 6;
  tcp_nodelay = pos 1;
}

socket_to_address_throws_example : socket_to_address sim_lookup (pos 5) [] 0 ≡ none
unfolding has_flag
socket_to_address_throws_example =
    socket_to_address_throws sim_lookup (pos 5) [] 0 b'h' (codes "ttp-alt") refl refl refl
      (omega arith)
