-- ===== src/Macos/Whole.antt =====
-- core/os/macos/network_macos.cc as an implementation of core/network.h. The state is that of the
-- machine together with the pollers of the program. `ConnectTCPIPv4` has no definition in that file:
-- it is a parameter here.
use proxy_server_sa.Base.{ℕ, ◌≡◌, refl, false, List, arith}
use proxy_server_sa.Base.Int.{ℤ, pos, minus_one}
use proxy_server_sa.Net.{Network}
use proxy_server_sa.Net.Laws.{Streams, Apart}
use proxy_server_sa.Linux.Syscalls.{Kernel, Opens}
use proxy_server_sa.Linux.Streams.{Moves, Separates}
use proxy_server_sa.Connection.{ConnectionMap}
use proxy_server_sa.Server.{Server}
use proxy_server_sa.Server.Loop.{destroy_all, close_positive, clean_up_resources}
use proxy_server_sa.Macos.{
  PollFd, PollSystem, PollerStore, no_pollers, create_event_poller, register_read_event,
  update_event_interest, wait_for_events, close_socket,
}
use proxy_server_sa.Macos.Sockets.{
  initialize_network, shut_down_network, create_listening_socket, set_socket_non_blocking,
  accept_connection, receive, send_bytes,
}

-- poll(2) on the machine of `k`, and its flags.
pub record PollCalls (k : Kernel) : Type 0 where
  pub poll : List PollFd → ℤ → k.World → ℤ × List ℕ × k.World
  pub pollin : ℕ
  pub pollout : ℕ
  pub pollerr : ℕ
  pub pollhup : ℕ
  pub pollnval : ℕ

-- What the calls change: the machine, and the pollers of the program.
pub record Process (k : Kernel) : Type 0 where
  pub machine : k.World
  pub pollers : PollerStore

module _ (k : Kernel) (c : PollCalls k) (connect : ℕ → ℕ → k.World → ℤ × k.World) where
  abbrev pub system : PollSystem
  system = record {
    World = k.World;
    errno = k.errno;
    eintr = k.eintr;
    poll = c.poll;
    close = λ fd w. (k.close fd w).1;
    pollin = c.pollin;
    pollout = c.pollout;
    pollerr = c.pollerr;
    pollhup = c.pollhup;
    pollnval = c.pollnval;
  }

  -- The event loop never times out.
  abbrev pub macos : Network
  macos = record {
    World = Process k;
    initialize_network =
        λ w. let (r, v) = initialize_network k w.machine in (r, record w { machine = v });
    shut_down_network = λ w. record w { machine = shut_down_network k w.machine };
    set_socket_non_blocking = λ fd w.
        let (r, v) = set_socket_non_blocking k fd w.machine in (r, record w { machine = v });
    register_read_event = λ poller fd w.
        let (r, s) = register_read_event system poller fd w.pollers in
        (r, record w { pollers = s });
    update_event_interest = λ poller fd readable writable w.
        let (r, s) = update_event_interest system poller fd readable writable w.pollers in
        (r, record w { pollers = s });
    accept_connection =
        λ fd w. let (r, v) = accept_connection k fd w.machine in (r, record w { machine = v });
    receive = λ fd len w.
        let (r, bytes, v) = receive k fd len w.machine in (r, bytes, record w { machine = v });
    send =
        λ fd bytes w. let (r, v) = send_bytes k fd bytes w.machine in (r, record w { machine = v });
    connect_tcp_ipv4 =
        λ ip port w. let (r, v) = connect ip port w.machine in (r, record w { machine = v });
    close_socket = λ fd w. record w { machine = close_socket system fd w.machine };
    create_listening_socket = λ host port n w.
        let (r, v) = create_listening_socket k host port n w.machine in
        (r, record w { machine = v });
    create_event_poller =
        λ w. let (r, s) = create_event_poller w.pollers in (r, record w { pollers = s });
    wait_for_events = λ poller max_events w.
        let (n, events, s, v) =
          wait_for_events system poller max_events minus_one w.pollers w.machine in
        (n, events, record { machine = v; pollers = s });
  }

  -- The bytes of a socket are moved as on Linux, and the pollers hold none.
  pub macos_streams : Moves k → Streams macos
  unfolding receive send_bytes
  macos_streams mv = record {
    pending = λ w fd. mv.pending w.machine fd;
    sent = λ w fd. mv.sent w.machine fd;
    receive_some = λ fd len w m h. mv.recv_some fd len w.machine m h;
    receive_none = λ fd len w h. mv.recv_none fd len w.machine h;
    send_some = λ fd bytes w m h. mv.send_some fd bytes w.machine m h;
    send_none = λ fd bytes w h. mv.send_none fd bytes w.machine h;
  }

  -- Where the kernel keeps the streams apart, so does macOS: event interests are no call of it.
  pub macos_apart : (mv : Moves k) → Separates k mv → Apart macos (macos_streams mv)
  unfolding macos_streams receive send_bytes
  macos_apart mv sep = record {
    receive_apart = λ fd len w j n. sep.recv_apart fd len w.machine j n;
    receive_sends_none = λ fd len w j. sep.recv_sends_none fd len w.machine j;
    send_apart = λ fd bytes w j n. sep.send_apart fd bytes w.machine j n;
    send_takes_none = λ fd bytes w j. sep.send_takes_none fd bytes w.machine j;
    update_takes_none = λ p fd r s w j. refl;
    update_sends_none = λ p fd r s w j. refl;
  }

  module _ (o : Opens k) where
    -- Closing a descriptor opens no other.
    close_socket_closes :
        (fd j : ℤ) (w : k.World)
        → o.is_open w j ≡ false
        → o.is_open (close_socket system fd w) j ≡ false
    unfolding close_socket
    close_socket_closes fd j w h = ground (arith, o.close_closes fd w j)

    first_poller : (w : k.World) → o.is_open (close_socket system (pos 1) w) (pos 1) ≡ false
    unfolding close_socket
    first_poller w = o.close_closes (pos 1) w (pos 1)

    close_positive_closes :
        (fd j : ℤ) (w : Process k)
        → o.is_open w.machine j ≡ false
        → o.is_open (close_positive macos fd w).1.machine j ≡ false
    unfolding close_positive
    close_positive_closes fd j w h = ground (arith, close_socket_closes fd j w.machine h)

    -- On macOS the identifiers of pollers are not descriptors: they count from 1. The cleaning up of
    -- `Run` closes the poller as if it were one, so that a server with the first poller of the program
    -- closes descriptor 1, the standard output, whatever sockets and connections it has.
    pub clean_up_closes_standard_output :
        (socket : ℤ) (m : ConnectionMap) (w : k.World)
        → let made = create_event_poller no_pollers in
          let s : Server = record { socket = socket; poller = made.0; connections = m } in
          o.is_open
            (clean_up_resources macos s (record { machine = w; pollers = made.1 })).1.machine
            (pos 1)
          ≡ false
    unfolding clean_up_resources create_event_poller no_pollers shut_down_network
    clean_up_closes_standard_output socket m w =
        let before = (destroy_all macos m (record { machine = w; pollers = _ })).machine in
        close_positive_closes socket (pos 1) _ (first_poller before)
