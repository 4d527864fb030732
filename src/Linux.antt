-- ===== src/Linux.antt =====
-- core/os/linux/network_linux.cc: the operations of core/network.h on sockets and epoll. The system
-- calls are no part of the repository: `Kernel` takes them as parameters, with the constants of the
-- system headers. `freeaddrinfo` is left out, since memory is not modelled; so is a vector in
-- `WaitForEvents` that the memory cannot hold.
pub mod Syscalls
pub mod Listening
pub mod Descriptors
pub mod Supply
pub mod Streams
pub mod Events
pub mod Info
pub mod Ports
pub mod Refinement
pub mod Running
pub mod Sim
mod Tests
use proxy_server_sa.Base.{
  ℕ, zero, suc, Bool, true, false, not, ◌&&◌, ◌||◌, Option, none, some, List, [], ◌∷◌, ◌++◌,
  if◌then◌else◌, is_empty, take, bit_or, map,
}
use proxy_server_sa.Base.Int.{ℤ, pos, negsuc, minus_one, is_negative, pos_part, ◌==ℤ◌}
use proxy_server_sa.Base.Decimal.{to_string}
use proxy_server_sa.Net.{
  Network, PollEvent, has_flag, event_readable, event_writable, event_error, event_hangup,
}
use proxy_server_sa.Linux.Syscalls.{Kernel, AddrInfo, EpollEvent}

module _ (k : Kernel) where
  open k use {
    World, Address, getaddrinfo, socket, setsockopt, bind, listen, accept, connect, recv, send,
    close, fcntl_getfl, fcntl_setfl, epoll_create1, epoll_ctl, epoll_wait, errno,
  }

  -- `InitializeNetwork` and `ShutDownNetwork`
  unfoldable pub initialize_network : World → Bool × World
  initialize_network w = (true, w)

  unfoldable pub shut_down_network : World → World
  shut_down_network w = w

  -- The loop over the candidates of `CreateListeningSocket`.
  unfoldable pub try_candidates : ℤ → List (AddrInfo Address) → World → ℤ × World
  try_candidates backlog [] w = (minus_one, w)
  try_candidates backlog (ai ∷ rest) w =
      let (fd, w1) = socket ai.family ai.socktype ai.protocol w in
      let (_, w2) = setsockopt fd k.sol_socket k.so_reuseaddr (pos 1) w1 in
      let w3 =
        if ai.family ==ℤ k.af_inet6
        then (setsockopt fd k.ipproto_ipv6 k.ipv6_v6only (pos 0) w2).1
        else w2 in
      let (bound, w4) = bind fd ai.addr w3 in
      let (listening, w5) = listen fd backlog w4 in
      elim (is_negative fd) [
        | true ↦ try_candidates backlog rest w1
        | false ↦ elim (is_negative bound) [
          | true ↦ try_candidates backlog rest (close fd w4).1
          | false ↦ elim (is_negative listening) [
            | true ↦ try_candidates backlog rest (close fd w5).1
            | false ↦ (fd, w5)
          ]
        ]
      ]

  -- `CreateListeningSocket`
  unfoldable pub create_listening_socket : List ℕ → ℤ → ℤ → World → ℤ × World
  unfolding try_candidates to_string
  create_listening_socket bind_host port backlog w =
      let (status, result, w1) =
        getaddrinfo (if is_empty bind_host then none else some bind_host) (to_string port)
          k.af_unspec k.sock_stream k.ai_passive w in
      if not (status ==ℤ pos 0) then (minus_one, w1) else try_candidates backlog result w1

  -- `SetSocketNonBlocking`. Flags other than -1 are not negative.
  unfoldable pub set_socket_non_blocking : ℤ → World → Bool × World
  set_socket_non_blocking fd w =
      let (flags, w1) = fcntl_getfl fd w in
      let (r, w2) = fcntl_setfl fd (bit_or (pos_part flags) k.o_nonblock) w1 in
      if flags ==ℤ minus_one
      then (false, w1)
      else if r ==ℤ minus_one
      then (false, w2)
      else (true, w2)

  -- `CreateEventPoller`
  unfoldable pub create_event_poller : World → ℤ × World
  create_event_poller w = epoll_create1 (pos 0) w

  -- `RegisterReadEvent`
  unfoldable pub register_read_event : ℤ → ℤ → World → Bool × World
  register_read_event poller fd w =
      let (r, w') =
        epoll_ctl poller k.epoll_ctl_add fd (record { events = k.epollin; fd = fd }) w in
      (not (is_negative r), w')

  -- The interests as flags of epoll.
  unfoldable pub interest : Bool → Bool → ℕ
  interest readable writable =
      let events = if readable then bit_or 0 k.epollin else 0 in
      if writable then bit_or events k.epollout else events

  -- `UpdateEventInterest`
  unfoldable pub update_event_interest : ℤ → ℤ → Bool → Bool → World → Bool × World
  unfolding interest
  update_event_interest poller fd readable writable w =
      let (r, w') =
        epoll_ctl poller k.epoll_ctl_mod fd
          (record { events = interest readable writable; fd = fd }) w in
      (not (is_negative r), w')

  -- One entry of `out_events`.
  unfoldable pub poll_event : EpollEvent → PollEvent
  unfolding has_flag
  poll_event e =
      let m1 = if has_flag e.events k.epollin then bit_or 0 event_readable else 0 in
      let m2 = if has_flag e.events k.epollout then bit_or m1 event_writable else m1 in
      let m3 = if has_flag e.events k.epollerr then bit_or m2 event_error else m2 in
      let m4 =
        if has_flag e.events (bit_or k.epollhup k.epollrdhup) then bit_or m3 event_hangup else m3 in
      record { fd = e.fd; mask = m4 }

  -- The loop over the events that came.
  unfoldable pub poll_events : List EpollEvent → List PollEvent
  unfolding poll_event
  poll_events [] = []
  poll_events (e ∷ es) = poll_event e ∷ poll_events es

  -- `WaitForEvents` after its vector is made, with the filled part of `out_events`.
  unfoldable pub wait_with_room : ℤ → ℤ → ℤ → World → ℤ × List PollEvent × World
  unfolding poll_events
  wait_with_room poller max_events timeout_ms w =
      let (n, events, w') = epoll_wait poller max_events timeout_ms w in
      if is_negative n && not (errno w' ==ℤ k.eintr) then (minus_one, [], w') else elim n [
        | negsuc e ↦ (negsuc e, [], w')
        | pos zero ↦ (pos zero, [], w')
        | pos (suc m) ↦ (pos (suc m), poll_events (take (suc m) events), w')
      ]

  -- `WaitForEvents`. `none`: a vector of a negative `max_events`, as a `std::size_t`, is too long, so
  -- that its constructor throws `std::length_error`, which nothing catches.
  unfoldable pub wait_for_events : ℤ → ℤ → ℤ → World → Option (ℤ × List PollEvent × World)
  unfolding wait_with_room
  wait_for_events poller max_events timeout_ms w =
      if is_negative max_events then none else some (wait_with_room poller max_events timeout_ms w)

  -- `AcceptConnection`
  unfoldable pub accept_connection : ℤ → World → ℤ × World
  accept_connection fd w = accept fd w

  -- `Receive`
  unfoldable pub receive : ℤ → ℕ → World → ℤ × List ℕ × World
  receive fd length w = recv fd length (pos 0) w

  -- `Send`
  unfoldable pub send_bytes : ℤ → List ℕ → World → ℤ × World
  send_bytes fd bytes w = send fd bytes (pos 0) w

  -- `CloseSocket`
  unfoldable pub close_socket : ℤ → World → World
  close_socket fd w = if is_negative fd then w else (close fd w).1

  -- `ConnectTCPIPv4`
  unfoldable pub connect_tcp_ipv4 : ℕ → ℕ → World → ℤ × World
  unfolding set_socket_non_blocking close_socket
  connect_tcp_ipv4 dst_ipv4 dst_port w =
      let (fd, w1) = socket k.af_inet k.sock_stream (pos 0) w in
      let (unblocked, w2) = set_socket_non_blocking fd w1 in
      let (rc, w3) = connect fd (k.sockaddr_in (k.htonl dst_ipv4) (k.htons dst_port)) w2 in
      if is_negative fd
      then (minus_one, w1)
      else if not unblocked
      then (minus_one, close_socket fd w2)
      else if is_negative rc && not (errno w3 ==ℤ k.einprogress)
      then (minus_one, close_socket fd w3)
      else (fd, w3)

  -- The interface of core/network.h, as this file fills it. The event loop never times out, and does
  -- not come to wait where `max_events` is negative.
  abbrev pub linux : Network
  linux = record {
    World = World;
    initialize_network = initialize_network;
    shut_down_network = shut_down_network;
    set_socket_non_blocking = set_socket_non_blocking;
    register_read_event = register_read_event;
    update_event_interest = update_event_interest;
    accept_connection = accept_connection;
    receive = receive;
    send = send_bytes;
    connect_tcp_ipv4 = connect_tcp_ipv4;
    close_socket = close_socket;
    create_listening_socket = create_listening_socket;
    create_event_poller = create_event_poller;
    wait_for_events = λ poller max_events w. wait_with_room poller max_events minus_one w;
  }
