-- ===== src/Linux/Supply.antt =====
-- The operations for Linux take off what is to come as the kernel does, and add nothing to it.
use proxy_server_sa.Base.{
  ℕ, suc, ◌≤◌, ◌<◌, ◌≡◌, inl, inr, Bool, true, false, not, ◌&&◌, Option, none, some, List, [], ◌∷◌,
  arith, All, take, is_empty, bit_or, if◌then◌else◌, if_both,
}
use proxy_server_sa.Base.Decimal.{to_string}
use proxy_server_sa.Base.Int.{ℤ, pos, minus_one, is_negative, is_positive, pos_part, ◌==ℤ◌, ℤ-cases}
use proxy_server_sa.Net.{PollEvent}
use proxy_server_sa.Net.Laws.{Supply, Rounds}
use native.Mathlib.Nat.{le_refl}
use proxy_server_sa.Linux.Syscalls.{Kernel, Brings, AddrInfo}
use proxy_server_sa.Linux.{
  linux, interest, register_read_event, update_event_interest, accept_connection, receive,
  send_bytes, create_event_poller, wait_with_room, close_socket, set_socket_non_blocking,
  connect_tcp_ipv4, try_candidates, create_listening_socket, initialize_network,
}
use proxy_server_sa.Linux.Events.{poll_events_other}

module _ (k : Kernel) (b : Brings k) where
  open k use {World, Address}
  open b use {supply}

  pub close_socket_bounded : (fd : ℤ) (w : World) → supply (close_socket k fd w) ≤ supply w
  unfolding close_socket
  close_socket_bounded fd w = ground (arith, b.close_bounded fd w)

  pub set_socket_non_blocking_bounded :
      (fd : ℤ) (w : World) → supply (set_socket_non_blocking k fd w).1 ≤ supply w
  unfolding set_socket_non_blocking
  set_socket_non_blocking_bounded fd w =
      let (flags, w1) = k.fcntl_getfl fd w in
      ground
        (arith, b.getfl_bounded fd w, b.setfl_bounded fd (bit_or (pos_part flags) k.o_nonblock) w1)

  try_candidates_bounded :
      (backlog : ℤ) (ais : List (AddrInfo Address)) (w : World)
      → supply (try_candidates k backlog ais w).1 ≤ supply w
  unfolding try_candidates
  try_candidates_bounded backlog [] w = le_refl (supply w)
  try_candidates_bounded backlog (ai ∷ rest) w =
      let (fd, w1) = k.socket ai.family ai.socktype ai.protocol w in
      let w2 = (k.setsockopt fd k.sol_socket k.so_reuseaddr (pos 1) w1).1 in
      let w2' = (k.setsockopt fd k.ipproto_ipv6 k.ipv6_v6only (pos 0) w2).1 in
      let w3 = if ai.family ==ℤ k.af_inet6 then w2' else w2 in
      let w4 = (k.bind fd ai.addr w3).1 in
      let w5 = (k.listen fd backlog w4).1 in
      ground (
        arith,
        b.socket_bounded ai.family ai.socktype ai.protocol w,
        b.setsockopt_bounded fd k.sol_socket k.so_reuseaddr (pos 1) w1,
        b.setsockopt_bounded fd k.ipproto_ipv6 k.ipv6_v6only (pos 0) w2,
        b.bind_bounded fd ai.addr w3,
        b.listen_bounded fd backlog w4,
        b.close_bounded fd w4,
        b.close_bounded fd w5,
        try_candidates_bounded backlog rest w1,
        try_candidates_bounded backlog rest (k.close fd w4).1,
        try_candidates_bounded backlog rest (k.close fd w5).1,
      )

  pub create_listening_socket_bounded :
      (host : List ℕ) (port n : ℤ) (w : World)
      → supply (create_listening_socket k host port n w).1 ≤ supply w
  unfolding create_listening_socket
  create_listening_socket_bounded host port n w =
      let name : Option (List ℕ) = if is_empty host then none else some host in
      let got = k.getaddrinfo name (to_string port) k.af_unspec k.sock_stream k.ai_passive w in
      ground (
        arith,
        b.getaddrinfo_bounded name (to_string port) k.af_unspec k.sock_stream k.ai_passive w,
        try_candidates_bounded n got.1 got.2,
      )

  pub connect_tcp_ipv4_bounded :
      (ip port : ℕ) (w : World) → supply (connect_tcp_ipv4 k ip port w).1 ≤ supply w
  unfolding connect_tcp_ipv4
  connect_tcp_ipv4_bounded ip port w =
      let (fd, w1) = k.socket k.af_inet k.sock_stream (pos 0) w in
      let w2 = (set_socket_non_blocking k fd w1).1 in
      let address = k.sockaddr_in (k.htonl ip) (k.htons port) in
      let w3 = (k.connect fd address w2).1 in
      ground (
        arith,
        b.socket_bounded k.af_inet k.sock_stream (pos 0) w,
        set_socket_non_blocking_bounded fd w1,
        b.connect_bounded fd address w2,
        close_socket_bounded fd w2,
        close_socket_bounded fd w3,
      )

  pub wait_with_room_takes :
      (p n t : ℤ) (w : World)
      → is_negative (wait_with_room k p n t w).0 ≡ false
      → supply (wait_with_room k p n t w).2 < supply w
  unfolding wait_with_room
  wait_with_room_takes p n t w h = ground (arith, b.wait_takes p n t w)

  pub wait_with_room_bounded :
      (p n t : ℤ) (w : World) → supply (wait_with_room k p n t w).2 ≤ supply w
  unfolding wait_with_room
  wait_with_room_bounded p n t w = ground (arith, b.wait_bounded p n t w)

  abbrev NoPoller : ℤ → List PollEvent → Type 0
  NoPoller p es = All (λ e. (e.fd ==ℤ p) ≡ false) es

  pub wait_with_room_other :
      (p n t : ℤ) (w : World) (m : ℕ)
      → All (λ e. (e.fd ==ℤ p) ≡ false) (take (suc m) (wait_with_room k p n t w).1)
  unfolding wait_with_room
  wait_with_room_other p n t w m =
      let got = k.epoll_wait p n t w in
      if_both (λ (r : ℤ × List PollEvent × World). NoPoller p (take (suc m) r.1))
        (is_negative got.0 && not (k.errno got.2 ==ℤ k.eintr)) tt
        (elim (ℤ-cases got.0) [
          | inl x ↦ rw x tt
          | inr (inl (j, x)) ↦
              rw x (poll_events_other k p (take (suc j) got.1) (suc m) (b.wait_other p n t w j))
          | inr (inr (_, x)) ↦ rw x tt
        ])

  pub accept_connection_takes :
      (fd : ℤ) (w : World)
      → is_negative (accept_connection k fd w).0 ≡ false
      → supply (accept_connection k fd w).1 < supply w
  unfolding accept_connection
  accept_connection_takes = b.accept_takes

  pub accept_connection_bounded :
      (fd : ℤ) (w : World) → supply (accept_connection k fd w).1 ≤ supply w
  unfolding accept_connection
  accept_connection_bounded = b.accept_bounded

  pub receive_takes :
      (fd : ℤ) (len : ℕ) (w : World)
      → is_positive (receive k fd len w).0 ≡ true
      → supply (receive k fd len w).2 < supply w
  unfolding receive
  receive_takes fd len w = b.recv_takes fd len (pos 0) w

  pub receive_bounded : (fd : ℤ) (len : ℕ) (w : World) → supply (receive k fd len w).2 ≤ supply w
  unfolding receive
  receive_bounded fd len w = b.recv_bounded fd len (pos 0) w

  pub send_bytes_bounded :
      (fd : ℤ) (bytes : List ℕ) (w : World) → supply (send_bytes k fd bytes w).1 ≤ supply w
  unfolding send_bytes
  send_bytes_bounded fd bytes w = b.send_bounded fd bytes (pos 0) w

  pub register_read_event_bounded :
      (p fd : ℤ) (w : World) → supply (register_read_event k p fd w).1 ≤ supply w
  unfolding register_read_event
  register_read_event_bounded p fd w =
      b.ctl_bounded p k.epoll_ctl_add fd (record { events = k.epollin; fd = fd }) w

  pub update_event_interest_bounded :
      (p fd : ℤ) (r s : Bool) (w : World) → supply (update_event_interest k p fd r s w).1 ≤ supply w
  unfolding update_event_interest
  update_event_interest_bounded p fd r s w =
      b.ctl_bounded p k.epoll_ctl_mod fd (record { events = interest k r s; fd = fd }) w

  pub initialize_network_bounded : (w : World) → supply (initialize_network k w).1 ≤ supply w
  unfolding initialize_network
  initialize_network_bounded w = omega arith

  pub create_event_poller_bounded : (w : World) → supply (create_event_poller k w).1 ≤ supply w
  unfolding create_event_poller
  create_event_poller_bounded w = b.epoll_bounded (pos 0) w

  abbrev pub linux_supply : Supply (linux k)
  linux_supply = record {
    supply = supply;
    accept_takes = accept_connection_takes;
    accept_bounded = accept_connection_bounded;
    receive_takes = receive_takes;
    receive_bounded = receive_bounded;
    non_blocking_bounded = set_socket_non_blocking_bounded;
    register_bounded = register_read_event_bounded;
    update_bounded = update_event_interest_bounded;
    send_bounded = send_bytes_bounded;
    connect_bounded = connect_tcp_ipv4_bounded;
    close_bounded = close_socket_bounded;
  }

  abbrev pub linux_rounds : Rounds (linux k) linux_supply
  linux_rounds = record {
    no_poller = λ p n w m. wait_with_room_other p n minus_one w m;
    wait_takes = λ p n w. wait_with_room_takes p n minus_one w;
    wait_bounded = λ p n w. wait_with_room_bounded p n minus_one w;
    initialize_bounded = initialize_network_bounded;
    listen_bounded = create_listening_socket_bounded;
    poller_bounded = create_event_poller_bounded;
  }
