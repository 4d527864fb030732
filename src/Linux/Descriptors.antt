-- ===== src/Linux/Descriptors.antt =====
-- The operations for Linux open and close descriptors as core/network.h asks.
use proxy_server_sa.Base.{ℕ, Bool, List, arith, refl}
use proxy_server_sa.Base.Int.{ℤ, pos, minus_one}
use proxy_server_sa.Net.Laws.{Descriptors}
use proxy_server_sa.Linux.Syscalls.{Kernel, Opens}
use proxy_server_sa.Linux.{
  linux, interest, register_read_event, update_event_interest, accept_connection, receive,
  send_bytes, create_event_poller, wait_with_room, initialize_network, shut_down_network,
}
use proxy_server_sa.Linux.Listening.{
  OpensOne, Same, create_listening_socket-OpensOne, connect_tcp_ipv4-OpensOne,
  set_socket_non_blocking-Same, close_socket_lem,
}

module _ (k : Kernel) (o : Opens k) where
  open k use {World}

  pub initialize_network-Same : (w : World) → Same k o w (initialize_network k w).1
  unfolding initialize_network
  initialize_network-Same w j = refl

  pub shut_down_network-Same : (w : World) → Same k o w (shut_down_network k w)
  unfolding shut_down_network
  shut_down_network-Same w j = refl

  pub accept_connection-OpensOne : (fd : ℤ) (w : World) → OpensOne k o w (accept_connection k fd w)
  unfolding accept_connection
  accept_connection-OpensOne fd w = record {
    opens = o.accept_opens fd w;
    fresh = o.accept_fresh fd w;
  }

  pub create_event_poller-OpensOne : (w : World) → OpensOne k o w (create_event_poller k w)
  unfolding create_event_poller
  create_event_poller-OpensOne w = record {
    opens = o.epoll_opens (pos 0) w;
    fresh = o.epoll_fresh (pos 0) w;
  }

  pub register_read_event-Same :
      (p fd : ℤ) (w : World) → Same k o w (register_read_event k p fd w).1
  unfolding register_read_event
  register_read_event-Same p fd w j =
      o.ctl_keeps p k.epoll_ctl_add fd (record { events = k.epollin; fd = fd }) w j

  pub update_event_interest-Same :
      (p fd : ℤ) (r s : Bool) (w : World) → Same k o w (update_event_interest k p fd r s w).1
  unfolding update_event_interest
  update_event_interest-Same p fd r s w j =
      o.ctl_keeps p k.epoll_ctl_mod fd (record { events = interest k r s; fd = fd }) w j

  pub receive-Same : (fd : ℤ) (n : ℕ) (w : World) → Same k o w (receive k fd n w).2
  unfolding receive
  receive-Same fd n w j = o.recv_keeps fd n (pos 0) w j

  pub send_bytes-Same :
      (fd : ℤ) (bytes : List ℕ) (w : World) → Same k o w (send_bytes k fd bytes w).1
  unfolding send_bytes
  send_bytes-Same fd bytes w j = o.send_keeps fd bytes (pos 0) w j

  pub wait_with_room-Same : (p n t : ℤ) (w : World) → Same k o w (wait_with_room k p n t w).2
  unfolding wait_with_room
  wait_with_room-Same p n t w j = ground (arith, o.wait_keeps p n t w j)

  abbrev pub linux_descriptors : Descriptors (linux k)
  linux_descriptors = record {
    is_open = o.is_open;
    initialize_keeps = initialize_network-Same;
    shut_down_keeps = shut_down_network-Same;
    accept_opens = λ s w j. (accept_connection-OpensOne s w).opens j;
    accept_fresh = λ s w. (accept_connection-OpensOne s w).fresh;
    connect_opens = λ ip port w j. (connect_tcp_ipv4-OpensOne k o ip port w).opens j;
    connect_fresh = λ ip port w. (connect_tcp_ipv4-OpensOne k o ip port w).fresh;
    listen_opens = λ h p n w j. (create_listening_socket-OpensOne k o h p n w).opens j;
    listen_fresh = λ h p n w. (create_listening_socket-OpensOne k o h p n w).fresh;
    poller_opens = λ w j. (create_event_poller-OpensOne w).opens j;
    poller_fresh = λ w. (create_event_poller-OpensOne w).fresh;
    close_closes = λ fd w j. close_socket_lem k o fd w j;
    non_blocking_keeps = λ fd w j. set_socket_non_blocking-Same k o fd w j;
    register_keeps = λ p fd w j. register_read_event-Same p fd w j;
    update_keeps = λ p fd r s w j. update_event_interest-Same p fd r s w j;
    receive_keeps = λ fd n w j. receive-Same fd n w j;
    send_keeps = λ fd bytes w j. send_bytes-Same fd bytes w j;
    wait_keeps = λ p n w j. wait_with_room-Same p n minus_one w j;
  }
