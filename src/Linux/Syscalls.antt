-- ===== src/Linux/Syscalls.antt =====
-- The system calls that core/os/linux/network_linux.cc makes, and what is documented of them.
use proxy_server_sa.Base.{
  ℕ, suc, ◌≤◌, ◌<◌, ◌≡◌, Bool, true, false, not, ◌&&◌, Option, List, take, All,
}
use proxy_server_sa.Base.Int.{ℤ, is_negative, is_positive, ◌==ℤ◌}
use proxy_server_sa.Net.Laws.{opened}

-- `addrinfo`, as far as it is read.
pub record AddrInfo (A : Type 0) : Type 0 where
  pub family : ℤ
  pub socktype : ℤ
  pub protocol : ℤ
  pub addr : A

-- `epoll_event`, with the descriptor as its data.
pub record EpollEvent : Type 0 where
  pub events : ℕ
  pub fd : ℤ

-- Each call gives back what it returns, what it writes to its buffers, and the machine afterwards.
pub record Kernel : Type 1 where
  pub World : Type 0
  pub Address : Type 0
  pub errno : World → ℤ
  pub getaddrinfo :
      Option (List ℕ) → List ℕ → ℤ → ℤ → ℕ → World → ℤ × List (AddrInfo Address) × World
  pub socket : ℤ → ℤ → ℤ → World → ℤ × World
  pub setsockopt : ℤ → ℤ → ℤ → ℤ → World → ℤ × World
  pub bind : ℤ → Address → World → ℤ × World
  pub listen : ℤ → ℤ → World → ℤ × World
  pub accept : ℤ → World → ℤ × World
  pub connect : ℤ → Address → World → ℤ × World
  pub recv : ℤ → ℕ → ℤ → World → ℤ × List ℕ × World
  pub send : ℤ → List ℕ → ℤ → World → ℤ × World
  pub close : ℤ → World → ℤ × World
  pub fcntl_getfl : ℤ → World → ℤ × World
  pub fcntl_setfl : ℤ → ℕ → World → ℤ × World
  pub epoll_create1 : ℤ → World → ℤ × World
  pub epoll_ctl : ℤ → ℤ → ℤ → EpollEvent → World → ℤ × World
  pub epoll_wait : ℤ → ℤ → ℤ → World → ℤ × List EpollEvent × World
  pub sockaddr_in : ℕ → ℕ → Address
  pub htonl : ℕ → ℕ
  pub htons : ℕ → ℕ
  pub af_unspec : ℤ
  pub af_inet : ℤ
  pub af_inet6 : ℤ
  pub sock_stream : ℤ
  pub ai_passive : ℕ
  pub sol_socket : ℤ
  pub so_reuseaddr : ℤ
  pub ipproto_ipv6 : ℤ
  pub ipv6_v6only : ℤ
  pub o_nonblock : ℕ
  pub epoll_ctl_add : ℤ
  pub epoll_ctl_mod : ℤ
  pub epollin : ℕ
  pub epollout : ℕ
  pub epollerr : ℕ
  pub epollhup : ℕ
  pub epollrdhup : ℕ
  pub eintr : ℤ
  pub einprogress : ℤ

-- Which calls open and close descriptors: socket(2), accept(2), epoll_create1(2) open a new one or
-- fail, close(2) closes its own also where it reports an error, and no descriptor is negative.
pub record Opens (k : Kernel) : Type 0 where
  pub is_open : k.World → ℤ → Bool
  pub none_negative : (fd : ℤ) (w : k.World) → is_negative fd ≡ true → is_open w fd ≡ false
  pub socket_opens :
      (f t p : ℤ) (w : k.World) (j : ℤ)
      → is_open (k.socket f t p w).1 j ≡ opened (is_open w j) (k.socket f t p w).0 j
  pub socket_fresh :
      (f t p : ℤ) (w : k.World)
      → is_negative (k.socket f t p w).0 ≡ false
      → is_open w (k.socket f t p w).0 ≡ false
  pub accept_opens :
      (fd : ℤ) (w : k.World) (j : ℤ)
      → is_open (k.accept fd w).1 j ≡ opened (is_open w j) (k.accept fd w).0 j
  pub accept_fresh :
      (fd : ℤ) (w : k.World)
      → is_negative (k.accept fd w).0 ≡ false
      → is_open w (k.accept fd w).0 ≡ false
  pub epoll_opens :
      (flags : ℤ) (w : k.World) (j : ℤ)
      → is_open (k.epoll_create1 flags w).1 j ≡ opened (is_open w j) (k.epoll_create1 flags w).0 j
  pub epoll_fresh :
      (flags : ℤ) (w : k.World)
      → is_negative (k.epoll_create1 flags w).0 ≡ false
      → is_open w (k.epoll_create1 flags w).0 ≡ false
  pub close_closes :
      (fd : ℤ) (w : k.World) (j : ℤ) → is_open (k.close fd w).1 j ≡ (not (j ==ℤ fd) && is_open w j)
  pub getaddrinfo_keeps :
      (host : Option (List ℕ)) (port : List ℕ) (f t : ℤ) (flags : ℕ) (w : k.World) (j : ℤ)
      → is_open (k.getaddrinfo host port f t flags w).2 j ≡ is_open w j
  pub setsockopt_keeps :
      (fd l o v : ℤ) (w : k.World) (j : ℤ) → is_open (k.setsockopt fd l o v w).1 j ≡ is_open w j
  pub bind_keeps :
      (fd : ℤ) (a : k.Address) (w : k.World) (j : ℤ) → is_open (k.bind fd a w).1 j ≡ is_open w j
  pub listen_keeps : (fd n : ℤ) (w : k.World) (j : ℤ) → is_open (k.listen fd n w).1 j ≡ is_open w j
  pub connect_keeps :
      (fd : ℤ) (a : k.Address) (w : k.World) (j : ℤ) → is_open (k.connect fd a w).1 j ≡ is_open w j
  pub recv_keeps :
      (fd : ℤ) (n : ℕ) (f : ℤ) (w : k.World) (j : ℤ) → is_open (k.recv fd n f w).2 j ≡ is_open w j
  pub send_keeps :
      (fd : ℤ) (b : List ℕ) (f : ℤ) (w : k.World) (j : ℤ)
      → is_open (k.send fd b f w).1 j ≡ is_open w j
  pub getfl_keeps : (fd : ℤ) (w : k.World) (j : ℤ) → is_open (k.fcntl_getfl fd w).1 j ≡ is_open w j
  pub setfl_keeps :
      (fd : ℤ) (f : ℕ) (w : k.World) (j : ℤ) → is_open (k.fcntl_setfl fd f w).1 j ≡ is_open w j
  pub ctl_keeps :
      (p op fd : ℤ) (e : EpollEvent) (w : k.World) (j : ℤ)
      → is_open (k.epoll_ctl p op fd e w).1 j ≡ is_open w j
  pub wait_keeps :
      (p n t : ℤ) (w : k.World) (j : ℤ) → is_open (k.epoll_wait p n t w).2 j ≡ is_open w j

-- How much will ever come: a connection, a byte or a round of events is taken off it, and no call
-- adds to it.
pub record Brings (k : Kernel) : Type 0 where
  pub supply : k.World → ℕ
  pub accept_takes :
      (fd : ℤ) (w : k.World)
      → is_negative (k.accept fd w).0 ≡ false
      → supply (k.accept fd w).1 < supply w
  pub accept_bounded : (fd : ℤ) (w : k.World) → supply (k.accept fd w).1 ≤ supply w
  pub recv_takes :
      (fd : ℤ) (n : ℕ) (f : ℤ) (w : k.World)
      → is_positive (k.recv fd n f w).0 ≡ true
      → supply (k.recv fd n f w).2 < supply w
  pub recv_bounded : (fd : ℤ) (n : ℕ) (f : ℤ) (w : k.World) → supply (k.recv fd n f w).2 ≤ supply w
  -- epoll_wait(2) with the timeout -1 blocks until an event comes or a signal interrupts it, and then
  -- fails with EINTR: where nothing is left to come, the signal comes at last.
  pub wait_takes :
      (p n t : ℤ) (w : k.World)
      → is_negative (k.epoll_wait p n t w).0 ≡ false
      → supply (k.epoll_wait p n t w).2 < supply w
  pub wait_bounded : (p n t : ℤ) (w : k.World) → supply (k.epoll_wait p n t w).2 ≤ supply w
  -- epoll_ctl(2) refuses to watch a poller by itself, so it is never reported.
  pub wait_other :
      (p n t : ℤ) (w : k.World) (m : ℕ)
      → All (λ e. (e.fd ==ℤ p) ≡ false) (take (suc m) (k.epoll_wait p n t w).1)
  pub getaddrinfo_bounded :
      (host : Option (List ℕ)) (port : List ℕ) (f t : ℤ) (flags : ℕ) (w : k.World)
      → supply (k.getaddrinfo host port f t flags w).2 ≤ supply w
  pub socket_bounded : (f t p : ℤ) (w : k.World) → supply (k.socket f t p w).1 ≤ supply w
  pub setsockopt_bounded :
      (fd l o v : ℤ) (w : k.World) → supply (k.setsockopt fd l o v w).1 ≤ supply w
  pub bind_bounded : (fd : ℤ) (a : k.Address) (w : k.World) → supply (k.bind fd a w).1 ≤ supply w
  pub listen_bounded : (fd n : ℤ) (w : k.World) → supply (k.listen fd n w).1 ≤ supply w
  pub connect_bounded :
      (fd : ℤ) (a : k.Address) (w : k.World) → supply (k.connect fd a w).1 ≤ supply w
  pub send_bounded :
      (fd : ℤ) (b : List ℕ) (f : ℤ) (w : k.World) → supply (k.send fd b f w).1 ≤ supply w
  pub close_bounded : (fd : ℤ) (w : k.World) → supply (k.close fd w).1 ≤ supply w
  pub getfl_bounded : (fd : ℤ) (w : k.World) → supply (k.fcntl_getfl fd w).1 ≤ supply w
  pub setfl_bounded : (fd : ℤ) (f : ℕ) (w : k.World) → supply (k.fcntl_setfl fd f w).1 ≤ supply w
  pub epoll_bounded : (flags : ℤ) (w : k.World) → supply (k.epoll_create1 flags w).1 ≤ supply w
  pub ctl_bounded :
      (p op fd : ℤ) (e : EpollEvent) (w : k.World) → supply (k.epoll_ctl p op fd e w).1 ≤ supply w
