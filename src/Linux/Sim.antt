-- ===== src/Linux/Sim.antt =====
-- The small machine of `Net.Sim` as a kernel, for the examples.
use proxy_server_sa.Base.{
  ℕ, zero, suc, ◌≤◌, ◌<◌, ◌≡◌, refl, inl, inr, Bool, true, false, ◌&&◌, not, List, [], ◌∷◌, arith,
  All, take, length, ap, Bool-cases,
}
use proxy_server_sa.Base.Int.{ℤ, pos, minus_one, is_negative, ◌==ℤ◌, ==ℤ_iff}
use native.Mathlib.Nat.{le_refl}
use proxy_server_sa.Net.{PollEvent}
use proxy_server_sa.Net.Laws.{opened}
use proxy_server_sa.Net.Sim.{Machine, open_next, accept_by, receive_by, send_by, without}
use proxy_server_sa.Net.SimLaws.{
  next_opens, next_fresh, accept_opens, accept_fresh, receive_keeps, send_keeps, supply_of,
  accept_takes, accept_bounded, receive_takes, receive_bounded, send_bounded, next_bounded,
  receive_some, receive_none, send_some, send_none,
}
use proxy_server_sa.Linux.Syscalls.{Kernel, Opens, Brings, EpollEvent}
use proxy_server_sa.Linux.Streams.{Moves}

abbrev pub reported : List PollEvent → List EpollEvent
reported [] = []
reported (e ∷ es) = record { events = e.mask; fd = e.fd } ∷ reported es

abbrev pub epoll_by : ℤ → List (List PollEvent) → Machine → ℤ × List EpollEvent × Machine
epoll_by p [] w = (minus_one, [], w)
epoll_by p (b ∷ bs) w =
    (pos (length (without p b)), reported (without p b), record w { batches = bs })

abbrev pub sim_kernel : Kernel
sim_kernel = record {
  World = Machine;
  Address = ℕ;
  errno = λ w. pos 0;
  getaddrinfo = λ host port f t flags w.
      (pos 0, record { family = pos 2; socktype = pos 1; protocol = pos 0; addr = 0 } ∷ [], w);
  socket = λ f t p w. open_next w;
  setsockopt = λ fd l o v w. (pos 0, w);
  bind = λ fd a w. (pos 0, w);
  listen = λ fd n w. (pos 0, w);
  accept = λ fd w. accept_by w.waiting w;
  connect = λ fd a w. (pos 0, w);
  recv = λ fd n f w. receive_by w.inbox w;
  send = λ fd bytes f w. send_by bytes w;
  close = λ fd w. (pos 0, record w { is_open = λ j. not (j ==ℤ fd) && w.is_open j });
  fcntl_getfl = λ fd w. (pos 2, w);
  fcntl_setfl = λ fd f w. (pos 0, w);
  epoll_create1 = λ f w. open_next w;
  epoll_ctl = λ p op fd e w. (pos 0, w);
  epoll_wait = λ p n t w. epoll_by p w.batches w;
  sockaddr_in = λ ip port. 0;
  htonl = λ n. n;
  htons = λ n. n;
  af_unspec = pos 0;
  af_inet = pos 2;
  af_inet6 = pos 10;
  sock_stream = pos 1;
  ai_passive = 1;
  sol_socket = pos 1;
  so_reuseaddr = pos 2;
  ipproto_ipv6 = pos 41;
  ipv6_v6only = pos 26;
  o_nonblock = 2048;
  epoll_ctl_add = pos 1;
  epoll_ctl_mod = pos 3;
  epollin = 0x001;
  epollout = 0x004;
  epollerr = 0x008;
  epollhup = 0x010;
  epollrdhup = 0x2000;
  eintr = pos 4;
  einprogress = pos 115;
}

pub epoll_keeps :
    (p : ℤ) (bs : List (List PollEvent)) (w : Machine) (j : ℤ)
    → (epoll_by p bs w).2.is_open j ≡ w.is_open j
epoll_keeps p [] w j = refl
epoll_keeps p (b ∷ bs) w j = refl

abbrev pub seen : Machine → ℤ → Bool
seen w j = not (is_negative j) && w.is_open j

pub opens_seen :
    (b b' : Bool) (fd j : ℤ)
    → b' ≡ opened b fd j
    → (not (is_negative j) && b') ≡ opened (not (is_negative j) && b) fd j
opens_seen b b' fd j h = ground (arith, ==ℤ_iff j fd)

pub fresh_seen : (b : Bool) (j : ℤ) → b ≡ false → (not (is_negative j) && b) ≡ false
fresh_seen b j h = ground arith

pub negative_unseen : (b : Bool) (j : ℤ) → is_negative j ≡ true → (not (is_negative j) && b) ≡ false
negative_unseen b j h = ground arith

pub close_seen :
    (b c : Bool) (j : ℤ) → (not (is_negative j) && (c && b)) ≡ (c && (not (is_negative j) && b))
close_seen b c j = ground arith

-- No descriptor is negative on a machine that says so of its own.
abbrev pub sim_opens : Opens sim_kernel
sim_opens = record {
  is_open = seen;
  none_negative = λ fd w h. negative_unseen (w.is_open fd) fd h;
  socket_opens = λ f t p w j.
      opens_seen (w.is_open j) ((open_next w).1.is_open j) (open_next w).0 j (next_opens w j);
  socket_fresh =
      λ f t p w h. fresh_seen (w.is_open (open_next w).0) (open_next w).0 (next_fresh w h);
  accept_opens = λ fd w j.
      let r = accept_by w.waiting w in
      opens_seen (w.is_open j) (r.1.is_open j) r.0 j (accept_opens w.waiting w j);
  accept_fresh = λ fd w h.
      let r = accept_by w.waiting w in fresh_seen (w.is_open r.0) r.0 (accept_fresh w.waiting w h);
  epoll_opens = λ f w j.
      opens_seen (w.is_open j) ((open_next w).1.is_open j) (open_next w).0 j (next_opens w j);
  epoll_fresh = λ f w h. fresh_seen (w.is_open (open_next w).0) (open_next w).0 (next_fresh w h);
  close_closes = λ fd w j. close_seen (w.is_open j) (not (j ==ℤ fd)) j;
  getaddrinfo_keeps = λ h p f t fl w j. refl;
  setsockopt_keeps = λ fd l o v w j. refl;
  bind_keeps = λ fd a w j. refl;
  listen_keeps = λ fd n w j. refl;
  connect_keeps = λ fd a w j. refl;
  recv_keeps = λ fd n f w j. ap (λ x. not (is_negative j) && x) (receive_keeps w.inbox w j);
  send_keeps = λ fd b f w j. ap (λ x. not (is_negative j) && x) (send_keeps b w j);
  getfl_keeps = λ fd w j. refl;
  setfl_keeps = λ fd f w j. refl;
  ctl_keeps = λ p op fd e w j. refl;
  wait_keeps = λ p n t w j. ap (λ x. not (is_negative j) && x) (epoll_keeps p w.batches w j);
}

abbrev pub sim_moves : Moves sim_kernel
sim_moves = record {
  pending = λ w fd. w.inbox;
  sent = λ w fd. w.outbox;
  recv_some = λ fd n w m h. receive_some w.inbox w m refl h;
  recv_none = λ fd n w h. receive_none w.inbox w h;
  send_some = λ fd bytes w m h. send_some bytes w m h;
  send_none = λ fd bytes w h. send_none bytes w h;
}

reported_lem :
    (p : ℤ) (n : ℕ) (es : List PollEvent)
    → All (λ e. (e.fd ==ℤ p) ≡ false) (take n (reported (without p es)))
reported_lem p zero es = tt
reported_lem p (suc n) [] = tt
reported_lem p (suc n) (e ∷ es) = elim (Bool-cases (e.fd ==ℤ p)) [
  | inl x ↦ rw x (reported_lem p (suc n) es)
  | inr x ↦ rw x (x, reported_lem p n es)
]

pub epoll_other :
    (p : ℤ) (bs : List (List PollEvent)) (w : Machine) (m : ℕ)
    → All (λ e. (e.fd ==ℤ p) ≡ false) (take (suc m) (epoll_by p bs w).1)
epoll_other p [] w m = tt
epoll_other p (b ∷ bs) w m = reported_lem p (suc m) b

pub epoll_takes :
    (p : ℤ) (bs : List (List PollEvent)) (w : Machine)
    → w.batches ≡ bs
    → is_negative (epoll_by p bs w).0 ≡ false
    → supply_of (epoll_by p bs w).2 < supply_of w
epoll_takes p [] w e h = ground arith
epoll_takes p (b ∷ bs) w e h = omega (arith, ap length e)

pub epoll_bounded :
    (p : ℤ) (bs : List (List PollEvent)) (w : Machine)
    → w.batches ≡ bs
    → supply_of (epoll_by p bs w).2 ≤ supply_of w
epoll_bounded p [] w e = omega arith
epoll_bounded p (b ∷ bs) w e = omega (arith, ap length e)

abbrev pub sim_brings : Brings sim_kernel
sim_brings = record {
  supply = supply_of;
  accept_takes = λ fd w h. accept_takes w.waiting w refl h;
  accept_bounded = λ fd w. accept_bounded w.waiting w refl;
  recv_takes = λ fd n f w h. receive_takes w.inbox w refl h;
  recv_bounded = λ fd n f w. receive_bounded w.inbox w refl;
  wait_takes = λ p n t w h. epoll_takes p w.batches w refl h;
  wait_bounded = λ p n t w. epoll_bounded p w.batches w refl;
  wait_other = λ p n t w m. epoll_other p w.batches w m;
  getaddrinfo_bounded = λ h p f t fl w. le_refl (supply_of w);
  socket_bounded = λ f t p w. next_bounded w;
  setsockopt_bounded = λ fd l o v w. le_refl (supply_of w);
  bind_bounded = λ fd a w. le_refl (supply_of w);
  listen_bounded = λ fd n w. le_refl (supply_of w);
  connect_bounded = λ fd a w. le_refl (supply_of w);
  send_bounded = λ fd b f w. send_bounded b w;
  close_bounded = λ fd w. le_refl (supply_of w);
  getfl_bounded = λ fd w. le_refl (supply_of w);
  setfl_bounded = λ fd f w. le_refl (supply_of w);
  epoll_bounded = λ f w. next_bounded w;
  ctl_bounded = λ p op fd e w. le_refl (supply_of w);
}
