-- ===== src/Linux/Running.antt =====
-- The whole server on Linux.
use proxy_server_sa.Base.{
  ℕ, suc, ◌≡◌, ◌<◌, false, true, some, arith, Returns, zero, take, [], ◌∙◌, ap, refl,
}
use proxy_server_sa.Base.Int.{ℤ, minus_one, is_negative, is_positive, pos, ==ℤ_refl}
use proxy_server_sa.Config.{Config}
use proxy_server_sa.Server.{Server, next_event}
use proxy_server_sa.Server.Loop.{event_loop, run, on_events, then_clean_up, clean_up_resources}
use proxy_server_sa.Server.CleanUp.{run_closes_all}
use proxy_server_sa.Linux.Syscalls.{Kernel, Opens, Brings}
use proxy_server_sa.Linux.{linux, wait_for_events, wait_with_room}
use proxy_server_sa.Linux.Descriptors.{linux_descriptors}
use proxy_server_sa.Linux.Supply.{linux_supply, linux_rounds}

module _ (k : Kernel) where
  open k use {World}

  module _ (o : Opens k) (b : Brings k) where
    -- On a kernel that opens and closes descriptors as documented, `Run` returns on every path and
    -- leaves no descriptor above 0 open, if none was open at the start, the number of events is not
    -- negative, and fuel and rounds exceed what the kernel has to bring.
    pub run_on_linux :
        (rounds fuel : ℕ) (config : Config) (poller0 : ℤ) (w : World) (fd : ℤ)
        → ((j : ℤ) → o.is_open w j ≡ false)
        → is_negative config.max_events ≡ false
        → is_positive fd ≡ true
        → b.supply w < rounds
        → b.supply w < fuel
        → Returns (λ r. o.is_open r.1 fd ≡ false) (run (linux k) rounds fuel config poller0 w)
    run_on_linux =
        run_closes_all (linux k) (linux_descriptors k o) (linux_supply k b) (linux_rounds k b)

  -- The loop comes from one state of the server to another in so many rounds, none of which ends it.
  unfoldable pub Comes : ℕ → ℤ → ℕ → Server → World → Server → World → Type 0
  Comes fuel max_events zero s w s' w' = (s ≡ s') × (w ≡ w')
  Comes fuel max_events (suc n) s w s' w' =
      let (r, events, v) = wait_with_room k s.poller max_events minus_one w in
      (m : ℕ) × (s1 : Server) × (w1 : World) × (r ≡ pos (suc m))
      × (on_events (linux k) fuel s (take (suc m) events) v ≡ some (s1, w1, next_event))
      × Comes fuel max_events n s1 w1 s' w'

  -- `Run` has set up its socket and its poller, and the machine is then `w4`.
  pub record SetUp (config : Config) (w : World) (socket poller : ℤ) (w4 : World) : Type 0 where
    pub w1 : World
    pub w2 : World
    pub w3 : World
    pub listens :
        (linux k).create_listening_socket config.bind_host config.port config.backlog
          ((linux k).initialize_network w).1
        ≡ (socket, w1)
    pub socket_made : is_negative socket ≡ false
    pub unblocked : (linux k).set_socket_non_blocking socket w1 ≡ (true, w2)
    pub polls : (linux k).create_event_poller w2 ≡ (poller, w3)
    pub poller_made : is_negative poller ≡ false
    pub registers : (linux k).register_read_event poller socket w3 ≡ (true, w4)

  abbrev pub starting : ℤ → ℤ → Server
  starting socket poller = record { socket = socket; poller = poller; connections = [] }

  SetUp-runs :
      (rounds fuel : ℕ) (config : Config) (poller0 : ℤ) (w : World) (socket poller : ℤ) (w4 : World)
      → SetUp config w socket poller w4
      → is_negative config.max_events ≡ false
      → run (linux k) rounds fuel config poller0 w
        ≡ then_clean_up
            (linux k)
            (event_loop (linux k) rounds fuel config.max_events (starting socket poller) w4)
  unfolding run
  SetUp-runs rounds fuel config poller0 w socket poller w4 u size =
      rw (u.listens, u.socket_made, u.unblocked, u.polls, u.poller_made, u.registers, size) refl

  abbrev pub after_wait : ℤ → Server → World → World
  after_wait max_events s w = (k.epoll_wait s.poller max_events minus_one w).2

  interrupted :
      (rounds fuel : ℕ) (max_events : ℤ) (s : Server) (w : World)
      → is_negative (k.epoll_wait s.poller max_events minus_one w).0 ≡ true
      → event_loop (linux k) (suc rounds) fuel max_events s w ≡ some (s, after_wait max_events s w)
  unfolding event_loop wait_with_room
  interrupted rounds fuel max_events s w h = ground arith

  -- With more rounds allowed than it has come through, the loop ends where the wait is interrupted.
  ends_after :
      (n rounds fuel : ℕ) (max_events : ℤ) (s : Server) (w : World) (s' : Server) (w' : World)
      → n < rounds
      → Comes fuel max_events n s w s' w'
      → is_negative (k.epoll_wait s'.poller max_events minus_one w').0 ≡ true
      → event_loop (linux k) rounds fuel max_events s w ≡ some (s', after_wait max_events s' w')
  unfolding Comes event_loop
  ends_after n zero fuel max_events s w s' w' l comes h = absurd (omega arith)
  ends_after zero (suc rounds) fuel max_events s w s' w' l (e, e') h =
      rw (e, e') (interrupted rounds fuel max_events s' w' h)
  ends_after (suc n) (suc rounds) fuel max_events s w s' w' l (m, s1, w1, came, handled, later) h =
      rw (event_loop, came, handled)
        (ends_after n rounds fuel max_events s1 w1 s' w' (omega arith) later h)

  handed_on :
      (poller max_events : ℤ) (w : World)
      → is_negative max_events ≡ false
      → is_negative (k.epoll_wait poller max_events minus_one w).0 ≡ true
      → k.errno (k.epoll_wait poller max_events minus_one w).2 ≡ k.eintr
      → wait_for_events k poller max_events minus_one w
        ≡ some (
          (k.epoll_wait poller max_events minus_one w).0,
          [],
          (k.epoll_wait poller max_events minus_one w).2,
        )
  unfolding wait_for_events wait_with_room
  handed_on poller max_events w size h e = ground (arith, ==ℤ_refl k.eintr, size, h, e)

  -- A server that has set up its socket and its poller, asked for a number of events that is not
  -- negative, and come through some rounds, fewer than it is allowed, whose call of epoll_wait(2) is
  -- then interrupted by a signal, that is, fails with EINTR: `WaitForEvents` tells this apart from an
  -- error and hands on the number, but `Run` leaves its loop, cleans up all connections and both
  -- sockets, and returns.
  pub signal_ends_run :
      (n rounds fuel : ℕ) (config : Config) (poller0 : ℤ) (w : World) (socket poller : ℤ)
      (w4 : World) (s : Server) (v : World)
      → n < rounds
      → SetUp config w socket poller w4
      → is_negative config.max_events ≡ false
      → Comes fuel config.max_events n (starting socket poller) w4 s v
      → is_negative (k.epoll_wait s.poller config.max_events minus_one v).0 ≡ true
      → k.errno (after_wait config.max_events s v) ≡ k.eintr
      → (wait_for_events k s.poller config.max_events minus_one v
          ≡ some (
            (k.epoll_wait s.poller config.max_events minus_one v).0,
            [],
            after_wait config.max_events s v,
          ))
        × (run (linux k) rounds fuel config poller0 w
            ≡ some (clean_up_resources (linux k) s (after_wait config.max_events s v)))
  unfolding then_clean_up
  signal_ends_run n rounds fuel config poller0 w socket poller w4 s v l u size comes h e = (
    handed_on s.poller config.max_events v size h e,
    SetUp-runs rounds fuel config poller0 w socket poller w4 u size
        ∙ ap (then_clean_up (linux k))
            (ends_after n rounds fuel config.max_events (starting socket poller) w4 s v l comes h),
  )
