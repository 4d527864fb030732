-- ===== src/Server/CleanUp.antt =====
-- `Run` leaves nothing open.
use proxy_server_sa.Base.{
  ℕ, zero, suc, ◌≤◌, ◌<◌, ◌≡◌, refl, ap, subst, ◌∙◌, inl, inr, Bool, true, false, not, ◌&&◌, some,
  [], ◌∷◌, arith, Returns, Returns-bind, if_both, Bool-cases, All, take,
}
use proxy_server_sa.Base.Int.{ℤ, is_negative, is_positive, ◌==ℤ◌, ==ℤ_iff, ℤ-cases}
use proxy_server_sa.Base.Map.{has}
use proxy_server_sa.Config.{Config}
use proxy_server_sa.Net.{Network}
use proxy_server_sa.Net.Laws.{Descriptors, Supply, Rounds, opened}
use proxy_server_sa.Connection.{ConnectionMap, destroy}
use proxy_server_sa.Connection.Held.{IsOwn, Held-quiet, close_own}
use proxy_server_sa.Server.{Server, Flow, next_event, stop_running}
use proxy_server_sa.Server.Loop.{
  on_events, destroy_all, close_positive, clean_up_resources, event_loop, then_clean_up, run,
}
use proxy_server_sa.Server.Turns.{EventOk}
use proxy_server_sa.Server.Invariant.{own_sockets, IsSafe, on_events_safe}

module _ (net : Network) (d : Descriptors net) where
  open net use {World, close_socket}
  open d use {is_open, close_closes}

  destroy_all_closes :
      (m : ConnectionMap) (w : World) (k : ℤ)
      → All IsOwn m
      → is_open (destroy_all net m w) k ≡ (not (has k m) && is_open w k)
  unfolding destroy_all has
  destroy_all_closes [] w k own = refl
  destroy_all_closes ((j, c) ∷ m) w k own =
      let closes : destroy net c w ≡ close_socket j w =
        close_own net d c w (rw own.0.0 own.0.1) ∙ ap (λ i. close_socket i w) own.0.0 in
      rw closes
        (ground (arith, destroy_all_closes m (close_socket j w) k own.1, close_closes j w k))

  close_positive_closes :
      (fd : ℤ) (w : World) (k : ℤ)
      → is_positive k ≡ true
      → is_open (close_positive net fd w).1 k ≡ (not (k ==ℤ fd) && is_open w k)
  unfolding close_positive
  close_positive_closes fd w k p = ground (arith, close_closes fd w k, ==ℤ_iff k fd)

  -- What the cleaning up closes: of the descriptors above 0, all those of the connections and of
  -- the two sockets.
  pub clean_up_closes :
      (s : Server) (w : World) (k : ℤ)
      → All IsOwn s.connections
      → is_positive k ≡ true
      → is_open (clean_up_resources net s w).1 k
        ≡ (not (own_sockets s k) && not (has k s.connections) && is_open w k)
  unfolding clean_up_resources
  clean_up_closes s w k own p =
      let w1 = destroy_all net s.connections w in
      let w2 = (close_positive net s.poller w1).1 in
      ground (
        arith,
        d.shut_down_keeps (close_positive net s.socket w2).1 k,
        close_positive_closes s.socket w2 k p,
        close_positive_closes s.poller w1 k p,
        destroy_all_closes s.connections w k own,
      )

module _ (net : Network) (d : Descriptors net) (sup : Supply net)
    (rounds_law : Rounds net sup) where
  open net use {World, wait_for_events}
  open d use {is_open, wait_keeps}
  open sup use {supply}
  open rounds_law use {no_poller, wait_takes, wait_bounded}

  -- What the loop hands over to the cleaning up.
  pub record LoopOk (socket poller : ℤ) (r : Server × World) : Type 0 where
    pub safe : IsSafe net d sup r.0 r.1
    pub same_socket : r.0.socket ≡ socket
    pub same_poller : r.0.poller ≡ poller

  -- The server after an event is the one before with another map.
  same_server :
      (n : ℕ) (s : Server) (r : Server × World × Flow)
      → EventOk net d sup (own_sockets s) n s r
      → record s { connections = r.0.connections } ≡ r.0
  same_server n s r k = cc (k.socket, k.poller)

  -- What the loop does after a batch of events.
  after_events :
      (rounds fuel n : ℕ) (max_events : ℤ) (s s' : Server) (w' : World) (f : Flow)
      → EventOk net d sup (own_sockets s) n s (s', w', f)
      → Returns
          (LoopOk s.socket s.poller)
          (event_loop net rounds fuel max_events (record s { connections = s'.connections }) w')
      → Returns (LoopOk s.socket s.poller) (elim f [
        | next_event ↦ event_loop net rounds fuel max_events s' w'
        | stop_running ↦ some (s', w')
      ])
  after_events rounds fuel n max_events s s' w' next_event k rest =
      subst (λ x. Returns (LoopOk s.socket s.poller) (event_loop net rounds fuel max_events x w'))
        (same_server n s (s', w', next_event) k) rest
  after_events rounds fuel n max_events s s' w' stop_running k rest = record {
    safe = subst (λ x. IsSafe net d sup x w') (same_server n s (s', w', stop_running) k) k.held;
    same_socket = k.socket;
    same_poller = k.poller;
  }

  event_loop_ok :
      (rounds fuel : ℕ) (max_events : ℤ) (s : Server) (w : World)
      → IsSafe net d sup s w
      → supply w < rounds
      → supply w < fuel
      → Returns (LoopOk s.socket s.poller) (event_loop net rounds fuel max_events s w)
  unfolding event_loop
  event_loop_ok zero fuel max_events s w h r f = absurd (omega arith)
  event_loop_ok (suc rounds) fuel max_events s w h r f =
      let got = wait_for_events s.poller max_events w in
      let h1 : IsSafe net d sup s got.2 = Held-quiet net d (wait_keeps s.poller max_events w) h in
      elim (ℤ-cases got.0) [
        | inl x ↦
            rw (x, event_loop)
              (event_loop_ok rounds fuel max_events s got.2 h1
                (omega (arith, wait_takes s.poller max_events w (rw x)))
                (omega (arith, wait_bounded s.poller max_events w)))
        | inr (inl (m, x)) ↦
            let less = wait_takes s.poller max_events w (rw x) in
            rw (x, event_loop)
              (Returns-bind (EventOk net d sup (own_sockets s) (supply got.2) s)
                (LoopOk s.socket s.poller) (on_events net fuel s (take (suc m) got.1) got.2) _
                (on_events_safe net d sup fuel (supply got.2) s (take (suc m) got.1) got.2 h1
                  (no_poller s.poller max_events w m) (omega arith) (omega arith))
                (λ q k. after_events rounds fuel (supply got.2) max_events s q.0 q.1 q.2 k (
                  event_loop_ok rounds fuel max_events (record s { connections = q.0.connections })
                    q.1 k.held (omega (arith, k.bound)) (omega (arith, k.bound)))))
        | inr (inr (_, x)) ↦
            rw (x, event_loop) (record { safe = h1; same_socket = refl; same_poller = refl })
      ]

module _ (net : Network) (d : Descriptors net) (sup : Supply net)
    (rounds_law : Rounds net sup) where
  open net use {
    World, initialize_network, create_listening_socket, set_socket_non_blocking,
    create_event_poller, register_read_event,
  }
  open d use {
    is_open, initialize_keeps, listen_opens, non_blocking_keeps, poller_opens, register_keeps,
  }
  open sup use {supply, non_blocking_bounded, register_bounded}
  open rounds_law use {initialize_bounded, listen_bounded, poller_bounded}

  -- A descriptor above 0 that is closed.
  abbrev pub LeavesClosed : ℤ → Server × World → Type 0
  LeavesClosed k r = is_open r.1 k ≡ false

  -- Started with nothing open, with a number of events that is not negative, and with more fuel and
  -- rounds than there are events, connections and bytes to come, where the wait fails at the latest
  -- when nothing is left to come, `Run` returns, on every path, and has closed every descriptor above
  -- 0 that it opened, whatever the member `poller_` held at the start.
  pub run_closes_all :
      (rounds fuel : ℕ) (config : Config) (poller0 : ℤ) (w : World) (k : ℤ)
      → ((j : ℤ) → is_open w j ≡ false)
      → is_negative config.max_events ≡ false
      → is_positive k ≡ true
      → supply w < rounds
      → supply w < fuel
      → Returns (LeavesClosed k) (run net rounds fuel config poller0 w)
  unfolding run then_clean_up has
  run_closes_all rounds fuel config poller0 w k none_open size p r f =
      elim (Bool-cases (is_negative socket)) [
        | inl n ↦ rw (n, run) (ground (arith, opens1 k, none_open k))
        | inr n ↦
            rw (n, run)
              (elim (Bool-cases unblocked) [
                | inr u ↦
                    rw (u, run) (ground (arith, clean_up_closes net d s0 w2 k tt p, only_socket k))
                | inl u ↦
                    rw (u, run)
                      (elim (Bool-cases (is_negative poller)) [
                        | inl q ↦
                            rw (q, run)
                              (ground
                                (arith, clean_up_closes net d s w3 k tt p, opens3 k, only_socket k))
                        | inr q ↦
                            rw (q, run)
                              (if_both (Returns (LeavesClosed k)) (not registered)
                                (closed_by s w4 (safe n q))
                                (rw size (
                                  Returns-bind (LoopOk net d sup rounds_law socket poller)
                                    (LeavesClosed k)
                                    (event_loop net rounds fuel config.max_events s w4) _
                                    (event_loop_ok net d sup rounds_law rounds fuel
                                      config.max_events s w4 (safe n q) (omega (arith, all_bounded))
                                      (omega (arith, all_bounded)))
                                    (λ l g. closed_by l.0 l.1 g.safe))))
                      ])
              ])
      ]
    where
      w0 : World
      w0 = (initialize_network w).1

      socket : ℤ
      socket = (create_listening_socket config.bind_host config.port config.backlog w0).0

      w1 : World
      w1 = (create_listening_socket config.bind_host config.port config.backlog w0).1

      unblocked : Bool
      unblocked = (set_socket_non_blocking socket w1).0

      w2 : World
      w2 = (set_socket_non_blocking socket w1).1

      poller : ℤ
      poller = (create_event_poller w2).0

      w3 : World
      w3 = (create_event_poller w2).1

      registered : Bool
      registered = (register_read_event poller socket w3).0

      w4 : World
      w4 = (register_read_event poller socket w3).1

      s0 : Server
      s0 = record { socket = socket; poller = poller0; connections = [] }

      s : Server
      s = record { socket = socket; poller = poller; connections = [] }

      opens1 : (j : ℤ) → is_open w1 j ≡ opened (is_open w j) socket j
      opens1 j =
          listen_opens config.bind_host config.port config.backlog w0 j
          ∙ ap (λ b. opened b socket j) (initialize_keeps w j)

      only_socket : (j : ℤ) → is_open w2 j ≡ opened false socket j
      only_socket j = ground (arith, non_blocking_keeps socket w1 j, opens1 j, none_open j)

      opens3 : (j : ℤ) → is_open w3 j ≡ opened (is_open w2 j) poller j
      opens3 j = poller_opens w2 j

      safe : is_negative socket ≡ false → is_negative poller ≡ false → IsSafe net d sup s w4
      safe n q = record {
        own = tt;
        apart = λ j. ground arith;
        exact = λ j. ground (arith, register_keeps poller socket w3 j, opens3 j, only_socket j);
      }

      all_bounded : supply w4 ≤ supply w
      all_bounded = omega (
        arith,
        initialize_bounded w,
        listen_bounded config.bind_host config.port config.backlog w0,
        non_blocking_bounded socket w1,
        poller_bounded w2,
        register_bounded poller socket w3,
      )

      closed_by :
          (t : Server) (v : World)
          → IsSafe net d sup t v
          → is_open (clean_up_resources net t v).1 k ≡ false
      closed_by t v h = ground (arith, clean_up_closes net d t v k h.own p, h.exact k)
