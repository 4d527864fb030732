-- ===== src/Server/Invariant.antt =====
-- Every event keeps the descriptors in order, and is done with in finitely many steps.
use proxy_server_sa.Base.{
  ℕ, ◌≤◌, ◌<◌, ◌≡◌, refl, subst, inl, inr, Bool, false, ◌||◌, some, List, [], ◌∷◌, arith, Returns,
  Returns-bind, Returns-map, if_both, Bool-cases, Option-cases, All, bit_or,
}
use proxy_server_sa.Base.Int.{ℤ, ◌==ℤ◌}
use proxy_server_sa.Base.Map.{find, not-has_of_find}
use proxy_server_sa.Net.{Network, PollEvent, has_flag, event_error, event_hangup, event_other}
use proxy_server_sa.Net.Laws.{Descriptors, Supply}
use proxy_server_sa.Connection.Held.{Held, Held-erased, Held-spurious}
use proxy_server_sa.Connection.Open.{accept_new_client_connection}
use proxy_server_sa.Connection.Opening.{AcceptsHeld, accept-Returns-Held, destroy_bounded}
use proxy_server_sa.Server.{Server, Flow, next_event, stop_running, erase_connection}
use proxy_server_sa.Server.Loop.{
  on_event_error, on_new_connections, find_connection, on_event, on_events,
}
use proxy_server_sa.Server.Turns.{EventOk, on_connection_ok}

-- The two descriptors that the server holds beside those of its connections.
abbrev pub own_sockets : Server → ℤ → Bool
own_sockets s k = (k ==ℤ s.socket) || (k ==ℤ s.poller)

module _ (net : Network) (d : Descriptors net) (sup : Supply net) where
  open net use {World, close_socket}
  open sup use {supply, close_bounded}

  -- The process holds the listening socket, the poller and the sockets of the connections, each
  -- connection stands under the number of its own socket, and nothing else is open.
  abbrev pub IsSafe : Server → World → Type 0
  IsSafe s w = Held net d (own_sockets s) s.connections w

  error_ok :
      (n : ℕ) (s : Server) (fd : ℤ) (w : World)
      → IsSafe s w
      → (fd ==ℤ s.poller) ≡ false
      → supply w ≤ n
      → EventOk net d sup (own_sockets s) n s (on_event_error net s fd w)
  unfolding on_event_error erase_connection
  error_ok n s fd w h p b = elim (Bool-cases (fd ==ℤ s.socket)) [
    | inl x ↦ rw (x, on_event_error) (record { held = h; socket = refl; poller = refl; bound = b })
    | inr x ↦
        rw (x, on_event_error)
          (elim (Option-cases (find fd s.connections)) [
            | inl y ↦
                rw (y, on_event_error)
                  (record {
                    held =
                        Held-spurious net d fd (ground arith) (not-has_of_find fd s.connections y)
                          h;
                    socket = refl;
                    poller = refl;
                    bound = omega (arith, close_bounded fd w);
                  })
            | inr (c, y) ↦
                rw (y, on_event_error)
                  (rw (y, erase_connection)
                    (record {
                      held = Held-erased net d fd c y h;
                      socket = refl;
                      poller = refl;
                      bound = omega (arith, destroy_bounded net d sup c w);
                    }))
          ])
  ]

  accept_ok :
      (fuel n : ℕ) (s : Server) (w : World)
      → IsSafe s w
      → supply w ≤ n
      → supply w < fuel
      → Returns (EventOk net d sup (own_sockets s) n s) (on_new_connections net fuel s w)
  unfolding on_new_connections
  accept_ok fuel n s w h b enough =
      Returns-bind (AcceptsHeld net d sup (own_sockets s) s.socket s.poller n)
        (EventOk net d sup (own_sockets s) n s)
        (accept_new_client_connection net fuel s.socket s.poller s.connections (some []) w) _
        (accept-Returns-Held net d sup (own_sockets s) s.socket s.poller fuel n s.connections
          (some []) w enough b h)
        (λ r k. record { held = k.0; socket = refl; poller = refl; bound = k.1 })

  find_ok :
      (fuel n : ℕ) (s : Server) (fd : ℤ) (mask : ℕ) (w : World)
      → IsSafe s w
      → supply w ≤ n
      → supply w < fuel
      → Returns (EventOk net d sup (own_sockets s) n s) (find_connection net fuel s fd mask w)
  unfolding find_connection
  find_ok fuel n s fd mask w h b enough = elim (Option-cases (find fd s.connections)) [
    | inl y ↦ rw (y, find_connection) (record { held = h; socket = refl; poller = refl; bound = b })
    | inr (c, y) ↦
        rw (y, find_connection)
          (on_connection_ok net d sup (own_sockets s) fuel n s fd mask c w h y b enough)
  ]

  -- Whatever the event is, unless it names the poller itself: with more fuel than there are
  -- connections and bytes to come, its handling ends, keeps the two sockets of the server and leaves
  -- the process holding exactly those and the sockets of its connections.
  pub on_event_safe :
      (fuel n : ℕ) (s : Server) (e : PollEvent) (w : World)
      → IsSafe s w
      → (e.fd ==ℤ s.poller) ≡ false
      → supply w ≤ n
      → supply w < fuel
      → Returns (EventOk net d sup (own_sockets s) n s) (on_event net fuel s e w)
  unfolding on_event
  on_event_safe fuel n s e w h p b enough =
      if_both (Returns (EventOk net d sup (own_sockets s) n s))
        (has_flag e.mask (bit_or (bit_or event_error event_hangup) event_other))
        (error_ok n s e.fd w h p b)
        (if_both (Returns (EventOk net d sup (own_sockets s) n s)) (e.fd ==ℤ s.socket)
          (accept_ok fuel n s w h b enough) (find_ok fuel n s e.fd e.mask w h b enough))

  continue_ok :
      (fuel n : ℕ) (s s' : Server) (es : List PollEvent) (w' : World) (f : Flow)
      → EventOk net d sup (own_sockets s) n s (s', w', f)
      → Returns
          (EventOk net d sup (own_sockets s) n s)
          (on_events net fuel (record s { connections = s'.connections }) es w')
      → Returns (EventOk net d sup (own_sockets s) n s) (elim f [
        | next_event ↦ on_events net fuel s' es w'
        | stop_running ↦ some (s', w', stop_running)
      ])
  continue_ok fuel n s s' es w' next_event k rest =
      let same : record s { connections = s'.connections } ≡ s' = cc (k.socket, k.poller) in
      subst (λ x. Returns (EventOk net d sup (own_sockets s) n s) (on_events net fuel x es w')) same
        rest
  continue_ok fuel n s s' es w' stop_running k rest = k

  -- The same of a whole batch of events, each of which may close or open what a later one names.
  pub on_events_safe :
      (fuel n : ℕ) (s : Server) (es : List PollEvent) (w : World)
      → IsSafe s w
      → All (λ e. (e.fd ==ℤ s.poller) ≡ false) es
      → supply w ≤ n
      → n < fuel
      → Returns (EventOk net d sup (own_sockets s) n s) (on_events net fuel s es w)
  unfolding on_events
  on_events_safe fuel n s [] w h ps b enough = record {
    held = h;
    socket = refl;
    poller = refl;
    bound = b;
  }
  on_events_safe fuel n s (e ∷ es) w h ps b enough =
      Returns-bind (EventOk net d sup (own_sockets s) n s) (EventOk net d sup (own_sockets s) n s)
        (on_event net fuel s e w) _ (on_event_safe fuel n s e w h ps.0 b (omega arith))
        (λ r k. continue_ok fuel n s r.0 es r.1 r.2 k (
          Returns-map (EventOk net d sup (own_sockets s) n (after r.0))
            (EventOk net d sup (own_sockets s) n s) (on_events net fuel (after r.0) es r.1)
            (on_events_safe fuel n (after r.0) es r.1 k.held ps.1 k.bound enough)
            (λ _ q. record {
              held = q.held;
              socket = q.socket;
              poller = q.poller;
              bound = q.bound;
            })))
    where
      after : Server → Server
      after s' = record s { connections = s'.connections }
