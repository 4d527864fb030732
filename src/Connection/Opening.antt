-- ===== src/Connection/Opening.antt =====
-- Accepting and connecting lose no descriptor, on any path.
use proxy_server_sa.Base.{
  ℕ, zero, suc, ◌≡◌, refl, inl, inr, Bool, true, false, Option, ◌≢◌, ◌⊎◌, ◌≤◌, ◌<◌, Returns, List,
  ◌∷◌, arith, Bool-cases, get_or,
}
use proxy_server_sa.Base.Int.{ℤ, minus_one, is_negative}
use proxy_server_sa.Base.Map.{has}
use proxy_server_sa.Net.{Network}
use proxy_server_sa.Net.Laws.{Descriptors, Supply}
use proxy_server_sa.Connection.{
  Connection, ConnectionMap, ConnectionResult, ok, client, upstream, new_connection, destroy,
}
use proxy_server_sa.Connection.Open.{
  emplace, push_back, join_ip, accept_new_client_connection, create_upstream_tcp_connection,
}
use proxy_server_sa.Connection.Held.{
  Held, plus, Held-quiet, Held-opened, Held-closed, Held-inserted, emplace_new,
}

module _ (net : Network) (d : Descriptors net) (sup : Supply net) where
  open sup use {
    supply, accept_takes, accept_bounded, non_blocking_bounded, register_bounded, update_bounded,
    connect_bounded, close_bounded,
  }
  open net use {
    World, accept_connection, set_socket_non_blocking, register_read_event, update_event_interest,
    connect_tcp_ipv4, close_socket,
  }
  open d use {
    is_open, accept_opens, accept_fresh, connect_opens, connect_fresh, non_blocking_keeps,
    register_keeps, update_keeps,
  }

  -- A descriptor that was not open is none of the others.
  not_other :
      {others : ℤ → Bool} {m : ConnectionMap} {w : World} (fd : ℤ)
      → is_open w fd ≡ false
      → Held net d others m w
      → others fd ≡ false
  not_other {others} fd e h = ground (arith, h.exact fd)

  module _ (others : ℤ → Bool) (socket poller : ℤ) where
    abbrev pub AcceptsHeld : ℕ → ConnectionResult × ConnectionMap × Option (List ℤ) × World → Type 0
    AcceptsHeld n (r, m, out, w) = Held net d others m w × (supply w ≤ n)

    -- With more fuel than there are connections to come, accepting ends, and the process holds
    -- exactly the descriptors of the map and those that it held beside the map before: every socket
    -- that was accepted and not put into the map is closed.
    pub accept-Returns-Held :
        (fuel n : ℕ) (m : ConnectionMap) (out : Option (List ℤ)) (w : World)
        → supply w < fuel
        → supply w ≤ n
        → Held net d others m w
        → Returns (AcceptsHeld n) (accept_new_client_connection net fuel socket poller m out w)
    unfolding accept_new_client_connection
    accept-Returns-Held zero n m out w f b h = absurd (omega arith)
    accept-Returns-Held (suc fuel) n m out w f b h = elim (Bool-cases (is_negative fd)) [
      | inl neg ↦
          rw (neg, accept_new_client_connection)
            (
              Held-quiet net d (λ k. ground (arith, accept_opens socket w k)) h,
              omega (arith, accept_bounded socket w),
            )
      | inr neg ↦
          let fresh = accept_fresh socket w neg in
          let free = not_other fd fresh h in
          let h2 : Held net d (plus fd others) m w2 =
            Held-quiet net d (non_blocking_keeps fd w1)
              (Held-opened net d fd (accept_opens socket w) neg fresh h) in
          let h3 : Held net d (plus fd others) m w3 =
            Held-quiet net d (register_keeps poller fd w2) h2 in
          let less : supply w2 < supply w =
            omega (arith, accept_takes socket w neg, non_blocking_bounded fd w1) in
          let less3 : supply w3 < supply w = omega (arith, register_bounded poller fd w2) in
          elim (Bool-cases unblocked) [
            | inr u ↦
                rw (neg, accept_new_client_connection)
                  (rw (u, accept_new_client_connection)
                    (accept-Returns-Held fuel n m out (close_socket fd w2)
                      (omega (arith, close_bounded fd w2)) (omega (arith, close_bounded fd w2))
                      (Held-closed net d fd free h2)))
            | inl u ↦ elim (Bool-cases registered) [
              | inr r ↦
                  rw (neg, accept_new_client_connection)
                    (rw (u, accept_new_client_connection)
                      (rw (r, accept_new_client_connection)
                        (Held-closed net d fd free h3, omega (arith, close_bounded fd w3))))
              | inl r ↦
                  rw (neg, accept_new_client_connection)
                    (rw (u, accept_new_client_connection)
                      (rw (r, accept_new_client_connection)
                        (rw
                          (emplace_new net d fd (new_connection fd client) m w3
                            (ground (arith, h.exact fd)))
                          (accept-Returns-Held fuel n _ (push_back out fd) w3 (omega arith)
                            (omega arith)
                            (Held-inserted net d fd (new_connection fd client) free refl neg h3)))))
            ]
          ]
    ]
      where
        fd : ℤ
        fd = (accept_connection socket w).0

        w1 : World
        w1 = (accept_connection socket w).1

        unblocked : Bool
        unblocked = (set_socket_non_blocking fd w1).0

        w2 : World
        w2 = (set_socket_non_blocking fd w1).1

        registered : Bool
        registered = (register_read_event poller fd w2).0

        w3 : World
        w3 = (register_read_event poller fd w2).1

  module _ (others : ℤ → Bool) (poller : ℤ) (m : ConnectionMap) (c : Connection) (w : World) where
    -- The client and a new upstream connection lead to each other, or nothing has changed.
    abbrev pub IsLinked : ConnectionResult × ConnectionMap × Connection × World → Type 0
    IsLinked (r, m', c', w') =
        Held net d others m' w'
        × (((r ≡ ok)
              × (fd : ℤ) × (is_open w fd ≡ false)
              × (m' ≡ (fd, record (new_connection fd upstream) { peer_socket_id = c.id }) ∷ m)
              × (c' ≡ record c { peer_socket_id = fd }))
            ⊎ ((r ≢ ok) × (m' ≡ m) × (c' ≡ c)))

    -- For a client without a peer: either a new upstream socket, which nobody held before, is in the
    -- map as an entry of its own, with a link to the client, and the client has a link to it; or the
    -- result is an error and map and client are as before. On every path the process holds exactly
    -- the descriptors of the map and those that it held beside the map before: a socket that could
    -- not be set up is closed again.
    pub create_upstream_links :
        (dest_ip : List ℕ) (dest_port : ℕ)
        → Held net d others m w
        → c.peer_socket_id ≡ minus_one
        → IsLinked (create_upstream_tcp_connection net poller m c dest_ip dest_port w)
    unfolding create_upstream_tcp_connection
    create_upstream_links dest_ip dest_port h e =
        rw (e, create_upstream_tcp_connection)
          (elim (Bool-cases (is_negative fd)) [
            | inl n ↦
                rw (n, create_upstream_tcp_connection)
                  (
                    Held-quiet net d (λ k. ground (arith, connect_opens ip dest_port w k)) h,
                    inr ((λ x. cc), refl, refl),
                  )
            | inr n ↦
                let fresh = connect_fresh ip dest_port w n in
                let free = not_other fd fresh h in
                let h2 : Held net d (plus fd others) m w2 =
                  Held-quiet net d (non_blocking_keeps fd w1)
                    (Held-opened net d fd (connect_opens ip dest_port w) n fresh h) in
                let h3 = Held-quiet net d (register_keeps poller fd w2) h2 in
                let h4 = Held-quiet net d (update_keeps poller fd true true w3) h3 in
                let absent : has fd m ≡ false = ground (arith, h.exact fd) in
                rw (n, create_upstream_tcp_connection)
                  (elim (Bool-cases unblocked) [
                    | inr u ↦
                        rw (u, create_upstream_tcp_connection)
                          (Held-closed net d fd free h2, inr ((λ x. cc), refl, refl))
                    | inl u ↦
                        rw (u, create_upstream_tcp_connection)
                          (elim (Bool-cases registered) [
                            | inr r ↦
                                rw (r, create_upstream_tcp_connection)
                                  (Held-closed net d fd free h3, inr ((λ x. cc), refl, refl))
                            | inl r ↦
                                rw (r, create_upstream_tcp_connection)
                                  (elim (Bool-cases updated) [
                                    | inr v ↦
                                        rw (v, create_upstream_tcp_connection)
                                          (
                                            Held-closed net d fd free h4,
                                            inr ((λ x. cc), refl, refl),
                                          )
                                    | inl v ↦
                                        rw (v, create_upstream_tcp_connection)
                                          (rw (emplace_new net d fd added m w4 absent) (
                                            Held-inserted net d fd added free refl n h4,
                                            inl (refl, fd, fresh, refl, refl),
                                          ))
                                  ])
                          ])
                  ])
          ])
      where
        ip : ℕ
        ip =
            join_ip (get_or dest_ip 0 0) (get_or dest_ip 1 0) (get_or dest_ip 2 0)
              (get_or dest_ip 3 0)

        fd : ℤ
        fd = (connect_tcp_ipv4 ip dest_port w).0

        w1 : World
        w1 = (connect_tcp_ipv4 ip dest_port w).1

        w2 : World
        w2 = (set_socket_non_blocking fd w1).1

        w3 : World
        w3 = (register_read_event poller fd w2).1

        w4 : World
        w4 = (update_event_interest poller fd true true w3).1

        unblocked : Bool
        unblocked = (set_socket_non_blocking fd w1).0

        registered : Bool
        registered = (register_read_event poller fd w2).0

        updated : Bool
        updated = (update_event_interest poller fd true true w3).0

        added : Connection
        added = record (new_connection fd upstream) { peer_socket_id = c.id }

  pub destroy_bounded : (c : Connection) (w : World) → supply (destroy net c w) ≤ supply w
  unfolding destroy
  destroy_bounded c w = ground (arith, close_bounded c.id w)

  emplace_bounded :
      (fd : ℤ) (c : Connection) (m : ConnectionMap) (w : World)
      → supply (emplace net fd c m w).1 ≤ supply w
  unfolding emplace
  emplace_bounded fd c m w = ground (arith, destroy_bounded c w)

  -- Connecting takes nothing off the connections and bytes to come.
  pub create_upstream_bounded :
      (poller : ℤ) (m : ConnectionMap) (c : Connection) (dest_ip : List ℕ) (dest_port : ℕ)
      (w : World)
      → supply (create_upstream_tcp_connection net poller m c dest_ip dest_port w).3 ≤ supply w
  unfolding create_upstream_tcp_connection
  create_upstream_bounded poller m c dest_ip dest_port w =
      let ip =
        join_ip (get_or dest_ip 0 0) (get_or dest_ip 1 0) (get_or dest_ip 2 0)
          (get_or dest_ip 3 0) in
      let fd = (connect_tcp_ipv4 ip dest_port w).0 in
      let w1 = (connect_tcp_ipv4 ip dest_port w).1 in
      let w2 = (set_socket_non_blocking fd w1).1 in
      let w3 = (register_read_event poller fd w2).1 in
      let w4 = (update_event_interest poller fd true true w3).1 in
      let added = record (new_connection fd upstream) { peer_socket_id = c.id } in
      ground (
        arith,
        connect_bounded ip dest_port w,
        non_blocking_bounded fd w1,
        register_bounded poller fd w2,
        update_bounded poller fd true true w3,
        close_bounded fd w2,
        close_bounded fd w3,
        close_bounded fd w4,
        emplace_bounded fd added m w4,
      )

  pub create_upstream_id :
      (poller : ℤ) (m : ConnectionMap) (c : Connection) (dest_ip : List ℕ) (dest_port : ℕ)
      (w : World)
      → (create_upstream_tcp_connection net poller m c dest_ip dest_port w).2.id ≡ c.id
  unfolding create_upstream_tcp_connection
  create_upstream_id poller m c dest_ip dest_port w = ground arith

  pub create_upstream_received :
      (poller : ℤ) (m : ConnectionMap) (c : Connection) (dest_ip : List ℕ) (dest_port : ℕ)
      (w : World)
      → (create_upstream_tcp_connection net poller m c dest_ip dest_port w).2.receive_buffer
        ≡ c.receive_buffer
  unfolding create_upstream_tcp_connection
  create_upstream_received poller m c dest_ip dest_port w = ground arith
