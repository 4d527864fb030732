-- ===== src/Macos/Pollers.antt =====
-- A vector of `pollfd` as a map from sockets to interests.
use proxy_server_sa.Base.{
  ℕ, ◌≡◌, refl, inl, inr, Bool, true, ◌&&◌, Option, none, some, List, [], ◌∷◌, arith, if◌then◌else◌,
  bit_or, Option-cases, Bool-cases, sym, ◌∙◌,
}
use proxy_server_sa.Base.Int.{ℤ, ◌==ℤ◌, ==ℤ_iff}
use proxy_server_sa.Base.Map.{find, has, update, find-update, has_of_find, not-has_of_find}
use proxy_server_sa.Macos.{
  PollFd, PollSystem, PollerStore, register_in, register_read_event, poll_interest, update_in,
  update_event_interest,
}

-- The interest in a socket, if it has an entry.
unfoldable pub interest_in : ℤ → List PollFd → Option ℕ
interest_in j [] = none
interest_in j (p ∷ vec) = if p.fd ==ℤ j then some p.events else interest_in j vec

-- The interest that a poller takes in a socket.
unfoldable pub interest_of : ℤ → ℤ → PollerStore → Option ℕ
unfolding interest_in
interest_of poller j s = elim (find poller s.g_pollers) [
  | none ↦ none
  | some vec ↦ interest_in j vec
]

-- The interest with reading added, whether there was one or not.
unfoldable pub with_reading : PollSystem → Option ℕ → ℕ
with_reading k none = k.pollin
with_reading k (some ev) = bit_or ev k.pollin

module _ (k : PollSystem) where
  interest_in-register_in :
      (j socket : ℤ) (vec : List PollFd)
      → interest_in j (register_in k socket vec)
        ≡ (if socket ==ℤ j then some (with_reading k (interest_in j vec)) else interest_in j vec)
  unfolding interest_in register_in with_reading
  interest_in-register_in j socket [] = ground arith
  interest_in-register_in j socket (p ∷ vec) = ground (
    arith,
    ==ℤ_iff socket j,
    ==ℤ_iff p.fd socket,
    ==ℤ_iff p.fd j,
    interest_in-register_in j socket vec,
  )

  interest_in-update_in :
      (j socket : ℤ) (r w : Bool) (vec : List PollFd)
      → interest_in j (update_in k socket r w vec)
        ≡ (if socket ==ℤ j then some (poll_interest k r w) else interest_in j vec)
  unfolding interest_in update_in
  interest_in-update_in j socket r w [] = ground arith
  interest_in-update_in j socket r w (p ∷ vec) = ground (
    arith,
    ==ℤ_iff socket j,
    ==ℤ_iff p.fd socket,
    ==ℤ_iff p.fd j,
    interest_in-update_in j socket r w vec,
  )

interest_of_known :
    (q j poller : ℤ) (vec : List PollFd) (s : PollerStore)
    → find poller s.g_pollers ≡ some vec
    → (q ==ℤ poller) ≡ true
    → interest_of q j s ≡ interest_in j vec
unfolding interest_of
interest_of_known q j poller vec s e x =
    let here : find q s.g_pollers ≡ some vec = ground (arith, ==ℤ_iff q poller) in
    rw (here, interest_of) refl

-- After a write to the vector of a poller that exists, the other pollers stand as before.
interest_of_written :
    (q j poller : ℤ) (vec v : List PollFd) (s : PollerStore)
    → find poller s.g_pollers ≡ some vec
    → interest_of q j (record s { g_pollers = update poller v s.g_pollers })
      ≡ (if q ==ℤ poller then interest_in j v else interest_of q j s)
unfolding interest_of
interest_of_written q j poller vec v s e = elim (Bool-cases (q ==ℤ poller)) [
  | inl x ↦
      let here : find q (update poller v s.g_pollers) ≡ some v = ground (
        arith,
        find-update q poller v s.g_pollers,
        ==ℤ_iff q poller,
        has_of_find poller vec s.g_pollers e,
      ) in
      rw (here, interest_of) (rw x refl)
  | inr x ↦
      let there : find q (update poller v s.g_pollers) ≡ find q s.g_pollers =
        ground (arith, find-update q poller v s.g_pollers) in
      rw (there, interest_of) (rw x refl)
]

module _ (k : PollSystem) where
  -- `RegisterReadEvent` succeeds exactly on a poller that exists, and then adds reading to the interest of that poller in
  -- that socket. No other interest changes.
  pub register_read_event-interest_of :
      (poller socket q j : ℤ) (s : PollerStore)
      → ((register_read_event k poller socket s).0 ≡ has poller s.g_pollers)
        × (interest_of q j (register_read_event k poller socket s).1 ≡ (
            if (register_read_event k poller socket s).0 && ((q ==ℤ poller) && (socket ==ℤ j))
            then some (with_reading k (interest_of q j s))
            else interest_of q j s))
  unfolding register_read_event
  register_read_event-interest_of poller socket q j s =
      elim (Option-cases (find poller s.g_pollers)) [
        | inl x ↦ rw (x, register_read_event) (sym (not-has_of_find poller s.g_pollers x), refl)
        | inr (vec, x) ↦
            rw (x, register_read_event)
              (
                sym (has_of_find poller vec s.g_pollers x),
                interest_of_written q j poller vec (register_in k socket vec) s x
                    ∙ elim (Bool-cases (q ==ℤ poller)) [
                      | inl y ↦ rw (y) (
                          rw (interest_of_known q j poller vec s x y)
                            (interest_in-register_in k j socket vec))
                      | inr y ↦ rw y refl
                    ],
              )
      ]

  -- `UpdateEventInterest` succeeds exactly on a poller that exists, and then the interest of that poller in that socket is what
  -- was asked for, whether it had one before or not. No other interest changes.
  pub update_event_interest-interest_of :
      (poller socket q j : ℤ) (r w : Bool) (s : PollerStore)
      → ((update_event_interest k poller socket r w s).0 ≡ has poller s.g_pollers)
        × (interest_of q j (update_event_interest k poller socket r w s).1 ≡ (
            if (update_event_interest k poller socket r w s).0 && ((q ==ℤ poller) && (socket ==ℤ j))
            then some (poll_interest k r w)
            else interest_of q j s))
  unfolding update_event_interest
  update_event_interest-interest_of poller socket q j r w s =
      elim (Option-cases (find poller s.g_pollers)) [
        | inl x ↦ rw (x, update_event_interest) (sym (not-has_of_find poller s.g_pollers x), refl)
        | inr (vec, x) ↦
            rw (x, update_event_interest)
              (
                sym (has_of_find poller vec s.g_pollers x),
                interest_of_written q j poller vec (update_in k socket r w vec) s x
                    ∙ elim (Bool-cases (q ==ℤ poller)) [
                      | inl y ↦ rw (y) (
                          rw (interest_of_known q j poller vec s x y)
                            (interest_in-update_in k j socket r w vec))
                      | inr y ↦ rw y refl
                    ],
              )
      ]
