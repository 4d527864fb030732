-- ===== src/Linux/Events.antt =====
-- What epoll reports and what the event loop is told.
use proxy_server_sa.Base.{
  ℕ, zero, suc, ◌≡◌, refl, Bool, true, false, ◌||◌, List, [], ◌∷◌, All, take, bit_or, if◌then◌else◌,
}
use proxy_server_sa.Base.Int.{ℤ, ◌==ℤ◌}
use proxy_server_sa.Net.{
  has_flag, event_readable, event_writable, event_error, event_hangup, event_other,
}
use proxy_server_sa.Linux.Syscalls.{Kernel, EpollEvent}
use proxy_server_sa.Linux.{poll_event, poll_events}

module _ (k : Kernel) where
  -- The mask of four answers.
  abbrev mask_of : Bool → Bool → Bool → Bool → ℕ
  mask_of r w e h =
      let m1 = if r then bit_or 0 event_readable else 0 in
      let m2 = if w then bit_or m1 event_writable else m1 in
      let m3 = if e then bit_or m2 event_error else m2 in if h then bit_or m3 event_hangup else m3

  abbrev pub Tells : Bool → Bool → Bool → Bool → ℕ → Type 0
  Tells r w e h mask =
      (has_flag mask event_readable ≡ r)
      × (has_flag mask event_writable ≡ w)
      × (has_flag mask event_error ≡ e)
      × (has_flag mask event_hangup ≡ h)
      × (has_flag mask event_other ≡ false)
      × (has_flag mask (bit_or (bit_or event_error event_hangup) event_other) ≡ (e || h))

  mask-Tells : (r w e h : Bool) → Tells r w e h (mask_of r w e h)
  unfolding has_flag
  mask-Tells true true true true = (refl, refl, refl, refl, refl, refl)
  mask-Tells true true true false = (refl, refl, refl, refl, refl, refl)
  mask-Tells true true false true = (refl, refl, refl, refl, refl, refl)
  mask-Tells true true false false = (refl, refl, refl, refl, refl, refl)
  mask-Tells true false true true = (refl, refl, refl, refl, refl, refl)
  mask-Tells true false true false = (refl, refl, refl, refl, refl, refl)
  mask-Tells true false false true = (refl, refl, refl, refl, refl, refl)
  mask-Tells true false false false = (refl, refl, refl, refl, refl, refl)
  mask-Tells false true true true = (refl, refl, refl, refl, refl, refl)
  mask-Tells false true true false = (refl, refl, refl, refl, refl, refl)
  mask-Tells false true false true = (refl, refl, refl, refl, refl, refl)
  mask-Tells false true false false = (refl, refl, refl, refl, refl, refl)
  mask-Tells false false true true = (refl, refl, refl, refl, refl, refl)
  mask-Tells false false true false = (refl, refl, refl, refl, refl, refl)
  mask-Tells false false false true = (refl, refl, refl, refl, refl, refl)
  mask-Tells false false false false = (refl, refl, refl, refl, refl, refl)

  -- The translated event names the same descriptor, and is readable, writable, an error or a hangup
  -- exactly if epoll says so, where either kind of hangup counts. It is never of another kind, so
  -- that the loop takes it for an error exactly on an error or a hangup.
  pub poll_event-Tells :
      (e : EpollEvent)
      → ((poll_event k e).fd ≡ e.fd)
        × Tells
            (has_flag e.events k.epollin)
            (has_flag e.events k.epollout)
            (has_flag e.events k.epollerr)
            (has_flag e.events (bit_or k.epollhup k.epollrdhup))
            (poll_event k e).mask
  unfolding poll_event
  poll_event-Tells e = (
    refl,
    mask-Tells (has_flag e.events k.epollin) (has_flag e.events k.epollout)
        (has_flag e.events k.epollerr) (has_flag e.events (bit_or k.epollhup k.epollrdhup)),
  )

  -- No event names the poller if none of epoll's does.
  pub poll_events_other :
      (p : ℤ) (es : List EpollEvent) (n : ℕ)
      → All (λ e. (e.fd ==ℤ p) ≡ false) es
      → All (λ e. (e.fd ==ℤ p) ≡ false) (take n (poll_events k es))
  unfolding poll_events poll_event
  poll_events_other p es zero h = tt
  poll_events_other p [] (suc n) h = tt
  poll_events_other p (e ∷ es) (suc n) h = (h.0, poll_events_other p es n h.1)
