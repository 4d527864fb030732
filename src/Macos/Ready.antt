-- ===== src/Macos/Ready.antt =====
-- What `WaitForEvents` reports.
use proxy_server_sa.Base.{
  ℕ, zero, suc, ◌≡◌, refl, inl, inr, Bool, true, false, ◌||◌, List, [], ◌∷◌, length, bit_or,
  if◌then◌else◌, ◌==◌, Bool-cases, take, ap, some,
}
use proxy_server_sa.Net.{
  PollEvent, has_flag, event_readable, event_writable, event_error, event_hangup, event_other,
}
use proxy_server_sa.Base.Int.{ℤ, pos, pos_part}
use proxy_server_sa.Base.Map.{find, update}
use proxy_server_sa.Macos.{
  PollFd, PollSystem, PollerStore, poll_mask, ready_loop, with_revents, wait_for_events,
}

-- The events of the entries that `poll` has written a flag into.
unfoldable pub all_ready : PollSystem → List PollFd → List PollEvent
unfolding poll_mask
all_ready k [] = []
all_ready k (p ∷ vec) =
    let rest = all_ready k vec in
    if p.revents == 0 then rest else record { fd = p.fd; mask = poll_mask k p.revents } ∷ rest

ready_loop_lem :
    (k : PollSystem) (room : ℕ) (vec : List PollFd)
    → ready_loop k room vec ≡ take room (all_ready k vec)
unfolding ready_loop all_ready
ready_loop_lem k zero [] = refl
ready_loop_lem k (suc room) [] = refl
ready_loop_lem k zero (p ∷ vec) = refl
ready_loop_lem k (suc room) (p ∷ vec) = elim (Bool-cases (p.revents == 0)) [
  | inl x ↦ rw (x, ready_loop, all_ready) (ready_loop_lem k (suc room) vec)
  | inr x ↦
      rw (x, ready_loop, all_ready)
        (ap (◌∷◌ (record { fd = p.fd; mask = poll_mask k p.revents })) (ready_loop_lem k room vec))
]

-- Where `poll` succeeds on an existing poller with at least one entry ready, the events are those of the entries with a flag, in the order of the
-- vector, up to as many as there is room for, and the number returned is theirs; the vector keeps its entries.
pub wait_for_events-ready :
    (k : PollSystem) (poller max_events timeout : ℤ) (s : PollerStore) (w w' : k.World)
    (vec : List PollFd) (n : ℕ) (revs : List ℕ)
    → find poller s.g_pollers ≡ some vec
    → k.poll vec timeout w ≡ (pos (suc n), revs, w')
    → let events = take (pos_part max_events) (all_ready k (with_revents k revs vec)) in
      wait_for_events k poller max_events timeout s w ≡ (
        pos (length events),
        events,
        record s { g_pollers = update poller (with_revents k revs vec) s.g_pollers },
        w',
      )
unfolding wait_for_events
wait_for_events-ready k poller max_events timeout s w w' vec n revs e f =
    rw (e, wait_for_events)
      (rw (f, wait_for_events)
        (rw (ready_loop_lem k (pos_part max_events) (with_revents k revs vec)) refl))

-- The mask of five answers.
abbrev mask_of : Bool → Bool → Bool → Bool → Bool → ℕ
mask_of r w e h n =
    let m1 = if r then bit_or 0 event_readable else 0 in
    let m2 = if w then bit_or m1 event_writable else m1 in
    let m3 = if e then bit_or m2 event_error else m2 in
    let m4 = if h then bit_or m3 event_hangup else m3 in if n then bit_or m4 event_other else m4

abbrev pub Tells : Bool → Bool → Bool → Bool → Bool → ℕ → Type 0
Tells r w e h n mask =
    (has_flag mask event_readable ≡ r)
    × (has_flag mask event_writable ≡ w)
    × (has_flag mask event_error ≡ e)
    × (has_flag mask event_hangup ≡ h)
    × (has_flag mask event_other ≡ n)
    × (has_flag mask (bit_or (bit_or event_error event_hangup) event_other) ≡ (e || h || n))

mask-Tells : (r w e h n : Bool) → Tells r w e h n (mask_of r w e h n)
unfolding has_flag
mask-Tells true true true true true = (refl, refl, refl, refl, refl, refl)
mask-Tells true true true true false = (refl, refl, refl, refl, refl, refl)
mask-Tells true true true false true = (refl, refl, refl, refl, refl, refl)
mask-Tells true true true false false = (refl, refl, refl, refl, refl, refl)
mask-Tells true true false true true = (refl, refl, refl, refl, refl, refl)
mask-Tells true true false true false = (refl, refl, refl, refl, refl, refl)
mask-Tells true true false false true = (refl, refl, refl, refl, refl, refl)
mask-Tells true true false false false = (refl, refl, refl, refl, refl, refl)
mask-Tells true false true true true = (refl, refl, refl, refl, refl, refl)
mask-Tells true false true true false = (refl, refl, refl, refl, refl, refl)
mask-Tells true false true false true = (refl, refl, refl, refl, refl, refl)
mask-Tells true false true false false = (refl, refl, refl, refl, refl, refl)
mask-Tells true false false true true = (refl, refl, refl, refl, refl, refl)
mask-Tells true false false true false = (refl, refl, refl, refl, refl, refl)
mask-Tells true false false false true = (refl, refl, refl, refl, refl, refl)
mask-Tells true false false false false = (refl, refl, refl, refl, refl, refl)
mask-Tells false true true true true = (refl, refl, refl, refl, refl, refl)
mask-Tells false true true true false = (refl, refl, refl, refl, refl, refl)
mask-Tells false true true false true = (refl, refl, refl, refl, refl, refl)
mask-Tells false true true false false = (refl, refl, refl, refl, refl, refl)
mask-Tells false true false true true = (refl, refl, refl, refl, refl, refl)
mask-Tells false true false true false = (refl, refl, refl, refl, refl, refl)
mask-Tells false true false false true = (refl, refl, refl, refl, refl, refl)
mask-Tells false true false false false = (refl, refl, refl, refl, refl, refl)
mask-Tells false false true true true = (refl, refl, refl, refl, refl, refl)
mask-Tells false false true true false = (refl, refl, refl, refl, refl, refl)
mask-Tells false false true false true = (refl, refl, refl, refl, refl, refl)
mask-Tells false false true false false = (refl, refl, refl, refl, refl, refl)
mask-Tells false false false true true = (refl, refl, refl, refl, refl, refl)
mask-Tells false false false true false = (refl, refl, refl, refl, refl, refl)
mask-Tells false false false false true = (refl, refl, refl, refl, refl, refl)
mask-Tells false false false false false = (refl, refl, refl, refl, refl, refl)

-- An event is readable, writable, an error, a hangup or of another kind exactly as `poll` says, where the other kind is a
-- descriptor that is not open. The event loop takes it for an error exactly in the last three cases.
pub poll_mask-Tells :
    (k : PollSystem) (rev : ℕ)
    → Tells
        (has_flag rev k.pollin)
        (has_flag rev k.pollout)
        (has_flag rev k.pollerr)
        (has_flag rev k.pollhup)
        (has_flag rev k.pollnval)
        (poll_mask k rev)
unfolding poll_mask
poll_mask-Tells k rev =
    mask-Tells (has_flag rev k.pollin) (has_flag rev k.pollout) (has_flag rev k.pollerr)
      (has_flag rev k.pollhup) (has_flag rev k.pollnval)
