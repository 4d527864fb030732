-- ===== src/Macos.antt =====
-- core/os/macos/network_macos.cc: the pollers, which on macOS are vectors of `pollfd` that the program
-- keeps itself. `poll` and `close` of the system are parameters, and so are the numbers of its flags.
pub mod Sockets
pub mod Pollers
pub mod Ready
pub mod Whole
mod Tests
use proxy_server_sa.Base.{
  ℕ, zero, suc, ◌+◌, ◌-◌, Bool, true, false, not, ◌&&◌, Option, none, some, List, [], ◌∷◌, ◌==◌,
  if◌then◌else◌, bit_or, length,
}
use proxy_server_sa.Base.Int.{ℤ, pos, negsuc, minus_one, is_negative, is_positive, pos_part, ◌==ℤ◌}
use proxy_server_sa.Base.Map.{find, has, update}
use proxy_server_sa.Net.{
  PollEvent, has_flag, event_readable, event_writable, event_error, event_hangup, event_other,
}

pub record PollFd : Type 0 where
  pub fd : ℤ
  pub events : ℕ
  pub revents : ℕ

-- `poll` gives back the number of entries that are ready, and what it writes into their `revents`.
pub record PollSystem : Type 1 where
  pub World : Type 0
  pub errno : World → ℤ
  pub eintr : ℤ
  pub poll : List PollFd → ℤ → World → ℤ × List ℕ × World
  pub close : ℤ → World → World
  pub pollin : ℕ
  pub pollout : ℕ
  pub pollerr : ℕ
  pub pollhup : ℕ
  pub pollnval : ℕ

-- `g_pollers` and `g_next_poller_id`.
pub record PollerStore : Type 0 where
  pub g_pollers : List (ℤ × List PollFd)
  pub g_next_poller_id : ℕ

unfoldable pub no_pollers : PollerStore
no_pollers = record { g_pollers = []; g_next_poller_id = 1 }

-- `CreateEventPoller`, where `emplace` leaves an entry that is there alone.
unfoldable pub create_event_poller : PollerStore → ℤ × PollerStore
unfolding has
create_event_poller s =
    let id = pos s.g_next_poller_id in
    (
      id,
      record {
        g_pollers = if has id s.g_pollers then s.g_pollers else (id, []) ∷ s.g_pollers;
        g_next_poller_id = suc s.g_next_poller_id;
      },
    )

module _ (k : PollSystem) where
  -- The vector after `RegisterReadEvent`: the first entry of the socket, or a new one at the end.
  unfoldable pub register_in : ℤ → List PollFd → List PollFd
  register_in socket [] = record { fd = socket; events = k.pollin; revents = 0 } ∷ []
  register_in socket (p ∷ vec) =
      let rest = register_in socket vec in
      if p.fd ==ℤ socket then record p { events = bit_or p.events k.pollin } ∷ vec else p ∷ rest

  -- `RegisterReadEvent`
  unfoldable pub register_read_event : ℤ → ℤ → PollerStore → Bool × PollerStore
  unfolding find update register_in
  register_read_event poller socket s = elim (find poller s.g_pollers) [
    | none ↦ (false, s)
    | some vec ↦ (true, record s { g_pollers = update poller (register_in socket vec) s.g_pollers })
  ]

  unfoldable pub poll_interest : Bool → Bool → ℕ
  poll_interest readable writable =
      let ev = if readable then bit_or 0 k.pollin else 0 in
      if writable then bit_or ev k.pollout else ev

  -- The vector after `UpdateEventInterest`.
  unfoldable pub update_in : ℤ → Bool → Bool → List PollFd → List PollFd
  unfolding poll_interest
  update_in socket readable writable [] =
      record { fd = socket; events = poll_interest readable writable; revents = 0 } ∷ []
  update_in socket readable writable (p ∷ vec) =
      let rest = update_in socket readable writable vec in
      if p.fd ==ℤ socket
      then record p { events = poll_interest readable writable } ∷ vec
      else p ∷ rest

  -- `UpdateEventInterest`
  unfoldable pub update_event_interest : ℤ → ℤ → Bool → Bool → PollerStore → Bool × PollerStore
  unfolding find update update_in
  update_event_interest poller socket readable writable s = elim (find poller s.g_pollers) [
    | none ↦ (false, s)
    | some vec ↦ (
      true,
      record s { g_pollers = update poller (update_in socket readable writable vec) s.g_pollers },
    )
  ]

  -- What `poll` leaves in the vector.
  unfoldable pub with_revents : List ℕ → List PollFd → List PollFd
  with_revents revs [] = []
  with_revents [] (p ∷ vec) = p ∷ vec
  with_revents (r ∷ revs) (p ∷ vec) = record p { revents = r } ∷ with_revents revs vec

  -- The mask of an entry of `out_events`.
  unfoldable pub poll_mask : ℕ → ℕ
  unfolding has_flag
  poll_mask rev =
      let m1 = if has_flag rev k.pollin then bit_or 0 event_readable else 0 in
      let m2 = if has_flag rev k.pollout then bit_or m1 event_writable else m1 in
      let m3 = if has_flag rev k.pollerr then bit_or m2 event_error else m2 in
      let m4 = if has_flag rev k.pollhup then bit_or m3 event_hangup else m3 in
      if has_flag rev k.pollnval then bit_or m4 event_other else m4

  -- The loop of `WaitForEvents`, with `max_events - out_count` as `room`.
  unfoldable pub ready_loop : ℕ → List PollFd → List PollEvent
  unfolding poll_mask
  ready_loop room [] = []
  ready_loop zero (p ∷ vec) = []
  ready_loop (suc room) (p ∷ vec) =
      let skipped = ready_loop (suc room) vec in
      let rest = ready_loop room vec in
      if p.revents == 0 then skipped else record { fd = p.fd; mask = poll_mask p.revents } ∷ rest

  -- `WaitForEvents`, with the filled part of `out_events`.
  unfoldable pub wait_for_events :
      ℤ → ℤ → ℤ → PollerStore → k.World → ℤ × List PollEvent × PollerStore × k.World
  unfolding find update with_revents ready_loop
  wait_for_events poller max_events timeout_ms s w = elim (find poller s.g_pollers) [
    | none ↦ (minus_one, [], s, w)
    | some vec ↦
        let (n, revs, w') = k.poll vec timeout_ms w in
        let vec' = with_revents revs vec in
        let s' : PollerStore = record s { g_pollers = update poller vec' s.g_pollers } in
        let events = ready_loop (pos_part max_events) vec' in
        if is_negative n && not (k.errno w' ==ℤ k.eintr)
        then (minus_one, [], s', w')
        else if is_positive n
        then (pos (length events), events, s', w')
        else (n, [], s', w')
  ]

  -- `CloseSocket`, which says nothing to the pollers.
  unfoldable pub close_socket : ℤ → k.World → k.World
  close_socket socket w = if is_negative socket then w else k.close socket w
