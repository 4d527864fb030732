-- ===== src/Socks4/States.antt =====
-- The states of a SOCKS4 connection, and what the tunnel moves.
use proxy_server_sa.Base.{
  ℕ, ◌≤◌, ◌≡◌, ◌≢◌, ◌↔◌, refl, sym, ◌⊎◌, true, List, [], ◌∷◌, ◌++◌, arith, length, get_or,
  append-nil,
}
use proxy_server_sa.Base.Int.{ℤ}
use proxy_server_sa.Net.{Network}
use proxy_server_sa.Protocol.{Socks4, State, init, established, failed}
use proxy_server_sa.Connection.{Connection}
use proxy_server_sa.Socks4.{
  Peer, null, itself, other, end_of_user, with_destination, status_of, take_request,
  on_readable_init, on_readable_established, on_readable_in, on_readable,
}

-- The only moves between the states; none leaves `established` or `failed`.
pub data Step : State → State → Type 0 where
  wait : Step init init
  grant : Step init established
  reject : Step init failed
  tunnel : Step established established
  stop : Step failed failed

-- A request that is complete, of version 4, and asks for a stream.
abbrev pub IsGranted : List ℕ → Type 0
IsGranted buf =
    (9 ≤ length buf) × (end_of_user buf ≢ length buf) × (get_or buf 0 0 ≡ 4) × (get_or buf 1 0 ≡ 1)

module _ (net : Network) where
  open net use {World}

  module _ (p : Socks4) (self : Connection) (peer : Peer) (poller : ℤ) (w : World) where
    abbrev next : Socks4
    next = (on_readable net p self peer poller w).0

    abbrev next_self : Connection
    next_self = (on_readable net p self peer poller w).1

    step_other : (s : State) → p.state ≡ s → s ≢ init → next.state ≡ s
    unfolding on_readable on_readable_in on_readable_established
    step_other init e n = absurd (n refl)
    step_other established e n = rw e
    step_other failed e n = rw e

    Step-from : (s t : State) → p.state ≡ s → next.state ≡ t → Step s t
    Step-from init init e f = wait
    Step-from init established e f = grant
    Step-from init failed e f = reject
    Step-from established init e f = absurd (ground (arith, step_other established e))
    Step-from established established e f = tunnel
    Step-from established failed e f = absurd (ground (arith, step_other established e))
    Step-from failed init e f = absurd (ground (arith, step_other failed e))
    Step-from failed established e f = absurd (ground (arith, step_other failed e))
    Step-from failed failed e f = stop

    -- From the initial state, a request is granted exactly when it is complete, of version 4, and
    -- asks for a stream.
    pub on_readable-IsGranted_iff :
        p.state ≡ init → (next.state ≡ established) ↔ IsGranted self.receive_buffer
    unfolding on_readable on_readable_in on_readable_init take_request status_of with_destination
    on_readable-IsGranted_iff e = rw e (ground arith)

    -- A state is left only from the start: to `established` or to `failed`, for good.
    on_readable-Step : Step p.state next.state
    on_readable-Step = Step-from p.state next.state refl refl

    -- The connection is marked as closed exactly when it was before or the request is refused now.
    pub on_readable_closes_iff :
        p.state ≡ init → (next_self.closed ≡ true) ↔ ((self.closed ≡ true) ⊎ (next.state ≡ failed))
    unfolding on_readable on_readable_in on_readable_init take_request with_destination
    on_readable_closes_iff e = rw e (ground arith)

  -- The bytes of `self` stand behind those of the peer, and are unread no more.
  abbrev pub IsCarried : Connection → Connection → Connection × Peer × World → Type 0
  IsCarried self peer (self', peer', w') =
      (self'.receive_buffer ≡ [])
      × (self'.send_buffer ≡ self.send_buffer)
      × ((q : Connection) × (peer' ≡ other q)
          × (q.send_buffer ≡ peer.send_buffer ++ self.receive_buffer)
          × (q.receive_buffer ≡ peer.receive_buffer))

  carried :
      (buf : List ℕ) (self peer : Connection) (poller : ℤ) (w : World)
      → self.receive_buffer ≡ buf
      → IsCarried self peer (on_readable_established net self (other peer) poller w)
  unfolding on_readable_established
  carried [] self peer poller w e =
      simp e (refl, refl, (peer, refl, sym (append-nil peer.send_buffer), refl))
  carried (b ∷ bs) self peer poller w e = simp e (
    refl,
    refl,
    (record peer { send_buffer = peer.send_buffer ++ b ∷ bs; want_write = true }, refl, refl, refl),
  )

  -- In the tunnel no byte is lost, doubled or reordered: with another connection as the peer, its
  -- send buffer followed by what is still unread holds the same bytes as before, nothing stays
  -- unread, and with no such peer nothing moves. The protocol's own data stays as it is.
  pub on_readable_tunnel :
      (p : Socks4) (self peer : Connection) (poller : ℤ) (w : World)
      → p.state ≡ established
      → ((on_readable net p self (other peer) poller w).0 ≡ p)
        × IsCarried self peer (
          (on_readable net p self (other peer) poller w).1,
          (on_readable net p self (other peer) poller w).2,
          (on_readable net p self (other peer) poller w).3,
        )
        × (on_readable net p self null poller w ≡ (p, self, null, w))
        × (on_readable net p self itself poller w ≡ (p, self, itself, w))
  unfolding on_readable on_readable_in on_readable_established
  on_readable_tunnel p self peer poller w e =
      simp e (refl, carried self.receive_buffer self peer poller w refl, refl, refl)
