-- ===== src/Net/SimLaws.antt =====
-- The small machine of `Net.Sim` meets the laws of `Net.Laws`.
use proxy_server_sa.Base.{
  ℕ, zero, suc, ◌+◌, ◌≤◌, ◌<◌, ◌≡◌, refl, ap, true, false, List, [], ◌∷◌, ◌++◌, length, take, arith,
  All, Bool-cases, inl, inr,
}
use proxy_server_sa.Base.Int.{ℤ, pos, is_negative, is_positive, ◌==ℤ◌}
use native.Mathlib.Nat.{le_refl}
use proxy_server_sa.Net.{PollEvent}
use proxy_server_sa.Net.Laws.{Descriptors, Streams, Supply, Rounds, opened}
use proxy_server_sa.Net.Sim.{
  Machine, open_next, accept_by, receive_by, send_by, without, wait_by, sim,
}

pub next_opens :
    (w : Machine) (k : ℤ) → (open_next w).1.is_open k ≡ opened (w.is_open k) (open_next w).0 k
next_opens w k = ground arith

pub next_fresh :
    (w : Machine) → is_negative (open_next w).0 ≡ false → w.is_open (open_next w).0 ≡ false
next_fresh w h = ground arith

pub accept_opens :
    (q : ℕ) (w : Machine) (k : ℤ)
    → (accept_by q w).1.is_open k ≡ opened (w.is_open k) (accept_by q w).0 k
accept_opens zero w k = refl
accept_opens (suc q) w k = ground arith

pub accept_fresh :
    (q : ℕ) (w : Machine)
    → is_negative (accept_by q w).0 ≡ false
    → w.is_open (accept_by q w).0 ≡ false
accept_fresh zero w h = ground arith
accept_fresh (suc q) w h = ground arith

pub receive_keeps :
    (bs : List ℕ) (w : Machine) (k : ℤ) → (receive_by bs w).2.is_open k ≡ w.is_open k
receive_keeps [] w k = refl
receive_keeps (b ∷ bs) w k = refl

pub send_keeps : (bs : List ℕ) (w : Machine) (k : ℤ) → (send_by bs w).1.is_open k ≡ w.is_open k
send_keeps [] w k = refl
send_keeps (b ∷ bs) w k = refl

pub wait_keeps :
    (p : ℤ) (bs : List (List PollEvent)) (w : Machine) (k : ℤ)
    → (wait_by p bs w).2.is_open k ≡ w.is_open k
wait_keeps p [] w k = refl
wait_keeps p (b ∷ bs) w k = refl

abbrev pub sim_descriptors : Descriptors sim
sim_descriptors = record {
  is_open = λ w k. w.is_open k;
  initialize_keeps = λ w k. refl;
  shut_down_keeps = λ w k. refl;
  accept_opens = λ s w k. accept_opens w.waiting w k;
  accept_fresh = λ s w h. accept_fresh w.waiting w h;
  connect_opens = λ ip port w k. next_opens w k;
  connect_fresh = λ ip port w h. next_fresh w h;
  listen_opens = λ host port n w k. next_opens w k;
  listen_fresh = λ host port n w h. next_fresh w h;
  poller_opens = λ w k. next_opens w k;
  poller_fresh = λ w h. next_fresh w h;
  close_closes = λ fd w k. refl;
  non_blocking_keeps = λ fd w k. refl;
  register_keeps = λ p fd w k. refl;
  update_keeps = λ p fd r s w k. refl;
  receive_keeps = λ fd n w k. receive_keeps w.inbox w k;
  send_keeps = λ fd bytes w k. send_keeps bytes w k;
  wait_keeps = λ p n w k. wait_keeps p w.batches w k;
}

abbrev pub supply_of : Machine → ℕ
supply_of w = w.waiting + length w.inbox + length w.batches

pub accept_takes :
    (q : ℕ) (w : Machine)
    → w.waiting ≡ q
    → is_negative (accept_by q w).0 ≡ false
    → supply_of (accept_by q w).1 < supply_of w
accept_takes zero w e h = ground arith
accept_takes (suc q) w e h = ground arith

pub accept_bounded :
    (q : ℕ) (w : Machine) → w.waiting ≡ q → supply_of (accept_by q w).1 ≤ supply_of w
accept_bounded zero w e = omega arith
accept_bounded (suc q) w e = ground arith

pub receive_takes :
    (bs : List ℕ) (w : Machine)
    → w.inbox ≡ bs
    → is_positive (receive_by bs w).0 ≡ true
    → supply_of (receive_by bs w).2 < supply_of w
receive_takes [] w e h = ground arith
receive_takes (b ∷ bs) w e h = omega (arith, ap length e)

pub receive_bounded :
    (bs : List ℕ) (w : Machine) → w.inbox ≡ bs → supply_of (receive_by bs w).2 ≤ supply_of w
receive_bounded [] w e = omega arith
receive_bounded (b ∷ bs) w e = omega (arith, ap length e)

pub send_bounded : (bs : List ℕ) (w : Machine) → supply_of (send_by bs w).1 ≤ supply_of w
send_bounded [] w = omega arith
send_bounded (b ∷ bs) w = omega arith

pub next_bounded : (w : Machine) → supply_of (open_next w).1 ≤ supply_of w
next_bounded w = ground arith

abbrev pub sim_supply : Supply sim
sim_supply = record {
  supply = supply_of;
  accept_takes = λ s w h. accept_takes w.waiting w refl h;
  accept_bounded = λ s w. accept_bounded w.waiting w refl;
  receive_takes = λ fd n w h. receive_takes w.inbox w refl h;
  receive_bounded = λ fd n w. receive_bounded w.inbox w refl;
  non_blocking_bounded = λ fd w. le_refl (supply_of w);
  register_bounded = λ p fd w. le_refl (supply_of w);
  update_bounded = λ p fd r s w. le_refl (supply_of w);
  send_bounded = λ fd bytes w. send_bounded bytes w;
  connect_bounded = λ ip port w. next_bounded w;
  close_bounded = λ fd w. le_refl (supply_of w);
}

pub receive_some :
    (bs : List ℕ) (w : Machine) (m : ℕ)
    → w.inbox ≡ bs
    → (receive_by bs w).0 ≡ pos (suc m)
    → (length (take (suc m) (receive_by bs w).1) ≡ suc m)
      × (w.inbox ≡ take (suc m) (receive_by bs w).1 ++ (receive_by bs w).2.inbox)
receive_some [] w m e h = ground arith
receive_some (b ∷ bs) w zero e h = (refl, e)
receive_some (b ∷ bs) w (suc m) e h = ground arith

pub receive_none :
    (bs : List ℕ) (w : Machine)
    → is_positive (receive_by bs w).0 ≡ false
    → (receive_by bs w).2.inbox ≡ w.inbox
receive_none [] w h = refl
receive_none (b ∷ bs) w h = ground arith

pub send_some :
    (bs : List ℕ) (w : Machine) (m : ℕ)
    → (send_by bs w).0 ≡ pos (suc m)
    → (suc m ≤ length bs) × ((send_by bs w).1.outbox ≡ w.outbox ++ take (suc m) bs)
send_some [] w m h = ground arith
send_some (b ∷ bs) w zero h = (omega arith, refl)
send_some (b ∷ bs) w (suc m) h = ground arith

pub send_none :
    (bs : List ℕ) (w : Machine)
    → is_positive (send_by bs w).0 ≡ false
    → (send_by bs w).1.outbox ≡ w.outbox
send_none [] w h = refl
send_none (b ∷ bs) w h = ground arith

abbrev pub sim_streams : Streams sim
sim_streams = record {
  pending = λ w fd. w.inbox;
  sent = λ w fd. w.outbox;
  receive_some = λ fd n w m h. receive_some w.inbox w m refl h;
  receive_none = λ fd n w h. receive_none w.inbox w h;
  send_some = λ fd bytes w m h. send_some bytes w m h;
  send_none = λ fd bytes w h. send_none bytes w h;
}

without_lem :
    (p : ℤ) (n : ℕ) (es : List PollEvent) → All (λ e. (e.fd ==ℤ p) ≡ false) (take n (without p es))
without_lem p zero es = tt
without_lem p (suc n) [] = tt
without_lem p (suc n) (e ∷ es) = elim (Bool-cases (e.fd ==ℤ p)) [
  | inl x ↦ rw x (without_lem p (suc n) es)
  | inr x ↦ rw x (x, without_lem p n es)
]

pub no_poller :
    (p : ℤ) (bs : List (List PollEvent)) (w : Machine) (m : ℕ)
    → All (λ e. (e.fd ==ℤ p) ≡ false) (take (suc m) (wait_by p bs w).1)
no_poller p [] w m = tt
no_poller p (b ∷ bs) w m = without_lem p (suc m) b

pub wait_takes :
    (p : ℤ) (bs : List (List PollEvent)) (w : Machine)
    → w.batches ≡ bs
    → is_negative (wait_by p bs w).0 ≡ false
    → supply_of (wait_by p bs w).2 < supply_of w
wait_takes p [] w e h = ground arith
wait_takes p (b ∷ bs) w e h = omega (arith, ap length e)

pub wait_bounded :
    (p : ℤ) (bs : List (List PollEvent)) (w : Machine)
    → w.batches ≡ bs
    → supply_of (wait_by p bs w).2 ≤ supply_of w
wait_bounded p [] w e = omega arith
wait_bounded p (b ∷ bs) w e = omega (arith, ap length e)

abbrev pub sim_rounds : Rounds sim sim_supply
sim_rounds = record {
  no_poller = λ p n w m. no_poller p w.batches w m;
  wait_takes = λ p n w h. wait_takes p w.batches w refl h;
  wait_bounded = λ p n w. wait_bounded p w.batches w refl;
  initialize_bounded = λ w. le_refl (supply_of w);
  listen_bounded = λ host port n w. next_bounded w;
  poller_bounded = λ w. next_bounded w;
}
