-- ===== src/Server/Lone.antt =====
-- The small machine of `Net.Sim`, whose one stream now belongs to the socket 5.
use proxy_server_sa.Base.{
  ℕ, suc, ◌≤◌, ◌<◌, ◌≡◌, refl, Bool, true, false, List, [], ◌∷◌, ◌++◌, arith, length, take, ap,
  ◌&&◌,
}
use proxy_server_sa.Base.Int.{ℤ, pos, minus_one, is_positive, is_zero, ◌==ℤ◌, ==ℤ_iff}
use proxy_server_sa.Net.{Network}
use proxy_server_sa.Net.Laws.{Descriptors, Streams, Supply, Apart}
use proxy_server_sa.Net.Sim.{Machine, sim, receive_by, send_by}
use proxy_server_sa.Net.SimLaws.{
  sim_descriptors, sim_supply, supply_of, receive_keeps, send_keeps, receive_takes, receive_bounded,
  send_bounded, receive_some, receive_none, send_some, send_none,
}

-- Whether the descriptor has the stream.
abbrev takes : Bool → Machine → ℤ × List ℕ × Machine
takes true w = receive_by w.inbox w
takes false w = (minus_one, [], w)

abbrev gives : Bool → List ℕ → Machine → ℤ × Machine
gives true bytes w = send_by bytes w
gives false bytes w = (minus_one, w)

abbrev part : Bool → List ℕ → List ℕ
part true l = l
part false l = []

abbrev pub lone : Network
lone = record sim {
  receive = λ fd n w. takes (fd ==ℤ pos 5) w;
  send = λ fd bytes w. gives (fd ==ℤ pos 5) bytes w;
}

pub takes_keeps : (b : Bool) (w : Machine) (k : ℤ) → (takes b w).2.is_open k ≡ w.is_open k
takes_keeps true w k = receive_keeps w.inbox w k
takes_keeps false w k = refl

pub gives_keeps :
    (b : Bool) (l : List ℕ) (w : Machine) (k : ℤ) → (gives b l w).1.is_open k ≡ w.is_open k
gives_keeps true l w k = send_keeps l w k
gives_keeps false l w k = refl

abbrev pub lone_descriptors : Descriptors lone
lone_descriptors = record {
  is_open = sim_descriptors.is_open;
  initialize_keeps = sim_descriptors.initialize_keeps;
  shut_down_keeps = sim_descriptors.shut_down_keeps;
  accept_opens = sim_descriptors.accept_opens;
  accept_fresh = sim_descriptors.accept_fresh;
  connect_opens = sim_descriptors.connect_opens;
  connect_fresh = sim_descriptors.connect_fresh;
  listen_opens = sim_descriptors.listen_opens;
  listen_fresh = sim_descriptors.listen_fresh;
  poller_opens = sim_descriptors.poller_opens;
  poller_fresh = sim_descriptors.poller_fresh;
  close_closes = sim_descriptors.close_closes;
  non_blocking_keeps = sim_descriptors.non_blocking_keeps;
  register_keeps = sim_descriptors.register_keeps;
  update_keeps = sim_descriptors.update_keeps;
  receive_keeps = λ fd n w k. takes_keeps (fd ==ℤ pos 5) w k;
  send_keeps = λ fd bytes w k. gives_keeps (fd ==ℤ pos 5) bytes w k;
  wait_keeps = sim_descriptors.wait_keeps;
}

pub takes_less :
    (b : Bool) (w : Machine)
    → is_positive (takes b w).0 ≡ true
    → supply_of (takes b w).2 < supply_of w
takes_less true w h = receive_takes w.inbox w refl h
takes_less false w h = ground arith

pub takes_bounded : (b : Bool) (w : Machine) → supply_of (takes b w).2 ≤ supply_of w
takes_bounded true w = receive_bounded w.inbox w refl
takes_bounded false w = omega arith

pub gives_bounded : (b : Bool) (l : List ℕ) (w : Machine) → supply_of (gives b l w).1 ≤ supply_of w
gives_bounded true l w = send_bounded l w
gives_bounded false l w = omega arith

abbrev pub lone_supply : Supply lone
lone_supply = record {
  supply = supply_of;
  accept_takes = sim_supply.accept_takes;
  accept_bounded = sim_supply.accept_bounded;
  receive_takes = λ fd n w h. takes_less (fd ==ℤ pos 5) w h;
  receive_bounded = λ fd n w. takes_bounded (fd ==ℤ pos 5) w;
  non_blocking_bounded = sim_supply.non_blocking_bounded;
  register_bounded = sim_supply.register_bounded;
  update_bounded = sim_supply.update_bounded;
  send_bounded = λ fd bytes w. gives_bounded (fd ==ℤ pos 5) bytes w;
  connect_bounded = sim_supply.connect_bounded;
  close_bounded = sim_supply.close_bounded;
}

pub takes_some :
    (b : Bool) (w : Machine) (m : ℕ)
    → (takes b w).0 ≡ pos (suc m)
    → (length (take (suc m) (takes b w).1) ≡ suc m)
      × (part b w.inbox ≡ take (suc m) (takes b w).1 ++ part b (takes b w).2.inbox)
takes_some true w m h = receive_some w.inbox w m refl h
takes_some false w m h = ground arith

pub takes_none :
    (b : Bool) (w : Machine)
    → is_positive (takes b w).0 ≡ false
    → part b (takes b w).2.inbox ≡ part b w.inbox
takes_none true w h = receive_none w.inbox w h
takes_none false w h = refl

pub gives_some :
    (b : Bool) (l : List ℕ) (w : Machine) (m : ℕ)
    → (gives b l w).0 ≡ pos (suc m)
    → (suc m ≤ length l) × (part b (gives b l w).1.outbox ≡ part b w.outbox ++ take (suc m) l)
gives_some true l w m h = send_some l w m h
gives_some false l w m h = ground arith

pub gives_none :
    (b : Bool) (l : List ℕ) (w : Machine)
    → is_positive (gives b l w).0 ≡ false
    → part b (gives b l w).1.outbox ≡ part b w.outbox
gives_none true l w h = send_none l w h
gives_none false l w h = refl

abbrev pub lone_streams : Streams lone
lone_streams = record {
  pending = λ w fd. part (fd ==ℤ pos 5) w.inbox;
  sent = λ w fd. part (fd ==ℤ pos 5) w.outbox;
  receive_some = λ fd n w m h. takes_some (fd ==ℤ pos 5) w m h;
  receive_none = λ fd n w h. takes_none (fd ==ℤ pos 5) w h;
  send_some = λ fd bytes w m h. gives_some (fd ==ℤ pos 5) bytes w m h;
  send_none = λ fd bytes w h. gives_none (fd ==ℤ pos 5) bytes w h;
}

-- Of two different descriptors one at most has it.
pub not_both : (k fd : ℤ) → (k ==ℤ fd) ≡ false → ((fd ==ℤ pos 5) && (k ==ℤ pos 5)) ≡ false
not_both k fd n = ground (arith, ==ℤ_iff fd (pos 5), ==ℤ_iff k (pos 5), ==ℤ_iff k fd)

pub takes_apart :
    (b a : Bool) (w : Machine) → (b && a) ≡ false → part a (takes b w).2.inbox ≡ part a w.inbox
takes_apart true true w h = ground arith
takes_apart true false w h = refl
takes_apart false a w h = refl

received_outbox : (bs : List ℕ) (w : Machine) → (receive_by bs w).2.outbox ≡ w.outbox
received_outbox [] w = refl
received_outbox (b ∷ bs) w = refl

pub takes_outbox : (b a : Bool) (w : Machine) → part a (takes b w).2.outbox ≡ part a w.outbox
takes_outbox true a w = ap (part a) (received_outbox w.inbox w)
takes_outbox false a w = refl

pub gives_apart :
    (b a : Bool) (l : List ℕ) (w : Machine)
    → (b && a) ≡ false
    → part a (gives b l w).1.outbox ≡ part a w.outbox
gives_apart true true l w h = ground arith
gives_apart true false l w h = refl
gives_apart false a l w h = refl

sent_inbox : (bs : List ℕ) (w : Machine) → (send_by bs w).1.inbox ≡ w.inbox
sent_inbox [] w = refl
sent_inbox (b ∷ bs) w = refl

pub gives_inbox :
    (b a : Bool) (l : List ℕ) (w : Machine) → part a (gives b l w).1.inbox ≡ part a w.inbox
gives_inbox true a l w = ap (part a) (sent_inbox l w)
gives_inbox false a l w = refl

abbrev pub lone_apart : Apart lone lone_streams
lone_apart = record {
  receive_apart = λ fd n w k h. takes_apart (fd ==ℤ pos 5) (k ==ℤ pos 5) w (not_both k fd h);
  receive_sends_none = λ fd n w k. takes_outbox (fd ==ℤ pos 5) (k ==ℤ pos 5) w;
  send_apart = λ fd bytes w k h. gives_apart (fd ==ℤ pos 5) (k ==ℤ pos 5) bytes w (not_both k fd h);
  send_takes_none = λ fd bytes w k. gives_inbox (fd ==ℤ pos 5) (k ==ℤ pos 5) bytes w;
  update_takes_none = λ p fd r s w k. refl;
  update_sends_none = λ p fd r s w k. refl;
}

pub emptied :
    (bs : List ℕ) (w : Machine)
    → w.inbox ≡ bs
    → is_positive (receive_by bs w).0 ≡ false
    → w.inbox ≡ []
emptied [] w e h = e
emptied (b ∷ bs) w e h = ground arith

pub goes_on : (bs : List ℕ) (w : Machine) → is_zero (receive_by bs w).0 ≡ false
goes_on [] w = refl
goes_on (b ∷ bs) w = refl
