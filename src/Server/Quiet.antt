-- ===== src/Server/Quiet.antt =====
-- The operations that open and close nothing, and what they leave alone.
use proxy_server_sa.Base.{
  ℕ, zero, suc, ◌≤◌, ◌<◌, ◌≡◌, refl, ◌∙◌, ◌⊎◌, inl, inr, Bool, true, Option, none, some, List,
  arith, Returns, Returns-bind, Bool-cases, Returns-map, is_empty, length, length-drop,
  length-pos_of_not-empty, drop, take, ◌++◌,
}
use proxy_server_sa.Base.Int.{ℤ, ℤ-cases}
use proxy_server_sa.Net.{Network}
use proxy_server_sa.Net.Laws.{Descriptors, Supply}
use proxy_server_sa.Protocol.{Socks4, State, init, established, failed}
use proxy_server_sa.Connection.{
  Connection, ConnectionResult, k_16kb, read_loop, write_loop, after_write, write,
}
use proxy_server_sa.Socks4.{
  Peer, null, itself, other, take_request, on_readable_init, on_readable_established,
  on_readable_in, on_readable,
}

-- The socket of the connection that a pointer leads to.
abbrev pub peer_id : Peer → Option ℤ
peer_id null = none
peer_id itself = none
peer_id (other p) = some p.id

module _ (net : Network) (d : Descriptors net) (sup : Supply net) where
  open net use {World, update_event_interest, receive, send}
  open d use {is_open, update_keeps, receive_keeps, send_keeps}
  open sup use {supply, update_bounded, receive_takes, receive_bounded, send_bounded}

  pub record Quiet (w w' : World) : Type 0 where
    pub opens : (k : ℤ) → is_open w' k ≡ is_open w k
    pub bound : supply w' ≤ supply w

  pub Quiet-refl : (w : World) → Quiet w w
  Quiet-refl w = record { opens = λ k. refl; bound = omega arith }

  pub Quiet-trans : {u v w : World} → Quiet u v → Quiet v w → Quiet u w
  Quiet-trans p q = record { opens = λ k. q.opens k ∙ p.opens k; bound = omega arith }

  pub update-Quiet :
      (p fd : ℤ) (r s : Bool) (w : World) → Quiet w (update_event_interest p fd r s w).1
  update-Quiet p fd r s w = record {
    opens = update_keeps p fd r s w;
    bound = update_bounded p fd r s w;
  }

  -- One event interest at most is changed.
  MayUpdate : ℤ → ℤ → World → World → Type 0
  MayUpdate p fd w w' = (w' ≡ w) ⊎ (w' ≡ (update_event_interest p fd true true w).1)

  MayUpdate-Quiet : (p fd : ℤ) {w w' : World} → MayUpdate p fd w w' → Quiet w w'
  unfolding MayUpdate
  MayUpdate-Quiet p fd {w} (inl e) = rw e (Quiet-refl w)
  MayUpdate-Quiet p fd {w} (inr e) = rw e (update-Quiet p fd true true w)

  -- What a call of `Socks4::OnReadable` does to the world and to the identities.
  pub record KeepsIds (c : Connection) (q : Peer) (w : World)
      (r : Socks4 × Connection × Peer × World) : Type 0 where
    pub self_id : r.1.id ≡ c.id
    pub other_id : peer_id r.2 ≡ peer_id q
    pub quiet : Quiet w r.3

  init_keeps :
      (p : Socks4) (c : Connection) (poller : ℤ) (w : World)
      → ((on_readable_init net p c poller w).1.id ≡ c.id)
        × MayUpdate poller c.id w (on_readable_init net p c poller w).2
  unfolding on_readable_init take_request MayUpdate
  init_keeps p c poller w = ground arith

  established_keeps :
      (c p : Connection) (poller : ℤ) (w : World)
      → ((on_readable_established net c (other p) poller w).0.id ≡ c.id)
        × (peer_id (on_readable_established net c (other p) poller w).1 ≡ some p.id)
        × MayUpdate poller p.id w (on_readable_established net c (other p) poller w).2
  unfolding on_readable_established MayUpdate
  established_keeps c p poller w = ground arith

  on_readable_in_keeps :
      (s : State) (p : Socks4) (c : Connection) (q : Peer) (poller : ℤ) (w : World)
      → KeepsIds c q w (on_readable_in net s p c q poller w)
  unfolding on_readable_in on_readable_established
  on_readable_in_keeps init p c q poller w =
      let (id, world) = init_keeps p c poller w in
      record { self_id = id; other_id = refl; quiet = MayUpdate-Quiet poller c.id world }
  on_readable_in_keeps established p c null poller w = record {
    self_id = refl;
    other_id = refl;
    quiet = Quiet-refl w;
  }
  on_readable_in_keeps established p c itself poller w = record {
    self_id = refl;
    other_id = refl;
    quiet = Quiet-refl w;
  }
  on_readable_in_keeps established p c (other q) poller w =
      let (id, peer, world) = established_keeps c q poller w in
      record { self_id = id; other_id = peer; quiet = MayUpdate-Quiet poller q.id world }
  on_readable_in_keeps failed p c q poller w = record {
    self_id = refl;
    other_id = refl;
    quiet = Quiet-refl w;
  }

  pub on_readable_keeps :
      (p : Socks4) (c : Connection) (q : Peer) (poller : ℤ) (w : World)
      → KeepsIds c q w (on_readable net p c q poller w)
  unfolding on_readable
  on_readable_keeps p c q poller w = on_readable_in_keeps p.state p c q poller w

  send-Quiet : (fd : ℤ) (bytes : List ℕ) (w : World) → Quiet w (send fd bytes w).1
  send-Quiet fd bytes w = record { opens = send_keeps fd bytes w; bound = send_bounded fd bytes w }

  receive-Quiet : (fd : ℤ) (n : ℕ) (w : World) → Quiet w (receive fd n w).2
  receive-Quiet fd n w = record { opens = receive_keeps fd n w; bound = receive_bounded fd n w }

  abbrev pub SameSocket : Connection → World → Connection × World → Type 0
  SameSocket c w (c', w') = (c'.id ≡ c.id) × (c'.role ≡ c.role) × Quiet w w'

  write_loop_keeps :
      (fuel : ℕ) (c : Connection) (w : World)
      → length c.send_buffer < fuel
      → Returns (SameSocket c w) (write_loop net fuel c w)
  unfolding write_loop
  write_loop_keeps zero c w h = absurd (omega arith)
  write_loop_keeps (suc fuel) c w h = elim (Bool-cases (is_empty c.send_buffer)) [
    | inl e ↦ rw (e, write_loop) (refl, refl, Quiet-refl w)
    | inr f ↦
        let q = send-Quiet c.id c.send_buffer w in
        rw (f, write_loop)
          (elim (ℤ-cases (send c.id c.send_buffer w).0) [
            | inl x ↦ rw (x, write_loop) (refl, refl, q)
            | inr (inl (m, x)) ↦
                rw (x, write_loop)
                  (Returns-map (SameSocket (rest m) (send c.id c.send_buffer w).1) (SameSocket c w)
                    (write_loop net fuel (rest m) (send c.id c.send_buffer w).1)
                    (write_loop_keeps fuel (rest m) _ (
                      omega (
                        arith,
                        length-pos_of_not-empty c.send_buffer f,
                        length-drop (suc m) c.send_buffer,
                      )))
                    (λ r p. (p.0, p.1, Quiet-trans q p.2)))
            | inr (inr (_, x)) ↦ rw (x, write_loop) (refl, refl, q)
          ])
  ]
    where
      rest : ℕ → Connection
      rest m = record c { send_buffer = drop (suc m) c.send_buffer }

  abbrev pub SameSocketAfter : Connection → World → ConnectionResult × Connection × World → Type 0
  SameSocketAfter c w (r, c', w') = SameSocket c w (c', w')

  pub write_keeps : (c : Connection) (w : World) → Returns (SameSocketAfter c w) (write net c w)
  unfolding write after_write
  write_keeps c w =
      Returns-bind (SameSocket c w) (SameSocketAfter c w) (write_loop net _ c w) _
        (write_loop_keeps (suc (length c.send_buffer)) c w (omega arith)) (λ r p. p)

  pub read_loop_keeps :
      (fuel : ℕ) (c : Connection) (w : World)
      → supply w < fuel
      → Returns (SameSocket c w) (read_loop net fuel c w)
  unfolding read_loop
  read_loop_keeps zero c w h = absurd (omega arith)
  read_loop_keeps (suc fuel) c w h =
      let q = receive-Quiet c.id k_16kb w in
      elim (ℤ-cases (receive c.id k_16kb w).0) [
        | inl x ↦ rw (x, read_loop) (refl, refl, q)
        | inr (inl (m, x)) ↦
            rw (x, read_loop)
              (Returns-map (SameSocket (filled m) (receive c.id k_16kb w).2) (SameSocket c w)
                (read_loop net fuel (filled m) (receive c.id k_16kb w).2)
                (read_loop_keeps fuel (filled m) _
                  (omega (arith, receive_takes c.id k_16kb w (rw x))))
                (λ r p. (p.0, p.1, Quiet-trans q p.2)))
        | inr (inr (_, x)) ↦ rw (x, read_loop) (refl, refl, q)
      ]
    where
      filled : ℕ → Connection
      filled m = record c {
        receive_buffer = c.receive_buffer ++ take (suc m) (receive c.id k_16kb w).1;
      }
