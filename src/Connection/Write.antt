-- ===== src/Connection/Write.antt =====
-- `Connection::Write` hands bytes over in order.
use proxy_server_sa.Base.{
  ℕ, zero, suc, ◌<◌, ◌≡◌, refl, ap, ◌∙◌, ◌⊎◌, inl, inr, true, false, not, some, Bool-cases, List,
  ◌++◌, arith, append_assoc, length, length-drop, drop, take-append-drop, is_empty,
}
use proxy_server_sa.Base.Int.{ℤ, pos, negsuc, is_positive, ℤ-cases}
use proxy_server_sa.Net.{Network}
use proxy_server_sa.Net.Laws.{Streams}
use proxy_server_sa.Connection.{Connection, ok, write_loop, after_write, write}

module _ (net : Network) (streams : Streams net) where
  open net use {World, send}
  open streams use {sent, send_some, send_none}

  -- `rest` has not gone out, and what has gone out stands behind what went out before. Nothing is
  -- left, or a call of `send` has taken none of it.
  pub record Handed (c : Connection) (w : World) : Type 0 where
    pub rest : List ℕ
    pub w1 : World
    pub kept : sent w1 c.id ++ rest ≡ sent w c.id ++ c.send_buffer
    pub stopped :
        (is_empty rest ≡ true) ⊎ ((v : World) × (is_positive (send c.id rest v).0 ≡ false))

  abbrev pub Loops : ℕ → Connection → World → Type 0
  Loops fuel c w =
      (d : Handed c w) × (write_loop net fuel c w ≡ some (record c { send_buffer = d.rest }, d.w1))

  empty_stops :
      (fuel : ℕ) (c : Connection) (w : World)
      → is_empty c.send_buffer ≡ true
      → write_loop net (suc fuel) c w ≡ some (c, w)
  unfolding write_loop
  empty_stops fuel c w e = rw (e, write_loop)

  -- One call of `send` that takes nothing.
  refusal_stops :
      (fuel : ℕ) (c : Connection) (w : World) (n : ℤ)
      → is_empty c.send_buffer ≡ false
      → (send c.id c.send_buffer w).0 ≡ n
      → is_positive n ≡ false
      → write_loop net (suc fuel) c w ≡ some (c, (send c.id c.send_buffer w).1)
  unfolding write_loop
  refusal_stops fuel c w (pos zero) f e h = rw (f, write_loop) (rw (e, write_loop))
  refusal_stops fuel c w (pos (suc m)) f e h = ground arith
  refusal_stops fuel c w (negsuc x) f e h = rw (f, write_loop) (rw (e, write_loop))

  abbrev after_send : Connection → ℕ → Connection
  after_send c m = record c { send_buffer = drop (suc m) c.send_buffer }

  one_send :
      (fuel : ℕ) (c : Connection) (w : World) (m : ℕ)
      → is_empty c.send_buffer ≡ false
      → (send c.id c.send_buffer w).0 ≡ pos (suc m)
      → write_loop net (suc fuel) c w
        ≡ write_loop net fuel (after_send c m) (send c.id c.send_buffer w).1
  unfolding write_loop
  one_send fuel c w m f e = rw (f, write_loop) (rw (e, write_loop))

  handed_none :
      (fuel : ℕ) (c : Connection) (w : World)
      → is_empty c.send_buffer ≡ false
      → is_positive (send c.id c.send_buffer w).0 ≡ false
      → Loops (suc fuel) c w
  handed_none fuel c w f h = (
    record {
      rest = c.send_buffer;
      w1 = (send c.id c.send_buffer w).1;
      kept = ap (λ s. s ++ c.send_buffer) (send_none c.id c.send_buffer w h);
      stopped = inr (w, h);
    },
    refusal_stops fuel c w _ f refl h,
  )

  handed_more :
      (c : Connection) (w : World) (m : ℕ)
      → (send c.id c.send_buffer w).0 ≡ pos (suc m)
      → Handed (after_send c m) (send c.id c.send_buffer w).1
      → Handed c w
  handed_more c w m e d = record {
    rest = d.rest;
    w1 = d.w1;
    kept =
        d.kept
        ∙ ap (λ s. s ++ drop (suc m) c.send_buffer) (send_some c.id c.send_buffer w m e).1
        ∙ append_assoc (sent w c.id) _ _
        ∙ ap (◌++◌ (sent w c.id)) (take-append-drop (suc m) c.send_buffer);
    stopped = d.stopped;
  }

  pub write_loop_hands :
      (fuel : ℕ) (c : Connection) (w : World) → length c.send_buffer < fuel → Loops fuel c w
  unfolding handed_more
  write_loop_hands zero c w h = absurd (omega arith)
  write_loop_hands (suc fuel) c w h = elim (Bool-cases (is_empty c.send_buffer)) [
    | inl e ↦ (
      record { rest = c.send_buffer; w1 = w; kept = refl; stopped = inl e },
      empty_stops fuel c w e,
    )
    | inr f ↦ elim (ℤ-cases (send c.id c.send_buffer w).0) [
      | inl x ↦ handed_none fuel c w f (rw x)
      | inr (inl (m, x)) ↦
          let (d, p) = write_loop_hands fuel (after_send c m) (send c.id c.send_buffer w).1 (
            omega
              (arith, (send_some c.id c.send_buffer w m x).0, length-drop (suc m) c.send_buffer)) in
          (handed_more c w m x d, one_send fuel c w m f x ∙ p)
      | inr (inr (_, x)) ↦ handed_none fuel c w f (rw x)
    ]
  ]

  -- `Write` always ends, with `OK`, and loses no byte: what has gone out followed by what is left in
  -- the send buffer is what had gone out before followed by the send buffer as it was. It stops
  -- where nothing is left or `Send` takes nothing, asks for another event exactly when something is
  -- left, and changes no other field.
  pub write_total :
      (c : Connection) (w : World)
      → (d : Handed c w) × (write net c w
          ≡ some (ok, record c { send_buffer = d.rest; want_write = not (is_empty d.rest) }, d.w1))
  unfolding write after_write
  write_total c w =
      let (d, p) = write_loop_hands (suc (length c.send_buffer)) c w (omega arith) in (d, rw p)
