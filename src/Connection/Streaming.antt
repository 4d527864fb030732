-- ===== src/Connection/Streaming.antt =====
-- What `Read` and `Write` leave alone: the streams of the other sockets.
use proxy_server_sa.Base.{
  ℕ, zero, suc, ◌<◌, ◌≡◌, refl, ◌∙◌, inl, inr, false, some, Bool-cases, not, List, ◌++◌, arith,
  Whenever, Whenever-some, Option, length, is_empty, take, drop, ◌⊎◌, ◌∷◌, [], true,
}
use proxy_server_sa.Base.Int.{ℤ, ◌==ℤ◌, ℤ-cases, is_zero, is_positive}
use proxy_server_sa.Net.{Network}
use proxy_server_sa.Net.Laws.{Streams, Apart}
use proxy_server_sa.Connection.{
  Connection, ConnectionResult, ok, k_16kb, read_loop, after_read, read, write_loop, after_write,
  write,
}
use proxy_server_sa.Connection.Read.{filled, read_loop_drains}
use proxy_server_sa.Connection.Write.{write_loop_hands}

module _ (net : Network) (st : Streams net) where
  open net use {World, receive, send}
  open st use {pending}

  -- What is still to come from `fd` is there already: only where nothing is left does a call of
  -- `Receive` bring nothing.
  abbrev pub AllThere : ℤ → Type 0
  AllThere fd = (v : World) → is_positive (receive fd k_16kb v).0 ≡ false → pending v fd ≡ []

  -- Every call of `Send` takes some byte.
  abbrev pub Accepts : ℤ → Type 0
  Accepts fd =
      (bytes : List ℕ) (v : World) → is_empty bytes ≡ false → is_positive (send fd bytes v).0 ≡ true

  all_sent :
      (fd : ℤ) (rest : List ℕ)
      → (is_empty rest ≡ true) ⊎ ((v : World) × (is_positive (send fd rest v).0 ≡ false))
      → Accepts fd
      → rest ≡ []
  all_sent fd [] h accepts = refl
  all_sent fd (b ∷ bs) (inl e) accepts = ground arith
  all_sent fd (b ∷ bs) (inr (v, e)) accepts = ground (arith, accepts (b ∷ bs) v refl)

module _ (net : Network) (st : Streams net) (apart : Apart net st) where
  open net use {World, receive, send}
  open st use {pending, sent, receive_none}
  open apart use {receive_apart, receive_sends_none, send_apart, send_takes_none}

  -- Only the bytes to be taken from `fd` have changed.
  abbrev pub TakesFrom : ℤ → World → World → Type 0
  TakesFrom fd w w' =
      ((k : ℤ) → (k ==ℤ fd) ≡ false → pending w' k ≡ pending w k) × ((k : ℤ) → sent w' k ≡ sent w k)

  -- Only the bytes handed over to `fd` have changed.
  abbrev pub HandsTo : ℤ → World → World → Type 0
  HandsTo fd w w' =
      ((k : ℤ) → (k ==ℤ fd) ≡ false → sent w' k ≡ sent w k) × ((k : ℤ) → pending w' k ≡ pending w k)

  TakesFrom-received :
      (fd : ℤ) (len : ℕ) (w0 w : World) → TakesFrom fd w0 w → TakesFrom fd w0 (receive fd len w).2
  TakesFrom-received fd len w0 w (p, s) =
      (λ k n. receive_apart fd len w k n ∙ p k n, λ k. receive_sends_none fd len w k ∙ s k)

  HandsTo-sent :
      (fd : ℤ) (bytes : List ℕ) (w0 w : World) → HandsTo fd w0 w → HandsTo fd w0 (send fd bytes w).1
  HandsTo-sent fd bytes w0 w (s, p) =
      (λ k n. send_apart fd bytes w k n ∙ s k n, λ k. send_takes_none fd bytes w k ∙ p k)

  read_loop-TakesFrom :
      (fuel : ℕ) (c : Connection) (w0 w : World)
      → TakesFrom c.id w0 w
      → Whenever (λ (r : Connection × World). TakesFrom c.id w0 r.1) (read_loop net fuel c w)
  unfolding read_loop
  read_loop-TakesFrom zero c w0 w h = tt
  read_loop-TakesFrom (suc fuel) c w0 w h =
      let next : TakesFrom c.id w0 (receive c.id k_16kb w).2 =
        TakesFrom-received c.id k_16kb w0 w h in
      elim (ℤ-cases (receive c.id k_16kb w).0) [
        | inl e ↦ rw (e, read_loop) next
        | inr (inl (m, e)) ↦
            rw (e, read_loop)
              (read_loop-TakesFrom fuel
                (record c {
                  receive_buffer = c.receive_buffer ++ take (suc m) (receive c.id k_16kb w).1;
                })
                w0 (receive c.id k_16kb w).2 next)
        | inr (inr (x, e)) ↦ rw (e, read_loop) next
      ]

  write_loop-HandsTo :
      (fuel : ℕ) (c : Connection) (w0 w : World)
      → HandsTo c.id w0 w
      → Whenever (λ (r : Connection × World). HandsTo c.id w0 r.1) (write_loop net fuel c w)
  unfolding write_loop
  write_loop-HandsTo zero c w0 w h = tt
  write_loop-HandsTo (suc fuel) c w0 w h =
      let next : HandsTo c.id w0 (send c.id c.send_buffer w).1 =
        HandsTo-sent c.id c.send_buffer w0 w h in
      elim (Bool-cases (is_empty c.send_buffer)) [
        | inl x ↦ rw (x, write_loop) h
        | inr x ↦
            rw (x, write_loop)
              (elim (ℤ-cases (send c.id c.send_buffer w).0) [
                | inl e ↦ rw (e, write_loop) next
                | inr (inl (m, e)) ↦
                    rw (e, write_loop)
                      (write_loop-HandsTo fuel
                        (record c { send_buffer = drop (suc m) c.send_buffer }) w0
                        (send c.id c.send_buffer w).1 next)
                | inr (inr (y, e)) ↦ rw (e, write_loop) next
              ])
      ]

  -- `Read` on an open socket that has not come to its end.
  pub record Took (fuel : ℕ) (c : Connection) (w : World) : Type 0 where
    pub got : List ℕ
    pub w1 : World
    pub reads :
        read net fuel c w
        ≡ some (ok, record c { receive_buffer = c.receive_buffer ++ got; closed = false }, w1)
    pub taken : pending w c.id ≡ got ++ pending w1 c.id
    pub only : TakesFrom c.id w w1
    pub looped : (x : Connection) × (read_loop net fuel c w ≡ some (x, w1))
    pub dry : AllThere net st c.id → pending w1 c.id ≡ []

  pub read-Took :
      (fuel : ℕ) (c : Connection) (w : World)
      → c.closed ≡ false
      → length (pending w c.id) < fuel
      → ((v : World) → is_zero (receive c.id k_16kb v).0 ≡ false)
      → Took fuel c w
  unfolding read after_read
  read-Took fuel c w open_ enough endless =
      let (d, p) = read_loop_drains net st fuel c w enough in
      let shut : (filled net st c w d).closed ≡ false = rw (endless d.w0) open_ in
      record {
        got = d.got;
        w1 = (receive c.id k_16kb d.w0).2;
        reads = rw p (rw (endless d.w0) (rw open_ refl));
        taken = d.taken;
        looped = (_, p);
        dry = λ there. receive_none c.id k_16kb d.w0 d.ended ∙ there d.w0 d.ended;
        only =
            Whenever-some (λ (r : Connection × World). TakesFrom c.id w r.1)
              (read_loop net fuel c w) (read_loop-TakesFrom fuel c w w ((λ k n. refl), (λ k. refl)))
              p;
      }

  -- `Write` in the same way.
  pub record Gave (c : Connection) (w : World) (r : Option (ConnectionResult × Connection × World))
      : Type 0 where
    pub rest : List ℕ
    pub w1 : World
    pub writes :
        r ≡ some (ok, record c { send_buffer = rest; want_write = not (is_empty rest) }, w1)
    pub kept : sent w1 c.id ++ rest ≡ sent w c.id ++ c.send_buffer
    pub only : HandsTo c.id w w1
    pub emptied : Accepts net st c.id → rest ≡ []

  pub write-Gave : (c : Connection) (w : World) → Gave c w (write net c w)
  unfolding write after_write
  write-Gave c w =
      let (d, p) = write_loop_hands net st (suc (length c.send_buffer)) c w (omega arith) in
      record {
        rest = d.rest;
        w1 = d.w1;
        writes = rw p refl;
        kept = d.kept;
        emptied = λ accepts. all_sent net st c.id d.rest d.stopped accepts;
        only =
            Whenever-some (λ (r : Connection × World). HandsTo c.id w r.1)
              (write_loop net (suc (length c.send_buffer)) c w)
              (write_loop-HandsTo (suc (length c.send_buffer)) c w w ((λ k n. refl), (λ k. refl)))
              p;
      }
