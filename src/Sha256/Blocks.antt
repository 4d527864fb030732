-- ===== src/Sha256/Blocks.antt =====
-- The loop over offsets against a fold over the blocks of the padded message.
use proxy_server_sa.Base.{
  ℕ, zero, suc, ◌+◌, ◌*◌, ◌/◌, ◌≤◌, ◌<◌, ◌≡◌, refl, ap, ◌∙◌, sym, List, [], ◌∷◌, ◌++◌, arith, take,
  drop, get_or, length, ltb, true, false,
}
use proxy_server_sa.Sha256.{
  Working, preprocess, chunk_word, load_loop, extend_loop, schedule, round_loop, add_working,
  chunk_loop, init_state, hex_state, compute,
}
use proxy_server_sa.Sha256.Padding.{preprocess-blocks}

-- `n` blocks of 64 bytes, and the state after them.
unfoldable pub blocks : ℕ → List ℕ → List (List ℕ)
blocks zero l = []
blocks (suc n) l = take 64 l ∷ blocks n (drop 64 l)

unfoldable pub after_blocks : List (List ℕ) → Working → Working
unfolding schedule round_loop add_working
after_blocks [] h = h
after_blocks (b ∷ l) h = after_blocks l (add_working h (round_loop 64 0 (schedule b 0) h))

get_or-drop : (n i : ℕ) (l : List ℕ) → get_or (drop n l) i 0 ≡ get_or l (n + i) 0
get_or-drop zero i l = let e : i ≡ 0 + i = omega arith in ap (λ (j : ℕ). get_or l j 0) e
get_or-drop (suc n) i [] = refl
get_or-drop (suc n) i (x ∷ l) =
    let e : suc (n + i) ≡ suc n + i = omega arith in
    get_or-drop n i l ∙ ap (λ (j : ℕ). get_or (x ∷ l) j 0) e

get_or-take : (n i : ℕ) (l : List ℕ) → i < n → get_or (take n l) i 0 ≡ get_or l i 0
get_or-take zero i l h = absurd (omega arith)
get_or-take (suc n) i [] h = refl
get_or-take (suc n) zero (x ∷ l) h = refl
get_or-take (suc n) (suc i) (x ∷ l) h = get_or-take n i l (omega arith)

drop-nothing : (n : ℕ) → drop {A = ℕ} n [] ≡ []
drop-nothing zero = refl
drop-nothing (suc n) = refl

drop-drop : (m n : ℕ) (l : List ℕ) → drop m (drop n l) ≡ drop (n + m) l
drop-drop m zero l = let e : m ≡ 0 + m = omega arith in ap (λ (j : ℕ). drop j l) e
drop-drop m (suc n) [] = drop-nothing m ∙ sym (drop-nothing (suc n + m))
drop-drop m (suc n) (x ∷ l) =
    let e : suc (n + m) ≡ suc n + m = omega arith in
    drop-drop m n l ∙ ap (λ (j : ℕ). drop j (x ∷ l)) e

-- A block has the bytes of the message from `c` on.
module _ (l : List ℕ) (c : ℕ) where
  abbrev block : List ℕ
  block = take 64 (drop c l)

  byte_lem : (i : ℕ) → i < 64 → get_or l (c + i) 0 ≡ get_or block i 0
  byte_lem i h = sym (get_or-take 64 i (drop c l) h ∙ get_or-drop c i l)

  chunk_word_lem : (i : ℕ) → i < 16 → chunk_word l (c + i * 4) ≡ chunk_word block (0 + i * 4)
  unfolding chunk_word
  chunk_word_lem i h =
      let f : i * 4 ≡ 0 + i * 4 = omega arith in
      let first : get_or l (c + i * 4) 0 ≡ get_or block (0 + i * 4) 0 =
        byte_lem (i * 4) (omega arith) ∙ ap (λ (j : ℕ). get_or block j 0) f in
      rw (first, at 1 (omega arith), at 2 (omega arith), at 3 (omega arith)) refl
    where
      at : (k : ℕ) → k < 4 → get_or l (c + i * 4 + k) 0 ≡ get_or block (0 + i * 4 + k) 0
      at k m =
          let e : c + i * 4 + k ≡ c + (i * 4 + k) = omega arith in
          let f : i * 4 + k ≡ 0 + i * 4 + k = omega arith in
          ap (λ (j : ℕ). get_or l j 0) e
          ∙ (byte_lem (i * 4 + k) (omega arith) ∙ ap (λ (j : ℕ). get_or block j 0) f)

  load_loop_lem :
      (n i : ℕ) (w : List ℕ) → n + i ≤ 16 → load_loop n i l c w ≡ load_loop n i block 0 w
  unfolding load_loop
  load_loop_lem zero i w h = refl
  load_loop_lem (suc n) i w h =
      ap (λ (x : ℕ). load_loop n (suc i) l c (w ++ x ∷ [])) (chunk_word_lem i (omega arith))
      ∙ load_loop_lem n (suc i) (w ++ chunk_word block (0 + i * 4) ∷ []) (omega arith)

  schedule_lem : schedule l c ≡ schedule block 0
  unfolding schedule
  schedule_lem = ap (extend_loop 48 16) (load_loop_lem 16 0 [] (omega arith))

chunk_loop_lem :
    (n fuel : ℕ) (l : List ℕ) (c : ℕ) (h : Working)
    → n ≤ fuel
    → length l ≡ c + n * 64
    → chunk_loop fuel l c h ≡ after_blocks (blocks n (drop c l)) h
unfolding chunk_loop after_blocks blocks
chunk_loop_lem zero zero l c h m e = refl
chunk_loop_lem zero (suc fuel) l c h m e =
    let t : ltb c (length l) ≡ false = ground arith in rw (t, chunk_loop) refl
chunk_loop_lem (suc n) zero l c h m e = absurd (omega arith)
chunk_loop_lem (suc n) (suc fuel) l c h m e =
    let t : ltb c (length l) ≡ true = ground arith in
    rw (t, chunk_loop)
      (ap (λ (w : List ℕ). chunk_loop fuel l (c + 64) (add_working h (round_loop 64 0 w h)))
          (schedule_lem l c)
        ∙ (chunk_loop_lem n fuel l (c + 64)
              (add_working h (round_loop 64 0 (schedule (block l c) 0) h)) (omega arith)
              (omega arith)
            ∙ ap
                (λ (d : List ℕ).
                  after_blocks (blocks n d)
                    (add_working h (round_loop 64 0 (schedule (block l c) 0) h)))
                (sym (drop-drop 64 c l))))

-- The digest is what stands in the state after all blocks of the padded message, one after the other, each used once.
pub compute-blocks :
    (input : List ℕ)
    → compute input
      ≡ hex_state
          (after_blocks (blocks (length (preprocess input) / 64) (preprocess input)) init_state)
unfolding compute
compute-blocks input = ap hex_state (
    chunk_loop_lem (length (preprocess input) / 64) (length (preprocess input)) (preprocess input) 0
      init_state (omega arith) (omega (arith, (preprocess-blocks input).0)))
