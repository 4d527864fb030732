-- ===== src/Sha256/Schedule.antt =====
-- The words of the schedule.
use proxy_server_sa.Base.{
  ℕ, zero, suc, ◌+◌, ◌-◌, ◌*◌, ◌≤◌, ◌<◌, ◌≡◌, refl, ap, ◌∙◌, sym, subst, List, [], ◌∷◌, ◌++◌, arith,
  get_or, length, length-append, get_or-append_left, inl, inr, ◌==◌, Bool-cases,
}
use proxy_server_sa.Sha256.{chunk_word, load_loop, small_s0, small_s1, ◌⊞◌, extend_loop, schedule}

-- What the standard says of the word `t` from the sixteenth on.
abbrev pub expanded : List ℕ → ℕ → ℕ
unfolding small_s0 small_s1 ◌⊞◌
expanded w t =
    get_or w (t - 16) 0
    ⊞ small_s0 (get_or w (t - 15) 0)
    ⊞ get_or w (t - 7) 0
    ⊞ small_s1 (get_or w (t - 2) 0)

get_or-last : (w : List ℕ) (x : ℕ) → get_or (w ++ x ∷ []) (length w) 0 ≡ x
get_or-last [] x = refl
get_or-last (y ∷ w) x = get_or-last w x

kept :
    (n i : ℕ) (w : List ℕ) (t : ℕ)
    → length w ≡ i
    → t < i
    → get_or (extend_loop n i w) t 0 ≡ get_or w t 0
unfolding extend_loop
kept zero i w t e h = refl
kept (suc n) i w t e h =
    kept n (suc i) (w ++ expanded w i ∷ []) t (omega (arith, length-append w (expanded w i ∷ [])))
      (omega arith)
    ∙ get_or-append_left w (expanded w i ∷ []) t 0 (omega arith)

filled :
    (n i : ℕ) (w : List ℕ)
    → length w ≡ i
    → 16 ≤ i
    → get_or (extend_loop (suc n) i w) i 0 ≡ expanded (extend_loop (suc n) i w) i
unfolding extend_loop
filled n i w e k =
    kept n (suc i) (w ++ expanded w i ∷ []) i (omega (arith, length-append w (expanded w i ∷ [])))
      (omega arith)
    ∙ (ap (λ (j : ℕ). get_or (w ++ expanded w i ∷ []) j 0) (sym e)
        ∙ (get_or-last w (expanded w i)
            ∙ cc (
              same (i - 16) (omega arith),
              same (i - 15) (omega arith),
              same (i - 7) (omega arith),
              same (i - 2) (omega arith),
            )))
  where
    same :
        (j : ℕ) → j < i → get_or (extend_loop n (suc i) (w ++ expanded w i ∷ [])) j 0 ≡ get_or w j 0
    same j h = kept (suc n) i w j e h

extend_loop_lem :
    (n i : ℕ) (w : List ℕ) (t : ℕ)
    → length w ≡ i
    → 16 ≤ i
    → i ≤ t
    → t < n + i
    → get_or (extend_loop n i w) t 0 ≡ expanded (extend_loop n i w) t
unfolding extend_loop
extend_loop_lem zero i w t e k h m = absurd (omega arith)
extend_loop_lem (suc n) i w t e k h m = elim (Bool-cases (t == i)) [
  | inl x ↦
      let same : i ≡ t = ground arith in
      subst (λ (j : ℕ). get_or (extend_loop (suc n) i w) j 0 ≡ expanded (extend_loop (suc n) i w) j)
        same (filled n i w e k)
  | inr x ↦
      extend_loop_lem n (suc i) (w ++ expanded w i ∷ []) t
        (omega (arith, length-append w (expanded w i ∷ []))) (omega arith) (ground arith)
        (omega arith)
]

length-load_loop :
    (n i : ℕ) (bytes : List ℕ) (chunk : ℕ) (w : List ℕ)
    → length (load_loop n i bytes chunk w) ≡ n + length w
unfolding load_loop
length-load_loop zero i bytes chunk w = omega arith
length-load_loop (suc n) i bytes chunk w = omega (
  arith,
  length-load_loop n (suc i) bytes chunk (w ++ chunk_word bytes (chunk + i * 4) ∷ []),
  length-append w (chunk_word bytes (chunk + i * 4) ∷ []),
)

-- From the sixteenth on each of the 64 words of a block is what the standard makes of four words before it.
pub schedule-expanded :
    (bytes : List ℕ) (chunk t : ℕ)
    → 16 ≤ t
    → t < 64
    → get_or (schedule bytes chunk) t 0 ≡ expanded (schedule bytes chunk) t
unfolding schedule
schedule-expanded bytes chunk t h m =
    extend_loop_lem 48 16 (load_loop 16 0 bytes chunk []) t
      (omega (arith, length-load_loop 16 0 bytes chunk [])) (omega arith) h (omega arith)
