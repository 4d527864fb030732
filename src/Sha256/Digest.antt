-- ===== src/Sha256/Digest.antt =====
-- The digest as text.
use proxy_server_sa.Base.{
  ℕ, zero, suc, ◌+◌, ◌/◌, ◌%◌, ◌≤◌, ◌≡◌, ◌⊎◌, refl, List, [], ◌∷◌, ◌++◌, arith, length,
  length-append, All, All-append,
}
use proxy_server_sa.Sha256.{
  Working, hex_digit_lower, hex_word, hex_state, compute, preprocess, chunk_loop, init_state,
}

-- 0 to 9 and a to f.
abbrev pub IsHexLower : ℕ → Type 0
IsHexLower c = ((48 ≤ c) × (c ≤ 57)) ⊎ ((97 ≤ c) × (c ≤ 102))

hex_digit-IsHexLower : (n : ℕ) → IsHexLower (hex_digit_lower (n % 16))
unfolding hex_digit_lower
hex_digit-IsHexLower n = ground arith

length-hex_word : (n x : ℕ) → length (hex_word n x) ≡ n
unfolding hex_word
length-hex_word zero x = refl
length-hex_word (suc n) x = omega (
  arith,
  length-append (hex_word n (x / 16)) (hex_digit_lower (x % 16) ∷ []),
  length-hex_word n (x / 16),
)

hex_word-IsHexLower : (n x : ℕ) → All IsHexLower (hex_word n x)
unfolding hex_word
hex_word-IsHexLower zero x = tt
hex_word-IsHexLower (suc n) x =
    All-append IsHexLower (hex_word n (x / 16)) (hex_digit_lower (x % 16) ∷ [])
      (hex_word-IsHexLower n (x / 16)) (hex_digit-IsHexLower x, tt)

-- What a list of words says of its text, one word after the other.
IsText : ℕ → List ℕ → Type 0
IsText n l = (length l ≡ n) × All IsHexLower l

joined : (m n : ℕ) (l k : List ℕ) → IsText m l → IsText n k → IsText (m + n) (l ++ k)
unfolding IsText
joined m n l k (e, h) (f, g) = (omega (arith, length-append l k), All-append IsHexLower l k h g)

word : (x : ℕ) → IsText 8 (hex_word 8 x)
unfolding IsText
word x = (length-hex_word 8 x, hex_word-IsHexLower 8 x)

hex_state-IsText : (h : Working) → IsText 64 (hex_state h)
unfolding hex_state
hex_state-IsText h = joined 8 56 (hex_word 8 h.a) _ (word h.a) (
    joined 8 48 (hex_word 8 h.b) _ (word h.b) (
      joined 8 40 (hex_word 8 h.c) _ (word h.c) (
        joined 8 32 (hex_word 8 h.d) _ (word h.d) (
          joined 8 24 (hex_word 8 h.e) _ (word h.e) (
            joined 8 16 (hex_word 8 h.f) _ (word h.f)
              (joined 8 8 (hex_word 8 h.g) _ (word h.g) (word h.t)))))))

-- A digest is always 64 characters long, each of them 0 to 9 or a to f.
pub compute-IsHexLower :
    (input : List ℕ) → (length (compute input) ≡ 64) × All IsHexLower (compute input)
unfolding compute IsText
compute-IsHexLower input =
    hex_state-IsText (chunk_loop (length (preprocess input)) (preprocess input) 0 init_state)
