-- ===== src/Sha256/Padding.antt =====
-- The padding of the message.
use proxy_server_sa.Base.{
  ℕ, zero, suc, ◌+◌, ◌-◌, ◌*◌, ◌/◌, ◌%◌, ◌^◌, ◌≤◌, ◌<◌, ◌≡◌, refl, ap, ◌∙◌, sym, bit_and, List, [],
  ◌∷◌, ◌++◌, append_assoc, append-nil, arith, length, length-append, length-replicate, replicate,
  take, drop, take-append, drop-append,
}
use proxy_server_sa.Base.Bits.{bit_and_ones}
use proxy_server_sa.Sha256.{zeros_loop, length_loop, preprocess}

-- A number as `n` bytes, the highest first, and back.
unfoldable big_endian : ℕ → ℕ → List ℕ
big_endian zero x = []
big_endian (suc n) x = bit_and (x / 2 ^ (n * 8)) 0xFF ∷ big_endian n x

unfoldable value : ℕ → List ℕ → ℕ
value acc [] = acc
value acc (b ∷ l) = value (acc * 256 + b) l

length-big_endian : (n x : ℕ) → length (big_endian n x) ≡ n
unfolding big_endian
length-big_endian zero x = refl
length-big_endian (suc n) x = ap suc (length-big_endian n x)

low_byte : (x : ℕ) → bit_and x 0xFF ≡ x % 256
low_byte x = bit_and_ones 8 x 0xFF refl

value-eight : (x : ℕ) → x < 2 ^ 64 → value 0 (big_endian 8 x) ≡ x
unfolding value big_endian
value-eight x h = omega (
  arith,
  low_byte (x / 2 ^ 56),
  low_byte (x / 2 ^ 48),
  low_byte (x / 2 ^ 40),
  low_byte (x / 2 ^ 32),
  low_byte (x / 2 ^ 24),
  low_byte (x / 2 ^ 16),
  low_byte (x / 2 ^ 8),
  low_byte (x / 2 ^ 0),
)

length_loop_lem : (n x : ℕ) (l : List ℕ) → length_loop n x l ≡ l ++ big_endian n x
unfolding length_loop big_endian
length_loop_lem zero x l = sym (append-nil l)
length_loop_lem (suc n) x l =
    length_loop_lem n x (l ++ bit_and (x / 2 ^ (n * 8)) 0xFF ∷ [])
    ∙ append_assoc l (bit_and (x / 2 ^ (n * 8)) 0xFF ∷ []) (big_endian n x)

zeros_loop_lem :
    (fuel k : ℕ) (l : List ℕ)
    → k ≤ fuel
    → k < 64
    → (length l + k) % 64 ≡ 56
    → zeros_loop fuel l ≡ l ++ replicate k 0
unfolding zeros_loop
zeros_loop_lem zero zero l h m e = sym (append-nil l)
zeros_loop_lem zero (suc k) l h m e = absurd (omega arith)
zeros_loop_lem (suc fuel) zero l h m e = ground (arith, append-nil l)
zeros_loop_lem (suc fuel) (suc k) l h m e =
    next
    ∙ (zeros_loop_lem fuel k (l ++ 0 ∷ []) (omega arith) (omega arith)
          (omega (arith, length-append l (0 ∷ [])))
        ∙ append_assoc l (0 ∷ []) (replicate k 0))
  where
    next : zeros_loop (suc fuel) l ≡ zeros_loop fuel (l ++ 0 ∷ [])
    next = ground arith

-- How many zeros a message gets.
abbrev zeros : ℕ → ℕ
zeros n = (119 - n % 64) % 64

abbrev front : List ℕ → List ℕ
front input = (input ++ 0x80 ∷ []) ++ replicate (zeros (length input)) 0

unfolded :
    (input : List ℕ)
    → preprocess input
      ≡ length_loop 8 (length input * 8 % 2 ^ 64) (zeros_loop 64 (input ++ 0x80 ∷ []))
unfolding preprocess
unfolded input = refl

-- The padded message: the message, a byte with the highest bit set, as many zeros as are missing, and
-- the number of its bits.
padded :
    (input : List ℕ) → preprocess input ≡ front input ++ big_endian 8 (length input * 8 % 2 ^ 64)
padded input =
    unfolded input
    ∙ (length_loop_lem 8 (length input * 8 % 2 ^ 64) (zeros_loop 64 (input ++ 0x80 ∷ []))
        ∙ ap (λ (l : List ℕ). l ++ big_endian 8 (length input * 8 % 2 ^ 64))
            (zeros_loop_lem 64 (zeros (length input)) (input ++ 0x80 ∷ []) (omega arith)
              (omega arith) (omega (arith, length-append input (0x80 ∷ [])))))

length-front : (input : List ℕ) → length (front input) ≡ length input + 1 + zeros (length input)
length-front input = omega (
  arith,
  length-append (input ++ 0x80 ∷ []) (replicate (zeros (length input)) 0),
  length-append input (0x80 ∷ []),
  length-replicate {A = ℕ} (zeros (length input)) 0,
)

pub length-preprocess : (input : List ℕ) → length (preprocess input) ≡ length (front input) + 8
length-preprocess input =
    ap length (padded input)
    ∙ (length-append (front input) (big_endian 8 (length input * 8 % 2 ^ 64))
        ∙ ap (λ (n : ℕ). length (front input) + n)
            (length-big_endian 8 (length input * 8 % 2 ^ 64)))

-- The padding ends within 64 rounds, and the padded message is cut into blocks of 64 bytes without a rest; it is at least 9 and at most 72 bytes longer.
pub preprocess-blocks :
    (input : List ℕ)
    → (length (preprocess input) % 64 ≡ 0)
      × ((length input + 9 ≤ length (preprocess input))
          × (length (preprocess input) ≤ length input + 72))
preprocess-blocks input = (
  omega (arith, length-preprocess input, length-front input),
  (
    omega (arith, length-preprocess input, length-front input),
    omega (arith, length-preprocess input, length-front input),
  ),
)

same_length :
    (l m : List ℕ)
    → length l < 2 ^ 61
    → length m < 2 ^ 61
    → preprocess l ≡ preprocess m
    → length l ≡ length m
same_length l m h k e =
    let q : big_endian 8 (length l * 8 % 2 ^ 64) ≡ big_endian 8 (length m * 8 % 2 ^ 64) =
      sym (ends l) ∙ (cut ∙ ends m) in
    omega (
      arith,
      value-eight (length l * 8 % 2 ^ 64) (omega arith),
      value-eight (length m * 8 % 2 ^ 64) (omega arith),
      ap (value 0) q,
    )
  where
    ends :
        (i : List ℕ) → drop (length (front i)) (preprocess i) ≡ big_endian 8 (length i * 8 % 2 ^ 64)
    ends i =
        ap (drop (length (front i))) (padded i)
        ∙ drop-append (front i) (big_endian 8 (length i * 8 % 2 ^ 64))

    cut : drop (length (front l)) (preprocess l) ≡ drop (length (front m)) (preprocess m)
    cut =
        let n : length (front l) ≡ length (front m) =
          omega (arith, length-preprocess l, length-preprocess m, ap length e) in
        ap (λ (j : ℕ). drop j (preprocess l)) n ∙ ap (drop (length (front m))) e

-- Two messages below 2 ^ 61 bytes that are padded to the same bytes are the same.
pub preprocess-injective :
    (l m : List ℕ) → length l < 2 ^ 61 → length m < 2 ^ 61 → preprocess l ≡ preprocess m → l ≡ m
preprocess-injective l m h k e =
    sym (begins l)
    ∙ (ap (λ (j : ℕ). take j (preprocess l)) (same_length l m h k e)
        ∙ (ap (take (length m)) e ∙ begins m))
  where
    begins : (i : List ℕ) → take (length i) (preprocess i) ≡ i
    begins i =
        ap (take (length i)) (
          padded i
          ∙ (append_assoc (i ++ 0x80 ∷ []) (replicate (zeros (length i)) 0)
                (big_endian 8 (length i * 8 % 2 ^ 64))
              ∙ append_assoc i (0x80 ∷ [])
                  (replicate (zeros (length i)) 0 ++ big_endian 8 (length i * 8 % 2 ^ 64))))
        ∙ take-append i
            (0x80 ∷ (replicate (zeros (length i)) 0 ++ big_endian 8 (length i * 8 % 2 ^ 64)))
