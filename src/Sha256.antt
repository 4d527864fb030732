-- ===== src/Sha256.antt =====
-- core/utils/sha256.cc: SHA-256. A `uint32_t` is a number below 2 ^ 32, and its sums wrap around.
pub mod Padding
pub mod Blocks
pub mod Schedule
pub mod Digest
mod Tests
use proxy_server_sa.Base.{
  ℕ, zero, suc, ◌+◌, ◌-◌, ◌*◌, ◌/◌, ◌%◌, ◌^◌, bit_and, bit_or, bit_xor, Bool, List, [], ◌∷◌, ◌++◌,
  if◌then◌else◌, ltb, ◌==◌, length, get_or,
}

abbrev pub k_sha256_init_state : List ℕ
k_sha256_init_state =
    0x6A09E667 ∷ 0xBB67AE85 ∷ 0x3C6EF372 ∷ 0xA54FF53A ∷ 0x510E527F ∷ 0x9B05688C ∷ 0x1F83D9AB
    ∷ 0x5BE0CD19 ∷ []

abbrev pub k_sha256_k : List ℕ
k_sha256_k =
    0x428A2F98 ∷ 0x71374491 ∷ 0xB5C0FBCF ∷ 0xE9B5DBA5 ∷ 0x3956C25B ∷ 0x59F111F1 ∷ 0x923F82A4
    ∷ 0xAB1C5ED5 ∷ 0xD807AA98 ∷ 0x12835B01 ∷ 0x243185BE ∷ 0x550C7DC3 ∷ 0x72BE5D74 ∷ 0x80DEB1FE
    ∷ 0x9BDC06A7 ∷ 0xC19BF174 ∷ 0xE49B69C1 ∷ 0xEFBE4786 ∷ 0x0FC19DC6 ∷ 0x240CA1CC ∷ 0x2DE92C6F
    ∷ 0x4A7484AA ∷ 0x5CB0A9DC ∷ 0x76F988DA ∷ 0x983E5152 ∷ 0xA831C66D ∷ 0xB00327C8 ∷ 0xBF597FC7
    ∷ 0xC6E00BF3 ∷ 0xD5A79147 ∷ 0x06CA6351 ∷ 0x14292967 ∷ 0x27B70A85 ∷ 0x2E1B2138 ∷ 0x4D2C6DFC
    ∷ 0x53380D13 ∷ 0x650A7354 ∷ 0x766A0ABB ∷ 0x81C2C92E ∷ 0x92722C85 ∷ 0xA2BFE8A1 ∷ 0xA81A664B
    ∷ 0xC24B8B70 ∷ 0xC76C51A3 ∷ 0xD192E819 ∷ 0xD6990624 ∷ 0xF40E3585 ∷ 0x106AA070 ∷ 0x19A4C116
    ∷ 0x1E376C08 ∷ 0x2748774C ∷ 0x34B0BCB5 ∷ 0x391C0CB3 ∷ 0x4ED8AA4A ∷ 0x5B9CCA4F ∷ 0x682E6FF3
    ∷ 0x748F82EE ∷ 0x78A5636F ∷ 0x84C87814 ∷ 0x8CC70208 ∷ 0x90BEFFFA ∷ 0xA4506CEB ∷ 0xBEF9A3F7
    ∷ 0xC67178F2 ∷ []

-- The first loop of the padding. It ends within 64 rounds.
unfoldable pub zeros_loop : ℕ → List ℕ → List ℕ
zeros_loop zero bytes = bytes
zeros_loop (suc fuel) bytes =
    let rest = zeros_loop fuel (bytes ++ 0x00 ∷ []) in
    if length bytes % 64 == 56 then bytes else rest

-- The second: the bytes of `bit_len`, the highest first. Where `n` is left, `i` is `n - 1`.
unfoldable pub length_loop : ℕ → ℕ → List ℕ → List ℕ
length_loop zero bit_len bytes = bytes
length_loop (suc i) bit_len bytes =
    length_loop i bit_len (bytes ++ bit_and (bit_len / 2 ^ (i * 8)) 0xFF ∷ [])

-- Step 1.
unfoldable pub preprocess : List ℕ → List ℕ
unfolding zeros_loop length_loop
preprocess input = length_loop 8 (length input * 8 % 2 ^ 64) (zeros_loop 64 (input ++ 0x80 ∷ []))

-- `std::rotr`, `~` and `+` of words.
unfoldable pub rotr : ℕ → ℕ → ℕ
rotr x k = bit_or (x / 2 ^ k) (x * 2 ^ (32 - k) % 2 ^ 32)

unfoldable pub complement : ℕ → ℕ
complement x = bit_xor x 0xFFFFFFFF

infixl 60 ◌⊞◌
unfoldable pub ◌⊞◌ : ℕ → ℕ → ℕ
x ⊞ y = (x + y) % 2 ^ 32

-- A word of the message, the highest byte first.
unfoldable pub chunk_word : List ℕ → ℕ → ℕ
chunk_word bytes j =
    bit_or
      (bit_or (bit_or (get_or bytes j 0 * 2 ^ 24 % 2 ^ 32) (get_or bytes (j + 1) 0 * 2 ^ 16))
        (get_or bytes (j + 2) 0 * 2 ^ 8))
      (get_or bytes (j + 3) 0)

-- `w` as far as it is filled: the words from the message, then the ones computed from them.
unfoldable pub load_loop : ℕ → ℕ → List ℕ → ℕ → List ℕ → List ℕ
unfolding chunk_word
load_loop zero i bytes chunk w = w
load_loop (suc n) i bytes chunk w =
    load_loop n (suc i) bytes chunk (w ++ chunk_word bytes (chunk + i * 4) ∷ [])

unfoldable pub small_s0 : ℕ → ℕ
unfolding rotr
small_s0 x = bit_xor (bit_xor (rotr x 7) (rotr x 18)) (x / 2 ^ 3)

unfoldable pub small_s1 : ℕ → ℕ
unfolding rotr
small_s1 x = bit_xor (bit_xor (rotr x 17) (rotr x 19)) (x / 2 ^ 10)

unfoldable pub extend_loop : ℕ → ℕ → List ℕ → List ℕ
unfolding small_s0 small_s1 ◌⊞◌
extend_loop zero i w = w
extend_loop (suc n) i w =
    let s0 = small_s0 (get_or w (i - 15) 0) in
    let s1 = small_s1 (get_or w (i - 2) 0) in
    extend_loop n (suc i) (w ++ (get_or w (i - 16) 0 ⊞ s0 ⊞ get_or w (i - 7) 0 ⊞ s1) ∷ [])

-- The eight variables of the compression, and `h`.
pub record Working : Type 0 where
  pub a : ℕ
  pub b : ℕ
  pub c : ℕ
  pub d : ℕ
  pub e : ℕ
  pub f : ℕ
  pub g : ℕ
  pub t : ℕ

unfoldable pub round : ℕ → ℕ → Working → Working
unfolding rotr complement ◌⊞◌
round k w s =
    let big_s1 = bit_xor (bit_xor (rotr s.e 6) (rotr s.e 11)) (rotr s.e 25) in
    let ch = bit_xor (bit_and s.e s.f) (bit_and (complement s.e) s.g) in
    let temp1 = s.t ⊞ big_s1 ⊞ ch ⊞ k ⊞ w in
    let big_s0 = bit_xor (bit_xor (rotr s.a 2) (rotr s.a 13)) (rotr s.a 22) in
    let maj = bit_xor (bit_xor (bit_and s.a s.b) (bit_and s.a s.c)) (bit_and s.b s.c) in
    let temp2 = big_s0 ⊞ maj in
    record {
      a = temp1 ⊞ temp2;
      b = s.a;
      c = s.b;
      d = s.c;
      e = s.d ⊞ temp1;
      f = s.e;
      g = s.f;
      t = s.g;
    }

unfoldable pub round_loop : ℕ → ℕ → List ℕ → Working → Working
unfolding round
round_loop zero i w s = s
round_loop (suc n) i w s = round_loop n (suc i) w (round (get_or k_sha256_k i 0) (get_or w i 0) s)

unfoldable pub add_working : Working → Working → Working
unfolding ◌⊞◌
add_working h s = record {
  a = h.a ⊞ s.a;
  b = h.b ⊞ s.b;
  c = h.c ⊞ s.c;
  d = h.d ⊞ s.d;
  e = h.e ⊞ s.e;
  f = h.f ⊞ s.f;
  g = h.g ⊞ s.g;
  t = h.t ⊞ s.t;
}

unfoldable pub schedule : List ℕ → ℕ → List ℕ
unfolding load_loop extend_loop
schedule bytes chunk = extend_loop 48 16 (load_loop 16 0 bytes chunk [])

-- Step 3. Each round takes 64 bytes, so that the number of bytes is fuel enough.
unfoldable pub chunk_loop : ℕ → List ℕ → ℕ → Working → Working
unfolding schedule round_loop add_working
chunk_loop zero bytes chunk h = h
chunk_loop (suc fuel) bytes chunk h =
    let rest =
      chunk_loop fuel bytes (chunk + 64)
        (add_working h (round_loop 64 0 (schedule bytes chunk) h)) in
    if ltb chunk (length bytes) then rest else h

-- Step 2.
unfoldable pub init_state : Working
init_state = record {
  a = get_or k_sha256_init_state 0 0;
  b = get_or k_sha256_init_state 1 0;
  c = get_or k_sha256_init_state 2 0;
  d = get_or k_sha256_init_state 3 0;
  e = get_or k_sha256_init_state 4 0;
  f = get_or k_sha256_init_state 5 0;
  g = get_or k_sha256_init_state 6 0;
  t = get_or k_sha256_init_state 7 0;
}

-- Step 4. A word has no more than eight hexadecimal digits, and is filled up to eight.
unfoldable pub hex_digit_lower : ℕ → ℕ
hex_digit_lower n = if ltb n 10 then b'0' + n else 87 + n

unfoldable pub hex_word : ℕ → ℕ → List ℕ
unfolding hex_digit_lower
hex_word zero x = []
hex_word (suc n) x = hex_word n (x / 16) ++ hex_digit_lower (x % 16) ∷ []

unfoldable pub hex_state : Working → List ℕ
unfolding hex_word
hex_state h =
    hex_word 8 h.a
    ++ hex_word 8 h.b
    ++ hex_word 8 h.c
    ++ hex_word 8 h.d
    ++ hex_word 8 h.e
    ++ hex_word 8 h.f
    ++ hex_word 8 h.g
    ++ hex_word 8 h.t

-- `Sha256::Compute`
unfoldable pub compute : List ℕ → List ℕ
unfolding preprocess chunk_loop init_state hex_state
compute input =
    let bytes = preprocess input in hex_state (chunk_loop (length bytes) bytes 0 init_state)
