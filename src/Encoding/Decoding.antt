-- ===== src/Encoding/Decoding.antt =====
-- `Decode` undoes Base64.
use proxy_server_sa.Base.{
  ℕ, zero, suc, ◌+◌, ◌*◌, ◌/◌, ◌%◌, ◌^◌, ◌<◌, ◌≡◌, refl, ap, ◌∙◌, sym, bit_and, List, [], ◌∷◌, ◌++◌,
  append_assoc, append-nil, arith, All, Option, none, some, get_or, ◌==◌, Bool, true, false, ◌&&◌,
}
use proxy_server_sa.Encoding.{
  base64_char, shift_left, shift_right, table, decode_loop, decode, encode,
}
use proxy_server_sa.Encoding.Words.{byte_0, byte_2, byte_4}
use proxy_server_sa.Encoding.Standard.{base64, encode-base64}
use proxy_server_sa.StringUtils.Hex.{IsByte}

is_entry : ℕ → Option ℕ → Bool
is_entry i none = false
is_entry i (some j) = i == j

all_read : (ℕ → Option ℕ) → ℕ → Bool
unfolding is_entry
all_read f zero = true
all_read f (suc n) = is_entry n (f n) && all_read f n

entry_lem : (i : ℕ) (o : Option ℕ) → is_entry i o ≡ true → o ≡ some i
unfolding is_entry
entry_lem i none h = ground arith
entry_lem i (some j) h = ground arith

all_read_lem : (f : ℕ → Option ℕ) (n i : ℕ) → all_read f n ≡ true → i < n → f i ≡ some i
unfolding all_read
all_read_lem f zero i h k = absurd (omega arith)
all_read_lem f (suc n) i h k = ground (arith, entry_lem i (f i), all_read_lem f n i)

-- The table has each of the 64 characters at its place.
table_read : (i : ℕ) → i < 64 → get_or table (base64_char i) none ≡ some i
unfolding all_read is_entry table base64_char
table_read i h = all_read_lem (λ j. get_or table (base64_char j) none) 64 i refl h

abbrev next : ℕ → ℕ → ℕ
unfolding shift_left
next v d = (shift_left v 6 + d) % 2 ^ 32

-- One character of the 64, by how many bits wait in `val`.
module _ (d : ℕ) (h : d < 64) (cs : List ℕ) (v : ℕ) (out : List ℕ) where
  none_waiting : decode_loop (base64_char d ∷ cs) v 0 out ≡ decode_loop cs (next v d) 6 out
  unfolding decode_loop next
  none_waiting = rw (table_read d h, decode_loop) refl

  six_waiting :
      decode_loop (base64_char d ∷ cs) v 6 out
      ≡ decode_loop cs (next v d) 4 (out ++ bit_and (shift_right (next v d) 4) 0xFF ∷ [])
  unfolding decode_loop next
  six_waiting = rw (table_read d h, decode_loop) refl

  four_waiting :
      decode_loop (base64_char d ∷ cs) v 4 out
      ≡ decode_loop cs (next v d) 2 (out ++ bit_and (shift_right (next v d) 2) 0xFF ∷ [])
  unfolding decode_loop next
  four_waiting = rw (table_read d h, decode_loop) refl

  two_waiting :
      decode_loop (base64_char d ∷ cs) v 2 out
      ≡ decode_loop cs (next v d) 0 (out ++ bit_and (shift_right (next v d) 0) 0xFF ∷ [])
  unfolding decode_loop next
  two_waiting = rw (table_read d h, decode_loop) refl

ends : (cs : List ℕ) (v bits : ℕ) (out : List ℕ) → decode_loop (b'=' ∷ cs) v bits out ≡ out
unfolding decode_loop table
ends cs v bits out = refl

first :
    (v x y : ℕ)
    → x < 64
    → y < 64
    → bit_and (shift_right (next (next v x) y) 4) 0xFF ≡ x * 4 + y / 16
unfolding next shift_left
first v x y h k = byte_4 (next (next v x) y) ∙ omega arith

second :
    (v y z : ℕ)
    → y < 64
    → z < 64
    → bit_and (shift_right (next (next v y) z) 2) 0xFF ≡ y % 16 * 16 + z / 4
unfolding next shift_left
second v y z h k = byte_2 (next (next v y) z) ∙ omega arith

third :
    (v z w : ℕ)
    → z < 64
    → w < 64
    → bit_and (shift_right (next (next v z) w) 0) 0xFF ≡ z % 4 * 64 + w
unfolding next shift_left
third v z w h k = byte_0 (next (next v z) w) ∙ omega arith

-- Two, three and four characters in a row.
module _ (x y : ℕ) (hx : x < 64) (hy : y < 64) (v : ℕ) (out cs : List ℕ) where
  two_read :
      decode_loop (base64_char x ∷ base64_char y ∷ cs) v 0 out
      ≡ decode_loop cs (next (next v x) y) 4 (out ++ (x * 4 + y / 16) ∷ [])
  two_read =
      none_waiting x hx (base64_char y ∷ cs) v out
      ∙ (six_waiting y hy cs (next v x) out
          ∙ ap (λ (b : ℕ). decode_loop cs (next (next v x) y) 4 (out ++ b ∷ []))
              (first v x y hx hy))

module _ (x y z : ℕ) (hx : x < 64) (hy : y < 64) (hz : z < 64) (v : ℕ) (out cs : List ℕ) where
  three_read :
      decode_loop (base64_char x ∷ base64_char y ∷ base64_char z ∷ cs) v 0 out
      ≡ decode_loop cs
          (next (next (next v x) y) z)
          2
          ((out ++ (x * 4 + y / 16) ∷ []) ++ (y % 16 * 16 + z / 4) ∷ [])
  three_read =
      two_read x y hx hy v out (base64_char z ∷ cs)
      ∙ (four_waiting z hz cs (next (next v x) y) (out ++ (x * 4 + y / 16) ∷ [])
          ∙ ap
              (λ (b : ℕ).
                decode_loop cs (next (next (next v x) y) z) 2
                  ((out ++ (x * 4 + y / 16) ∷ []) ++ b ∷ []))
              (second (next v x) y z hy hz))

three_pushed :
    (out l : List ℕ) (x y z : ℕ)
    → (((out ++ x ∷ []) ++ y ∷ []) ++ z ∷ []) ++ l ≡ out ++ x ∷ y ∷ z ∷ l
three_pushed [] l x y z = refl
three_pushed (a ∷ out) l x y z = ap (◌∷◌ a) (three_pushed out l x y z)

decode_lem :
    (l : List ℕ) (v : ℕ) (out : List ℕ) → All IsByte l → decode_loop (base64 l) v 0 out ≡ out ++ l
unfolding decode_loop base64
decode_lem [] v out h = sym (append-nil out)
decode_lem (a ∷ []) v out h =
    two_read (a / 4) (a % 4 * 16) (omega arith) (omega arith) v out (b'=' ∷ b'=' ∷ [])
    ∙ (ends (b'=' ∷ []) (next (next v (a / 4)) (a % 4 * 16)) 4
          (out ++ (a / 4 * 4 + a % 4 * 16 / 16) ∷ [])
        ∙ ap (λ (b : ℕ). out ++ b ∷ []) (omega arith))
decode_lem (a ∷ b ∷ []) v out h =
    three_read x y z (omega arith) (omega arith) (omega arith) v out (b'=' ∷ [])
    ∙ (ends [] (next (next (next v x) y) z) 2
          ((out ++ (x * 4 + y / 16) ∷ []) ++ (y % 16 * 16 + z / 4) ∷ [])
        ∙ (ap (λ (p : ℕ × ℕ). (out ++ p.0 ∷ []) ++ p.1 ∷ []) both
            ∙ append_assoc out (a ∷ []) (b ∷ [])))
  where
    x : ℕ
    x = a / 4

    y : ℕ
    y = a % 4 * 16 + b / 16

    z : ℕ
    z = b % 16 * 4

    both : ◌≡◌ {A = ℕ × ℕ} (x * 4 + y / 16, y % 16 * 16 + z / 4) (a, b)
    both =
        let p : x * 4 + y / 16 ≡ a = omega arith in
        let q : y % 16 * 16 + z / 4 ≡ b = omega arith in cc (p, q)
decode_lem (a ∷ b ∷ c ∷ l) v out h =
    three_read x y z (omega arith) (omega arith) (omega arith) v out (base64_char w ∷ base64 l)
    ∙ (two_waiting w (omega arith) (base64 l) (next (next (next v x) y) z)
          ((out ++ (x * 4 + y / 16) ∷ []) ++ (y % 16 * 16 + z / 4) ∷ [])
        ∙ (ap
              (λ (p : ℕ × (ℕ × ℕ)).
                decode_loop (base64 l) v4 0 (((out ++ p.0 ∷ []) ++ p.1.0 ∷ []) ++ p.1.1 ∷ []))
              every
            ∙ (decode_lem l v4 (((out ++ a ∷ []) ++ b ∷ []) ++ c ∷ []) h.1.1.1
                ∙ three_pushed out l a b c)))
  where
    x : ℕ
    x = a / 4

    y : ℕ
    y = a % 4 * 16 + b / 16

    z : ℕ
    z = b % 16 * 4 + c / 64

    w : ℕ
    w = c % 64

    v4 : ℕ
    v4 = next (next (next (next v x) y) z) w

    every :
        ◌≡◌ {A = ℕ × (ℕ × ℕ)}
          (x * 4 + y / 16, (y % 16 * 16 + z / 4, bit_and (shift_right v4 0) 0xFF))
          (a, (b, c))
    every =
        let p : x * 4 + y / 16 ≡ a = omega arith in
        let q : y % 16 * 16 + z / 4 ≡ b = omega arith in
        let r : bit_and (shift_right v4 0) 0xFF ≡ c =
          third (next (next v x) y) z w (omega arith) (omega arith) ∙ omega arith in
        cc (p, q, r)

-- `Decode` gives back the bytes that `Encode` was given.
pub decode-encode : (input : List ℕ) → All IsByte input → decode (encode input) ≡ input
unfolding decode
decode-encode input h = ap decode (encode-base64 input h) ∙ decode_lem input 0 [] h
