-- ===== src/Encoding/Standard.antt =====
-- `Encode` against the description of Base64: three bytes are four digits to the base 64, and what is
-- left over at the end is filled up.
use proxy_server_sa.Base.{
  ℕ, suc, ◌+◌, ◌*◌, ◌/◌, ◌%◌, ◌^◌, ◌≡◌, refl, ap, ◌∙◌, sym, bit_and, List, [], ◌∷◌, ◌++◌,
  append_assoc, append-nil, arith, All, length, length-append,
}
use proxy_server_sa.Encoding.{
  base64_char, shift_left, shift_right, sextet_loop, encode_loop, last_sextet, pad_loop, encode,
}
use proxy_server_sa.Encoding.Words.{sextet_0, sextet_2, sextet_4, sextet_6}
use proxy_server_sa.StringUtils.Hex.{IsByte}

unfoldable pub base64 : List ℕ → List ℕ
unfolding base64_char
base64 [] = []
base64 (a ∷ []) = base64_char (a / 4) ∷ base64_char (a % 4 * 16) ∷ b'=' ∷ b'=' ∷ []
base64 (a ∷ b ∷ []) =
    base64_char (a / 4) ∷ base64_char (a % 4 * 16 + b / 16) ∷ base64_char (b % 16 * 4) ∷ b'=' ∷ []
base64 (a ∷ b ∷ c ∷ l) =
    base64_char (a / 4)
    ∷ base64_char (a % 4 * 16 + b / 16)
    ∷ base64_char (b % 16 * 4 + c / 64)
    ∷ base64_char (c % 64)
    ∷ base64 l

-- `val` after one more byte.
abbrev next : ℕ → ℕ → ℕ
unfolding shift_left
next v c = (shift_left v 8 + c) % 2 ^ 32

one : (v a : ℕ) → IsByte a → bit_and (shift_right (next v a) 2) 0x3F ≡ a / 4
unfolding shift_left next
one v a h = sextet_2 (next v a) ∙ omega arith

two :
    (v a b : ℕ)
    → IsByte a
    → IsByte b
    → bit_and (shift_right (next (next v a) b) 4) 0x3F ≡ a % 4 * 16 + b / 16
unfolding shift_left next
two v a b h k = sextet_4 (next (next v a) b) ∙ omega arith

three :
    (v b c : ℕ)
    → IsByte b
    → IsByte c
    → bit_and (shift_right (next (next v b) c) 6) 0x3F ≡ b % 16 * 4 + c / 64
unfolding shift_left next
three v b c h k = sextet_6 (next (next v b) c) ∙ omega arith

four : (v c : ℕ) → IsByte c → bit_and (shift_right (next v c) 0) 0x3F ≡ c % 64
unfolding shift_left next
four v c h = sextet_0 (next v c) ∙ omega arith

last_of_one :
    (v a : ℕ) → IsByte a → bit_and (shift_right (shift_left (next v a) 8) 4) 0x3F ≡ a % 4 * 16
unfolding shift_left next
last_of_one v a h = sextet_4 (shift_left (next v a) 8) ∙ omega arith

last_of_two :
    (v b : ℕ) → IsByte b → bit_and (shift_right (shift_left (next v b) 8) 6) 0x3F ≡ b % 16 * 4
unfolding shift_left next
last_of_two v b h = sextet_6 (shift_left (next v b) 8) ∙ omega arith

pad_done : (n : ℕ) (out : List ℕ) → length out % 4 ≡ 0 → pad_loop (suc n) out ≡ out
unfolding pad_loop
pad_done n out h = rw h refl

pad_next :
    (n r : ℕ) (out : List ℕ)
    → length out % 4 ≡ suc r
    → pad_loop (suc n) out ≡ pad_loop n (out ++ b'=' ∷ [])
unfolding pad_loop
pad_next n r out h = ground arith

pad_one : (out : List ℕ) → length out % 4 ≡ 3 → pad_loop 4 out ≡ out ++ b'=' ∷ []
pad_one out h =
    pad_next 3 2 out h
    ∙ pad_done 2 (out ++ b'=' ∷ []) (omega (arith, length-append out (b'=' ∷ [])))

pad_two : (out : List ℕ) → length out % 4 ≡ 2 → pad_loop 4 out ≡ out ++ b'=' ∷ b'=' ∷ []
pad_two out h =
    pad_next 3 1 out h
    ∙ (pad_next 2 2 (out ++ b'=' ∷ []) (omega (arith, length-append out (b'=' ∷ [])))
        ∙ (pad_done 1 ((out ++ b'=' ∷ []) ++ b'=' ∷ []) (
              omega (
                arith,
                length-append out (b'=' ∷ []),
                length-append (out ++ b'=' ∷ []) (b'=' ∷ []),
              ))
            ∙ append_assoc out (b'=' ∷ []) (b'=' ∷ [])))

-- The characters of one round, one behind the other.
joined : (out l : List ℕ) (x y : ℕ) → (out ++ x ∷ []) ++ y ∷ l ≡ out ++ x ∷ y ∷ l
joined out l x y = append_assoc out (x ∷ []) (y ∷ l)

one_left :
    (a v : ℕ) (out : List ℕ)
    → IsByte a
    → last_sextet (encode_loop (a ∷ []) v 0 out)
      ≡ out ++ base64_char (a / 4) ∷ base64_char (a % 4 * 16) ∷ []
unfolding encode_loop last_sextet sextet_loop next
one_left a v out h =
    rw (one v a h, last_of_one v a h)
      (joined out [] (base64_char (a / 4)) (base64_char (a % 4 * 16)))

two_left :
    (a b v : ℕ) (out : List ℕ)
    → IsByte a
    → IsByte b
    → last_sextet (encode_loop (a ∷ b ∷ []) v 0 out)
      ≡ (out ++ base64_char (a / 4) ∷ base64_char (a % 4 * 16 + b / 16) ∷ [])
        ++ base64_char (b % 16 * 4) ∷ []
unfolding encode_loop last_sextet sextet_loop next
two_left a b v out h k =
    rw (one v a h, two v a b h k, last_of_two (next v a) b k)
      (ap (λ (l : List ℕ). l ++ base64_char (b % 16 * 4) ∷ [])
        (joined out [] (base64_char (a / 4)) (base64_char (a % 4 * 16 + b / 16))))

-- Four characters, pushed one by one.
four_pushed :
    (out : List ℕ) (x y z w : ℕ)
    → (((out ++ x ∷ []) ++ y ∷ []) ++ z ∷ []) ++ w ∷ [] ≡ out ++ x ∷ y ∷ z ∷ w ∷ []
four_pushed [] x y z w = refl
four_pushed (a ∷ out) x y z w = ap (◌∷◌ a) (four_pushed out x y z w)

whole_round :
    (a b c v : ℕ) (out l : List ℕ)
    → IsByte a
    → IsByte b
    → IsByte c
    → encode_loop (a ∷ b ∷ c ∷ l) v 0 out
      ≡ encode_loop l (next (next (next v a) b) c) 0 (
          out
          ++ base64_char (a / 4)
            ∷ base64_char (a % 4 * 16 + b / 16)
            ∷ base64_char (b % 16 * 4 + c / 64)
            ∷ base64_char (c % 64)
            ∷ [])
unfolding encode_loop sextet_loop next
whole_round a b c v out l h k m =
    rw (one v a h, two v a b h k, three (next v a) b c k m, four (next (next v a) b) c m)
      (ap (encode_loop l (next (next (next v a) b) c) 0) (
        four_pushed out (base64_char (a / 4)) (base64_char (a % 4 * 16 + b / 16))
          (base64_char (b % 16 * 4 + c / 64)) (base64_char (c % 64))))

-- The three ways in which a message ends, and the round in front of it.
encode_lem :
    (l : List ℕ) (v : ℕ) (out : List ℕ)
    → All IsByte l
    → length out % 4 ≡ 0
    → pad_loop 4 (last_sextet (encode_loop l v 0 out)) ≡ out ++ base64 l
unfolding encode_loop last_sextet base64
encode_lem [] v out h n = pad_done 3 out n ∙ sym (append-nil out)
encode_lem (a ∷ []) v out h n =
    ap (pad_loop 4) (one_left a v out h.0)
    ∙ (pad_two (out ++ x ∷ y ∷ []) (omega (arith, length-append out (x ∷ y ∷ [])))
        ∙ append_assoc out (x ∷ y ∷ []) (b'=' ∷ b'=' ∷ []))
  where
    x : ℕ
    x = base64_char (a / 4)

    y : ℕ
    y = base64_char (a % 4 * 16)
encode_lem (a ∷ b ∷ []) v out h n =
    ap (pad_loop 4) (two_left a b v out h.0 h.1.0 ∙ append_assoc out (x ∷ y ∷ []) (z ∷ []))
    ∙ (pad_one (out ++ x ∷ y ∷ z ∷ []) (omega (arith, length-append out (x ∷ y ∷ z ∷ [])))
        ∙ append_assoc out (x ∷ y ∷ z ∷ []) (b'=' ∷ []))
  where
    x : ℕ
    x = base64_char (a / 4)

    y : ℕ
    y = base64_char (a % 4 * 16 + b / 16)

    z : ℕ
    z = base64_char (b % 16 * 4)
encode_lem (a ∷ b ∷ c ∷ l) v out h n =
    ap (λ s. pad_loop 4 (last_sextet s)) (whole_round a b c v out l h.0 h.1.0 h.1.1.0)
    ∙ (encode_lem l (next (next (next v a) b) c) (out ++ quad) h.1.1.1
          (omega (arith, length-append out quad))
        ∙ append_assoc out quad (base64 l))
  where
    quad : List ℕ
    quad =
        base64_char (a / 4)
        ∷ base64_char (a % 4 * 16 + b / 16)
        ∷ base64_char (b % 16 * 4 + c / 64)
        ∷ base64_char (c % 64)
        ∷ []

-- On bytes `Encode` gives Base64 as it is described: each three bytes as four characters, and one or two that are left over as two or three characters and `=` up to four.
pub encode-base64 : (input : List ℕ) → All IsByte input → encode input ≡ base64 input
unfolding encode
encode-base64 input h = encode_lem input 0 [] h refl
