-- ===== src/Encoding.antt =====
-- core/utils/encoding.cc: Base64. `val` is an `int`, kept as a word of 32 bits, so that `<<` drops the
-- bits that leave it. `valb` is counted from its first value on: `bits` is `valb + 6` in `Encode` and
-- `valb + 8` in `Decode`.
pub mod Words
pub mod Standard
pub mod Decoding
mod Tests
use proxy_server_sa.Base.{
  ℕ, zero, suc, ◌+◌, ◌-◌, ◌*◌, ◌/◌, ◌%◌, ◌^◌, bit_and, Bool, Option, none, some, List, [], ◌∷◌,
  ◌++◌, if◌then◌else◌, ltb, leb, ◌==◌, length, get_or, replicate,
}
use proxy_server_sa.Base.Text.{codes}

-- `kBase64Chars`, and a character of it.
abbrev pub k_base64_chars : List ℕ
k_base64_chars = codes "ABCDEFGHIJKLMNOPQRSTUVWXYZabcdefghijklmnopqrstuvwxyz0123456789+/"

unfoldable pub base64_char : ℕ → ℕ
base64_char i = get_or k_base64_chars i 0

-- `<<`, and `>>`, which copies the sign.
unfoldable pub shift_left : ℕ → ℕ → ℕ
shift_left v k = v * 2 ^ k % 2 ^ 32

unfoldable pub shift_right : ℕ → ℕ → ℕ
shift_right v k = if ltb v (2 ^ 31) then v / 2 ^ k else v / 2 ^ k + (2 ^ 32 - 2 ^ (32 - k))

-- The inner loop of `Encode`. Each round takes six off `bits`, so that `bits` is fuel enough.
unfoldable pub sextet_loop : ℕ → ℕ → ℕ → List ℕ → ℕ × List ℕ
unfolding base64_char shift_right
sextet_loop zero val bits output = (bits, output)
sextet_loop (suc fuel) val bits output =
    let rest =
      sextet_loop fuel val (bits - 6)
        (output ++ base64_char (bit_and (shift_right val (bits - 6)) 0x3F) ∷ []) in
    if leb 6 bits then rest else (bits, output)

unfoldable pub encode_loop : List ℕ → ℕ → ℕ → List ℕ → ℕ × (ℕ × List ℕ)
unfolding shift_left sextet_loop
encode_loop [] val bits output = (val, (bits, output))
encode_loop (c ∷ cs) val bits output =
    let val1 = (shift_left val 8 + c) % 2 ^ 32 in
    let r = sextet_loop (bits + 8) val1 (bits + 8) output in encode_loop cs val1 r.0 r.1

unfoldable pub last_sextet : ℕ × (ℕ × List ℕ) → List ℕ
unfolding base64_char shift_left shift_right
last_sextet (val, (bits, output)) =
    if ltb 0 bits
    then output ++ base64_char (bit_and (shift_right (shift_left val 8) (bits + 2)) 0x3F) ∷ []
    else output

-- The last loop of `Encode`, which ends within three rounds.
unfoldable pub pad_loop : ℕ → List ℕ → List ℕ
pad_loop zero output = output
pad_loop (suc fuel) output =
    let rest = pad_loop fuel (output ++ b'=' ∷ []) in
    if length output % 4 == 0 then output else rest

-- `Encode`
unfoldable pub encode : List ℕ → List ℕ
unfolding encode_loop last_sextet pad_loop
encode input = pad_loop 4 (last_sextet (encode_loop input 0 0 []))

-- `table` of `Decode`, where `none` stands for -1.
unfoldable pub assign_at : ℕ → Option ℕ → List (Option ℕ) → List (Option ℕ)
assign_at i x [] = []
assign_at zero x (y ∷ l) = x ∷ l
assign_at (suc i) x (y ∷ l) = y ∷ assign_at i x l

unfoldable pub table_loop : ℕ → ℕ → List (Option ℕ) → List (Option ℕ)
unfolding assign_at base64_char
table_loop zero i table = table
table_loop (suc n) i table = table_loop n (suc i) (assign_at (base64_char i) (some i) table)

unfoldable pub table : List (Option ℕ)
unfolding table_loop
table = table_loop 64 0 (replicate 256 none)

unfoldable pub decode_loop : List ℕ → ℕ → ℕ → List ℕ → List ℕ
unfolding table shift_left shift_right
decode_loop [] val bits output = output
decode_loop (c ∷ cs) val bits output = elim (get_or table c none) [
  | none ↦ output
  | some d ↦
      let val1 = (shift_left val 6 + d) % 2 ^ 32 in
      let whole = leb 8 (bits + 6) in
      decode_loop cs val1 (if whole then bits + 6 - 8 else bits + 6)
        (if whole then output ++ bit_and (shift_right val1 (bits + 6 - 8)) 0xFF ∷ [] else output)
]

-- `Decode`
unfoldable pub decode : List ℕ → List ℕ
unfolding decode_loop
decode input = decode_loop input 0 0 []
