-- ===== src/Base/Decimal.antt =====
-- `std::to_string` and `std::stoi` of an `int`.
use proxy_server_sa.Base.Tests.{ltb, leb, ◌==◌, if◌then◌else◌, Bool-cases}
use mathlib.Core.Logic.{inl, inr}
use Prim.Native.Nat.{ℕ, zero, suc, ◌+◌, ◌-◌, ◌*◌, ◌/◌, ◌%◌, ◌^◌, ◌≤◌, ◌<◌}
use mathlib.Core.Bool.{Bool, true, ◌&&◌, ◌||◌}
use mathlib.Core.List.{List, [], ◌∷◌}
use mathlib.Core.Option.{Option, none, some}
use mathlib.Core.Path.{◌≡◌, refl, sym, ap, ◌∙◌}
use native.Mathlib.Omega.{arith}
use proxy_server_sa.Base.Int.{ℤ, pos, negsuc}

-- The digits of a number in front of `rest`, with the number itself as fuel.
unfoldable pub digits_onto : ℕ → ℕ → List ℕ → List ℕ
digits_onto zero n rest = (b'0' + n % 10) ∷ rest
digits_onto (suc fuel) n rest =
    let more = digits_onto fuel (n / 10) ((b'0' + n % 10) ∷ rest) in
    if ltb n 10 then (b'0' + n % 10) ∷ rest else more

unfoldable pub decimal : ℕ → List ℕ
unfolding digits_onto
decimal n = digits_onto n n []

unfoldable pub to_string : ℤ → List ℕ
unfolding decimal
to_string (pos n) = decimal n
to_string (negsuc n) = b'-' ∷ decimal (suc n)

unfoldable pub is_digit : ℕ → Bool
is_digit c = leb b'0' c && leb c b'9'

unfoldable pub is_space : ℕ → Bool
is_space c = (c == 32) || (leb 9 c && leb c 13)

-- The digits at the front, taken into the value read so far.
unfoldable pub read_digits : ℕ → List ℕ → ℕ
unfolding is_digit
read_digits n [] = n
read_digits n (c ∷ cs) =
    let more = read_digits (n * 10 + (c - b'0')) cs in if is_digit c then more else n

-- A number that starts with a digit; `none` stands for `std::invalid_argument`.
unfoldable pub read_number : List ℕ → Option ℕ
unfolding read_digits is_digit
read_number [] = none
read_number (c ∷ cs) = if is_digit c then some (read_digits 0 (c ∷ cs)) else none

unfoldable pub positive_int : Option ℕ → Option ℤ
positive_int none = none
positive_int (some n) = if ltb n (2 ^ 31) then some (pos n) else none

unfoldable pub negative_int : Option ℕ → Option ℤ
negative_int none = none
negative_int (some zero) = some (pos 0)
negative_int (some (suc n)) = if ltb n (2 ^ 31) then some (negsuc n) else none

-- `std::stoi`; `none` stands for either exception.
unfoldable pub stoi : List ℕ → Option ℤ
unfolding is_space read_number positive_int negative_int
stoi [] = none
stoi (c ∷ cs) =
    let rest = stoi cs in
    if is_space c
    then rest
    else if c == b'-'
    then negative_int (read_number cs)
    else if c == b'+'
    then positive_int (read_number cs)
    else positive_int (read_number (c ∷ cs))

digit-is_digit : (n : ℕ) → is_digit (b'0' + n % 10) ≡ true
unfolding is_digit
digit-is_digit n = ground arith

read_one :
    (a n : ℕ) (rest : List ℕ)
    → read_digits a ((b'0' + n % 10) ∷ rest) ≡ read_digits (a * 10 + n % 10) rest
unfolding read_digits
read_one a n rest = rw (digit-is_digit n) (ap (λ t. read_digits t rest) (omega arith))

-- Digits that are read back give their number.
read_digits-digits_onto :
    (fuel n : ℕ) (rest : List ℕ)
    → n ≤ fuel
    → read_digits 0 (digits_onto fuel n rest) ≡ read_digits n rest
unfolding digits_onto
read_digits-digits_onto zero n rest h =
    read_one 0 n rest ∙ ap (λ t. read_digits t rest) (omega arith)
read_digits-digits_onto (suc fuel) n rest h = elim (Bool-cases (ltb n 10)) [
  | inl x ↦ rw x (read_one 0 n rest ∙ ap (λ t. read_digits t rest) (ground arith))
  | inr x ↦ rw x (
      read_digits-digits_onto fuel (n / 10) ((b'0' + n % 10) ∷ rest) (ground arith)
      ∙ read_one (n / 10) n rest
      ∙ ap (λ t. read_digits t rest) (omega arith))
]

first_digit :
    (fuel n : ℕ) (rest : List ℕ)
    → (c : ℕ) × (cs : List ℕ) × (digits_onto fuel n rest ≡ c ∷ cs) × (is_digit c ≡ true)
unfolding digits_onto
first_digit zero n rest = (b'0' + n % 10, rest, refl, digit-is_digit n)
first_digit (suc fuel) n rest = elim (Bool-cases (ltb n 10)) [
  | inl x ↦ rw x (b'0' + n % 10, rest, refl, digit-is_digit n)
  | inr x ↦ rw x (first_digit fuel (n / 10) ((b'0' + n % 10) ∷ rest))
]

starts :
    (c : ℕ) (cs : List ℕ) → is_digit c ≡ true → read_number (c ∷ cs) ≡ some (read_digits 0 (c ∷ cs))
unfolding read_number
starts c cs d = ground arith

read_number-decimal : (n : ℕ) → read_number (decimal n) ≡ some n
unfolding decimal read_digits
read_number-decimal n =
    let (c, cs, e, d) = first_digit n n [] in
    let value : read_digits 0 (digits_onto n n []) ≡ n =
      read_digits-digits_onto n n [] (omega arith) in
    ap read_number e ∙ starts c cs d ∙ ap some (ap (read_digits 0) (sym e) ∙ value)

-- What an `int` holds.
abbrev pub IsInt : ℤ → Type 0
IsInt (pos n) = n < 2 ^ 31
IsInt (negsuc n) = n < 2 ^ 31

stoi_digits : (n : ℕ) → stoi (decimal n) ≡ positive_int (read_number (decimal n))
unfolding stoi decimal is_digit is_space
stoi_digits n = let (c, cs, e, d) = first_digit n n [] in rw e (ground arith)

-- `std::stoi` reads what `std::to_string` writes.
pub stoi-to_string : (z : ℤ) → IsInt z → stoi (to_string z) ≡ some z
unfolding stoi to_string positive_int negative_int
stoi-to_string (pos n) h = stoi_digits n ∙ ap positive_int (read_number-decimal n) ∙ ground arith
stoi-to_string (negsuc n) h = ap negative_int (read_number-decimal (suc n)) ∙ ground arith
