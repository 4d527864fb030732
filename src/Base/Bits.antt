-- ===== src/Base/Bits.antt =====
-- Masks, shifts and joined fields as arithmetic. The native operations stand for `bitwise`, a
-- recursion on binary digits with fuel; only the lowest digit is needed at a time.
use Prim.Native.Nat.{
  ℕ, zero, suc, ◌+◌, ◌-◌, ◌*◌, ◌/◌, ◌%◌, ◌^◌, ◌≤◌, ◌<◌, min, max, bit_and, bit_or, digits, bitwise,
  bit_and-bitwise, bit_or-bitwise,
}
use mathlib.Core.Path.{◌≡◌, refl, ◌∙◌, ap}
use native.Mathlib.Omega.{arith}
use native.Mathlib.Nat.{
  pow-suc, one-le-pow, mul-add-mod_self_left, mod-eq_of_lt, mod-lt, div-add-mod,
}

module _ (z : ℕ → ℕ) (op : ℕ → ℕ → ℕ) where
  -- One more unit of fuel than the first number changes nothing.
  spare_fuel : (n a b : ℕ) → a ≤ n → digits z op (suc n) a b ≡ digits z op n a b
  spare_fuel zero zero b h = refl
  spare_fuel zero (suc a) b h = absurd (omega arith)
  spare_fuel (suc n) zero b h = refl
  spare_fuel (suc n) (suc a) b h =
      ap (λ (t : ℕ). t * 2 + op (suc a % 2) (b % 2))
        (spare_fuel n (suc a / 2) (b / 2) (omega arith))

  -- So any fuel from `a` on gives the same.
  excess_fuel : (d n a b : ℕ) → n ≡ d + a → digits z op n a b ≡ digits z op a a b
  excess_fuel zero n a b e = ap (λ (t : ℕ). digits z op t a b) (omega arith)
  excess_fuel (suc d) zero a b e = absurd (omega arith)
  excess_fuel (suc d) (suc n) a b e =
      spare_fuel n a b (omega arith) ∙ excess_fuel d n a b (omega arith)

  lowest_digit :
      (a b : ℕ)
      → bitwise z op (suc a) b ≡ bitwise z op (suc a / 2) (b / 2) * 2 + op (suc a % 2) (b % 2)
  lowest_digit a b =
      ap (λ (t : ℕ). t * 2 + op (suc a % 2) (b % 2))
        (excess_fuel (a - suc a / 2) a (suc a / 2) (b / 2) (omega arith))

and_digit : (a b : ℕ) → bit_and a b ≡ bit_and (a / 2) (b / 2) * 2 + min (a % 2) (b % 2)
and_digit zero b = omega (arith, bit_and-bitwise 0 b, bit_and-bitwise 0 (b / 2))
and_digit (suc a) b = omega (
  arith,
  bit_and-bitwise (suc a) b,
  bit_and-bitwise (suc a / 2) (b / 2),
  lowest_digit (λ _. 0) min a b,
)

or_digit : (a b : ℕ) → bit_or a b ≡ bit_or (a / 2) (b / 2) * 2 + max (a % 2) (b % 2)
or_digit zero b = omega (arith, bit_or-bitwise 0 b, bit_or-bitwise 0 (b / 2))
or_digit (suc a) b = omega (
  arith,
  bit_or-bitwise (suc a) b,
  bit_or-bitwise (suc a / 2) (b / 2),
  lowest_digit (λ y. y) max a b,
)

-- `a & 0` and `a | 0`, by halving.
and_zero_below : (n a : ℕ) → a ≤ n → bit_and a 0 ≡ 0
and_zero_below n zero h = refl
and_zero_below zero (suc a) h = absurd (omega arith)
and_zero_below (suc n) (suc a) h =
    omega (arith, and_digit (suc a) 0, and_zero_below n (suc a / 2) (omega arith))

or_zero_below : (n a : ℕ) → a ≤ n → bit_or a 0 ≡ a
or_zero_below n zero h = refl
or_zero_below zero (suc a) h = absurd (omega arith)
or_zero_below (suc n) (suc a) h =
    omega (arith, or_digit (suc a) 0, or_zero_below n (suc a / 2) (omega arith))

-- The remainder by `2 * p`, from that of the half and the lowest digit.
half-mod : (a p : ℕ) → 0 < p → a / 2 % p * 2 + a % 2 ≡ a % (2 * p)
half-mod a p h =
    let r : ℕ = a / 2 % p * 2 + a % 2 in
    let split : a ≡ 2 * p * (a / 2 / p) + r = omega (arith, div-add-mod (a / 2) p) in
    let small : r < 2 * p = omega (arith, mod-lt (a / 2) h) in
    omega (
      arith,
      ap (λ (t : ℕ). t % (2 * p)) split,
      mul-add-mod_self_left (2 * p) (a / 2 / p) r,
      mod-eq_of_lt small,
    )

-- A mask of `k` ones keeps the remainder by `2 ^ k`, one binary digit for each step.
pub bit_and_ones : (k a m : ℕ) → m + 1 ≡ 2 ^ k → bit_and a m ≡ a % 2 ^ k
bit_and_ones zero a m e =
    let e' : m ≡ 0 = omega arith in
    omega (arith, ap (bit_and a) e', and_zero_below a a (omega arith))
bit_and_ones (suc k) a m e =
    let double : 2 ^ suc k ≡ 2 * 2 ^ k = omega (arith, pow-suc 2 k) in
    omega (
      arith,
      and_digit a m,
      bit_and_ones k (a / 2) (m / 2) (omega (arith, pow-suc 2 k)),
      half-mod a (2 ^ k) (one-le-pow k 2 (omega arith)),
      ap (λ (t : ℕ). a % t) double,
    )

-- `hi * 2 ^ k | lo` is a sum where `lo` has at most `k` digits.
pub bit_or_disjoint : (k hi lo : ℕ) → lo < 2 ^ k → bit_or (hi * 2 ^ k) lo ≡ hi * 2 ^ k + lo
bit_or_disjoint zero hi lo h =
    let e : lo ≡ 0 = omega arith in
    omega (arith, ap (bit_or (hi * 1)) e, or_zero_below (hi * 1) (hi * 1) (omega arith))
bit_or_disjoint (suc k) hi lo h =
    let twice : hi * 2 ^ suc k ≡ 2 * (hi * 2 ^ k) =
      omega (arith, ap (λ (t : ℕ). hi * t) (pow-suc 2 k)) in
    let halved : hi * 2 ^ suc k / 2 ≡ hi * 2 ^ k = omega arith in
    omega (
      arith,
      or_digit (hi * 2 ^ suc k) lo,
      ap (λ (t : ℕ). bit_or t (lo / 2)) halved,
      bit_or_disjoint k hi (lo / 2) (omega (arith, pow-suc 2 k)),
    )
