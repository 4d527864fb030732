-- ===== src/Base/Int.antt =====
-- `int` where the program uses it as an identifier or a return code: its sign and its equality.
use Prim.Native.Nat.{ℕ, zero, suc}
use mathlib.Core.Bool.{Bool, true, false}
use mathlib.Core.Logic.{◌↔◌, ◌⊎◌, inl, inr}
use mathlib.Core.Path.{◌≡◌, refl}
use native.Mathlib.Omega.{arith}
use proxy_server_sa.Base.Tests.{◌==◌}

-- `negsuc n` is -(n + 1).
pub data ℤ : Type 0 where
  pos : ℕ → ℤ
  negsuc : ℕ → ℤ

-- -1, the identifier of nothing.
abbrev pub minus_one : ℤ
minus_one = negsuc 0

abbrev pub is_negative : ℤ → Bool
is_negative (pos n) = false
is_negative (negsuc n) = true

abbrev pub is_positive : ℤ → Bool
is_positive (pos n) = elim n [ zero ↦ false | suc m ↦ true ]
is_positive (negsuc n) = false

infix 50 ◌==ℤ◌
abbrev pub ◌==ℤ◌ : ℤ → ℤ → Bool
pos m ==ℤ pos n = m == n
pos m ==ℤ negsuc n = false
negsuc m ==ℤ pos n = false
negsuc m ==ℤ negsuc n = m == n

pub ==ℤ_iff : (a b : ℤ) → ((a ==ℤ b) ≡ true) ↔ (a ≡ b)
==ℤ_iff (pos m) (pos n) = ground arith
==ℤ_iff (pos m) (negsuc n) = ground arith
==ℤ_iff (negsuc m) (pos n) = ground arith
==ℤ_iff (negsuc m) (negsuc n) = ground arith

pub ==ℤ_refl : (a : ℤ) → (a ==ℤ a) ≡ true
==ℤ_refl a = (==ℤ_iff a a).1 refl

pub ==ℤ_comm : (a b : ℤ) → (a ==ℤ b) ≡ (b ==ℤ a)
==ℤ_comm (pos m) (pos n) = ground arith
==ℤ_comm (pos m) (negsuc n) = refl
==ℤ_comm (negsuc m) (pos n) = refl
==ℤ_comm (negsuc m) (negsuc n) = ground arith

abbrev pub is_zero : ℤ → Bool
is_zero (pos n) = n == 0
is_zero (negsuc n) = false

-- The three kinds of a return code, with the equation kept.
pub ℤ-cases : (n : ℤ) → (n ≡ pos 0) ⊎ (((m : ℕ) × (n ≡ pos (suc m))) ⊎ ((e : ℕ) × (n ≡ negsuc e)))
ℤ-cases (pos zero) = inl refl
ℤ-cases (pos (suc m)) = inr (inl (m, refl))
ℤ-cases (negsuc e) = inr (inr (e, refl))

-- The value of a number that is not negative, and 0 for the others.
abbrev pub pos_part : ℤ → ℕ
pos_part (pos n) = n
pos_part (negsuc n) = 0
