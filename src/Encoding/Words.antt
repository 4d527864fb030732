-- ===== src/Encoding/Words.antt =====
-- The low bits of a word, which are all that is read of `val`.
use proxy_server_sa.Base.{ℕ, ◌/◌, ◌%◌, ◌≡◌, refl, ◌∙◌, bit_and, arith}
use proxy_server_sa.Base.Bits.{bit_and_ones}
use proxy_server_sa.Encoding.{shift_right}

-- With the sign copied, the lowest bits are those of the unsigned shift.
pub sextet_0 : (v : ℕ) → bit_and (shift_right v 0) 0x3F ≡ v % 64
unfolding shift_right
sextet_0 v = bit_and_ones 6 (shift_right v 0) 0x3F refl ∙ ground arith

pub sextet_2 : (v : ℕ) → bit_and (shift_right v 2) 0x3F ≡ v / 4 % 64
unfolding shift_right
sextet_2 v = bit_and_ones 6 (shift_right v 2) 0x3F refl ∙ ground arith

pub sextet_4 : (v : ℕ) → bit_and (shift_right v 4) 0x3F ≡ v / 16 % 64
unfolding shift_right
sextet_4 v = bit_and_ones 6 (shift_right v 4) 0x3F refl ∙ ground arith

pub sextet_6 : (v : ℕ) → bit_and (shift_right v 6) 0x3F ≡ v / 64 % 64
unfolding shift_right
sextet_6 v = bit_and_ones 6 (shift_right v 6) 0x3F refl ∙ ground arith

pub byte_0 : (v : ℕ) → bit_and (shift_right v 0) 0xFF ≡ v % 256
unfolding shift_right
byte_0 v = bit_and_ones 8 (shift_right v 0) 0xFF refl ∙ ground arith

pub byte_2 : (v : ℕ) → bit_and (shift_right v 2) 0xFF ≡ v / 4 % 256
unfolding shift_right
byte_2 v = bit_and_ones 8 (shift_right v 2) 0xFF refl ∙ ground arith

pub byte_4 : (v : ℕ) → bit_and (shift_right v 4) 0xFF ≡ v / 16 % 256
unfolding shift_right
byte_4 v = bit_and_ones 8 (shift_right v 4) 0xFF refl ∙ ground arith
