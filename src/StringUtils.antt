-- ===== src/StringUtils.antt =====
-- core/utils/string_utils.cc: bytes as text. The formatting flags of the stream say: two hexadecimal
-- digits, upper case, with a zero in front where one would do.
pub mod Hex
mod Tests
use proxy_server_sa.Base.{
  ℕ, ◌+◌, ◌/◌, ◌%◌, Bool, ◌&&◌, ◌||◌, List, [], ◌∷◌, ◌++◌, ltb, leb, ◌==◌, if◌then◌else◌,
}

unfoldable pub hex_digit : ℕ → ℕ
hex_digit n = if ltb n 10 then b'0' + n else 55 + n

-- `"0x"` and the two digits.
unfoldable pub hex_byte : ℕ → List ℕ
unfolding hex_digit
hex_byte b = b'0' ∷ b'x' ∷ hex_digit (b / 16) ∷ hex_digit (b % 16) ∷ []

-- `bytesToHex`
unfoldable pub bytes_to_hex : List ℕ → List ℕ
unfolding hex_byte
bytes_to_hex [] = []
bytes_to_hex (b ∷ bs) = hex_byte b ++ b' ' ∷ bytes_to_hex bs

unfoldable pub is_readable : ℕ → Bool
is_readable value = (leb 0x20 value && leb value 0x7e) || (value == 0x0d) || (value == 0x0a)

-- `bytesToReadableString`
unfoldable pub bytes_to_readable_string : List ℕ → List ℕ
unfolding hex_byte is_readable
bytes_to_readable_string [] = []
bytes_to_readable_string (b ∷ bs) =
    let rest = bytes_to_readable_string bs in if is_readable b then b ∷ rest else hex_byte b ++ rest
