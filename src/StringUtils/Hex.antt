-- ===== src/StringUtils/Hex.antt =====
-- What the two texts keep of the bytes.
use proxy_server_sa.Base.{
  ℕ, ◌+◌, ◌-◌, ◌*◌, ◌/◌, ◌%◌, ◌<◌, ◌≡◌, refl, true, inl, inr, Option, none, some, List, [], ◌∷◌,
  arith, All, All-append, Bool-cases, ltb, if◌then◌else◌, ◌>>=◌,
}
use proxy_server_sa.StringUtils.{
  hex_digit, hex_byte, bytes_to_hex, is_readable, bytes_to_readable_string,
}

abbrev pub IsByte : ℕ → Type 0
IsByte b = b < 256

-- A reader of such text: of every five characters the third and the fourth are the digits.
abbrev pub digit_value : ℕ → ℕ
digit_value c = if ltb c 58 then c - 48 else c - 55

abbrev pub read_hex : List ℕ → Option (List ℕ)
read_hex [] = some []
read_hex (_ ∷ _ ∷ hi ∷ lo ∷ _ ∷ rest) =
    read_hex rest >>= λ bs. some ((digit_value hi * 16 + digit_value lo) ∷ bs)
read_hex _ = none

digit_value-hex_digit : (n : ℕ) → n < 16 → digit_value (hex_digit n) ≡ n
unfolding hex_digit
digit_value-hex_digit n h = ground arith

byte_read :
    (b : ℕ)
    → IsByte b
    → digit_value (hex_digit (b / 16)) * 16 + digit_value (hex_digit (b % 16)) ≡ b
byte_read b h = omega (
  arith,
  digit_value-hex_digit (b / 16) (omega arith),
  digit_value-hex_digit (b % 16) (omega arith),
)

-- The text of `bytesToHex` can be read back: no two sequences of bytes have the same one.
pub read_hex-bytes_to_hex : (bs : List ℕ) → All IsByte bs → read_hex (bytes_to_hex bs) ≡ some bs
unfolding bytes_to_hex hex_byte
read_hex-bytes_to_hex [] h = refl
read_hex-bytes_to_hex (b ∷ bs) h = rw (read_hex-bytes_to_hex bs h.1, byte_read b h.0)

abbrev pub IsReadable : ℕ → Type 0
IsReadable c = is_readable c ≡ true

hex_digit-IsReadable : (n : ℕ) → n < 16 → IsReadable (hex_digit n)
unfolding hex_digit is_readable
hex_digit-IsReadable n h = ground arith

hex_byte-IsReadable : (b : ℕ) → IsByte b → All IsReadable (hex_byte b)
unfolding hex_byte is_readable
hex_byte-IsReadable b h = (
  refl,
  (
    refl,
    (
      hex_digit-IsReadable (b / 16) (omega arith),
      (hex_digit-IsReadable (b % 16) (omega arith), tt),
    ),
  ),
)

All-IsReadable : (bs : List ℕ) → All IsByte bs → All IsReadable (bytes_to_readable_string bs)
unfolding bytes_to_readable_string
All-IsReadable [] h = tt
All-IsReadable (b ∷ bs) h = elim (Bool-cases (is_readable b)) [
  | inl r ↦ rw r (r, All-IsReadable bs h.1)
  | inr r ↦ rw r (
      All-append IsReadable (hex_byte b) (bytes_to_readable_string bs) (hex_byte-IsReadable b h.0)
        (All-IsReadable bs h.1))
]

readable_stays : (bs : List ℕ) → All IsReadable bs → bytes_to_readable_string bs ≡ bs
unfolding bytes_to_readable_string
readable_stays [] h = refl
readable_stays (b ∷ bs) h = rw (h.0, readable_stays bs h.1)

-- Whatever the bytes are, `bytesToReadableString` gives nothing but readable characters and line
-- ends, so that doing it again changes nothing; and a text of such characters it leaves as it is.
pub bytes_to_readable_string-IsReadable :
    (bs text : List ℕ)
    → All IsByte bs
    → All IsReadable text
    → All IsReadable (bytes_to_readable_string bs)
      × (bytes_to_readable_string (bytes_to_readable_string bs) ≡ bytes_to_readable_string bs)
      × (bytes_to_readable_string text ≡ text)
bytes_to_readable_string-IsReadable bs text h r = (
  All-IsReadable bs h,
  readable_stays (bytes_to_readable_string bs) (All-IsReadable bs h),
  readable_stays text r,
)
