-- ===== src/StringUtils/Tests.antt =====
-- The texts of a few bytes.
use proxy_server_sa.Base.{ℕ, ◌≡◌, refl, some, List, [], ◌∷◌, arith, All}
use proxy_server_sa.Base.Text.{codes}
use proxy_server_sa.StringUtils.{bytes_to_hex, bytes_to_readable_string}
use proxy_server_sa.StringUtils.Hex.{IsByte, read_hex, read_hex-bytes_to_hex}

abbrev request_head : List ℕ
request_head = 4 ∷ 1 ∷ 0 ∷ 80 ∷ 93 ∷ 255 ∷ []

request_head-bytes : All IsByte request_head
request_head-bytes =
    (omega arith, (omega arith, (omega arith, (omega arith, (omega arith, (omega arith, tt))))))

hex_text : bytes_to_hex (4 ∷ 255 ∷ []) ≡ codes "0x04 0xFF "
unfolding bytes_to_hex
hex_text = refl

readable_text : bytes_to_readable_string (71 ∷ 4 ∷ 13 ∷ 10 ∷ []) ≡ codes "G0x04\r\n"
unfolding bytes_to_readable_string
readable_text = refl

read_hex-bytes_to_hex_example : read_hex (bytes_to_hex request_head) ≡ some request_head
read_hex-bytes_to_hex_example = read_hex-bytes_to_hex request_head request_head-bytes
