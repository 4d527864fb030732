-- ===== src/Encoding/Tests.antt =====
-- Base64 on concrete bytes.
use proxy_server_sa.Base.{ℕ, ◌≡◌, refl, List, [], ◌∷◌, arith, All}
use proxy_server_sa.Base.Text.{codes}
use proxy_server_sa.Encoding.{encode, decode}
use proxy_server_sa.Encoding.Standard.{base64, encode-base64}
use proxy_server_sa.Encoding.Decoding.{decode-encode}
use proxy_server_sa.StringUtils.Hex.{IsByte}

encodes : encode (codes "foob") ≡ codes "Zm9vYg=="
unfolding encode
encodes = refl

-- Reading ends at the first character that is none of the 64.
decodes : decode (codes "Zm9v Yg==") ≡ codes "foo"
unfolding decode
decodes = refl

abbrev five : List ℕ
five = 0 ∷ 255 ∷ 128 ∷ 61 ∷ 7 ∷ []

five-bytes : All IsByte five
five-bytes = (omega arith, (omega arith, (omega arith, (omega arith, (omega arith, tt)))))

encode-base64_example : encode five ≡ base64 five
encode-base64_example = encode-base64 five five-bytes

decode-encode_example : decode (encode five) ≡ five
decode-encode_example = decode-encode five five-bytes
