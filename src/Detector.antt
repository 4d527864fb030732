-- ===== src/Detector.antt =====
-- core/protocol/detector.cc: which protocol the first bytes of a client belong to.
pub mod Stable
pub mod Recognise
mod Tests
use proxy_server_sa.Base.{
  ℕ, suc, ◌+◌, Bool, true, false, ◌&&◌, ◌||◌, not, Option, none, some, List, [], ◌∷◌, ltb, ◌==◌,
  if◌then◌else◌, length, get_or, is_empty,
}
use proxy_server_sa.Base.Text.{codes}
use proxy_server_sa.Protocol.{ProtocolType, unknown, socks4, socks4a, socks5, http, unsupported}

-- `ByteToInt(buf[i])`
abbrev pub byte_at : List ℕ → ℕ → ℕ
byte_at buf i = get_or buf i 0

unfoldable pub is_socks4 : List ℕ → Bool
is_socks4 buf = if ltb (length buf) 8 then false else byte_at buf 0 == 0x04

-- `!b0 && !b1 && !b2 && b3`
unfoldable pub is_socks4a : List ℕ → Bool
is_socks4a buf =
    (byte_at buf 4 == 0) && (byte_at buf 5 == 0) && (byte_at buf 6 == 0) && not (byte_at buf 7 == 0)

unfoldable pub is_socks5 : List ℕ → Bool
is_socks5 buf = if ltb (length buf) 2 then false else byte_at buf 0 == 0x05

-- The loops that compare the first bytes with a literal.
unfoldable pub matches : List ℕ → List ℕ → Bool
matches [] buf = true
matches (c ∷ cs) [] = false
matches (c ∷ cs) (b ∷ bs) = (b == c) && matches cs bs

abbrev pub h2_preface : List ℕ
h2_preface = codes "PRI * HTTP/2.0"

abbrev pub methods : List (List ℕ)
methods =
    codes "GET"
    ∷ codes "HEAD"
    ∷ codes "POST"
    ∷ codes "PUT"
    ∷ codes "DELETE"
    ∷ codes "CONNECT"
    ∷ codes "OPTIONS"
    ∷ codes "TRACE"
    ∷ codes "PATCH"
    ∷ []

-- One round of the loop over the methods.
unfoldable pub is_method : List ℕ → List ℕ → Bool
is_method method buf =
    if ltb (length buf) (length method + 1)
    then false
    else matches method buf
      && ((byte_at buf (length method) == b' ') || (byte_at buf (length method) == 0x09))

unfoldable pub any_method : List (List ℕ) → List ℕ → Bool
any_method [] buf = false
any_method (m ∷ ms) buf = is_method m buf || any_method ms buf

unfoldable pub is_preface : List ℕ → Bool
is_preface buf = if ltb (length buf) (length h2_preface) then false else matches h2_preface buf

unfoldable pub is_http : List ℕ → Bool
is_http buf = is_preface buf || any_method methods buf

-- `ProbeProtocol(buf, out_type)`: the returned value, and what `out_type` points to afterwards.
-- `none` is the null pointer.
unfoldable pub probe_protocol : List ℕ → Option ProtocolType → Bool × Option ProtocolType
probe_protocol buf none = (false, none)
probe_protocol buf (some t) =
    if is_empty buf
    then (false, some unknown)
    else if is_socks4 buf
    then (if is_socks4a buf then (true, some socks4a) else (true, some socks4))
    else if is_socks5 buf
    then (true, some socks5)
    else if is_http buf
    then (true, some http)
    else if ltb (length buf) 8
    then (false, some unknown)
    else (true, some unsupported)
