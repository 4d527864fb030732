-- ===== src/Detector/Stable.antt =====
-- More bytes do not change an answer of the detector.
use proxy_server_sa.Base.{
  ℕ, ◌<◌, ◌≤◌, ◌≡◌, ◌≢◌, refl, true, false, some, List, [], ◌∷◌, ◌++◌, arith, length, length-append,
  get_or-append_left, is_empty,
}
use proxy_server_sa.Base.Text.{codes}
use proxy_server_sa.Protocol.{ProtocolType, unsupported}
use proxy_server_sa.Detector.{
  byte_at, is_socks4, is_socks4a, is_socks5, matches, h2_preface, methods, is_method, any_method,
  is_preface, is_http, probe_protocol,
}

matches-append : (cs buf more : List ℕ) → matches cs buf ≡ true → matches cs (buf ++ more) ≡ true
unfolding matches
matches-append [] buf more h = refl
matches-append (c ∷ cs) [] more h = ground arith
matches-append (c ∷ cs) (b ∷ bs) more h = ground (arith, matches-append cs bs more)

is_method-append : (m buf more : List ℕ) → is_method m buf ≡ true → is_method m (buf ++ more) ≡ true
unfolding is_method
is_method-append m buf more h = ground (
  arith,
  matches-append m buf more,
  length-append buf more,
  get_or-append_left buf more (length m) 0,
)

any_method-append :
    (ms : List (List ℕ)) (buf more : List ℕ)
    → any_method ms buf ≡ true
    → any_method ms (buf ++ more) ≡ true
unfolding any_method
any_method-append [] buf more h = h
any_method-append (m ∷ ms) buf more h =
    ground (arith, is_method-append m buf more, any_method-append ms buf more)

is_preface-append : (buf more : List ℕ) → is_preface buf ≡ true → is_preface (buf ++ more) ≡ true
unfolding is_preface
is_preface-append buf more h =
    ground (arith, matches-append h2_preface buf more, length-append buf more)

is_method-head : (c : ℕ) (cs buf : List ℕ) → is_method (c ∷ cs) buf ≡ true → byte_at buf 0 ≡ c
unfolding is_method matches
is_method-head c cs [] h = ground arith
is_method-head c cs (b ∷ bs) h = ground arith

is_preface-head : (buf : List ℕ) → is_preface buf ≡ true → byte_at buf 0 ≡ b'P'
unfolding is_preface matches
is_preface-head [] h = ground arith
is_preface-head (b ∷ bs) h = ground arith

-- No request line begins with a byte that SOCKS uses for its version.
pub is_http-head : (buf : List ℕ) → is_http buf ≡ true → 5 < byte_at buf 0
unfolding is_http any_method
is_http-head buf h = ground (
  arith,
  is_preface-head buf,
  is_method-head b'G' (codes "ET") buf,
  is_method-head b'H' (codes "EAD") buf,
  is_method-head b'P' (codes "OST") buf,
  is_method-head b'P' (codes "UT") buf,
  is_method-head b'D' (codes "ELETE") buf,
  is_method-head b'C' (codes "ONNECT") buf,
  is_method-head b'O' (codes "PTIONS") buf,
  is_method-head b'T' (codes "RACE") buf,
  is_method-head b'P' (codes "ATCH") buf,
)

is_http-append : (buf more : List ℕ) → is_http buf ≡ true → is_http (buf ++ more) ≡ true
unfolding is_http
is_http-append buf more h =
    ground (arith, is_preface-append buf more, any_method-append methods buf more)

-- What the tests on the first eight bytes see of a longer buffer.
is_socks4a-append : (buf more : List ℕ) → 8 ≤ length buf → is_socks4a (buf ++ more) ≡ is_socks4a buf
unfolding is_socks4a
is_socks4a-append buf more h = rw (
  get_or-append_left buf more 4 0 (omega arith),
  get_or-append_left buf more 5 0 (omega arith),
  get_or-append_left buf more 6 0 (omega arith),
  get_or-append_left buf more 7 0 (omega arith),
)

is_socks4-append : (buf more : List ℕ) → is_socks4 buf ≡ true → is_socks4 (buf ++ more) ≡ true
unfolding is_socks4
is_socks4-append buf more h =
    ground (arith, length-append buf more, get_or-append_left buf more 0 0)

not-is_socks4 : (buf more : List ℕ) → 4 < byte_at buf 0 → is_socks4 (buf ++ more) ≡ false
unfolding is_socks4
not-is_socks4 [] more h = ground arith
not-is_socks4 (b ∷ bs) more h = ground arith

is_socks5-append : (buf more : List ℕ) → is_socks5 buf ≡ true → is_socks5 (buf ++ more) ≡ true
unfolding is_socks5
is_socks5-append buf more h =
    ground (arith, length-append buf more, get_or-append_left buf more 0 0)

is_socks5-head : (buf : List ℕ) → is_socks5 buf ≡ true → byte_at buf 0 ≡ 5
unfolding is_socks5
is_socks5-head buf h = ground arith

not-is_socks5 : (buf more : List ℕ) → 5 < byte_at buf 0 → is_socks5 (buf ++ more) ≡ false
unfolding is_socks5
not-is_socks5 [] more h = ground arith
not-is_socks5 (b ∷ bs) more h = ground arith

is_socks4-length : (buf : List ℕ) → is_socks4 buf ≡ true → 8 ≤ length buf
unfolding is_socks4
is_socks4-length buf h = ground arith

not-is_empty-append : (buf more : List ℕ) → is_empty buf ≡ false → is_empty (buf ++ more) ≡ false
not-is_empty-append [] more h = cc
not-is_empty-append (b ∷ bs) more h = refl

-- Once the detector has named a protocol other than `unsupported`, it names the same one however
-- many bytes follow.
pub probe_protocol-append :
    (buf more : List ℕ) (t a : ProtocolType)
    → probe_protocol buf (some t) ≡ (true, some a)
    → a ≢ unsupported
    → probe_protocol (buf ++ more) (some t) ≡ (true, some a)
unfolding probe_protocol
probe_protocol-append buf more t a h ne = ground (
  arith,
  not-is_empty-append buf more,
  is_socks4-append buf more,
  is_socks4-length buf,
  is_socks4a-append buf more,
  is_socks5-append buf more,
  is_socks5-head buf,
  not-is_socks4 buf more,
  is_http-append buf more,
  is_http-head buf,
  not-is_socks5 buf more,
)
