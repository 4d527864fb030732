-- ===== src/Detector/Recognise.antt =====
-- What the detector takes for SOCKS4, and what it answers too early.
use proxy_server_sa.Base.{
  ℕ, zero, suc, ◌+◌, ◌<◌, ◌≡◌, ◌≢◌, ◌↔◌, refl, true, some, List, ◌∷◌, ◌++◌, arith, take,
}
use proxy_server_sa.Protocol.{ProtocolType, socks4, http, unsupported}
use proxy_server_sa.Detector.{
  is_socks4, is_socks4a, is_socks5, matches, h2_preface, is_method, any_method, is_preface, is_http,
  probe_protocol,
}

-- The fixed part of a SOCKS4 request has come, and its address does not announce a domain name.
abbrev pub IsRequestHead : List ℕ → Type 0
IsRequestHead buf =
    (cmd p q a b c d : ℕ) × (rest : List ℕ) × (buf ≡ 0x04 ∷ cmd ∷ p ∷ q ∷ a ∷ b ∷ c ∷ d ∷ rest)
    × ¬ ((a ≡ 0) × (b ≡ 0) × (c ≡ 0) × (d ≢ 0))

probe_head :
    (buf : List ℕ) (t : ProtocolType)
    → probe_protocol buf (some t) ≡ (true, some socks4)
    → IsRequestHead buf
unfolding probe_protocol is_socks4 is_socks4a
probe_head (v ∷ cmd ∷ p ∷ q ∷ a ∷ b ∷ c ∷ d ∷ rest) t h =
    (cmd, p, q, a, b, c, d, rest, ground arith, ground arith)
probe_head buf t h = absurd (ground arith)

head_probe :
    (buf : List ℕ) (t : ProtocolType)
    → IsRequestHead buf
    → probe_protocol buf (some t) ≡ (true, some socks4)
unfolding probe_protocol is_socks4 is_socks4a
head_probe buf t (cmd, p, q, a, b, c, d, rest, e, plain) = rw e (ground arith)

-- The detector answers SOCKS4 exactly on the buffers that begin with the eight fixed bytes of a
-- request of version 4 whose address is not 0.0.0.x with x other than 0.
pub probe_socks4_iff :
    (buf : List ℕ) (t : ProtocolType)
    → (probe_protocol buf (some t) ≡ (true, some socks4)) ↔ IsRequestHead buf
probe_socks4_iff buf t = (probe_head buf t, head_probe buf t)

whole_preface :
    (t : ProtocolType) (rest : List ℕ)
    → probe_protocol (h2_preface ++ rest) (some t) ≡ (true, some http)
unfolding probe_protocol is_socks4 is_socks4a is_socks5 is_http is_preface matches
whole_preface t rest = ground arith

-- Between 8 and 13 bytes of the HTTP/2 preface are called unsupported, the whole is HTTP.
pub preface_too_early :
    (k : ℕ) (t : ProtocolType) (rest : List ℕ)
    → k < 6
    → (probe_protocol (take (8 + k) h2_preface) (some t) ≡ (true, some unsupported))
      × (probe_protocol (h2_preface ++ rest) (some t) ≡ (true, some http))
unfolding probe_protocol is_socks4 is_socks5 is_http is_preface matches any_method is_method
preface_too_early zero t rest h = (refl, whole_preface t rest)
preface_too_early (suc zero) t rest h = (refl, whole_preface t rest)
preface_too_early (suc (suc zero)) t rest h = (refl, whole_preface t rest)
preface_too_early (suc (suc (suc zero))) t rest h = (refl, whole_preface t rest)
preface_too_early (suc (suc (suc (suc zero)))) t rest h = (refl, whole_preface t rest)
preface_too_early (suc (suc (suc (suc (suc zero))))) t rest h = (refl, whole_preface t rest)
preface_too_early (suc (suc (suc (suc (suc (suc k)))))) t rest h = absurd (omega arith)
