-- ===== src/Detector/Tests.antt =====
-- The detector at concrete inputs.
use proxy_server_sa.Base.{◌≡◌, ◌↔◌, refl, true, some, ℕ, List, [], ◌∷◌, ◌++◌, arith, take}
use proxy_server_sa.Base.Text.{codes}
use proxy_server_sa.Protocol.{unknown, socks4, http, unsupported}
use proxy_server_sa.Detector.{
  is_socks4, is_socks4a, is_socks5, is_http, is_preface, matches, any_method, is_method,
  probe_protocol, h2_preface,
}
use proxy_server_sa.Detector.Stable.{probe_protocol-append}
use proxy_server_sa.Detector.Recognise.{IsRequestHead, probe_socks4_iff, preface_too_early}

get_line : probe_protocol (codes "GET /x") (some unknown) ≡ (true, some http)
unfolding probe_protocol is_socks4 is_socks5 is_http is_preface matches any_method is_method
get_line = refl

abbrev connect : List ℕ
connect = 4 ∷ 1 ∷ 0 ∷ 80 ∷ 93 ∷ 184 ∷ 216 ∷ 34 ∷ 0 ∷ []

connect_found : probe_protocol connect (some unknown) ≡ (true, some socks4)
unfolding probe_protocol is_socks4 is_socks4a
connect_found = refl

probe_protocol-append_example :
    probe_protocol (codes "GET /x" ++ codes "yz HTTP/1.1") (some unknown) ≡ (true, some http)
probe_protocol-append_example =
    probe_protocol-append (codes "GET /x") (codes "yz HTTP/1.1") unknown http get_line
      (λ e. ground arith)

probe_socks4_iff_example :
    (probe_protocol connect (some unknown) ≡ (true, some socks4)) ↔ IsRequestHead connect
probe_socks4_iff_example = probe_socks4_iff connect unknown

preface_too_early_example :
    (probe_protocol (take 10 h2_preface) (some unknown) ≡ (true, some unsupported))
    × (probe_protocol (h2_preface ++ codes "\r\n") (some unknown) ≡ (true, some http))
preface_too_early_example = preface_too_early 2 unknown (codes "\r\n") (omega arith)
