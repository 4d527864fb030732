-- ===== src/Connection/Choose.antt =====
-- `Connection::SetProtocol`
use proxy_server_sa.Base.{◌≡◌, ◌↔◌, Bool, true, false, Option, none, some, arith, if◌then◌else◌}
use proxy_server_sa.Protocol.{as_socks4, new_socks4, ProtocolType, unknown, socks4}
use proxy_server_sa.Detector.{probe_protocol}
use proxy_server_sa.Detector.Recognise.{IsRequestHead, probe_socks4_iff}
use proxy_server_sa.Connection.{Connection, probed, choose_protocol, set_protocol}

abbrev chosen : Connection → Bool → Bool × Connection
chosen c b = if b then (true, record c { protocol = some (as_socks4 new_socks4) }) else (false, c)

probed_shape :
    (r : Bool × Option ProtocolType) (c : Connection) → probed r c ≡ chosen c (probed r c).0
unfolding probed choose_protocol
probed_shape r c = ground arith

probed-true :
    (r : Bool × Option ProtocolType) (c : Connection)
    → ((probed r c).0 ≡ true) ↔ (r ≡ (true, some socks4))
unfolding probed choose_protocol
probed-true r c = ground arith

set_protocol-none :
    (c : Connection)
    → c.protocol ≡ none
    → set_protocol c ≡ probed (probe_protocol c.receive_buffer (some unknown)) c
unfolding set_protocol
set_protocol-none c e = ground arith

-- On a connection without a protocol `SetProtocol` returns true exactly when the receive buffer
-- begins with the fixed part of a plain SOCKS4 request; then the protocol is a fresh SOCKS4 object,
-- and otherwise nothing changes.
pub set_protocol_cases :
    (c : Connection)
    → c.protocol ≡ none
    → (((set_protocol c).0 ≡ true) ↔ IsRequestHead c.receive_buffer)
      × (set_protocol c ≡ (
          if (set_protocol c).0
          then (true, record c { protocol = some (as_socks4 new_socks4) })
          else (false, c)))
set_protocol_cases c e =
    let r = probe_protocol c.receive_buffer (some unknown) in
    let found = probed-true r c in
    let head = probe_socks4_iff c.receive_buffer unknown in
    rw (set_protocol-none c e)
      ((λ h. head.0 (found.0 h), λ h. found.1 (head.1 h)), probed_shape r c)
