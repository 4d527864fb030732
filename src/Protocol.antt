-- ===== src/Protocol.antt =====
-- core/protocol/protocol.h, socks4.h and socks5.h: the data of the protocols.
use proxy_server_sa.Base.{ℕ, List, [], ◌∷◌}

pub data ProtocolType : Type 0 where
  unknown socks4 socks4a socks5 http unsupported : ProtocolType

-- `Socks4::State`
pub data State : Type 0 where
  init established failed : State

pub record Socks4 : Type 0 where
  pub state : State
  pub destination_port : ℕ
  pub destination_ip : List ℕ
  pub user_id : List ℕ

-- `Socks5::Phase`
pub data Phase : Type 0 where
  greeting method_selected awaiting_request connected : Phase

pub record Socks5 : Type 0 where
  pub phase : Phase
  pub destination_host : List ℕ
  pub destination_port : ℕ

-- The object behind a `std::unique_ptr<Protocol>`: one constructor for each class.
pub data Protocol : Type 0 where
  as_socks4 : Socks4 → Protocol
  as_socks5 : Socks5 → Protocol

-- `Protocol::type`
unfoldable pub type_of : Protocol → ProtocolType
type_of (as_socks4 p) = ProtocolType.socks4
type_of (as_socks5 p) = ProtocolType.socks5

-- `std::make_unique<Socks4>()`: the members without an initialiser are zero.
unfoldable pub new_socks4 : Socks4
new_socks4 = record {
  state = init;
  destination_port = 0;
  destination_ip = 0 ∷ 0 ∷ 0 ∷ 0 ∷ [];
  user_id = [];
}
