-- ===== src/Server/Handshake.antt =====
-- A SOCKS4 client from its request to its upstream connection: the detector, the protocol and the
-- connecting, as the event loop puts them together.
use proxy_server_sa.Base.{
  ℕ, ◌+◌, ◌*◌, ◌<◌, ◌≡◌, ◌≢◌, refl, ◌∙◌, true, none, some, List, [], ◌∷◌, ◌++◌, All,
}
use proxy_server_sa.Base.Int.{ℤ, minus_one}
use proxy_server_sa.Net.{Network}
use proxy_server_sa.Protocol.{as_socks4, new_socks4, established}
use proxy_server_sa.Detector.Recognise.{IsRequestHead}
use proxy_server_sa.Connection.{Connection, ConnectionMap, set_protocol}
use proxy_server_sa.Connection.Choose.{set_protocol_cases}
use proxy_server_sa.Connection.Open.{create_upstream_tcp_connection}
use proxy_server_sa.Socks4.{null}
use proxy_server_sa.Socks4.Request.{request, NonZero, on_readable-request}
use proxy_server_sa.Server.{going, peer_value, store_peer, is_established}
use proxy_server_sa.Server.Steps.{serve_socks4, serve_if_known, serve, on_client_data}

module _ (net : Network) where
  open net use {World, update_event_interest}

  -- A client that `SetProtocol` takes for SOCKS4 is served as such at once.
  served_at_once :
      (poller fd : ℤ) (m : ConnectionMap) (c : Connection) (w : World)
      → c.protocol ≡ none
      → IsRequestHead c.receive_buffer
      → on_client_data net poller fd none m c w
        ≡ some (
            serve_socks4 net poller fd none new_socks4 m
              (record c { protocol = some (as_socks4 new_socks4) })
              w)
  unfolding on_client_data serve_if_known serve
  served_at_once poller fd m c w e head =
      let (iff, shape) = set_protocol_cases c e in
      let known : set_protocol c ≡ (true, record c { protocol = some (as_socks4 new_socks4) }) =
        shape ∙ rw (iff.1 head) refl in
      rw (e, on_client_data) (rw known refl)

  module _ (hi lo a1 a2 a3 a4 : ℕ) (user rest : List ℕ) (c : Connection) where
    abbrev asking : Connection
    asking = record c { receive_buffer = request 4 1 hi lo a1 a2 a3 a4 user ++ rest }

    abbrev pub replied : Connection
    replied = record c {
      receive_buffer = rest;
      send_buffer = c.send_buffer ++ 0 ∷ 0x5a ∷ hi ∷ lo ∷ a1 ∷ a2 ∷ a3 ∷ a4 ∷ [];
      want_write = true;
      protocol = some (
          as_socks4 (record {
            state = established;
            destination_port = hi * 256 + lo;
            destination_ip = a1 ∷ a2 ∷ a3 ∷ a4 ∷ [];
            user_id = user;
          }));
    }

    -- A client without a protocol and without a peer, whose receive buffer begins with a whole
    -- request of version 4 and command 1, a port of two bytes and a user without a zero byte, is
    -- recognised and answered with a granted reply, and in the same turn an upstream connection to
    -- the address and the port of the request is asked for, unless the address is 0.0.0.x with x
    -- other than 0.
    pub on_client_data-request :
        (poller fd : ℤ) (m : ConnectionMap) (w : World)
        → c.protocol ≡ none
        → c.peer_socket_id ≡ minus_one
        → ¬ ((a1 ≡ 0) × (a2 ≡ 0) × (a3 ≡ 0) × (a4 ≢ 0))
        → All NonZero user
        → hi < 256
        → lo < 256
        → on_client_data net poller fd none m asking w ≡ (
            let (_, m', c', w') =
              create_upstream_tcp_connection net poller m replied
                (a1 ∷ a2 ∷ a3 ∷ a4 ∷ [])
                (hi * 256 + lo)
                (update_event_interest poller c.id true true w).1 in
            some (going m' c', w'))
    unfolding serve_socks4 request new_socks4 store_peer peer_value is_established
    on_client_data-request poller fd m w e link plain u h l =
        served_at_once poller fd m asking w e
          (1, hi, lo, a1, a2, a3, a4, (user ++ 0 ∷ []) ++ rest, refl, plain)
        ∙ rw
            (
              on_readable-request net 4 1 hi lo a1 a2 a3 a4 user rest new_socks4
                  (record c { protocol = some (as_socks4 new_socks4) }) null poller w refl u h l,
              link,
            )
            refl
