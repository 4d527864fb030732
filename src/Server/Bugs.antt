-- ===== src/Server/Bugs.antt =====
-- What the event loop does where it does not what it means to.
use proxy_server_sa.Base.{
  ℕ, ◌<◌, ◌≡◌, ap, true, false, Option, none, some, List, [], ◌∷◌, ◌++◌, arith, length, Returns,
}
use proxy_server_sa.Base.Int.{ℤ, is_negative, is_positive, ==ℤ_refl}
use proxy_server_sa.Base.Map.{has}
use proxy_server_sa.Config.{Config}
use proxy_server_sa.Net.{Network}
use proxy_server_sa.Net.Laws.{Descriptors, Supply}
use proxy_server_sa.Protocol.{ProtocolType, unknown}
use proxy_server_sa.Detector.{probe_protocol, is_socks4, is_socks5}
use proxy_server_sa.Detector.Stable.{is_http-head}
use proxy_server_sa.Connection.{Connection, ConnectionMap, set_protocol}
use proxy_server_sa.Server.{Server, over, health_response, health_text}
use proxy_server_sa.Server.Steps.{serve_if_known, on_client_data}
use proxy_server_sa.Server.Loop.{then_clean_up, run}
use proxy_server_sa.Server.CleanUp.{clean_up_closes}

-- The beginning of a SOCKS4 request is not enough for the detector.
short_probe :
    (rest : List ℕ) (t : ProtocolType)
    → length rest < 7
    → probe_protocol (4 ∷ rest) (some t) ≡ (false, some unknown)
unfolding probe_protocol is_socks4 is_socks5
short_probe rest t h = ground (arith, is_http-head (4 ∷ rest))

short_set_protocol :
    (c : Connection) (rest : List ℕ)
    → c.protocol ≡ none
    → c.receive_buffer ≡ 4 ∷ rest
    → length rest < 7
    → set_protocol c ≡ (false, c)
unfolding set_protocol
short_set_protocol c rest e f h =
    ground (arith, ap (λ b. probe_protocol b (some unknown)) f, short_probe rest unknown h)

module _ (net : Network) where
  open net use {World, update_event_interest}

  -- A client that has sent one to seven bytes of a SOCKS4 request is answered with the text of an
  -- HTTP response, although more bytes would have made the request complete.
  pub short_request_answered :
      (poller fd : ℤ) (peer : Option ℤ) (m : ConnectionMap) (c : Connection) (w : World)
      (rest : List ℕ)
      → c.protocol ≡ none
      → c.receive_buffer ≡ 4 ∷ rest
      → length rest < 7
      → on_client_data net poller fd peer m c w
        ≡ some (
          over m (record c { send_buffer = c.send_buffer ++ health_text; want_write = true }),
          (update_event_interest poller fd true true w).1,
        )
  unfolding on_client_data serve_if_known health_response
  short_request_answered poller fd peer m c w rest e f h =
      ground (arith, short_set_protocol c rest e f h)

module _ (net : Network) (d : Descriptors net) (sup : Supply net) where
  open net use {World, initialize_network, create_listening_socket, set_socket_non_blocking}

  -- The member `poller_` is read before it is set: where the listening socket cannot be made
  -- non-blocking, whatever descriptor above 0 it happens to hold is closed, also one that `Run` did
  -- not open.
  pub run_closes_stray :
      (rounds fuel : ℕ) (config : Config) (poller0 : ℤ) (w : World)
      → is_negative
          (create_listening_socket config.bind_host config.port config.backlog
            (initialize_network w).1).0
        ≡ false
      → (set_socket_non_blocking
          (create_listening_socket config.bind_host config.port config.backlog
            (initialize_network w).1).0
          (create_listening_socket config.bind_host config.port config.backlog
            (initialize_network w).1).1).0
        ≡ false
      → is_positive poller0 ≡ true
      → Returns (λ r. d.is_open r.1 poller0 ≡ false) (run net rounds fuel config poller0 w)
  unfolding run then_clean_up has
  run_closes_stray rounds fuel config poller0 w n u p =
      let s0 : Server = record { socket = socket; poller = poller0; connections = [] } in
      rw (n, run)
        (rw (u, run) (ground (arith, clean_up_closes net d s0 w2 poller0 tt p, ==ℤ_refl poller0)))
    where
      socket : ℤ
      socket =
          (create_listening_socket config.bind_host config.port config.backlog
            (initialize_network w).1).0

      w2 : World
      w2 =
          (set_socket_non_blocking socket
            (create_listening_socket config.bind_host config.port config.backlog
              (initialize_network w).1).1).1
