-- ===== src/Connection/Open.antt =====
-- core/connection.cc, the functions that make connections: `AcceptNewClientConnection` and
-- `CreateUpstreamTCPConnection`.
use proxy_server_sa.Base.{
  ℕ, zero, suc, ◌*◌, true, false, not, Option, none, some, List, [], ◌∷◌, ◌++◌, if◌then◌else◌,
  get_or, bit_or,
}
use proxy_server_sa.Base.Int.{ℤ, minus_one, is_negative, ◌==ℤ◌}
use proxy_server_sa.Base.Map.{find}
use proxy_server_sa.Net.{Network}
use proxy_server_sa.Connection.{
  Connection, ConnectionMap, ConnectionResult, ok, epoll_register_failed, unknown_error, client,
  upstream, new_connection, destroy,
}

-- The four bytes as a number, the first one highest.
unfoldable pub join_ip : ℕ → ℕ → ℕ → ℕ → ℕ
join_ip a b c d = bit_or (bit_or (bit_or (a * 0x1000000) (b * 0x10000)) (c * 0x100)) d

-- `accepted_out->push_back(s)`, unless the pointer is null.
unfoldable pub push_back : Option (List ℤ) → ℤ → Option (List ℤ)
push_back none s = none
push_back (some xs) s = some (xs ++ s ∷ [])

module _ (net : Network) where
  open net use {
    World, close_socket, accept_connection, set_socket_non_blocking, register_read_event,
    update_event_interest, connect_tcp_ipv4,
  }

  -- `connections.emplace(k, std::move(c))`: where the key is there already, the node made of `c`
  -- is destroyed again.
  unfoldable pub emplace : ℤ → Connection → ConnectionMap → World → ConnectionMap × World
  emplace k c connections w = elim (find k connections) [
    | none ↦ ((k, c) ∷ connections, w)
    | some old ↦ (connections, destroy net c w)
  ]

  -- `AcceptNewClientConnection`; `accepted_out` may be null. `none`: out of fuel.
  unfoldable pub accept_new_client_connection :
      ℕ
      → ℤ
      → ℤ
      → ConnectionMap
      → Option (List ℤ)
      → World
      → Option (ConnectionResult × ConnectionMap × Option (List ℤ) × World)
  unfolding emplace new_connection push_back
  accept_new_client_connection zero socket poller connections accepted_out w = none
  accept_new_client_connection (suc fuel) socket poller connections accepted_out w =
      let (fd, w1) = accept_connection socket w in
      let (unblocked, w2) = set_socket_non_blocking fd w1 in
      let (registered, w3) = register_read_event poller fd w2 in
      let (connections', w4) = emplace fd (new_connection fd client) connections w3 in
      elim (is_negative fd) [
        | true ↦ some (ok, connections, accepted_out, w1)
        | false ↦ elim unblocked [
          | false ↦
              accept_new_client_connection fuel socket poller connections accepted_out
                (close_socket fd w2)
          | true ↦ elim registered [
            | false ↦ some (epoll_register_failed, connections, accepted_out, close_socket fd w3)
            | true ↦
                accept_new_client_connection fuel socket poller connections'
                  (push_back accepted_out fd) w4
          ]
        ]
      ]

  -- `CreateUpstreamTCPConnection`: the result, the map, the client and the machine afterwards.
  unfoldable pub create_upstream_tcp_connection :
      ℤ
      → ConnectionMap
      → Connection
      → List ℕ
      → ℕ
      → World
      → ConnectionResult × ConnectionMap × Connection × World
  unfolding emplace new_connection join_ip
  create_upstream_tcp_connection poller connections c dest_ip dest_port w =
      let ip =
        join_ip (get_or dest_ip 0 0) (get_or dest_ip 1 0) (get_or dest_ip 2 0)
          (get_or dest_ip 3 0) in
      let (fd, w1) = connect_tcp_ipv4 ip dest_port w in
      let (unblocked, w2) = set_socket_non_blocking fd w1 in
      let (registered, w3) = register_read_event poller fd w2 in
      let (updated, w4) = update_event_interest poller fd true true w3 in
      let (connections', w5) =
        emplace fd (record (new_connection fd upstream) { peer_socket_id = c.id }) connections w4 in
      if not (c.peer_socket_id ==ℤ minus_one)
      then (ok, connections, c, w)
      else if is_negative fd
      then (unknown_error, connections, c, w1)
      else if not unblocked
      then (unknown_error, connections, c, close_socket fd w2)
      else if not registered
      then (epoll_register_failed, connections, c, close_socket fd w3)
      else if not updated
      then (epoll_register_failed, connections, c, close_socket fd w4)
      else (ok, connections', record c { peer_socket_id = fd }, w5)
