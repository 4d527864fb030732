-- ===== src/Server/Steps.antt =====
-- server/proxy_server.cc, the body of the event loop for one connection: what is done when it is
-- readable and when it is writable.
use proxy_server_sa.Base.{ℕ, Bool, true, false, not, ◌&&◌, Option, none, some, ◌>>=◌, if◌then◌else◌}
use proxy_server_sa.Base.Int.{ℤ, minus_one, ◌==ℤ◌}
use proxy_server_sa.Base.Map.{update}
use proxy_server_sa.Net.{Network, has_flag, event_readable, event_writable}
use proxy_server_sa.Protocol.{Protocol, as_socks4, as_socks5, Socks4}
use proxy_server_sa.Connection.{
  Connection, ConnectionMap, ConnectionResult, ConnectionRole, client, upstream, set_protocol, read,
  write,
}
use proxy_server_sa.Connection.Open.{create_upstream_tcp_connection}
use proxy_server_sa.Socks4.{Peer, null, itself, other, on_readable}
use proxy_server_sa.Server.{
  Server, Flow, next_event, Turn, going, over, health_response, resolve_peer, peer_value,
  store_peer, is_established, peer_protocol, set_peer_protocol, is_ok, erase_connection,
}

module _ (net : Network) where
  open net use {World, update_event_interest}

  -- The client's protocol is SOCKS4: it handles the bytes, and once it is established an upstream
  -- connection is made if there is none.
  unfoldable pub serve_socks4 :
      ℤ → ℤ → Option ℤ → Socks4 → ConnectionMap → Connection → World → Turn × World
  unfolding peer_value store_peer is_established
  serve_socks4 poller fd peer p connections c w =
      let (p', c1, pointed, w1) = on_readable net p c (peer_value connections fd peer) poller w in
      let c2 = record c1 { protocol = some (as_socks4 p') } in
      let connections1 = store_peer peer pointed connections in
      let (r, connections2, c3, w2) =
        create_upstream_tcp_connection net poller connections1 c2 p'.destination_ip
          p'.destination_port w1 in
      if (c2.peer_socket_id ==ℤ minus_one) && is_established p'.state
      then (going connections2 c3, w2)
      else (going connections1 c2, w1)

  -- Any other protocol: its handlers do nothing, and the client gets the health response.
  unfoldable pub serve_other : ℤ → ℤ → ConnectionMap → Connection → World → Option (Turn × World)
  unfolding health_response
  serve_other poller fd connections c w = write net (health_response c) w >>= λ r.
      some (over connections r.1, (update_event_interest poller fd true true r.2).1)

  unfoldable pub serve :
      ℤ → ℤ → Option ℤ → Protocol → ConnectionMap → Connection → World → Option (Turn × World)
  unfolding serve_socks4 serve_other
  serve poller fd peer (as_socks4 p) connections c w =
      some (serve_socks4 poller fd peer p connections c w)
  serve poller fd peer (as_socks5 p) connections c w = serve_other poller fd connections c w

  -- The protocol of the client is not known.
  unfoldable pub unknown_client : ℤ → ℤ → ConnectionMap → Connection → World → Option (Turn × World)
  unfolding health_response
  unknown_client poller fd connections c w =
      some (over connections (health_response c), (update_event_interest poller fd true true w).1)

  -- After `SetProtocol`.
  unfoldable pub serve_if_known :
      ℤ
      → ℤ
      → Option ℤ
      → Bool
      → Option Protocol
      → ConnectionMap
      → Connection
      → World
      → Option (Turn × World)
  unfolding serve unknown_client
  serve_if_known poller fd peer false found connections c w =
      unknown_client poller fd connections c w
  serve_if_known poller fd peer true none connections c w = unknown_client poller fd connections c w
  serve_if_known poller fd peer true (some p) connections c w =
      serve poller fd peer p connections c w

  unfoldable pub on_client_data :
      ℤ → ℤ → Option ℤ → ConnectionMap → Connection → World → Option (Turn × World)
  unfolding serve serve_if_known
  on_client_data poller fd peer connections c w = elim c.protocol [
    | some p ↦ serve poller fd peer p connections c w
    | none ↦
        let (known, c') = set_protocol c in
        serve_if_known poller fd peer known c'.protocol connections c' w
  ]

  -- The client's protocol handles what came from upstream.
  unfoldable pub forward_by :
      ℤ → Option ℤ → Peer → Option Protocol → ConnectionMap → Connection → World → Turn × World
  unfolding store_peer set_peer_protocol
  forward_by poller peer pointed none connections c w = (going connections c, w)
  forward_by poller peer pointed (some (as_socks5 p)) connections c w = (going connections c, w)
  forward_by poller peer pointed (some (as_socks4 p)) connections c w =
      let (p', c1, pointed1, w1) = on_readable net p c pointed poller w in
      let (c2, pointed2) = set_peer_protocol p' c1 pointed1 in
      (going (store_peer peer pointed2 connections) c2, w1)

  unfoldable pub on_upstream_data :
      ℤ → ℤ → Option ℤ → ConnectionMap → Connection → World → Turn × World
  unfolding forward_by peer_value peer_protocol
  on_upstream_data poller fd peer connections c w =
      let pointed = peer_value connections fd peer in
      forward_by poller peer pointed (peer_protocol c pointed) connections c w

  unfoldable pub on_data :
      ConnectionRole → ℤ → ℤ → Option ℤ → ConnectionMap → Connection → World → Option (Turn × World)
  unfolding on_client_data on_upstream_data
  on_data client poller fd peer connections c w = on_client_data poller fd peer connections c w
  on_data upstream poller fd peer connections c w =
      some (on_upstream_data poller fd peer connections c w)

  -- The event interests after a turn, of the connection and of its peer.
  unfoldable pub update_interests : ℤ → ℤ → Option ℤ → Turn → World → World
  unfolding peer_value
  update_interests poller fd peer t w =
      let c = t.connection in
      let w1 = (update_event_interest poller fd true c.want_write w).1 in
      elim (peer_value t.connections fd peer) [
        | null ↦ w1
        | itself ↦ (update_event_interest poller c.id true c.want_write w1).1
        | other p ↦ (update_event_interest poller p.id true p.want_write w1).1
      ]

  unfoldable pub finish_data : ℤ → ℤ → Option ℤ → Turn × World → Turn × World
  unfolding update_interests
  finish_data poller fd peer (t, w) =
      if t.over then (t, w) else (t, update_interests poller fd peer t w)

  -- The read failed: a closed connection is dropped.
  unfoldable pub drop_failed : ℤ → ConnectionMap → Connection → World → Turn × World
  unfolding erase_connection
  drop_failed fd connections c w =
      let (connections', w') = erase_connection net fd (update fd c connections) w in
      if c.closed then (over connections' c, w') else (over connections c, w)

  unfoldable pub on_read :
      ℤ
      → ℤ
      → Option ℤ
      → ConnectionMap
      → ConnectionResult × Connection × World
      → Option (Turn × World)
  unfolding drop_failed on_data finish_data is_ok
  on_read poller fd peer connections (r, c, w) =
      if is_ok r
      then (on_data c.role poller fd peer connections c w >>= λ t.
          some (finish_data poller fd peer t))
      else some (drop_failed fd connections c w)

  -- 2. READABLE
  unfoldable pub on_event_readable :
      ℕ → ℤ → ℤ → Option ℤ → ConnectionMap → Connection → World → Option (Turn × World)
  unfolding on_read
  on_event_readable fuel poller fd peer connections c w =
      read net fuel c w >>= on_read poller fd peer connections

  -- 3. WRITABLE. `OnWritable` does nothing in either protocol.
  unfoldable pub on_event_writable : ℤ → ℤ → Turn × World → Option (Turn × World)
  on_event_writable poller fd (t, w) = write net t.connection w >>= λ r.
      some (going t.connections r.1, (update_event_interest poller fd true r.1.want_write r.2).1)

  unfoldable pub if_writable : ℕ → ℤ → ℤ → Turn × World → Option (Turn × World)
  unfolding on_event_writable
  if_writable mask poller fd (t, w) =
      if not t.over && has_flag mask event_writable
      then on_event_writable poller fd (t, w)
      else some (t, w)

  unfoldable pub if_readable :
      ℕ → ℕ → ℤ → ℤ → Option ℤ → ConnectionMap → Connection → World → Option (Turn × World)
  unfolding on_event_readable
  if_readable fuel mask poller fd peer connections c w =
      if has_flag mask event_readable
      then on_event_readable fuel poller fd peer connections c w
      else some (going connections c, w)

  unfoldable pub end_turn : Server → ℤ → Turn × World → Server × World × Flow
  end_turn s fd (t, w) =
      (record s { connections = update fd t.connection t.connections }, w, next_event)

  -- The turn of the connection `c` at `fd`.
  unfoldable pub on_connection :
      ℕ → Server → ℤ → ℕ → Connection → World → Option (Server × World × Flow)
  unfolding if_readable if_writable end_turn resolve_peer
  on_connection fuel s fd mask c w = do
    let (c1, peer) = resolve_peer s.connections c
    t ← if_readable fuel mask s.poller fd peer s.connections c1 w
    t' ← if_writable mask s.poller fd t
    some (end_turn s fd t')
