-- ===== src/Server/Closing.antt =====
-- What becomes of a tunnel when one side closes.
use proxy_server_sa.Base.{
  ℕ, ◌<◌, ◌≡◌, refl, ◌∙◌, true, false, Option, none, some, ◌++◌, arith, length, Returns,
}
use proxy_server_sa.Base.Int.{ℤ, pos, minus_one, is_negative, is_positive, ◌==ℤ◌, ==ℤ_refl}
use proxy_server_sa.Base.Map.{find, update, find-erase, find-update, has_of_find}
use proxy_server_sa.Net.{Network}
use proxy_server_sa.Net.Laws.{Streams}
use proxy_server_sa.Protocol.{Socks4, as_socks4, established}
use proxy_server_sa.Connection.{Connection, ConnectionMap, peer_closed, k_16kb, read}
use proxy_server_sa.Connection.Open.{create_upstream_tcp_connection}
use proxy_server_sa.Connection.Read.{read_total}
use proxy_server_sa.Socks4.{on_readable, on_readable_in, on_readable_established}
use proxy_server_sa.Server.{
  Turn, going, resolve_peer, peer_value, store_peer, is_established, is_ok, erase_connection,
}
use proxy_server_sa.Server.Steps.{
  serve_socks4, serve, on_client_data, drop_failed, on_read, on_event_readable,
}

module _ (net : Network) where
  open net use {World, receive, close_socket}

  -- The map after a connection that the read has closed is dropped.
  dropped_map :
      (fd k : ℤ) (m : ConnectionMap) (c c' : Connection) (w : World)
      → find fd m ≡ some c
      → (k ==ℤ fd) ≡ false
      → (find fd (erase_connection net fd (update fd c' m) w).0 ≡ none)
        × (find k (erase_connection net fd (update fd c' m) w).0 ≡ find k m)
  unfolding erase_connection
  dropped_map fd k m c c' w f ne =
      let there : find fd (update fd c' m) ≡ some c' =
        ground (arith, find-update fd fd c' m, has_of_find fd c m f, ==ℤ_refl fd) in
      rw (there, erase_connection)
        (
          ground (arith, find-erase fd fd (update fd c' m), ==ℤ_refl fd),
          ground (arith, find-erase k fd (update fd c' m), find-update k fd c' m),
        )

  module _ (st : Streams net) where
    open st use {pending}

    -- A connection whose peer has closed its side, so that a call of `Receive` that brings nothing
    -- reports the end of the stream, is dropped in the turn that reads it, and whatever other
    -- connection there is stays as it was: what the same turn has read is handed to nobody, also
    -- where the connection is an upstream one and its client waits for these bytes.
    pub last_bytes_lost :
        (fuel : ℕ) (poller fd k : ℤ) (peer : Option ℤ) (m : ConnectionMap) (c : Connection)
        (w : World)
        → is_negative c.id ≡ false
        → length (pending w c.id) < fuel
        → ((v : World)
            → is_positive (receive c.id k_16kb v).0 ≡ false
            → (receive c.id k_16kb v).0 ≡ pos 0)
        → find fd m ≡ some c
        → (k ==ℤ fd) ≡ false
        → Returns
            (λ (r : Turn × World).
              (find fd r.0.connections ≡ none) × (find k r.0.connections ≡ find k m))
            (on_event_readable net fuel poller fd peer m c w)
    unfolding on_event_readable on_read is_ok drop_failed
    last_bytes_lost fuel poller fd k peer m c w n enough ends f ne =
        let (d, reads) = read_total net st fuel c w n enough in
        let shut : Connection = record c {
          id = minus_one;
          receive_buffer = c.receive_buffer ++ d.got;
          closed = true;
        } in
        let w' = close_socket c.id (receive c.id k_16kb d.w0).2 in
        let done : read net fuel c w ≡ some (peer_closed, shut, w') =
          reads ∙ rw (ends d.w0 d.ended) refl in
        rw done (dropped_map fd k m c shut w' f ne)

  -- A client in its tunnel whose upstream connection has gone is connected once more to the same
  -- destination as soon as it sends something, and what it has sent stays unread.
  pub reconnects :
      (poller fd : ℤ) (m : ConnectionMap) (c : Connection) (p : Socks4) (w : World)
      → (c.peer_socket_id ==ℤ minus_one) ≡ false
      → find c.peer_socket_id m ≡ none
      → c.protocol ≡ some (as_socks4 p)
      → p.state ≡ established
      → let (c', peer) = resolve_peer m c in
        on_client_data net poller fd peer m c' w ≡ (
          let (_, m', c'', w') =
            create_upstream_tcp_connection net poller m
              (record c { peer_socket_id = minus_one })
              p.destination_ip
              p.destination_port
              w in
          some (going m' c'', w'))
  unfolding resolve_peer on_client_data serve serve_socks4 peer_value store_peer is_established
      on_readable on_readable_in on_readable_established
  reconnects poller fd m c p w link gone e s = rw (link, gone, e, s) refl
