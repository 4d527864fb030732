-- ===== src/Server/Tunnel/Pipelined.antt =====
-- What comes behind a request in the same read.
use proxy_server_sa.Base.{
  ℕ, Bool, ◌<◌, ◌≡◌, ◌≢◌, ◌⊎◌, inl, inr, refl, sym, subst, ◌∙◌, true, false, not, ◌&&◌, none, some,
  List, [], ◌∷◌, ◌++◌, All, length, bit_or, if_both, Returns, Returns-bind, Returns-map,
}
use proxy_server_sa.Base.Int.{ℤ, minus_one, ◌==ℤ◌, ==ℤ_refl}
use proxy_server_sa.Base.Map.{find, update, find-updated, find-passed}
use proxy_server_sa.Net.{
  Network, has_flag, event_readable, event_writable, event_error, event_hangup, event_other,
}
use proxy_server_sa.Net.Laws.{Descriptors, Supply, Streams, Apart}
use proxy_server_sa.Connection.{Connection, ConnectionMap, client, new_connection}
use proxy_server_sa.Connection.Held.{Held}
use proxy_server_sa.Connection.Streaming.{AllThere, write-Gave}
use proxy_server_sa.Socks4.Request.{NonZero}
use proxy_server_sa.Server.{Server, Flow, Turn}
use proxy_server_sa.Server.Steps.{
  on_event_readable, on_event_writable, if_readable, if_writable, end_turn, on_connection,
}
use proxy_server_sa.Server.Loop.{find_connection, on_event}
use proxy_server_sa.Server.Tunnel.Batches.{Endless}
use proxy_server_sa.Server.Tunnel.Made.{new_upstream}
use proxy_server_sa.Server.Tunnel.Opening.{asked, Fits, asked, whole, unlinked, readable_opens}

-- In the map the connection at `fd` has `rest` unread, and its peer, if it has one, has nothing to
-- send.
abbrev pub Unsent : ℤ → List ℕ → ConnectionMap → Type 0
Unsent fd rest m =
    (x : Connection) × (find fd m ≡ some x)
    × (x.receive_buffer ≡ rest)
    × ((x.peer_socket_id ≡ minus_one)
        ⊎ ((y : Connection) × (find x.peer_socket_id m ≡ some y) × (y.send_buffer ≡ [])))

module _ (net : Network) (d : Descriptors net) (sup : Supply net) (st : Streams net)
    (apart : Apart net st) (others : ℤ → Bool) where
  open net use {World}
  open st use {pending}

  module _ (hi lo a1 a2 a3 a4 : ℕ) (user rest : List ℕ) (fd : ℤ) (m : ConnectionMap)
      (c : Connection) where
    -- The same of a turn, before it is written back.
    abbrev Waiting : Turn × World → Type 0
    Waiting (t, w) =
        (t.connection.receive_buffer ≡ rest)
        × (((t.connections ≡ m) × (t.connection.peer_socket_id ≡ minus_one))
            ⊎ ((u : ℤ) × (y : Connection) × (y.send_buffer ≡ [])
                × (t.connections ≡ (u, y) ∷ m)
                × (t.connection.peer_socket_id ≡ u)
                × ((fd ==ℤ u) ≡ false)
                × ((u ==ℤ fd) ≡ false)))

    served_waits :
        (poller : ℤ) (w1 : World) (t : Turn × World)
        → c.peer_socket_id ≡ minus_one
        → Fits net d sup st apart others hi lo a1 a2 a3 a4 user rest fd m c poller w1 t
        → Waiting t
    unfolding new_connection
    served_waits poller w1 (t, w) link (inl (good, u, map', c', e)) = (
      rw c' refl,
      inr (
        u,
        new_upstream u (asked net d sup st apart others hi lo a1 a2 a3 a4 user rest fd m c),
        refl,
        map',
        rw c' refl,
        e.self_apart,
        e.peer_apart,
      ),
    )
    served_waits poller w1 (t, w) link (inr (bad, map', c')) = (rw c' refl, inl (map', rw c' link))

    write_waits :
        (mask : ℕ) (poller : ℤ) (t : Turn × World)
        → Waiting t
        → Returns Waiting (if_writable net mask poller fd t)
    unfolding if_writable on_event_writable
    write_waits mask poller (t, w) k =
        let g = write-Gave net st apart t.connection w in
        if_both (Returns Waiting) (not t.over && has_flag mask event_writable) (rw g.writes k) k

    ended_waits :
        (s : Server) (t : Turn × World)
        → find fd m ≡ some c
        → Waiting t
        → Unsent fd rest (end_turn net s fd t).0.connections
    unfolding end_turn find
    ended_waits s (t, w) f (unread, inl (map', alone)) =
        (t.connection, rw map' (find-updated fd c t.connection m f), unread, inl alone)
    ended_waits s (t, w) f (unread, inr (u, y, empty, map', link, n, n')) = (
      t.connection,
      rw map' (find-updated fd c t.connection ((u, y) ∷ m) (rw n f)),
      unread,
      inr (
        y,
        subst (λ j. find j (update fd t.connection t.connections) ≡ some y) (sym link)
            (rw map' (find-passed u fd t.connection ((u, y) ∷ m) n' ∙ rw (==ℤ_refl u) refl)),
        empty,
      ),
    )

    -- The client and the event as in `event_opens_tunnel`, except that the event may report the
    -- client as writable too: what comes behind the request is not sent on in
    -- the whole turn, from the read to the write. When the event has been served, the client stands
    -- in the map with exactly these bytes in its receive buffer, and it either has no peer, or a peer
    -- in the map that has nothing to send.
    pub pipelined_bytes_stay :
        (fuel : ℕ) (socket poller : ℤ) (mask : ℕ) (w : World)
        → Held net d others m w
        → find fd m ≡ some c
        → c.id ≡ fd
        → c.role ≡ client
        → c.closed ≡ false
        → c.protocol ≡ none
        → c.peer_socket_id ≡ minus_one
        → c.receive_buffer ++ pending w fd
          ≡ whole net d sup st apart others hi lo a1 a2 a3 a4 user rest fd m c
        → ¬ ((a1 ≡ 0) × (a2 ≡ 0) × (a3 ≡ 0) × (a4 ≢ 0))
        → All NonZero user
        → hi < 256
        → lo < 256
        → (fd ==ℤ socket) ≡ false
        → has_flag mask (bit_or (bit_or event_error event_hangup) event_other) ≡ false
        → has_flag mask event_readable ≡ true
        → AllThere net st fd
        → Endless net st apart fd
        → length (pending w fd) < fuel
        → sup.supply w < fuel
        → Returns
            (λ (r : Server × World × Flow). Unsent fd rest r.0.connections)
            (on_event net fuel
              (record { socket = socket; poller = poller; connections = m })
              (record { fd = fd; mask = mask })
              w)
    unfolding on_event find_connection on_connection if_readable
    pipelined_bytes_stay fuel socket poller mask w h f i r o e link bytes plain u hb lb ne quiet
          readable there endless enough supplied =
        let (w1, reads, first) =
          readable_opens net d sup st apart others hi lo a1 a2 a3 a4 user rest fd m c fuel poller w
            h f i r o e link bytes plain u hb lb there endless enough supplied in
        let s : Server = record { socket = socket; poller = poller; connections = m } in
        let Left : Server × World × Flow → Type 0 = λ q. Unsent fd rest q.0.connections in
        let read : Returns Waiting (on_event_readable net fuel poller fd none m c w) =
          Returns-map (Fits net d sup st apart others hi lo a1 a2 a3 a4 user rest fd m c poller w1)
            Waiting (on_event_readable net fuel poller fd none m c w) first
            (λ t k. served_waits poller w1 t link k) in
        let turn : Returns Left (on_connection net fuel s fd mask c w) =
          rw (unlinked net d sup st apart others hi lo a1 a2 a3 a4 user rest fd m c link, readable)
            (Returns-bind Waiting Left (on_event_readable net fuel poller fd none m c w) _ read
              (λ t k.
                Returns-bind Waiting Left (if_writable net mask poller fd t) _
                  (write_waits mask poller t k) (λ t' k'. ended_waits s t' f k'))) in
        rw (quiet, ne, find_connection, f) turn
