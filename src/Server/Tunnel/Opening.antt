-- ===== src/Server/Tunnel/Opening.antt =====
-- From the event that reports a request to the tunnel in the map.
use proxy_server_sa.Base.{
  ℕ, Bool, ◌<◌, ◌≡◌, ◌≢◌, ◌⊎◌, inl, inr, refl, sym, ap, ◌∙◌, true, false, not, ◌&&◌, none, some,
  List, ◌++◌, append-nil, arith, All, length, bit_or, if_both, Returns, Returns-bind, subst, ◌>>=◌,
  if_cases,
}
use proxy_server_sa.Base.Int.{ℤ, minus_one, ◌==ℤ◌, ==ℤ_refl}
use proxy_server_sa.Base.Map.{find, update}
use proxy_server_sa.Net.{
  Network, has_flag, event_readable, event_writable, event_error, event_hangup, event_other,
}
use proxy_server_sa.Net.Laws.{Descriptors, Supply, Streams, Apart}
use proxy_server_sa.Connection.{Connection, ConnectionMap, ok, client, ConnectionResult, read}
use proxy_server_sa.Connection.Held.{Held, Held-quiet}
use proxy_server_sa.Connection.Streaming.{AllThere, Took, read-Took}
use proxy_server_sa.Socks4.Request.{request, NonZero}
use proxy_server_sa.Server.{Server, Flow, next_event, Turn, resolve_peer, is_ok}
use proxy_server_sa.Server.Quiet.{read_loop_keeps}
use proxy_server_sa.Server.Steps.{
  on_data, on_client_data, finish_data, on_read, on_event_readable, if_readable, if_writable,
  end_turn, on_connection,
}
use proxy_server_sa.Server.Handshake.{replied}
use proxy_server_sa.Server.Loop.{find_connection, on_event}
use proxy_server_sa.Server.Tunnel.{Ends}
use proxy_server_sa.Server.Tunnel.Batches.{Endless}
use proxy_server_sa.Server.Tunnel.Made.{
  new_upstream, Served, request_opens_tunnel, linked_to, attempt,
}

module _ (net : Network) (d : Descriptors net) (sup : Supply net) (st : Streams net)
    (apart : Apart net st) (others : ℤ → Bool) where
  open net use {World}
  open st use {pending}

  -- The machine after a read holds the same descriptors.
  read-Held :
      (fuel : ℕ) (m : ConnectionMap) (c : Connection) (w : World)
      → (t : Took net st apart fuel c w) → sup.supply w < fuel
      → Held net d others m w
      → Held net d others m t.w1
  read-Held fuel m c w t enough h =
      let same = rw t.looped.1 at (read_loop_keeps net d sup fuel c w enough) in
      Held-quiet net d same.2.opens h

  -- All that is there is taken.
  takes_all :
      (fuel : ℕ) (c : Connection) (w : World) (t : Took net st apart fuel c w)
      → AllThere net st c.id
      → pending w c.id ≡ t.got
  takes_all fuel c w t there = t.taken ∙ ap (λ l. t.got ++ l) (t.dry there) ∙ append-nil t.got

  module _ (hi lo a1 a2 a3 a4 : ℕ) (user rest : List ℕ) (fd : ℤ) (m : ConnectionMap)
      (c : Connection) where
    -- The client with its answer and what came behind the request.
    abbrev pub asked : Connection
    asked = replied net hi lo a1 a2 a3 a4 user rest (record c { closed = false })

    abbrev pub connects : ℤ → World → ConnectionResult
    connects poller w1 =
        attempt net d sup others poller m asked hi lo a1 a2 a3 a4
          (net.update_event_interest poller c.id true true w1).1

    abbrev pub Fits : ℤ → World → Turn × net.World → Type 0
    Fits poller w1 t = Served net d sup others fd m asked (connects poller w1) t.0

    -- The map after the event, where the read left the machine `w1`: the two ends of a tunnel if the
    -- upstream connection can be made then, and the client answered and nothing else if it cannot.
    abbrev pub Opened : ℤ → World → Server × net.World × Flow → Type 0
    Opened poller w1 r =
        (r.2 ≡ next_event)
        × (((connects poller w1 ≡ ok)
              × (u : ℤ) × Ends fd u r.0.connections (linked_to u asked) (new_upstream u asked))
            ⊎ ((connects poller w1 ≢ ok) × (r.0.connections ≡ update fd asked m)))

    ended :
        (poller : ℤ) (w1 : World) (s : Server) (t : Turn × World)
        → Fits poller w1 t
        → Opened poller w1 (end_turn net s fd t)
    unfolding end_turn
    ended poller w1 s (t, w) (inl (good, u, map', c', e)) = (refl, inl (good, u, rw (map', c') e))
    ended poller w1 s (t, w) (inr (bad, map', c')) = (refl, inr (bad, rw (map', c') refl))

    -- The client, open, as the read leaves it.
    abbrev pub holding : List ℕ → Connection
    holding l = record c { receive_buffer = l; closed = false }

    abbrev pub whole : List ℕ
    whole = request 4 1 hi lo a1 a2 a3 a4 user ++ rest

    -- The read that has taken a whole request.
    read_opens :
        (poller : ℤ) (w1 : World)
        → Held net d others m w1
        → find fd m ≡ some c
        → c.id ≡ fd
        → c.role ≡ client
        → c.protocol ≡ none
        → c.peer_socket_id ≡ minus_one
        → ¬ ((a1 ≡ 0) × (a2 ≡ 0) × (a3 ≡ 0) × (a4 ≢ 0))
        → All NonZero user
        → hi < 256
        → lo < 256
        → Returns (Fits poller w1) (on_read net poller fd none m (ok, holding whole, w1))
    unfolding on_read is_ok on_data finish_data
    read_opens poller w1 h f i r e link plain u hb lb =
        subst
          (λ role. Returns (Fits poller w1) (
            on_data net role poller fd none m (holding whole) w1 >>= λ t.
            some (finish_data net poller fd none t)))
          (sym r)
          (Returns-bind (Fits poller w1) (Fits poller w1)
            (on_client_data net poller fd none m (holding whole) w1) _
            (request_opens_tunnel net d sup others hi lo a1 a2 a3 a4 user rest
              (record c { closed = false }) poller fd m c w1 h f i r refl e link plain u hb lb)
            (λ t k. if_both (Fits poller w1) t.0.over k k))

    pub unlinked : c.peer_socket_id ≡ minus_one → resolve_peer m c ≡ (c, none)
    unfolding resolve_peer
    unlinked e = ground (arith, ==ℤ_refl minus_one)

    -- The rest of the turn changes nothing, since the event does not report the socket as writable.
    unwritten :
        (mask : ℕ) (poller : ℤ) (w1 : World) (t : Turn × World)
        → has_flag mask event_writable ≡ false
        → Fits poller w1 t
        → Returns (Fits poller w1) (if_writable net mask poller fd t)
    unfolding if_writable
    unwritten mask poller w1 (t, w) h k =
        if_cases (Returns (Fits poller w1)) (not t.over && has_flag mask event_writable)
          (λ x. absurd (ground (arith, x, h))) (λ x. k)

    pub readable_opens :
        (fuel : ℕ) (poller : ℤ) (w : World)
        → Held net d others m w
        → find fd m ≡ some c
        → c.id ≡ fd
        → c.role ≡ client
        → c.closed ≡ false
        → c.protocol ≡ none
        → c.peer_socket_id ≡ minus_one
        → c.receive_buffer ++ pending w fd ≡ whole
        → ¬ ((a1 ≡ 0) × (a2 ≡ 0) × (a3 ≡ 0) × (a4 ≢ 0))
        → All NonZero user
        → hi < 256
        → lo < 256
        → AllThere net st fd
        → Endless net st apart fd
        → length (pending w fd) < fuel
        → sup.supply w < fuel
        → (w1 : World) × (read net fuel c w ≡ some (ok, holding whole, w1))
          × Returns (Fits poller w1) (on_event_readable net fuel poller fd none m c w)
    unfolding on_event_readable
    readable_opens fuel poller w h f i r o e link bytes plain u hb lb there endless enough
          supplied =
        let t = read-Took net st apart fuel c w o (rw i enough) (rw i endless) in
        let got : c.receive_buffer ++ t.got ≡ whole =
          ap (λ l. c.receive_buffer ++ l)
            (sym (takes_all fuel c w t (rw i there)) ∙ ap (pending w) i)
          ∙ bytes in
        let reads : read net fuel c w ≡ some (ok, holding whole, t.w1) =
          t.reads ∙ ap (λ l. some (ok, holding l, t.w1)) got in
        (
          t.w1,
          reads,
          rw reads (
              read_opens poller t.w1 (read-Held fuel m c w t supplied h) f i r e link plain u hb
                lb),
        )

    -- A client in the map, open, without a protocol and without a peer, whose receive buffer and the
    -- bytes that can be received from it make up a whole request of version 4 and command 1, a port of
    -- two bytes and a user without a zero byte, for an address that is not 0.0.0.x with x other than
    -- 0, and whatever follows. Where the process holds exactly the descriptors of the map and some
    -- others, the bytes are there already, the stream goes on and the fuel exceeds them and the supply,
    -- one event without errors that reports the client readable and not writable is enough: the read
    -- takes all of it, the loop goes on, and if the upstream connection can be made on the machine as
    -- the read and the new event interest leave it, the client and a new, empty upstream connection
    -- are in the map as the two ends of an established tunnel; if it cannot, and only then, the client
    -- has the granted reply to send and nothing else in the map has changed.
    pub event_opens_tunnel :
        (fuel : ℕ) (socket poller : ℤ) (mask : ℕ) (w : World)
        → Held net d others m w
        → find fd m ≡ some c
        → c.id ≡ fd
        → c.role ≡ client
        → c.closed ≡ false
        → c.protocol ≡ none
        → c.peer_socket_id ≡ minus_one
        → c.receive_buffer ++ pending w fd ≡ whole
        → ¬ ((a1 ≡ 0) × (a2 ≡ 0) × (a3 ≡ 0) × (a4 ≢ 0))
        → All NonZero user
        → hi < 256
        → lo < 256
        → (fd ==ℤ socket) ≡ false
        → has_flag mask (bit_or (bit_or event_error event_hangup) event_other) ≡ false
        → has_flag mask event_readable ≡ true
        → has_flag mask event_writable ≡ false
        → AllThere net st fd
        → Endless net st apart fd
        → length (pending w fd) < fuel
        → sup.supply w < fuel
        → (w1 : World) × (read net fuel c w ≡ some (ok, holding whole, w1))
          × Returns (Opened poller w1) (
              on_event net fuel
                (record { socket = socket; poller = poller; connections = m })
                (record { fd = fd; mask = mask })
                w)
    unfolding on_event find_connection on_connection if_readable
    event_opens_tunnel fuel socket poller mask w h f i r o e link bytes plain u hb lb ne quiet
          readable writable there endless enough supplied =
        let (w1, reads, first) =
          readable_opens fuel poller w h f i r o e link bytes plain u hb lb there endless enough
            supplied in
        let s : Server = record { socket = socket; poller = poller; connections = m } in
        let turn : Returns (Opened poller w1) (on_connection net fuel s fd mask c w) =
          rw (unlinked link, readable)
            (Returns-bind (Fits poller w1) (Opened poller w1)
              (on_event_readable net fuel poller fd none m c w) _ first
              (λ q k.
                Returns-bind (Fits poller w1) (Opened poller w1) (if_writable net mask poller fd q)
                  _ (unwritten mask poller w1 q writable k) (λ q' k'. ended poller w1 s q' k'))) in
        (w1, reads, rw (quiet, ne, find_connection, f) turn)
