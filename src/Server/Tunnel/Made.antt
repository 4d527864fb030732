-- ===== src/Server/Tunnel/Made.antt =====
-- How a tunnel comes about: a request that is served links the client with a new upstream connection.
use proxy_server_sa.Connection.Open.{create_upstream_tcp_connection}
use proxy_server_sa.Base.{
  ℕ, ◌+◌, ◌*◌, ◌<◌, ◌≡◌, ◌≢◌, ◌⊎◌, inl, inr, refl, ◌∙◌, Bool, true, false, none, some, List, [],
  ◌∷◌, ◌++◌, arith, All, Returns,
}
use proxy_server_sa.Base.Int.{ℤ, minus_one, is_negative, ◌==ℤ◌, ==ℤ_refl, ==ℤ_comm, ==ℤ_iff}
use proxy_server_sa.Base.Map.{find, update, find-updated, find-passed, has_of_find, All-find}
use proxy_server_sa.Net.{Network}
use proxy_server_sa.Net.Laws.{Descriptors, Supply}
use proxy_server_sa.Protocol.{Socks4, as_socks4, established}
use proxy_server_sa.Connection.{
  Connection, ConnectionMap, client, upstream, new_connection, ConnectionResult, ok,
}
use proxy_server_sa.Connection.Held.{Held, IsOwn, Held-quiet}
use proxy_server_sa.Connection.Opening.{create_upstream_links}
use proxy_server_sa.Socks4.Request.{request, NonZero}
use proxy_server_sa.Server.{Turn}
use proxy_server_sa.Server.Steps.{on_client_data}
use proxy_server_sa.Server.Handshake.{replied, on_client_data-request}
use proxy_server_sa.Server.Tunnel.{Ends}

named : (k : ℤ) → is_negative k ≡ false → (k ==ℤ minus_one) ≡ false
named k n = ground (arith, ==ℤ_iff k minus_one)

abbrev pub linked_to : ℤ → Connection → Connection
linked_to u c = record c { peer_socket_id = u }

abbrev pub new_upstream : ℤ → Connection → Connection
new_upstream u c = record (new_connection u upstream) { peer_socket_id = c.id }

module _ (net : Network) (d : Descriptors net) (sup : Supply net) (others : ℤ → Bool) where
  open net use {World, update_event_interest}
  open d use {is_open, update_keeps}

  -- The two connections that have just been linked are the ends of a tunnel.
  linked-Ends :
      (fd u : ℤ) (m : ConnectionMap) (c0 c : Connection) (p : Socks4) (w w' : World)
      → Held net d others m w
      → Held net d others ((u, new_upstream u c) ∷ m) w'
      → find fd m ≡ some c0
      → is_open w u ≡ false
      → c.id ≡ fd
      → c.role ≡ client
      → c.closed ≡ false
      → c.protocol ≡ some (as_socks4 p)
      → p.state ≡ established
      → Ends fd u
          (update fd (linked_to u c) ((u, new_upstream u c) ∷ m))
          (linked_to u c)
          (new_upstream u c)
  unfolding new_connection find
  linked-Ends fd u m c0 c p w w' h h' f fresh i r o e s =
      let all : ConnectionMap = (u, new_upstream u c) ∷ m in
      let apart : (u ==ℤ fd) ≡ false =
        ground (arith, ==ℤ_iff u fd, h.exact fd, h.exact u, has_of_find fd c0 m f) in
      let apart' : (fd ==ℤ u) ≡ false = ==ℤ_comm fd u ∙ apart in
      record {
        at_self = find-updated fd c0 (linked_to u c) all (rw apart' f);
        at_peer = find-passed u fd (linked_to u c) all apart ∙ rw (==ℤ_refl u) refl;
        self_id = i;
        peer_id = refl;
        link = refl;
        back = i;
        open_self = o;
        open_peer = refl;
        self_apart = apart';
        peer_apart = apart;
        self_named = named fd (All-find IsOwn fd c0 m h.own f).1;
        peer_named = named u h'.own.0.1;
        protocol = p;
        is_established = s;
        self_speaks = rw (r, e) refl;
        peer_speaks = e;
      }

  -- What the attempt to connect to where the request leads comes to, on the machine `v`.
  abbrev pub attempt :
      ℤ → ConnectionMap → Connection → ℕ → ℕ → ℕ → ℕ → ℕ → ℕ → World → ConnectionResult
  attempt poller m asked hi lo a1 a2 a3 a4 v =
      (create_upstream_tcp_connection net poller m asked (a1 ∷ a2 ∷ a3 ∷ a4 ∷ []) (hi * 256 + lo)
        v).0

  -- What a turn leaves: where the attempt succeeds, the client linked with a new connection, the two
  -- ends of a tunnel; where it fails, the client answered, without a peer, in a map that is as it was.
  abbrev pub Served : ℤ → ConnectionMap → Connection → ConnectionResult → Turn → Type 0
  Served fd m asked result t =
      ((result ≡ ok)
        × (u : ℤ) × (t.connections ≡ (u, new_upstream u asked) ∷ m)
        × (t.connection ≡ linked_to u asked)
        × Ends fd u (update fd (linked_to u asked) ((u, new_upstream u asked) ∷ m))
            (linked_to u asked) (new_upstream u asked))
      ⊎ ((result ≢ ok) × (t.connections ≡ m) × (t.connection ≡ asked))

  module _ (hi lo a1 a2 a3 a4 : ℕ) (user rest : List ℕ) (c : Connection) where
    abbrev answered : Connection
    answered = replied net hi lo a1 a2 a3 a4 user rest c

    -- A client in the map, without a protocol and without a peer and not marked as closed, whose
    -- receive buffer begins with a whole request of version 4 and command 1, a port of two bytes and
    -- a user without a zero byte, for an address that is not 0.0.0.x with x other than 0, is served in
    -- one turn, while the process holds exactly the descriptors of the map and some others: where the
    -- upstream connection can be made, once the turn is written back, the client and that connection
    -- are the two ends of an established tunnel; where it cannot, the map is as before and the client,
    -- with the granted reply to send, has still no peer.
    pub request_opens_tunnel :
        (poller fd : ℤ) (m : ConnectionMap) (c0 : Connection) (w : World)
        → Held net d others m w
        → find fd m ≡ some c0
        → c.id ≡ fd
        → c.role ≡ client
        → c.closed ≡ false
        → c.protocol ≡ none
        → c.peer_socket_id ≡ minus_one
        → ¬ ((a1 ≡ 0) × (a2 ≡ 0) × (a3 ≡ 0) × (a4 ≢ 0))
        → All NonZero user
        → hi < 256
        → lo < 256
        → Returns
            (λ (t : Turn × World).
              Served fd m answered
                (attempt poller m answered hi lo a1 a2 a3 a4
                  (update_event_interest poller c.id true true w).1)
                t.0)
            (on_client_data net poller fd none m
              (record c { receive_buffer = request 4 1 hi lo a1 a2 a3 a4 user ++ rest })
              w)
    request_opens_tunnel poller fd m c0 w h f i r o e link plain u hb lb =
        let w1 = (update_event_interest poller c.id true true w).1 in
        let h1 : Held net d others m w1 =
          Held-quiet net d (λ k. update_keeps poller c.id true true w k) h in
        let (h', linked) =
          create_upstream_links net d sup others poller m answered w1 (a1 ∷ a2 ∷ a3 ∷ a4 ∷ [])
            (hi * 256 + lo) h1 link in
        rw
          (on_client_data-request net hi lo a1 a2 a3 a4 user rest c poller fd m w e link plain u hb
            lb)
          (elim linked [
            | inl (good, v, fresh, map', c') ↦ inl (
              good,
              v,
              map',
              c',
              linked-Ends fd v m c0 answered _ w1 _ h1 (rw map' at h') f fresh i r o refl refl,
            )
            | inr (bad, map', c') ↦ inr (bad, map', c')
          ])
