-- ===== src/Server/Serving.antt =====
-- The turn of a connection that has brought bytes keeps the descriptors in order.
use proxy_server_sa.Base.{
  ℕ, ◌≤◌, ◌≡◌, refl, sym, subst, ◌∙◌, inl, inr, Bool, true, false, ◌&&◌, Option, none, some, arith,
  Returns, Returns-bind, Bool-cases, Option-cases, All,
}
use proxy_server_sa.Base.Int.{ℤ, minus_one, is_negative, ◌==ℤ◌, ==ℤ_iff}
use proxy_server_sa.Base.Map.{find, has, All-find}
use proxy_server_sa.Net.{Network}
use proxy_server_sa.Net.Laws.{Descriptors, Supply}
use proxy_server_sa.Protocol.{Protocol, as_socks4, as_socks5, Socks4}
use proxy_server_sa.Connection.{
  Connection, ConnectionMap, ConnectionRole, client, upstream, set_protocol, write,
}
use proxy_server_sa.Connection.Held.{Held, IsOwn, Held-quiet, Held-updated}
use proxy_server_sa.Connection.Opening.{
  create_upstream_links, create_upstream_bounded, create_upstream_id,
}
use proxy_server_sa.Socks4.{Peer, null, itself, other, on_readable}
use proxy_server_sa.Server.{
  Turn, health_response, peer_value, store_peer, is_established, peer_protocol, set_peer_protocol,
}
use proxy_server_sa.Server.Quiet.{
  peer_id, Quiet, Quiet-refl, Quiet-trans, update-Quiet, KeepsIds, on_readable_keeps,
  SameSocketAfter, write_keeps,
}
use proxy_server_sa.Server.Steps.{
  serve_socks4, serve_other, serve, unknown_client, serve_if_known, on_client_data, forward_by,
  on_upstream_data, on_data,
}

-- A pointer to a peer that is found under `k` leads to the socket `k`.
peer_value_id :
    (m : ConnectionMap) (fd k q : ℤ)
    → All IsOwn m
    → peer_id (peer_value m fd (some k)) ≡ some q
    → (q ≡ k) × (is_negative k ≡ false)
unfolding peer_value
peer_value_id m fd k q own e = elim (Bool-cases (k ==ℤ fd)) [
  | inl x ↦ ground arith
  | inr x ↦ elim (Option-cases (find k m)) [
    | inl y ↦ ground arith
    | inr (p, y) ↦ ground (arith, All-find IsOwn k p m own y)
  ]
]

set_protocol_id : (c : Connection) → (set_protocol c).1.id ≡ c.id
unfolding set_protocol
set_protocol_id c = ground arith

set_peer_protocol_keeps :
    (p : Socks4) (c : Connection) (q : Peer)
    → ((set_peer_protocol p c q).0.id ≡ c.id) × (peer_id (set_peer_protocol p c q).1 ≡ peer_id q)
unfolding set_peer_protocol
set_peer_protocol_keeps p c null = (refl, refl)
set_peer_protocol_keeps p c itself = (refl, refl)
set_peer_protocol_keeps p c (other q) = (refl, refl)

module _ (net : Network) (d : Descriptors net) (sup : Supply net) (others : ℤ → Bool) where
  open net use {World, update_event_interest, close_socket}
  open sup use {supply, close_bounded}

  store_peer-Held :
      (fd : ℤ) (peer : Option ℤ) (m : ConnectionMap) (w : World) (pointed : Peer)
      → Held net d others m w
      → peer_id pointed ≡ peer_id (peer_value m fd peer)
      → Held net d others (store_peer peer pointed m) w
  unfolding store_peer
  store_peer-Held fd none m w pointed h e = h
  store_peer-Held fd (some k) m w null h e = h
  store_peer-Held fd (some k) m w itself h e = h
  store_peer-Held fd (some k) m w (other q) h e =
      let (same, nonneg) = peer_value_id m fd k q.id h.own (sym e) in
      Held-updated net d k q (λ _. same) nonneg h

  module _ (n : ℕ) (poller fd : ℤ) (peer : Option ℤ) where
    pub record TurnOk (r : Turn × World) : Type 0 where
      pub held : Held net d others r.0.connections r.1
      pub own : has fd r.0.connections ≡ true → r.0.connection.id ≡ fd
      pub bound : supply r.1 ≤ n

    -- From here on `m` and `w` are in order and `c` is the connection of the turn.
    module _ (m : ConnectionMap) (c : Connection) (w : World) (h : Held net d others m w)
        (e : c.id ≡ fd) (b : supply w ≤ n) where
      serve_socks4_ok : (p : Socks4) → TurnOk (serve_socks4 net poller fd peer p m c w)
      unfolding serve_socks4
      serve_socks4_ok p = elim (Bool-cases test) [
        | inr no_link ↦
            rw (no_link, serve_socks4)
              (record { held = h1; own = λ _. k.self_id ∙ e; bound = omega (arith, k.quiet.bound) })
        | inl link ↦
            let (held, outcome) =
              create_upstream_links net d sup others poller m1 c2 r.3 r.0.destination_ip
                r.0.destination_port h1 (ground (arith, ==ℤ_iff c2.peer_socket_id minus_one)) in
            rw (link, serve_socks4)
              (record {
                held = held;
                own = λ _.
                    create_upstream_id net d sup poller m1 c2 r.0.destination_ip
                      r.0.destination_port r.3
                    ∙ k.self_id
                    ∙ e;
                bound = omega (
                  arith,
                  k.quiet.bound,
                  create_upstream_bounded net d sup poller m1 c2 r.0.destination_ip
                      r.0.destination_port r.3,
                );
              })
      ]
        where
          pointed : Peer
          pointed = peer_value m fd peer

          r : Socks4 × Connection × Peer × World
          r = on_readable net p c pointed poller w

          k : KeepsIds net d sup c pointed w r
          k = on_readable_keeps net d sup p c pointed poller w

          c2 : Connection
          c2 = record (r.1) { protocol = some (as_socks4 r.0) }

          m1 : ConnectionMap
          m1 = store_peer peer r.2 m

          test : Bool
          test = (c2.peer_socket_id ==ℤ minus_one) && is_established r.0.state

          h1 : Held net d others m1 r.3
          h1 = store_peer-Held fd peer m r.3 r.2 (Held-quiet net d k.quiet.opens h) k.other_id

      Quiet-ok :
          {t : Turn} {w' : World}
          → t.connections ≡ m
          → t.connection.id ≡ fd
          → Quiet net d sup w w'
          → TurnOk (t, w')
      Quiet-ok {t} {w'} same id q = record {
        held = subst (λ x. Held net d others x w') (sym same) (Held-quiet net d q.opens h);
        own = λ _. id;
        bound = omega (arith, q.bound);
      }

      serve_other_ok : Returns TurnOk (serve_other net poller fd m c w)
      unfolding serve_other
      serve_other_ok =
          Returns-bind (SameSocketAfter net d sup (health_response c) w) TurnOk
            (write net (health_response c) w) _ (write_keeps net d sup (health_response c) w)
            (λ r p.
              Quiet-ok refl (p.0 ∙ e)
                (Quiet-trans net d sup p.2 (update-Quiet net d sup poller fd true true r.2)))

      serve_ok : (p : Protocol) → Returns TurnOk (serve net poller fd peer p m c w)
      unfolding serve
      serve_ok (as_socks4 p) = serve_socks4_ok p
      serve_ok (as_socks5 p) = serve_other_ok

      unknown_client_ok : Returns TurnOk (unknown_client net poller fd m c w)
      unfolding unknown_client
      unknown_client_ok = Quiet-ok refl e (update-Quiet net d sup poller fd true true w)

      serve_if_known_ok :
          (known : Bool) (found : Option Protocol)
          → Returns TurnOk (serve_if_known net poller fd peer known found m c w)
      unfolding serve_if_known
      serve_if_known_ok false found = unknown_client_ok
      serve_if_known_ok true none = unknown_client_ok
      serve_if_known_ok true (some p) = serve_ok p

      forward_by_ok :
          (found : Option Protocol)
          → TurnOk (forward_by net poller peer (peer_value m fd peer) found m c w)
      unfolding forward_by
      forward_by_ok none = Quiet-ok refl e (Quiet-refl net d sup w)
      forward_by_ok (some (as_socks5 p)) = Quiet-ok refl e (Quiet-refl net d sup w)
      forward_by_ok (some (as_socks4 p)) = record {
        held =
            store_peer-Held fd peer m r.3 after.1 (Held-quiet net d k.quiet.opens h)
              (kept.1 ∙ k.other_id);
        own = λ _. kept.0 ∙ k.self_id ∙ e;
        bound = omega (arith, k.quiet.bound);
      }
        where
          r : Socks4 × Connection × Peer × World
          r = on_readable net p c (peer_value m fd peer) poller w

          k : KeepsIds net d sup c (peer_value m fd peer) w r
          k = on_readable_keeps net d sup p c (peer_value m fd peer) poller w

          after : Connection × Peer
          after = set_peer_protocol r.0 r.1 r.2

          kept : (after.0.id ≡ r.1.id) × (peer_id after.1 ≡ peer_id r.2)
          kept = set_peer_protocol_keeps r.0 r.1 r.2

      on_upstream_data_ok : TurnOk (on_upstream_data net poller fd peer m c w)
      unfolding on_upstream_data
      on_upstream_data_ok = forward_by_ok (peer_protocol c (peer_value m fd peer))

    module _ (m : ConnectionMap) (w : World) (h : Held net d others m w) (b : supply w ≤ n) where
      on_client_data_ok :
          (c : Connection) → c.id ≡ fd → Returns TurnOk (on_client_data net poller fd peer m c w)
      unfolding on_client_data
      on_client_data_ok c e = elim (Option-cases c.protocol) [
        | inr (p, x) ↦ rw (x, on_client_data) (serve_ok m c w h e b p)
        | inl x ↦
            rw (x, on_client_data)
              (serve_if_known_ok m (set_protocol c).1 w h (set_protocol_id c ∙ e) b
                (set_protocol c).0 (set_protocol c).1.protocol)
      ]

      pub on_data_ok :
          (role : ConnectionRole) (c : Connection)
          → c.id ≡ fd
          → Returns TurnOk (on_data net role poller fd peer m c w)
      unfolding on_data
      on_data_ok client c e = on_client_data_ok c e
      on_data_ok upstream c e = on_upstream_data_ok m c w h e b
