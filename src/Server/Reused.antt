-- ===== src/Server/Reused.antt =====
-- A descriptor number that the kernel gives out again while a link to it is left.
use proxy_server_sa.Base.{
  ℕ, suc, Bool, ◌≡◌, refl, sym, subst, ◌∙◌, ap, true, false, none, some, List, [], ◌∷◌, arith,
  bit_or, Returns,
}
use proxy_server_sa.Base.Int.{ℤ, minus_one, is_negative, ◌==ℤ◌, ==ℤ_refl, ==ℤ_iff, ==ℤ_comm}
use proxy_server_sa.Base.Map.{find, erase, find-erase, find-updated, find-passed}
use proxy_server_sa.Net.{
  Network, has_flag, event_readable, event_writable, event_error, event_hangup, event_other,
}
use proxy_server_sa.Protocol.{Socks4, as_socks4, established}
use proxy_server_sa.Connection.{Connection, ConnectionMap, ok, client, new_connection, read}
use proxy_server_sa.Connection.Accepting.{accept_next, accept_last}
use proxy_server_sa.Connection.Open.{push_back}
use proxy_server_sa.Server.{Server, next_event, erase_connection, resolve_peer, is_ok}
use proxy_server_sa.Server.Steps.{
  on_event_readable, on_read, on_data, finish_data, if_readable, if_writable, end_turn,
  on_connection,
}
use proxy_server_sa.Server.Loop.{
  find_connection, on_event_error, on_new_connections, on_event, on_events,
}
use proxy_server_sa.Server.Relay.{relayed, relay_both_ways}

resolved :
    (kp : ℤ) (m : ConnectionMap) (a n : Connection)
    → find kp m ≡ some n
    → (kp ==ℤ minus_one) ≡ false
    → a.peer_socket_id ≡ kp
    → resolve_peer m a ≡ (a, some kp)
unfolding resolve_peer
resolved kp m a n f valid link = ground arith

not_minus_one : (k : ℤ) → is_negative k ≡ false → (k ==ℤ minus_one) ≡ false
not_minus_one k n = ground (arith, ==ℤ_iff k minus_one)

newest : (k : ℤ) (c : Connection) (m : ConnectionMap) → find k ((k, c) ∷ m) ≡ some c
unfolding find
newest k c m = rw (==ℤ_refl k) refl

-- An entry is left by an erase and by an insertion, both under another number.
kept_client :
    (k j : ℤ) (m : ConnectionMap) (n c : Connection)
    → (j ==ℤ k) ≡ false
    → find k m ≡ some c
    → find k ((j, n) ∷ erase j m) ≡ some c
unfolding find
kept_client k j m n c ne f = ground (arith, find-erase k j m, ==ℤ_comm k j)

module _ (net : Network) where
  open net use {World, accept_connection, set_socket_non_blocking, register_read_event}

  abbrev pub failing : ℕ → Bool
  failing mask = has_flag mask (bit_or (bit_or event_error event_hangup) event_other)

  -- The new client, with bytes to send.
  abbrev pub holder : ℤ → List ℕ → Connection
  holder k bytes = record (new_connection k client) { send_buffer = bytes; want_write = true }

  -- What a readable client with a link to `kp` sends stands with the connection at `kp`.
  event_leaks :
      (fuel : ℕ) (socket poller ka kp : ℤ) (mask : ℕ) (m : ConnectionMap) (a : Connection)
      (p : Socks4) (b : ℕ) (bs : List ℕ) (v v' : World)
      → find ka m ≡ some a
      → find kp m ≡ some (new_connection kp client)
      → (kp ==ℤ ka) ≡ false
      → (kp ==ℤ minus_one) ≡ false
      → (ka ==ℤ socket) ≡ false
      → a.peer_socket_id ≡ kp
      → a.protocol ≡ some (as_socks4 p)
      → p.state ≡ established
      → a.role ≡ client
      → failing mask ≡ false
      → has_flag mask event_readable ≡ true
      → has_flag mask event_writable ≡ false
      → read net fuel a v ≡ some (ok, record a { receive_buffer = b ∷ bs }, v')
      → Returns
          (λ q. find kp q.0.connections ≡ some (holder kp (b ∷ bs)))
          (on_event net fuel
            (record { socket = socket; poller = poller; connections = m })
            (record { fd = ka; mask = mask })
            v)
  unfolding on_event find_connection on_connection if_readable on_event_readable on_read is_ok
      on_data finish_data if_writable end_turn new_connection
  event_leaks fuel socket poller ka kp mask m a p b bs v v' fa fp ne valid ns link proto est role
        quiet readable writable reads =
      let linked : resolve_peer m a ≡ (a, some kp) =
        resolved kp m a (new_connection kp client) fp valid link in
      let sent =
        (relay_both_ways net poller m v' b bs ka kp a (new_connection kp client) p ne fa fp proto
          est (ap (λ k. k ==ℤ minus_one) link ∙ valid)).0 in
      let served =
        subst
          (λ r.
            on_data net r poller ka (some kp) m (record a { receive_buffer = b ∷ bs }) v'
            ≡ some (relayed net poller m v' b bs a kp (new_connection kp client)))
          (sym role) sent in
      rw (quiet, ns, find_connection, fa, linked, readable, reads, served, writable)
        (find-passed kp ka _ _ ne ∙ find-updated kp (new_connection kp client) _ m fp)

  erased :
      (k : ℤ) (m : ConnectionMap) (u : Connection) (w : World)
      → find k m ≡ some u
      → (erase_connection net k m w).0 ≡ erase k m
  unfolding erase_connection
  erased k m u w f = rw (erase_connection, f) refl

  module _ (fuel : ℕ) (socket poller : ℤ) where
    abbrev with_map : ConnectionMap → Server
    with_map m = record { socket = socket; poller = poller; connections = m }

    -- The connection at `kp` is erased, and nothing else of the map changes.
    dropped :
        (kp : ℤ) (mask : ℕ) (m : ConnectionMap) (u : Connection) (w : World)
        → find kp m ≡ some u
        → (kp ==ℤ socket) ≡ false
        → failing mask ≡ true
        → on_event net (suc (suc fuel)) (with_map m) (record { fd = kp; mask = mask }) w
          ≡ some (with_map (erase kp m), (erase_connection net kp m w).1, next_event)
    unfolding on_event on_event_error
    dropped kp mask m u w f ns fails = rw (fails, ns, f, erased kp m u w f) refl

    accepted :
        (kp : ℤ) (mask : ℕ) (m : ConnectionMap) (w w2 w3 w4 : World)
        → find kp m ≡ none
        → is_negative kp ≡ false
        → failing mask ≡ false
        → accept_connection socket w ≡ (kp, w2)
        → set_socket_non_blocking kp w2 ≡ (true, w3)
        → register_read_event poller kp w3 ≡ (true, w4)
        → is_negative (accept_connection socket w4).0 ≡ true
        → on_event net (suc (suc fuel)) (with_map m) (record { fd = socket; mask = mask }) w
          ≡ some (
            with_map ((kp, new_connection kp client) ∷ m),
            (accept_connection socket w4).1,
            next_event,
          )
    unfolding on_event on_new_connections
    accepted kp mask m w w2 w3 w4 f n quiet a u g last =
        rw
          (
            quiet,
            ==ℤ_refl socket,
            on_new_connections,
            accept_next net (suc fuel) socket poller kp m (some []) w w2 w3 w4 f n a u g,
            accept_last net fuel socket poller ((kp, new_connection kp client) ∷ m)
                (push_back (some []) kp) w4 last,
          )
          refl

    -- There is a tunnel of the client `a` under `ka`, whose SOCKS4 protocol is established and whose peer is
    -- the connection under another number `kp`, both in the map, neither number that of the
    -- listening socket. In one batch an error, a hangup or an unknown condition is reported for
    -- `kp`, and the listening socket has a new client. Where the kernel gives the new client the
    -- number `kp`, which is free by then, the socket can be made non-blocking and registered, and no
    -- other client waits, the two events are served; afterwards the link of `a` stands as before.
    -- When then an event reports `a` as readable, not as writable and without errors, and the read
    -- takes some bytes, these bytes, sent by the old client for its upstream connection, are what the
    -- new client has to send, which means to receive.
    pub stale_link_leaks :
        (ka kp : ℤ) (failed readable mask : ℕ) (m : ConnectionMap) (a u : Connection) (p : Socks4)
        (b : ℕ) (bs : List ℕ) (w w2 w3 w4 v v' : World)
        → find ka m ≡ some a
        → find kp m ≡ some u
        → (kp ==ℤ ka) ≡ false
        → (kp ==ℤ socket) ≡ false
        → (ka ==ℤ socket) ≡ false
        → a.peer_socket_id ≡ kp
        → a.protocol ≡ some (as_socks4 p)
        → p.state ≡ established
        → a.role ≡ client
        → failing failed ≡ true
        → failing readable ≡ false
        → is_negative kp ≡ false
        → accept_connection socket (erase_connection net kp m w).1 ≡ (kp, w2)
        → set_socket_non_blocking kp w2 ≡ (true, w3)
        → register_read_event poller kp w3 ≡ (true, w4)
        → is_negative (accept_connection socket w4).0 ≡ true
        → failing mask ≡ false
        → has_flag mask event_readable ≡ true
        → has_flag mask event_writable ≡ false
        → read net (suc (suc fuel)) a v ≡ some (ok, record a { receive_buffer = b ∷ bs }, v')
        → Returns
            (λ r.
              (find ka r.0.connections ≡ some a)
              × Returns
                  (λ q. find kp q.0.connections ≡ some (holder kp (b ∷ bs)))
                  (on_event net (suc (suc fuel)) r.0 (record { fd = ka; mask = mask }) v))
            (on_events net
              (suc (suc fuel))
              (with_map m)
              (record { fd = kp; mask = failed } ∷ record { fd = socket; mask = readable } ∷ [])
              w)
    unfolding on_events
    stale_link_leaks ka kp failed readable mask m a u p b bs w w2 w3 w4 v v' fa fu ne ns na link
          proto est role fails fine n ac un re last quiet rd wr reads =
        let free : find kp (erase kp m) ≡ none = find-erase kp kp m ∙ rw (==ℤ_refl kp) refl in
        let kept : find ka ((kp, new_connection kp client) ∷ erase kp m) ≡ some a =
          kept_client ka kp m (new_connection kp client) a ne fa in
        rw
          (
            dropped kp failed m u w fu ns fails,
            accepted kp readable (erase kp m) (erase_connection net kp m w).1 w2 w3 w4 free n fine
                ac un re last,
          )
          (
            kept,
            event_leaks (suc (suc fuel)) socket poller ka kp mask
                ((kp, new_connection kp client) ∷ erase kp m) a p b bs v v' kept
                (newest kp (new_connection kp client) (erase kp m)) ne (not_minus_one kp n) na link
                proto est role quiet rd wr reads,
          )
