-- ===== src/Server/Reading.antt =====
-- Reading and writing on one connection keep the descriptors in order.
use proxy_server_sa.Base.{
  ℕ, ◌≤◌, ◌<◌, ◌≡◌, refl, ap, subst, ◌∙◌, Bool, true, false, not, ◌&&◌, Option, some, arith,
  Returns, Returns-bind, if_both,
}
use proxy_server_sa.Base.Int.{ℤ, minus_one, is_negative, ==ℤ_iff}
use proxy_server_sa.Base.Map.{
  find, erase, update, has_of_find, find-update, erase-update, has-erase, All-find,
}
use proxy_server_sa.Net.{Network, has_flag, event_readable, event_writable}
use proxy_server_sa.Net.Laws.{Descriptors, Supply}
use proxy_server_sa.Connection.{
  Connection, ConnectionMap, read_loop, read, after_read, write, close, destroy,
}
use proxy_server_sa.Connection.Held.{Held, IsOwn, Held-quiet, Held-erased, close_own}
use proxy_server_sa.Socks4.{Peer, null, itself, other}
use proxy_server_sa.Server.{Turn, peer_value, erase_connection}
use proxy_server_sa.Server.Quiet.{
  Quiet, Quiet-trans, update-Quiet, SameSocket, SameSocketAfter, write_keeps, read_loop_keeps,
}
use proxy_server_sa.Server.Steps.{
  on_data, update_interests, finish_data, drop_failed, on_read, on_event_readable,
  on_event_writable, if_writable, if_readable,
}
use proxy_server_sa.Server.Serving.{TurnOk, on_data_ok}

module _ (net : Network) (d : Descriptors net) (sup : Supply net) (others : ℤ → Bool) where
  open net use {World, update_event_interest, close_socket}
  open sup use {supply, close_bounded}

  destroy_closed : (c : Connection) (w : World) → is_negative c.id ≡ true → destroy net c w ≡ w
  unfolding destroy
  destroy_closed c w e = ground arith

  close_open :
      (c : Connection) (w : World)
      → is_negative c.id ≡ false
      → close net c w ≡ (record c { id = minus_one; closed = true }, close_socket c.id w)
  unfolding close
  close_open c w e = ground arith

  -- Dropping a connection whose socket is closed already closes nothing.
  erase_closed :
      (fd : ℤ) (m : ConnectionMap) (c0 c : Connection) (w : World)
      → find fd m ≡ some c0
      → is_negative c.id ≡ true
      → erase_connection net fd (update fd c m) w ≡ (erase fd m, w)
  unfolding erase_connection
  erase_closed fd m c0 c w f e =
      let there : find fd (update fd c m) ≡ some c =
        ground (arith, find-update fd fd c m, has_of_find fd c0 m f, ==ℤ_iff fd fd) in
      rw (there, erase_connection) (cc (erase-update fd c m, destroy_closed c w e))

  module _ (n : ℕ) (poller fd : ℤ) (peer : Option ℤ) where
    abbrev Kept : Turn × World → Type 0
    Kept = TurnOk net d sup others n poller fd peer

    update_interests-Quiet :
        (t : Turn) (w : World) → Quiet net d sup w (update_interests net poller fd peer t w)
    unfolding update_interests
    update_interests-Quiet t w = by_peer (peer_value t.connections fd peer) refl
      where
        w1 : World
        w1 = (update_event_interest poller fd true t.connection.want_write w).1

        first : Quiet net d sup w w1
        first = update-Quiet net d sup poller fd true t.connection.want_write w

        by_peer :
            (q : Peer)
            → peer_value t.connections fd peer ≡ q
            → Quiet net d sup w (update_interests net poller fd peer t w)
        by_peer null x = rw (x, update_interests) first
        by_peer itself x =
            rw (x, update_interests)
              (Quiet-trans net d sup first (update-Quiet net d sup poller _ true _ w1))
        by_peer (other p) x =
            rw (x, update_interests)
              (Quiet-trans net d sup first (update-Quiet net d sup poller p.id true _ w1))

    finish_data_ok : (r : Turn × World) → Kept r → Kept (finish_data net poller fd peer r)
    unfolding finish_data
    finish_data_ok (t, w) k =
        let q = update_interests-Quiet t w in
        if_both Kept t.over k (record {
          held = Held-quiet net d q.opens k.held;
          own = k.own;
          bound = omega (arith, q.bound, k.bound);
        })

    -- The read found the end of the stream and has closed the socket: the entry `c0` is dropped.
    dropped_ok :
        (m : ConnectionMap) (c0 c1 : Connection) (w : World)
        → Held net d others m w
        → find fd m ≡ some c0
        → c1.id ≡ fd
        → supply w ≤ n
        → Kept
            (drop_failed net fd m (record c1 { id = minus_one; closed = true }) (close_socket fd w))
    unfolding drop_failed
    dropped_ok m c0 c1 w h f e b =
        let (own0, nonneg) = All-find IsOwn fd c0 m h.own f in
        let closes : destroy net c0 w ≡ close_socket fd w =
          close_own net d c0 w (rw own0 nonneg) ∙ ap (λ k. close_socket k w) own0 in
        rw (erase_closed fd m c0 (record c1 { id = minus_one; closed = true }) _ f refl) (record {
          held = subst (Held net d others (erase fd m)) closes (Held-erased net d fd c0 f h);
          own = λ x. ground (arith, has-erase fd fd m, ==ℤ_iff fd fd);
          bound = omega (arith, close_bounded fd w);
        })

    on_read_ok :
        (m : ConnectionMap) (c0 c1 : Connection) (w : World)
        → Held net d others m w
        → find fd m ≡ some c0
        → c1.id ≡ fd
        → supply w ≤ n
        → Returns Kept (on_read net poller fd peer m (after_read net (c1, w)))
    unfolding after_read on_read
    on_read_ok m c0 c1 w h f e b =
        let nonneg : is_negative c1.id ≡ false = rw e (All-find IsOwn fd c0 m h.own f).1 in
        if_both (λ r. Returns Kept (on_read net poller fd peer m r)) c1.closed
          (rw (close_open c1 w nonneg, e) (dropped_ok m c0 c1 w h f e b))
          (Returns-bind Kept Kept (on_data net c1.role poller fd peer m c1 w)
            (λ t. some (finish_data net poller fd peer t))
            (on_data_ok net d sup others n poller fd peer m w h b c1.role c1 e) finish_data_ok)

    on_event_readable_ok :
        (fuel : ℕ) (m : ConnectionMap) (c0 c : Connection) (w : World)
        → Held net d others m w
        → find fd m ≡ some c0
        → c.id ≡ fd
        → supply w ≤ n
        → supply w < fuel
        → Returns Kept (on_event_readable net fuel poller fd peer m c w)
    unfolding on_event_readable read
    on_event_readable_ok fuel m c0 c w h f e b enough =
        Returns-bind (λ r. Returns Kept (on_read net poller fd peer m r)) Kept (read net fuel c w)
          (on_read net poller fd peer m)
          (Returns-bind (SameSocket net d sup c w)
            (λ r. Returns Kept (on_read net poller fd peer m r)) (read_loop net fuel c w) _
            (read_loop_keeps net d sup fuel c w enough)
            (λ r q.
              on_read_ok m c0 r.0 r.1 (Held-quiet net d q.2.opens h) f (q.0 ∙ e)
                (omega (arith, q.2.bound))))
          (λ r k. k)

    pub if_readable_ok :
        (fuel mask : ℕ) (m : ConnectionMap) (c0 c : Connection) (w : World)
        → Held net d others m w
        → find fd m ≡ some c0
        → c.id ≡ fd
        → supply w ≤ n
        → supply w < fuel
        → Returns Kept (if_readable net fuel mask poller fd peer m c w)
    unfolding if_readable
    if_readable_ok fuel mask m c0 c w h f e b enough =
        if_both (Returns Kept) (has_flag mask event_readable)
          (on_event_readable_ok fuel m c0 c w h f e b enough)
          (record { held = h; own = λ _. e; bound = b })

    pub if_writable_ok :
        (mask : ℕ) (r : Turn × World) → Kept r → Returns Kept (if_writable net mask poller fd r)
    unfolding if_writable on_event_writable
    if_writable_ok mask (t, w) k =
        if_both (Returns Kept) (not t.over && has_flag mask event_writable)
          (Returns-bind (SameSocketAfter net d sup t.connection w) Kept (write net t.connection w) _
            (write_keeps net d sup t.connection w)
            (λ r q.
              let u = update-Quiet net d sup poller fd true r.1.want_write r.2 in
              record {
                held = Held-quiet net d u.opens (Held-quiet net d q.2.opens k.held);
                own = λ x. q.0 ∙ k.own x;
                bound = omega (arith, u.bound, q.2.bound, k.bound);
              }))
          k
