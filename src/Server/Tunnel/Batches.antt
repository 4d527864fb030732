-- ===== src/Server/Tunnel/Batches.antt =====
-- The tunnel over a batch of events, as the event loop handles them one after the other.
use proxy_server_sa.Base.{
  ℕ, ◌<◌, ◌≡◌, refl, sym, subst, ◌∙◌, ◌⊎◌, inl, inr, false, List, [], ◌∷◌, arith, length, All,
  bit_or, Returns, Returns-bind, Returns-map,
}
use proxy_server_sa.Base.Int.{ℤ, is_zero, ◌==ℤ◌}
use proxy_server_sa.Net.{Network, PollEvent, has_flag, event_error, event_hangup, event_other}
use proxy_server_sa.Net.Laws.{Streams, Apart}
use proxy_server_sa.Connection.{Connection, k_16kb}
use proxy_server_sa.Server.{Server, Flow}
use proxy_server_sa.Server.Loop.{find_connection, on_event, on_events}
use proxy_server_sa.Server.Tunnel.{Ends, Ends-turned, Conserved, Turned}
use proxy_server_sa.Server.Tunnel.Emptying.{turn-Turned}

-- The event is one of the two sockets', and reports no error.
abbrev pub Within : ℤ → ℤ → PollEvent → Type 0
Within kf kp e =
    (has_flag e.mask (bit_or (bit_or event_error event_hangup) event_other) ≡ false)
    × ((e.fd ≡ kf) ⊎ (e.fd ≡ kp))

module _ (net : Network) (st : Streams net) (apart : Apart net st) where
  open net use {World, receive}
  open st use {pending, sent}

  -- The stream from a socket goes on: no call of `Receive` reports its end.
  abbrev pub Endless : ℤ → Type 0
  Endless k = (v : World) → is_zero (receive k k_16kb v).0 ≡ false

  pub Conserved-turned :
      (kf kp socket : ℤ) (a b : Connection) (w : World) (r : Server × World × Flow)
      → Conserved net st kp kf socket b a w r
      → Conserved net st kf kp socket a b w r
  Conserved-turned kf kp socket a b w r k = record {
    a' = k.b';
    b' = k.a';
    ends = Ends-turned kp kf r.0.connections k.a' k.b' k.ends;
    same_socket = k.same_socket;
    goes_on = k.goes_on;
    out = k.back;
    back = k.out;
    less_self = k.less_peer;
    less_peer = k.less_self;
  }

  pub Conserved-then :
      (kf kp socket : ℤ) (a b : Connection) (w : World) (r r' : Server × World × Flow)
      (k : Conserved net st kf kp socket a b w r)
      → a.id ≡ kf
      → b.id ≡ kp
      → Conserved net st kf kp r.0.socket k.a' k.b' r.1 r'
      → Conserved net st kf kp socket a b w r'
  Conserved-then kf kp socket a b w r r' k i j l =
      let self : k.a'.id ≡ a.id = k.ends.self_id ∙ sym i in
      let peer : k.b'.id ≡ b.id = k.ends.peer_id ∙ sym j in
      record {
        a' = l.a';
        b' = l.b';
        ends = l.ends;
        same_socket = l.same_socket ∙ k.same_socket;
        goes_on = l.goes_on;
        out = l.out ∙ k.out;
        back = l.back ∙ k.back;
        less_self = omega (arith, k.less_self, rw self at l.less_self);
        less_peer = omega (arith, k.less_peer, rw peer at l.less_peer);
      }

  pub turn_event :
      (fuel : ℕ) (s : Server) (kf kp : ℤ) (a b : Connection) (w : World) (mask : ℕ)
      → Ends kf kp s.connections a b
      → (kf ==ℤ s.socket) ≡ false
      → length (pending w kf) < fuel
      → Endless kf
      → has_flag mask (bit_or (bit_or event_error event_hangup) event_other) ≡ false
      → Returns
          (Turned net st mask kf kp s.socket a b w)
          (on_event net fuel s (record { fd = kf; mask = mask }) w)
  unfolding on_event find_connection
  turn_event fuel s kf kp a b w mask ends apart_of enough endless quiet =
      rw (quiet, apart_of, find_connection, ends.at_self)
        (turn-Turned net st apart kf kp s.connections a b w ends mask fuel s.socket s.poller
          (rw ends.self_id enough) (rw ends.self_id endless))

  own_event :
      (fuel : ℕ) (s : Server) (kf kp : ℤ) (a b : Connection) (w : World) (e : PollEvent)
      → Ends kf kp s.connections a b
      → (kf ==ℤ s.socket) ≡ false
      → length (pending w kf) < fuel
      → Endless kf
      → has_flag e.mask (bit_or (bit_or event_error event_hangup) event_other) ≡ false
      → e.fd ≡ kf
      → Returns (Conserved net st kf kp s.socket a b w) (on_event net fuel s e w)
  own_event fuel s kf kp a b w e ends nf lf ef quiet here =
      subst
        (λ k.
          Returns (Conserved net st kf kp s.socket a b w)
            (on_event net fuel s (record { fd = k; mask = e.mask }) w))
        (sym here)
        (Returns-map (Turned net st e.mask kf kp s.socket a b w)
          (Conserved net st kf kp s.socket a b w)
          (on_event net fuel s (record { fd = kf; mask = e.mask }) w)
          (turn_event fuel s kf kp a b w e.mask ends nf lf ef quiet) (λ r k. k.conserved))

  event_conserves :
      (fuel : ℕ) (s : Server) (kf kp : ℤ) (a b : Connection) (w : World) (e : PollEvent)
      → Ends kf kp s.connections a b
      → (kf ==ℤ s.socket) ≡ false
      → (kp ==ℤ s.socket) ≡ false
      → length (pending w kf) < fuel
      → length (pending w kp) < fuel
      → Endless kf
      → Endless kp
      → Within kf kp e
      → Returns (Conserved net st kf kp s.socket a b w) (on_event net fuel s e w)
  event_conserves fuel s kf kp a b w e ends nf np lf lp ef ep (quiet, inl here) =
      own_event fuel s kf kp a b w e ends nf lf ef quiet here
  event_conserves fuel s kf kp a b w e ends nf np lf lp ef ep (quiet, inr here) =
      Returns-map (Conserved net st kp kf s.socket b a w) (Conserved net st kf kp s.socket a b w)
        (on_event net fuel s e w)
        (own_event fuel s kp kf b a w e (Ends-turned kf kp s.connections a b ends) np lp ep quiet
          here)
        (λ r k. Conserved-turned kf kp s.socket a b w r k)

  -- In an established SOCKS4 tunnel between two sockets other than the listening one, a batch of
  -- events of these two without errors, in any order and number, is handled to its end, if there is
  -- more fuel than either has bytes pending and neither stream ends: the loop goes on, both ends stand
  -- in the map, still linked and established, and in each direction the bytes handed over, those that
  -- wait to be sent, those that are read and those that are still to come are together, in order, the
  -- same bytes as before, so that none is lost, added or moved.
  pub tunnel_conserves :
      (fuel : ℕ) (s : Server) (kf kp : ℤ) (a b : Connection) (w : World) (es : List PollEvent)
      → Ends kf kp s.connections a b
      → (kf ==ℤ s.socket) ≡ false
      → (kp ==ℤ s.socket) ≡ false
      → length (pending w kf) < fuel
      → length (pending w kp) < fuel
      → Endless kf
      → Endless kp
      → All (Within kf kp) es
      → Returns (Conserved net st kf kp s.socket a b w) (on_events net fuel s es w)
  unfolding on_events
  tunnel_conserves fuel s kf kp a b w [] ends nf np lf lp ef ep h = record {
    a' = a;
    b' = b;
    ends = ends;
    same_socket = refl;
    goes_on = refl;
    out = refl;
    back = refl;
    less_self = omega arith;
    less_peer = omega arith;
  }
  tunnel_conserves fuel s kf kp a b w (e ∷ es) ends nf np lf lp ef ep (here, later) =
      Returns-bind (Conserved net st kf kp s.socket a b w) (Conserved net st kf kp s.socket a b w)
        (on_event net fuel s e w) _
        (event_conserves fuel s kf kp a b w e ends nf np lf lp ef ep here)
        (λ r k.
          rw (k.goes_on, on_events)
            (Returns-map (Conserved net st kf kp r.0.socket k.a' k.b' r.1)
              (Conserved net st kf kp s.socket a b w) (on_events net fuel r.0 es r.1)
              (tunnel_conserves fuel r.0 kf kp k.a' k.b' r.1 es k.ends (rw k.same_socket nf)
                (rw k.same_socket np) (omega (arith, lf, rw ends.self_id at k.less_self))
                (omega (arith, lp, rw ends.peer_id at k.less_peer)) ef ep later)
              (λ r' l. Conserved-then kf kp s.socket a b w r r' k ends.self_id ends.peer_id l)))
