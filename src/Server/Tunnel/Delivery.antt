-- ===== src/Server/Tunnel/Delivery.antt =====
-- Two turns bring what one side has sent to the other side.
use proxy_server_sa.Base.{
  ℕ, ◌<◌, ◌≤◌, ◌≡◌, refl, sym, ap, ◌∙◌, true, false, List, [], ◌∷◌, append-nil, arith, length,
  bit_or, Returns, Returns-bind,
}
use proxy_server_sa.Base.Int.{ℤ, ◌==ℤ◌}
use proxy_server_sa.Net.{
  Network, PollEvent, has_flag, event_readable, event_writable, event_error, event_hangup,
  event_other,
}
use proxy_server_sa.Net.Laws.{Streams, Apart}
use proxy_server_sa.Connection.{Connection}
use proxy_server_sa.Connection.Streaming.{AllThere, Accepts}
use proxy_server_sa.Server.{Server, Flow}
use proxy_server_sa.Server.Loop.{on_event, on_events}
use proxy_server_sa.Server.Tunnel.{Ends, Ends-turned, flow, Turned}
use proxy_server_sa.Server.Tunnel.Batches.{Endless, turn_event}

nothing_left : (l : List ℕ) → length l ≤ 0 → l ≡ []
nothing_left [] h = refl
nothing_left (x ∷ l) h = absurd (omega arith)

module _ (net : Network) (st : Streams net) (apart : Apart net st) where
  open net use {World}
  open st use {pending, sent}

  -- `a` is read and then `b` is written.
  two_turns :
      (kf kp socket : ℤ) (a b : Connection) (w : World) (mask mask' : ℕ)
      (r r' : Server × World × Flow) (k : Turned net st mask kf kp socket a b w r)
      (l : Turned net st mask' kp kf socket k.conserved.b' k.conserved.a' r.1 r')
      → a.id ≡ kf
      → has_flag mask event_readable ≡ true
      → has_flag mask' event_writable ≡ true
      → AllThere net st kf
      → Accepts net st kp
      → sent r'.1 kp ≡ flow net st w a b
  two_turns kf kp socket a b w mask mask' r r' k l i readable writable there accepts =
      let c = k.conserved in
      let d = l.conserved in
      let self : c.a'.id ≡ a.id = c.ends.self_id ∙ sym i in
      let dry : pending r.1 a.id ≡ [] = k.dry readable (rw i there) in
      let kept : pending r.1 c.a'.id ≡ [] = ap (pending r.1) self ∙ dry in
      let left : pending r'.1 d.b'.id ≡ [] =
        rw (d.ends.peer_id ∙ sym c.ends.self_id)
          (nothing_left (pending r'.1 c.a'.id) (omega (arith, d.less_peer, ap length kept))) in
      let waits : d.a'.send_buffer ≡ [] = l.emptied writable (rw c.ends.peer_id accepts) in
      let unread : d.b'.receive_buffer ≡ [] = l.peer_received ∙ k.received readable in
      sym (append-nil (sent r'.1 kp)) ∙ (rw (waits, unread, left, d.ends.self_id) at d.back) ∙ c.out

  -- In an established SOCKS4 tunnel between two sockets other than the listening one, whose streams go
  -- on, with more fuel than either has bytes pending: where all that one side is still to bring is
  -- there already and the other side takes bytes whenever it is asked to, an event without errors that
  -- reports the one readable and one that reports the other writable are enough. Then everything that
  -- was waiting for the other side, read or still to be read has been handed over, in order.
  pub tunnel_delivers :
      (fuel : ℕ) (s : Server) (kf kp : ℤ) (a b : Connection) (w : World) (mask mask' : ℕ)
      → Ends kf kp s.connections a b
      → (kf ==ℤ s.socket) ≡ false
      → (kp ==ℤ s.socket) ≡ false
      → length (pending w kf) < fuel
      → length (pending w kp) < fuel
      → Endless net st apart kf
      → Endless net st apart kp
      → has_flag mask (bit_or (bit_or event_error event_hangup) event_other) ≡ false
      → has_flag mask' (bit_or (bit_or event_error event_hangup) event_other) ≡ false
      → has_flag mask event_readable ≡ true
      → has_flag mask' event_writable ≡ true
      → AllThere net st kf
      → Accepts net st kp
      → Returns
          (λ (r : Server × World × Flow). sent r.1 kp ≡ flow net st w a b)
          (on_events net fuel s
            (record { fd = kf; mask = mask } ∷ record { fd = kp; mask = mask' } ∷ [])
            w)
  unfolding on_events
  tunnel_delivers fuel s kf kp a b w mask mask' ends nf np lf lp ef ep q q' readable writable there
        accepts =
      let e : PollEvent = record { fd = kf; mask = mask } in
      let e' : PollEvent = record { fd = kp; mask = mask' } in
      let Delivered : Server × World × Flow → Type 0 = λ r. sent r.1 kp ≡ flow net st w a b in
      Returns-bind (Turned net st mask kf kp s.socket a b w) Delivered (on_event net fuel s e w) _
        (turn_event net st apart fuel s kf kp a b w mask ends nf lf ef q)
        (λ r k.
          let c = k.conserved in
          rw (c.goes_on, on_events)
            (Returns-bind (Turned net st mask' kp kf r.0.socket c.b' c.a' r.1) Delivered
              (on_event net fuel r.0 e' r.1) _
              (turn_event net st apart fuel r.0 kp kf c.b' c.a' r.1 mask'
                (Ends-turned kf kp r.0.connections c.a' c.b' c.ends) (rw c.same_socket np)
                (omega (arith, lp, rw ends.peer_id at c.less_peer)) ep q')
              (λ r' l.
                rw (l.conserved.goes_on, on_events)
                  (two_turns kf kp s.socket a b w mask mask' r r' k (rw c.same_socket at l)
                    ends.self_id readable writable there accepts))))
