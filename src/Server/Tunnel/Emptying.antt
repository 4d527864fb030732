-- ===== src/Server/Tunnel/Emptying.antt =====
-- The second half of a turn: what waits in the send buffer is written; and the turn as a whole.
use proxy_server_sa.Base.{
  ℕ, ◌<◌, ◌≡◌, refl, sym, ap, ◌∙◌, true, false, not, ◌&&◌, some, List, ◌++◌, arith, append_assoc,
  is_empty, length, Returns, Returns-bind, if_cases, [],
}
use proxy_server_sa.Base.Int.{ℤ, minus_one, is_zero, ◌==ℤ◌}
use proxy_server_sa.Base.Map.{find, update, find-updated, find-passed}
use proxy_server_sa.Net.{Network, has_flag, event_writable}
use proxy_server_sa.Net.Laws.{Streams, Apart}
use proxy_server_sa.Connection.{Connection, ConnectionMap, k_16kb}
use proxy_server_sa.Connection.Streaming.{HandsTo, write-Gave, Accepts}
use proxy_server_sa.Server.{Server, Turn, going, resolve_peer}
use proxy_server_sa.Server.Steps.{
  on_event_writable, if_writable, if_readable, end_turn, on_connection,
}
use proxy_server_sa.Server.Tunnel.{Ends, Ends-kept, Midway, Turned}
use proxy_server_sa.Server.Tunnel.Passing.{update-Quiet}
use proxy_server_sa.Server.Tunnel.Turning.{readable_Midway}

joined :
    (s rest s' waits after : List ℕ)
    → s ++ rest ≡ s' ++ waits
    → s ++ (rest ++ after) ≡ s' ++ (waits ++ after)
joined s rest s' waits after h =
    sym (append_assoc s rest after) ∙ ap (λ l. l ++ after) h ∙ append_assoc s' waits after

linked :
    (m : ConnectionMap) (c p : Connection)
    → (c.peer_socket_id ==ℤ minus_one) ≡ false
    → find c.peer_socket_id m ≡ some p
    → resolve_peer m c ≡ (c, some c.peer_socket_id)
unfolding resolve_peer
linked m c p n f = rw (n, f) refl

module _ (net : Network) (st : Streams net) (apart : Apart net st) where
  open net use {World, receive, update_event_interest}
  open st use {pending, sent}

  module _ (kf kp : ℤ) (m : ConnectionMap) (a b : Connection) (w : World) (e : Ends kf kp m a b)
      (mask : ℕ) where
    abbrev Mid : Turn × World → Type 0
    Mid = Midway net st mask kf kp m a b w

    -- The same after the second half.
    abbrev Done : Turn × World → Type 0
    Done r =
        Mid r
        × (has_flag mask event_writable ≡ true
            → Accepts net st a.id
            → r.0.connection.send_buffer ≡ [])

    module _ (poller : ℤ) (t : Turn) (v : World) (k : Mid (t, v)) where
      abbrev c : Connection
      c = t.connection

      -- The connection after the write, and the machine after the new event interest.
      abbrev left_with : List ℕ → Connection
      left_with rest = record c { send_buffer = rest; want_write = not (is_empty rest) }

      abbrev told : List ℕ → World → World
      told rest v1 = (update_event_interest poller kf true (left_with rest).want_write v1).1

      apart_now : (k.b1.id ==ℤ c.id) ≡ false
      apart_now = rw (k.same_self.id, k.same_peer.id, e.self_id, e.peer_id) e.peer_apart

      written :
          (rest : List ℕ) (v1 : World)
          → sent v1 c.id ++ rest ≡ sent v c.id ++ c.send_buffer
          → HandsTo net st apart c.id v v1
          → Mid (going t.connections (left_with rest), told rest v1)
      written rest v1 kept only =
          let q = update-Quiet net st apart poller kf true (left_with rest).want_write v1 in
          record {
            b1 = k.b1;
            going_on = refl;
            entry = k.entry;
            at_self = k.at_self;
            at_peer = k.at_peer;
            same_self = record {
              id = k.same_self.id;
              role = k.same_self.role;
              peer = k.same_self.peer;
              closed = k.same_self.closed;
              protocol = k.same_self.protocol;
            };
            same_peer = k.same_peer;
            out = rw ((q k.b1.id).1 ∙ only.0 k.b1.id apart_now, (q c.id).0 ∙ only.1 c.id) k.out;
            back =
                rw ((q c.id).1, (q k.b1.id).0 ∙ only.1 k.b1.id)
                  (joined (sent v1 c.id) rest (sent v c.id) c.send_buffer _ kept ∙ k.back);
            less_self = omega (arith, ap length ((q a.id).0 ∙ only.1 a.id), k.less_self);
            less_peer = omega (arith, ap length ((q b.id).0 ∙ only.1 b.id), k.less_peer);
            received = k.received;
            dry = λ h there. (q a.id).0 ∙ only.1 a.id ∙ k.dry h there;
            peer_received = k.peer_received;
          }

      writable_Done : Returns Done (if_writable net mask poller kf (t, v))
      unfolding if_writable on_event_writable
      writable_Done =
          let g = write-Gave net st apart c v in
          if_cases (Returns Done) (not t.over && has_flag mask event_writable)
            (λ h. rw g.writes (
              written g.rest g.w1 g.kept g.only,
              λ writable accepts. g.emptied (rw k.same_self.id accepts),
            ))
            (λ h. (k, λ writable accepts. ground (arith, h, writable, k.going_on)))

    found : resolve_peer m a ≡ (a, some kp)
    found =
        linked m a b (rw e.link e.peer_named) (rw e.link e.at_peer)
        ∙ ap (λ (k : ℤ). (a, some k)) e.link

    ended :
        (s : Server) (t : Turn × World)
        → Done t
        → Turned net st mask kf kp s.socket a b w (end_turn net s kf t)
    unfolding end_turn
    ended s (t, v) (k, out) = record {
      conserved = record {
        a' = t.connection;
        b' = k.b1;
        ends =
            Ends-kept kf kp m (update kf t.connection t.connections) a t.connection b k.b1 e
              k.same_self k.same_peer (find-updated kf k.entry t.connection t.connections k.at_self)
              (find-passed kp kf t.connection t.connections e.peer_apart ∙ k.at_peer);
        same_socket = refl;
        goes_on = refl;
        out = k.out;
        back = k.back;
        less_self = k.less_self;
        less_peer = k.less_peer;
      };
      received = k.received;
      dry = k.dry;
      peer_received = k.peer_received;
      emptied = out;
    }

    pub turn-Turned :
        (fuel : ℕ) (socket poller : ℤ)
        → length (pending w a.id) < fuel
        → ((v : World) → is_zero (receive a.id k_16kb v).0 ≡ false)
        → Returns (Turned net st mask kf kp socket a b w) (
            on_connection net fuel
              (record { socket = socket; poller = poller; connections = m })
              kf
              mask
              a
              w)
    unfolding on_connection
    turn-Turned fuel socket poller enough endless =
        let s : Server = record { socket = socket; poller = poller; connections = m } in
        rw found (
          Returns-bind Mid (Turned net st mask kf kp socket a b w)
            (if_readable net fuel mask poller kf (some kp) m a w) _
            (readable_Midway net st apart kf kp m a b w e fuel mask poller enough endless)
            (λ r k.
              Returns-bind Done (Turned net st mask kf kp socket a b w)
                (if_writable net mask poller kf r) _ (writable_Done poller r.0 r.1 k)
                (λ r' k'. ended s r' k')))
