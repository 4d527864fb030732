-- ===== src/Server/Tunnel.antt =====
-- An established tunnel in the map of connections, seen from either end, and the bytes that are under
-- way in it.
pub mod Made
pub mod Opening
pub mod Passing
pub mod Pipelined
pub mod Turning
pub mod Emptying
pub mod Batches
pub mod Delivery
use proxy_server_sa.Connection.Streaming.{AllThere, Accepts}
use proxy_server_sa.Base.{
  ℕ, ◌≤◌, ◌≡◌, refl, sym, ◌∙◌, ap, Bool, true, false, not, ◌||◌, Option, none, some, List, ◌++◌,
  length, is_empty, [],
}
use proxy_server_sa.Base.Int.{ℤ, minus_one, ◌==ℤ◌}
use proxy_server_sa.Base.Map.{find}
use proxy_server_sa.Net.{Network, has_flag, event_readable, event_writable}
use proxy_server_sa.Net.Laws.{Streams}
use proxy_server_sa.Protocol.{Protocol, Socks4, as_socks4, established}
use proxy_server_sa.Connection.{Connection, ConnectionMap, ConnectionRole, client, upstream}
use proxy_server_sa.Server.{Server, Flow, next_event, Turn}

-- Of two protocols the one that speaks for the tunnel: the client's.
abbrev pub spoken : ConnectionRole → Option Protocol → Option Protocol → Option Protocol
spoken client own others = own
spoken upstream own others = others

-- `a` under `kf` and `b` under `kp` are the two ends: each is linked with the other, and the client's
-- SOCKS4 protocol is established.
pub record Ends (kf kp : ℤ) (m : ConnectionMap) (a b : Connection) : Type 0 where
  pub at_self : find kf m ≡ some a
  pub at_peer : find kp m ≡ some b
  pub self_id : a.id ≡ kf
  pub peer_id : b.id ≡ kp
  pub link : a.peer_socket_id ≡ kp
  pub back : b.peer_socket_id ≡ kf
  pub open_self : a.closed ≡ false
  pub open_peer : b.closed ≡ false
  pub self_apart : (kf ==ℤ kp) ≡ false
  pub peer_apart : (kp ==ℤ kf) ≡ false
  pub self_named : (kf ==ℤ minus_one) ≡ false
  pub peer_named : (kp ==ℤ minus_one) ≡ false
  pub protocol : Socks4
  pub is_established : protocol.state ≡ established
  pub self_speaks : spoken a.role a.protocol b.protocol ≡ some (as_socks4 protocol)
  pub peer_speaks : spoken b.role b.protocol a.protocol ≡ some (as_socks4 protocol)

-- What a turn leaves alone in a connection.
pub record Same (a a' : Connection) : Type 0 where
  pub id : a'.id ≡ a.id
  pub role : a'.role ≡ a.role
  pub peer : a'.peer_socket_id ≡ a.peer_socket_id
  pub closed : a'.closed ≡ a.closed
  pub protocol : a'.protocol ≡ a.protocol

pub Ends-kept :
    (kf kp : ℤ) (m m' : ConnectionMap) (a a' b b' : Connection)
    → Ends kf kp m a b
    → Same a a'
    → Same b b'
    → find kf m' ≡ some a'
    → find kp m' ≡ some b'
    → Ends kf kp m' a' b'
Ends-kept kf kp m m' a a' b b' e p q f g = record {
  at_self = f;
  at_peer = g;
  self_id = p.id ∙ e.self_id;
  peer_id = q.id ∙ e.peer_id;
  link = p.peer ∙ e.link;
  back = q.peer ∙ e.back;
  open_self = p.closed ∙ e.open_self;
  open_peer = q.closed ∙ e.open_peer;
  self_apart = e.self_apart;
  peer_apart = e.peer_apart;
  self_named = e.self_named;
  peer_named = e.peer_named;
  protocol = e.protocol;
  is_established = e.is_established;
  self_speaks = rw (p.role, p.protocol, q.protocol) e.self_speaks;
  peer_speaks = rw (q.role, p.protocol, q.protocol) e.peer_speaks;
}

-- The tunnel from its other end.
pub Ends-turned :
    (kf kp : ℤ) (m : ConnectionMap) (a b : Connection) → Ends kf kp m a b → Ends kp kf m b a
Ends-turned kf kp m a b e = record {
  at_self = e.at_peer;
  at_peer = e.at_self;
  self_id = e.peer_id;
  peer_id = e.self_id;
  link = e.back;
  back = e.link;
  open_self = e.open_peer;
  open_peer = e.open_self;
  self_apart = e.peer_apart;
  peer_apart = e.self_apart;
  self_named = e.peer_named;
  peer_named = e.self_named;
  protocol = e.protocol;
  is_established = e.is_established;
  self_speaks = e.peer_speaks;
  peer_speaks = e.self_speaks;
}

-- What `a` has still to read, once it has read it.
abbrev pub given : Connection → Connection → Connection
given a b = record b {
  send_buffer = b.send_buffer ++ a.receive_buffer;
  want_write = not (is_empty a.receive_buffer) || b.want_write;
}

module _ (net : Network) (st : Streams net) where
  open net use {World}
  open st use {pending, sent}

  -- All bytes from `a` to `b`: those handed over, those that wait to be sent, those that are read, and
  -- those that are still to come.
  abbrev pub flow : World → Connection → Connection → List ℕ
  flow w a b = sent w b.id ++ (b.send_buffer ++ (a.receive_buffer ++ pending w a.id))

  -- No byte is taken or handed over.
  abbrev pub Quiet : World → World → Type 0
  Quiet w w' = (k : ℤ) → (pending w' k ≡ pending w k) × (sent w' k ≡ sent w k)

  -- The turn of `a` so far, for the event `mask`: `b1` is what the other end has become.
  pub record Midway (mask : ℕ) (kf kp : ℤ) (m : ConnectionMap) (a b : Connection) (w : World)
      (t : Turn × World) : Type 0 where
    pub b1 : Connection
    pub going_on : t.0.over ≡ false
    pub entry : Connection
    pub at_self : find kf t.0.connections ≡ some entry
    pub at_peer : find kp t.0.connections ≡ some b1
    pub same_self : Same a t.0.connection
    pub same_peer : Same b b1
    pub out : flow t.1 t.0.connection b1 ≡ flow w a b
    pub back : flow t.1 b1 t.0.connection ≡ flow w b a
    pub less_self : length (pending t.1 a.id) ≤ length (pending w a.id)
    pub less_peer : length (pending t.1 b.id) ≤ length (pending w b.id)
    pub received : has_flag mask event_readable ≡ true → t.0.connection.receive_buffer ≡ []
    pub dry : has_flag mask event_readable ≡ true → AllThere net st a.id → pending t.1 a.id ≡ []
    pub peer_received : b1.receive_buffer ≡ b.receive_buffer

  -- After turns of the two ends: both stand in the new map, and what was under way between them still
  -- is.
  pub record Conserved (kf kp socket : ℤ) (a b : Connection) (w : World) (r : Server × World × Flow)
      : Type 0 where
    pub a' : Connection
    pub b' : Connection
    pub ends : Ends kf kp r.0.connections a' b'
    pub same_socket : r.0.socket ≡ socket
    pub goes_on : r.2 ≡ next_event
    pub out : flow r.1 a' b' ≡ flow w a b
    pub back : flow r.1 b' a' ≡ flow w b a
    pub less_self : length (pending r.1 a.id) ≤ length (pending w a.id)
    pub less_peer : length (pending r.1 b.id) ≤ length (pending w b.id)

  -- The turn of `a` as a whole, and what is left to do after it.
  pub record Turned (mask : ℕ) (kf kp socket : ℤ) (a b : Connection) (w : World)
      (r : Server × World × Flow) : Type 0 where
    pub conserved : Conserved kf kp socket a b w r
    pub received : has_flag mask event_readable ≡ true → conserved.a'.receive_buffer ≡ []
    pub dry : has_flag mask event_readable ≡ true → AllThere net st a.id → pending r.1 a.id ≡ []
    pub peer_received : conserved.b'.receive_buffer ≡ b.receive_buffer
    pub emptied :
        has_flag mask event_writable ≡ true → Accepts net st a.id → conserved.a'.send_buffer ≡ []
