-- ===== src/Server/Turns.antt =====
-- The turn of one connection keeps the descriptors in order: what the process holds is what the map
-- and the two sockets of the server name.
use proxy_server_sa.Base.{ℕ, ◌≤◌, ◌<◌, ◌≡◌, refl, ◌∙◌, Bool, some, arith, Returns, Returns-bind}
use proxy_server_sa.Base.Int.{ℤ}
use proxy_server_sa.Base.Map.{find, All-find}
use proxy_server_sa.Net.{Network}
use proxy_server_sa.Net.Laws.{Descriptors, Supply}
use proxy_server_sa.Connection.{Connection, ConnectionMap}
use proxy_server_sa.Connection.Held.{Held, IsOwn, Held-updated}
use proxy_server_sa.Server.{Server, Flow, resolve_peer}
use proxy_server_sa.Server.Steps.{if_writable, if_readable, end_turn, on_connection}
use proxy_server_sa.Server.Serving.{TurnOk}
use proxy_server_sa.Server.Reading.{if_readable_ok, if_writable_ok}

resolve_peer_id : (m : ConnectionMap) (c : Connection) → (resolve_peer m c).0.id ≡ c.id
unfolding resolve_peer
resolve_peer_id m c = ground arith

module _ (net : Network) (d : Descriptors net) (sup : Supply net) (others : ℤ → Bool) where
  open net use {World}
  open sup use {supply}

  -- The server after an event, with the same sockets and everything in order.
  pub record EventOk (n : ℕ) (s : Server) (r : Server × World × Flow) : Type 0 where
    pub held : Held net d others r.0.connections r.1
    pub socket : r.0.socket ≡ s.socket
    pub poller : r.0.poller ≡ s.poller
    pub bound : supply r.1 ≤ n

  pub on_connection_ok :
      (fuel n : ℕ) (s : Server) (fd : ℤ) (mask : ℕ) (c : Connection) (w : World)
      → Held net d others s.connections w
      → find fd s.connections ≡ some c
      → supply w ≤ n
      → supply w < fuel
      → Returns (EventOk n s) (on_connection net fuel s fd mask c w)
  unfolding on_connection end_turn
  on_connection_ok fuel n s fd mask c w h f b enough =
      let c1 = (resolve_peer s.connections c).0 in
      let peer = (resolve_peer s.connections c).1 in
      let (own, nonneg) = All-find IsOwn fd c s.connections h.own f in
      Returns-bind (TurnOk net d sup others n s.poller fd peer) (EventOk n s)
        (if_readable net fuel mask s.poller fd peer s.connections c1 w) _
        (if_readable_ok net d sup others n s.poller fd peer fuel mask s.connections c c1 w h f
          (resolve_peer_id s.connections c ∙ own) b enough)
        (λ t k.
          Returns-bind (TurnOk net d sup others n s.poller fd peer) (EventOk n s)
            (if_writable net mask s.poller fd t) _
            (if_writable_ok net d sup others n s.poller fd peer mask t k)
            (λ t' k'. record {
              held = Held-updated net d fd t'.0.connection k'.own nonneg k'.held;
              socket = refl;
              poller = refl;
              bound = k'.bound;
            }))
