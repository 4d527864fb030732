-- ===== src/Server/Tunnel/Turning.antt =====
-- The turn of one end of an established tunnel moves bytes and loses none.
use proxy_server_sa.Base.{
  ℕ, ◌≤◌, ◌<◌, ◌≡◌, refl, sym, ap, ◌∙◌, true, false, Option, some, List, [], ◌++◌, arith,
  append_assoc, length, length-append, Returns, if_cases,
}
use proxy_server_sa.Base.Int.{ℤ, is_zero, ◌==ℤ◌}
use proxy_server_sa.Base.Map.{update, find-updated, find-passed}
use proxy_server_sa.Net.{Network, has_flag, event_readable}
use proxy_server_sa.Net.Laws.{Streams, Apart}
use proxy_server_sa.Connection.{Connection, ConnectionMap, ok, k_16kb}
use proxy_server_sa.Connection.Streaming.{TakesFrom, read-Took, AllThere}
use proxy_server_sa.Socks4.{Peer, null, itself, other}
use proxy_server_sa.Server.{Turn, going, peer_value, is_ok}
use proxy_server_sa.Server.Steps.{
  update_interests, finish_data, on_read, on_event_readable, if_readable,
}
use proxy_server_sa.Server.Tunnel.{Ends, given, Quiet, Midway}
use proxy_server_sa.Server.Tunnel.Passing.{update-Quiet, Quiet-then, told, told-Quiet, passes}

passed_on :
    (s sb rb got p : List ℕ) → s ++ ((sb ++ (rb ++ got)) ++ p) ≡ s ++ (sb ++ (rb ++ (got ++ p)))
passed_on s sb rb got p = rw (append_assoc sb (rb ++ got) p, append_assoc rb got p) refl

module _ (net : Network) (st : Streams net) (apart : Apart net st) where
  open net use {World, receive}
  open st use {pending, sent}

  update_interests-Quiet :
      (poller fd : ℤ) (peer : Option ℤ) (t : Turn) (w : World)
      → Quiet net st w (update_interests net poller fd peer t w)
  unfolding update_interests
  update_interests-Quiet poller fd peer t w = by_peer (peer_value t.connections fd peer) refl
    where
      c : Connection
      c = t.connection

      w1 : World
      w1 = (net.update_event_interest poller fd true c.want_write w).1

      first : Quiet net st w w1
      first = update-Quiet net st apart poller fd true c.want_write w

      by_peer :
          (q : Peer)
          → peer_value t.connections fd peer ≡ q
          → Quiet net st w (update_interests net poller fd peer t w)
      by_peer null x = rw (x, update_interests) first
      by_peer itself x =
          rw (x, update_interests)
            (Quiet-then net st apart w w1 _ first (update-Quiet net st apart poller c.id true _ w1))
      by_peer (other p) x =
          rw (x, update_interests)
            (Quiet-then net st apart w w1 _ first (update-Quiet net st apart poller p.id true _ w1))

  module _ (kf kp : ℤ) (m : ConnectionMap) (a b : Connection) (w : World)
      (e : Ends kf kp m a b) where
    abbrev Mid : ℕ → Turn × World → Type 0
    Mid mask = Midway net st mask kf kp m a b w

    ids_apart : (b.id ==ℤ a.id) ≡ false
    ids_apart = rw (e.self_id, e.peer_id) e.peer_apart

    ids_apart_back : (a.id ==ℤ b.id) ≡ false
    ids_apart_back = rw (e.self_id, e.peer_id) e.self_apart

    untouched : (mask : ℕ) → has_flag mask event_readable ≡ false → Mid mask (going m a, w)
    untouched mask unread = record {
      b1 = b;
      going_on = refl;
      entry = a;
      at_self = e.at_self;
      at_peer = e.at_peer;
      same_self = record { id = refl; role = refl; peer = refl; closed = refl; protocol = refl };
      same_peer = record { id = refl; role = refl; peer = refl; closed = refl; protocol = refl };
      out = refl;
      back = refl;
      less_self = omega arith;
      less_peer = omega arith;
      received = λ h. ground (arith, unread);
      dry = λ h there. ground (arith, unread);
      peer_received = refl;
    }

    -- The connection as the read leaves it, its bytes handed on, and the machine after that.
    abbrev emptied : Connection
    emptied = record a { receive_buffer = []; closed = false }

    abbrev filled : List ℕ → Connection
    filled got = record a { receive_buffer = a.receive_buffer ++ got; closed = false }

    abbrev handed : List ℕ → Turn
    handed got = going (update kp (given (filled got) b) m) emptied

    abbrev settled : ℤ → List ℕ → World → World
    settled poller got w1 =
        update_interests net poller kf (some kp) (handed got)
          (told net st apart poller b (a.receive_buffer ++ got) w1)

    settled-Quiet :
        (poller : ℤ) (got : List ℕ) (w1 : World) → Quiet net st w1 (settled poller got w1)
    settled-Quiet poller got w1 =
        let l = a.receive_buffer ++ got in
        Quiet-then net st apart w1 (told net st apart poller b l w1) (settled poller got w1)
          (told-Quiet net st apart poller b l w1)
          (update_interests-Quiet poller kf (some kp) (handed got)
            (told net st apart poller b l w1))

    handed_on :
        (mask : ℕ) (poller : ℤ) (got : List ℕ) (w1 : World)
        → pending w a.id ≡ got ++ pending w1 a.id
        → TakesFrom net st apart a.id w w1
        → (AllThere net st a.id → pending w1 a.id ≡ [])
        → Mid mask (handed got, settled poller got w1)
    handed_on mask poller got w1 taken only dry =
        let q = settled-Quiet poller got w1 in
        let kept : pending (settled poller got w1) b.id ≡ pending w b.id =
          (q b.id).0 ∙ only.0 b.id ids_apart in
        let came : pending w a.id ≡ got ++ pending (settled poller got w1) a.id =
          taken ∙ ap (λ p. got ++ p) (sym (q a.id).0) in
        let less : length (pending (settled poller got w1) a.id) ≤ length (pending w a.id) =
          omega (arith, ap length came, length-append got (pending (settled poller got w1) a.id)) in
        record {
          b1 = given (filled got) b;
          going_on = refl;
          entry = a;
          at_self = find-passed kf kp (given (filled got) b) m e.self_apart ∙ e.at_self;
          at_peer = find-updated kp b (given (filled got) b) m e.at_peer;
          same_self = record {
            id = refl;
            role = refl;
            peer = refl;
            closed = sym e.open_self;
            protocol = refl;
          };
          same_peer = record {
            id = refl;
            role = refl;
            peer = refl;
            closed = refl;
            protocol = refl;
          };
          out =
              rw ((q b.id).1 ∙ only.1 b.id, came)
                (passed_on (sent w b.id) b.send_buffer a.receive_buffer got _);
          back = rw ((q a.id).1 ∙ only.1 a.id, kept) refl;
          less_self = less;
          less_peer = omega (arith, ap length kept);
          received = λ h. refl;
          dry = λ h there. (q a.id).0 ∙ dry there;
          peer_received = refl;
        }

    on_read_passes :
        (poller : ℤ) (got : List ℕ) (w1 : World)
        → on_read net poller kf (some kp) m (ok, filled got, w1)
          ≡ some (handed got, settled poller got w1)
    unfolding on_read is_ok finish_data
    on_read_passes poller got w1 =
        rw
          (passes net st apart a.role (a.receive_buffer ++ got) poller kf kp m
            (record a { closed = false }) b w1 e.protocol e.peer_apart e.at_peer
            (rw e.link e.peer_named) e.self_speaks e.is_established)
          refl

    pub readable_Midway :
        (fuel mask : ℕ) (poller : ℤ)
        → length (pending w a.id) < fuel
        → ((v : World) → is_zero (receive a.id k_16kb v).0 ≡ false)
        → Returns (Mid mask) (if_readable net fuel mask poller kf (some kp) m a w)
    unfolding if_readable on_event_readable
    readable_Midway fuel mask poller enough endless =
        let t = read-Took net st apart fuel a w e.open_self enough endless in
        if_cases (Returns (Mid mask)) (has_flag mask event_readable)
          (λ h.
            rw (t.reads, on_read_passes poller t.got t.w1)
              (handed_on mask poller t.got t.w1 t.taken t.only t.dry))
          (untouched mask)
