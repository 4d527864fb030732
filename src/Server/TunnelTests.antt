-- ===== src/Server/TunnelTests.antt =====
-- A tunnel over two rounds of events, on a machine with a stream of bytes each way for every socket.
use proxy_server_sa.Server.Tunnel.Delivery.{tunnel_delivers}
use proxy_server_sa.Base.{
  ℕ, zero, suc, ◌≤◌, ◌≡◌, refl, inl, inr, ◌∙◌, true, false, some, List, [], ◌∷◌, ◌++◌, arith,
  length, take, Returns, if◌then◌else◌, is_empty,
}
use proxy_server_sa.Base.Int.{ℤ, pos, minus_one, is_positive, is_zero, ◌==ℤ◌, ==ℤ_refl}
use proxy_server_sa.Base.Map.{find}
use proxy_server_sa.Net.{Network, PollEvent, has_flag}
use proxy_server_sa.Net.Laws.{Streams, Apart}
use proxy_server_sa.Protocol.{Socks4, as_socks4, established, new_socks4}
use proxy_server_sa.Connection.{Connection, client, upstream, new_connection}
use proxy_server_sa.Server.{Server, Flow}
use proxy_server_sa.Server.Loop.{on_events}
use proxy_server_sa.Server.Tunnel.{Conserved, Ends}
use proxy_server_sa.Server.Tunnel.Batches.{tunnel_conserves}

pub record Pipes : Type 0 where
  pub inbox : ℤ → List ℕ
  pub outbox : ℤ → List ℕ

-- One entry changed.
abbrev put : ℤ → List ℕ → (ℤ → List ℕ) → ℤ → List ℕ
put fd l f k = if k ==ℤ fd then l else f k

put_self : (fd : ℤ) (l : List ℕ) (f : ℤ → List ℕ) → put fd l f fd ≡ l
put_self fd l f = rw (==ℤ_refl fd) refl

put_apart : (fd k : ℤ) (l : List ℕ) (f : ℤ → List ℕ) → (k ==ℤ fd) ≡ false → put fd l f k ≡ f k
put_apart fd k l f n = rw n refl

-- A byte at a time; where none is there the call would block.
abbrev receive_by : ℤ → List ℕ → Pipes → ℤ × List ℕ × Pipes
receive_by fd [] w = (minus_one, [], w)
receive_by fd (b ∷ bs) w = (pos 1, b ∷ [], record w { inbox = put fd bs w.inbox })

abbrev send_by : ℤ → List ℕ → Pipes → ℤ × Pipes
send_by fd [] w = (pos 0, w)
send_by fd (b ∷ bs) w = (pos 1, record w { outbox = put fd (w.outbox fd ++ b ∷ []) w.outbox })

abbrev pipes : Network
pipes = record {
  World = Pipes;
  initialize_network = λ w. (true, w);
  shut_down_network = λ w. w;
  set_socket_non_blocking = λ fd w. (true, w);
  register_read_event = λ p fd w. (true, w);
  update_event_interest = λ p fd r s w. (true, w);
  accept_connection = λ s w. (minus_one, w);
  receive = λ fd n w. receive_by fd (w.inbox fd) w;
  send = λ fd bytes w. send_by fd bytes w;
  connect_tcp_ipv4 = λ ip port w. (minus_one, w);
  close_socket = λ fd w. w;
  create_listening_socket = λ host port n w. (minus_one, w);
  create_event_poller = λ w. (minus_one, w);
  wait_for_events = λ p n w. (minus_one, [], w);
}

received_some :
    (fd : ℤ) (bs : List ℕ) (w : Pipes) (m : ℕ)
    → w.inbox fd ≡ bs
    → (receive_by fd bs w).0 ≡ pos (suc m)
    → (length (take (suc m) (receive_by fd bs w).1) ≡ suc m)
      × (w.inbox fd ≡ take (suc m) (receive_by fd bs w).1 ++ (receive_by fd bs w).2.inbox fd)
received_some fd [] w m e h = ground arith
received_some fd (b ∷ bs) w zero e h = (refl, e ∙ rw (put_self fd bs w.inbox) refl)
received_some fd (b ∷ bs) w (suc m) e h = ground arith

received_none :
    (fd : ℤ) (bs : List ℕ) (w : Pipes)
    → is_positive (receive_by fd bs w).0 ≡ false
    → (receive_by fd bs w).2.inbox fd ≡ w.inbox fd
received_none fd [] w h = refl
received_none fd (b ∷ bs) w h = ground arith

sent_some :
    (fd : ℤ) (bs : List ℕ) (w : Pipes) (m : ℕ)
    → (send_by fd bs w).0 ≡ pos (suc m)
    → (suc m ≤ length bs) × ((send_by fd bs w).1.outbox fd ≡ w.outbox fd ++ take (suc m) bs)
sent_some fd [] w m h = ground arith
sent_some fd (b ∷ bs) w zero h = (omega arith, put_self fd (w.outbox fd ++ b ∷ []) w.outbox)
sent_some fd (b ∷ bs) w (suc m) h = ground arith

sent_none :
    (fd : ℤ) (bs : List ℕ) (w : Pipes)
    → is_positive (send_by fd bs w).0 ≡ false
    → (send_by fd bs w).1.outbox fd ≡ w.outbox fd
sent_none fd [] w h = refl
sent_none fd (b ∷ bs) w h = ground arith

abbrev pipes_streams : Streams pipes
pipes_streams = record {
  pending = λ w fd. w.inbox fd;
  sent = λ w fd. w.outbox fd;
  receive_some = λ fd n w m h. received_some fd (w.inbox fd) w m refl h;
  receive_none = λ fd n w h. received_none fd (w.inbox fd) w h;
  send_some = λ fd bytes w m h. sent_some fd bytes w m h;
  send_none = λ fd bytes w h. sent_none fd bytes w h;
}

receive_apart :
    (fd : ℤ) (bs : List ℕ) (w : Pipes) (k : ℤ)
    → (k ==ℤ fd) ≡ false
    → (receive_by fd bs w).2.inbox k ≡ w.inbox k
receive_apart fd [] w k n = refl
receive_apart fd (b ∷ bs) w k n = put_apart fd k bs w.inbox n

receive_sends_none :
    (fd : ℤ) (bs : List ℕ) (w : Pipes) (k : ℤ) → (receive_by fd bs w).2.outbox k ≡ w.outbox k
receive_sends_none fd [] w k = refl
receive_sends_none fd (b ∷ bs) w k = refl

send_apart :
    (fd : ℤ) (bs : List ℕ) (w : Pipes) (k : ℤ)
    → (k ==ℤ fd) ≡ false
    → (send_by fd bs w).1.outbox k ≡ w.outbox k
send_apart fd [] w k n = refl
send_apart fd (b ∷ bs) w k n = put_apart fd k (w.outbox fd ++ b ∷ []) w.outbox n

send_takes_none :
    (fd : ℤ) (bs : List ℕ) (w : Pipes) (k : ℤ) → (send_by fd bs w).1.inbox k ≡ w.inbox k
send_takes_none fd [] w k = refl
send_takes_none fd (b ∷ bs) w k = refl

abbrev pipes_apart : Apart pipes pipes_streams
pipes_apart = record {
  receive_apart = λ fd n w k h. receive_apart fd (w.inbox fd) w k h;
  receive_sends_none = λ fd n w k. receive_sends_none fd (w.inbox fd) w k;
  send_apart = λ fd bytes w k h. send_apart fd bytes w k h;
  send_takes_none = λ fd bytes w k. send_takes_none fd bytes w k;
  update_takes_none = λ p fd r s w k. refl;
  update_sends_none = λ p fd r s w k. refl;
}

goes_on : (fd : ℤ) (bs : List ℕ) (w : Pipes) → is_zero (receive_by fd bs w).0 ≡ false
goes_on fd [] w = refl
goes_on fd (b ∷ bs) w = refl

abbrev tunnelled : Socks4
tunnelled = record new_socks4 { state = established }

abbrev near : Connection
near = record (new_connection (pos 5) client) {
  peer_socket_id = pos 6;
  protocol = some (as_socks4 tunnelled);
}

-- It has two bytes of its own to send still.
abbrev far : Connection
far = record (new_connection (pos 6) upstream) { peer_socket_id = pos 5; send_buffer = 7 ∷ 8 ∷ [] }

abbrev serving : Server
serving = record { socket = pos 3; poller = pos 4; connections = (pos 5, near) ∷ (pos 6, far) ∷ [] }

-- Three bytes come from the client, and one from the other side.
abbrev talking : Pipes
talking = record {
  inbox = put (pos 5) (1 ∷ 2 ∷ 3 ∷ []) (put (pos 6) (9 ∷ []) (λ k. []));
  outbox = λ k. [];
}

-- Both are readable, then both writable.
abbrev rounds : List PollEvent
rounds =
    record { fd = pos 5; mask = 1 }
    ∷ record { fd = pos 6; mask = 3 }
    ∷ record { fd = pos 5; mask = 2 }
    ∷ []

serving-Ends : Ends (pos 5) (pos 6) serving.connections near far
unfolding new_connection find
serving-Ends = record {
  at_self = refl;
  at_peer = refl;
  self_id = refl;
  peer_id = refl;
  link = refl;
  back = refl;
  open_self = refl;
  open_peer = refl;
  self_apart = refl;
  peer_apart = refl;
  self_named = refl;
  peer_named = refl;
  protocol = tunnelled;
  is_established = refl;
  self_speaks = refl;
  peer_speaks = refl;
}

all_there :
    (bs : List ℕ) (fd : ℤ) (w : Pipes)
    → w.inbox fd ≡ bs
    → is_positive (receive_by fd bs w).0 ≡ false
    → w.inbox fd ≡ []
all_there [] fd w e h = e
all_there (b ∷ bs) fd w e h = ground arith

accepts :
    (fd : ℤ) (bytes : List ℕ) (w : Pipes)
    → is_empty bytes ≡ false
    → is_positive (send_by fd bytes w).0 ≡ true
accepts fd [] w h = ground arith
accepts fd (b ∷ bs) w h = refl

-- All that the client says reaches the other side, behind the two bytes that waited.
tunnel_delivers_example :
    Returns
      (λ (r : Server × Pipes × Flow). r.1.outbox (pos 6) ≡ 7 ∷ 8 ∷ 1 ∷ 2 ∷ 3 ∷ [])
      (on_events pipes 4 serving
        (record { fd = pos 5; mask = 1 } ∷ record { fd = pos 6; mask = 2 } ∷ [])
        talking)
unfolding new_connection has_flag
tunnel_delivers_example =
    tunnel_delivers pipes pipes_streams pipes_apart 4 serving (pos 5) (pos 6) near far talking 1 2
      serving-Ends refl refl (omega arith) (omega arith) (λ v. goes_on (pos 5) (v.inbox (pos 5)) v)
      (λ v. goes_on (pos 6) (v.inbox (pos 6)) v) refl refl refl refl
      (λ v h. all_there (v.inbox (pos 5)) (pos 5) v refl h) (λ bytes v h. accepts (pos 6) bytes v h)

tunnel_conserves_example :
    Returns
      (Conserved pipes pipes_streams (pos 5) (pos 6) (pos 3) near far talking)
      (on_events pipes 4 serving rounds talking)
unfolding new_connection find has_flag
tunnel_conserves_example =
    tunnel_conserves pipes pipes_streams pipes_apart 4 serving (pos 5) (pos 6) near far talking
      rounds serving-Ends refl refl (omega arith) (omega arith)
      (λ v. goes_on (pos 5) (v.inbox (pos 5)) v) (λ v. goes_on (pos 6) (v.inbox (pos 6)) v)
      ((refl, inl refl), ((refl, inr refl), ((refl, inl refl), tt)))
