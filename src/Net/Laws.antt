-- ===== src/Net/Laws.antt =====
-- What the components rely on of the operating system behind core/network.h, as documented: which
-- descriptors a call opens and closes (socket(2), accept(2), connect(2), close(2)), that `recv` and
-- `send` move the bytes of a stream in order, and that only so much is there to be taken.
use proxy_server_sa.Base.{
  ℕ, suc, ◌≤◌, ◌<◌, ◌≡◌, Bool, true, false, ◌&&◌, ◌||◌, not, List, ◌++◌, if◌then◌else◌, length,
  take, All,
}
use proxy_server_sa.Base.Int.{ℤ, pos, is_negative, is_positive, ◌==ℤ◌}
use proxy_server_sa.Net.{Network}

-- What holds of the open descriptors after a call that may have opened `fd`.
abbrev pub opened : Bool → ℤ → ℤ → Bool
opened before fd k = if is_negative fd then before else ((k ==ℤ fd) || before)

-- `is_open w k`: the process holds the descriptor `k`.
pub record Descriptors (net : Network) : Type 0 where
  pub is_open : net.World → ℤ → Bool
  pub initialize_keeps :
      (w : net.World) (k : ℤ) → is_open (net.initialize_network w).1 k ≡ is_open w k
  pub shut_down_keeps : (w : net.World) (k : ℤ) → is_open (net.shut_down_network w) k ≡ is_open w k
  pub accept_opens :
      (s : ℤ) (w : net.World) (k : ℤ)
      → is_open (net.accept_connection s w).1 k
        ≡ opened (is_open w k) (net.accept_connection s w).0 k
  pub accept_fresh :
      (s : ℤ) (w : net.World)
      → is_negative (net.accept_connection s w).0 ≡ false
      → is_open w (net.accept_connection s w).0 ≡ false
  pub connect_opens :
      (ip port : ℕ) (w : net.World) (k : ℤ)
      → is_open (net.connect_tcp_ipv4 ip port w).1 k
        ≡ opened (is_open w k) (net.connect_tcp_ipv4 ip port w).0 k
  pub connect_fresh :
      (ip port : ℕ) (w : net.World)
      → is_negative (net.connect_tcp_ipv4 ip port w).0 ≡ false
      → is_open w (net.connect_tcp_ipv4 ip port w).0 ≡ false
  pub listen_opens :
      (host : List ℕ) (port n : ℤ) (w : net.World) (k : ℤ)
      → is_open (net.create_listening_socket host port n w).1 k
        ≡ opened (is_open w k) (net.create_listening_socket host port n w).0 k
  pub listen_fresh :
      (host : List ℕ) (port n : ℤ) (w : net.World)
      → is_negative (net.create_listening_socket host port n w).0 ≡ false
      → is_open w (net.create_listening_socket host port n w).0 ≡ false
  pub poller_opens :
      (w : net.World) (k : ℤ)
      → is_open (net.create_event_poller w).1 k
        ≡ opened (is_open w k) (net.create_event_poller w).0 k
  pub poller_fresh :
      (w : net.World)
      → is_negative (net.create_event_poller w).0 ≡ false
      → is_open w (net.create_event_poller w).0 ≡ false
  pub close_closes :
      (fd : ℤ) (w : net.World) (k : ℤ)
      → is_open (net.close_socket fd w) k ≡ (not (k ==ℤ fd) && is_open w k)
  pub non_blocking_keeps :
      (fd : ℤ) (w : net.World) (k : ℤ)
      → is_open (net.set_socket_non_blocking fd w).1 k ≡ is_open w k
  pub register_keeps :
      (p fd : ℤ) (w : net.World) (k : ℤ)
      → is_open (net.register_read_event p fd w).1 k ≡ is_open w k
  pub update_keeps :
      (p fd : ℤ) (r s : Bool) (w : net.World) (k : ℤ)
      → is_open (net.update_event_interest p fd r s w).1 k ≡ is_open w k
  pub receive_keeps :
      (fd : ℤ) (n : ℕ) (w : net.World) (k : ℤ) → is_open (net.receive fd n w).2 k ≡ is_open w k
  pub send_keeps :
      (fd : ℤ) (bytes : List ℕ) (w : net.World) (k : ℤ)
      → is_open (net.send fd bytes w).1 k ≡ is_open w k
  pub wait_keeps :
      (p n : ℤ) (w : net.World) (k : ℤ) → is_open (net.wait_for_events p n w).2 k ≡ is_open w k

-- `pending w fd`: what can still be received; `sent w fd`: what has been handed over so far.
pub record Streams (net : Network) : Type 0 where
  pub pending : net.World → ℤ → List ℕ
  pub sent : net.World → ℤ → List ℕ
  pub receive_some :
      (fd : ℤ) (len : ℕ) (w : net.World) (m : ℕ)
      → (net.receive fd len w).0 ≡ pos (suc m)
      → (length (take (suc m) (net.receive fd len w).1) ≡ suc m)
        × (pending w fd
            ≡ take (suc m) (net.receive fd len w).1 ++ pending (net.receive fd len w).2 fd)
  pub receive_none :
      (fd : ℤ) (len : ℕ) (w : net.World)
      → is_positive (net.receive fd len w).0 ≡ false
      → pending (net.receive fd len w).2 fd ≡ pending w fd
  pub send_some :
      (fd : ℤ) (bytes : List ℕ) (w : net.World) (m : ℕ)
      → (net.send fd bytes w).0 ≡ pos (suc m)
      → (suc m ≤ length bytes) × (sent (net.send fd bytes w).1 fd ≡ sent w fd ++ take (suc m) bytes)
  pub send_none :
      (fd : ℤ) (bytes : List ℕ) (w : net.World)
      → is_positive (net.send fd bytes w).0 ≡ false
      → sent (net.send fd bytes w).1 fd ≡ sent w fd

-- `supply w`: a bound on the connections and the bytes that will ever come. Accepting and receiving
-- use it up, and no call adds to it.
pub record Supply (net : Network) : Type 0 where
  pub supply : net.World → ℕ
  pub accept_takes :
      (s : ℤ) (w : net.World)
      → is_negative (net.accept_connection s w).0 ≡ false
      → supply (net.accept_connection s w).1 < supply w
  pub accept_bounded : (s : ℤ) (w : net.World) → supply (net.accept_connection s w).1 ≤ supply w
  pub receive_takes :
      (fd : ℤ) (len : ℕ) (w : net.World)
      → is_positive (net.receive fd len w).0 ≡ true
      → supply (net.receive fd len w).2 < supply w
  pub receive_bounded :
      (fd : ℤ) (len : ℕ) (w : net.World) → supply (net.receive fd len w).2 ≤ supply w
  pub non_blocking_bounded :
      (fd : ℤ) (w : net.World) → supply (net.set_socket_non_blocking fd w).1 ≤ supply w
  pub register_bounded :
      (p fd : ℤ) (w : net.World) → supply (net.register_read_event p fd w).1 ≤ supply w
  pub update_bounded :
      (p fd : ℤ) (r s : Bool) (w : net.World)
      → supply (net.update_event_interest p fd r s w).1 ≤ supply w
  pub send_bounded :
      (fd : ℤ) (bytes : List ℕ) (w : net.World) → supply (net.send fd bytes w).1 ≤ supply w
  pub connect_bounded :
      (ip port : ℕ) (w : net.World) → supply (net.connect_tcp_ipv4 ip port w).1 ≤ supply w
  pub close_bounded : (fd : ℤ) (w : net.World) → supply (net.close_socket fd w) ≤ supply w

-- The poller reports sockets, never itself, and so many rounds of events come in all. A wait has no
-- time limit, so it never returns without an event; when nothing is left to come it waits until it is
-- interrupted, as by a signal, and fails.
pub record Rounds (net : Network) (sup : Supply net) : Type 0 where
  pub no_poller :
      (p n : ℤ) (w : net.World) (m : ℕ)
      → All (λ e. (e.fd ==ℤ p) ≡ false) (take (suc m) (net.wait_for_events p n w).1)
  pub wait_takes :
      (p n : ℤ) (w : net.World)
      → is_negative (net.wait_for_events p n w).0 ≡ false
      → sup.supply (net.wait_for_events p n w).2 < sup.supply w
  pub wait_bounded :
      (p n : ℤ) (w : net.World) → sup.supply (net.wait_for_events p n w).2 ≤ sup.supply w
  pub initialize_bounded : (w : net.World) → sup.supply (net.initialize_network w).1 ≤ sup.supply w
  pub listen_bounded :
      (host : List ℕ) (port n : ℤ) (w : net.World)
      → sup.supply (net.create_listening_socket host port n w).1 ≤ sup.supply w
  pub poller_bounded : (w : net.World) → sup.supply (net.create_event_poller w).1 ≤ sup.supply w

-- The streams do not touch each other: a call on one socket moves no byte of another one, receiving
-- does not send, sending does not receive, and asking for events does neither.
pub record Apart (net : Network) (st : Streams net) : Type 0 where
  pub receive_apart :
      (fd : ℤ) (len : ℕ) (w : net.World) (k : ℤ)
      → (k ==ℤ fd) ≡ false
      → st.pending (net.receive fd len w).2 k ≡ st.pending w k
  pub receive_sends_none :
      (fd : ℤ) (len : ℕ) (w : net.World) (k : ℤ) → st.sent (net.receive fd len w).2 k ≡ st.sent w k
  pub send_apart :
      (fd : ℤ) (bytes : List ℕ) (w : net.World) (k : ℤ)
      → (k ==ℤ fd) ≡ false
      → st.sent (net.send fd bytes w).1 k ≡ st.sent w k
  pub send_takes_none :
      (fd : ℤ) (bytes : List ℕ) (w : net.World) (k : ℤ)
      → st.pending (net.send fd bytes w).1 k ≡ st.pending w k
  pub update_takes_none :
      (p fd : ℤ) (r s : Bool) (w : net.World) (k : ℤ)
      → st.pending (net.update_event_interest p fd r s w).1 k ≡ st.pending w k
  pub update_sends_none :
      (p fd : ℤ) (r s : Bool) (w : net.World) (k : ℤ)
      → st.sent (net.update_event_interest p fd r s w).1 k ≡ st.sent w k
