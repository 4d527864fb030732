-- ===== src/Net/Sim.antt =====
-- A small machine that meets the laws of `Net.Laws`, for the examples: one stream of bytes that comes
-- in and goes out a byte at a time, clients that wait, whether sockets can be made non-blocking, and
-- rounds of events.
use proxy_server_sa.Base.{
  ℕ, zero, suc, Bool, true, false, ◌&&◌, ◌||◌, not, List, [], ◌∷◌, ◌++◌, if◌then◌else◌, length,
}
use proxy_server_sa.Base.Int.{ℤ, pos, minus_one, ◌==ℤ◌}
use proxy_server_sa.Net.{Network, PollEvent}

pub record Machine : Type 0 where
  pub next : ℕ
  pub waiting : ℕ
  pub unblocks : Bool
  pub inbox : List ℕ
  pub outbox : List ℕ
  pub batches : List (List PollEvent)
  pub is_open : ℤ → Bool

-- A new descriptor, unless the next number is taken.
abbrev pub open_next : Machine → ℤ × Machine
open_next w = if w.is_open (pos w.next) then (minus_one, w) else (
  pos w.next,
  record w { next = suc w.next; is_open = λ k. (k ==ℤ pos w.next) || w.is_open k },
)

abbrev pub accept_by : ℕ → Machine → ℤ × Machine
accept_by zero w = (minus_one, w)
accept_by (suc q) w =
    if w.is_open (pos w.next) then (minus_one, w) else open_next (record w { waiting = q })

abbrev pub receive_by : List ℕ → Machine → ℤ × List ℕ × Machine
receive_by [] w = (minus_one, [], w)
receive_by (b ∷ bs) w = (pos 1, b ∷ [], record w { inbox = bs })

abbrev pub send_by : List ℕ → Machine → ℤ × Machine
send_by [] w = (pos 0, w)
send_by (b ∷ bs) w = (pos 1, record w { outbox = w.outbox ++ b ∷ [] })

abbrev pub without : ℤ → List PollEvent → List PollEvent
without p [] = []
without p (e ∷ es) = let rest = without p es in if e.fd ==ℤ p then rest else e ∷ rest

abbrev pub wait_by : ℤ → List (List PollEvent) → Machine → ℤ × List PollEvent × Machine
wait_by p [] w = (minus_one, [], w)
wait_by p (b ∷ bs) w = (pos (length (without p b)), without p b, record w { batches = bs })

abbrev pub sim : Network
sim = record {
  World = Machine;
  initialize_network = λ w. (true, w);
  shut_down_network = λ w. w;
  set_socket_non_blocking = λ fd w. (w.unblocks, w);
  register_read_event = λ p fd w. (true, w);
  update_event_interest = λ p fd r s w. (true, w);
  accept_connection = λ s w. accept_by w.waiting w;
  receive = λ fd n w. receive_by w.inbox w;
  send = λ fd bytes w. send_by bytes w;
  connect_tcp_ipv4 = λ ip port w. open_next w;
  close_socket = λ fd w. record w { is_open = λ k. not (k ==ℤ fd) && w.is_open k };
  create_listening_socket = λ host port n w. open_next w;
  create_event_poller = λ w. open_next w;
  wait_for_events = λ p n w. wait_by p w.batches w;
}

-- Nothing is open, and nothing is to come.
abbrev pub idle : Machine
idle = record {
  next = 3;
  waiting = 0;
  unblocks = true;
  inbox = [];
  outbox = [];
  batches = [];
  is_open = λ k. false;
}
