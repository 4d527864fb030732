-- ===== src/Server/Loop.antt =====
-- server/proxy_server.cc, the event loop and what surrounds it.
use proxy_server_sa.Base.{
  ℕ, zero, suc, not, Option, none, some, List, [], ◌∷◌, ◌>>=◌, if◌then◌else◌, take, bit_or,
}
use proxy_server_sa.Base.Int.{ℤ, pos, negsuc, is_negative, is_positive, ◌==ℤ◌}
use proxy_server_sa.Base.Map.{find}
use proxy_server_sa.Net.{Network, PollEvent, has_flag, event_error, event_hangup, event_other}
use proxy_server_sa.Config.{Config}
use proxy_server_sa.Connection.{ConnectionMap, destroy}
use proxy_server_sa.Connection.Open.{accept_new_client_connection}
use proxy_server_sa.Server.{Server, Flow, next_event, stop_running, erase_connection}
use proxy_server_sa.Server.Steps.{on_connection}

module _ (net : Network) where
  open net use {
    World, initialize_network, shut_down_network, close_socket, create_listening_socket,
    set_socket_non_blocking, create_event_poller, register_read_event, wait_for_events,
  }

  -- An error, a hangup or an unknown condition on `fd`.
  unfoldable pub on_event_error : Server → ℤ → World → Server × World × Flow
  unfolding erase_connection
  on_event_error s fd w =
      if fd ==ℤ s.socket then (s, w, stop_running) else elim (find fd s.connections) [
        | none ↦ (s, close_socket fd w, next_event)
        | some c ↦
            let (connections', w') = erase_connection net fd s.connections w in
            (record s { connections = connections' }, w', next_event)
      ]

  -- The listening socket is readable.
  unfoldable pub on_new_connections : ℕ → Server → World → Option (Server × World × Flow)
  on_new_connections fuel s w =
      accept_new_client_connection net fuel s.socket s.poller s.connections (some []) w >>= λ r.
      some (record s { connections = r.1 }, r.3, next_event)

  unfoldable pub find_connection : ℕ → Server → ℤ → ℕ → World → Option (Server × World × Flow)
  find_connection fuel s fd mask w = elim (find fd s.connections) [
    | none ↦ some (s, w, next_event)
    | some c ↦ on_connection net fuel s fd mask c w
  ]

  -- One round of the loop over the events. `none`: out of fuel.
  unfoldable pub on_event : ℕ → Server → PollEvent → World → Option (Server × World × Flow)
  unfolding on_event_error on_new_connections find_connection
  on_event fuel s e w =
      if has_flag e.mask (bit_or (bit_or event_error event_hangup) event_other)
      then some (on_event_error s e.fd w)
      else if e.fd ==ℤ s.socket
      then on_new_connections fuel s w
      else find_connection fuel s e.fd e.mask w

  -- The loop over the events.
  unfoldable pub on_events : ℕ → Server → List PollEvent → World → Option (Server × World × Flow)
  on_events fuel s [] w = some (s, w, next_event)
  on_events fuel s (e ∷ es) w = on_event fuel s e w >>= λ r. elim r.2 [
    | next_event ↦ on_events fuel r.0 es r.1
    | stop_running ↦ some (r.0, r.1, stop_running)
  ]

  -- Every connection is erased, and so destroyed.
  unfoldable pub destroy_all : ConnectionMap → World → World
  destroy_all [] w = w
  destroy_all ((k, c) ∷ rest) w = destroy_all rest (destroy net c w)

  -- `if (fd > 0) { CloseSocket(fd); fd = 0; }`
  unfoldable pub close_positive : ℤ → World → ℤ × World
  close_positive fd w = if is_positive fd then (pos 0, close_socket fd w) else (fd, w)

  -- `CleanUpResources`
  unfoldable pub clean_up_resources : Server → World → Server × World
  unfolding destroy_all close_positive
  clean_up_resources s w =
      let w1 = destroy_all s.connections w in
      let (poller, w2) = close_positive s.poller w1 in
      let (socket, w3) = close_positive s.socket w2 in
      (record { socket = socket; poller = poller; connections = [] }, shut_down_network w3)

  -- The `while` loop: `rounds` bounds how often the poller is asked. `none`: out of fuel.
  unfoldable pub event_loop : ℕ → ℕ → ℤ → Server → World → Option (Server × World)
  event_loop zero fuel max_events s w = none
  event_loop (suc rounds) fuel max_events s w =
      let (n, events, w1) = wait_for_events s.poller max_events w in
      elim n [
        | negsuc e ↦ some (s, w1)
        | pos zero ↦ event_loop rounds fuel max_events s w1
        | pos (suc m) ↦ on_events fuel s (take (suc m) events) w1 >>= λ r. elim r.2 [
          | next_event ↦ event_loop rounds fuel max_events r.0 r.1
          | stop_running ↦ some (r.0, r.1)
        ]
      ]

  unfoldable pub then_clean_up : Option (Server × World) → Option (Server × World)
  unfolding clean_up_resources
  then_clean_up m = m >>= λ r. some (clean_up_resources r.0 r.1)

  -- `Run`, up to and after the loop. `poller0` is what the member `poller_` holds before it is set:
  -- the constructor does not initialise it. `none`: out of fuel, or the array of the events would have
  -- a negative size; then `Run` does not come back: nothing is defined for such an array, and
  -- `WaitForEvents` throws on Linux.
  unfoldable pub run : ℕ → ℕ → Config → ℤ → World → Option (Server × World)
  unfolding event_loop then_clean_up
  run rounds fuel config poller0 w =
      let (_, w0) = initialize_network w in
      let (socket, w1) = create_listening_socket config.bind_host config.port config.backlog w0 in
      let (unblocked, w2) = set_socket_non_blocking socket w1 in
      let (poller, w3) = create_event_poller w2 in
      let (registered, w4) = register_read_event poller socket w3 in
      let s0 : Server = record { socket = socket; poller = poller0; connections = [] } in
      let s : Server = record { socket = socket; poller = poller; connections = [] } in
      let looped = then_clean_up (event_loop rounds fuel config.max_events s w4) in
      if is_negative socket
      then some (s0, w1)
      else if not unblocked
      then then_clean_up (some (s0, w2))
      else if is_negative poller
      then then_clean_up (some (s, w3))
      else if not registered
      then then_clean_up (some (s, w4))
      else if is_negative config.max_events
      then none
      else looped
