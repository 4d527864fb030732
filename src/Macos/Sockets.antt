-- ===== src/Macos/Sockets.antt =====
-- core/os/macos/network_macos.cc: the operations on sockets. The system calls and the numbers of the
-- headers are those of `Linux.Syscalls`, of which epoll is not used, and `Linux.Info`.
use proxy_server_sa.Base.{
  ℕ, ◌≡◌, ◌<◌, ◌^◌, refl, Bool, true, false, not, Option, none, some, List, [], ◌∷◌, if◌then◌else◌,
  if_both, is_empty, bit_or, inl, inr, Bool-cases, ◌>>=◌,
}
use proxy_server_sa.Base.Decimal.{decimal, to_string, stoi}
use proxy_server_sa.Base.Int.{ℤ, pos, minus_one, is_negative, pos_part, ◌==ℤ◌}
use proxy_server_sa.Linux.Syscalls.{Kernel, Opens, AddrInfo}
use proxy_server_sa.Linux.Listening.{
  Same, OpensOne, OpensOne-later, OpensOne-then, OpensOne-none, closed_again, nothing_opened,
  socket-OpensOne,
}
use proxy_server_sa.Linux.Info.{Lookup, ConnectionInfo, to_uint16}
use proxy_server_sa.Linux.Ports.{port_read, to_uint16-pos}

module _ (k : Kernel) where
  open k use {World, Address, getaddrinfo, socket, setsockopt, bind, listen, close}

  -- `InitializeNetwork` and `ShutDownNetwork`
  unfoldable pub initialize_network : World → Bool × World
  initialize_network w = (true, w)

  unfoldable pub shut_down_network : World → World
  shut_down_network w = w

  -- The loop over the candidates of `CreateListeningSocket`.
  unfoldable pub try_addresses : ℤ → List (AddrInfo Address) → World → ℤ × World
  try_addresses backlog [] w = (minus_one, w)
  try_addresses backlog (ai ∷ rest) w =
      let (fd, w1) = socket ai.family ai.socktype ai.protocol w in
      let (_, w2) = setsockopt fd k.sol_socket k.so_reuseaddr (pos 1) w1 in
      let (bound, w3) = bind fd ai.addr w2 in
      let (listening, w4) = listen fd backlog w3 in
      elim (is_negative fd) [
        | true ↦ try_addresses backlog rest w1
        | false ↦ elim (is_negative bound) [
          | true ↦ try_addresses backlog rest (close fd w3).1
          | false ↦ elim (is_negative listening) [
            | true ↦ try_addresses backlog rest (close fd w4).1
            | false ↦ (fd, w4)
          ]
        ]
      ]

  -- `CreateListeningSocket`
  unfoldable pub create_listening_socket : List ℕ → ℤ → ℤ → World → ℤ × World
  unfolding try_addresses to_string
  create_listening_socket bind_host port backlog w =
      let (status, result, w1) =
        getaddrinfo (if is_empty bind_host then none else some bind_host) (to_string port)
          k.af_unspec k.sock_stream k.ai_passive w in
      if not (status ==ℤ pos 0) then (minus_one, w1) else try_addresses backlog result w1

  -- `SetSocketNonBlocking`. Flags other than -1 are not negative.
  unfoldable pub set_socket_non_blocking : ℤ → World → Bool × World
  set_socket_non_blocking fd w =
      let (flags, w1) = k.fcntl_getfl fd w in
      let (r, w2) = k.fcntl_setfl fd (bit_or (pos_part flags) k.o_nonblock) w1 in
      if flags ==ℤ minus_one
      then (false, w1)
      else if r ==ℤ minus_one
      then (false, w2)
      else (true, w2)

  -- `AcceptConnection`, `Receive` and `Send`
  unfoldable pub accept_connection : ℤ → World → ℤ × World
  accept_connection fd w = k.accept fd w

  unfoldable pub receive : ℤ → ℕ → World → ℤ × List ℕ × World
  receive fd length w = k.recv fd length (pos 0) w

  unfoldable pub send_bytes : ℤ → List ℕ → World → ℤ × World
  send_bytes fd bytes w = k.send fd bytes (pos 0) w

-- `SocketToAddress`, with the two values it would write to: the returned value and both after.
unfoldable pub socket_to_address : Lookup → ℤ → List ℕ → ℕ → Option (Bool × List ℕ × ℕ)
unfolding to_uint16 stoi
socket_to_address l fd ip port =
    let (r, address) = l.getpeername fd in
    let (rc, host, serv) = l.getnameinfo address (bit_or l.ni_numerichost l.ni_numericserv) in
    if is_negative r
    then some (false, ip, port)
    else if not (rc ==ℤ pos 0)
    then some (false, ip, port)
    else (stoi serv >>= λ p. some (true, host, to_uint16 p))

-- `GetSocketInfo`, which is not written yet: the returned value, and the record afterwards.
unfoldable pub get_socket_info : ℤ → ConnectionInfo → Bool × ConnectionInfo
get_socket_info fd info = (false, info)

-- Where the system knows the other end, asked for a numeric service, and gives its port in decimal, `SocketToAddress` gives that host and that port.
pub socket_to_address_ports :
    (l : Lookup) (fd : ℤ) (ip host : List ℕ) (old port : ℕ)
    → is_negative (l.getpeername fd).0 ≡ false
    → l.getnameinfo (l.getpeername fd).1 (bit_or l.ni_numerichost l.ni_numericserv)
      ≡ (pos 0, host, decimal port)
    → port < 2 ^ 16
    → socket_to_address l fd ip old ≡ some (true, host, port)
unfolding socket_to_address
socket_to_address_ports l fd ip host old port n e h =
    rw (n, e, port_read port h, to_uint16-pos port h) refl

module _ (k : Kernel) (o : Opens k) where
  open k use {World, Address, socket, setsockopt, bind, listen, close}
  open o use {is_open}

  pub try_addresses-OpensOne :
      (backlog : ℤ) (ais : List (AddrInfo Address)) (w : World)
      → OpensOne k o w (try_addresses k backlog ais w)
  unfolding try_addresses
  try_addresses-OpensOne backlog [] w = nothing_opened k o (λ j. refl) refl
  try_addresses-OpensOne backlog (ai ∷ rest) w = elim (Bool-cases (is_negative fd)) [
    | inl n ↦
        rw (n, try_addresses)
          (OpensOne-later k o (OpensOne-none k o one n) (try_addresses-OpensOne backlog rest w1))
    | inr n ↦
        rw (n, try_addresses)
          (elim (Bool-cases (is_negative (bind fd ai.addr w2).0)) [
            | inl b ↦
                rw (b, try_addresses)
                  (OpensOne-later k o (closed_again k o one3 n)
                    (try_addresses-OpensOne backlog rest (close fd w3).1))
            | inr b ↦
                rw (b, try_addresses)
                  (elim (Bool-cases (is_negative (listen fd backlog w3).0)) [
                    | inl l ↦
                        rw (l, try_addresses)
                          (OpensOne-later k o (closed_again k o one4 n)
                            (try_addresses-OpensOne backlog rest (close fd w4).1))
                    | inr l ↦ rw (l, try_addresses) one4
                  ])
          ])
  ]
    where
      fd : ℤ
      fd = (socket ai.family ai.socktype ai.protocol w).0

      w1 : World
      w1 = (socket ai.family ai.socktype ai.protocol w).1

      w2 : World
      w2 = (setsockopt fd k.sol_socket k.so_reuseaddr (pos 1) w1).1

      w3 : World
      w3 = (bind fd ai.addr w2).1

      w4 : World
      w4 = (listen fd backlog w3).1

      one : OpensOne k o w (fd, w1)
      one = socket-OpensOne k o ai.family ai.socktype ai.protocol w

      one3 : OpensOne k o w (fd, w3)
      one3 =
          OpensOne-then k o
            (OpensOne-then k o one (o.setsockopt_keeps fd k.sol_socket k.so_reuseaddr (pos 1) w1))
            (o.bind_keeps fd ai.addr w2)

      one4 : OpensOne k o w (fd, w4)
      one4 = OpensOne-then k o one3 (o.listen_keeps fd backlog w3)

  -- On every path `CreateListeningSocket` opens the descriptor that it returns and no other, and every socket that it gives up is closed again.
  pub create_listening_socket-OpensOne :
      (host : List ℕ) (port backlog : ℤ) (w : World)
      → OpensOne k o w (create_listening_socket k host port backlog w)
  unfolding create_listening_socket
  create_listening_socket-OpensOne host port backlog w =
      let name = if is_empty host then none else some host in
      let got = k.getaddrinfo name (to_string port) k.af_unspec k.sock_stream k.ai_passive w in
      let same : Same k o w got.2 =
        o.getaddrinfo_keeps name (to_string port) k.af_unspec k.sock_stream k.ai_passive w in
      if_both (OpensOne k o w) (not (got.0 ==ℤ pos 0)) (nothing_opened k o same refl)
        (OpensOne-later k o same (try_addresses-OpensOne backlog got.1 got.2))
