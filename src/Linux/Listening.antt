-- ===== src/Linux/Listening.antt =====
-- Opening a socket in steps: on every path it is handed over or closed again.
use proxy_server_sa.Base.{
  ℕ, ◌≡◌, refl, sym, ◌∙◌, inl, inr, Bool, true, false, not, ◌&&◌, List, [], ◌∷◌, arith, Bool-cases,
  none, some, is_empty, if◌then◌else◌, if_both, if_cases, bit_or,
}
use proxy_server_sa.Base.Decimal.{to_string}
use proxy_server_sa.Base.Int.{ℤ, pos, is_negative, pos_part, ◌==ℤ◌, ==ℤ_iff}
use proxy_server_sa.Net.Laws.{opened}
use proxy_server_sa.Linux.Syscalls.{Kernel, Opens, AddrInfo}
use proxy_server_sa.Linux.{
  try_candidates, create_listening_socket, set_socket_non_blocking, close_socket, connect_tcp_ipv4,
}

module _ (k : Kernel) (o : Opens k) where
  open k use {World, Address, socket, setsockopt, bind, listen, close, connect}
  open o use {is_open}

  -- Nothing has changed for the descriptors.
  abbrev pub Same : World → World → Type 0
  Same w w' = (j : ℤ) → is_open w' j ≡ is_open w j

  -- Exactly the descriptor that comes out has been opened, and it was free before.
  pub record OpensOne (w : World) (r : ℤ × World) : Type 0 where
    pub opens : (j : ℤ) → is_open r.1 j ≡ opened (is_open w j) r.0 j
    pub fresh : is_negative r.0 ≡ false → is_open w r.0 ≡ false

  pub OpensOne-later : {w w1 : World} {r : ℤ × World} → Same w w1 → OpensOne w1 r → OpensOne w r
  OpensOne-later {w} {w1} {r} s q = record {
    opens = λ j. ground (arith, q.opens j, s j);
    fresh = λ n. sym (s r.0) ∙ q.fresh n;
  }

  pub OpensOne-then :
      {w w1 w2 : World} {fd : ℤ} → OpensOne w (fd, w1) → Same w1 w2 → OpensOne w (fd, w2)
  OpensOne-then q s = record { opens = λ j. s j ∙ q.opens j; fresh = q.fresh }

  pub OpensOne-none :
      {w w1 : World} {fd : ℤ} → OpensOne w (fd, w1) → is_negative fd ≡ true → Same w w1
  OpensOne-none {w} {w1} {fd} q n j = ground (arith, q.opens j)

  -- After it is closed nothing has changed.
  pub closed_again :
      {w w1 : World} {fd : ℤ}
      → OpensOne w (fd, w1)
      → is_negative fd ≡ false
      → Same w (close fd w1).1
  closed_again {w} {w1} {fd} q n j =
      ground (arith, o.close_closes fd w1 j, q.opens j, q.fresh n, ==ℤ_iff j fd)

  pub nothing_opened :
      {w w1 : World} {fd : ℤ} → Same w w1 → is_negative fd ≡ true → OpensOne w (fd, w1)
  nothing_opened {w} {w1} {fd} s n = record {
    opens = λ j. ground (arith, s j);
    fresh = λ p. ground arith;
  }

  pub socket-OpensOne : (f t p : ℤ) (w : World) → OpensOne w (socket f t p w)
  socket-OpensOne f t p w = record {
    opens = o.socket_opens f t p w;
    fresh = o.socket_fresh f t p w;
  }

  pub try_candidates-OpensOne :
      (backlog : ℤ) (ais : List (AddrInfo Address)) (w : World)
      → OpensOne w (try_candidates k backlog ais w)
  unfolding try_candidates
  try_candidates-OpensOne backlog [] w = nothing_opened (λ j. refl) refl
  try_candidates-OpensOne backlog (ai ∷ rest) w = elim (Bool-cases (is_negative fd)) [
    | inl n ↦
        rw (n, try_candidates)
          (OpensOne-later (OpensOne-none (socket-OpensOne ai.family ai.socktype ai.protocol w) n)
            (try_candidates-OpensOne backlog rest w1))
    | inr n ↦
        rw (n, try_candidates)
          (elim (Bool-cases (is_negative (bind fd ai.addr w3).0)) [
            | inl b ↦
                rw (b, try_candidates)
                  (OpensOne-later (closed_again (OpensOne-then opened3 bound) n)
                    (try_candidates-OpensOne backlog rest (close fd w4).1))
            | inr b ↦
                rw (b, try_candidates)
                  (elim (Bool-cases (is_negative (listen fd backlog w4).0)) [
                    | inl l ↦
                        rw (l, try_candidates)
                          (OpensOne-later
                            (closed_again (OpensOne-then (OpensOne-then opened3 bound) listening) n)
                            (try_candidates-OpensOne backlog rest (close fd w5).1))
                    | inr l ↦
                        rw (l, try_candidates)
                          (OpensOne-then (OpensOne-then opened3 bound) listening)
                  ])
          ])
  ]
    where
      fd : ℤ
      fd = (socket ai.family ai.socktype ai.protocol w).0

      w1 : World
      w1 = (socket ai.family ai.socktype ai.protocol w).1

      w2 : World
      w2 = (setsockopt fd k.sol_socket k.so_reuseaddr (pos 1) w1).1

      w3 : World
      w3 =
          if ai.family ==ℤ k.af_inet6
          then (setsockopt fd k.ipproto_ipv6 k.ipv6_v6only (pos 0) w2).1
          else w2

      w4 : World
      w4 = (bind fd ai.addr w3).1

      w5 : World
      w5 = (listen fd backlog w4).1

      both_options : Same w1 w3
      both_options j = ground (
        arith,
        o.setsockopt_keeps fd k.sol_socket k.so_reuseaddr (pos 1) w1 j,
        o.setsockopt_keeps fd k.ipproto_ipv6 k.ipv6_v6only (pos 0) w2 j,
      )

      opened3 : OpensOne w (fd, w3)
      opened3 = OpensOne-then (socket-OpensOne ai.family ai.socktype ai.protocol w) both_options

      bound : Same w3 w4
      bound = o.bind_keeps fd ai.addr w3

      listening : Same w4 w5
      listening = o.listen_keeps fd backlog w4

  pub create_listening_socket-OpensOne :
      (host : List ℕ) (port backlog : ℤ) (w : World)
      → OpensOne w (create_listening_socket k host port backlog w)
  unfolding create_listening_socket
  create_listening_socket-OpensOne host port backlog w =
      let name = if is_empty host then none else some host in
      let got = k.getaddrinfo name (to_string port) k.af_unspec k.sock_stream k.ai_passive w in
      let same : Same w got.2 =
        o.getaddrinfo_keeps name (to_string port) k.af_unspec k.sock_stream k.ai_passive w in
      if_both (OpensOne w) (not (got.0 ==ℤ pos 0)) (nothing_opened same refl)
        (OpensOne-later same (try_candidates-OpensOne backlog got.1 got.2))

  pub set_socket_non_blocking-Same :
      (fd : ℤ) (w : World) → Same w (set_socket_non_blocking k fd w).1
  unfolding set_socket_non_blocking
  set_socket_non_blocking-Same fd w j =
      let (flags, w1) = k.fcntl_getfl fd w in
      ground
        (arith, o.getfl_keeps fd w j, o.setfl_keeps fd (bit_or (pos_part flags) k.o_nonblock) w1 j)

  pub close_socket_lem :
      (fd : ℤ) (w : World) (j : ℤ)
      → is_open (close_socket k fd w) j ≡ (not (j ==ℤ fd) && is_open w j)
  unfolding close_socket
  close_socket_lem fd w j = ground (arith, o.close_closes fd w j, o.none_negative j w, ==ℤ_iff j fd)

  closed_socket :
      {w w1 : World} {fd : ℤ}
      → OpensOne w (fd, w1)
      → is_negative fd ≡ false
      → Same w (close_socket k fd w1)
  unfolding close_socket
  closed_socket q n = rw (n, close_socket) (closed_again q n)

  pub connect_tcp_ipv4-OpensOne :
      (ip port : ℕ) (w : World) → OpensOne w (connect_tcp_ipv4 k ip port w)
  unfolding connect_tcp_ipv4
  connect_tcp_ipv4-OpensOne ip port w =
      if_cases (OpensOne w) (is_negative fd) (λ n. nothing_opened (OpensOne-none one n) refl)
        (λ n.
          if_both (OpensOne w) (not (set_socket_non_blocking k fd w1).0)
            (nothing_opened (closed_socket one2 n) refl)
            (if_both (OpensOne w) failed (nothing_opened (closed_socket one3 n) refl) one3))
    where
      fd : ℤ
      fd = (socket k.af_inet k.sock_stream (pos 0) w).0

      w1 : World
      w1 = (socket k.af_inet k.sock_stream (pos 0) w).1

      w2 : World
      w2 = (set_socket_non_blocking k fd w1).1

      address : Address
      address = k.sockaddr_in (k.htonl ip) (k.htons port)

      w3 : World
      w3 = (connect fd address w2).1

      failed : Bool
      failed = is_negative (connect fd address w2).0 && not (k.errno w3 ==ℤ k.einprogress)

      one : OpensOne w (fd, w1)
      one = socket-OpensOne k.af_inet k.sock_stream (pos 0) w

      one2 : OpensOne w (fd, w2)
      one2 = OpensOne-then one (set_socket_non_blocking-Same fd w1)

      one3 : OpensOne w (fd, w3)
      one3 = OpensOne-then one2 (o.connect_keeps fd address w2)
