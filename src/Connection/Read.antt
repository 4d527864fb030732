-- ===== src/Connection/Read.antt =====
-- `Connection::Read` drains the socket.
use proxy_server_sa.Base.{
  ℕ, zero, suc, ◌<◌, ◌≡◌, refl, sym, ap, ◌∙◌, inl, inr, true, false, ◌||◌, some, List, ◌++◌, [],
  arith, if◌then◌else◌, append_assoc, append-nil, length, length-append, take,
}
use proxy_server_sa.Base.Int.{ℤ, pos, negsuc, minus_one, is_negative, is_positive, is_zero, ℤ-cases}
use proxy_server_sa.Net.{Network}
use proxy_server_sa.Net.Laws.{Streams}
use proxy_server_sa.Connection.{
  Connection, ok, peer_closed, close, k_16kb, read_loop, after_read, read,
}

module _ (net : Network) (streams : Streams net) where
  open net use {World, receive, close_socket}
  open streams use {pending, receive_some, receive_none}

  -- `got` came off the socket in order; the last call of `receive`, at `w0`, brought nothing more.
  pub record Drained (c : Connection) (w : World) : Type 0 where
    pub got : List ℕ
    pub w0 : World
    pub ended : is_positive (receive c.id k_16kb w0).0 ≡ false
    pub taken : pending w c.id ≡ got ++ pending (receive c.id k_16kb w0).2 c.id

  abbrev pub filled : (c : Connection) (w : World) → Drained c w → Connection
  filled c w d = record c {
    receive_buffer = c.receive_buffer ++ d.got;
    closed = is_zero (receive c.id k_16kb d.w0).0 || c.closed;
  }

  -- One call that brings nothing.
  last_call :
      (fuel : ℕ) (c : Connection) (w : World) (n : ℤ)
      → (receive c.id k_16kb w).0 ≡ n
      → is_positive n ≡ false
      → read_loop net (suc fuel) c w
        ≡ some (record c { closed = is_zero n || c.closed }, (receive c.id k_16kb w).2)
  unfolding read_loop
  last_call fuel c w (pos zero) e h = rw (e, read_loop)
  last_call fuel c w (pos (suc m)) e h = ground arith
  last_call fuel c w (negsuc x) e h = rw (e, read_loop)

  drained_last :
      (fuel : ℕ) (c : Connection) (w : World)
      → is_positive (receive c.id k_16kb w).0 ≡ false
      → (d : Drained c w) × (read_loop net (suc fuel) c w
          ≡ some (filled c w d, (receive c.id k_16kb d.w0).2))
  drained_last fuel c w h = (
    record { got = []; w0 = w; ended = h; taken = sym (receive_none c.id k_16kb w h) },
    rw (last_call fuel c w _ refl h, append-nil),
  )

  abbrev chunk : Connection → World → ℕ → List ℕ
  chunk c w m = take (suc m) (receive c.id k_16kb w).1

  abbrev after_chunk : Connection → World → ℕ → Connection
  after_chunk c w m = record c { receive_buffer = c.receive_buffer ++ chunk c w m }

  one_chunk :
      (fuel : ℕ) (c : Connection) (w : World) (m : ℕ)
      → (receive c.id k_16kb w).0 ≡ pos (suc m)
      → read_loop net (suc fuel) c w
        ≡ read_loop net fuel (after_chunk c w m) (receive c.id k_16kb w).2
  unfolding read_loop
  one_chunk fuel c w m e = rw (e, read_loop)

  drained_more :
      (c : Connection) (w : World) (m : ℕ)
      → (receive c.id k_16kb w).0 ≡ pos (suc m)
      → Drained (after_chunk c w m) (receive c.id k_16kb w).2
      → Drained c w
  drained_more c w m e d = record {
    got = chunk c w m ++ d.got;
    w0 = d.w0;
    ended = d.ended;
    taken =
        (receive_some c.id k_16kb w m e).1
        ∙ ap (◌++◌ (chunk c w m)) d.taken
        ∙ sym (append_assoc (chunk c w m) d.got _);
  }

  pub read_loop_drains :
      (fuel : ℕ) (c : Connection) (w : World)
      → length (pending w c.id) < fuel
      → (d : Drained c w) × (read_loop net fuel c w
          ≡ some (filled c w d, (receive c.id k_16kb d.w0).2))
  unfolding drained_more
  read_loop_drains zero c w h = absurd (omega arith)
  read_loop_drains (suc fuel) c w h = elim (ℤ-cases (receive c.id k_16kb w).0) [
    | inl e ↦ drained_last fuel c w (rw e)
    | inr (inl (m, e)) ↦
        let some_bytes = receive_some c.id k_16kb w m e in
        let (d, p) = read_loop_drains fuel (after_chunk c w m) (receive c.id k_16kb w).2 (
          omega (
            arith,
            some_bytes.0,
            ap length some_bytes.1,
            length-append (chunk c w m) (pending (receive c.id k_16kb w).2 c.id),
          )) in
        (
          drained_more c w m e d,
          one_chunk fuel c w m e ∙ p ∙ rw (append_assoc c.receive_buffer (chunk c w m) d.got),
        )
    | inr (inr (x, e)) ↦ drained_last fuel c w (rw e)
  ]

  -- With more fuel than bytes pending, `Read` on an open socket ends: everything it took stands
  -- behind what was in the receive buffer, in order, and the last call of `receive` brought
  -- nothing. If that call found the end of the stream, or the connection was marked as closed
  -- before, the socket is closed and the result is `PeerClosed`; otherwise it is `OK` and the
  -- connection stays open. No other field changes.
  pub read_total :
      (fuel : ℕ) (c : Connection) (w : World)
      → is_negative c.id ≡ false
      → length (pending w c.id) < fuel
      → (d : Drained c w) × (read net fuel c w ≡ (
          let (n, _, w1) = receive c.id k_16kb d.w0 in
          if is_zero n || c.closed
          then some (
            peer_closed,
            record c { id = minus_one; receive_buffer = c.receive_buffer ++ d.got; closed = true },
            close_socket c.id w1,
          )
          else some
              (ok, record c { receive_buffer = c.receive_buffer ++ d.got; closed = false }, w1)))
  unfolding read after_read close
  read_total fuel c w h enough =
      let (d, p) = read_loop_drains fuel c w enough in (d, rw p (ground arith))
