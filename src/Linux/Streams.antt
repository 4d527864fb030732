-- ===== src/Linux/Streams.antt =====
-- The operations for Linux hand the bytes of a stream on as the kernel does.
use proxy_server_sa.Base.{ℕ, suc, ◌≤◌, ◌≡◌, Bool, false, List, ◌++◌, length, take}
use proxy_server_sa.Base.Int.{ℤ, pos, is_positive, ◌==ℤ◌}
use proxy_server_sa.Net.Laws.{Streams, Apart}
use proxy_server_sa.Linux.Syscalls.{Kernel, EpollEvent}
use proxy_server_sa.Linux.{linux, interest, receive, send_bytes, update_event_interest}

-- recv(2) and send(2) without flags: `pending w fd` is what can still be received, `sent w fd` what
-- has been taken over so far.
pub record Moves (k : Kernel) : Type 0 where
  pub pending : k.World → ℤ → List ℕ
  pub sent : k.World → ℤ → List ℕ
  pub recv_some :
      (fd : ℤ) (len : ℕ) (w : k.World) (m : ℕ)
      → (k.recv fd len (pos 0) w).0 ≡ pos (suc m)
      → (length (take (suc m) (k.recv fd len (pos 0) w).1) ≡ suc m)
        × (pending w fd
            ≡ take (suc m) (k.recv fd len (pos 0) w).1 ++ pending (k.recv fd len (pos 0) w).2 fd)
  pub recv_none :
      (fd : ℤ) (len : ℕ) (w : k.World)
      → is_positive (k.recv fd len (pos 0) w).0 ≡ false
      → pending (k.recv fd len (pos 0) w).2 fd ≡ pending w fd
  pub send_some :
      (fd : ℤ) (bytes : List ℕ) (w : k.World) (m : ℕ)
      → (k.send fd bytes (pos 0) w).0 ≡ pos (suc m)
      → (suc m ≤ length bytes)
        × (sent (k.send fd bytes (pos 0) w).1 fd ≡ sent w fd ++ take (suc m) bytes)
  pub send_none :
      (fd : ℤ) (bytes : List ℕ) (w : k.World)
      → is_positive (k.send fd bytes (pos 0) w).0 ≡ false
      → sent (k.send fd bytes (pos 0) w).1 fd ≡ sent w fd

module _ (k : Kernel) (mv : Moves k) where
  pub receive_some :
      (fd : ℤ) (len : ℕ) (w : k.World) (m : ℕ)
      → (receive k fd len w).0 ≡ pos (suc m)
      → (length (take (suc m) (receive k fd len w).1) ≡ suc m)
        × (mv.pending w fd
            ≡ take (suc m) (receive k fd len w).1 ++ mv.pending (receive k fd len w).2 fd)
  unfolding receive
  receive_some = mv.recv_some

  pub receive_none :
      (fd : ℤ) (len : ℕ) (w : k.World)
      → is_positive (receive k fd len w).0 ≡ false
      → mv.pending (receive k fd len w).2 fd ≡ mv.pending w fd
  unfolding receive
  receive_none = mv.recv_none

  pub send_bytes_some :
      (fd : ℤ) (bytes : List ℕ) (w : k.World) (m : ℕ)
      → (send_bytes k fd bytes w).0 ≡ pos (suc m)
      → (suc m ≤ length bytes)
        × (mv.sent (send_bytes k fd bytes w).1 fd ≡ mv.sent w fd ++ take (suc m) bytes)
  unfolding send_bytes
  send_bytes_some = mv.send_some

  pub send_bytes_none :
      (fd : ℤ) (bytes : List ℕ) (w : k.World)
      → is_positive (send_bytes k fd bytes w).0 ≡ false
      → mv.sent (send_bytes k fd bytes w).1 fd ≡ mv.sent w fd
  unfolding send_bytes
  send_bytes_none = mv.send_none

  abbrev pub linux_streams : Streams (linux k)
  linux_streams = record {
    pending = mv.pending;
    sent = mv.sent;
    receive_some = receive_some;
    receive_none = receive_none;
    send_some = send_bytes_some;
    send_none = send_bytes_none;
  }

-- The same calls and epoll_ctl(2) leave the streams of the other descriptors alone, and each side of
-- their own that they are not about.
pub record Separates (k : Kernel) (mv : Moves k) : Type 0 where
  pub recv_apart :
      (fd : ℤ) (len : ℕ) (w : k.World) (j : ℤ)
      → (j ==ℤ fd) ≡ false
      → mv.pending (k.recv fd len (pos 0) w).2 j ≡ mv.pending w j
  pub recv_sends_none :
      (fd : ℤ) (len : ℕ) (w : k.World) (j : ℤ) → mv.sent (k.recv fd len (pos 0) w).2 j ≡ mv.sent w j
  pub send_apart :
      (fd : ℤ) (bytes : List ℕ) (w : k.World) (j : ℤ)
      → (j ==ℤ fd) ≡ false
      → mv.sent (k.send fd bytes (pos 0) w).1 j ≡ mv.sent w j
  pub send_takes_none :
      (fd : ℤ) (bytes : List ℕ) (w : k.World) (j : ℤ)
      → mv.pending (k.send fd bytes (pos 0) w).1 j ≡ mv.pending w j
  pub ctl_takes_none :
      (p op fd : ℤ) (e : EpollEvent) (w : k.World) (j : ℤ)
      → mv.pending (k.epoll_ctl p op fd e w).1 j ≡ mv.pending w j
  pub ctl_sends_none :
      (p op fd : ℤ) (e : EpollEvent) (w : k.World) (j : ℤ)
      → mv.sent (k.epoll_ctl p op fd e w).1 j ≡ mv.sent w j

module _ (k : Kernel) (mv : Moves k) (sep : Separates k mv) where
  receive_apart :
      (fd : ℤ) (len : ℕ) (w : k.World) (j : ℤ)
      → (j ==ℤ fd) ≡ false
      → mv.pending (receive k fd len w).2 j ≡ mv.pending w j
  unfolding receive
  receive_apart = sep.recv_apart

  receive_sends_none :
      (fd : ℤ) (len : ℕ) (w : k.World) (j : ℤ) → mv.sent (receive k fd len w).2 j ≡ mv.sent w j
  unfolding receive
  receive_sends_none = sep.recv_sends_none

  send_bytes_apart :
      (fd : ℤ) (bytes : List ℕ) (w : k.World) (j : ℤ)
      → (j ==ℤ fd) ≡ false
      → mv.sent (send_bytes k fd bytes w).1 j ≡ mv.sent w j
  unfolding send_bytes
  send_bytes_apart = sep.send_apart

  send_bytes_takes_none :
      (fd : ℤ) (bytes : List ℕ) (w : k.World) (j : ℤ)
      → mv.pending (send_bytes k fd bytes w).1 j ≡ mv.pending w j
  unfolding send_bytes
  send_bytes_takes_none = sep.send_takes_none

  update_moves_none :
      (p fd : ℤ) (r s : Bool) (w : k.World) (j : ℤ)
      → (mv.pending (update_event_interest k p fd r s w).1 j ≡ mv.pending w j)
        × (mv.sent (update_event_interest k p fd r s w).1 j ≡ mv.sent w j)
  unfolding update_event_interest
  update_moves_none p fd r s w j =
      let e : EpollEvent = record { events = interest k r s; fd = fd } in
      (sep.ctl_takes_none p k.epoll_ctl_mod fd e w j, sep.ctl_sends_none p k.epoll_ctl_mod fd e w j)

  -- The operations for Linux keep the streams of two sockets apart where the kernel does.
  pub linux_apart : Apart (linux k) (linux_streams k mv)
  linux_apart = record {
    receive_apart = receive_apart;
    receive_sends_none = receive_sends_none;
    send_apart = send_bytes_apart;
    send_takes_none = send_bytes_takes_none;
    update_takes_none = λ p fd r s w j. (update_moves_none p fd r s w j).0;
    update_sends_none = λ p fd r s w j. (update_moves_none p fd r s w j).1;
  }
