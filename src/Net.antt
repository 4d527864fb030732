-- ===== src/Net.antt =====
-- core/network.h: what the other components ask of the platform. The operating system behind these
-- operations is no part of the repository, so the interface is a parameter of the components, with
-- the state of the machine threaded through every call.
pub mod Laws
pub mod Sim
pub mod SimLaws
use proxy_server_sa.Base.{ℕ, ◌<◌, Bool, true, false, not, List, ◌==◌, ◌≡◌, bit_and, bit_or}
use proxy_server_sa.Base.Int.{ℤ}

-- Event masks.
abbrev pub event_readable : ℕ
event_readable = 0x01

abbrev pub event_writable : ℕ
event_writable = 0x02

abbrev pub event_error : ℕ
event_error = 0x04

abbrev pub event_hangup : ℕ
event_hangup = 0x08

abbrev pub event_other : ℕ
event_other = 0xf0

pub record PollEvent : Type 0 where
  pub fd : ℤ
  pub mask : ℕ

-- `mask & flags`, as a condition.
unfoldable pub has_flag : ℕ → ℕ → Bool
has_flag mask flags = not (bit_and mask flags == 0)

-- The operations of network.h that the components call. `Receive` gives back the number and the
-- contents of the buffer, of which the first so many bytes are meant.
pub record Network : Type 1 where
  pub World : Type 0
  pub initialize_network : World → Bool × World
  pub shut_down_network : World → World
  pub set_socket_non_blocking : ℤ → World → Bool × World
  pub register_read_event : ℤ → ℤ → World → Bool × World
  pub update_event_interest : ℤ → ℤ → Bool → Bool → World → Bool × World
  pub accept_connection : ℤ → World → ℤ × World
  pub receive : ℤ → ℕ → World → ℤ × List ℕ × World
  pub send : ℤ → List ℕ → World → ℤ × World
  pub connect_tcp_ipv4 : ℕ → ℕ → World → ℤ × World
  pub close_socket : ℤ → World → World
  pub create_listening_socket : List ℕ → ℤ → ℤ → World → ℤ × World
  pub create_event_poller : World → ℤ × World
  pub wait_for_events : ℤ → ℤ → World → ℤ × List PollEvent × World
