-- ===== src/Linux/Refinement.antt =====
-- The file for Linux is an implementation of core/network.h.
use proxy_server_sa.Base.{◌≡◌, refl}
use proxy_server_sa.Net.Laws.{Descriptors, Streams, Supply, Rounds}
use proxy_server_sa.Linux.Syscalls.{Kernel, Opens, Brings}
use proxy_server_sa.Linux.{linux}
use proxy_server_sa.Linux.Descriptors.{linux_descriptors}
use proxy_server_sa.Linux.Streams.{Moves, linux_streams}
use proxy_server_sa.Linux.Supply.{linux_supply, linux_rounds}

-- On a kernel that does as documented, the operations for Linux keep what the interface promises
-- of descriptors, of the order of streams, of the supply and of the rounds of the poller: they
-- open and close exactly the descriptors that they should on every path, the bytes of a stream
-- keep their order and none is lost, and no call adds to what is to come. What is open, what is
-- pending, what has been sent and what is to come is what the kernel says.
pub linux_implements :
    (k : Kernel) (o : Opens k) (mv : Moves k) (b : Brings k)
    → (d : Descriptors (linux k)) × (s : Streams (linux k)) × (sup : Supply (linux k)) × Rounds
        (linux k)
        sup
      × (d.is_open ≡ o.is_open)
      × (s.pending ≡ mv.pending)
      × (s.sent ≡ mv.sent)
      × (sup.supply ≡ b.supply)
linux_implements k o mv b = (
  linux_descriptors k o,
  linux_streams k mv,
  linux_supply k b,
  linux_rounds k b,
  refl,
  refl,
  refl,
  refl,
)
