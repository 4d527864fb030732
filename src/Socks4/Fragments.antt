-- ===== src/Socks4/Fragments.antt =====
-- A request that comes in pieces.
use proxy_server_sa.Base.{ℕ, ◌<◌, ◌≡◌, ◌⊎◌, List, ◌++◌, arith, length, length-append}
use proxy_server_sa.Base.Int.{ℤ}
use proxy_server_sa.Net.{Network}
use proxy_server_sa.Protocol.{Socks4, init}
use proxy_server_sa.Connection.{Connection}
use proxy_server_sa.Socks4.{
  Peer, end_of_user, with_destination, on_readable_init, on_readable_in, on_readable,
}

-- Fewer than nine bytes, or no zero byte behind the eighth.
abbrev pub IsIncomplete : List ℕ → Type 0
IsIncomplete buf = (length buf < 9) ⊎ (end_of_user buf ≡ length buf)

module _ (net : Network) where
  open net use {World}

  -- What an incomplete request leaves in the protocol object is overwritten by the next attempt.
  on_readable_init-again :
      (p : Socks4) (self : Connection) (more : List ℕ) (poller : ℤ) (w : World)
      → 8 < length self.receive_buffer
      → on_readable_init net
          (with_destination self.receive_buffer p)
          (record self { receive_buffer = self.receive_buffer ++ more })
          poller
          w
        ≡ on_readable_init net p
            (record self { receive_buffer = self.receive_buffer ++ more })
            poller
            w
  unfolding on_readable_init with_destination
  on_readable_init-again p self more poller w h =
      ground (arith, length-append self.receive_buffer more)

  -- An attempt on an incomplete request changes neither the connections nor the machine and stays
  -- in the initial state, and the attempt after more bytes have come does exactly what it would
  -- have done if the bytes had come at once.
  pub on_readable-fragment :
      (p : Socks4) (self : Connection) (more : List ℕ) (peer : Peer) (poller : ℤ) (w : World)
      → p.state ≡ init
      → IsIncomplete self.receive_buffer
      → let (p', self', peer', w') = on_readable net p self peer poller w in
        (p'.state ≡ init)
        × (self' ≡ self)
        × (peer' ≡ peer)
        × (w' ≡ w)
        × (on_readable net p'
              (record self { receive_buffer = self.receive_buffer ++ more })
              peer
              poller
              w
            ≡ on_readable net p
                (record self { receive_buffer = self.receive_buffer ++ more })
                peer
                poller
                w)
  unfolding on_readable on_readable_in on_readable_init with_destination
  on_readable-fragment p self more peer poller w e h =
      ground (arith, on_readable_init-again p self more poller w)
