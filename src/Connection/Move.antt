-- ===== src/Connection/Move.antt =====
-- Ownership of the socket under moves and destruction.
use proxy_server_sa.Base.{◌≡◌, true, false, arith}
use proxy_server_sa.Net.{Network}
use proxy_server_sa.Connection.{Connection, close, destroy, moved_from, move_construct, move_assign}

module _ (net : Network) where
  open net use {World}

  -- A socket is closed once, however it is moved. Two calls of `Close` act as one; after a move into
  -- a new object, destroying both objects, in either order, does what destroying the original does;
  -- and after a move assignment between two objects, destroying both does what closing the old
  -- socket of the target and then destroying the source does. Self-assignment changes nothing.
  pub moves_close_once :
      (c this : Connection) (w : World)
      → (close net (close net c w).0 (close net c w).1 ≡ close net c w)
        × (destroy net (move_construct c).1 (destroy net (move_construct c).0 w) ≡ destroy net c w)
        × (destroy net (move_construct c).0 (destroy net (move_construct c).1 w) ≡ destroy net c w)
        × (let (this', c', w') = move_assign net false this c w in
            destroy net c' (destroy net this' w') ≡ destroy net c (destroy net this w))
        × (move_assign net true this c w ≡ (this, c, w))
  unfolding close destroy move_construct move_assign moved_from
  moves_close_once c this w = (ground arith, ground arith, ground arith, ground arith, ground arith)
