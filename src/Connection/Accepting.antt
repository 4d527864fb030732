-- ===== src/Connection/Accepting.antt =====
-- One step of the loop that accepts clients, where it stores one and where it ends.
use proxy_server_sa.Base.{ℕ, suc, ◌≡◌, refl, true, false, Option, none, some, List, ◌∷◌}
use proxy_server_sa.Base.Int.{ℤ, is_negative}
use proxy_server_sa.Base.Map.{find}
use proxy_server_sa.Net.{Network}
use proxy_server_sa.Connection.{Connection, ConnectionMap, ok, client, new_connection}
use proxy_server_sa.Connection.Open.{push_back, accept_new_client_connection, emplace}

module _ (net : Network) where
  open net use {World, accept_connection, set_socket_non_blocking, register_read_event}

  emplaced :
      (k : ℤ) (c : Connection) (m : ConnectionMap) (w : World)
      → find k m ≡ none
      → emplace net k c m w ≡ ((k, c) ∷ m, w)
  unfolding emplace
  emplaced k c m w f = rw (emplace, f) refl

  -- One connection is accepted, under a number that is free.
  pub accept_next :
      (fuel : ℕ) (socket poller k : ℤ) (m : ConnectionMap) (out : Option (List ℤ))
      (w w2 w3 w4 : World)
      → find k m ≡ none
      → is_negative k ≡ false
      → accept_connection socket w ≡ (k, w2)
      → set_socket_non_blocking k w2 ≡ (true, w3)
      → register_read_event poller k w3 ≡ (true, w4)
      → accept_new_client_connection net (suc fuel) socket poller m out w
        ≡ accept_new_client_connection net fuel socket poller
            ((k, new_connection k client) ∷ m)
            (push_back out k)
            w4
  unfolding accept_new_client_connection
  accept_next fuel socket poller k m out w w2 w3 w4 f n a u g =
      rw
        (
          accept_new_client_connection,
          a,
          n,
          a,
          u,
          a,
          u,
          g,
          a,
          u,
          g,
          emplaced k (new_connection k client) m w4 f,
        )
        refl

  pub accept_last :
      (fuel : ℕ) (socket poller : ℤ) (m : ConnectionMap) (out : Option (List ℤ)) (w : World)
      → is_negative (accept_connection socket w).0 ≡ true
      → accept_new_client_connection net (suc fuel) socket poller m out w
        ≡ some (ok, m, out, (accept_connection socket w).1)
  unfolding accept_new_client_connection
  accept_last fuel socket poller m out w last = rw (accept_new_client_connection, last) refl
