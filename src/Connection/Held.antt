-- ===== src/Connection/Held.antt =====
-- Which descriptors the process holds: those of the map, each by the entry under its own number,
-- and the `others`. What `emplace`, accepting and connecting do to that.
use proxy_server_sa.Base.{◌≡◌, ap, ◌∙◌, Bool, true, false, ◌&&◌, ◌||◌, some, ◌∷◌, arith, All}
use proxy_server_sa.Base.Int.{ℤ, is_negative, ◌==ℤ◌, ==ℤ_iff}
use proxy_server_sa.Base.Map.{
  find, has, erase, update, has-erase, has-update, has_of_find, find_of_not-has, All-erase,
  All-update, All-find,
}
use proxy_server_sa.Net.{Network}
use proxy_server_sa.Net.Laws.{Descriptors, opened}
use proxy_server_sa.Connection.{Connection, ConnectionMap, close, destroy}
use proxy_server_sa.Connection.Open.{emplace}

-- An entry stands under the number of its own socket.
abbrev pub IsOwn : ℤ × Connection → Type 0
IsOwn (k, c) = (c.id ≡ k) × (is_negative k ≡ false)

-- One more descriptor beside the others.
abbrev pub plus : ℤ → (ℤ → Bool) → ℤ → Bool
plus fd others k = (k ==ℤ fd) || others k

module _ (net : Network) (d : Descriptors net) where
  open net use {World, close_socket}
  open d use {is_open, close_closes}

  pub record Held (others : ℤ → Bool) (m : ConnectionMap) (w : World) : Type 0 where
    pub own : All IsOwn m
    pub apart : (k : ℤ) → (others k && has k m) ≡ false
    pub exact : (k : ℤ) → is_open w k ≡ (others k || has k m)

  -- Calls that open and close nothing.
  pub Held-quiet :
      {others : ℤ → Bool} {m : ConnectionMap} {w w' : World}
      → ((k : ℤ) → is_open w' k ≡ is_open w k)
      → Held others m w
      → Held others m w'
  Held-quiet q h = record { own = h.own; apart = h.apart; exact = λ k. q k ∙ h.exact k }

  -- A descriptor that has just been opened is one of the others.
  pub Held-opened :
      {others : ℤ → Bool} {m : ConnectionMap} {w w' : World} (fd : ℤ)
      → ((k : ℤ) → is_open w' k ≡ opened (is_open w k) fd k)
      → is_negative fd ≡ false
      → is_open w fd ≡ false
      → Held others m w
      → Held (plus fd others) m w'
  Held-opened {others} {m} fd q n fresh h = record {
    own = h.own;
    apart = λ k. ground (arith, h.apart k, h.exact k, fresh, ==ℤ_iff k fd);
    exact = λ k. ground (arith, q k, h.exact k);
  }

  -- Closing it again.
  pub Held-closed :
      {others : ℤ → Bool} {m : ConnectionMap} {w : World} (fd : ℤ)
      → others fd ≡ false
      → Held (plus fd others) m w
      → Held others m (close_socket fd w)
  Held-closed {others} {m} {w} fd n h = record {
    own = h.own;
    apart = λ k. ground (arith, h.apart k);
    exact = λ k. ground (arith, close_closes fd w k, h.exact k, h.apart k, ==ℤ_iff k fd);
  }

  -- Putting it into the map.
  pub Held-inserted :
      {others : ℤ → Bool} {m : ConnectionMap} {w : World} (fd : ℤ) (c : Connection)
      → others fd ≡ false
      → c.id ≡ fd
      → is_negative fd ≡ false
      → Held (plus fd others) m w
      → Held others ((fd, c) ∷ m) w
  unfolding has
  Held-inserted {others} {m} fd c n e p h = record {
    own = ((e, p), h.own);
    apart = λ k. ground (arith, h.apart k, ==ℤ_iff k fd);
    exact = λ k. ground (arith, h.exact k);
  }

  -- A descriptor that is held by nobody may be closed at will.
  pub Held-spurious :
      {others : ℤ → Bool} {m : ConnectionMap} {w : World} (fd : ℤ)
      → others fd ≡ false
      → has fd m ≡ false
      → Held others m w
      → Held others m (close_socket fd w)
  Held-spurious {others} {m} {w} fd n a h = record {
    own = h.own;
    apart = h.apart;
    exact = λ k. ground (arith, close_closes fd w k, h.exact k, ==ℤ_iff k fd);
  }

  pub close_own :
      (c : Connection) (w : World)
      → is_negative c.id ≡ false
      → destroy net c w ≡ close_socket c.id w
  unfolding destroy close
  close_own c w n = ground arith

  -- Erasing an entry closes its socket.
  pub Held-erased :
      {others : ℤ → Bool} {m : ConnectionMap} {w : World} (fd : ℤ) (c : Connection)
      → find fd m ≡ some c
      → Held others m w
      → Held others (erase fd m) (destroy net c w)
  Held-erased {others} {m} {w} fd c e h =
      let (id, nonneg) = All-find IsOwn fd c m h.own e in
      let closes : destroy net c w ≡ close_socket fd w =
        close_own c w (rw id nonneg) ∙ ap (λ k. close_socket k w) id in
      record {
        own = All-erase IsOwn fd m h.own;
        apart = λ k. ground (arith, has-erase k fd m, h.apart k);
        exact = λ k. rw closes (
            ground (
              arith,
              close_closes fd w k,
              has-erase k fd m,
              h.exact k,
              h.apart fd,
              has_of_find fd c m e,
              ==ℤ_iff k fd,
            ));
      }

  -- Writing an entry back under its own number.
  pub Held-updated :
      {others : ℤ → Bool} {m : ConnectionMap} {w : World} (fd : ℤ) (c : Connection)
      → (has fd m ≡ true → c.id ≡ fd)
      → is_negative fd ≡ false
      → Held others m w
      → Held others (update fd c m) w
  Held-updated {others} {m} {w} fd c e p h = record {
    own = All-update IsOwn fd c m (λ a. (e a, p)) h.own;
    apart = λ k. ground (arith, has-update k fd c m, h.apart k);
    exact = λ k. ground (arith, has-update k fd c m, h.exact k);
  }

  pub emplace_new :
      (fd : ℤ) (c : Connection) (m : ConnectionMap) (w : World)
      → has fd m ≡ false
      → emplace net fd c m w ≡ ((fd, c) ∷ m, w)
  unfolding emplace
  emplace_new fd c m w a = rw (find_of_not-has fd m a, emplace)
