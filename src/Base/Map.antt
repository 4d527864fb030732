-- ===== src/Base/Map.antt =====
-- `std::unordered_map` with integer keys, as an association list read through `find`.
use mathlib.Core.Bool.{Bool, true, false, ◌&&◌, ◌||◌, not}
use mathlib.Core.List.{List, [], ◌∷◌}
use mathlib.Core.Option.{Option, none, some}
use mathlib.Core.Path.{◌≡◌, refl, ◌∙◌, subst}
use native.Mathlib.Omega.{arith}
use mathlib.Core.Logic.{inl, inr}
use proxy_server_sa.Base.Tests.{if◌then◌else◌, Bool-cases}
use proxy_server_sa.Base.Lists.{All}
use proxy_server_sa.Base.Int.{ℤ, ◌==ℤ◌, ==ℤ_iff, ==ℤ_refl}

module _ {ℓ} {V : Type ℓ} where
  unfoldable pub find : ℤ → List (ℤ × V) → Option V
  find k [] = none
  find k ((j, v) ∷ m) = if k ==ℤ j then some v else find k m

  unfoldable pub has : ℤ → List (ℤ × V) → Bool
  has k [] = false
  has k ((j, v) ∷ m) = (k ==ℤ j) || has k m

  unfoldable pub erase : ℤ → List (ℤ × V) → List (ℤ × V)
  erase k [] = []
  erase k ((j, v) ∷ m) = let rest = erase k m in if k ==ℤ j then rest else (j, v) ∷ rest

  -- A write through a pointer to the value at `k`.
  unfoldable pub update : ℤ → V → List (ℤ × V) → List (ℤ × V)
  update k w [] = []
  update k w ((j, v) ∷ m) =
      let rest = update k w m in if k ==ℤ j then (j, w) ∷ rest else (j, v) ∷ rest

  pub find-erase :
      (k j : ℤ) (m : List (ℤ × V)) → find k (erase j m) ≡ (if k ==ℤ j then none else find k m)
  unfolding find erase
  find-erase k j [] = ground arith
  find-erase k j ((i, v) ∷ m) =
      ground (arith, ==ℤ_iff k j, ==ℤ_iff k i, ==ℤ_iff j i, find-erase k j m)

  pub find-update :
      (k j : ℤ) (w : V) (m : List (ℤ × V))
      → find k (update j w m) ≡ (if (k ==ℤ j) && has k m then some w else find k m)
  unfolding find update has
  find-update k j w [] = ground arith
  find-update k j w ((i, v) ∷ m) =
      ground (arith, ==ℤ_iff k j, ==ℤ_iff k i, ==ℤ_iff j i, find-update k j w m)

  pub has-erase : (k j : ℤ) (m : List (ℤ × V)) → has k (erase j m) ≡ (not (k ==ℤ j) && has k m)
  unfolding has erase
  has-erase k j [] = ground arith
  has-erase k j ((i, v) ∷ m) =
      ground (arith, ==ℤ_iff k j, ==ℤ_iff k i, ==ℤ_iff j i, has-erase k j m)

  pub has-update : (k j : ℤ) (w : V) (m : List (ℤ × V)) → has k (update j w m) ≡ has k m
  unfolding has update
  has-update k j w [] = refl
  has-update k j w ((i, v) ∷ m) = ground (arith, has-update k j w m)

  pub has_of_find : (k : ℤ) (v : V) (m : List (ℤ × V)) → find k m ≡ some v → has k m ≡ true
  unfolding find has
  has_of_find k v [] h = ground arith
  has_of_find k v ((i, w) ∷ m) h = ground (arith, has_of_find k v m)

  -- A write through a pointer, read again at its own key and at another one.
  pub find-updated :
      (k : ℤ) (w0 w : V) (m : List (ℤ × V)) → find k m ≡ some w0 → find k (update k w m) ≡ some w
  find-updated k w0 w m f = ground (arith, find-update k k w m, has_of_find k w0 m f, ==ℤ_refl k)

  pub find-passed :
      (k j : ℤ) (w : V) (m : List (ℤ × V)) → (k ==ℤ j) ≡ false → find k (update j w m) ≡ find k m
  find-passed k j w m n = find-update k j w m ∙ rw n refl

  pub not-has_of_find : (k : ℤ) (m : List (ℤ × V)) → find k m ≡ none → has k m ≡ false
  unfolding find has
  not-has_of_find k [] h = refl
  not-has_of_find k ((i, w) ∷ m) h = ground (arith, not-has_of_find k m)

  pub find_of_not-has : (k : ℤ) (m : List (ℤ × V)) → has k m ≡ false → find k m ≡ none
  unfolding find has
  find_of_not-has k [] h = refl
  find_of_not-has k ((i, w) ∷ m) h = ground (arith, find_of_not-has k m)

  pub erase-update : (k : ℤ) (w : V) (m : List (ℤ × V)) → erase k (update k w m) ≡ erase k m
  unfolding erase update
  erase-update k w [] = refl
  erase-update k w ((j, v) ∷ m) = ground (arith, erase-update k w m)

  module _ {κ} (P : ℤ × V → Type κ) where
    pub All-erase : (k : ℤ) (m : List (ℤ × V)) → All P m → All P (erase k m)
    unfolding erase
    All-erase k [] h = h
    All-erase k ((j, v) ∷ m) h = ground (arith, All-erase k m h.1)

    pub All-update :
        (k : ℤ) (w : V) (m : List (ℤ × V))
        → (has k m ≡ true → P (k, w))
        → All P m
        → All P (update k w m)
    unfolding update has
    All-update k w [] p h = h
    All-update k w ((j, v) ∷ m) p h = elim (Bool-cases (k ==ℤ j)) [
      | inl e ↦ rw e (
        subst (λ t. P (t, w)) ((==ℤ_iff k j).0 e) (p (rw e)),
        All-update k w m (λ _. p (rw e)) h.1,
      )
      | inr f ↦ rw f (h.0, All-update k w m (λ q. p (rw f q)) h.1)
    ]

    pub All-find : (k : ℤ) (v : V) (m : List (ℤ × V)) → All P m → find k m ≡ some v → P (k, v)
    unfolding find
    All-find k v [] h e = ground arith
    All-find k v ((j, w) ∷ m) h e = ground (arith, ==ℤ_iff k j, All-find k v m h.1)
