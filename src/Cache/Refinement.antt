-- ===== src/Cache/Refinement.antt =====
-- The cache as what it promises to be: a list of URLs and bodies, the one used last in front, without nodes and
-- without an index.
use proxy_server_sa.Base.{
  ℕ, ◌+◌, ◌-◌, ◌≤◌, ◌<◌, ◌≡◌, refl, sym, subst, ap, ◌∙◌, inl, inr, Bool, false, Option, none, some,
  List, [], ◌∷◌, ◌++◌, arith, ◌⊎◌, length, All, Option-cases, Bool-cases, ◌==◌, if◌then◌else◌, ltb,
  leb,
}
use proxy_server_sa.Base.Text.{same_text, same_text_iff}
use proxy_server_sa.Cache.{CacheEntry, Nodes, LruCache, node_at, write_node, take_out, find_url}
use proxy_server_sa.Cache.Nodes.{Distinct, total, IsSized}
use proxy_server_sa.Cache.Evict.{IsSound, Evicted, Needed}

abbrev pub Entries : Type 0
Entries = List (List ℕ × List ℕ)

unfoldable pub held : List ℕ → Entries → Option (List ℕ)
held u [] = none
held u ((v, b) ∷ l) = if same_text u v then some b else held u l

unfoldable pub without : List ℕ → Entries → Entries
without u [] = []
without u ((v, b) ∷ l) = let rest = without u l in if same_text u v then l else (v, b) ∷ rest

-- The longest front part that has no more than `n` bytes.
unfoldable pub fill : ℕ → Entries → Entries
fill n [] = []
fill n ((v, b) ∷ l) =
    let rest = fill (n - length b) l in if leb (length b) n then (v, b) ∷ rest else []

-- What stays when `required` bytes need room.
unfoldable pub trim : ℕ → ℕ → Entries → Entries
unfolding fill
trim max required l = if ltb max required then [] else fill (max - required) l

unfoldable pub abstract_get : List ℕ → Entries → Option (List ℕ) × Entries
unfolding held without
abstract_get u l = elim (held u l) [ none ↦ (none, l) | some b ↦ (some b, (u, b) ∷ without u l) ]

unfoldable pub abstract_put : ℕ → List ℕ → List ℕ → Entries → Entries
unfolding held without trim
abstract_put max u b l = elim (held u l) [
  | none ↦ (u, b) ∷ trim max (length b) l
  | some old ↦ trim max 0 ((u, b) ∷ without u l)
]

-- The entries of the nodes.
unfoldable pub view : Nodes → Entries
view [] = []
view ((i, e) ∷ l) = (e.url, e.body) ∷ view l

All-of-node_at {κ} :
    (P : ℕ × CacheEntry → Type κ) (l : Nodes)
    → Distinct l
    → ((i : ℕ) (e : CacheEntry) → node_at i l ≡ some e → P (i, e))
    → All P l
unfolding node_at
All-of-node_at P [] d f = tt
All-of-node_at P ((i, e) ∷ l) d f =
    (f i e (ground arith), All-of-node_at P l d.1 (λ j x g. f j x (ground (arith, d.0))))

-- Whether the index leads to the node.
unfoldable pub is_node : Option ℕ → ℕ → Bool
is_node none j = false
is_node (some i) j = i == j

abbrev pub IsKeyed : List ℕ → Option ℕ → ℕ × CacheEntry → Type 0
unfolding is_node
IsKeyed u o (j, e) = same_text u e.url ≡ is_node o j

pub keyed :
    (u : List ℕ) (c : LruCache) → IsSound c → All (IsKeyed u (find_url u c.cache_map)) c.lru_list
unfolding is_node
keyed u c s = All-of-node_at (IsKeyed u (find_url u c.cache_map)) c.lru_list s.distinct (λ j e at.
    elim (Option-cases (find_url u c.cache_map)) [
      | inl x ↦ rw x (ground (arith, s.listed j e at, same_text_iff u e.url))
      | inr (i, x) ↦
          let (e', there, same) = s.leads u i x in
          rw x (ground (arith, s.listed j e at, same_text_iff u e.url, there, at, same))
    ])

-- Where no key is the URL, it is not held.
pub held_none : (u : List ℕ) (l : Nodes) → All (IsKeyed u none) l → held u (view l) ≡ none
unfolding held view is_node
held_none u [] h = refl
held_none u ((j, e) ∷ l) h = rw (h.0) (held_none u l h.1)

pub held_some :
    (u : List ℕ) (i : ℕ) (l : Nodes) {e : CacheEntry}
    → All (IsKeyed u (some i)) l
    → node_at i l ≡ some e
    → held u (view l) ≡ some e.body
unfolding held view is_node node_at
held_some u i [] h f = ground arith
held_some u i ((j, x) ∷ l) {e} h f = ground (arith, h.0, held_some u i l {e = e} h.1)

pub view-take_out :
    (u : List ℕ) (i : ℕ) (l : Nodes)
    → All (IsKeyed u (some i)) l
    → view (take_out i l) ≡ without u (view l)
unfolding without view is_node take_out
view-take_out u i [] h = refl
view-take_out u i ((j, x) ∷ l) h = ground (arith, h.0, view-take_out u i l h.1)

pub take_out-write_node :
    (i : ℕ) (x : CacheEntry) (l : Nodes) → take_out i (write_node i x l) ≡ take_out i l
unfolding take_out write_node
take_out-write_node i x [] = refl
take_out-write_node i x ((j, y) ∷ l) = ground (arith, take_out-write_node i x l)

-- The next entry would be too much.
abbrev Over : ℕ → Nodes → Nodes → Type 0
Over n stay [] = Unit
Over n stay (x ∷ gone) = n < total (stay ++ x ∷ [])

abbrev HasSize : ℕ × CacheEntry → Type 0
HasSize (i, e) = e.size ≡ length e.body

fill_lem :
    (n : ℕ) (stay gone : Nodes)
    → All HasSize (stay ++ gone)
    → total stay ≤ n
    → Over n stay gone
    → fill n (view (stay ++ gone)) ≡ view stay
unfolding fill view
fill_lem n [] [] h k o = refl
fill_lem n [] ((j, x) ∷ gone) h k o = ground (arith, h.0)
fill_lem n ((j, x) ∷ stay) [] h k o =
    ground (arith, h.0, fill_lem (n - x.size) stay [] h.1 (omega arith) tt)
fill_lem n ((j, x) ∷ stay) (y ∷ gone) h k o =
    ground (arith, h.0, fill_lem (n - x.size) stay (y ∷ gone) h.1 (omega arith) (omega arith))

Needed-Over :
    (max required : ℕ) (stay gone : Nodes)
    → required ≤ max
    → Needed max required stay gone
    → Over (max - required) stay gone
Needed-Over max required stay [] h n = tt
Needed-Over max required stay (x ∷ gone) h n = omega arith

trim_lem :
    (max required : ℕ) (stay gone : Nodes)
    → All HasSize (stay ++ gone)
    → (total stay + required ≤ max) ⊎ (stay ≡ [])
    → Needed max required stay gone
    → trim max required (view (stay ++ gone)) ≡ view stay
unfolding trim view
trim_lem max required stay gone h f n = elim (Bool-cases (ltb max required)) [
  | inl x ↦
      let empty : stay ≡ [] = elim f [ inl y ↦ absurd (ground arith) | inr y ↦ y ] in
      rw (x, trim) (ap view (sym empty))
  | inr x ↦
      let fits : total stay ≤ max - required = elim f [
        | inl y ↦ omega (arith, y)
        | inr y ↦ omega (arith, ap total y)
      ] in
      rw (x, trim)
        (fill_lem (max - required) stay gone h fits
          (Needed-Over max required stay gone (ground arith) n))
]

has_sizes : (n : ℕ) (l : Nodes) → All (IsSized n) l → All HasSize l
has_sizes n [] h = tt
has_sizes n ((i, e) ∷ l) h = (h.0.0, has_sizes n l h.1)

pub Evicted-trim :
    (required : ℕ) (c c' : LruCache)
    → IsSound c
    → Evicted required c c'
    → view c'.lru_list ≡ trim c.max_bytes required (view c.lru_list)
Evicted-trim required c c' s r =
    sym (
      trim_lem c.max_bytes required c'.lru_list r.gone
        (subst (All HasSize) r.split (has_sizes c.next_node c.lru_list s.sized)) r.fits r.needed)
    ∙ ap (λ (l : Nodes). trim c.max_bytes required (view l)) (sym r.split)
