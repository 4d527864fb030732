-- ===== src/Cache/Evict.antt =====
-- `evictIfNeeded`: the invariant of the cache, and which entries go.
use proxy_server_sa.Base.{
  ℕ, zero, suc, ◌+◌, ◌^◌, ◌≤◌, ◌<◌, ◌≡◌, refl, sym, ap, ◌∙◌, ◌⊎◌, inl, inr, false, none, some, List,
  [], ◌∷◌, ◌++◌, arith, length, All, ltb, Bool-cases, Option-cases, append_assoc, append-nil,
}
use proxy_server_sa.Base.Text.{same_text, same_text_iff}
use proxy_server_sa.Cache.{
  CacheEntry, Nodes, LruCache, add_size, sub_size, node_at, back, pop_back, find_url, evict_last,
  evict_loop, evict_if_needed,
}
use proxy_server_sa.Cache.Nodes.{
  Distinct, total, IsSized, node_at-back, node_at-pop_back, pop_back-Distinct, total-pop_back,
  split_back, length-pop_back, All-pop_back,
}
use proxy_server_sa.Cache.Index.{find_url-erase_url}

-- The index and the list name the same entries, each once, and the sizes add up.
pub record IsSound (c : LruCache) : Type 0 where
  pub distinct : Distinct c.lru_list
  pub sized : All (IsSized c.next_node) c.lru_list
  pub counted : c.current_size ≡ total c.lru_list
  pub small : total c.lru_list < 2 ^ 64
  pub leads :
      (u : List ℕ) (i : ℕ)
      → find_url u c.cache_map ≡ some i
      → (e : CacheEntry) × (node_at i c.lru_list ≡ some e) × (e.url ≡ u)
  pub listed :
      (i : ℕ) (e : CacheEntry) → node_at i c.lru_list ≡ some e → find_url e.url c.cache_map ≡ some i

evict_last_leads :
    (c : LruCache) {i0 : ℕ} {e0 : CacheEntry}
    → IsSound c
    → back c.lru_list ≡ some (i0, e0)
    → (u : List ℕ) (i : ℕ) → find_url u (evict_last e0 c).cache_map ≡ some i
    → (e : CacheEntry) × (node_at i (evict_last e0 c).lru_list ≡ some e) × (e.url ≡ u)
unfolding evict_last
evict_last_leads c {i0} {e0} s b u i f =
    let there : find_url u c.cache_map ≡ some i =
      ground (arith, find_url-erase_url u e0.url c.cache_map) in
    let (e, at, same) = s.leads u i there in
    let other : same_text u e0.url ≡ false =
      ground (arith, find_url-erase_url u e0.url c.cache_map) in
    let kept : node_at i (pop_back c.lru_list) ≡ some e = ground (
      arith,
      node_at-pop_back i c.lru_list {i = i0} {e = e0} s.distinct b,
      node_at-back c.lru_list {i = i0} {e = e0} s.distinct b,
      same_text_iff u e0.url,
    ) in
    (e, kept, same)

evict_last_listed :
    (c : LruCache) {i0 : ℕ} {e0 : CacheEntry}
    → IsSound c
    → back c.lru_list ≡ some (i0, e0)
    → (i : ℕ) (e : CacheEntry) → node_at i (evict_last e0 c).lru_list ≡ some e
    → find_url e.url (evict_last e0 c).cache_map ≡ some i
unfolding evict_last
evict_last_listed c {i0} {e0} s b i e f = ground (
  arith,
  node_at-pop_back i c.lru_list {i = i0} {e = e0} s.distinct b,
  node_at-back c.lru_list {i = i0} {e = e0} s.distinct b,
  s.listed i e,
  s.listed i0 e0,
  find_url-erase_url e.url e0.url c.cache_map,
  same_text_iff e.url e0.url,
)

pub evict_last-IsSound :
    (c : LruCache) {i0 : ℕ} {e0 : CacheEntry}
    → IsSound c
    → back c.lru_list ≡ some (i0, e0)
    → IsSound (evict_last e0 c)
unfolding evict_last sub_size
evict_last-IsSound c {i0} {e0} s b = record {
  distinct = pop_back-Distinct c.lru_list s.distinct;
  sized = All-pop_back (IsSized c.next_node) c.lru_list s.sized;
  counted = omega (arith, s.counted, s.small, total-pop_back c.lru_list {i = i0} {e = e0} b);
  small = omega (arith, s.small, total-pop_back c.lru_list {i = i0} {e = e0} b);
  leads = evict_last_leads c {i0 = i0} {e0 = e0} s b;
  listed = evict_last_listed c {i0 = i0} {e0 = e0} s b;
}

-- Entries are gone only if the one used last of them did not fit beside those that stay.
abbrev pub Needed : ℕ → ℕ → Nodes → Nodes → Type 0
Needed max required stay [] = Unit
Needed max required stay (x ∷ gone) = max < total (stay ++ x ∷ []) + required

-- What eviction may do to a cache.
pub record Evicted (required : ℕ) (c c' : LruCache) : Type 0 where
  pub sound : IsSound c'
  pub same_max : c'.max_bytes ≡ c.max_bytes
  pub same_next : c'.next_node ≡ c.next_node
  pub fits : (total c'.lru_list + required ≤ c.max_bytes) ⊎ (c'.lru_list ≡ [])
  pub gone : Nodes
  pub split : c.lru_list ≡ c'.lru_list ++ gone
  pub needed : Needed c.max_bytes required c'.lru_list gone

nothing_evicted :
    (required : ℕ) (c : LruCache)
    → IsSound c
    → (total c.lru_list + required ≤ c.max_bytes) ⊎ (c.lru_list ≡ [])
    → Evicted required c c
nothing_evicted required c s f = record {
  sound = s;
  same_max = refl;
  same_next = refl;
  fits = f;
  gone = [];
  split = sym (append-nil c.lru_list);
  needed = tt;
}

one_more :
    (max required : ℕ) (stay gone : Nodes) (x : ℕ × CacheEntry)
    → Needed max required stay gone
    → max < total ((stay ++ gone) ++ x ∷ []) + required
    → Needed max required stay (gone ++ x ∷ [])
one_more max required stay [] x n h = rw (append-nil stay) at h
one_more max required stay (y ∷ gone) x n h = n

evict_more :
    (required : ℕ) (c c' : LruCache) {i0 : ℕ} {e0 : CacheEntry}
    → back c.lru_list ≡ some (i0, e0)
    → c.max_bytes < total c.lru_list + required
    → Evicted required (evict_last e0 c) c'
    → Evicted required c c'
unfolding evict_last
evict_more required c c' {i0} {e0} b over r =
    let whole : c.lru_list ≡ (c'.lru_list ++ r.gone) ++ (i0, e0) ∷ [] =
      split_back c.lru_list {i = i0} {e = e0} b ∙ ap (λ (l : Nodes). l ++ (i0, e0) ∷ []) r.split in
    record {
      sound = r.sound;
      same_max = r.same_max;
      same_next = r.same_next;
      fits = r.fits;
      gone = r.gone ++ (i0, e0) ∷ [];
      split = whole ∙ append_assoc c'.lru_list r.gone ((i0, e0) ∷ []);
      needed =
          one_more c.max_bytes required c'.lru_list r.gone (i0, e0) r.needed
            (omega (arith, over, ap total whole));
    }

no_back : (l : Nodes) → back l ≡ none → l ≡ []
unfolding back
no_back [] h = refl
no_back (x ∷ []) h = ground arith
no_back (x ∷ y ∷ l) h = absurd (ground (arith, no_back (y ∷ l)))

no_length : (l : Nodes) → length l ≤ 0 → l ≡ []
no_length [] h = refl
no_length (x ∷ l) h = absurd (omega arith)

evict_loop-Evicted :
    (fuel required : ℕ) (c : LruCache)
    → IsSound c
    → total c.lru_list + required < 2 ^ 64
    → length c.lru_list ≤ fuel
    → Evicted required c (evict_loop fuel required c)
unfolding evict_loop add_size
evict_loop-Evicted zero required c s h n =
    nothing_evicted required c s (inr (no_length c.lru_list n))
evict_loop-Evicted (suc fuel) required c s h n =
    elim (Bool-cases (ltb c.max_bytes (add_size c.current_size required))) [
      | inr x ↦ rw (x, evict_loop) (nothing_evicted required c s (inl (ground arith)))
      | inl x ↦
          rw (x, evict_loop)
            (elim (Option-cases (back c.lru_list)) [
              | inl y ↦
                  rw (y, evict_loop) (nothing_evicted required c s (inr (no_back c.lru_list y)))
              | inr ((i0, e0), y) ↦
                  rw (y, evict_loop)
                    (evict_more required c (evict_loop fuel required (evict_last e0 c)) {i0 = i0}
                      {e0 = e0} y (ground arith)
                      (evict_loop-Evicted fuel required (evict_last e0 c)
                        (evict_last-IsSound c {i0 = i0} {e0 = e0} s y)
                        (omega (arith, total-pop_back c.lru_list {i = i0} {e = e0} y))
                        (omega (arith, length-pop_back c.lru_list {i = i0} {e = e0} y))))
            ])
    ]

-- Where the sizes can be added, `evictIfNeeded` ends, keeps the invariant, and takes entries off the
-- end of the list, those used longest ago, until what is required fits or none is left, and not one
-- more than that.
pub evict_if_needed-Evicted :
    (required : ℕ) (c : LruCache)
    → IsSound c
    → total c.lru_list + required < 2 ^ 64
    → Evicted required c (evict_if_needed required c)
unfolding evict_if_needed
evict_if_needed-Evicted required c s h =
    evict_loop-Evicted (length c.lru_list) required c s h (omega arith)
