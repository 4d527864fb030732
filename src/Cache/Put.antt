-- ===== src/Cache/Put.antt =====
-- `put` keeps the invariant, and what is put is found.
use proxy_server_sa.Base.{
  ℕ, ◌+◌, ◌^◌, ◌≤◌, ◌<◌, ◌≡◌, refl, sym, ap, ◌∙◌, inl, inr, some, List, [], ◌∷◌, ◌++◌, arith,
  length, Option-cases, Bool-cases, ◌==◌, if◌then◌else◌,
}
use proxy_server_sa.Cache.{
  CacheEntry, Nodes, LruCache, add_size, sub_size, node_at, write_node, take_out, splice_front,
  find_url, move_to_front, put_old, put_new, put,
}
use proxy_server_sa.Cache.Nodes.{
  total, IsSized, node_at-write_node, total-write_node, write_node-Distinct, All-write_node,
}
use proxy_server_sa.Cache.Evict.{IsSound, Evicted, Needed, evict_if_needed-Evicted}
use proxy_server_sa.Cache.Sound.{
  spliced, move_to_front-IsSound, node_at-splice_front, Evicted-node_at, put_new-IsSound,
}

front_stays :
    (i : ℕ) (e : CacheEntry) (max : ℕ) (l stay gone : Nodes)
    → (i, e) ∷ l ≡ stay ++ gone
    → Needed max 0 stay gone
    → e.size ≤ max
    → node_at i stay ≡ some e
unfolding node_at
front_stays i e max l [] [] f n fits = ground arith
front_stays i e max l [] ((j, x) ∷ gone) f n fits = ground arith
front_stays i e max l ((j, x) ∷ stay) gone f n fits = ground arith

-- The steps of `put` on the node `i` of an entry that is there already.
module _ (i : ℕ) (old : CacheEntry) (body : List ℕ) (now : ℕ) (c : LruCache) (s : IsSound c)
    (at : node_at i c.lru_list ≡ some old) (h : total c.lru_list + length body < 2 ^ 64) where
  abbrev pub entry : CacheEntry
  entry = record old { body = body; size = length body; timestamp = now }

  abbrev pub written : LruCache
  unfolding add_size sub_size
  written = record c {
    current_size = add_size (sub_size c.current_size old.size) (length body);
    lru_list = write_node i entry c.lru_list;
  }

  pub there : node_at i (write_node i entry c.lru_list) ≡ some entry
  there = ground (arith, node_at-write_node i i entry c.lru_list {e = old} at)

  sizes : total (write_node i entry c.lru_list) + old.size ≡ total c.lru_list + length body
  sizes = total-write_node i entry c.lru_list {e = old} at

  written_leads :
      (u : List ℕ) (j : ℕ)
      → find_url u c.cache_map ≡ some j
      → (e : CacheEntry) × (node_at j (write_node i entry c.lru_list) ≡ some e) × (e.url ≡ u)
  written_leads u j f =
      let (e, here, same) = s.leads u j f in
      let other = node_at-write_node j i entry c.lru_list {e = old} at in
      elim (Bool-cases (j == i)) [
        | inl x ↦ (entry, ground (arith, other), ground arith)
        | inr x ↦ (e, ground (arith, other), same)
      ]

  written_listed :
      (j : ℕ) (e : CacheEntry)
      → node_at j (write_node i entry c.lru_list) ≡ some e
      → find_url e.url c.cache_map ≡ some j
  written_listed j e f =
      ground
        (arith, node_at-write_node j i entry c.lru_list {e = old} at, s.listed j e, s.listed i old)

  written-IsSound : IsSound written
  unfolding add_size sub_size write_node
  written-IsSound = record {
    distinct = write_node-Distinct i entry c.lru_list s.distinct;
    sized = All-write_node (IsSized c.next_node) i entry c.lru_list (λ k y p. (refl, p.1)) s.sized;
    counted = omega (arith, sizes, s.counted, s.small, h);
    small = omega (arith, sizes, h);
    leads = written_leads;
    listed = written_listed;
  }

  pub moved : LruCache
  moved = move_to_front i written

  pub moved-IsSound : IsSound moved
  unfolding moved written write_node
  moved-IsSound = move_to_front-IsSound i written {e = entry} written-IsSound there

  pub moved-Evicted : Evicted 0 moved (put_old i old body now c)
  unfolding moved put_old
  moved-Evicted = evict_if_needed-Evicted 0 moved moved-IsSound (omega (arith, moved-IsSound.small))

  pub put_old-IsSound : IsSound (put_old i old body now c)
  put_old-IsSound = moved-Evicted.sound

  pub moved_list : moved.lru_list ≡ (i, entry) ∷ take_out i (write_node i entry c.lru_list)
  unfolding moved written write_node splice_front move_to_front
  moved_list = spliced i (write_node i entry c.lru_list) {e = entry} there

  pub moved_max : moved.max_bytes ≡ c.max_bytes
  unfolding moved written move_to_front
  moved_max = refl

  pub moved_split :
      (i, entry) ∷ take_out i (write_node i entry c.lru_list)
      ≡ (put_old i old body now c).lru_list ++ moved-Evicted.gone
  unfolding moved written write_node splice_front move_to_front
  moved_split =
      sym (spliced i (write_node i entry c.lru_list) {e = entry} there) ∙ moved-Evicted.split

  pub old_held : total (put_old i old body now c).lru_list ≤ c.max_bytes
  unfolding moved written move_to_front
  old_held = elim moved-Evicted.fits [
    | inl x ↦ omega (arith, x)
    | inr x ↦ omega (arith, ap total x)
  ]

  -- What fits by itself is not evicted again.
  pub old_stays :
      length body ≤ c.max_bytes → node_at i (put_old i old body now c).lru_list ≡ some entry
  unfolding moved written write_node splice_front move_to_front
  old_stays fits =
      front_stays i entry c.max_bytes (take_out i (write_node i entry c.lru_list)) c2.lru_list
        moved-Evicted.gone moved_split moved-Evicted.needed fits
    where
      c2 : LruCache
      c2 = put_old i old body now c

  -- The entries afterwards are those of before, but for the one written.
  pub stored_before :
      (j : ℕ) (e : CacheEntry)
      → node_at j (put_old i old body now c).lru_list ≡ some e
      → (if j == i then some entry else node_at j c.lru_list) ≡ some e
  unfolding moved written write_node splice_front move_to_front
  stored_before j e f =
      sym (node_at-write_node j i entry c.lru_list {e = old} at)
      ∙ sym (node_at-splice_front j i written.lru_list {e = entry} written-IsSound.distinct there)
      ∙ Evicted-node_at 0 moved (put_old i old body now c) j {e = e} moved-Evicted f

  pub old_max : (put_old i old body now c).max_bytes ≡ c.max_bytes
  unfolding moved written move_to_front
  old_max = moved-Evicted.same_max

-- `put` keeps the invariant.
pub put-IsSound :
    (u body : List ℕ) (now : ℕ) (c : LruCache)
    → IsSound c
    → total c.lru_list + length body < 2 ^ 64
    → IsSound (put u body now c)
unfolding put
put-IsSound u body now c s h = elim (Option-cases (find_url u c.cache_map)) [
  | inl x ↦ rw (x, put) (put_new-IsSound u body now c s x h)
  | inr (i, x) ↦
      let (e, at, _) = s.leads u i x in
      rw (x, put) (rw (at, put) (put_old-IsSound i e body now c s at h))
]

pub put-max_bytes :
    (u body : List ℕ) (now : ℕ) (c : LruCache)
    → IsSound c
    → total c.lru_list + length body < 2 ^ 64
    → (put u body now c).max_bytes ≡ c.max_bytes
unfolding put put_new
put-max_bytes u body now c s h = elim (Option-cases (find_url u c.cache_map)) [
  | inl x ↦ rw (x, put) (evict_if_needed-Evicted (length body) c s h).same_max
  | inr (i, x) ↦
      let (e, at, _) = s.leads u i x in rw (x, put) (rw (at, put) (old_max i e body now c s at h))
]
