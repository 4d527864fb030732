-- ===== src/Cache/Budget.antt =====
-- The bytes that the cache holds against its limit.
use proxy_server_sa.Base.{
  ℕ, suc, ◌+◌, refl, ◌≢◌, ◌^◌, ◌≤◌, ◌<◌, ◌≡◌, ◌⊎◌, inl, inr, ap, ◌∙◌, none, some, List, [], ◌∷◌,
  ◌++◌, arith, length, Option-cases,
}
use proxy_server_sa.Cache.{
  CacheEntry, Nodes, take_out, entry_of, body_of, LruCache, node_at, write_node, find_url, put_old,
  put_new, put,
}
use proxy_server_sa.Cache.Nodes.{total}
use proxy_server_sa.Cache.Evict.{IsSound, evict_if_needed-Evicted}
use proxy_server_sa.Cache.Sound.{put_new-IsSound}
use proxy_server_sa.Cache.Put.{entry, moved-Evicted, moved_split, old_held, put_old-IsSound}
use proxy_server_sa.Cache.Contents.{content, content_of, put_is_new, put_is_old, put_own}

new_held :
    (u body : List ℕ) (now : ℕ) (c : LruCache)
    → IsSound c
    → find_url u c.cache_map ≡ none
    → total c.lru_list + length body < 2 ^ 64
    → (total (put_new u body now c).lru_list ≤ c.max_bytes)
      ⊎ (total (put_new u body now c).lru_list ≡ length body)
unfolding put_new
new_held u body now c s absent h = elim (evict_if_needed-Evicted (length body) c s h).fits [
  | inl x ↦ inl (omega (arith, x))
  | inr x ↦ inr (omega (arith, ap total x))
]

absent_content : (u : List ℕ) (c : LruCache) → find_url u c.cache_map ≡ none → content u c ≡ none
unfolding content entry_of body_of
absent_content u c x = rw (x, content) refl

new_alone :
    (u body : List ℕ) (now : ℕ) (c : LruCache)
    → IsSound c
    → find_url u c.cache_map ≡ none
    → total c.lru_list + length body < 2 ^ 64
    → c.max_bytes < length body
    → length (put_new u body now c).lru_list ≡ 1
unfolding put_new
new_alone u body now c s absent h large = elim (evict_if_needed-Evicted (length body) c s h).fits [
  | inl x ↦ absurd (omega (arith, x))
  | inr x ↦ ap (λ (l : Nodes). suc (length l)) x
]

only_itself :
    (i : ℕ) (e : CacheEntry) (max : ℕ) (l stay gone : Nodes)
    → (i, e) ∷ l ≡ stay ++ gone
    → total stay ≤ max
    → max < e.size
    → stay ≡ []
only_itself i e max l [] gone f n large = refl
only_itself i e max l ((j, x) ∷ stay) gone f n large = absurd (ground arith)

module _ (i : ℕ) (old : CacheEntry) (body : List ℕ) (now : ℕ) (c : LruCache) (s : IsSound c)
    (at : node_at i c.lru_list ≡ some old) (h : total c.lru_list + length body < 2 ^ 64) where
  old_too_large : c.max_bytes < length body → (put_old i old body now c).lru_list ≡ []
  old_too_large large =
      only_itself i (entry i old body now c s at h) c.max_bytes
        (take_out i (write_node i (entry i old body now c s at h) c.lru_list))
        (put_old i old body now c).lru_list (moved-Evicted i old body now c s at h).gone
        (moved_split i old body now c s at h) (old_held i old body now c s at h) large

-- However much the cache held before, after `put` it counts no more bytes than its limit, or the URL is new and it counts the bytes of the new body alone.
pub put_held :
    (u body : List ℕ) (now : ℕ) (c : LruCache)
    → IsSound c
    → total c.lru_list + length body < 2 ^ 64
    → ((put u body now c).current_size ≤ c.max_bytes)
      ⊎ ((content u c ≡ none) × ((put u body now c).current_size ≡ length body))
put_held u body now c s h = elim (Option-cases (find_url u c.cache_map)) [
  | inl x ↦
      let counted = (put_new-IsSound u body now c s x h).counted in
      rw (put_is_new u body now c x) (elim (new_held u body now c s x h) [
        | inl y ↦ inl (omega (arith, y, counted))
        | inr y ↦ inr (absent_content u c x, counted ∙ y)
      ])
  | inr (i, x) ↦
      let (e, at, _) = s.leads u i x in
      rw (put_is_old u body now c {i = i} {e = e} x at) (
        inl (
          omega (
            arith,
            old_held i e body now c s at h,
            (put_old-IsSound i e body now c s at h).counted,
          )))
]

-- A body longer than the cache is large stays as the one entry if its URL is new. If the URL is known, the cache
-- holds nothing afterwards.
pub put_too_large :
    (u body : List ℕ) (now : ℕ) (c : LruCache)
    → IsSound c
    → total c.lru_list + length body < 2 ^ 64
    → c.max_bytes < length body
    → ((content u c ≡ none)
        × (content u (put u body now c) ≡ some body)
        × (length (put u body now c).lru_list ≡ 1))
      ⊎ ((content u c ≢ none) × ((put u body now c).lru_list ≡ []))
put_too_large u body now c s h large = elim (Option-cases (find_url u c.cache_map)) [
  | inl x ↦ inl (
    absent_content u c x,
    put_own u body now c s h (inl (absent_content u c x)),
    rw (put_is_new u body now c x) (new_alone u body now c s x h large),
  )
  | inr (i, x) ↦
      let (e, at, same) = s.leads u i x in
      inr (
        λ f. absurd (ground (arith, content_of u c {i = i} {e = e} x at)),
        rw (put_is_old u body now c {i = i} {e = e} x at)
            (old_too_large i e body now c s at h large),
      )
]
