-- ===== src/Cache/Contents.antt =====
-- What the cache holds, as a map from URLs to bodies, which `get` reads and `put` writes.
use proxy_server_sa.Base.{
  ℕ, ◌+◌, ◌^◌, ◌≤◌, ◌<◌, ◌≡◌, refl, sym, ap, ◌∙◌, ◌⊎◌, inl, inr, false, Option, none, some, List,
  arith, length, Option-cases,
}
use proxy_server_sa.Base.Text.{same_text, same_text_iff}
use proxy_server_sa.Cache.{
  CacheEntry, LruCache, node_at, find_url, move_to_front, body_of, entry_of, evict_if_needed, get,
  put_old, put_new, put,
}
use proxy_server_sa.Cache.Nodes.{total}
use proxy_server_sa.Cache.Index.{find_url-assign_url}
use proxy_server_sa.Cache.Evict.{IsSound, evict_if_needed-Evicted}
use proxy_server_sa.Cache.Sound.{node_at-splice_front, Evicted-node_at, put_new-IsSound}
use proxy_server_sa.Cache.Put.{put_old-IsSound, old_stays, entry, stored_before}

unfoldable pub content : List ℕ → LruCache → Option (List ℕ)
unfolding body_of entry_of find_url
content u c = body_of (entry_of c (find_url u c.cache_map))

pub content_of :
    (u : List ℕ) (c : LruCache) {i : ℕ} {e : CacheEntry}
    → find_url u c.cache_map ≡ some i
    → node_at i c.lru_list ≡ some e
    → content u c ≡ some e.body
unfolding content entry_of body_of
content_of u c f at = rw (f, content) (rw (at, content) refl)

content-IsNode :
    (c : LruCache) (i : ℕ) {e : CacheEntry}
    → IsSound c
    → node_at i c.lru_list ≡ some e
    → content e.url c ≡ some e.body
content-IsNode c i {e} s at = content_of e.url c {i = i} {e = e} (s.listed i e at) at

get_answer : (u : List ℕ) (c : LruCache) → IsSound c → (get u c).0 ≡ content u c
unfolding get content entry_of body_of move_to_front
get_answer u c s = elim (Option-cases (find_url u c.cache_map)) [
  | inl x ↦ rw (x, get, content) refl
  | inr (i, x) ↦
      let (e, at, _) = s.leads u i x in
      rw (x, get, content) (ap body_of (node_at-splice_front i i c.lru_list {e = e} s.distinct at))
]

content-move_to_front :
    (v : List ℕ) (i : ℕ) (c : LruCache) {e : CacheEntry}
    → IsSound c
    → node_at i c.lru_list ≡ some e
    → content v (move_to_front i c) ≡ content v c
unfolding content entry_of body_of move_to_front
content-move_to_front v i c {e} s at = elim (Option-cases (find_url v c.cache_map)) [
  | inl x ↦ rw (x, content) refl
  | inr (j, x) ↦
      rw (x, content) (ap body_of (node_at-splice_front j i c.lru_list {e = e} s.distinct at))
]

-- `get` answers with what the cache holds for the URL, and changes nothing that it holds.
pub get-content :
    (u : List ℕ) (c : LruCache)
    → IsSound c
    → ((get u c).0 ≡ content u c) × ((v : List ℕ) → content v (get u c).1 ≡ content v c)
unfolding get
get-content u c s = (
  get_answer u c s,
  λ v. elim (Option-cases (find_url u c.cache_map)) [
    | inl x ↦ rw (x, get) refl
    | inr (i, x) ↦
        let (e, at, _) = s.leads u i x in rw (x, get) (content-move_to_front v i c {e = e} s at)
  ],
)

-- Where a node of `c'` for `v` is one of `c`, nothing is held for `v` that `c` does not hold.
kept_or_gone :
    (v : List ℕ) (c c' : LruCache)
    → IsSound c
    → IsSound c'
    → ((i : ℕ) (e : CacheEntry)
        → node_at i c'.lru_list ≡ some e
        → e.url ≡ v
        → node_at i c.lru_list ≡ some e)
    → (content v c' ≡ content v c) ⊎ (content v c' ≡ none)
unfolding content entry_of body_of
kept_or_gone v c c' s s' keeps = elim (Option-cases (find_url v c'.cache_map)) [
  | inl x ↦ inr (rw (x, content) refl)
  | inr (i, x) ↦
      let (e, at, same) = s'.leads v i x in
      let was = content-IsNode c i {e = e} s (keeps i e at same) in
      inl (content_of v c' {i = i} {e = e} x at ∙ sym was ∙ ap (λ w. content w c) same)
]

-- `put` of a new entry.
module _ (u body : List ℕ) (now : ℕ) (c : LruCache) (s : IsSound c)
    (absent : find_url u c.cache_map ≡ none) (h : total c.lru_list + length body < 2 ^ 64) where
  new_content : content u (put_new u body now c) ≡ some body
  unfolding put_new node_at
  new_content =
      content_of u (put_new u body now c) {i = (evict_if_needed (length body) c).next_node}
        {e = record { url = u; body = body; size = length body; timestamp = now }}
        (ground (
          arith,
          find_url-assign_url u u (evict_if_needed (length body) c).next_node
              (evict_if_needed (length body) c).cache_map,
          same_text_iff u u,
        ))
        (ground arith)

  new_others :
      (v : List ℕ)
      → same_text v u ≡ false
      → (content v (put_new u body now c) ≡ content v c) ⊎ (content v (put_new u body now c) ≡ none)
  unfolding put_new node_at
  new_others v other =
      kept_or_gone v c (put_new u body now c) s (put_new-IsSound u body now c s absent h)
        (λ i e at same.
          Evicted-node_at (length body) c c1 i {e = e} (evict_if_needed-Evicted (length body) c s h)
            (ground (arith, same_text_iff v u)))
    where
      c1 : LruCache
      c1 = evict_if_needed (length body) c

-- `put` of an entry that is there.
module _ (i : ℕ) (old : CacheEntry) (body : List ℕ) (now : ℕ) (c : LruCache) (s : IsSound c)
    (at : node_at i c.lru_list ≡ some old) (h : total c.lru_list + length body < 2 ^ 64) where
  old_content : length body ≤ c.max_bytes → content old.url (put_old i old body now c) ≡ some body
  old_content fits =
      content-IsNode (put_old i old body now c) i {e = entry i old body now c s at h}
        (put_old-IsSound i old body now c s at h) (old_stays i old body now c s at h fits)

  old_others :
      (v : List ℕ)
      → same_text v old.url ≡ false
      → (content v (put_old i old body now c) ≡ content v c)
        ⊎ (content v (put_old i old body now c) ≡ none)
  old_others v other =
      kept_or_gone v c (put_old i old body now c) s (put_old-IsSound i old body now c s at h)
        (λ j e here same.
          ground (arith, same_text_iff v old.url, stored_before i old body now c s at h j e here))

pub put_is_new :
    (u body : List ℕ) (now : ℕ) (c : LruCache)
    → find_url u c.cache_map ≡ none
    → put u body now c ≡ put_new u body now c
unfolding put
put_is_new u body now c x = rw (x, put) refl

pub put_is_old :
    (u body : List ℕ) (now : ℕ) (c : LruCache) {i : ℕ} {e : CacheEntry}
    → find_url u c.cache_map ≡ some i
    → node_at i c.lru_list ≡ some e
    → put u body now c ≡ put_old i e body now c
unfolding put
put_is_old u body now c x at = rw (x, put) (rw (at, put) refl)

-- After `put` of a URL that the cache did not hold, or of a body that is no longer than the cache is large, the
-- cache holds the body for the URL.
pub put_own :
    (u body : List ℕ) (now : ℕ) (c : LruCache)
    → IsSound c
    → total c.lru_list + length body < 2 ^ 64
    → (content u c ≡ none) ⊎ (length body ≤ c.max_bytes)
    → content u (put u body now c) ≡ some body
put_own u body now c s h f = elim (Option-cases (find_url u c.cache_map)) [
  | inl x ↦ ap (content u) (put_is_new u body now c x) ∙ new_content u body now c s x h
  | inr (i, x) ↦
      let (e, at, same) = s.leads u i x in
      let fits : length body ≤ c.max_bytes = elim f [
        | inl g ↦ absurd (ground (arith, content_of u c {i = i} {e = e} x at))
        | inr g ↦ g
      ] in
      ap (content u) (put_is_old u body now c {i = i} {e = e} x at)
      ∙ ap (λ w. content w (put_old i e body now c)) (sym same)
      ∙ old_content i e body now c s at h fits
]

-- What the cache holds for another URL after `put`, it held before: that is kept, or evicted.
pub put_others :
    (u v body : List ℕ) (now : ℕ) (c : LruCache)
    → IsSound c
    → total c.lru_list + length body < 2 ^ 64
    → same_text v u ≡ false
    → (content v (put u body now c) ≡ content v c) ⊎ (content v (put u body now c) ≡ none)
put_others u v body now c s h other = elim (Option-cases (find_url u c.cache_map)) [
  | inl x ↦ rw (put_is_new u body now c x) (new_others u body now c s x h v other)
  | inr (i, x) ↦
      let (e, at, same) = s.leads u i x in
      rw (put_is_old u body now c {i = i} {e = e} x at)
        (old_others i e body now c s at h v (ap (same_text v) same ∙ other))
]

-- After `put` of a URL that is new, or of a body no longer than the cache is large, the cache holds the
-- body for the URL; what it holds for another URL it held before, or that has been evicted.
pub put-content :
    (u v body : List ℕ) (now : ℕ) (c : LruCache)
    → IsSound c
    → total c.lru_list + length body < 2 ^ 64
    → (content u c ≡ none) ⊎ (length body ≤ c.max_bytes)
    → same_text v u ≡ false
    → (content u (put u body now c) ≡ some body)
      × ((content v (put u body now c) ≡ content v c) ⊎ (content v (put u body now c) ≡ none))
put-content u v body now c s h f other =
    (put_own u body now c s h f, put_others u v body now c s h other)
