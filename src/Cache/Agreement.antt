-- ===== src/Cache/Agreement.antt =====
-- `get` and `put` do what the list of `Refinement` does.
use proxy_server_sa.Base.{
  ℕ, ◌+◌, ◌^◌, ◌<◌, ◌≡◌, refl, subst, ap, ◌∙◌, inl, inr, none, some, List, ◌∷◌, length, All,
  Option-cases,
}
use proxy_server_sa.Cache.{
  CacheEntry, LruCache, node_at, find_url, body_of, move_to_front, splice_front, evict_if_needed,
  get, put_old, put_new, put,
}
use proxy_server_sa.Cache.Nodes.{total}
use proxy_server_sa.Cache.Evict.{IsSound, evict_if_needed-Evicted}
use proxy_server_sa.Cache.Sound.{spliced, node_at-splice_front}
use proxy_server_sa.Cache.Put.{entry, moved, moved-Evicted, moved_list, moved_max, moved-IsSound}
use proxy_server_sa.Cache.Contents.{put_is_new, put_is_old}
use proxy_server_sa.Cache.Refinement.{
  Entries, held, without, trim, abstract_get, abstract_put, view, IsKeyed, keyed, held_none,
  held_some, view-take_out, take_out-write_node, Evicted-trim,
}

-- What the list holds for a URL that the index does not know, and for one that it knows.
absent :
    (u : List ℕ) (c : LruCache)
    → IsSound c
    → find_url u c.cache_map ≡ none
    → held u (view c.lru_list) ≡ none
absent u c s x = held_none u c.lru_list (subst (λ o. All (IsKeyed u o) c.lru_list) x (keyed u c s))

module _ (u : List ℕ) (i : ℕ) (e : CacheEntry) (c : LruCache) (s : IsSound c)
    (x : find_url u c.cache_map ≡ some i) (at : node_at i c.lru_list ≡ some e)
    (same : e.url ≡ u) where
  keys : All (IsKeyed u (some i)) c.lru_list
  keys = subst (λ o. All (IsKeyed u o) c.lru_list) x (keyed u c s)

  present : held u (view c.lru_list) ≡ some e.body
  present = held_some u i c.lru_list {e = e} keys at

  view-splice_front : view (splice_front i c.lru_list) ≡ (u, e.body) ∷ without u (view c.lru_list)
  unfolding view
  view-splice_front =
      ap view (spliced i c.lru_list {e = e} at)
      ∙ (ap (λ (l : Entries). (e.url, e.body) ∷ l) (view-take_out u i c.lru_list keys)
          ∙ ap (λ (v : List ℕ). (v, e.body) ∷ without u (view c.lru_list)) same)

  put_old-trim :
      (body : List ℕ) (now : ℕ)
      → total c.lru_list + length body < 2 ^ 64
      → view (put_old i e body now c).lru_list
        ≡ trim c.max_bytes 0 ((u, body) ∷ without u (view c.lru_list))
  unfolding view
  put_old-trim body now h =
      Evicted-trim 0 (moved i e body now c s at h) (put_old i e body now c)
        (moved-IsSound i e body now c s at h) (moved-Evicted i e body now c s at h)
      ∙ (ap (λ (n : ℕ). trim n 0 (view (moved i e body now c s at h).lru_list))
            (moved_max i e body now c s at h)
          ∙ (ap (λ l. trim c.max_bytes 0 (view l)) (moved_list i e body now c s at h)
              ∙ (ap (λ l. trim c.max_bytes 0 ((e.url, body) ∷ view l))
                    (take_out-write_node i (entry i e body now c s at h) c.lru_list)
                  ∙ (ap (λ (l : Entries). trim c.max_bytes 0 ((e.url, body) ∷ l))
                        (view-take_out u i c.lru_list keys)
                      ∙ ap
                          (λ (v : List ℕ).
                            trim c.max_bytes 0 ((v, body) ∷ without u (view c.lru_list)))
                          same))))

get_refines :
    (u : List ℕ) (c : LruCache)
    → IsSound c
    → ((get u c).0 ≡ (abstract_get u (view c.lru_list)).0)
      × (view (get u c).1.lru_list ≡ (abstract_get u (view c.lru_list)).1)
unfolding get abstract_get body_of move_to_front
get_refines u c s = elim (Option-cases (find_url u c.cache_map)) [
  | inl x ↦ rw (x, get) (rw (absent u c s x, abstract_get) (refl, refl))
  | inr (i, x) ↦
      let (e, at, same) = s.leads u i x in
      rw (x, get)
        (rw (present u i e c s x at same, abstract_get)
          (
            ap body_of (node_at-splice_front i i c.lru_list {e = e} s.distinct at ∙ at),
            view-splice_front u i e c s x at same,
          ))
]

put_new-trim :
    (u body : List ℕ) (now : ℕ) (c : LruCache)
    → IsSound c
    → total c.lru_list + length body < 2 ^ 64
    → view (put_new u body now c).lru_list
      ≡ (u, body) ∷ trim c.max_bytes (length body) (view c.lru_list)
unfolding view put_new
put_new-trim u body now c s h =
    ap (λ (l : Entries). (u, body) ∷ l)
      (Evicted-trim (length body) c (evict_if_needed (length body) c) s
        (evict_if_needed-Evicted (length body) c s h))

put_refines :
    (u body : List ℕ) (now : ℕ) (c : LruCache)
    → IsSound c
    → total c.lru_list + length body < 2 ^ 64
    → view (put u body now c).lru_list ≡ abstract_put c.max_bytes u body (view c.lru_list)
unfolding abstract_put
put_refines u body now c s h = elim (Option-cases (find_url u c.cache_map)) [
  | inl x ↦
      rw (put_is_new u body now c x)
        (rw (absent u c s x, abstract_put) (put_new-trim u body now c s h))
  | inr (i, x) ↦
      let (e, at, same) = s.leads u i x in
      rw (put_is_old u body now c {i = i} {e = e} x at) (
        rw (present u i e c s x at same, abstract_put)
          (put_old-trim u i e c s x at same body now h))
]

-- Seen as the list of what it holds, the one used last in front, the cache does what the list does: `get` answers with the body and
-- brings the entry to the front; `put` puts the entry in front, a known URL once, and keeps as many of the others, those used
-- last, as there is room for.
pub cache_refines :
    (u v body : List ℕ) (now : ℕ) (c : LruCache)
    → IsSound c
    → total c.lru_list + length body < 2 ^ 64
    → ((get u c).0 ≡ (abstract_get u (view c.lru_list)).0)
      × (view (get u c).1.lru_list ≡ (abstract_get u (view c.lru_list)).1)
      × (view (put v body now c).lru_list ≡ abstract_put c.max_bytes v body (view c.lru_list))
cache_refines u v body now c s h =
    let (answer, front) = get_refines u c s in (answer, front, put_refines v body now c s h)
