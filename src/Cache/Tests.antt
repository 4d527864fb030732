-- ===== src/Cache/Tests.antt =====
-- The cache on concrete calls.
use proxy_server_sa.Base.{
  ℕ, ◌^◌, ◌≤◌, ◌<◌, ◌≡◌, ◌≢◌, refl, ◌⊎◌, none, some, List, [], ◌∷◌, arith, length,
}
use proxy_server_sa.Base.Text.{same_text}
use proxy_server_sa.Cache.{LruCache, new_cache, evict_if_needed, get, put_new, put}
use proxy_server_sa.Cache.Evict.{IsSound, Evicted, evict_if_needed-Evicted}
use proxy_server_sa.Cache.Contents.{content}
use proxy_server_sa.Cache.Budget.{put_held, put_too_large}
use proxy_server_sa.Cache.Refinement.{abstract_get, abstract_put, view}
use proxy_server_sa.Cache.Agreement.{cache_refines}
use proxy_server_sa.Cache.Sequences.{Call, put_call, after_calls, calls-IsSound}

abbrev two_calls : List Call
two_calls = put_call (97 ∷ []) (1 ∷ 2 ∷ 3 ∷ []) 10 ∷ put_call (98 ∷ []) (4 ∷ 5 ∷ []) 11 ∷ []

unfoldable held : LruCache
unfolding new_cache after_calls
held = after_calls two_calls (new_cache 6)

held-IsSound : IsSound held
unfolding held
held-IsSound = (calls-IsSound 6 two_calls (omega arith) (omega arith, (omega arith, tt))).0

calls-IsSound_example :
    IsSound (after_calls two_calls (new_cache 6))
    × ((after_calls two_calls (new_cache 6)).current_size < 2 ^ 63)
calls-IsSound_example = calls-IsSound 6 two_calls (omega arith) (omega arith, (omega arith, tt))

-- The entry used longest ago goes.
evicts_oldest :
    get (97 ∷ []) (put (99 ∷ []) (6 ∷ 7 ∷ []) 12 held) ≡ (none, put (99 ∷ []) (6 ∷ 7 ∷ []) 12 held)
unfolding held get put put_new evict_if_needed after_calls same_text
evicts_oldest = refl

evict_if_needed-Evicted_example : Evicted 2 held (evict_if_needed 2 held)
unfolding held same_text
evict_if_needed-Evicted_example = evict_if_needed-Evicted 2 held held-IsSound (omega arith)

put_held_example :
    ((put (99 ∷ []) (6 ∷ 7 ∷ []) 12 held).current_size ≤ held.max_bytes)
    ⊎ ((content (99 ∷ []) held ≡ none) × ((put (99 ∷ []) (6 ∷ 7 ∷ []) 12 held).current_size ≡ 2))
unfolding held same_text
put_held_example = put_held (99 ∷ []) (6 ∷ 7 ∷ []) 12 held held-IsSound (omega arith)

abbrev seven : List ℕ
seven = 1 ∷ 2 ∷ 3 ∷ 4 ∷ 5 ∷ 6 ∷ 7 ∷ []

put_too_large_example :
    ((content (97 ∷ []) held ≡ none)
      × (content (97 ∷ []) (put (97 ∷ []) seven 14 held) ≡ some seven)
      × (length (put (97 ∷ []) seven 14 held).lru_list ≡ 1))
    ⊎ ((content (97 ∷ []) held ≢ none) × ((put (97 ∷ []) seven 14 held).lru_list ≡ []))
unfolding held same_text
put_too_large_example =
    put_too_large (97 ∷ []) seven 14 held held-IsSound (omega arith) (omega arith)

cache_refines_example :
    ((get (97 ∷ []) held).0 ≡ (abstract_get (97 ∷ []) (view held.lru_list)).0)
    × (view (get (97 ∷ []) held).1.lru_list ≡ (abstract_get (97 ∷ []) (view held.lru_list)).1)
    × (view (put (99 ∷ []) (6 ∷ 7 ∷ []) 12 held).lru_list
        ≡ abstract_put held.max_bytes (99 ∷ []) (6 ∷ 7 ∷ []) (view held.lru_list))
unfolding held same_text
cache_refines_example =
    cache_refines (97 ∷ []) (99 ∷ []) (6 ∷ 7 ∷ []) 12 held held-IsSound (omega arith)
