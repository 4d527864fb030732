-- ===== src/Cache/Sequences.antt =====
-- Any calls of `get` and `put`, one after another.
use proxy_server_sa.Base.{
  ℕ, ◌+◌, ◌^◌, ◌<◌, ◌≡◌, inl, inr, List, [], ◌∷◌, arith, length, All, Option-cases, refl,
}
use proxy_server_sa.Cache.{LruCache, new_cache, find_url, move_to_front, get, put}
use proxy_server_sa.Cache.Nodes.{total}
use proxy_server_sa.Cache.Evict.{IsSound}
use proxy_server_sa.Cache.Sound.{new_cache-IsSound, get-IsSound}
use proxy_server_sa.Cache.Put.{put-IsSound, put-max_bytes}
use proxy_server_sa.Cache.Budget.{put_held}

pub data Call : Type 0 where
  get_call : List ℕ → Call
  put_call : List ℕ → List ℕ → ℕ → Call

unfoldable pub after_call : Call → LruCache → LruCache
unfolding get put
after_call (get_call u) c = (get u c).1
after_call (put_call u body now) c = put u body now c

unfoldable pub after_calls : List Call → LruCache → LruCache
unfolding after_call
after_calls [] c = c
after_calls (x ∷ l) c = after_calls l (after_call x c)

-- A body takes less than half of what `size_t` counts.
abbrev pub IsModest : Call → Type 0
IsModest (get_call u) = Unit
IsModest (put_call u body now) = length body < 2 ^ 63

get-max_bytes : (u : List ℕ) (c : LruCache) → (get u c).1.max_bytes ≡ c.max_bytes
unfolding get move_to_front
get-max_bytes u c = elim (Option-cases (find_url u c.cache_map)) [
  | inl x ↦ rw (x, get) refl
  | inr (i, x) ↦ rw (x, get) refl
]

get-current_size : (u : List ℕ) (c : LruCache) → (get u c).1.current_size ≡ c.current_size
unfolding get move_to_front
get-current_size u c = elim (Option-cases (find_url u c.cache_map)) [
  | inl x ↦ rw (x, get) refl
  | inr (i, x) ↦ rw (x, get) refl
]

step :
    (x : Call) (c : LruCache)
    → IsModest x
    → c.max_bytes < 2 ^ 63
    → IsSound c × (c.current_size < 2 ^ 63)
    → IsSound (after_call x c)
      × (((after_call x c).current_size < 2 ^ 63) × ((after_call x c).max_bytes ≡ c.max_bytes))
unfolding after_call
step (get_call u) c m x (s, h) =
    (get-IsSound u c s, (omega (arith, get-current_size u c), get-max_bytes u c))
step (put_call u body now) c m x (s, h) = (
  put-IsSound u body now c s fine,
  (
    elim (put_held u body now c s fine) [ inl y ↦ omega (arith, y) | inr y ↦ omega (arith, y.1) ],
    put-max_bytes u body now c s fine,
  ),
)
  where
    fine : total c.lru_list + length body < 2 ^ 64
    fine = omega (arith, s.counted, m)

after_calls_lem :
    (l : List Call) (c : LruCache)
    → All IsModest l
    → c.max_bytes < 2 ^ 63
    → IsSound c × (c.current_size < 2 ^ 63)
    → IsSound (after_calls l c) × ((after_calls l c).current_size < 2 ^ 63)
unfolding after_calls
after_calls_lem [] c m x s = s
after_calls_lem (y ∷ l) c m x s =
    let (t, (small, same)) = step y c m.0 x s in
    after_calls_lem l (after_call y c) m.1 (omega (arith, same)) (t, small)

-- From a new cache on, with a limit and bodies below 2 ^ 63 bytes, every sequence of calls keeps the invariant: the index and the
-- list name the same entries, each once, and the count of the bytes is the sum of the sizes, below 2 ^ 63 at any time.
pub calls-IsSound :
    (max : ℕ) (l : List Call)
    → max < 2 ^ 63
    → All IsModest l
    → IsSound (after_calls l (new_cache max))
      × ((after_calls l (new_cache max)).current_size < 2 ^ 63)
unfolding new_cache
calls-IsSound max l h m = after_calls_lem l (new_cache max) m h (new_cache-IsSound max, omega arith)
