-- ===== src/Cache.antt =====
-- core/cache/LRUCache.h and LRUCache.cc: the cache of responses. An iterator of `std::list` stays with
-- its node while other nodes come and go, so nodes are numbered, and an iterator is such a number;
-- `next_node` numbers the next node. The list begins with the entry used last.
pub mod Nodes
pub mod Index
pub mod Evict
pub mod Sound
pub mod Put
pub mod Contents
pub mod Budget
pub mod Refinement
pub mod Agreement
pub mod Sequences
mod Tests
use proxy_server_sa.Base.{
  ℕ, zero, suc, ◌+◌, ◌-◌, ◌%◌, ◌^◌, Bool, true, false, ◌&&◌, not, Option, none, some, List, [], ◌∷◌,
  if◌then◌else◌, ltb, ◌==◌, length, is_empty,
}
use proxy_server_sa.Base.Text.{same_text}

-- `data` is `body` here. Its type for time is a number.
pub record CacheEntry : Type 0 where
  pub url : List ℕ
  pub body : List ℕ
  pub size : ℕ
  pub timestamp : ℕ

abbrev pub Nodes : Type 0
Nodes = List (ℕ × CacheEntry)

abbrev pub Index : Type 0
Index = List (List ℕ × ℕ)

pub record LruCache : Type 0 where
  pub max_bytes : ℕ
  pub current_size : ℕ
  pub lru_list : Nodes
  pub cache_map : Index
  pub next_node : ℕ

-- `size_t` wraps around.
unfoldable pub add_size : ℕ → ℕ → ℕ
add_size a b = (a + b) % 2 ^ 64

unfoldable pub sub_size : ℕ → ℕ → ℕ
sub_size a b = (a + 2 ^ 64 - b) % 2 ^ 64

-- `*it`
unfoldable pub node_at : ℕ → Nodes → Option CacheEntry
node_at i [] = none
node_at i ((j, e) ∷ l) = if i == j then some e else node_at i l

-- A write through an iterator.
unfoldable pub write_node : ℕ → CacheEntry → Nodes → Nodes
write_node i x [] = []
write_node i x ((j, e) ∷ l) =
    let rest = write_node i x l in if i == j then (j, x) ∷ l else (j, e) ∷ rest

unfoldable pub take_out : ℕ → Nodes → Nodes
take_out i [] = []
take_out i ((j, e) ∷ l) = let rest = take_out i l in if i == j then l else (j, e) ∷ rest

-- `lruList.splice(lruList.begin(), lruList, it)`
unfoldable pub splice_front : ℕ → Nodes → Nodes
unfolding node_at take_out
splice_front i l = elim (node_at i l) [ none ↦ l | some e ↦ (i, e) ∷ take_out i l ]

-- `lruList.back()`
unfoldable pub back : Nodes → Option (ℕ × CacheEntry)
back [] = none
back (x ∷ []) = some x
back (x ∷ y ∷ l) = back (y ∷ l)

unfoldable pub pop_back : Nodes → Nodes
pop_back [] = []
pop_back (x ∷ []) = []
pop_back (x ∷ y ∷ l) = x ∷ pop_back (y ∷ l)

-- `cacheMap`: `find`, `erase` and `[] =`.
unfoldable pub find_url : List ℕ → Index → Option ℕ
find_url u [] = none
find_url u ((v, i) ∷ m) = if same_text u v then some i else find_url u m

unfoldable pub erase_url : List ℕ → Index → Index
erase_url u [] = []
erase_url u ((v, i) ∷ m) = let rest = erase_url u m in if same_text u v then rest else (v, i) ∷ rest

unfoldable pub assign_url : List ℕ → ℕ → Index → Index
assign_url u i [] = (u, i) ∷ []
assign_url u i ((v, j) ∷ m) =
    let rest = assign_url u i m in if same_text u v then (v, i) ∷ m else (v, j) ∷ rest

-- `LRUCache(maxBytes)`
unfoldable pub new_cache : ℕ → LruCache
new_cache max_bytes = record {
  max_bytes = max_bytes;
  current_size = 0;
  lru_list = [];
  cache_map = [];
  next_node = 0;
}

unfoldable pub move_to_front : ℕ → LruCache → LruCache
unfolding splice_front
move_to_front i c = record c { lru_list = splice_front i c.lru_list }

-- The body of the loop of `evictIfNeeded`, where `last` is the last entry.
unfoldable pub evict_last : CacheEntry → LruCache → LruCache
unfolding sub_size erase_url pop_back
evict_last last c = record c {
  current_size = sub_size c.current_size last.size;
  cache_map = erase_url last.url c.cache_map;
  lru_list = pop_back c.lru_list;
}

-- That loop. Each round takes an entry off the list, so the number of entries is fuel enough.
unfoldable pub evict_loop : ℕ → ℕ → LruCache → LruCache
unfolding evict_last add_size back
evict_loop zero required c = c
evict_loop (suc fuel) required c = elim (ltb c.max_bytes (add_size c.current_size required)) [
  | false ↦ c
  | true ↦ elim (back c.lru_list) [
    | none ↦ c
    | some (i, last) ↦ evict_loop fuel required (evict_last last c)
  ]
]

unfoldable pub evict_if_needed : ℕ → LruCache → LruCache
unfolding evict_loop
evict_if_needed required c = evict_loop (length c.lru_list) required c

-- What stands behind an iterator of the index.
unfoldable pub entry_of : LruCache → Option ℕ → Option CacheEntry
entry_of c none = none
entry_of c (some i) = node_at i c.lru_list

unfoldable pub body_of : Option CacheEntry → Option (List ℕ)
body_of none = none
body_of (some e) = some e.body

-- `get`
unfoldable pub get : List ℕ → LruCache → Option (List ℕ) × LruCache
unfolding find_url move_to_front body_of
get u c = elim (find_url u c.cache_map) [
  | none ↦ (none, c)
  | some i ↦ (body_of (node_at i (move_to_front i c).lru_list), move_to_front i c)
]

-- `put` where the index has the node `i`, which holds `old`.
unfoldable pub put_old : ℕ → CacheEntry → List ℕ → ℕ → LruCache → LruCache
unfolding sub_size add_size write_node move_to_front evict_if_needed
put_old i old body now c =
    let entry = record old { body = body; size = length body; timestamp = now } in
    evict_if_needed 0 (
      move_to_front i (record c {
        current_size = add_size (sub_size c.current_size old.size) (length body);
        lru_list = write_node i entry c.lru_list;
      }))

-- `put` of a new entry.
unfoldable pub put_new : List ℕ → List ℕ → ℕ → LruCache → LruCache
unfolding add_size assign_url evict_if_needed
put_new u body now c =
    let c1 = evict_if_needed (length body) c in
    let entry : CacheEntry = record { url = u; body = body; size = length body; timestamp = now } in
    record c1 {
      current_size = add_size c1.current_size (length body);
      lru_list = (c1.next_node, entry) ∷ c1.lru_list;
      cache_map = assign_url u c1.next_node c1.cache_map;
      next_node = suc c1.next_node;
    }

-- `put`; `now` is the time. A node that the index names is in the list, so `none` for it does not
-- come up.
unfoldable pub put : List ℕ → List ℕ → ℕ → LruCache → LruCache
unfolding find_url put_old put_new node_at
put u body now c = elim (find_url u c.cache_map) [
  | none ↦ put_new u body now c
  | some i ↦ elim (node_at i c.lru_list) [ none ↦ c | some old ↦ put_old i old body now c ]
]
