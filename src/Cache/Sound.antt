-- ===== src/Cache/Sound.antt =====
-- `get` and `put` keep the invariant, and what is put is found.
use proxy_server_sa.Base.{
  ℕ, suc, ◌+◌, ◌^◌, ◌<◌, ◌≡◌, refl, sym, ap, ◌∙◌, inl, inr, none, some, List, [], ◌∷◌, ◌++◌, arith,
  length, All, Option-cases, Bool-cases,
}
use proxy_server_sa.Base.Text.{same_text, same_text_iff}
use proxy_server_sa.Cache.{
  CacheEntry, Nodes, LruCache, add_size, node_at, take_out, splice_front, find_url, assign_url,
  new_cache, move_to_front, evict_if_needed, get, put_new,
}
use proxy_server_sa.Cache.Nodes.{
  Distinct, total, IsSized, node_at-take_out, take_out-Distinct, total-take_out, All-take_out,
  All-node_at,
}
use proxy_server_sa.Cache.Index.{find_url-assign_url}
use proxy_server_sa.Cache.Evict.{IsSound, Evicted, evict_if_needed-Evicted}

pub new_cache-IsSound : (max_bytes : ℕ) → IsSound (new_cache max_bytes)
unfolding new_cache node_at find_url
new_cache-IsSound max_bytes = record {
  distinct = tt;
  sized = tt;
  counted = refl;
  small = omega arith;
  leads = λ u i f. absurd (ground arith);
  listed = λ i e f. absurd (ground arith);
}

-- Where the node is in the list, splicing it is to put it in front of the others.
pub spliced :
    (i : ℕ) (l : Nodes) {e : CacheEntry}
    → node_at i l ≡ some e
    → splice_front i l ≡ (i, e) ∷ take_out i l
unfolding splice_front
spliced i l f = rw (f, splice_front) refl

pub node_at-splice_front :
    (j i : ℕ) (l : Nodes) {e : CacheEntry}
    → Distinct l
    → node_at i l ≡ some e
    → node_at j (splice_front i l) ≡ node_at j l
unfolding node_at
node_at-splice_front j i l {e} d f =
    rw (spliced i l {e = e} f) (ground (arith, node_at-take_out j i l d))

pub move_to_front-IsSound :
    (i : ℕ) (c : LruCache) {e : CacheEntry}
    → IsSound c
    → node_at i c.lru_list ≡ some e
    → IsSound (move_to_front i c)
unfolding move_to_front
move_to_front-IsSound i c {e} s f = record {
  distinct = rw (spliced i c.lru_list {e = e} f) (
    ground (arith, node_at-take_out i i c.lru_list s.distinct),
    take_out-Distinct i c.lru_list s.distinct,
  );
  sized = rw (spliced i c.lru_list {e = e} f) (
    All-node_at (IsSized c.next_node) i c.lru_list {e = e} s.sized f,
    All-take_out (IsSized c.next_node) i c.lru_list s.sized,
  );
  counted =
      rw (spliced i c.lru_list {e = e} f)
        (omega (arith, s.counted, total-take_out i c.lru_list {e = e} f));
  small =
      rw (spliced i c.lru_list {e = e} f)
        (omega (arith, s.small, total-take_out i c.lru_list {e = e} f));
  leads = λ u j g.
      let (x, at, same) = s.leads u j g in
      (x, node_at-splice_front j i c.lru_list {e = e} s.distinct f ∙ at, same);
  listed =
      λ j x g. s.listed j x (sym (node_at-splice_front j i c.lru_list {e = e} s.distinct f) ∙ g);
}

-- `get` keeps the invariant.
pub get-IsSound : (u : List ℕ) (c : LruCache) → IsSound c → IsSound (get u c).1
unfolding get
get-IsSound u c s = elim (Option-cases (find_url u c.cache_map)) [
  | inl x ↦ rw (x, get) s
  | inr (i, x) ↦
      let (e, at, _) = s.leads u i x in rw (x, get) (move_to_front-IsSound i c {e = e} s at)
]

-- A number that no node has yet.
unused : (n : ℕ) (l : Nodes) → All (IsSized n) l → node_at n l ≡ none
unfolding node_at
unused n [] h = refl
unused n ((j, e) ∷ l) h = ground (arith, unused n l h.1)

numbered_later : (n : ℕ) (l : Nodes) → All (IsSized n) l → All (IsSized (suc n)) l
numbered_later n [] h = tt
numbered_later n ((j, e) ∷ l) h = ((h.0.0, omega (arith, h.0.1)), numbered_later n l h.1)

pub node_at-append :
    (i : ℕ) (l m : Nodes) {e : CacheEntry} → node_at i l ≡ some e → node_at i (l ++ m) ≡ some e
unfolding node_at
node_at-append i [] m f = ground arith
node_at-append i ((j, x) ∷ l) m {e} f = ground (arith, node_at-append i l m {e = e})

pub Evicted-node_at :
    (required : ℕ) (c c' : LruCache) (i : ℕ) {e : CacheEntry}
    → Evicted required c c'
    → node_at i c'.lru_list ≡ some e
    → node_at i c.lru_list ≡ some e
Evicted-node_at required c c' i {e} r at =
    ap (node_at i) r.split ∙ node_at-append i c'.lru_list r.gone {e = e} at

-- Eviction adds nothing to the index.
pub not_added :
    (u : List ℕ) (required : ℕ) (c c' : LruCache)
    → IsSound c
    → Evicted required c c'
    → find_url u c.cache_map ≡ none
    → find_url u c'.cache_map ≡ none
not_added u required c c' s r f = elim (Option-cases (find_url u c'.cache_map)) [
  | inl x ↦ x
  | inr (i, x) ↦
      let (e, at, same) = r.sound.leads u i x in
      let before : node_at i c.lru_list ≡ some e =
        ap (node_at i) r.split ∙ node_at-append i c'.lru_list r.gone {e = e} at in
      let clash : find_url u c.cache_map ≡ some i =
        ap (λ v. find_url v c.cache_map) (sym same) ∙ s.listed i e before in
      absurd (ground arith)
]

pub total-append : (l m : Nodes) → total (l ++ m) ≡ total l + total m
total-append [] m = omega arith
total-append ((i, e) ∷ l) m = omega (arith, total-append l m)

-- A new node for a new URL, in front of the list.
module _ (c : LruCache) (n : ℕ) (x : CacheEntry) (s : IsSound c)
    (free : node_at n c.lru_list ≡ none) (absent : find_url x.url c.cache_map ≡ none) where
  added_leads :
      (u : List ℕ) (i : ℕ)
      → find_url u (assign_url x.url n c.cache_map) ≡ some i
      → (e : CacheEntry) × (node_at i ((n, x) ∷ c.lru_list) ≡ some e) × (e.url ≡ u)
  unfolding node_at
  added_leads u i g = elim (Bool-cases (same_text u x.url)) [
    | inl t ↦ (
      x,
      ground (arith, find_url-assign_url u x.url n c.cache_map),
      sym ((same_text_iff u x.url).0 t),
    )
    | inr t ↦
        let (e, at, same) =
          s.leads u i (ground (arith, find_url-assign_url u x.url n c.cache_map)) in
        (e, ground arith, same)
  ]

  added_listed :
      (i : ℕ) (e : CacheEntry)
      → node_at i ((n, x) ∷ c.lru_list) ≡ some e
      → find_url e.url (assign_url x.url n c.cache_map) ≡ some i
  unfolding node_at
  added_listed i e g = ground (
    arith,
    find_url-assign_url e.url x.url n c.cache_map,
    same_text_iff e.url x.url,
    s.listed i e,
  )

pub put_new-IsSound :
    (u body : List ℕ) (now : ℕ) (c : LruCache)
    → IsSound c
    → find_url u c.cache_map ≡ none
    → total c.lru_list + length body < 2 ^ 64
    → IsSound (put_new u body now c)
unfolding put_new add_size
put_new-IsSound u body now c s f h = record {
  distinct = (none_yet, r.sound.distinct);
  sized = ((refl, omega arith), numbered_later c1.next_node c1.lru_list r.sound.sized);
  counted = omega (arith, r.sound.counted, sum);
  small = omega (arith, sum);
  leads = λ v i g. added_leads c1 c1.next_node entry r.sound none_yet absent v i g;
  listed = λ i e g. added_listed c1 c1.next_node entry r.sound none_yet absent i e g;
}
  where
    c1 : LruCache
    c1 = evict_if_needed (length body) c

    r : Evicted (length body) c c1
    r = evict_if_needed-Evicted (length body) c s h

    none_yet : node_at c1.next_node c1.lru_list ≡ none
    none_yet = unused c1.next_node c1.lru_list r.sound.sized

    sum : total c1.lru_list + length body < 2 ^ 64
    sum = omega (arith, ap total r.split ∙ total-append c1.lru_list r.gone, h)

    entry : CacheEntry
    entry = record { url = u; body = body; size = length body; timestamp = now }

    absent : find_url u c1.cache_map ≡ none
    absent = not_added u (length body) c c1 s r f
