-- ===== src/Cache/Nodes.antt =====
-- The list of entries as numbered nodes: what splicing, writing and popping keep.
use proxy_server_sa.Base.{
  ℕ, suc, ◌+◌, ◌<◌, ◌≡◌, refl, subst, ap, inl, inr, none, some, [], ◌∷◌, ◌++◌, arith, ◌==◌,
  if◌then◌else◌, length, All, Bool-cases,
}
use proxy_server_sa.Cache.{CacheEntry, Nodes, node_at, write_node, take_out, back, pop_back}

-- No node stands in the list twice.
abbrev pub Distinct : Nodes → Type 0
Distinct [] = Unit
Distinct ((i, e) ∷ l) = (node_at i l ≡ none) × Distinct l

abbrev pub total : Nodes → ℕ
total [] = 0
total ((i, e) ∷ l) = e.size + total l

-- Every entry has the size of what it holds, and a number below `n`.
abbrev pub IsSized : ℕ → ℕ × CacheEntry → Type 0
IsSized n (i, e) = (e.size ≡ length e.body) × (i < n)

pub node_at-take_out :
    (j i : ℕ) (l : Nodes)
    → Distinct l
    → node_at j (take_out i l) ≡ (if j == i then none else node_at j l)
unfolding node_at take_out
node_at-take_out j i [] h = ground arith
node_at-take_out j i ((k, e) ∷ l) h = ground (arith, node_at-take_out j i l h.1)

pub take_out-Distinct : (i : ℕ) (l : Nodes) → Distinct l → Distinct (take_out i l)
unfolding take_out
take_out-Distinct i [] h = h
take_out-Distinct i ((k, e) ∷ l) h =
    ground (arith, take_out-Distinct i l h.1, node_at-take_out k i l h.1)

pub total-take_out :
    (i : ℕ) (l : Nodes) {e : CacheEntry}
    → node_at i l ≡ some e
    → e.size + total (take_out i l) ≡ total l
unfolding take_out node_at
total-take_out i [] h = ground arith
total-take_out i ((k, x) ∷ l) {e} h = ground (arith, total-take_out i l {e = e})

pub All-take_out {κ} :
    (P : ℕ × CacheEntry → Type κ) (i : ℕ) (l : Nodes) → All P l → All P (take_out i l)
unfolding take_out
All-take_out P i [] h = h
All-take_out P i ((k, e) ∷ l) h = elim (Bool-cases (i == k)) [
  | inl x ↦ rw x h.1
  | inr x ↦ rw x (h.0, All-take_out P i l h.1)
]

pub All-node_at {κ} :
    (P : ℕ × CacheEntry → Type κ) (i : ℕ) (l : Nodes) {e : CacheEntry}
    → All P l
    → node_at i l ≡ some e
    → P (i, e)
unfolding node_at
All-node_at P i [] h f = ground arith
All-node_at P i ((k, x) ∷ l) {e} h f = elim (Bool-cases (i == k)) [
  | inl q ↦
      let same : ◌≡◌ {A = ℕ × CacheEntry} (k, x) (i, e) =
        let p : i ≡ k = ground arith in let r : x ≡ e = ground arith in cc (p, r) in
      subst P same h.0
  | inr q ↦ All-node_at P i l h.1 (rw q at f)
]

pub node_at-write_node :
    (j i : ℕ) (x : CacheEntry) (l : Nodes) {e : CacheEntry}
    → node_at i l ≡ some e
    → node_at j (write_node i x l) ≡ (if j == i then some x else node_at j l)
unfolding node_at write_node
node_at-write_node j i x [] h = ground arith
node_at-write_node j i x ((k, y) ∷ l) {e} h = ground (arith, node_at-write_node j i x l {e = e})

pub total-write_node :
    (i : ℕ) (x : CacheEntry) (l : Nodes) {e : CacheEntry}
    → node_at i l ≡ some e
    → total (write_node i x l) + e.size ≡ total l + x.size
unfolding node_at write_node
total-write_node i x [] h = ground arith
total-write_node i x ((k, y) ∷ l) {e} h = ground (arith, total-write_node i x l {e = e})

not_there :
    (j i : ℕ) (x : CacheEntry) (l : Nodes)
    → node_at j l ≡ none
    → node_at j (write_node i x l) ≡ none
unfolding node_at write_node
not_there j i x [] h = refl
not_there j i x ((k, y) ∷ l) h = ground (arith, not_there j i x l)

pub write_node-Distinct :
    (i : ℕ) (x : CacheEntry) (l : Nodes) → Distinct l → Distinct (write_node i x l)
unfolding write_node
write_node-Distinct i x [] h = h
write_node-Distinct i x ((k, y) ∷ l) h =
    ground (arith, write_node-Distinct i x l h.1, not_there k i x l)

pub All-write_node {κ} :
    (P : ℕ × CacheEntry → Type κ) (i : ℕ) (x : CacheEntry) (l : Nodes)
    → ((k : ℕ) (y : CacheEntry) → P (k, y) → P (k, x))
    → All P l
    → All P (write_node i x l)
unfolding write_node
All-write_node P i x [] f h = h
All-write_node P i x ((k, y) ∷ l) f h = elim (Bool-cases (i == k)) [
  | inl q ↦ rw q (f k y h.0, h.1)
  | inr q ↦ rw q (h.0, All-write_node P i x l f h.1)
]

-- The last entry.
pub node_at-back :
    (l : Nodes) {i : ℕ} {e : CacheEntry} → Distinct l → back l ≡ some (i, e) → node_at i l ≡ some e
unfolding node_at back
node_at-back [] h f = ground arith
node_at-back ((k, x) ∷ []) h f = ground arith
node_at-back ((k, x) ∷ y ∷ l) {i} {e} h f =
    ground (arith, node_at-back (y ∷ l) {i = i} {e = e} h.1 f)

pub node_at-pop_back :
    (j : ℕ) (l : Nodes) {i : ℕ} {e : CacheEntry}
    → Distinct l
    → back l ≡ some (i, e)
    → node_at j (pop_back l) ≡ (if j == i then none else node_at j l)
unfolding node_at back pop_back
node_at-pop_back j [] h f = ground arith
node_at-pop_back j ((k, x) ∷ []) h f = ground arith
node_at-pop_back j ((k, x) ∷ (k2, y) ∷ l) {i} {e} h f = ground (
  arith,
  node_at-pop_back j ((k2, y) ∷ l) {i = i} {e = e} h.1 f,
  node_at-back ((k2, y) ∷ l) {i = i} {e = e} h.1 f,
)

none_left : (j : ℕ) (l : Nodes) → node_at j l ≡ none → node_at j (pop_back l) ≡ none
unfolding node_at pop_back
none_left j [] h = refl
none_left j ((k, x) ∷ []) h = refl
none_left j ((k, x) ∷ y ∷ l) h = ground (arith, none_left j (y ∷ l))

pub pop_back-Distinct : (l : Nodes) → Distinct l → Distinct (pop_back l)
unfolding pop_back
pop_back-Distinct [] h = h
pop_back-Distinct ((k, x) ∷ []) h = tt
pop_back-Distinct ((k, x) ∷ y ∷ l) h = (none_left k (y ∷ l) h.0, pop_back-Distinct (y ∷ l) h.1)

pub total-pop_back :
    (l : Nodes) {i : ℕ} {e : CacheEntry}
    → back l ≡ some (i, e)
    → e.size + total (pop_back l) ≡ total l
unfolding back pop_back
total-pop_back [] f = ground arith
total-pop_back ((k, x) ∷ []) f = ground arith
total-pop_back ((k, x) ∷ y ∷ l) {i} {e} f = ground (arith, total-pop_back (y ∷ l) {i = i} {e = e} f)

pub split_back :
    (l : Nodes) {i : ℕ} {e : CacheEntry} → back l ≡ some (i, e) → l ≡ pop_back l ++ (i, e) ∷ []
unfolding back pop_back
split_back [] f = ground arith
split_back ((k, x) ∷ []) f = ground arith
split_back ((k, x) ∷ y ∷ l) {i} {e} f = ap (◌∷◌ (k, x)) (split_back (y ∷ l) {i = i} {e = e} f)

pub length-pop_back :
    (l : Nodes) {i : ℕ} {e : CacheEntry}
    → back l ≡ some (i, e)
    → suc (length (pop_back l)) ≡ length l
unfolding back pop_back
length-pop_back [] f = ground arith
length-pop_back (x ∷ []) f = refl
length-pop_back (x ∷ y ∷ l) {i} {e} f = omega (arith, length-pop_back (y ∷ l) {i = i} {e = e} f)

pub All-pop_back {κ} : (P : ℕ × CacheEntry → Type κ) (l : Nodes) → All P l → All P (pop_back l)
unfolding pop_back
All-pop_back P [] h = h
All-pop_back P (x ∷ []) h = tt
All-pop_back P (x ∷ y ∷ l) h = (h.0, All-pop_back P (y ∷ l) h.1)
