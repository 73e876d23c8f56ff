-- ===== src/Shm/Put.antt =====
-- `shm_put` on a free map: the bucket that it leaves, and the map that the table stands for.
use mathlib.Core.Path.{subst}
use green_hash_tree.Prelude.{
  ◌≡◌, refl, ap, ◌∙◌, eq_of_==, true, Bool-cases, inl, inr, some, List, [], ◌∷◌, arith,
  if◌then◌else◌, get_elem?, set, length-set, ◌==◌,
}
use green_hash_tree.Prelude.Int.{ℤ, int_eq, int_eq→≡}
use green_hash_tree.Prelude.Run.{ok}
use green_hash_tree.Shm.{
  Chars, DataVal, Bucket, HashMap, unlocked, write_locked, PutArgs, overwrite, copy_in,
  first_record, new_record, unlock, bucket_of, put_links, put_bucket, shm_put,
}
use green_hash_tree.Shm.Lookup.{
  assoc, records, lookup, IsValid, bucket_of-lt, bucket_found, bucket_at-ok, lookup_at, lookup-set,
}

-- The record that a walk starts at, and those behind it, when the walk has ended.
unfoldable pub start_after : PutArgs → DataVal → List DataVal → DataVal
start_after a r [] = copy_in a r
start_after a r (x ∷ next) = r

unfoldable pub chain_after : PutArgs → List DataVal → List DataVal
chain_after a [] = new_record a ∷ []
chain_after a (x ∷ next) =
    if int_eq x.key a.key then overwrite a x ∷ next else start_after a x next ∷ chain_after a next

unfoldable pub bucket_after : PutArgs → Bucket → Bucket
bucket_after a b =
    if b.head.used
    then (if int_eq b.head.key a.key
        then record b { head = overwrite a b.head }
        else record { head = start_after a b.head b.chain; chain = chain_after a b.chain })
    else record { head = first_record a; chain = [] }

put_links-after :
    (a : PutArgs) (r : DataVal) (next : List DataVal)
    → a.has_memory ≡ true
    → put_links a write_locked r next ≡ ok (unlocked, start_after a r next, chain_after a next)
unfolding put_links unlock start_after chain_after
put_links-after a r [] mem = rw mem refl
put_links-after a r (x ∷ next) mem = elim (Bool-cases (int_eq x.key a.key)) [
  | inl e ↦ rw e refl
  | inr e ↦ rw (e, put_links-after a x next mem) refl
]

put_bucket-after :
    (a : PutArgs) (b : Bucket)
    → a.has_memory ≡ true
    → put_bucket a write_locked b ≡ ok (unlocked, bucket_after a b)
unfolding put_bucket bucket_after unlock
put_bucket-after a b mem = elim (Bool-cases b.head.used) [
  | inr e ↦ simp e refl
  | inl e ↦ elim (Bool-cases (int_eq b.head.key a.key)) [
    | inl f ↦ simp (e, f) refl
    | inr f ↦ simp (e, f, put_links-after a b.head b.chain mem) refl
  ]
]

abbrev pub put_args : Chars → HashMap → ℤ → ℤ → PutArgs
put_args fresh m key value = record {
  key = key;
  val = value;
  data_r = m.example_r;
  has_memory = true;
  fresh = fresh;
}

-- The map that `shm_put` leaves, its bucket being `b`.
abbrev pub map_after : Chars → HashMap → ℤ → ℤ → Bucket → HashMap
map_after fresh m key value b = record m {
  table = set m.table (bucket_of m key) (bucket_after (put_args fresh m key value) b);
  lock = unlocked;
}

pub shm_put-after :
    {m : HashMap} {b : Bucket} (fresh : Chars) (key value : ℤ)
    → IsValid m
    → get_elem? m.table (bucket_of m key) ≡ some b
    → shm_put true fresh m key value ≡ ok (map_after fresh m key value b)
unfolding shm_put
shm_put-after {m} {b} fresh key value v at = simp v.free (
    simp (bucket_at-ok m (bucket_of m key) at, put_bucket-after (put_args fresh m key value) b refl)
      refl)

pub map_after-IsValid :
    {m : HashMap} (fresh : Chars) (key value : ℤ) (b : Bucket)
    → IsValid m
    → IsValid (map_after fresh m key value b)
map_after-IsValid {m} fresh key value b v = record {
  sized = length-set m.table _ _ ∙ v.sized;
  positive = v.positive;
  free = refl;
}

-- The walk leaves the record that it starts at with its key, value and mark.
pub start_after-same :
    (a : PutArgs) (r : DataVal) (next : List DataVal)
    → let r' = start_after a r next in (r'.key ≡ r.key) × (r'.val ≡ r.val) × (r'.used ≡ r.used)
unfolding start_after
start_after-same a r [] = (refl, refl, refl)
start_after-same a r (x ∷ next) = (refl, refl, refl)

pub assoc-chain_after :
    (a : PutArgs) (k : ℤ) (next : List DataVal)
    → assoc k (chain_after a next) ≡ (if int_eq a.key k then some a.val else assoc k next)
unfolding chain_after
assoc-chain_after a k [] = refl
assoc-chain_after a k (x ∷ next) = elim (Bool-cases (int_eq x.key a.key)) [
  | inl e ↦ rw e (ground arith)
  | inr e ↦ rw e (ground (arith, start_after-same a x next, assoc-chain_after a k next))
]

assoc-bucket_after :
    (a : PutArgs) (k : ℤ) (b : Bucket)
    → assoc k (records (bucket_after a b))
      ≡ (if int_eq a.key k then some a.val else assoc k (records b))
unfolding bucket_after
assoc-bucket_after a k b = elim (Bool-cases b.head.used) [
  | inr e ↦ simp e refl
  | inl e ↦ elim (Bool-cases (int_eq b.head.key a.key)) [
    | inl f ↦ simp (e, f) (ground arith)
    | inr f ↦
        simp (e, f)
          (ground (arith, start_after-same a b.head b.chain, assoc-chain_after a k b.chain))
  ]
]

-- From what a put does to its bucket to what it does to the map.
rebound :
    (b b' : Bucket) (m : HashMap) (key k value : ℤ)
    → get_elem? m.table (bucket_of m key) ≡ some b
    → assoc k (records b') ≡ (if int_eq key k then some value else assoc k (records b))
    → (if bucket_of m key == bucket_of m k then assoc k (records b') else lookup m k)
      ≡ (if int_eq key k then some value else lookup m k)
rebound b b' m key k value at bound = elim (Bool-cases (int_eq key k)) [
  | inl e ↦
      let same : bucket_of m key ≡ bucket_of m k = ap (bucket_of m) (int_eq→≡ key k e) in
      ground (arith, same, bound, e)
  | inr e ↦ elim (Bool-cases (bucket_of m key == bucket_of m k)) [
    | inl f ↦
        let here = lookup_at m k (subst (λ j. get_elem? m.table j ≡ some b) (eq_of_== _ _ f) at) in
        ground (arith, bound, e, f, here)
    | inr f ↦ rw (e, f) refl
  ]
]

pub lookup-map_after :
    {m : HashMap} {b : Bucket} (fresh : Chars) (key k value : ℤ)
    → IsValid m
    → get_elem? m.table (bucket_of m key) ≡ some b
    → lookup (map_after fresh m key value b) k ≡ (if int_eq key k then some value else lookup m k)
lookup-map_after {m} {b} fresh key k value v at =
    let a = put_args fresh m key value in
    let b' = bucket_after a b in
    lookup-set m (bucket_of m key) b' k (bucket_of-lt key v)
    ∙ rebound b b' m key k value at (assoc-bucket_after a k b)

-- With memory for a record, whatever bytes it holds, `shm_put` on a free map ends and leaves the map free and of its size.
-- Afterwards the key has the value, and every other key what it had.
pub shm_put_lem :
    {m : HashMap} (fresh : Chars) (key value : ℤ)
    → IsValid m
    → (m' : HashMap) × (shm_put true fresh m key value ≡ ok m')
      × IsValid m'
      × (m'.size ≡ m.size)
      × ((k : ℤ) → lookup m' k ≡ (if int_eq key k then some value else lookup m k))
shm_put_lem {m} fresh key value v =
    let (b, at) = bucket_found key v in
    (
      map_after fresh m key value b,
      shm_put-after fresh key value v at,
      map_after-IsValid fresh key value b v,
      refl,
      λ k. lookup-map_after fresh key k value v at,
    )
