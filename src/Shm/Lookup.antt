-- ===== src/Shm/Lookup.antt =====
-- The map that a `map_t` stands for: the value of the first used record with a key, in the key's
-- bucket, and the 32 bytes of that record. This is the specification of `shm_put` and `shm_get`, apart from how they walk the chain.
use green_hash_tree.Prelude.{
  ℕ, ◌<◌, ◌≡◌, refl, ap, eq_of_==, ◌==◌, Bool-cases, inl, inr, set, get_elem?-set_self,
  get_elem?-set_ne, Option, none, some, List, [], ◌∷◌, arith, if◌then◌else◌, length, get_elem?,
  get_elem?_of_lt,
}
use green_hash_tree.Prelude.Int.{ℤ, int_eq}
use green_hash_tree.Shm.{Chars, DataVal, Bucket, HashMap, unlocked, bucket_of, bucket_at}
use green_hash_tree.Prelude.Run.{ok}

abbrev pub assoc : ℤ → List DataVal → Option ℤ
assoc k [] = none
assoc k (r ∷ rs) = if int_eq r.key k then some r.val else assoc k rs

abbrev pub records : Bucket → List DataVal
records b = if b.head.used then b.head ∷ b.chain else []

abbrev pub assoc_at : ℤ → Option Bucket → Option ℤ
assoc_at k none = none
assoc_at k (some b) = assoc k (records b)

unfoldable pub lookup : HashMap → ℤ → Option ℤ
lookup m k = assoc_at k (get_elem? m.table (bucket_of m k))

abbrev pub assoc_bytes : ℤ → List DataVal → Option Chars
assoc_bytes k [] = none
assoc_bytes k (r ∷ rs) = if int_eq r.key k then some r.simdata else assoc_bytes k rs

abbrev bytes_at : ℤ → Option Bucket → Option Chars
bytes_at k none = none
bytes_at k (some b) = assoc_bytes k (records b)

-- The `simdata` of the record that has the key.
unfoldable pub bytes : HashMap → ℤ → Option Chars
bytes m k = bytes_at k (get_elem? m.table (bucket_of m k))

-- A map that no thread is using: its lock is free, and its table has as many buckets as it says.
pub record IsValid (m : HashMap) : Type 0 where
  pub sized : length m.table ≡ m.size
  pub positive : 0 < m.size
  pub free : m.lock ≡ unlocked

pub bucket_of-lt : {m : HashMap} (k : ℤ) → IsValid m → bucket_of m k < length m.table
unfolding bucket_of
bucket_of-lt k v = omega arith

pub bucket_found :
    {m : HashMap} (k : ℤ) → IsValid m → (b : Bucket) × (get_elem? m.table (bucket_of m k) ≡ some b)
bucket_found {m} k v = get_elem?_of_lt m.table (bucket_of m k) (bucket_of-lt k v)

pub bucket_at-ok :
    {b : Bucket} (m : HashMap) (i : ℕ) → get_elem? m.table i ≡ some b → bucket_at m i ≡ ok b
unfolding bucket_at
bucket_at-ok m i at = rw (at, bucket_at) refl

pub lookup_at :
    {b : Bucket} (m : HashMap) (k : ℤ)
    → get_elem? m.table (bucket_of m k) ≡ some b
    → lookup m k ≡ assoc k (records b)
unfolding lookup
lookup_at m k at = ap (assoc_at k) at

pub bytes-at :
    {b : Bucket} (m : HashMap) (k : ℤ)
    → get_elem? m.table (bucket_of m k) ≡ some b
    → bytes m k ≡ assoc_bytes k (records b)
unfolding bytes
bytes-at m k at = ap (bytes_at k) at

set-at :
    (xs : List Bucket) (i j : ℕ) (b : Bucket) (k : ℤ)
    → i < length xs
    → assoc_at k (get_elem? (set xs i b) j)
      ≡ (if i == j then assoc k (records b) else assoc_at k (get_elem? xs j))
set-at xs i j b k h = elim (Bool-cases (i == j)) [
  | inl e ↦ rw (e, ← eq_of_== i j e, get_elem?-set_self xs i b h) refl
  | inr e ↦ rw (e, get_elem?-set_ne xs i j b (ground arith)) refl
]

-- A write to one bucket is seen at the keys of that bucket alone.
pub lookup-set :
    (m : HashMap) (i : ℕ) (b : Bucket) (k : ℤ)
    → i < length m.table
    → lookup (record m { table = set m.table i b; lock = unlocked }) k
      ≡ (if i == bucket_of m k then assoc k (records b) else lookup m k)
unfolding lookup bucket_of
lookup-set m i b k h = set-at m.table i (bucket_of m k) b k h
