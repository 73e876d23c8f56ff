-- ===== src/Shm.antt =====
-- The chained hash map of SimpleHashMap/shm.c and its middleware (shmmiddleware.c).
-- A bucket of the table is its inline record and the records behind its `next` pointers, in order;
-- the last `next` is NULL. Each function takes and returns the map, with its reader-writer lock.
pub mod Lookup
pub mod Put
pub mod Get
pub mod Invariant
pub mod Pointers
pub mod Texts
pub mod Copies
pub mod Substruct
use Prim.Native.String.{String}
use green_hash_tree.Prelude.{
  ℕ, zero, suc, ◌+◌, ◌-◌, ◌%◌, Bool, true, false, Option, none, some, List, [], ◌∷◌, if◌then◌else◌,
  leb, get_elem?, set, replicate,
}
use green_hash_tree.Prelude.Int.{ℤ, pos, int_eq, to_unsigned}
use green_hash_tree.Prelude.Run.{Run, ok, blocked, fault, ◌>>=◌}
use green_hash_tree.Hash.{simplehash}

-- A `char[32]`: the text up to its NUL, or bytes without a NUL, as `malloc` may leave them.
pub data Chars : Type 0 where
  indeterminate : Chars
  text : String → Chars

-- `pthread_rwlock_t`: free, held by a number of readers, or held by a writer.
pub data RwLock : Type 0 where
  unlocked : RwLock
  read_locked : ℕ → RwLock
  write_locked : RwLock

unfoldable pub wrlock : RwLock → Run RwLock
wrlock unlocked = ok write_locked
wrlock (read_locked n) = blocked
wrlock write_locked = blocked

unfoldable pub rdlock : RwLock → Run RwLock
rdlock unlocked = ok (read_locked 1)
rdlock (read_locked n) = ok (read_locked (n + 1))
rdlock write_locked = blocked

unfoldable pub unlock : RwLock → Run RwLock
unlock unlocked = fault
unlock (read_locked n) = ok (if leb n 1 then unlocked else read_locked (n - 1))
unlock write_locked = ok unlocked

-- `dataval_t`, without its `next`.
pub record DataVal : Type 0 where
  pub key : ℤ
  pub val : ℤ
  pub simdata : Chars
  pub used : Bool

pub record Bucket : Type 0 where
  pub head : DataVal
  pub chain : List DataVal

-- `map_t`
pub record HashMap : Type 0 where
  pub table : List Bucket
  pub size : ℕ
  pub lock : RwLock
  pub example_r : Chars
  pub example_w : Chars

-- A pointer to the `val` of a record: the bucket, and the record's place in it, 0 for the inline one.
pub record ValPtr : Type 0 where
  pub bucket : ℕ
  pub place : ℕ

abbrev pub example_text : Chars
example_text = text "abcdefghijklmnopqrstuvwxyzABCDE"

-- What `memset` to 0 makes of a record.
abbrev pub zero_bucket : Bucket
zero_bucket = record {
  head = record { key = pos 0; val = pos 0; simdata = text ""; used = false };
  chain = [];
}

-- `malloc` of the map and of the table succeed.
unfoldable pub shm_new : ℕ → HashMap
shm_new size = record {
  table = replicate size zero_bucket;
  size = size;
  lock = unlocked;
  example_r = example_text;
  example_w = example_text;
}

-- `simplehash(key) % map->size`. With `size` 0 the table has no bucket, and `bucket_at` faults.
unfoldable pub bucket_of : HashMap → ℤ → ℕ
bucket_of m key = simplehash (to_unsigned key) % m.size

-- `&map->table[bucket]`
unfoldable pub bucket_at : HashMap → ℕ → Run Bucket
bucket_at m i = elim (get_elem? m.table i) [ none ↦ fault | some b ↦ ok b ]

-- What is fixed while `shm_put` walks a chain: its arguments, `EXAMPLEDATA_R`, whether `malloc` of a
-- record succeeds, and the bytes that it leaves in the record's `simdata`.
pub record PutArgs : Type 0 where
  pub key : ℤ
  pub val : ℤ
  pub data_r : Chars
  pub has_memory : Bool
  pub fresh : Chars

abbrev pub overwrite : PutArgs → DataVal → DataVal
overwrite a r = record r { val = a.val; simdata = a.data_r }

-- The first record of a bucket that was not used.
abbrev pub first_record : PutArgs → DataVal
first_record a = record { key = a.key; val = a.val; simdata = a.data_r; used = true }

-- `strncpy(record->simdata, map->EXAMPLEDATA_R, 32)`
abbrev pub copy_in : PutArgs → DataVal → DataVal
copy_in a r = record r { simdata = a.data_r }

-- A record from `malloc`, with the fields that `shm_put` sets behind the loop.
abbrev pub new_record : PutArgs → DataVal
new_record a = record { key = a.key; val = a.val; simdata = a.fresh; used = true }

-- The loop `while(record->next != NULL)` from the record `r` on, whose successors are `next`, and
-- the code behind the loop. `strncpy` there writes to `record`, the old tail. A record that `malloc`
-- does not give is written through NULL.
unfoldable pub put_links :
    PutArgs → RwLock → DataVal → List DataVal → Run (RwLock × DataVal × List DataVal)
put_links a l r [] =
    if a.has_memory then (do l' ← unlock l; ok (l', copy_in a r, new_record a ∷ [])) else fault
put_links a l r (x ∷ next) =
    if int_eq x.key a.key
    then (do l' ← unlock l; ok (l', r, overwrite a x ∷ next))
    else do (l', x', next') ← put_links a l x next; ok (l', r, x' ∷ next')

-- The body of `shm_put` at its bucket, under the lock `l`.
unfoldable pub put_bucket : PutArgs → RwLock → Bucket → Run (RwLock × Bucket)
put_bucket a l b =
    if b.head.used
    then (if int_eq b.head.key a.key
        then (do l' ← unlock l; ok (l', record b { head = overwrite a b.head }))
        else do
          (l', r, next) ← put_links a l b.head b.chain
          ok (l', record { head = r; chain = next }))
    else do l' ← unlock l; ok (l', record { head = first_record a; chain = [] })

unfoldable pub shm_put : (has_memory : Bool) (fresh : Chars) → HashMap → ℤ → ℤ → Run HashMap
unfolding wrlock
shm_put has_memory fresh m key value = do
  let i = bucket_of m key
  let a : PutArgs = record {
    key = key;
    val = value;
    data_r = m.example_r;
    has_memory = has_memory;
    fresh = fresh;
  }
  l ← wrlock m.lock
  b ← bucket_at m i
  (l', b') ← put_bucket a l b
  ok (record m { table = set m.table i b'; lock = l' })

-- The do-while loop of `shm_get`, from the record `r` at place `i` on.
unfoldable pub find_links : ℤ → ℕ → DataVal → List DataVal → Option (ℕ × DataVal)
find_links key i r [] = if int_eq r.key key then some (i, r) else none
find_links key i r (x ∷ next) =
    if int_eq r.key key then some (i, r) else find_links key (i + 1) x next

-- The record that `shm_get` stops at, with its place: the test of the inline record, then the loop,
-- which starts at that record again.
unfoldable pub find_bucket : ℤ → Bucket → Option (ℕ × DataVal)
find_bucket key b =
    if b.head.used
    then (if int_eq b.head.key key then some (0, b.head) else find_links key 0 b.head b.chain)
    else none

-- `strcpy` from a record's 32 bytes to the 32 bytes of `EXAMPLEDATA_W`. Without a NUL among them it
-- reads and writes on behind both arrays.
unfoldable pub strcpy : Chars → Run Chars
strcpy (text t) = ok (text t)
strcpy indeterminate = fault

-- How `shm_get` leaves, under the lock `l`: at a record that it has found it copies `simdata` to
-- `EXAMPLEDATA_W`, and it unlocks on each path.
unfoldable pub leave_get :
    HashMap → RwLock → ℕ → Option (ℕ × DataVal) → Run (Option ValPtr × HashMap)
leave_get m l i none = do l' ← unlock l; ok (none, record m { lock = l' })
leave_get m l i (some (j, r)) = do
  w ← strcpy r.simdata
  l' ← unlock l
  ok (some (record { bucket = i; place = j }), record m { lock = l'; example_w = w })

unfoldable pub shm_get : HashMap → ℤ → Run (Option ValPtr × HashMap)
unfolding rdlock
shm_get m key = do
  let i = bucket_of m key
  l ← rdlock m.lock
  b ← bucket_at m i
  leave_get m l i (find_bucket key b)

-- A read through a pointer that `shm_get` returned.
unfoldable pub load_val : HashMap → ValPtr → Option ℤ
load_val m p = elim (get_elem? m.table p.bucket) [
  | none ↦ none
  | some b ↦ elim (get_elem? (b.head ∷ b.chain) p.place) [ none ↦ none | some r ↦ some r.val ]
]

-- shmmiddleware.c. `init_struct` makes a table of ten million buckets.
abbrev pub initial_size : ℕ
initial_size = 10_000_000

unfoldable pub init_struct : HashMap
unfolding shm_new
init_struct = shm_new initial_size

unfoldable pub insert_into_struct :
    (has_memory : Bool) (fresh : Chars) → HashMap → ℤ → ℤ → Run HashMap
unfolding shm_put
insert_into_struct has_memory fresh m key value = shm_put has_memory fresh m key value

unfoldable pub search_struct : HashMap → ℤ → Run (Option ValPtr × HashMap)
unfolding shm_get
search_struct m key = shm_get m key
