-- ===== src/Shm/Get.antt =====
-- `shm_get` on a free map: what its pointer reads, and what it leaves of the map.
use Prim.Native.String.{String}
use green_hash_tree.Prelude.{
  ◌⊎◌, ℕ, suc, ◌+◌, ◌≡◌, refl, ap, sym, ◌∙◌, false, Bool-cases, inl, inr, Option, none, some, List,
  [], ◌∷◌, arith, get_elem?, is_some,
}
use green_hash_tree.Prelude.Int.{ℤ, int_eq, int_eq→≡}
use green_hash_tree.Prelude.Run.{Run, ok, fault}
use green_hash_tree.Shm.{
  Chars, indeterminate, text, strcpy, DataVal, Bucket, HashMap, ValPtr, read_locked, unlocked,
  bucket_of, find_links, find_bucket, leave_get, unlock, load_val, shm_get,
}
use green_hash_tree.Shm.Lookup.{
  assoc, assoc_bytes, bytes, bytes-at, records, lookup, lookup_at, IsValid, bucket_found,
  bucket_at-ok,
}

-- What a search of the records `rs`, the first of them at place `i`, may answer.
abbrev pub Finds : ℤ → ℕ → List DataVal → Option (ℕ × DataVal) → Type 0
Finds k i rs none = (assoc k rs ≡ none) × (assoc_bytes k rs ≡ none)
Finds k i rs (some (j, r)) =
    (d : ℕ) × (j ≡ i + d)
    × (get_elem? rs d ≡ some r)
    × (r.key ≡ k)
    × (assoc k rs ≡ some r.val)
    × (assoc_bytes k rs ≡ some r.simdata)

Finds-suc :
    (k : ℤ) (i : ℕ) (r : DataVal) (rs : List DataVal) (o : Option (ℕ × DataVal))
    → int_eq r.key k ≡ false
    → Finds k (i + 1) rs o
    → Finds k i (r ∷ rs) o
Finds-suc k i r rs none e (f, g) = (rw e f, rw e g)
Finds-suc k i r rs (some (j, x)) e (d, at, got, key, val, copy) =
    (suc d, omega arith, got, key, rw e val, rw e copy)

find_links-Finds :
    (k : ℤ) (i : ℕ) (r : DataVal) (next : List DataVal)
    → Finds k i (r ∷ next) (find_links k i r next)
unfolding find_links
find_links-Finds k i r [] = elim (Bool-cases (int_eq r.key k)) [
  | inl e ↦ rw e (0, omega arith, refl, int_eq→≡ r.key k e, rw e refl, rw e refl)
  | inr e ↦ rw e (rw e refl, rw e refl)
]
find_links-Finds k i r (x ∷ next) = elim (Bool-cases (int_eq r.key k)) [
  | inl e ↦ rw e (0, omega arith, refl, int_eq→≡ r.key k e, rw e refl, rw e refl)
  | inr e ↦ rw e (Finds-suc k i r (x ∷ next) _ e (find_links-Finds k (i + 1) x next))
]

pub find_bucket-Finds : (k : ℤ) (b : Bucket) → Finds k 0 (records b) (find_bucket k b)
unfolding find_bucket
find_bucket-Finds k b = elim (Bool-cases b.head.used) [
  | inr e ↦ simp e (refl, refl)
  | inl e ↦ elim (Bool-cases (int_eq b.head.key k)) [
    | inl f ↦ simp (e, f) (0, omega arith, refl, int_eq→≡ b.head.key k f, refl, refl)
    | inr f ↦ simp (e, f) (find_links-Finds k 0 b.head b.chain)
  ]
]

-- `*p`, where `p` may be NULL.
abbrev pub deref : HashMap → Option ValPtr → Option ℤ
deref m none = none
deref m (some p) = load_val m p

-- `EXAMPLEDATA_W` after the copy of a record's bytes, if there was one.
abbrev pub copied : HashMap → Option Chars → Chars
copied m none = m.example_w
copied m (some c) = c

-- What a caller may know of a result of `shm_get`.
abbrev pub Got : HashMap → ℤ → Run (Option ValPtr × HashMap) → Type 0
Got m k out =
    (r : Option ValPtr) × (out
      ≡ ok (r, record m { lock = unlocked; example_w = copied m (bytes m k) }))
    × (deref m r ≡ lookup m k)
    × (is_some r ≡ is_some (lookup m k))

pub load_val_at :
    {b : Bucket} {r : DataVal} (m : HashMap) (i j : ℕ)
    → get_elem? m.table i ≡ some b
    → get_elem? (b.head ∷ b.chain) j ≡ some r
    → load_val m (record { bucket = i; place = j }) ≡ some r.val
unfolding load_val
load_val_at m i j at got = rw (at, load_val) (rw got refl)

pub get_elem?-records :
    {r : DataVal} (b : Bucket) (d : ℕ)
    → get_elem? (records b) d ≡ some r
    → get_elem? (b.head ∷ b.chain) d ≡ some r
get_elem?-records b d got = elim (Bool-cases b.head.used) [
  | inl e ↦ simp e at got
  | inr e ↦ let none_there : none ≡ some _ = simp e at got in cc
]

-- `shm_get` with the outcome of its search as a variable.
unfoldable pub answer : HashMap → ℤ → Option (ℕ × DataVal) → Option ValPtr
answer m k none = none
answer m k (some (j, r)) = some (record { bucket = bucket_of m k; place = j })

abbrev found_bytes : Option (ℕ × DataVal) → Option Chars
found_bytes none = none
found_bytes (some (j, r)) = some r.simdata

Chars-cases : (c : Chars) → (c ≡ indeterminate) ⊎ ((t : String) × (c ≡ text t))
Chars-cases indeterminate = inl refl
Chars-cases (text t) = inr (t, refl)

-- The search has met bytes without a NUL, and the copy has failed.
pub leave_get-fault :
    (m : HashMap) (i j : ℕ) (r : DataVal)
    → r.simdata ≡ indeterminate
    → leave_get m (read_locked 1) i (some (j, r)) ≡ fault
unfolding leave_get strcpy
leave_get-fault m i j r e = simp e refl

leave_get-cases :
    (m : HashMap) (k : ℤ) (o : Option (ℕ × DataVal))
    → let out = leave_get m (read_locked 1) (bucket_of m k) o in
      ((found_bytes o ≡ some indeterminate) × (out ≡ fault))
      ⊎ (out
          ≡ ok (answer m k o, record m { lock = unlocked; example_w = copied m (found_bytes o) }))
unfolding leave_get unlock answer strcpy
leave_get-cases m k none = inr refl
leave_get-cases m k (some (j, r)) = elim (Chars-cases r.simdata) [
  | inl e ↦ inl (ap some e, simp e refl)
  | inr (t, e) ↦ inr (simp e refl)
]

-- `shm_get` goes from its lock and its search to `leave_get`.
pub shm_get-leave_get :
    {m : HashMap} {b : Bucket} (k : ℤ)
    → IsValid m
    → get_elem? m.table (bucket_of m k) ≡ some b
    → shm_get m k ≡ leave_get m (read_locked 1) (bucket_of m k) (find_bucket k b)
unfolding shm_get
shm_get-leave_get {m} {b} k v at = simp v.free (simp (bucket_at-ok m (bucket_of m k) at) refl)

found_bytes-bytes :
    (m : HashMap) (k : ℤ) {b : Bucket} (o : Option (ℕ × DataVal))
    → get_elem? m.table (bucket_of m k) ≡ some b
    → Finds k 0 (records b) o
    → found_bytes o ≡ bytes m k
found_bytes-bytes m k none at f = sym (bytes-at m k at ∙ f.1)
found_bytes-bytes m k (some (j, r)) at (d, place, got, key, val, copy) =
    sym (bytes-at m k at ∙ copy)

-- What `shm_get` returns and leaves, by the bytes of the key's record.
pub shm_get-cases :
    {m : HashMap} {b : Bucket} (k : ℤ)
    → IsValid m
    → get_elem? m.table (bucket_of m k) ≡ some b
    → ((bytes m k ≡ some indeterminate) × (shm_get m k ≡ fault))
      ⊎ (shm_get m k
          ≡ ok (
            answer m k (find_bucket k b),
            record m { lock = unlocked; example_w = copied m (bytes m k) },
          ))
shm_get-cases {m} {b} k v at =
    let o = find_bucket k b in
    let same = found_bytes-bytes m k o at (find_bucket-Finds k b) in
    rw (shm_get-leave_get k v at, ← same) (leave_get-cases m k o)

answer-lookup :
    (m : HashMap) (k : ℤ) {b : Bucket} (o : Option (ℕ × DataVal))
    → get_elem? m.table (bucket_of m k) ≡ some b
    → Finds k 0 (records b) o
    → deref m (answer m k o) ≡ lookup m k
unfolding answer
answer-lookup m k none at f = sym (lookup_at m k at ∙ f.0)
answer-lookup m k {b} (some (j, r)) at (d, place, got, key, val, _) =
    let e : j ≡ d = omega arith in
    load_val_at {r = r} m (bucket_of m k) j at (rw e (get_elem?-records b d got))
    ∙ sym (lookup_at m k at ∙ val)

is_some-answer :
    (m : HashMap) (k : ℤ) {b : Bucket} (o : Option (ℕ × DataVal))
    → get_elem? m.table (bucket_of m k) ≡ some b
    → Finds k 0 (records b) o
    → is_some (answer m k o) ≡ is_some (lookup m k)
unfolding answer
is_some-answer m k none at f = ap is_some (sym (lookup_at m k at ∙ f.0))
is_some-answer m k (some (j, r)) at (d, place, got, key, val, _) =
    ap is_some (sym (lookup_at m k at ∙ val))

pub shm_get_lem :
    {m : HashMap} (key : ℤ)
    → IsValid m
    → ((bytes m key ≡ some indeterminate) × (shm_get m key ≡ fault)) ⊎ Got m key (shm_get m key)
shm_get_lem {m} key v =
    let (b, at) = bucket_found key v in
    let o = find_bucket key b in
    let found = find_bucket-Finds key b in
    elim (shm_get-cases key v at) [
      | inl undefined ↦ inl undefined
      | inr done ↦
          inr
            (answer m key o, done, answer-lookup m key o at found, is_some-answer m key o at found)
    ]
