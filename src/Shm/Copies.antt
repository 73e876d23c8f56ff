-- ===== src/Shm/Copies.antt =====
-- The 32 bytes that each record carries to stand for its data, as `shm_put` and `shm_get` copy them.
use green_hash_tree.Prelude.{
  ℕ, suc, length, ◌+◌, ◌≡◌, refl, ap, sym, ◌∙◌, get_elem?-set_self, true, false, Bool-cases, inl,
  inr, none, some, List, [], ◌∷◌, arith, get_elem?,
}
use green_hash_tree.Prelude.Int.{ℤ, int_eq, int_eq_refl}
use green_hash_tree.Prelude.Run.{ok, fault}
use green_hash_tree.Shm.{
  indeterminate, read_locked, leave_get, DataVal, Bucket, HashMap, PutArgs, new_record, bucket_of,
  find_links, find_bucket, shm_get, shm_put,
}
use green_hash_tree.Shm.Lookup.{assoc, records, lookup, lookup_at, IsValid, bucket_of-lt}
use green_hash_tree.Shm.Put.{
  start_after, chain_after, bucket_after, put_args, map_after, shm_put-after, map_after-IsValid,
  start_after-same,
}
use green_hash_tree.Shm.Get.{shm_get-leave_get, leave_get-fault}

-- In a chain that lacks the key, the walk appends a record whose bytes are as `malloc` left them, and
-- `shm_get` finds just that record.
find_links-chain_after :
    (a : PutArgs) (i : ℕ) (r : DataVal) (next : List DataVal)
    → int_eq r.key a.key ≡ false
    → assoc a.key next ≡ none
    → (j : ℕ) × (x : DataVal) × (find_links a.key i (start_after a r next) (chain_after a next)
        ≡ some (j, x))
      × (x.simdata ≡ a.fresh)
      × (x.val ≡ a.val)
unfolding find_links chain_after start_after
find_links-chain_after a i r [] ne new =
    (i + 1, new_record a, rw (ne, int_eq_refl a.key) refl, refl, refl)
find_links-chain_after a i r (x ∷ next) ne new = elim (Bool-cases (int_eq x.key a.key)) [
  | inl e ↦ absurd (ground (arith, new, e))
  | inr e ↦
      let (j, y, found, blank, val) =
        find_links-chain_after a (i + 1) x next e (ground (arith, new, e)) in
      (j, y, rw (e, ne) found, blank, val)
]

find_bucket-bucket_after :
    (a : PutArgs) (b : Bucket)
    → b.head.used ≡ true
    → assoc a.key (records b) ≡ none
    → (j : ℕ) × (x : DataVal) × (find_bucket a.key (bucket_after a b) ≡ some (j, x))
      × (x.simdata ≡ a.fresh)
      × (x.val ≡ a.val)
unfolding find_bucket bucket_after
find_bucket-bucket_after a b used new =
    let new' : assoc a.key (b.head ∷ b.chain) ≡ none = simp used at new in
    let ne : int_eq b.head.key a.key ≡ false = ground (arith, new') in
    let (same, _, used') = start_after-same a b.head b.chain in
    let ne' : int_eq (start_after a b.head b.chain).key a.key ≡ false = rw same ne in
    let (j, x, found, blank, val) =
      find_links-chain_after a 0 b.head b.chain ne (ground (arith, new', ne)) in
    (j, x, simp (used, ne) (simp (used' ∙ used, ne') found), blank, val)

-- The end of a chain that lacks the key: the old tail is written to, and the new record follows it.
tail_after :
    (a : PutArgs) (r : DataVal) (next : List DataVal)
    → assoc a.key next ≡ none
    → let after = start_after a r next ∷ chain_after a next in
      (old : DataVal) × (get_elem? (r ∷ next) (length next) ≡ some old)
      × (get_elem? after (length next) ≡ some (record old { simdata = a.data_r }))
      × (get_elem? after (suc (length next)) ≡ some (new_record a))
unfolding start_after chain_after
tail_after a r [] new = (r, refl, refl, refl)
tail_after a r (x ∷ next) new = elim (Bool-cases (int_eq x.key a.key)) [
  | inl e ↦ absurd (ground (arith, new, e))
  | inr e ↦
      let (old, was, is, added) = tail_after a x next (ground (arith, new, e)) in
      (old, was, rw e is, rw e added)
]

-- The same of a used bucket that lacks the key.
bucket_after-tail :
    (a : PutArgs) (b : Bucket)
    → b.head.used ≡ true
    → assoc a.key (records b) ≡ none
    → let b' = bucket_after a b in
      (old : DataVal) × (get_elem? (b.head ∷ b.chain) (length b.chain) ≡ some old)
      × (get_elem? (b'.head ∷ b'.chain) (length b.chain) ≡ some (record old { simdata = a.data_r }))
      × (get_elem? (b'.head ∷ b'.chain) (suc (length b.chain)) ≡ some (new_record a))
unfolding bucket_after
bucket_after-tail a b used new =
    let new' : assoc a.key (b.head ∷ b.chain) ≡ none = simp used at new in
    let ne : int_eq b.head.key a.key ≡ false = ground (arith, new') in
    simp (used, ne) (tail_after a b.head b.chain (ground (arith, new', ne)))

-- When `shm_put` chains a key that a free map lacks behind a used record of its bucket, and the bytes
-- that `malloc` left for the new record have no NUL: `strncpy` writes `EXAMPLEDATA_R` to the old tail,
-- which is otherwise as it was, the new record behind it has the key and the value but still those
-- bytes, and the next `shm_get` of the key, which copies them, is undefined behaviour.
pub chained-indeterminate :
    {m : HashMap} {b : Bucket} (key value : ℤ)
    → IsValid m
    → get_elem? m.table (bucket_of m key) ≡ some b
    → b.head.used ≡ true
    → lookup m key ≡ none
    → (m1 : HashMap) × (b1 : Bucket) × (old : DataVal) × (shm_put true indeterminate m key value
        ≡ ok m1)
      × (get_elem? m1.table (bucket_of m key) ≡ some b1)
      × (get_elem? (b.head ∷ b.chain) (length b.chain) ≡ some old)
      × (get_elem? (b1.head ∷ b1.chain) (length b.chain)
          ≡ some (record old { simdata = m.example_r }))
      × (get_elem? (b1.head ∷ b1.chain) (suc (length b.chain))
          ≡ some (record { key = key; val = value; simdata = indeterminate; used = true }))
      × (shm_get m1 key ≡ fault)
unfolding bucket_of
chained-indeterminate {m} {b} key value v at used new =
    let a = put_args indeterminate m key value in
    let new' : assoc key (records b) ≡ none = sym (lookup_at m key at) ∙ new in
    let m1 = map_after indeterminate m key value b in
    let (j, x, found, blank, _) = find_bucket-bucket_after a b used new' in
    let (old, was, is, added) = bucket_after-tail a b used new' in
    let at1 =
      get_elem?-set_self m.table (bucket_of m key) (bucket_after a b) (bucket_of-lt key v) in
    let walked = shm_get-leave_get key (map_after-IsValid indeterminate key value b v) at1 in
    (
      m1,
      bucket_after a b,
      old,
      shm_put-after indeterminate key value v at,
      at1,
      was,
      is,
      added,
      walked
          ∙ ap (leave_get m1 (read_locked 1) (bucket_of m key)) found
          ∙ leave_get-fault m1 (bucket_of m key) j x blank,
    )
