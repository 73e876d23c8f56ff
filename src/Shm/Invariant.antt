-- ===== src/Shm/Invariant.antt =====
-- Where records lie: each in the bucket that its key hashes to, and one for each key.
use mathlib.Core.Path.{subst}
use green_hash_tree.Prelude.{
  ℕ, ◌<◌, ◌≡◌, refl, ap, ◌∙◌, true, false, Bool-cases, inl, inr, none, some, List, [], ◌∷◌, arith,
  get_elem?, length-replicate, get_elem?-replicate, get_elem?-set_cases, get_elem?-replicate_inv,
  sym,
}
use green_hash_tree.Prelude.Int.{ℤ, int_eq}
use green_hash_tree.Prelude.Run.{ok}
use green_hash_tree.Shm.{
  Chars, DataVal, Bucket, HashMap, PutArgs, zero_bucket, bucket_of, shm_new, shm_put,
}
use green_hash_tree.Shm.Lookup.{
  assoc, assoc_at, records, lookup, IsValid, bucket_of-lt, bucket_found,
}
use green_hash_tree.Shm.Put.{
  start_after, chain_after, bucket_after, put_args, map_after, shm_put-after, map_after-IsValid,
  start_after-same, assoc-chain_after,
}

-- The keys of `rs` all have the hash `i`, and differ from one another.
abbrev pub Placed : (ℤ → ℕ) → ℕ → List DataVal → Type 0
Placed h i [] = Unit
Placed h i (r ∷ rs) = (h r.key ≡ i) × (assoc r.key rs ≡ none) × Placed h i rs

abbrev pub IsPlaced : HashMap → Type 0
IsPlaced m =
    (i : ℕ) (b : Bucket) → get_elem? m.table i ≡ some b → Placed (bucket_of m) i (records b)

module _ (h : ℤ → ℕ) (i : ℕ) (a : PutArgs) (here : h a.key ≡ i) where
  -- A record that the walk passes by stays in place.
  passed-Placed :
      (x : DataVal) (rs : List DataVal)
      → int_eq x.key a.key ≡ false
      → h x.key ≡ i
      → assoc x.key rs ≡ none
      → Placed h i (chain_after a rs)
      → Placed h i (start_after a x rs ∷ chain_after a rs)
  passed-Placed x rs e hx new p =
      let (same, _, _) = start_after-same a x rs in
      (ap h same ∙ hx, rw (same, assoc-chain_after a x.key rs) (ground (arith, new)), p)

  chain_after-Placed : (rs : List DataVal) → Placed h i rs → Placed h i (chain_after a rs)
  unfolding chain_after
  chain_after-Placed [] p = (here, refl, tt)
  chain_after-Placed (x ∷ rs) (hx, new, p) = elim (Bool-cases (int_eq x.key a.key)) [
    | inl e ↦ rw e (hx, new, p)
    | inr e ↦ rw e (passed-Placed x rs e hx new (chain_after-Placed rs p))
  ]

  bucket_after-Placed :
      (b : Bucket) → Placed h i (records b) → Placed h i (records (bucket_after a b))
  unfolding bucket_after
  bucket_after-Placed b p = elim (Bool-cases b.head.used) [
    | inr e ↦ simp e (here, refl, tt)
    | inl e ↦
        let (hx, new, q) : Placed h i (b.head ∷ b.chain) = simp e at p in
        let (_, _, used) = start_after-same a b.head b.chain in
        elim (Bool-cases (int_eq b.head.key a.key)) [
          | inl f ↦ simp (e, f) (hx, new, q)
          | inr f ↦
              simp (e, f, used)
                (passed-Placed b.head b.chain f hx new (chain_after-Placed b.chain q))
        ]
  ]

pub map_after-IsPlaced :
    {m : HashMap} {b : Bucket} (fresh : Chars) (key value : ℤ)
    → IsValid m
    → get_elem? m.table (bucket_of m key) ≡ some b
    → IsPlaced m
    → IsPlaced (map_after fresh m key value b)
unfolding bucket_of
map_after-IsPlaced {m} {b} fresh key value v at p j c got =
    elim (get_elem?-set_cases m.table (bucket_of m key) j _ c got) [
      | inl (e, f) ↦
          subst (λ x. Placed (bucket_of m) j (records x)) f
            (bucket_after-Placed (bucket_of m) j (put_args fresh m key value) (sym e) b
              (p j b (rw e at)))
      | inr old ↦ p j c old
    ]

-- With memory for a record, whatever bytes it holds, `shm_put` on a free map ends, and keeps each record in the bucket of its
-- key and one record for each key.
pub shm_put-IsPlaced :
    {m : HashMap} (fresh : Chars) (key value : ℤ)
    → IsValid m
    → IsPlaced m
    → (m' : HashMap) × (shm_put true fresh m key value ≡ ok m') × IsValid m' × IsPlaced m'
shm_put-IsPlaced {m} fresh key value v p =
    let (b, at) = bucket_found key v in
    (
      map_after fresh m key value b,
      shm_put-after fresh key value v at,
      map_after-IsValid fresh key value b v,
      map_after-IsPlaced fresh key value v at p,
    )

shm_new-IsValid : (size : ℕ) → 0 < size → IsValid (shm_new size)
unfolding shm_new
shm_new-IsValid size h = record {
  sized = length-replicate size zero_bucket;
  positive = h;
  free = refl;
}

-- A new map of a size that is not 0 is free, has its records in place, and has no value for any key.
pub shm_new_lem :
    (size : ℕ)
    → 0 < size
    → IsValid (shm_new size) × IsPlaced (shm_new size) × ((k : ℤ) → lookup (shm_new size) k ≡ none)
unfolding shm_new lookup
shm_new_lem size h =
    let v = shm_new-IsValid size h in
    (
      v,
      λ i b at.
          subst (λ x. Placed (bucket_of (shm_new size)) i (records x))
            (get_elem?-replicate_inv size i zero_bucket b at) tt,
      λ k. ap (assoc_at k) (
          get_elem?-replicate size _ zero_bucket
            (subst (λ n. bucket_of (shm_new size) k < n) v.sized (bucket_of-lt k v))),
    )
