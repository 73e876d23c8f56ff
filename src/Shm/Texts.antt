-- ===== src/Shm/Texts.antt =====
-- Maps in which the 32 bytes of every used record have a NUL, so that `shm_get` may copy them.
use Prim.Native.String.{String}
use mathlib.Core.Path.{subst}
use green_hash_tree.Prelude.{
  ℕ, ◌≡◌, refl, sym, ◌∙◌, Bool-cases, inl, inr, some, List, [], ◌∷◌, get_elem?, get_elem?-set_cases,
  get_elem?-replicate_inv,
}
use green_hash_tree.Prelude.Int.{ℤ, int_eq}
use green_hash_tree.Shm.{
  Chars, indeterminate, text, DataVal, Bucket, HashMap, PutArgs, zero_bucket, bucket_of, shm_new,
}
use green_hash_tree.Shm.Lookup.{assoc_bytes, bytes, bytes-at, records, IsValid, bucket_found}
use green_hash_tree.Shm.Put.{
  start_after, chain_after, bucket_after, put_args, map_after, start_after-same,
}

abbrev pub IsText : Chars → Type 0
IsText c = (t : String) × (c ≡ text t)

abbrev pub Texts : List DataVal → Type 0
Texts [] = Unit
Texts (r ∷ rs) = IsText r.simdata × Texts rs

-- Every used record holds a text, and so does `EXAMPLEDATA_R`, from which `shm_put` writes them.
pub record IsTerminated (m : HashMap) : Type 0 where
  pub example : IsText m.example_r
  pub texts : (i : ℕ) (b : Bucket) → get_elem? m.table i ≡ some b → Texts (records b)

module _ (a : PutArgs) (given : IsText a.data_r) (left : IsText a.fresh) where
  start_after-IsText :
      (r : DataVal) (rs : List DataVal) → IsText r.simdata → IsText (start_after a r rs).simdata
  unfolding start_after
  start_after-IsText r [] x = given
  start_after-IsText r (y ∷ rs) x = x

  chain_after-Texts : (rs : List DataVal) → Texts rs → Texts (chain_after a rs)
  unfolding chain_after
  chain_after-Texts [] p = (left, tt)
  chain_after-Texts (x ∷ rs) (here, p) = elim (Bool-cases (int_eq x.key a.key)) [
    | inl e ↦ rw e (given, p)
    | inr e ↦ rw e (start_after-IsText x rs here, chain_after-Texts rs p)
  ]

  bucket_after-Texts : (b : Bucket) → Texts (records b) → Texts (records (bucket_after a b))
  unfolding bucket_after
  bucket_after-Texts b p = elim (Bool-cases b.head.used) [
    | inr e ↦ simp e (given, tt)
    | inl e ↦
        let (here, q) : Texts (b.head ∷ b.chain) = simp e at p in
        let (_, _, used) = start_after-same a b.head b.chain in
        elim (Bool-cases (int_eq b.head.key a.key)) [
          | inl f ↦ simp (e, f) (given, q)
          | inr f ↦
              simp (e, f, used)
                (start_after-IsText b.head b.chain here, chain_after-Texts b.chain q)
        ]
  ]

-- A put keeps the map so, if `malloc` leaves a NUL in the bytes of a new record.
pub map_after-IsTerminated :
    {m : HashMap} {b : Bucket} (fresh : Chars) (key value : ℤ)
    → IsText fresh
    → get_elem? m.table (bucket_of m key) ≡ some b
    → IsTerminated m
    → IsTerminated (map_after fresh m key value b)
map_after-IsTerminated {m} {b} fresh key value left at p = record {
  example = p.example;
  texts = λ j c got. elim (get_elem?-set_cases m.table (bucket_of m key) j _ c got) [
    | inl (e, f) ↦
        subst (λ x. Texts (records x)) f
          (bucket_after-Texts (put_args fresh m key value) p.example left b
            (p.texts (bucket_of m key) b at))
    | inr old ↦ p.texts j c old
  ];
}

pub shm_new-IsTerminated : (size : ℕ) → IsTerminated (shm_new size)
unfolding shm_new
shm_new-IsTerminated size = record {
  example = (_, refl);
  texts =
      λ i b at. subst (λ x. Texts (records x)) (get_elem?-replicate_inv size i zero_bucket b at) tt;
}

assoc_bytes-Texts :
    (k : ℤ) (rs : List DataVal) → Texts rs → assoc_bytes k rs ≡ some indeterminate → ⊥
assoc_bytes-Texts k [] p e = cc e
assoc_bytes-Texts k (r ∷ rs) ((t, here), p) e = elim (Bool-cases (int_eq r.key k)) [
  | inl f ↦ let clash : some r.simdata ≡ some indeterminate = simp f at e in cc
  | inr f ↦ assoc_bytes-Texts k rs p (simp f at e)
]

-- No search in such a map meets bytes without a NUL.
pub bytes-IsTerminated :
    {m : HashMap} (k : ℤ) → IsValid m → IsTerminated m → ¬ (bytes m k ≡ some indeterminate)
bytes-IsTerminated {m} k v p e =
    let (b, at) = bucket_found k v in
    assoc_bytes-Texts k (records b) (p.texts (bucket_of m k) b at) (sym (bytes-at m k at) ∙ e)
