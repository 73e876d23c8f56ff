-- ===== src/Shm/Pointers.antt =====
-- The pointers that `shm_get` hands out, while the map goes on being changed.
use mathlib.Core.Path.{subst}
use Prim.Native.String.{String}
use green_hash_tree.Prelude.{
  ℕ, zero, suc, ◌≡◌, refl, ap, sym, ◌∙◌, true, Bool-cases, inl, inr, Option, none, some, List, [],
  ◌∷◌, arith, get_elem?, ◌==◌, get_elem?-set_self, get_elem?-set_ne, eq_of_==,
}
use green_hash_tree.Prelude.Int.{ℤ, int_eq, int_eq→≡, int_eq_refl}
use green_hash_tree.Prelude.Run.{Run, ok, ◌>>=◌}
use green_hash_tree.Shm.{
  Chars, text, DataVal, Bucket, HashMap, ValPtr, PutArgs, overwrite, bucket_of, find_bucket,
  unlocked, load_val, shm_get, shm_put,
}
use green_hash_tree.Shm.Lookup.{
  assoc, bytes, records, lookup, lookup_at, IsValid, bucket_of-lt, bucket_found,
}
use green_hash_tree.Shm.Put.{
  start_after, chain_after, bucket_after, put_args, map_after, shm_put-after, map_after-IsValid,
  start_after-same,
}
use green_hash_tree.Shm.Get.{
  answer, copied, Finds, find_bucket-Finds, shm_get-cases, load_val_at, get_elem?-records,
}
use green_hash_tree.Shm.Invariant.{Placed, IsPlaced, map_after-IsPlaced}

-- The record at a place has the key `k`.
pub record HasKey (k : ℤ) (rs : List DataVal) (d : ℕ) : Type 0 where
  pub item : DataVal
  pub at : get_elem? rs d ≡ some item
  pub key : item.key ≡ k

-- `p` points into a used record with the key `k`.
pub record PointsTo (m : HashMap) (p : ValPtr) (k : ℤ) : Type 0 where
  pub home : Bucket
  pub at : get_elem? m.table p.bucket ≡ some home
  pub there : HasKey k (records home) p.place

-- A new head with the old key, over records that keep their keys.
over-HasKey :
    {k : ℤ} (x x' : DataVal) (rs rs' : List DataVal)
    → x'.key ≡ x.key
    → ((d : ℕ) → HasKey k rs d → HasKey k rs' d)
    → (d : ℕ) → HasKey k (x ∷ rs) d
    → HasKey k (x' ∷ rs') d
over-HasKey x x' rs rs' same keep zero h = record {
  item = x';
  at = refl;
  key = ground (arith, h.at, h.key);
}
over-HasKey x x' rs rs' same keep (suc d) h =
    let h' = keep d (record { item = h.item; at = h.at; key = h.key }) in
    record { item = h'.item; at = h'.at; key = h'.key }

module _ (a : PutArgs) {k : ℤ} where
  chain_after-HasKey : (rs : List DataVal) (d : ℕ) → HasKey k rs d → HasKey k (chain_after a rs) d
  unfolding chain_after
  chain_after-HasKey [] d h = absurd (ground (arith, h.at))
  chain_after-HasKey (x ∷ rs) d h = elim (Bool-cases (int_eq x.key a.key)) [
    | inl e ↦ rw e (over-HasKey x (overwrite a x) rs rs refl (λ d h. h) d h)
    | inr e ↦
        let (same, _, _) = start_after-same a x rs in
        rw e (over-HasKey x (start_after a x rs) rs _ same (chain_after-HasKey rs) d h)
  ]

  bucket_after-HasKey :
      (b : Bucket) (d : ℕ) → HasKey k (records b) d → HasKey k (records (bucket_after a b)) d
  unfolding bucket_after
  bucket_after-HasKey b d h = elim (Bool-cases b.head.used) [
    | inr e ↦ let nothing : none ≡ some h.item = simp e at h.at in cc
    | inl e ↦
        let h' : HasKey k (b.head ∷ b.chain) d = simp e at h in
        let (same, _, used) = start_after-same a b.head b.chain in
        elim (Bool-cases (int_eq b.head.key a.key)) [
          | inl f ↦
              simp (e, f)
                (over-HasKey b.head (record (overwrite a b.head) { used = true }) b.chain b.chain
                  refl (λ d h. h) d h')
          | inr f ↦
              simp (e, f, used)
                (over-HasKey b.head (start_after a b.head b.chain) b.chain _ same
                  (chain_after-HasKey b.chain) d h')
        ]
  ]

map_after-PointsTo :
    {m : HashMap} {b : Bucket} {p : ValPtr} {k : ℤ} (fresh : Chars) (key value : ℤ)
    → IsValid m
    → get_elem? m.table (bucket_of m key) ≡ some b
    → PointsTo m p k
    → PointsTo (map_after fresh m key value b) p k
map_after-PointsTo {m} {b} {p} {k} fresh key value v at q =
    elim (Bool-cases (bucket_of m key == p.bucket)) [
      | inl e ↦ record {
        home = bucket_after (put_args fresh m key value) b;
        at = rw (← eq_of_== _ _ e) (get_elem?-set_self m.table _ _ (bucket_of-lt key v));
        there =
            bucket_after-HasKey (put_args fresh m key value) b p.place
              (subst (λ x. HasKey k (records x) p.place) (same e) q.there);
      }
      | inr e ↦ record {
        home = q.home;
        at = get_elem?-set_ne m.table _ _ _ (ground arith) ∙ q.at;
        there = q.there;
      }
    ]
  where
    same : (bucket_of m key == p.bucket) ≡ true → q.home ≡ b
    same e =
        let both : some q.home ≡ some b =
          sym q.at ∙ ap (get_elem? m.table) (sym (eq_of_== _ _ e)) ∙ at in
        cc

val-Placed :
    (h : ℤ → ℕ) (i d : ℕ) (rs : List DataVal) {r : DataVal}
    → Placed h i rs
    → get_elem? rs d ≡ some r
    → (h r.key ≡ i) × (assoc r.key rs ≡ some r.val)
val-Placed h i d [] p at = absurd (ground arith)
val-Placed h i zero (x ∷ rs) {r} p at =
    let e : x ≡ r = cc in rw (← e) (p.0, rw (int_eq_refl x.key) refl)
val-Placed h i (suc d) (x ∷ rs) {r} p at =
    let (here, val) = val-Placed h i d rs p.2 at in
    (
      here,
      elim (Bool-cases (int_eq x.key r.key)) [
        | inr e ↦ rw e val
        | inl e ↦
            let gone = subst (λ j. assoc j rs ≡ none) (int_eq→≡ x.key r.key e) p.1 in
            absurd (cc gone)
      ],
    )

-- A pointer into a map whose records are in place reads the value of its key.
load_val-PointsTo :
    {m : HashMap} {p : ValPtr} {k : ℤ} → IsPlaced m → PointsTo m p k → load_val m p ≡ lookup m k
load_val-PointsTo {m} {p} {k} placed q =
    let r = q.there.item in
    let (here, val) =
      val-Placed (bucket_of m) p.bucket p.place (records q.home) (placed p.bucket q.home q.at)
        q.there.at in
    let at : get_elem? m.table (bucket_of m k) ≡ some q.home = rw (← q.there.key, here) q.at in
    load_val_at m p.bucket p.place q.at (get_elem?-records q.home p.place q.there.at)
    ∙ sym val
    ∙ ap (λ j. assoc j (records q.home)) q.there.key
    ∙ sym (lookup_at m k at)

-- The maps that a series of puts goes through, each with the bytes that `malloc` leaves for it.
pub put_all : List (Chars × ℤ × ℤ) → HashMap → Run HashMap
put_all [] m = ok m
put_all ((fresh, key, value) ∷ rest) m = shm_put true fresh m key value >>= put_all rest

-- What a series of puts leaves valid.
pub record Kept (p : ValPtr) (k : ℤ) (out : Run HashMap) : Type 0 where
  pub final : HashMap
  pub done : out ≡ ok final
  pub valid : IsValid final
  pub placed : IsPlaced final
  pub points : PointsTo final p k

put_all-Kept :
    {p : ValPtr} {k : ℤ} (puts : List (Chars × ℤ × ℤ)) (m : HashMap)
    → IsValid m
    → IsPlaced m
    → PointsTo m p k
    → Kept p k (put_all puts m)
unfolding put_all
put_all-Kept [] m v placed q = record {
  final = m;
  done = refl;
  valid = v;
  placed = placed;
  points = q;
}
put_all-Kept {p} {k} ((fresh, key, value) ∷ rest) m v placed q =
    let (b, at) = bucket_found key v in
    let m' = map_after fresh m key value b in
    let after =
      put_all-Kept {p = p} {k = k} rest m' (map_after-IsValid fresh key value b v)
        (map_after-IsPlaced fresh key value v at placed)
        (map_after-PointsTo fresh key value v at q) in
    record {
      final = after.final;
      done = rw (shm_put-after fresh key value v at) after.done;
      valid = after.valid;
      placed = after.placed;
      points = after.points;
    }

answer-PointsTo :
    (m : HashMap) (k : ℤ) {b : Bucket} (o : Option (ℕ × DataVal)) {x : ℤ}
    → get_elem? m.table (bucket_of m k) ≡ some b
    → Finds k 0 (records b) o
    → lookup m k ≡ some x
    → (p : ValPtr) × (answer m k o ≡ some p) × PointsTo m p k
unfolding answer
answer-PointsTo m k none at (f, _) has = absurd (cc (lookup_at m k at))
answer-PointsTo m k {b} (some (j, r)) at (d, place, got, key, val, _) has =
    let e : j ≡ d = omega arith in
    (
      record { bucket = bucket_of m k; place = j },
      refl,
      record { home = b; at = at; there = record { item = r; at = rw e got; key = key } },
    )

-- On a free map with its records in place, when the bytes of the key's record end in a NUL, `shm_get`
-- of a key that has a value returns a pointer that stays good: any further puts go through, whatever
-- bytes `malloc` leaves for each, and then it reads the value that the key has by then.
pub shm_get-pointer_stays :
    {m : HashMap} {x : ℤ} {t : String} (key : ℤ)
    → IsValid m
    → IsPlaced m
    → lookup m key ≡ some x
    → bytes m key ≡ some (text t)
    → (p : ValPtr) × (m' : HashMap) × (shm_get m key ≡ ok (some p, m'))
      × ((puts : List (Chars × ℤ × ℤ))
          → (final : HashMap) × (put_all puts m' ≡ ok final)
            × (load_val final p ≡ lookup final key))
unfolding bucket_of
shm_get-pointer_stays {m} key v placed has ends =
    let (b, at) = bucket_found key v in
    let o = find_bucket key b in
    let (p, found, q) = answer-PointsTo m key o at (find_bucket-Finds key b) has in
    let m' : HashMap = record m { lock = unlocked; example_w = copied m (bytes m key) } in
    elim (shm_get-cases key v at) [
      | inl (e, _) ↦ let clash = sym ends ∙ e in absurd (cc clash)
      | inr done ↦ (
        p,
        m',
        rw (← found) done,
        λ puts.
            let kept =
              put_all-Kept {p = p} {k = key} puts m'
                (record { sized = v.sized; positive = v.positive; free = refl })
                (λ i c got. placed i c got)
                (record { home = q.home; at = q.at; there = q.there }) in
            (kept.final, kept.done, load_val-PointsTo kept.placed kept.points),
      )
    ]
