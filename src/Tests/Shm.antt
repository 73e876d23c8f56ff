-- ===== src/Tests/Shm.antt =====
-- A map of one bucket, so that every key after the first is chained, and a store over it.
use Prim.Native.String.{String}
use green_hash_tree.Prelude.{
  ℕ, zero, suc, ◌≡◌, refl, true, false, none, some, List, [], ◌∷◌, arith, get_elem?, if◌then◌else◌,
}
use mathlib.Core.Path.{subst}
use green_hash_tree.Prelude.Int.{ℤ, pos, int_eq}
use green_hash_tree.Prelude.Run.{ok, fault}
use green_hash_tree.Hash.{simplehash}
use green_hash_tree.Shm.{
  Chars, DataVal, HashMap, Bucket, ValPtr, indeterminate, example_text, unlocked, shm_new,
  bucket_of, bucket_at, put_links, put_bucket, wrlock, unlock, shm_put, shm_get, load_val,
}
use green_hash_tree.Shm.Lookup.{IsValid, records, lookup, bytes}
use green_hash_tree.Shm.Put.{shm_put_lem}
use green_hash_tree.Shm.Invariant.{Placed, IsPlaced, shm_new_lem, shm_put-IsPlaced}
use green_hash_tree.Shm.Pointers.{put_all, shm_get-pointer_stays}
use green_hash_tree.Shm.Texts.{Texts, IsTerminated}
use green_hash_tree.Shm.Copies.{chained-indeterminate}
use green_hash_tree.Shm.Substruct.{sized_struct, sized_laws, has_key, IsReady}
use green_hash_tree.Baseline.{Db, put, get, expected, run, run_lem}

abbrev m0 : HashMap
m0 = shm_new 1

m0-IsValid : IsValid m0
m0-IsValid = (shm_new_lem 1 (omega arith)).0

m0-IsPlaced : IsPlaced m0
m0-IsPlaced = (shm_new_lem 1 (omega arith)).1

-- The map with the value 30 for the key 3.
abbrev head3 : Bucket
head3 = record {
  head = record { key = pos 3; val = pos 30; simdata = example_text; used = true };
  chain = [];
}

abbrev m1 : HashMap
m1 = record {
  table = head3 ∷ [];
  size = 1;
  lock = unlocked;
  example_r = example_text;
  example_w = example_text;
}

m1-put : shm_put true indeterminate m0 (pos 3) (pos 30) ≡ ok m1
unfolding shm_new shm_put wrlock unlock bucket_of bucket_at put_bucket simplehash
m1-put = refl

m1-IsValid : IsValid m1
m1-IsValid = record { sized = refl; positive = omega arith; free = refl }

m1-lookup : lookup m1 (pos 3) ≡ some (pos 30)
unfolding lookup bucket_of simplehash
m1-lookup = refl

m1-bytes : bytes m1 (pos 3) ≡ some example_text
unfolding bytes bucket_of simplehash
m1-bytes = refl

m1-none : lookup m1 (pos 4) ≡ none
unfolding lookup bucket_of simplehash
m1-none = refl

m1-bucket : get_elem? m1.table (bucket_of m1 (pos 4)) ≡ some head3
unfolding bucket_of simplehash
m1-bucket = refl

m1-IsPlaced : IsPlaced m1
unfolding bucket_of simplehash
m1-IsPlaced zero b at =
    subst (λ x. Placed (bucket_of m1) 0 (records x)) {x = head3} (cc at) (refl, refl, tt)
m1-IsPlaced (suc i) b at = absurd (cc at)

no_memory : shm_put false indeterminate m1 (pos 4) (pos 40) ≡ fault
unfolding shm_put wrlock unlock bucket_of bucket_at put_bucket put_links simplehash
no_memory = refl

shm_put_lem_example :
    (m' : HashMap) × (shm_put true indeterminate m1 (pos 4) (pos 40) ≡ ok m')
    × IsValid m'
    × (m'.size ≡ 1)
    × ((k : ℤ) → lookup m' k ≡ (if int_eq (pos 4) k then some (pos 40) else lookup m1 k))
shm_put_lem_example = shm_put_lem indeterminate (pos 4) (pos 40) m1-IsValid

shm_put-IsPlaced_example :
    (m' : HashMap) × (shm_put true indeterminate m1 (pos 4) (pos 40) ≡ ok m')
    × IsValid m'
    × IsPlaced m'
shm_put-IsPlaced_example = shm_put-IsPlaced indeterminate (pos 4) (pos 40) m1-IsValid m1-IsPlaced

shm_get-pointer_stays_example :
    (p : ValPtr) × (m' : HashMap) × (shm_get m1 (pos 3) ≡ ok (some p, m'))
    × ((puts : List (Chars × ℤ × ℤ))
        → (final : HashMap) × (put_all puts m' ≡ ok final)
          × (load_val final p ≡ lookup final (pos 3)))
shm_get-pointer_stays_example =
    shm_get-pointer_stays (pos 3) m1-IsValid m1-IsPlaced m1-lookup m1-bytes

chained-indeterminate_example :
    (m2 : HashMap) × (b2 : Bucket) × (old : DataVal) × (shm_put true indeterminate m1
        (pos 4)
        (pos 40)
      ≡ ok m2)
    × (get_elem? m2.table (bucket_of m1 (pos 4)) ≡ some b2)
    × (get_elem? (head3.head ∷ []) 0 ≡ some old)
    × (get_elem? (b2.head ∷ b2.chain) 0 ≡ some (record old { simdata = example_text }))
    × (get_elem? (b2.head ∷ b2.chain) 1
        ≡ some (record { key = pos 4; val = pos 40; simdata = indeterminate; used = true }))
    × (shm_get m2 (pos 4) ≡ fault)
chained-indeterminate_example =
    chained-indeterminate (pos 4) (pos 40) m1-IsValid m1-bucket refl m1-none

abbrev blank : HashMap → String
blank m = ""

m1-IsTerminated : IsTerminated m1
m1-IsTerminated = record { example = (_, refl); texts = m1-texts }
  where
    m1-texts : (i : ℕ) (b : Bucket) → get_elem? m1.table i ≡ some b → Texts (records b)
    m1-texts zero b at = subst (λ x. Texts (records x)) {x = head3} (cc at) ((_, refl), tt)
    m1-texts (suc i) b at = absurd (cc at)

-- The baseline store over the map with the key 3.
abbrev db : Db HashMap
db = record { root = m1; intval = pos 3579 }

run_lem_example :
    (db' : Db HashMap) × (run
        (sized_struct blank 1)
        db
        (get (pos 4) ∷ put (pos 4) (pos 40) ∷ get (pos 4) ∷ [])
      ≡ ok (
        expected (pos 3579) (has_key m1) (get (pos 4) ∷ put (pos 4) (pos 40) ∷ get (pos 4) ∷ []),
        db',
      ))
    × IsReady db'.root
    × (db'.intval ≡ pos 3579)
run_lem_example =
    run_lem (sized_struct blank 1) (sized_laws blank 1 (omega arith)) db
      (get (pos 4) ∷ put (pos 4) (pos 40) ∷ get (pos 4) ∷ [])
      (record { valid = m1-IsValid; terminated = m1-IsTerminated })

run-expected :
    expected (pos 3579) (has_key m1) (get (pos 4) ∷ put (pos 4) (pos 40) ∷ get (pos 4) ∷ [])
    ≡ none ∷ some (pos 3579) ∷ some (pos 3579) ∷ []
unfolding lookup bucket_of simplehash
run-expected = refl
