-- ===== src/Shm/Substruct.antt =====
-- The hash map as the substructure of a store (shmmiddleware.c), on a machine where `malloc` succeeds
-- and leaves a text, ended by a NUL, in the `simdata` of a new record: `left m` when the map is `m`.
use Prim.Native.String.{String}
use green_hash_tree.Prelude.{
  inl, inr, ℕ, ◌<◌, ◌≡◌, refl, ap, ◌∙◌, Bool, true, Option, some, is_some, arith, if◌then◌else◌,
  ◌||◌,
}
use green_hash_tree.Prelude.Int.{ℤ, int_eq}
use green_hash_tree.Prelude.Run.{ok}
use green_hash_tree.Substruct.{SubStruct, SubStructLaws}
use green_hash_tree.Shm.{
  text, HashMap, ValPtr, unlocked, bucket_of, init_struct, insert_into_struct, search_struct,
  initial_size, shm_new,
}
use green_hash_tree.Shm.Lookup.{IsValid, lookup, bytes, bucket_found}
use green_hash_tree.Shm.Put.{shm_put-after, map_after, map_after-IsValid, lookup-map_after}
use green_hash_tree.Shm.Get.{copied, shm_get_lem}
use green_hash_tree.Shm.Texts.{
  IsTerminated, map_after-IsTerminated, shm_new-IsTerminated, bytes-IsTerminated,
}
use green_hash_tree.Shm.Invariant.{shm_new_lem}

abbrev pub shm_struct : (left : HashMap → String) → SubStruct
shm_struct left = record {
  State = HashMap;
  Ptr = ValPtr;
  init_struct = init_struct;
  insert_into_struct = λ m. insert_into_struct true (text (left m)) m;
  search_struct = search_struct;
}

-- The same with a table of another size.
abbrev pub sized_struct : (left : HashMap → String) → ℕ → SubStruct
sized_struct left size = record (shm_struct left) { init_struct = shm_new size }

abbrev pub has_key : HashMap → ℤ → Bool
has_key m k = is_some (lookup m k)

if-is_some :
    (b : Bool) (v : ℤ) (o : Option ℤ) → is_some (if b then some v else o) ≡ (b || is_some o)
if-is_some b v o = ground arith

-- A free map whose records hold texts.
pub record IsReady (m : HashMap) : Type 0 where
  pub valid : IsValid m
  pub terminated : IsTerminated m

pub shm_new-IsReady : (size : ℕ) → 0 < size → IsReady (shm_new size)
shm_new-IsReady size h = record {
  valid = (shm_new_lem size h).0;
  terminated = shm_new-IsTerminated size;
}

pub init_struct-IsReady : IsReady init_struct
unfolding init_struct
init_struct-IsReady = shm_new-IsReady initial_size (omega arith)

pub insert-ok :
    (t : String) (m : HashMap) (key value : ℤ)
    → IsReady m
    → (m' : HashMap) × (insert_into_struct true (text t) m key value ≡ ok m')
      × IsReady m'
      × ((j : ℤ) → has_key m' j ≡ (int_eq key j || has_key m j))
unfolding insert_into_struct
insert-ok t m key value h =
    let (b, at) = bucket_found key h.valid in
    (
      map_after (text t) m key value b,
      shm_put-after (text t) key value h.valid at,
      record {
        valid = map_after-IsValid (text t) key value b h.valid;
        terminated = map_after-IsTerminated (text t) key value (t, refl) at h.terminated;
      },
      λ j.
          ap is_some (lookup-map_after (text t) key j value h.valid at)
          ∙ if-is_some (int_eq key j) value (lookup m j),
    )

pub search-ok :
    (m : HashMap) (key : ℤ)
    → IsReady m
    → (r : Option ValPtr) × (m' : HashMap) × (search_struct m key ≡ ok (r, m'))
      × IsReady m'
      × (is_some r ≡ has_key m key)
      × ((j : ℤ) → has_key m' j ≡ has_key m j)
unfolding search_struct lookup bucket_of
search-ok m key h = elim (shm_get_lem key h.valid) [
  | inl (e, _) ↦ absurd (bytes-IsTerminated key h.valid h.terminated e)
  | inr (r, done, _, found) ↦ (
    r,
    record m { lock = unlocked; example_w = copied m (bytes m key) },
    done,
    record {
      valid = record { sized = h.valid.sized; positive = h.valid.positive; free = refl };
      terminated = record { example = h.terminated.example; texts = h.terminated.texts };
    },
    found,
    λ j. refl,
  )
]

-- What the stores ask of a substructure holds of the hash map.
abbrev pub shm_laws : (left : HashMap → String) → SubStructLaws (shm_struct left)
shm_laws left = record {
  IsOk = IsReady;
  has = has_key;
  init_ok = init_struct-IsReady;
  insert_ok = λ m. insert-ok (left m) m;
  search_ok = search-ok;
}

abbrev pub sized_laws :
    (left : HashMap → String) (size : ℕ) → 0 < size → SubStructLaws (sized_struct left size)
sized_laws left size h = record {
  IsOk = IsReady;
  has = has_key;
  init_ok = shm_new-IsReady size h;
  insert_ok = λ m. insert-ok (left m) m;
  search_ok = search-ok;
}
