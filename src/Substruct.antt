-- ===== src/Substruct.antt =====
-- What gps.c and baseline.c ask of a substructure: the three functions that each middleware
-- (shmmiddleware.c, bptmiddleware.c, vebmiddleware.c) defines, and what their clients rely on.
use green_hash_tree.Prelude.{◌≡◌, Bool, ◌||◌, Option, is_some}
use green_hash_tree.Prelude.Int.{ℤ, int_eq}
use green_hash_tree.Prelude.Run.{Run, ok}

pub record SubStruct : Type 1 where
  pub State : Type 0
  pub Ptr : Type 0
  pub init_struct : State
  pub insert_into_struct : State → ℤ → ℤ → Run State
  pub search_struct : State → ℤ → Run (Option Ptr × State)

-- On a state in order no call blocks or faults; an insertion adds its key and no other; a search
-- returns NULL exactly for a key that is not there, and adds none.
pub record SubStructLaws (sub : SubStruct) : Type 1 where
  pub IsOk : sub.State → Type 0
  pub has : sub.State → ℤ → Bool
  pub init_ok : IsOk sub.init_struct
  pub insert_ok :
      (s : sub.State) (key value : ℤ)
      → IsOk s
      → (s' : sub.State) × (sub.insert_into_struct s key value ≡ ok s')
        × IsOk s'
        × ((j : ℤ) → has s' j ≡ (int_eq key j || has s j))
  pub search_ok :
      (s : sub.State) (key : ℤ)
      → IsOk s
      → (r : Option sub.Ptr) × (s' : sub.State) × (sub.search_struct s key ≡ ok (r, s'))
        × IsOk s'
        × (is_some r ≡ has s key)
        × ((j : ℤ) → has s' j ≡ has s j)
