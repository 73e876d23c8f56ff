-- ===== src/Tests/SvebRuns.antt =====
-- The static van Emde Boas tree, run.
use green_hash_tree.Prelude.{
  ℕ, zero, suc, ◌+◌, ◌*◌, ◌-◌, ◌^◌, ◌≡◌, refl, Option, none, some, List, [], ◌∷◌, Bool, true, false,
  leb,
}
use green_hash_tree.Prelude.Int.{ℤ, pos}
use green_hash_tree.Prelude.Run.{Run, ok, blocked, fault, ◌>>=◌}
use green_hash_tree.Msgq.{open_mutex}
use green_hash_tree.Shm.{example_text, indeterminate}
use green_hash_tree.Sveb.{Veb, max_int}
use green_hash_tree.Sveb.Traversal.{impl_fill, impl_acc_all, impl_report_depth}
use green_hash_tree.Sveb.Search.{search_test, delete_key}
use green_hash_tree.Sveb.Calls.{initial_add, init_tree, insert}

-- The test in floating point, in fractions: `c <= (2^l - 1) * (1 - 0.6 * l / d)`.
abbrev pub roomy : ℕ → ℕ → ℕ → Bool
roomy c l d = leb (c * (10 * d)) ((2 ^ l - 1) * (10 * d - 6 * l))

abbrev pub garbage : ℕ → ℤ
garbage i = pos 99

-- The globals before `init_tree`.
abbrev pub globals : Veb
globals = record {
  val = garbage;
  val_length = 0;
  size = 0;
  max_dep = 0;
  myli = λ _. record { p = 9; ts = 9; bs = 9 };
  anc = λ _. 9;
  h = 0;
  bf = 0;
  helper = garbage;
  helper_length = 0;
  lh = 0;
  rh_end = 1;
  key = pos 0;
  level = 0;
  was_in = false;
  keys = 0;
  res = pos 0;
  next_value = 0;
  depth = 0;
  max_path = 0;
  sum_path = 0;
  n = 0;
  global_lock = open_mutex;
  simdataset = λ _. indeterminate;
  simsize = 0;
  example = example_text;
}

abbrev insert_all : List ℕ → Veb → Run Veb
unfolding insert
insert_all [] s = ok s
insert_all (k ∷ ks) s = do (b, s') ← insert roomy garbage (pos k) s; insert_all ks s'

abbrev tree_of : List ℕ → Run Veb
unfolding init_tree insert_all
tree_of ks = do s ← init_tree garbage 10 globals; insert_all ks s

abbrev cells : ℕ → (ℕ → ℤ) → List ℤ
cells zero f = []
cells (suc n) f = f 0 ∷ cells n (λ i. f (i + 1))

-- The keys by address, if the run ends.
abbrev layout : Run Veb → Option (List ℤ)
layout (ok s) = some (cells s.size s.val)
layout blocked = none
layout fault = none

numbered :
    layout (tree_of [] >>= λ s. impl_fill (record s { n = 7 }))
    ≡ some (pos 3 ∷ pos 1 ∷ pos 0 ∷ pos 2 ∷ pos 5 ∷ pos 4 ∷ pos 6 ∷ [])
unfolding tree_of impl_fill
numbered = refl

full_tree :
    layout (tree_of (4 ∷ 2 ∷ 6 ∷ 1 ∷ 3 ∷ 5 ∷ 7 ∷ []))
    ≡ some (pos 4 ∷ pos 2 ∷ pos 1 ∷ pos 3 ∷ pos 6 ∷ pos 5 ∷ pos 7 ∷ [])
unfolding tree_of
full_tree = refl

-- The tree of 7 keys is full, and the next key is below all of them: `helper` has 14 elements.
overflow : (tree_of (4 ∷ 2 ∷ 6 ∷ 1 ∷ 3 ∷ 5 ∷ 7 ∷ []) >>= insert roomy garbage (pos 0)) ≡ fault
unfolding tree_of insert
overflow = refl

grown :
    layout (tree_of (4 ∷ 2 ∷ 6 ∷ 1 ∷ 3 ∷ 5 ∷ 7 ∷ 8 ∷ []))
    ≡ some (
        pos 4
        ∷ pos 2
        ∷ pos 6
        ∷ pos 1
        ∷ max_int
        ∷ max_int
        ∷ pos 3
        ∷ max_int
        ∷ max_int
        ∷ pos 5
        ∷ max_int
        ∷ max_int
        ∷ pos 7
        ∷ max_int
        ∷ pos 8
        ∷ [])
unfolding tree_of
grown = refl

abbrev answer : Run (Bool × Veb) → Option Bool
answer (ok (b, s)) = some b
answer blocked = none
answer fault = none

-- INT_MAX is found in a tree that has no key.
phantom : answer (tree_of [] >>= search_test max_int) ≡ some true
unfolding tree_of search_test
phantom = refl

-- A key that was deleted is still found.
undeleted :
    answer (do s ← tree_of (4 ∷ 2 ∷ []); (b, s') ← delete_key (pos 2) s; search_test (pos 2) s')
    ≡ some true
unfolding tree_of delete_key search_test
undeleted = refl

-- A key that was put in twice is refused the second time.
refused : answer (tree_of (4 ∷ 2 ∷ []) >>= insert roomy garbage (pos 2)) ≡ some false
unfolding tree_of insert
refused = refl

counted :
    layout (do s ← tree_of (4 ∷ 2 ∷ 6 ∷ 1 ∷ 3 ∷ 5 ∷ 7 ∷ []); impl_acc_all s)
    ≡ some (pos 5 ∷ pos 3 ∷ pos 2 ∷ pos 4 ∷ pos 7 ∷ pos 6 ∷ pos 8 ∷ [])
unfolding tree_of impl_acc_all
counted = refl

abbrev paths : Run Veb → Option (ℕ × ℕ)
paths (ok s) = some (s.sum_path, s.max_path)
paths blocked = none
paths fault = none

-- One node at depth 0, two at depth 1 and four at depth 2.
measured : paths (tree_of [] >>= impl_report_depth) ≡ some (10, 2)
unfolding tree_of impl_report_depth
measured = refl

-- The keys that `rand` gives, modulo 9: 7, 3, 7 again, and 1.
added_at_random :
    layout
      (do s ← init_tree garbage 10 globals; initial_add roomy garbage (6 ∷ 11 ∷ 24 ∷ 0 ∷ []) 3 9 s)
    ≡ some (pos 7 ∷ pos 3 ∷ pos 1 ∷ max_int ∷ max_int ∷ max_int ∷ max_int ∷ [])
unfolding init_tree initial_add
added_at_random = refl
