-- ===== src/Tests/Sveb.antt =====
-- The theorems on the static van Emde Boas tree at concrete trees.
use green_hash_tree.Prelude.{
  ◌||◌, inl, inr, ℕ, ◌≡◌, refl, ◌==◌, arith, [], ◌∷◌, Bool, if◌then◌else◌, update,
}
use green_hash_tree.Prelude.Int.{int_eq, pos}
use green_hash_tree.Prelude.Run.{◌>>=◌, Gives}
use green_hash_tree.Msgq.{open_mutex}
use green_hash_tree.Shm.{example_text, indeterminate}
use green_hash_tree.Sveb.{LevelInfo, Veb, max_int, init_height}
use green_hash_tree.Sveb.Layout.{cut_entry, Laid, one_level, split, place}
use green_hash_tree.Sveb.Places.{Fits, init_height-Fits}
use green_hash_tree.Sveb.Contents.{contains, keys_below}
use green_hash_tree.Sveb.Lookup.{IsPerfect, keys_of, IsSearchTree}
use green_hash_tree.Sveb.Answers.{Answer, search_test_lem, delete_key_lem}
use green_hash_tree.Sveb.Cursor.{moved, to_root_lem}
use green_hash_tree.Sveb.Helper.{Ascends}
use green_hash_tree.Sveb.Parts.{Ready, Rebuilt}
use green_hash_tree.Sveb.Rebuild.{rebuild_lem}
use green_hash_tree.Sveb.Place.{HasPlace}
use green_hash_tree.Sveb.Insert.{Added, insert_place, search_test-insert}
use green_hash_tree.Sveb.Growth.{Grown, resize_lem}
use green_hash_tree.Sveb.Insertion.{resize}
use green_hash_tree.Sveb.Start.{IsEmpty, init_tree_lem}
use green_hash_tree.Sveb.Search.{search_test, delete_key}
use green_hash_tree.Sveb.Calls.{init_tree, insert}
use green_hash_tree.Tests.SvebRuns.{roomy, garbage, globals}

-- The table that `init_height` makes for three levels.
abbrev two_cuts : ℕ → LevelInfo
two_cuts =
    update (update (λ _. record { p = 0; ts = 0; bs = 0 }) 2 (cut_entry 3 2 0)) 1 (cut_entry 2 1 0)

init_height-Fits_example :
    Gives (Fits 3) (init_height 4 3 0 (λ _. record { p = 0; ts = 0; bs = 0 }))
init_height-Fits_example = init_height-Fits 3 (λ _. record { p = 0; ts = 0; bs = 0 }) (omega arith)

-- The nodes with the keys 1, 2, 3 and 6, in a tree of three levels.
abbrev small : Veb
small = record globals {
  val = λ i.
      if i == 0
      then pos 3
      else if i == 1
      then pos 2
      else if i == 2
      then pos 1
      else if i == 4
      then pos 6
      else max_int;
  val_length = 9;
  size = 7;
  max_dep = 3;
  myli = two_cuts;
  simsize = 10;
  global_lock = open_mutex;
}

abbrev small_laid : Laid two_cuts 3 0
small_laid =
    split 2 (omega arith) (omega arith) refl (one_level (omega arith))
      (split 1 (omega arith) (omega arith) refl (one_level (omega arith)) (one_level (omega arith)))

abbrev small_perfect : IsPerfect small
small_perfect = record {
  levels = 2;
  deep = refl;
  laid = small_laid;
  few = omega arith;
  low = omega arith;
  sized = refl;
  long = omega arith;
}

small_keys : keys_of small small_perfect ≡ pos 1 ∷ pos 2 ∷ pos 3 ∷ pos 6 ∷ []
unfolding keys_below place
small_keys = refl

small_ordered : IsSearchTree small small_perfect
unfolding keys_below place
small_ordered = (
  (refl, (refl, tt)),
  (refl, tt),
  ((refl, tt), tt, (tt, tt, tt, tt), (tt, tt, tt, tt)),
  (tt, tt, (tt, tt, tt, tt), (tt, tt, tt, tt)),
)

search_test_lem_example :
    Gives
      (Answer small small_perfect (pos 6) (λ b. if b then indeterminate else example_text))
      (search_test (pos 6) small)
search_test_lem_example =
    search_test_lem small small_perfect small_ordered (pos 6) refl refl (omega arith)

delete_key_lem_example :
    Gives (Answer small small_perfect (pos 6) (λ b. example_text)) (delete_key (pos 6) small)
delete_key_lem_example = delete_key_lem small small_perfect small_ordered (pos 6) refl refl

init_tree_lem_example : Gives (IsEmpty 10) (init_tree garbage 10 globals)
init_tree_lem_example = init_tree_lem garbage 10 globals

-- The tree with the keys 7 to 11 in `helper`, and its root.
abbrev loaded : Veb
loaded = record small { helper = λ i. pos i; helper_length = 14; lh = 7; rh_end = 12 }

loaded-Ascends : Ascends (λ i. pos i) 7 12
loaded-Ascends = record { keyed = λ i a b. ground arith; ascending = λ i j a b c. ground arith }

loaded_anc : ℕ → ℕ
loaded_anc = (to_root_lem small_laid loaded refl refl (omega arith)).0

loaded-Ready : Ready small_laid 3 1 0 (moved loaded 3 1 loaded_anc)
unfolding loaded_anc place
loaded-Ready = record {
  standing = record {
    here = (to_root_lem small_laid loaded refl refl (omega arith)).2;
    inside = omega arith;
    vals = refl;
    sized = refl;
    long = omega arith;
    known = λ h. refl;
  };
  path = refl;
  order = omega arith;
  fits = omega arith;
  inside = omega arith;
  keys = loaded-Ascends;
}

rebuild_lem_example : Rebuilt small_laid 4 3 1 0 (moved loaded 3 1 loaded_anc)
rebuild_lem_example =
    rebuild_lem small_laid (omega arith) (omega arith) 4 3 1 0 (moved loaded 3 1 loaded_anc)
      (omega arith) loaded-Ready

resize_lem_example : Gives (Grown loaded) (resize garbage loaded)
resize_lem_example =
    resize_lem garbage loaded
      (record {
        levels = 2;
        deep = refl;
        laid = small_laid;
        few = omega arith;
        low = omega arith;
        sized = refl;
        long = omega arith;
      })
      (omega arith) (omega arith) (omega arith) (omega arith) loaded-Ascends

-- 5 goes to the left of 6.
small-HasPlace : HasPlace small_laid (pos 5) small.val 3 1
unfolding keys_below place
small-HasPlace = inr (inr (refl, refl, inr (inl (refl, refl, inl (refl, refl, refl)))))

insert_place_example :
    Gives (Added small small_perfect (pos 5)) (insert roomy garbage (pos 5) small)
insert_place_example =
    insert_place roomy garbage small small_perfect (pos 5) small_ordered refl small-HasPlace refl
      (omega arith) (omega arith)

search_test-insert_example :
    Gives
      (λ (r : Bool × Veb).
        r.0 ≡ int_eq (pos 5) (pos 5) || contains (pos 5) (keys_of small small_perfect))
      (insert roomy garbage (pos 5) small >>= λ r. search_test (pos 5) r.1)
search_test-insert_example =
    search_test-insert roomy garbage small small_perfect (pos 5) (pos 5) small_ordered refl refl
      small-HasPlace refl (omega arith) (omega arith)
