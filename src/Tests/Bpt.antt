-- ===== src/Tests/Bpt.antt =====
-- A leaf of a tree of order 5, with two keys; the slot behind them still holds 70.
use green_hash_tree.Prelude.{
  ℕ, zero, suc, ◌<◌, ◌≡◌, refl, true, none, some, [], ◌∷◌, arith, get_elem?,
}
use mathlib.Core.Path.{subst, subst₂}
use green_hash_tree.Prelude.Int.{ℤ, pos, int_lt}
use green_hash_tree.Prelude.Run.{ok}
use green_hash_tree.Bpt.{Leaf, insert_into_leaf, find_in_leaf, scan_keys, shift_up, find_index}
use green_hash_tree.Bpt.Scan.{Ascending}
use green_hash_tree.Bpt.Insert.{HasRoom, insert_into_leaf_stale}

abbrev leaf : Leaf ℕ
leaf = record {
  keys = pos 10 ∷ pos 30 ∷ pos 70 ∷ pos 0 ∷ [];
  pointers = 1 ∷ 3 ∷ 7 ∷ 0 ∷ 0 ∷ [];
  num_keys = 2;
}

abbrev leaf_20 : Leaf ℕ
leaf_20 = record {
  keys = pos 10 ∷ pos 20 ∷ pos 30 ∷ pos 0 ∷ [];
  pointers = 1 ∷ 2 ∷ 3 ∷ 0 ∷ 0 ∷ [];
  num_keys = 3;
}

insert-20 : insert_into_leaf leaf (pos 20) 2 ≡ ok (some leaf_20)
unfolding insert_into_leaf scan_keys shift_up
insert-20 = refl

leaf-Ascending : Ascending leaf.keys leaf.num_keys
leaf-Ascending zero a b h at at' =
    subst₂ (λ x y. int_lt x y ≡ true) {x = pos 10} {y = a} {u = pos 30} {v = b} (cc at) (cc at')
      refl
leaf-Ascending (suc j) a b h at at' = absurd (omega (arith, h))

leaf-HasRoom : HasRoom leaf
leaf-HasRoom = record { same_length = refl; room = omega arith; ascending = leaf-Ascending }

leaf-below :
    (j : ℕ) (a : ℤ) → j < leaf.num_keys → get_elem? leaf.keys j ≡ some a → int_lt a (pos 70) ≡ true
leaf-below zero a h at = subst (λ x. int_lt x (pos 70) ≡ true) {x = pos 10} {y = a} (cc at) refl
leaf-below (suc zero) a h at =
    subst (λ x. int_lt x (pos 70) ≡ true) {x = pos 30} {y = a} (cc at) refl
leaf-below (suc (suc j)) a h at = absurd (omega (arith, h))

insert_into_leaf_stale_example : insert_into_leaf leaf (pos 70) 7 ≡ ok none
insert_into_leaf_stale_example = insert_into_leaf_stale leaf (pos 70) 7 leaf-HasRoom leaf-below refl

-- A key that is not there: `find` goes by the entries before `num_keys` alone.
find-70 : find_in_leaf leaf (pos 70) ≡ ok none
unfolding find_in_leaf find_index
find-70 = refl
