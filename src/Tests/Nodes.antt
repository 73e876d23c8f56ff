-- ===== src/Tests/Nodes.antt =====
-- The splits of full nodes, the first insertion and a removal, at concrete inputs.
use green_hash_tree.Prelude.{
  ℕ, zero, suc, ◌≡◌, ◌<◌, refl, ap, sym, true, false, arith, Option, none, some, [], ◌∷◌, get_elem?,
  replicate,
}
use green_hash_tree.Prelude.Int.{ℤ, pos, int_eq}
use green_hash_tree.Prelude.Run.{ok}
use green_hash_tree.Shm.{example_text}
use green_hash_tree.Bpt.{Leaf}
use green_hash_tree.Bpt.Heap.{Ptr, null, to_node, to_record, ptr_eq, Node, Heap}
use green_hash_tree.Msgq.{held}
use green_hash_tree.Bpt.Deletion.{remove_entry_from_node}
use green_hash_tree.Bpt.Removal.{Removed, remove_entry_from_node_lem}
use green_hash_tree.Bpt.Split.{halve_leaf, halve_node}
use green_hash_tree.Bpt.Search.{find}
use green_hash_tree.Bpt.Insertion.{insert}
use green_hash_tree.Bpt.Middleware.{init_struct, search_struct, search_struct-init_struct}
use green_hash_tree.Bpt.Halves.{Halved, halve_leaf_lem}
use green_hash_tree.Bpt.Middle.{Parted, halve_node_lem}
use green_hash_tree.Bpt.Start.{find-insert-none}
use green_hash_tree.Tests.Memory.{mem, mem_laws, empty}

abbrev full_leaf : Leaf Ptr
full_leaf = record {
  keys = pos 2 ∷ pos 4 ∷ pos 6 ∷ [];
  pointers = to_record 0 ∷ to_record 1 ∷ to_record 2 ∷ to_node 7 ∷ [];
  num_keys = 3;
}

abbrev full_node : Leaf Ptr
full_node = record {
  keys = pos 2 ∷ pos 4 ∷ pos 6 ∷ [];
  pointers = to_node 0 ∷ to_node 1 ∷ to_node 2 ∷ to_node 3 ∷ [];
  num_keys = 3;
}

abbrev fresh_node : Leaf Ptr
fresh_node = record { keys = replicate 3 (pos 0); pointers = replicate 4 null; num_keys = 0 }

halve_leaf_lem_example :
    (left right : Leaf Ptr) × (halve_leaf mem full_leaf fresh_node 1
        (pos 3)
        (to_record 9)
        (to_node 8)
      ≡ ok (left, right))
    × Halved 4 full_leaf 1 (pos 3) (to_record 9) (to_node 8) left right
halve_leaf_lem_example =
    halve_leaf_lem mem mem_laws full_leaf fresh_node 1 (pos 3) (to_record 9) (to_node 8)
      (record { keys_length = refl; pointers_length = refl })
      (record { keys_length = refl; pointers_length = refl }) refl refl (omega arith)

halve_node_lem_example :
    (left : Leaf Ptr) × (middle : ℤ) × (new : Leaf Ptr) × (halve_node mem full_node fresh_node 1
        (pos 3)
        (to_node 9)
      ≡ ok (left, middle, new))
    × Parted 4 full_node 1 (pos 3) (to_node 9) left middle new
halve_node_lem_example =
    halve_node_lem mem mem_laws full_node fresh_node 1 (pos 3) (to_node 9)
      (record { keys_length = refl; pointers_length = refl })
      (record { keys_length = refl; pointers_length = refl }) refl refl (omega arith)

find-insert-none_example :
    (root : ℕ) × (s' : Heap) × (r : ℕ) × (insert mem 1 none (pos 7) (pos 70) empty
      ≡ ok (some root, s'))
    × (get_elem? s'.records r ≡ some (some (record { value = pos 70; simdata = example_text })))
    × (find mem 1 (some root) (pos 7) s' ≡ ok (some r, s'))
find-insert-none_example =
    find-insert-none mem mem_laws 1 empty (pos 7) (pos 70) (pos 7) refl (omega arith)

search_struct-init_struct_example :
    (root : Option ℕ) × (s' : Heap) × (r : ℕ) × (init_struct mem 1 empty ≡ ok (root, s'))
    × (get_elem? s'.records r ≡ some (some (record { value = pos 0; simdata = example_text })))
    × (search_struct mem 1 root (pos 0) s' ≡ ok (some r, s'))
search_struct-init_struct_example =
    search_struct-init_struct mem 1 empty (pos 0) mem_laws refl (omega arith)

abbrev leaf_alone : Node
leaf_alone = record { entries = full_leaf; is_leaf = true; parent = none; lock = held }

not_six : (j : ℕ) (k : ℤ) → j < 2 → get_elem? full_leaf.keys j ≡ some k → int_eq k (pos 6) ≡ false
not_six zero k p at = let e : pos 2 ≡ k = cc at in ap (λ k. int_eq k (pos 6)) (sym e)
not_six (suc zero) k p at = let e : pos 4 ≡ k = cc at in ap (λ k. int_eq k (pos 6)) (sym e)
not_six (suc (suc j)) k p at = absurd (omega (arith, p))

not_record_2 :
    (j : ℕ) (q : Ptr)
    → j < 2
    → get_elem? full_leaf.pointers j ≡ some q
    → ptr_eq q (to_record 2) ≡ false
not_record_2 zero q p at =
    let e : to_record 0 ≡ q = cc at in ap (λ q. ptr_eq q (to_record 2)) (sym e)
not_record_2 (suc zero) q p at =
    let e : to_record 1 ≡ q = cc at in ap (λ q. ptr_eq q (to_record 2)) (sym e)
not_record_2 (suc (suc j)) q p at = absurd (omega (arith, p))

remove_entry_from_node_lem_example :
    (e : Leaf Ptr) × (remove_entry_from_node 4 0
        (pos 6)
        (to_record 2)
        (record empty { nodes = leaf_alone ∷ [] })
      ≡ ok (tt, record empty { nodes = (record leaf_alone { entries = e }) ∷ [] }))
    × Removed 4 full_leaf 2 e
remove_entry_from_node_lem_example =
    remove_entry_from_node_lem 4 (record empty { nodes = leaf_alone ∷ [] }) 0 2 leaf_alone (pos 6)
      (to_record 2) refl refl
      (record {
        keys_length = refl;
        pointers_length = refl;
        count = omega arith;
        inside = omega arith;
        key_at = refl;
        key_first = not_six;
        pointer_at = refl;
        pointer_same = refl;
        pointer_first = not_record_2;
      })
