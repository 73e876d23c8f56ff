-- ===== src/Bpt/Leaves.antt =====
-- One step along the leaves.
use green_hash_tree.Prelude.{
  ℕ, suc, ◌-◌, ◌≡◌, ap, ◌∙◌, true, false, Option, none, some, List, ◌∷◌, get_elem?, length, arith,
  ◌==◌,
}
use green_hash_tree.Prelude.Int.{ℤ, int_lt}
use green_hash_tree.Prelude.Run.{ok}
use green_hash_tree.Bpt.Arrays.{load-ok}
use green_hash_tree.Bpt.Heap.{Heap, Memory, get_node-ok, lift-ok, if-true, if-false}
use green_hash_tree.Bpt.Loops.{last_key}
use green_hash_tree.Bpt.Tree.{LeafAt}
use green_hash_tree.Bpt.Tree.Order.{last_of, get_elem?-last}
use green_hash_tree.Bpt.Search.{move_right}

module _ (mem : Memory) (s : Heap) where
  abbrev order : ℕ
  order = mem.order

  pub last_key-LeafAt :
      (a : ℕ) (x : ℤ) (q : ℕ) (es : List (ℤ × ℕ)) (next : Option ℕ)
      (h : LeafAt order s a ((x, q) ∷ es) next)
      → last_key h.node.entries ≡ ok (last_of (x, q) es)
  unfolding last_key
  last_key-LeafAt a x q es next h =
      let (r, at) = get_elem?-last (x, q) es in
      let some_key : (h.node.entries.num_keys == 0) ≡ false = ground (arith, h.count) in
      let here : h.node.entries.num_keys - 1 ≡ length es = ground (arith, h.count) in
      rw some_key (
        load-ok h.node.entries.keys _
          (ap (get_elem? h.node.entries.keys) here ∙ h.keys (length es) _ r at))

  -- A leaf whose last key is not below the key is the one.
  pub move_right_stay :
      (key : ℤ) (fuel a : ℕ) (x : ℤ) (q : ℕ) (es : List (ℤ × ℕ)) (next : Option ℕ)
      → LeafAt order s a ((x, q) ∷ es) next
      → int_lt (last_of (x, q) es) key ≡ false
      → move_right mem (suc fuel) key a s ≡ ok (a, s)
  unfolding move_right
  move_right_stay key fuel a x q es next h e =
      get_node-ok s a _ h.at ∙ lift-ok _ s (last_key-LeafAt a x q es next h) ∙ if-false _ _ s e

  -- From a leaf whose last key is below the key, to the next leaf.
  pub move_right_further :
      (key : ℤ) (fuel a r : ℕ) (x : ℤ) (q : ℕ) (es : List (ℤ × ℕ))
      → LeafAt order s a ((x, q) ∷ es) (some r)
      → int_lt (last_of (x, q) es) key ≡ true
      → move_right mem (suc fuel) key a s ≡ move_right mem fuel key r s
  unfolding move_right
  move_right_further key fuel a r x q es h e =
      get_node-ok s a _ h.at
      ∙ lift-ok _ s (last_key-LeafAt a x q es (some r) h)
      ∙ if-true _ _ s e
      ∙ lift-ok _ s (load-ok h.node.entries.pointers _ h.next_at)

  -- The last leaf of all.
  pub move_right_end :
      (key : ℤ) (fuel a : ℕ) (x : ℤ) (q : ℕ) (es : List (ℤ × ℕ))
      → LeafAt order s a ((x, q) ∷ es) none
      → int_lt (last_of (x, q) es) key ≡ true
      → move_right mem (suc fuel) key a s ≡ ok (a, s)
  unfolding move_right
  move_right_end key fuel a x q es h e =
      get_node-ok s a _ h.at
      ∙ lift-ok _ s (last_key-LeafAt a x q es none h)
      ∙ if-true _ _ s e
      ∙ lift-ok _ s (load-ok h.node.entries.pointers _ h.next_at)
