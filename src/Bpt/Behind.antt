-- ===== src/Bpt/Behind.antt =====
-- An insertion of a key above all slots of the array of its leaf.
use green_hash_tree.Prelude.{
  ℕ, ◌+◌, ◌-◌, ◌≤◌, ◌<◌, ◌≡◌, refl, eq_of_==, ap, ◌∙◌, true, Bool-cases, inl, inr, none, some, List,
  get_elem?, length, get_elem?_of_lt, arith, ◌==◌,
}
use green_hash_tree.Prelude.Int.{ℤ, int_lt}
use green_hash_tree.Prelude.Run.{Run, ok, fault}
use green_hash_tree.Bpt.{scan_keys}
use green_hash_tree.Bpt.Scan.{scan_keys_lem}
use green_hash_tree.Bpt.Heap.{Prog, lift, ◌>>=◌, Node, Heap, Memory, get_node-ok, lift-ok}
use green_hash_tree.Bpt.Loops.{load_key}
use green_hash_tree.Bpt.Insertion.{insert_at, insert}
use green_hash_tree.Bpt.Search.{find_leaf_search}
use green_hash_tree.Bpt.Tree.{Tree, root, leaves, levels, Holds, IsOrdered}
use green_hash_tree.Bpt.Locks.{lock_at, at_lock, AllOpen}
use green_hash_tree.Bpt.Walk.{reach_locked}
use green_hash_tree.Bpt.Room.{with_record, Holds-with_record, insert_there}

lift-fault :
    {A B : Type 0} {r : Run A} (f : A → Prog B) (s : Heap) → r ≡ fault → (lift r >>= f) s ≡ fault
lift-fault f s e = rw e refl

-- The loop for the insertion point runs to the end of the array.
scan_all :
    (keys : List ℤ) (key : ℤ) (n : ℕ)
    → length keys ≡ n
    → ((j : ℕ) (a : ℤ) → get_elem? keys j ≡ some a → int_lt a key ≡ true)
    → scan_keys keys key 0 n ≡ ok n
scan_all keys key n len below =
    let (point, done, stop) = scan_keys_lem keys key 0 n (omega (arith, len)) in
    elim (Bool-cases (point == n)) [
      | inl e ↦ done ∙ ap ok (eq_of_== point n e)
      | inr e ↦
          let inner : point < n = ground (arith, e, stop.upto) in
          let (k, at) = get_elem?_of_lt keys point (omega (arith, inner, len)) in
          let up = below point k at in
          let down = stop.above k (omega (arith, inner)) at in absurd (cc (up, down))
    ]

module _ (mem : Memory) where
  abbrev order : ℕ
  order = mem.order

  insert_at-behind :
      (s : Heap) (fuel root a : ℕ) (n : Node) (key : ℤ) (r : ℕ)
      → get_elem? s.nodes a ≡ some n
      → length n.entries.keys + 1 ≡ order
      → ((j : ℕ) (k : ℤ) → get_elem? n.entries.keys j ≡ some k → int_lt k key ≡ true)
      → mem.behind ≡ fault
      → insert_at mem fuel root a key r (lock_at s a) ≡ fault
  unfolding insert_at load_key
  insert_at-behind s fuel root a n key r at len below out =
      let whole : length n.entries.keys ≡ order - 1 = omega (arith, len) in
      let end : (order - 1 == length n.entries.keys) ≡ true = ground (arith, whole) in
      let loaded : load_key mem.behind n.entries.keys (order - 1) ≡ fault = rw end out in
      get_node-ok (lock_at s a) a _ (at_lock s.nodes a n at)
      ∙ lift-ok _ (lock_at s a) (scan_all n.entries.keys key (order - 1) whole below)
      ∙ lift-fault _ (lock_at s a) loaded

  -- In an ordered tree with no node locked, an insertion of a key above every slot of the array of
  -- the leaf at which the search for it ends reads the word behind that array: where this read is a
  -- fault, the insertion is. Fuel for the levels and for the leaves is enough.
  pub insert-behind :
      (s : Heap) (t : Tree) (fuel a : ℕ) (n : Node) (key value : ℤ)
      → levels t ≤ fuel
      → length (leaves t) ≤ fuel
      → Holds order s none t
      → IsOrdered t
      → AllOpen s
      → find_leaf_search mem fuel (some (root t)) key (with_record s value)
        ≡ ok (some a, with_record s value)
      → get_elem? s.nodes a ≡ some n
      → length n.entries.keys + 1 ≡ order
      → ((j : ℕ) (k : ℤ) → get_elem? n.entries.keys j ≡ some k → int_lt k key ≡ true)
      → mem.behind ≡ fault
      → insert mem fuel (some (root t)) key value s ≡ fault
  insert-behind s t fuel a n key value l k h p o searched at len below out =
      let s1 = with_record s value in
      let walked =
        reach_locked mem s1 key fuel a t l k (Holds-with_record order s value none t h) p o
          searched in
      insert_there mem s fuel (root t) a key value fault walked
        (insert_at-behind s1 fuel (root t) a n key (length s.records) at len below out)
