-- ===== src/Bpt/Halves.antt =====
-- What the split of a full leaf does with the arrays.
use green_hash_tree.Prelude.{
  ℕ, ◌+◌, ◌-◌, ◌≤◌, ◌<◌, ◌≡◌, refl, ap, sym, ◌∙◌, some, List, arith, get_elem?, set, length,
  length-set, get_elem?_of_lt,
}
use green_hash_tree.Prelude.Int.{ℤ}
use green_hash_tree.Prelude.Run.{ok}
use green_hash_tree.Bpt.{Leaf}
use green_hash_tree.Bpt.Arrays.{load-ok, store-ok}
use green_hash_tree.Bpt.Heap.{Ptr, Memory, MemoryLaws}
use green_hash_tree.Bpt.Loops.{cut}
use green_hash_tree.Bpt.Copies.{copy_around_lem, with_entry, gap_filled}
use green_hash_tree.Bpt.Split.{leaf_temps, halve_leaf}
use green_hash_tree.Bpt.Half.{Sized, split_bounds, left_leaf_lem, right_leaf_lem}

-- The arrays of a leaf that takes one entry more than it has room for, split in two: the entries of
-- the first half and then of the second are those of the leaf with the new one put in at its index,
-- the first half is linked to the new leaf, and the second to what the leaf was linked to.
pub record Halved (order : ℕ) (leaf : Leaf Ptr) (index : ℕ) (key : ℤ) (pointer new : Ptr)
    (left right : Leaf Ptr) : Type 0 where
  pub left_some : 0 < left.num_keys
  pub right_some : 0 < right.num_keys
  pub left_room : left.num_keys < order - 1
  pub right_room : right.num_keys < order
  pub count : left.num_keys + right.num_keys ≡ leaf.num_keys + 1
  pub left_keys :
      (m : ℕ) → m < left.num_keys → get_elem? left.keys m ≡ with_entry leaf.keys index key m
  pub left_pointers :
      (m : ℕ)
      → m < left.num_keys
      → get_elem? left.pointers m ≡ with_entry leaf.pointers index pointer m
  pub right_keys :
      (m : ℕ)
      → m < right.num_keys
      → get_elem? right.keys m ≡ with_entry leaf.keys index key (left.num_keys + m)
  pub right_pointers :
      (m : ℕ)
      → m < right.num_keys
      → get_elem? right.pointers m ≡ with_entry leaf.pointers index pointer (left.num_keys + m)
  pub left_next : get_elem? left.pointers (order - 1) ≡ some new
  pub right_next : get_elem? right.pointers (order - 1) ≡ get_elem? leaf.pointers (order - 1)

module _ (mem : Memory) (laws : MemoryLaws mem) where
  abbrev order : ℕ
  order = mem.order

  leaf_temps_lem :
      (leaf : Leaf Ptr) (index : ℕ) (key : ℤ) (pointer : Ptr)
      → Sized order leaf
      → leaf.num_keys + 1 ≡ order
      → index ≤ leaf.num_keys
      → (temp_keys : List ℤ) × (temp_pointers : List Ptr) × (leaf_temps mem leaf index key pointer
          ≡ ok (temp_keys, temp_pointers))
        × (length temp_keys ≡ order)
        × (length temp_pointers ≡ order + 1)
        × ((m : ℕ) → m < order → get_elem? temp_keys m ≡ with_entry leaf.keys index key m)
        × ((m : ℕ)
            → m < order
            → get_elem? temp_pointers m ≡ with_entry leaf.pointers index pointer m)
  unfolding leaf_temps
  leaf_temps_lem leaf index key pointer z full h =
      let tk = laws.temp_keys_length in
      let tp = laws.temp_pointers_length in
      let (keys, done, c) =
        copy_around_lem mem.temp_keys leaf.keys index 0 leaf.num_keys (omega arith)
          (omega (arith, h)) (omega (arith, full, z.keys_length)) (omega (arith, tk, full)) in
      let (pointers, done', d) =
        copy_around_lem mem.temp_pointers leaf.pointers index 0 leaf.num_keys (omega arith)
          (omega (arith, h)) (omega (arith, full, z.pointers_length)) (omega (arith, tp, full)) in
      (
        set keys index key,
        set pointers index pointer,
        simp
            (
              done,
              done',
              store-ok keys index key (omega (arith, c.len, tk, full, h)),
              store-ok pointers index pointer (omega (arith, d.len, tp, full, h)),
            )
            refl,
        length-set keys index key ∙ c.len ∙ tk,
        length-set pointers index pointer ∙ d.len ∙ tp,
        λ m p.
            gap_filled mem.temp_keys leaf.keys keys index (0 + leaf.num_keys) key c
              (omega (arith, tk, full, h)) m (omega (arith, p, full)),
        λ m p.
            gap_filled mem.temp_pointers leaf.pointers pointers index (0 + leaf.num_keys) pointer d
              (omega (arith, tp, full, h)) m (omega (arith, p, full)),
      )

  -- A full leaf that takes an entry at an index splits without a fault: both halves get entries,
  -- the left one is left with room, the entries of the left half and then of the right half are those of the leaf
  -- with the new one put in at the index, and the new leaf takes its place between the leaf and the
  -- leaf's next one. The arrays have their full lengths, and the new leaf is empty.
  pub halve_leaf_lem :
      (leaf fresh : Leaf Ptr) (index : ℕ) (key : ℤ) (pointer new : Ptr)
      → Sized order leaf
      → Sized order fresh
      → leaf.num_keys + 1 ≡ order
      → fresh.num_keys ≡ 0
      → index ≤ leaf.num_keys
      → (left right : Leaf Ptr) × (halve_leaf mem leaf fresh index key pointer new
          ≡ ok (left, right))
        × Halved order leaf index key pointer new left right
  unfolding halve_leaf
  halve_leaf_lem leaf fresh index key pointer new z y full none h =
      let (pos, lt) = split_bounds mem laws in
      let least = laws.order_least in
      let (tk, tp, temps, len_k, len_p, at_k, at_p) =
        leaf_temps_lem leaf index key pointer z full h in
      let (next, there) =
        get_elem?_of_lt leaf.pointers (order - 1) (omega (arith, z.pointers_length, least)) in
      let (left, done_l, l) = left_leaf_lem mem laws leaf tk tp new z len_k len_p in
      let (right, done_r, r) = right_leaf_lem mem laws fresh tk tp next y none len_k len_p in
      let start : (m : ℕ) → 0 + m ≡ m = λ m. omega arith in
      let behind : (m : ℕ) → cut (order - 1) + m ≡ left.num_keys + m =
        λ m. omega (arith, l.num_keys) in
      let within : (m : ℕ) → m < right.num_keys → left.num_keys + m < order =
        λ m p. omega (arith, p, l.num_keys, r.num_keys, lt) in
      (
        left,
        right,
        simp (temps, load-ok leaf.pointers (order - 1) there, done_l, done_r) refl,
        record {
          left_some = omega (arith, pos, l.num_keys);
          right_some = omega (arith, lt, r.num_keys);
          left_room = omega (arith, lt, l.num_keys);
          right_room = omega (arith, pos, r.num_keys, least);
          count = omega (arith, l.num_keys, r.num_keys, lt, full, least);
          left_keys = λ m p.
              l.keys m (omega (arith, p, l.num_keys))
              ∙ ap (get_elem? tk) (start m)
              ∙ at_k m (omega (arith, p, l.num_keys, lt));
          left_pointers = λ m p.
              l.pointers m (omega (arith, p, l.num_keys))
              ∙ ap (get_elem? tp) (start m)
              ∙ at_p m (omega (arith, p, l.num_keys, lt));
          right_keys = λ m p.
              r.keys m (omega (arith, p, r.num_keys))
              ∙ ap (get_elem? tk) (behind m)
              ∙ at_k (left.num_keys + m) (within m p);
          right_pointers = λ m p.
              r.pointers m (omega (arith, p, r.num_keys))
              ∙ ap (get_elem? tp) (behind m)
              ∙ at_p (left.num_keys + m) (within m p);
          left_next = l.next_at;
          right_next = r.next_at ∙ sym there;
        },
      )
