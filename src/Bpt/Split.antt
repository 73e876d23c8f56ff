-- ===== src/Bpt/Split.antt =====
-- The arrays of a node that takes one more child, and of the two halves of a full leaf or node.
use green_hash_tree.Prelude.{ℕ, ◌+◌, ◌-◌, List}
use green_hash_tree.Prelude.Int.{ℤ}
use green_hash_tree.Prelude.Run.{Run, ok, ◌>>=◌}
use green_hash_tree.Bpt.{Leaf, load, store, shift_up}
use green_hash_tree.Bpt.Heap.{Ptr, null, Memory}
use green_hash_tree.Bpt.Loops.{cut, copy, copy_around, fill}

-- `insert_into_node`
unfoldable pub put_child : Leaf Ptr → ℕ → ℤ → Ptr → Run (Leaf Ptr)
unfolding shift_up
put_child entries left_index key right = do
  pointers ← shift_up entries.pointers (left_index + 1) (entries.num_keys - left_index)
  keys ← shift_up entries.keys left_index (entries.num_keys - left_index)
  pointers' ← store pointers (left_index + 1) right
  keys' ← store keys left_index key
  ok (record { keys = keys'; pointers = pointers'; num_keys = entries.num_keys + 1 })

module _ (mem : Memory) where
  -- The arrays of the first leaf, with one entry.
  unfoldable pub first_entry : Leaf Ptr → ℤ → Ptr → Run (Leaf Ptr)
  first_entry fresh key pointer = do
    keys ← store fresh.keys 0 key
    pointers ← store fresh.pointers 0 pointer
    pointers' ← store pointers (mem.order - 1) null
    ok (record { keys = keys; pointers = pointers'; num_keys = fresh.num_keys + 1 })

  -- `temp_keys` and `temp_pointers` of `insert_into_leaf_after_splitting`.
  unfoldable pub leaf_temps : Leaf Ptr → ℕ → ℤ → Ptr → Run (List ℤ × List Ptr)
  unfolding copy_around
  leaf_temps leaf index key pointer = do
    keys ← copy_around mem.temp_keys leaf.keys index 0 0 leaf.num_keys
    pointers ← copy_around mem.temp_pointers leaf.pointers index 0 0 leaf.num_keys
    keys' ← store keys index key
    pointers' ← store pointers index pointer
    ok (keys', pointers')

  -- The left half: the first entries of the temporary arrays, the new leaf as the next one, and NULL
  -- in the slots between.
  unfoldable pub left_leaf : Leaf Ptr → List ℤ → List Ptr → Ptr → Run (Leaf Ptr)
  unfolding copy fill cut
  left_leaf leaf temp_keys temp_pointers new = do
    let split = cut (mem.order - 1)
    pointers ← copy leaf.pointers temp_pointers 0 0 split
    keys ← copy leaf.keys temp_keys 0 0 split
    pointers' ← store pointers (mem.order - 1) new
    pointers'' ← fill pointers' null split (mem.order - 1 - split)
    ok (record { keys = keys; pointers = pointers''; num_keys = split })

  -- The right half: the other entries; `next` is what the leaf had as its next one.
  unfoldable pub right_leaf : Leaf Ptr → List ℤ → List Ptr → Ptr → Run (Leaf Ptr)
  unfolding copy fill cut
  right_leaf fresh temp_keys temp_pointers next = do
    let split = cut (mem.order - 1)
    let count = mem.order - split
    pointers ← copy fresh.pointers temp_pointers split 0 count
    keys ← copy fresh.keys temp_keys split 0 count
    pointers' ← store pointers (mem.order - 1) next
    pointers'' ←
        fill pointers' null (fresh.num_keys + count) (mem.order - 1 - (fresh.num_keys + count))
    ok (record { keys = keys; pointers = pointers''; num_keys = fresh.num_keys + count })

  -- The two halves of a leaf that takes the entry `key`, `pointer` at `index`.
  unfoldable pub halve_leaf : Leaf Ptr → Leaf Ptr → ℕ → ℤ → Ptr → Ptr → Run (Leaf Ptr × Leaf Ptr)
  unfolding leaf_temps left_leaf right_leaf
  halve_leaf leaf fresh index key pointer new = do
    (temp_keys, temp_pointers) ← leaf_temps leaf index key pointer
    next ← load leaf.pointers (mem.order - 1)
    left ← left_leaf leaf temp_keys temp_pointers new
    right ← right_leaf fresh temp_keys temp_pointers next
    ok (left, right)

  -- `temp_keys` and `temp_pointers` of `insert_into_node_after_splitting`.
  unfoldable pub node_temps : Leaf Ptr → ℕ → ℤ → Ptr → Run (List ℤ × List Ptr)
  unfolding copy_around
  node_temps node left_index key right = do
    pointers ← copy_around mem.temp_pointers node.pointers (left_index + 1) 0 0 (node.num_keys + 1)
    keys ← copy_around mem.temp_keys node.keys left_index 0 0 node.num_keys
    pointers' ← store pointers (left_index + 1) right
    keys' ← store keys left_index key
    ok (keys', pointers')

  -- The two halves of an inner node, and the key `k_prime` between them.
  unfoldable pub halve_node : Leaf Ptr → Leaf Ptr → ℕ → ℤ → Ptr → Run (Leaf Ptr × ℤ × Leaf Ptr)
  unfolding node_temps copy cut
  halve_node old fresh left_index key right = do
    (temp_keys, temp_pointers) ← node_temps old left_index key right
    let split = cut mem.order
    old_pointers ← copy old.pointers temp_pointers 0 0 (split - 1)
    old_keys ← copy old.keys temp_keys 0 0 (split - 1)
    last ← load temp_pointers (split - 1)
    old_pointers' ← store old_pointers (split - 1) last
    k_prime ← load temp_keys (split - 1)
    new_pointers ← copy fresh.pointers temp_pointers split 0 (mem.order - split)
    new_keys ← copy fresh.keys temp_keys split 0 (mem.order - split)
    last' ← load temp_pointers mem.order
    new_pointers' ← store new_pointers (mem.order - split) last'
    ok (
      record { keys = old_keys; pointers = old_pointers'; num_keys = split - 1 },
      k_prime,
      record {
        keys = new_keys;
        pointers = new_pointers';
        num_keys = fresh.num_keys + (mem.order - split);
      },
    )
