-- ===== src/Bpt/Deletion.antt =====
-- `delete` of BPT/bpt.c and what it calls.
use green_hash_tree.Prelude.{ℕ, ◌+◌, ◌-◌, Option, none, some, if◌then◌else◌}
use green_hash_tree.Prelude.Int.{ℤ, int_eq}
use green_hash_tree.Bpt.Heap.{
  Ptr, null, to_record, Memory, Prog, return, ◌>>=◌, ◌>>◌, lift, get_node, put_node, ptr_eq,
  unlock_node, free_record,
}
use green_hash_tree.Bpt.Loops.{fill, seek, shift_down}
use green_hash_tree.Bpt.Search.{find_leaf_insert, find}

-- The node has a key, as `find_leaf_insert` and `find` have read it. The key and the pointer are each looked for from the start, and removed where they are found.
unfoldable pub remove_entry_from_node : (order : ℕ) → (n : ℕ) → ℤ → Ptr → Prog (Unit {0})
unfolding get_node put_node seek shift_down fill
remove_entry_from_node order n key pointer = do
  node ← get_node n
  let e = node.entries
  i ← lift (seek (λ k. int_eq k key) 0 e.keys)
  keys ← lift (shift_down e.keys i (e.num_keys - (i + 1)))
  let num_pointers = if node.is_leaf then e.num_keys else e.num_keys + 1
  j ← lift (seek (λ p. ptr_eq p pointer) 0 e.pointers)
  pointers ← lift (shift_down e.pointers j (num_pointers - (j + 1)))
  let num_keys = e.num_keys - 1
  pointers' ← lift (
      if node.is_leaf
      then fill pointers null num_keys (order - 1 - num_keys)
      else fill pointers null (num_keys + 1) (order - (num_keys + 1)))
  put_node n
      (record node { entries = record { keys = keys; pointers = pointers'; num_keys = num_keys } })

unfoldable pub delete_entry : (order : ℕ) → (root : Option ℕ) → (n : ℕ) → ℤ → Ptr → Prog (Option ℕ)
unfolding remove_entry_from_node
delete_entry order root n key pointer = do remove_entry_from_node order n key pointer; return root

-- The last part of `delete`: what is done with the leaf and the record that were found.
unfoldable pub delete_found :
    (order : ℕ) → (root : Option ℕ) → ℤ → (leaf key_record : Option ℕ) → Prog (Option ℕ)
unfolding delete_entry unlock_node free_record
delete_found order root key (some leaf) (some r) = do
  root' ← delete_entry order root leaf key (to_record r)
  unlock_node leaf
  free_record r
  return root'
delete_found order root key (some leaf) none = do unlock_node leaf; return root
delete_found order root key none r = return root

module _ (mem : Memory) where
  unfoldable pub delete : (fuel : ℕ) → Option ℕ → ℤ → Prog (Option ℕ)
  unfolding find_leaf_insert find delete_found
  delete fuel root key = do
    key_leaf ← find_leaf_insert mem fuel root key
    key_record ← find mem fuel root key
    delete_found mem.order root key key_leaf key_record
