-- ===== src/Bpt/Insertion.antt =====
-- `insert` of BPT/bpt.c and what it calls, on the memory, one call at a time.
use green_hash_tree.Prelude.{
  ℕ, zero, suc, ◌+◌, ◌-◌, ◌==◌, Bool, false, Option, none, some, List, if◌then◌else◌, ltb,
}
use green_hash_tree.Prelude.Int.{ℤ, int_eq}
use green_hash_tree.Bpt.{load, store, scan_keys, insert_into_leaf}
use green_hash_tree.Bpt.Heap.{
  Ptr, to_node, to_record, Memory, Prog, return, ◌>>=◌, ◌>>◌, lift, found, no_fuel, get_node,
  put_node, as_node, ptr_eq, lock_node, unlock_node, lock_global, unlock_global, make_record,
  make_node, make_leaf,
}
use green_hash_tree.Bpt.Loops.{index_of, load_key}
use green_hash_tree.Bpt.Split.{put_child, first_entry, halve_leaf, halve_node}
use green_hash_tree.Bpt.Search.{find_leaf_insert}

unfoldable pub set_parent : ℕ → Option ℕ → Prog (Unit {0})
unfolding get_node put_node
set_parent a parent = do n ← get_node a; put_node a (record n { parent = parent })

-- `while (left_index <= parent->num_keys && parent->pointers[left_index] != left) left_index++;`
unfoldable pub get_left_index : (parent left : ℕ) → Prog ℕ
unfolding get_node index_of
get_left_index parent left = do
  n ← get_node parent
  lift (index_of (λ p. ptr_eq p (to_node left)) n.entries.pointers 0 (n.entries.num_keys + 1))

unfoldable pub insert_into_node : (root n : ℕ) → ℕ → ℤ → ℕ → Prog ℕ
unfolding get_node put_node put_child
insert_into_node root n left_index key right = do
  node ← get_node n
  entries ← lift (put_child node.entries left_index key (to_node right))
  put_node n (record node { entries = entries })
  return root

-- `for (i = 0; i <= num_keys; i++) { child = pointers[i]; child->parent = parent; }`
unfoldable pub adopt : (parent : ℕ) → List Ptr → (i left : ℕ) → Prog (Unit {0})
unfolding set_parent
adopt parent pointers i zero = return tt
adopt parent pointers i (suc left) = do
  p ← lift (load pointers i)
  child ← lift (as_node p)
  set_parent child (some parent)
  adopt parent pointers (i + 1) left

abbrev pub same_parent : Option ℕ → ℕ → Bool
same_parent none a = false
same_parent (some p) a = p == a

-- The lock of a parent, if there is one.
unfoldable pub lock_parent : Option ℕ → Prog (Unit {0})
unfolding lock_node
lock_parent none = return tt
lock_parent (some p) = lock_node p

module _ (mem : Memory) where
  unfoldable pub insert_into_new_root : (left : ℕ) → ℤ → (right : ℕ) → Prog ℕ
  unfolding get_node put_node set_parent unlock_node make_node
  insert_into_new_root left key right = do
    root ← make_node mem
    n ← get_node root
    keys ← lift (store n.entries.keys 0 key)
    pointers ← lift (store n.entries.pointers 0 (to_node left))
    pointers' ← lift (store pointers 1 (to_node right))
    put_node root (record n {
      entries = record { keys = keys; pointers = pointers'; num_keys = n.entries.num_keys + 1 };
      parent = none;
    })
    set_parent left (some root)
    set_parent right (some root)
    unlock_node left
    unlock_node right
    return root

  -- `while (current_parent != left->parent)`: the lock goes to the parent that `left` has by now.
  unfoldable pub follow_parent : (fuel : ℕ) → (left current_parent : ℕ) → Prog ℕ
  unfolding get_node lock_node unlock_node
  follow_parent zero left current_parent = no_fuel
  follow_parent (suc fuel) left current_parent = do
    l ← get_node left
    let further : Prog ℕ = (do
      parent ← lift (found l.parent)
      lock_node parent
      unlock_node current_parent
      follow_parent fuel left parent)
    if same_parent l.parent current_parent then return current_parent else further

  -- The first part of `insert_into_node_after_splitting`: the parent, now locked, the new key, and the
  -- new node, which is locked too.
  unfoldable pub split_node : (old_node : ℕ) → ℕ → ℤ → (right : ℕ) → Prog (Option ℕ × ℤ × ℕ)
  unfolding get_node put_node lock_node lock_parent make_node halve_node adopt
  split_node old_node left_index key right = do
    old ← get_node old_node
    lock_parent old.parent
    new_node ← make_node mem
    lock_node new_node
    new ← get_node new_node
    (left_half, k_prime, right_half) ←
        lift (halve_node mem old.entries new.entries left_index key (to_node right))
    put_node old_node (record old { entries = left_half })
    put_node new_node (record new { entries = right_half; parent = old.parent })
    adopt new_node right_half.pointers 0 (right_half.num_keys + 1)
    return (old.parent, k_prime, new_node)

  -- `insert_into_parent`, with the call of `insert_into_node_after_splitting` at its end.
  unfoldable pub insert_into_parent :
      (fuel : ℕ) → (root left : ℕ) → ℤ → (right : ℕ) → (locked_parent : Option ℕ) → Prog ℕ
  unfolding get_node unlock_node lock_global unlock_global insert_into_new_root follow_parent
      get_left_index insert_into_node split_node
  insert_into_parent zero root left key right locked_parent = no_fuel
  insert_into_parent (suc fuel) root left key right none = do
    lock_global
    retval ← insert_into_new_root left key right
    unlock_global
    return retval
  insert_into_parent (suc fuel) root left key right (some locked) = do
    current_parent ← follow_parent (suc fuel) left locked
    left_index ← get_left_index current_parent left
    parent ← get_node current_parent
    let simple : Prog ℕ = (do
      retnode ← insert_into_node root current_parent left_index key right
      unlock_node current_parent
      unlock_node left
      unlock_node right
      return retnode)
    let harder : Prog ℕ = (do
      unlock_node left
      unlock_node right
      (tmp_parent, k_prime, new_node) ← split_node current_parent left_index key right
      insert_into_parent fuel root current_parent k_prime new_node tmp_parent)
    if ltb parent.entries.num_keys (mem.order - 1) then simple else harder

  -- `none` stands for NULL, when the key is there; the locks then stay as they are.
  unfoldable pub insert_into_leaf_after_splitting :
      (fuel : ℕ) → (root leaf : ℕ) → ℤ → (pointer : ℕ) → Prog (Option ℕ)
  unfolding get_node put_node lock_node lock_parent make_leaf scan_keys load_key halve_leaf
      insert_into_parent
  insert_into_leaf_after_splitting fuel root leaf key pointer = do
    l ← get_node leaf
    lock_parent l.parent
    new_leaf ← make_leaf mem
    lock_node new_leaf
    new ← get_node new_leaf
    index ← lift (scan_keys l.entries.keys key 0 (mem.order - 1))
    k ← lift (load_key mem.behind l.entries.keys index)
    let split : Prog (Option ℕ) = (do
      (left_half, right_half) ←
          lift
            (halve_leaf mem l.entries new.entries index key (to_record pointer) (to_node new_leaf))
      put_node leaf (record l { entries = left_half })
      put_node new_leaf (record new { entries = right_half; parent = l.parent })
      new_key ← lift (load right_half.keys 0)
      result ← insert_into_parent fuel root leaf new_key new_leaf l.parent
      return (some result))
    if int_eq k key then return none else split

  -- `start_new_tree`, behind the call of `make_leaf`.
  unfoldable pub first_leaf_at : ℤ → (pointer : ℕ) → (root : ℕ) → Prog ℕ
  unfolding get_node put_node first_entry
  first_leaf_at key pointer root = do
    n ← get_node root
    entries ← lift (first_entry mem n.entries key (to_record pointer))
    put_node root (record n { entries = entries; parent = none })
    return root

  unfoldable pub start_new_tree : ℤ → (pointer : ℕ) → Prog ℕ
  unfolding make_leaf first_leaf_at
  start_new_tree key pointer = do root ← make_leaf mem; first_leaf_at key pointer root

  -- The case of `insert` in which the leaf has room. If `insert_into_leaf` returned NULL, the lock of
  -- NULL would be given back.
  unfoldable pub insert_with_room : (leaf : ℕ) → ℤ → (pointer : ℕ) → Prog (Unit {0})
  unfolding get_node put_node unlock_node insert_into_leaf
  insert_with_room leaf key pointer = do
    l ← get_node leaf
    changed ← lift (insert_into_leaf l.entries key (to_record pointer))
    entries ← lift (found changed)
    put_node leaf (record l { entries = entries })
    unlock_node leaf

  -- `insert` behind the call of `find_leaf_insert`, the leaf being locked.
  unfoldable pub insert_at : (fuel : ℕ) → (root leaf : ℕ) → ℤ → (pointer : ℕ) → Prog (Option ℕ)
  unfolding get_node unlock_node scan_keys load_key insert_with_room
      insert_into_leaf_after_splitting
  insert_at fuel root leaf key pointer = do
    l ← get_node leaf
    index ← lift (scan_keys l.entries.keys key 0 (mem.order - 1))
    k ← lift (load_key mem.behind l.entries.keys index)
    let present : Prog (Option ℕ) = (do unlock_node leaf; return (some root))
    let room : Prog (Option ℕ) = (do insert_with_room leaf key pointer; return (some root))
    let full : Prog (Option ℕ) = insert_into_leaf_after_splitting fuel root leaf key pointer
    if int_eq k key then present else if ltb l.entries.num_keys (mem.order - 1) then room else full

  unfoldable pub insert : (fuel : ℕ) → Option ℕ → (key value : ℤ) → Prog (Option ℕ)
  unfolding make_record lock_global unlock_global start_new_tree find_leaf_insert insert_at
  insert fuel none key value = do
    pointer ← make_record value
    lock_global
    retval ← start_new_tree key pointer
    unlock_global
    return (some retval)
  insert fuel (some root) key value = do
    pointer ← make_record value
    leaf ← find_leaf_insert mem fuel (some root) key
    l ← lift (found leaf)
    insert_at fuel root l key pointer
