-- ===== src/Bpt/Search.antt =====
-- The walks of BPT/bpt.c: down to a leaf, along the leaves, and up to the root. The argument `fuel`
-- bounds the rounds of each walk.
use green_hash_tree.Prelude.{
  ℕ, zero, suc, ◌+◌, ◌-◌, ◌==◌, Option, none, some, List, [], ◌++◌, get_elem?, if◌then◌else◌,
}
use green_hash_tree.Prelude.Int.{ℤ, int_lt, int_eq}
use green_hash_tree.Prelude.Run.{ok, fault}
use green_hash_tree.Bpt.{load, scan_keys, find_index}
use green_hash_tree.Bpt.Heap.{
  Ptr, null, to_node, to_record, Record, Memory, Prog, return, ◌>>=◌, ◌>>◌, lift, found, no_fuel,
  get_node, as_node, node_or_null, lock_node, unlock_node,
}
use green_hash_tree.Bpt.Loops.{child_index, last_key, take_range}

module _ (mem : Memory) where
  -- `while (!c->is_leaf)`, with the choice of the child.
  unfoldable pub descend : (fuel : ℕ) → ℤ → ℕ → Prog ℕ
  unfolding get_node
  descend zero key c = no_fuel
  descend (suc fuel) key c = do
    n ← get_node c
    let deeper : Prog ℕ = (do
      i ← lift (child_index n.entries.keys key 0 n.entries.num_keys)
      p ← lift (load n.entries.pointers i)
      child ← lift (as_node p)
      descend fuel key child)
    if n.is_leaf then return c else deeper

  -- `while (c->keys[c->num_keys-1] < key)` along the leaves, without locks.
  unfoldable pub move_right : (fuel : ℕ) → ℤ → ℕ → Prog ℕ
  unfolding get_node
  move_right zero key c = no_fuel
  move_right (suc fuel) key c = do
    n ← get_node c
    k ← lift (last_key n.entries)
    let further : Prog ℕ = (do
      p ← lift (load n.entries.pointers (mem.order - 1))
      right ← lift (node_or_null p)
      elim right [ none ↦ return c | some r ↦ move_right fuel key r ])
    if int_lt k key then further else return c

  -- The same with the lock of `c` held: the lock goes from leaf to leaf.
  unfoldable pub move_right_locked : (fuel : ℕ) → ℤ → ℕ → Prog ℕ
  unfolding get_node lock_node unlock_node
  move_right_locked zero key c = no_fuel
  move_right_locked (suc fuel) key c = do
    n ← get_node c
    k ← lift (last_key n.entries)
    let further : Prog ℕ = (do
      p ← lift (load n.entries.pointers (mem.order - 1))
      right ← lift (node_or_null p)
      elim right [
        | none ↦ return c
        | some r ↦ do lock_node r; unlock_node c; move_right_locked fuel key r
      ])
    if int_lt k key then further else return c

  unfoldable pub find_leaf_search : (fuel : ℕ) → Option ℕ → ℤ → Prog (Option ℕ)
  unfolding descend move_right
  find_leaf_search fuel none key = return none
  find_leaf_search fuel (some root) key = do
    c ← descend fuel key root
    leaf ← move_right fuel key c
    return (some leaf)

  -- The leaf is locked.
  unfoldable pub find_leaf_insert : (fuel : ℕ) → Option ℕ → ℤ → Prog (Option ℕ)
  unfolding descend lock_node move_right_locked
  find_leaf_insert fuel none key = return none
  find_leaf_insert fuel (some root) key = do
    c ← descend fuel key root
    lock_node c
    leaf ← move_right_locked fuel key c
    return (some leaf)

  -- A pointer that is returned as a `record *`, after the copy of its 32 bytes.
  unfoldable pub copy_out : Ptr → Prog (Option ℕ)
  copy_out null s = ok (none, s)
  copy_out (to_node a) s = fault
  copy_out (to_record r) s = elim (get_elem? s.records r) [
    | none ↦ fault
    | some none ↦ fault
    | some (some x) ↦ ok (some r, record s { example = x.simdata })
  ]

  unfoldable pub find_at : ℤ → Option ℕ → Prog (Option ℕ)
  unfolding get_node copy_out
  find_at key none = return none
  find_at key (some c) = do
    n ← get_node c
    i ← lift (find_index n.entries.keys key 0 n.entries.num_keys)
    let there : Prog (Option ℕ) = (do p ← lift (load n.entries.pointers i); copy_out p)
    if i == n.entries.num_keys then return none else there

  unfoldable pub find : (fuel : ℕ) → Option ℕ → ℤ → Prog (Option ℕ)
  unfolding find_leaf_search find_at
  find fuel root key = do c ← find_leaf_search fuel root key; find_at key c

  -- The `value` of a record.
  unfoldable pub get_record : ℕ → Prog Record
  get_record r s = elim (get_elem? s.records r) [
    | none ↦ fault
    | some none ↦ fault
    | some (some x) ↦ ok (x, s)
  ]

  -- `search`, of the benchmark in the same file: 1 if the key has itself as its value.
  unfoldable pub search : (fuel : ℕ) → Option ℕ → ℤ → Prog ℕ
  unfolding find get_record
  search fuel root val = do
    r ← find fuel root val
    elim r [
      | none ↦ return 0
      | some a ↦ do x ← get_record a; return (if int_eq x.value val then 1 else 0)
    ]

  -- The loop `while (n != NULL)` of `find_range` along the leaves, from the index `i` of the first.
  unfoldable pub collect : (fuel : ℕ) → ℤ → ℕ → Option ℕ → Prog (List (ℤ × Ptr))
  unfolding get_node
  collect zero key_end i n = no_fuel
  collect (suc fuel) key_end i none = return []
  collect (suc fuel) key_end i (some a) = do
    n ← get_node a
    here ← lift (take_range n.entries key_end i (n.entries.num_keys - i))
    p ← lift (load n.entries.pointers (mem.order - 1))
    right ← lift (node_or_null p)
    rest ← collect fuel key_end 0 right
    return (here ++ rest)

  unfoldable pub find_range_from :
      (fuel : ℕ) → (key_start key_end : ℤ) → Option ℕ → Prog (List (ℤ × Ptr))
  unfolding get_node collect
  find_range_from fuel key_start key_end none = return []
  find_range_from fuel key_start key_end (some a) = do
    n ← get_node a
    i ← lift (scan_keys n.entries.keys key_start 0 n.entries.num_keys)
    let all : Prog (List (ℤ × Ptr)) = collect fuel key_end i (some a)
    if i == n.entries.num_keys then return [] else all

  -- The contents of `returned_keys` and `returned_pointers`, which the caller has room for.
  unfoldable pub find_range :
      (fuel : ℕ) → Option ℕ → (key_start key_end : ℤ) → Prog (List (ℤ × Ptr))
  unfolding find_leaf_search find_range_from
  find_range fuel root key_start key_end = do
    n ← find_leaf_search fuel root key_start
    find_range_from fuel key_start key_end n

  unfoldable pub height : (fuel : ℕ) → ℕ → Prog ℕ
  unfolding get_node
  height zero c = no_fuel
  height (suc fuel) c = do
    n ← get_node c
    let deeper : Prog ℕ = (do
      p ← lift (load n.entries.pointers 0)
      child ← lift (as_node p)
      h ← height fuel child
      return (h + 1))
    if n.is_leaf then return 0 else deeper

  unfoldable pub path_to_root : (fuel : ℕ) → (root child : ℕ) → Prog ℕ
  unfolding get_node
  path_to_root zero root c = no_fuel
  path_to_root (suc fuel) root c = do
    n ← get_node c
    let up : Prog ℕ = (do
      parent ← lift (found n.parent)
      length ← path_to_root fuel root parent
      return (length + 1))
    if c == root then return 0 else up
