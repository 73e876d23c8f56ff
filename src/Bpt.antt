-- ===== src/Bpt.antt =====
-- Leaves of the B+ tree of BPT/bpt.c: the insertion into a leaf with room, and the search in a leaf.
-- A leaf's arrays are lists of their whole length, `order - 1` keys and `order` pointers; behind
-- `num_keys` they hold what `malloc` or earlier operations left. A leaf is locked by its caller.
pub mod Heap
pub mod Loops
pub mod Split
pub mod Tree
pub mod Search
pub mod Descent
pub mod Leaves
pub mod Locks
pub mod Walk
pub mod Lookup
pub mod Bounds
pub mod Range
pub mod Start
pub mod Room
pub mod Behind
pub mod Removal
pub mod Middleware
pub mod Insertion
pub mod Deletion
pub mod Arrays
pub mod Copies
pub mod Half
pub mod Halves
pub mod Middle
pub mod Scan
pub mod Insert
pub mod Find
use green_hash_tree.Prelude.{
  ℕ, zero, suc, ◌+◌, ◌-◌, ◌/◌, ◌%◌, Option, none, some, List, if◌then◌else◌, ltb, get_elem?, set,
  length, ◌==◌,
}
use green_hash_tree.Prelude.Int.{ℤ, int_lt, int_eq}
use green_hash_tree.Prelude.Run.{Run, ok, fault, ◌>>=◌}

-- The fields of a `node` that the insertion into a leaf uses; `P` are the pointers.
pub record Leaf (P : Type 0) : Type 0 where
  pub keys : List ℤ
  pub pointers : List P
  pub num_keys : ℕ

-- `a[i]`, and `a[i] = x`
abbrev pub load {ℓ} : {A : Type ℓ} → List A → ℕ → Run A
load xs i = elim (get_elem? xs i) [ none ↦ fault | some x ↦ ok x ]

abbrev pub store {ℓ} : {A : Type ℓ} → List A → ℕ → A → Run (List A)
store xs i x = if ltb i (length xs) then ok (set xs i x) else fault

-- `while (insertion_point < num_keys && keys[insertion_point] < key)` from the index `i` on, with
-- `left` keys before `num_keys`.
unfoldable pub scan_keys : List ℤ → ℤ → (i left : ℕ) → Run ℕ
scan_keys keys key i zero = ok i
scan_keys keys key i (suc left) = do
  k ← load keys i
  let further = scan_keys keys key (i + 1) left
  if int_lt k key then further else ok i

-- `for (i = num_keys; i > point; i--) xs[i] = xs[i - 1]`, with `left` rounds to go.
unfoldable pub shift_up {ℓ} : {A : Type ℓ} → List A → (point left : ℕ) → Run (List A)
shift_up xs point zero = ok xs
shift_up xs point (suc left) = do
  x ← load xs (point + left)
  xs' ← store xs (point + suc left) x
  shift_up xs' point left

-- `none` stands for NULL, when the key at the insertion point is the one to be inserted.
unfoldable pub insert_into_leaf : {P : Type 0} → Leaf P → ℤ → P → Run (Option (Leaf P))
unfolding scan_keys shift_up
insert_into_leaf leaf key pointer = do
  point ← scan_keys leaf.keys key 0 leaf.num_keys
  k ← load leaf.keys point
  if int_eq k key then ok none else do
    keys' ← shift_up leaf.keys point (leaf.num_keys - point)
    pointers' ← shift_up leaf.pointers point (leaf.num_keys - point)
    keys'' ← store keys' point key
    pointers'' ← store pointers' point pointer
    ok (some (record { keys = keys''; pointers = pointers''; num_keys = leaf.num_keys + 1 }))

-- The loop of `find`: the first index with the key, or `num_keys`.
unfoldable pub find_index : List ℤ → ℤ → (i left : ℕ) → Run ℕ
find_index keys key i zero = ok i
find_index keys key i (suc left) = do
  k ← load keys i
  let further = find_index keys key (i + 1) left
  if int_eq k key then ok i else further

-- `find` at the leaf that it has come to, without the copy of the 32 bytes; `none` stands for NULL.
unfoldable pub find_in_leaf : {P : Type 0} → Leaf P → ℤ → Run (Option P)
unfolding find_index
find_in_leaf leaf key = do
  i ← find_index leaf.keys key 0 leaf.num_keys
  if i == leaf.num_keys then ok none else do p ← load leaf.pointers i; ok (some p)
