-- ===== src/Bpt/Tree.antt =====
-- The B+ tree that nodes in memory stand for: its shape with the addresses of its nodes, its entries,
-- and the order of its keys. A leaf has its entries, each a key and the address of a record.
pub mod Order
use Prim.Native.Nat.{max}
use green_hash_tree.Prelude.{
  ℕ, zero, suc, ◌+◌, ◌-◌, ◌<◌, ◌≡◌, Bool, true, false, Option, none, some, List, [], ◌∷◌, ◌++◌,
  get_elem?, length, if◌then◌else◌,
}
use green_hash_tree.Prelude.Int.{ℤ, int_lt, int_eq}
use green_hash_tree.Bpt.{Leaf}
use green_hash_tree.Bpt.Heap.{Ptr, null, to_node, to_record, Node, Record, Heap}

mutual
  pub data Tree : Type 0 where
    leaf : ℕ → List (ℤ × ℕ) → Tree
    inner : ℕ → Forest → Tree

  -- The children of a node, with the keys between them.
  pub data Forest : Type 0 where
    last : Tree → Forest
    more : Tree → ℤ → Forest → Forest

abbrev pub root : Tree → ℕ
root (leaf a es) = a
root (inner a f) = a

abbrev pub separators : Forest → List ℤ
separators (last t) = []
separators (more t k f) = k ∷ separators f

abbrev pub roots : Forest → List ℕ
roots (last t) = root t ∷ []
roots (more t k f) = root t ∷ roots f

unfoldable mutual
  pub leaves : Tree → List (ℕ × List (ℤ × ℕ))
  leaves (leaf a es) = (a, es) ∷ []
  leaves (inner a f) = leaves_in f

  pub leaves_in : Forest → List (ℕ × List (ℤ × ℕ))
  leaves_in (last t) = leaves t
  leaves_in (more t k f) = leaves t ++ leaves_in f

-- The entries of some leaves.
abbrev pub flat : List (ℕ × List (ℤ × ℕ)) → List (ℤ × ℕ)
flat [] = []
flat ((a, es) ∷ ls) = es ++ flat ls

unfoldable mutual
  pub entries : Tree → List (ℤ × ℕ)
  entries (leaf a es) = es
  entries (inner a f) = entries_in f

  pub entries_in : Forest → List (ℤ × ℕ)
  entries_in (last t) = entries t
  entries_in (more t k f) = entries t ++ entries_in f

unfoldable mutual
  pub first_leaf : Tree → ℕ
  first_leaf (leaf a es) = a
  first_leaf (inner a f) = first_leaf_in f

  pub first_leaf_in : Forest → ℕ
  first_leaf_in (last t) = first_leaf t
  first_leaf_in (more t k f) = first_leaf t

-- The number of nodes on a longest way down.
unfoldable mutual
  pub levels : Tree → ℕ
  levels (leaf a es) = 1
  levels (inner a f) = suc (levels_in f)

  pub levels_in : Forest → ℕ
  levels_in (last t) = levels t
  levels_in (more t k f) = max (levels t) (levels_in f)

-- The record of a key.
abbrev pub assoc : ℤ → List (ℤ × ℕ) → Option ℕ
assoc key [] = none
assoc key ((k, r) ∷ es) = if int_eq k key then some r else assoc key es

-- Bounds on a key, which may be missing.
abbrev pub AtLeast : Option ℤ → ℤ → Type 0
AtLeast none k = Unit
AtLeast (some low) k = int_lt k low ≡ false

abbrev pub Below : Option ℤ → ℤ → Type 0
Below none k = Unit
Below (some high) k = int_lt k high ≡ true

abbrev pub AllBelow : Option ℤ → List (ℤ × ℕ) → Type 0
AllBelow high [] = Unit
AllBelow high ((k, r) ∷ es) = Below high k × AllBelow high es

-- The keys are above `low`, and each is above the one before.
abbrev pub SortedAbove : ℤ → List (ℤ × ℕ) → Type 0
SortedAbove low [] = Unit
SortedAbove low ((k, r) ∷ es) = (int_lt low k ≡ true) × SortedAbove k es

abbrev pub IsSorted : List (ℤ × ℕ) → Type 0
IsSorted [] = Unit
IsSorted ((k, r) ∷ es) = SortedAbove k es

-- The keys between children ascend, and the entries on the left of such a key are below it. Those on
-- its right need not be at least it: a key between the last key of a leaf and the key that divides it
-- from the next leaf is put into the next leaf.
unfoldable mutual
  pub IsDivided : (low high : Option ℤ) → Tree → Type 0
  IsDivided low high (leaf a es) = AllBelow high es
  IsDivided low high (inner a f) = IsDividedIn low high f

  pub IsDividedIn : (low high : Option ℤ) → Forest → Type 0
  IsDividedIn low high (last t) = IsDivided low high t
  IsDividedIn low high (more t k f) =
      AtLeast low k × Below high k × IsDivided low (some k) t × IsDividedIn (some k) high f

-- An ordered tree: divided at the keys of its nodes, and with ascending entries.
abbrev pub IsOrdered : Tree → Type 0
IsOrdered t = IsDivided none none t × IsSorted (entries t)

abbrev pub next_ptr : Option ℕ → Ptr
next_ptr none = null
next_ptr (some a) = to_node a

-- The address of the first leaf, or what follows the leaves.
abbrev pub head_of : List (ℕ × List (ℤ × ℕ)) → Option ℕ → Option ℕ
head_of [] end = end
head_of ((a, es) ∷ ls) end = some a

module _ (order : ℕ) (s : Heap) where
  -- The node at `a` is a leaf with the entries `es`, whose records are there, and the next leaf `next`.
  pub record LeafAt (a : ℕ) (es : List (ℤ × ℕ)) (next : Option ℕ) : Type 0 where
    pub node : Node
    pub at : get_elem? s.nodes a ≡ some node
    pub is_leaf : node.is_leaf ≡ true
    pub count : node.entries.num_keys ≡ length es
    pub some_key : 0 < length es
    pub keys :
        (j : ℕ) (k : ℤ) (r : ℕ)
        → get_elem? es j ≡ some (k, r)
        → get_elem? node.entries.keys j ≡ some k
    pub pointers :
        (j : ℕ) (k : ℤ) (r : ℕ)
        → get_elem? es j ≡ some (k, r)
        → get_elem? node.entries.pointers j ≡ some (to_record r)
    pub records :
        (j : ℕ) (k : ℤ) (r : ℕ)
        → get_elem? es j ≡ some (k, r)
        → (x : Record) × (get_elem? s.records r ≡ some (some x))
    pub next_at : get_elem? node.entries.pointers (order - 1) ≡ some (next_ptr next)

  -- The node at `a` is an inner node with these keys and children.
  pub record InnerAt (a : ℕ) (seps : List ℤ) (children : List ℕ) : Type 0 where
    pub node : Node
    pub at : get_elem? s.nodes a ≡ some node
    pub is_inner : node.is_leaf ≡ false
    pub count : node.entries.num_keys ≡ length seps
    pub keys : (j : ℕ) (k : ℤ) → get_elem? seps j ≡ some k → get_elem? node.entries.keys j ≡ some k
    pub pointers :
        (j c : ℕ)
        → get_elem? children j ≡ some c
        → get_elem? node.entries.pointers j ≡ some (to_node c)

  -- The memory holds the tree; `next` is the leaf behind its last one.
  unfoldable mutual
    pub Holds : Option ℕ → Tree → Type 0
    Holds next (leaf a es) = LeafAt a es next
    Holds next (inner a f) = InnerAt a (separators f) (roots f) × HoldsIn next f

    pub HoldsIn : Option ℕ → Forest → Type 0
    HoldsIn next (last t) = Holds next t
    HoldsIn next (more t k f) = Holds (some (first_leaf_in f)) t × HoldsIn next f

  -- The leaves `ls` are there, and are linked in this order; `end` follows the last one.
  abbrev pub ChainAt : List (ℕ × List (ℤ × ℕ)) → Option ℕ → Type 0
  ChainAt [] end = Unit
  ChainAt ((a, es) ∷ ls) end = LeafAt a es (head_of ls end) × ChainAt ls end
