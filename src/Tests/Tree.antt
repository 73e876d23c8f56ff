-- ===== src/Tests/Tree.antt =====
-- The B+ tree in memory, run, and its theorems at concrete trees of order 4.
use green_hash_tree.Prelude.{
  ℕ, zero, suc, ◌+◌, ◌≡◌, refl, ap, ap₂, sym, ◌∙◌, arith, Option, none, some, List, [], ◌∷◌,
  get_elem?, map, Bool, true, false,
}
use green_hash_tree.Prelude.Int.{ℤ, pos, int_eq, int_lt}
use green_hash_tree.Prelude.Run.{Run, ok, blocked, fault}
use green_hash_tree.Msgq.{open_mutex, held}
use green_hash_tree.Shm.{example_text}
use green_hash_tree.Bpt.{Leaf}
use green_hash_tree.Bpt.Heap.{
  Ptr, null, to_node, to_record, Node, Record, Heap, Memory, Prog, return, ◌>>=◌,
}
use green_hash_tree.Bpt.Loops.{last_key, child_index, take_range}
use green_hash_tree.Bpt.Search.{
  descend, move_right, find_leaf_search, find_leaf_insert, find, find_range,
}
use green_hash_tree.Bpt.Insertion.{insert}
use green_hash_tree.Bpt.Tree.{
  Tree, leaf, inner, last, more, LeafAt, Holds, IsOrdered, IsDivided, next_ptr, entries, leaves,
  levels, first_leaf,
}
use green_hash_tree.Bpt.Locks.{lock_at, AllOpen}
use green_hash_tree.Bpt.Lookup.{find_lem}
use green_hash_tree.Bpt.Walk.{find_leaf_insert-find_leaf_search}
use green_hash_tree.Bpt.Scan.{Ascending}
use green_hash_tree.Bpt.Insert.{Inserted}
use green_hash_tree.Bpt.Behind.{insert-behind}
use green_hash_tree.Bpt.Room.{with_entries, Takes, insert_room_lem}
use green_hash_tree.Bpt.Range.{find_range_lem}
use green_hash_tree.Tests.Memory.{mem, empty}

abbrev insert_all : List ℕ → Option ℕ → Prog (Option ℕ)
unfolding insert
insert_all [] root = return root
insert_all (k ∷ ks) root = do root' ← insert mem 9 root (pos k) (pos (k + 100)); insert_all ks root'

abbrev all_open : List Node → Bool
all_open [] = true
all_open (n ∷ ns) = elim n.lock [ open_mutex ↦ all_open ns | held ↦ false ]

-- The keys from 2 to 8, after some insertions, and whether no node is locked.
abbrev view : Run (List (ℤ × Ptr) × Heap) → List ℤ × Bool
view (ok (xs, s)) = (map (λ x. x.0) xs, all_open s.nodes)
view blocked = ([], false)
view fault = ([], false)

abbrev keys_from : List ℕ → Prog (List (ℤ × Ptr))
unfolding find_range
keys_from ks = do root ← insert_all ks none; find_range mem 99 root (pos 2) (pos 8)

ten_inserted :
    view (keys_from (5 ∷ 3 ∷ 8 ∷ 1 ∷ 9 ∷ 7 ∷ 2 ∷ 6 ∷ 4 ∷ 10 ∷ []) empty)
    ≡ (pos 2 ∷ pos 3 ∷ pos 4 ∷ pos 5 ∷ pos 6 ∷ pos 7 ∷ pos 8 ∷ [], true)
unfolding keys_from insert_all last_key child_index take_range
ten_inserted = refl

abbrev leaf_node : ℕ → ℕ → ℕ → ℕ → Ptr → Node
leaf_node k r l q next = record {
  entries = record {
    keys = pos k ∷ pos l ∷ pos 0 ∷ [];
    pointers = to_record r ∷ to_record q ∷ null ∷ next ∷ [];
    num_keys = 2;
  };
  is_leaf = true;
  parent = some 2;
  lock = open_mutex;
}

-- Two leaves, with 1 and 3, and 4 and 8, under a root with the key 5.
abbrev two_leaves : Heap
two_leaves = record empty {
  nodes =
      leaf_node 1 0 3 1 (to_node 1)
      ∷ leaf_node 4 2 8 3 null
      ∷ (record {
        entries = record {
          keys = pos 5 ∷ pos 0 ∷ pos 0 ∷ [];
          pointers = to_node 0 ∷ to_node 1 ∷ null ∷ null ∷ [];
          num_keys = 1;
        };
        is_leaf = false;
        parent = none;
        lock = open_mutex;
      })
      ∷ [];
  records =
      map (λ v. some (record { value = pos v; simdata = example_text })) (11 ∷ 13 ∷ 14 ∷ 18 ∷ []);
}

abbrev tree : Tree
tree = inner 2 (
    more (leaf 0 ((pos 1, 0) ∷ (pos 3, 1) ∷ [])) (pos 5)
      (last (leaf 1 ((pos 4, 2) ∷ (pos 8, 3) ∷ []))))

-- The fields of a leaf or an inner node, element by element.
abbrev HasPrefix : {A B : Type 0} → (A → B) → List A → List B → Type 0
HasPrefix f [] ys = Unit
HasPrefix f (x ∷ xs) [] = ⊥
HasPrefix f (x ∷ xs) (y ∷ ys) = (y ≡ f x) × HasPrefix f xs ys

agrees :
    {A B : Type 0} (f : A → B) (xs : List A) (ys : List B)
    → HasPrefix f xs ys
    → (j : ℕ) (x : A) → get_elem? xs j ≡ some x
    → get_elem? ys j ≡ some (f x)
agrees f [] ys h j x at = ground (arith, at)
agrees f (x ∷ xs) [] h j y at = absurd h
agrees f (x ∷ xs) (y ∷ ys) (e, h) zero z at =
    let e' = ap f (let t : x ≡ z = cc at in t) in ap some (e ∙ e')
agrees f (x ∷ xs) (y ∷ ys) (e, h) (suc j) z at = agrees f xs ys h j z at

abbrev HasRecords : Heap → List (ℤ × ℕ) → Type 0
HasRecords s [] = Unit
HasRecords s ((k, r) ∷ es) =
    ((x : Record) × (get_elem? s.records r ≡ some (some x))) × HasRecords s es

same_record : (k' k : ℤ) (r' r : ℕ) → get_elem? {A = ℤ × ℕ} ((k', r') ∷ []) 0 ≡ some (k, r) → r' ≡ r
same_record k' k r' r at = cc at

records_at :
    (s : Heap) (es : List (ℤ × ℕ))
    → HasRecords s es
    → (j : ℕ) (k : ℤ) (r : ℕ) → get_elem? es j ≡ some (k, r)
    → (x : Record) × (get_elem? s.records r ≡ some (some x))
records_at s [] h j k r at = ground (arith, at)
records_at s ((k', r') ∷ es) ((x, e), h) zero k r at =
    let same : r' ≡ r = same_record k' k r' r at in (x, ap (get_elem? s.records) (sym same) ∙ e)
records_at s ((k', r') ∷ es) (x, h) (suc j) k r at = records_at s es h j k r at

-- A leaf with two entries, by its node.
two_entries :
    (a k r l q : ℕ) (next : Option ℕ)
    → get_elem? two_leaves.nodes a ≡ some (leaf_node k r l q (next_ptr next))
    → HasRecords two_leaves ((pos k, r) ∷ (pos l, q) ∷ [])
    → LeafAt 4 two_leaves a ((pos k, r) ∷ (pos l, q) ∷ []) next
two_entries a k r l q next at h =
    let es : List (ℤ × ℕ) = (pos k, r) ∷ (pos l, q) ∷ [] in
    record {
      node = leaf_node k r l q (next_ptr next);
      at = at;
      is_leaf = refl;
      count = refl;
      some_key = omega arith;
      keys = λ j x y e.
          agrees (λ x. x.0) es (pos k ∷ pos l ∷ pos 0 ∷ []) (refl, (refl, tt)) j (x, y) e;
      pointers = λ j x y e.
          agrees (λ x. to_record x.1) es (to_record r ∷ to_record q ∷ null ∷ next_ptr next ∷ [])
            (refl, (refl, tt)) j (x, y) e;
      records = records_at two_leaves es h;
      next_at = refl;
    }

two_leaves-Holds : Holds 4 two_leaves none tree
unfolding Holds first_leaf
two_leaves-Holds = (
  record {
    node = _;
    at = refl;
    is_inner = refl;
    count = refl;
    keys = agrees (λ x. x) (pos 5 ∷ []) (pos 5 ∷ pos 0 ∷ pos 0 ∷ []) (refl, tt);
    pointers =
        agrees to_node (0 ∷ 1 ∷ []) (to_node 0 ∷ to_node 1 ∷ null ∷ null ∷ []) (refl, (refl, tt));
  },
  (
    two_entries 0 1 0 3 1 (some 1) refl ((_, refl), ((_, refl), tt)),
    two_entries 1 4 2 8 3 none refl ((_, refl), ((_, refl), tt)),
  ),
)

tree-IsOrdered : IsOrdered tree
unfolding IsDivided entries
tree-IsOrdered = ((tt, tt, (refl, (refl, tt)), (tt, (tt, tt))), (refl, (refl, (refl, tt))))

same_lock : (m n : Node) → m.lock ≡ open_mutex → some m ≡ some n → n.lock ≡ open_mutex
same_lock m n h at = let e : m ≡ n = cc at in ap (λ n. n.lock) (sym e) ∙ h

two_leaves-AllOpen : AllOpen two_leaves
two_leaves-AllOpen zero n at = same_lock _ n refl at
two_leaves-AllOpen (suc zero) n at = same_lock _ n refl at
two_leaves-AllOpen (suc (suc zero)) n at = same_lock _ n refl at
two_leaves-AllOpen (suc (suc (suc a))) n at = ground (arith, at)

find_lem_example :
    find mem 4 (some 2) (pos 4) two_leaves
    ≡ ok (some 2, record two_leaves { example = example_text })
unfolding entries levels leaves
find_lem_example =
    find_lem mem two_leaves (pos 4) 4 tree (omega arith) (omega arith) two_leaves-Holds
      tree-IsOrdered

find_range_lem_example :
    find_range mem 4 (some 2) (pos 2) (pos 5) two_leaves
    ≡ ok ((pos 3, to_record 1) ∷ (pos 4, to_record 2) ∷ [], two_leaves)
unfolding entries levels leaves
find_range_lem_example =
    find_range_lem mem two_leaves (pos 2) (pos 5) 4 tree (omega arith) (omega arith)
      two_leaves-Holds tree-IsOrdered

-- The way for the key 4 goes through the left leaf, since 4 < 5.
find_leaf_insert-find_leaf_search_example :
    (a : ℕ) × (find_leaf_search mem 4 (some 2) (pos 4) two_leaves ≡ ok (some a, two_leaves))
    × (find_leaf_insert mem 4 (some 2) (pos 4) two_leaves ≡ ok (some a, lock_at two_leaves a))
unfolding entries levels leaves
find_leaf_insert-find_leaf_search_example =
    find_leaf_insert-find_leaf_search mem two_leaves (pos 4) 4 tree (omega arith) (omega arith)
      two_leaves-Holds tree-IsOrdered two_leaves-AllOpen

apart_at : (x a key : ℤ) → int_eq x key ≡ false → some x ≡ some a → int_eq a key ≡ false
apart_at x a key h at = let e : x ≡ a = cc at in ap (λ a. int_eq a key) (sym e) ∙ h

below_at : (x a key : ℤ) → int_lt x key ≡ true → some x ≡ some a → int_lt a key ≡ true
below_at x a key h at = let e : x ≡ a = cc at in ap (λ a. int_lt a key) (sym e) ∙ h

no_two :
    (j : ℕ) (a : ℤ) → get_elem? (pos 1 ∷ pos 3 ∷ pos 0 ∷ []) j ≡ some a → int_eq a (pos 2) ≡ false
no_two zero a at = apart_at (pos 1) a (pos 2) refl at
no_two (suc zero) a at = apart_at (pos 3) a (pos 2) refl at
no_two (suc (suc zero)) a at = apart_at (pos 0) a (pos 2) refl at
no_two (suc (suc (suc j))) a at = ground (arith, at)

up : Ascending (pos 1 ∷ pos 3 ∷ pos 0 ∷ []) 2
up zero a b h at at' =
    let e : pos 1 ≡ a = cc at in let f : pos 3 ≡ b = cc at' in ap₂ int_lt (sym e) (sym f)
up (suc j) a b h at at' = absurd (omega (arith, h))

leaf-Takes : Takes mem (leaf_node 1 0 3 1 (to_node 1)) (pos 2)
leaf-Takes = record {
  room = record { same_length = refl; room = omega arith; ascending = up };
  keys_length = refl;
  absent = no_two;
  word = pos 0;
  behind = refl;
  word_apart = refl;
}

insert_room_lem_example :
    (point : ℕ) × (e : Leaf Ptr) × (insert mem 4 (some 2) (pos 2) (pos 12) two_leaves
      ≡ ok (some 2, with_entries two_leaves (pos 12) 0 (leaf_node 1 0 3 1 (to_node 1)) e))
    × Inserted (leaf_node 1 0 3 1 (to_node 1)).entries (pos 2) (to_record 4) point e
    × AllOpen (with_entries two_leaves (pos 12) 0 (leaf_node 1 0 3 1 (to_node 1)) e)
unfolding levels leaves find_leaf_search descend move_right child_index last_key
insert_room_lem_example =
    insert_room_lem mem two_leaves tree 4 0 (leaf_node 1 0 3 1 (to_node 1)) (pos 2) (pos 12)
      (omega arith) (omega arith) two_leaves-Holds tree-IsOrdered two_leaves-AllOpen refl refl
      leaf-Takes

-- Where the read behind an array is a fault.
abbrev strict : Memory
strict = record mem { behind = fault }

below_nine :
    (j : ℕ) (a : ℤ) → get_elem? (pos 4 ∷ pos 8 ∷ pos 0 ∷ []) j ≡ some a → int_lt a (pos 9) ≡ true
below_nine zero a at = below_at (pos 4) a (pos 9) refl at
below_nine (suc zero) a at = below_at (pos 8) a (pos 9) refl at
below_nine (suc (suc zero)) a at = below_at (pos 0) a (pos 9) refl at
below_nine (suc (suc (suc j))) a at = ground (arith, at)

-- The last leaf has room for the key 9.
insert-behind_example : insert strict 4 (some 2) (pos 9) (pos 19) two_leaves ≡ fault
unfolding levels leaves find_leaf_search descend move_right child_index last_key
insert-behind_example =
    insert-behind strict two_leaves tree 4 1 (leaf_node 4 2 8 3 null) (pos 9) (pos 19) (omega arith)
      (omega arith) two_leaves-Holds tree-IsOrdered two_leaves-AllOpen refl refl refl below_nine
      refl
