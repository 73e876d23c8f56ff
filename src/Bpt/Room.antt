-- ===== src/Bpt/Room.antt =====
-- An insertion into a tree whose leaf has room, from the walk to the last unlock.
use green_hash_tree.Prelude.{
  ℕ, zero, suc, ◌+◌, ◌-◌, ◌≤◌, ◌<◌, ◌≡◌, refl, ap, sym, ◌∙◌, true, false, Bool-cases, inl, inr,
  Option, none, some, List, [], ◌∷◌, ◌++◌, get_elem?, set, length, get_elem?-set_self,
  get_elem?-set_cases, get_elem?_of_lt, lt_of_get_elem?, arith, ◌==◌, ltb,
}
use green_hash_tree.Prelude.Int.{ℤ, int_eq, int_eq_refl}
use green_hash_tree.Prelude.Run.{Run, ok}
use green_hash_tree.Msgq.{open_mutex, held}
use green_hash_tree.Bpt.{Leaf, scan_keys, insert_into_leaf}
use green_hash_tree.Bpt.Arrays.{load-ok}
use green_hash_tree.Bpt.Scan.{scan_keys_lem}
use green_hash_tree.Bpt.Insert.{HasRoom, Inserted, insert_into_leaf_lem}
use green_hash_tree.Bpt.Heap.{
  Ptr, to_record, Node, Heap, Memory, put_node, make_record, get_node-ok, lift-ok, bind-ok, if-true,
  if-false,
}
use green_hash_tree.Bpt.Loops.{load_key}
use green_hash_tree.Bpt.Insertion.{insert_with_room, insert_at, insert}
use green_hash_tree.Bpt.Search.{find_leaf_search, find_leaf_insert}
use green_hash_tree.Bpt.Tree.{
  Tree, leaf, inner, Forest, last, more, root, leaves, first_leaf_in, levels, Holds, HoldsIn,
  IsOrdered,
}
use green_hash_tree.Bpt.Locks.{lock_at, with_lock, at_lock, AllOpen, unlock_node-ok, with_lock-node}
use green_hash_tree.Bpt.Walk.{reach_locked}

-- The memory once `make_record` has made a record.
abbrev pub with_record : Heap → ℤ → Heap
with_record s value = record s {
  records = s.records ++ (some (record { value = value; simdata = s.example }) ∷ []);
}

get_elem?-append_left {ℓ} :
    {A : Type ℓ} (xs ys : List A) (j : ℕ) (x : A)
    → get_elem? xs j ≡ some x
    → get_elem? (xs ++ ys) j ≡ some x
get_elem?-append_left [] ys j x h = ground (arith, h)
get_elem?-append_left (y ∷ xs) ys zero x h = h
get_elem?-append_left (y ∷ xs) ys (suc j) x h = get_elem?-append_left xs ys j x h

set-set {ℓ} : {A : Type ℓ} (xs : List A) (i : ℕ) (a b : A) → set (set xs i a) i b ≡ set xs i b
set-set [] i a b = refl
set-set (x ∷ xs) zero a b = refl
set-set (x ∷ xs) (suc i) a b = ap (◌∷◌ x) (set-set xs i a b)

module _ (order : ℕ) (s : Heap) (value : ℤ) where
  mutual
    unfolding Holds

    -- One record more changes nothing in a tree.
    pub Holds-with_record :
        (next : Option ℕ) (t : Tree)
        → Holds order s next t
        → Holds order (with_record s value) next t
    Holds-with_record next (leaf a es) h = record {
      node = h.node;
      at = h.at;
      is_leaf = h.is_leaf;
      count = h.count;
      some_key = h.some_key;
      keys = h.keys;
      pointers = h.pointers;
      records = λ j k r e.
          let (x, there) = h.records j k r e in
          (x, get_elem?-append_left s.records _ r (some x) there);
      next_at = h.next_at;
    }
    Holds-with_record next (inner a f) (h, g) = (
      record {
        node = h.node;
        at = h.at;
        is_inner = h.is_inner;
        count = h.count;
        keys = h.keys;
        pointers = h.pointers;
      },
      HoldsIn-with_record next f g,
    )

    HoldsIn-with_record :
        (next : Option ℕ) (f : Forest)
        → HoldsIn order s next f
        → HoldsIn order (with_record s value) next f
    HoldsIn-with_record next (last t) h = Holds-with_record next t h
    HoldsIn-with_record next (more t k f) (h, g) =
        (Holds-with_record (some (first_leaf_in f)) t h, HoldsIn-with_record next f g)

-- The memory with a new record and with other arrays in the leaf `a`.
abbrev pub with_entries : Heap → ℤ → ℕ → Node → Leaf Ptr → Heap
with_entries s value a n e = record (with_record s value) {
  nodes = set s.nodes a (record n { entries = e; lock = open_mutex });
}

module _ (mem : Memory) where
  abbrev order : ℕ
  order = mem.order

  -- A leaf that takes a key: it has room, and neither a slot of its array, used or not, nor the word
  -- behind it holds the key.
  pub record Takes (n : Node) (key : ℤ) : Type 0 where
    pub room : HasRoom n.entries
    pub keys_length : length n.entries.keys + 1 ≡ order
    pub absent : (j : ℕ) (a : ℤ) → get_elem? n.entries.keys j ≡ some a → int_eq a key ≡ false
    pub word : ℤ
    pub behind : mem.behind ≡ ok word
    pub word_apart : int_eq word key ≡ false

  -- The test for a present key.
  not_there :
      (n : Node) (key : ℤ)
      → Takes n key
      → (index : ℕ) × (k : ℤ) × (scan_keys n.entries.keys key 0 (order - 1) ≡ ok index)
        × (load_key mem.behind n.entries.keys index ≡ ok k)
        × (int_eq k key ≡ false)
  unfolding load_key
  not_there n key t =
      let (index, done, stop) =
        scan_keys_lem n.entries.keys key 0 (order - 1) (omega (arith, t.keys_length)) in
      elim (Bool-cases (index == length n.entries.keys)) [
        | inl e ↦ (index, t.word, done, rw e t.behind, t.word_apart)
        | inr e ↦
            let inner : index < length n.entries.keys =
              ground (arith, e, stop.upto, t.keys_length) in
            let (k, at) = get_elem?_of_lt n.entries.keys index inner in
            (index, k, done, rw e (load-ok n.entries.keys index at), t.absent index k at)
      ]

  insert_with_room_lem :
      (s : Heap) (a : ℕ) (n : Node) (e : Leaf Ptr) (key : ℤ) (r : ℕ)
      → get_elem? s.nodes a ≡ some n
      → insert_into_leaf n.entries key (to_record r) ≡ ok (some e)
      → insert_with_room mem a key r (lock_at s a)
        ≡ ok (tt, record s { nodes = set s.nodes a (record n { entries = e; lock = open_mutex }) })
  unfolding insert_with_room put_node
  insert_with_room_lem s a n e key r at done =
      let n' : Node = record n { lock = held } in
      let m : Node = record n' { entries = e } in
      let s' : Heap = record s { nodes = set (with_lock s.nodes a) a m } in
      let whole : set (with_lock s.nodes a) a m ≡ set s.nodes a m =
        ap (λ l. set l a m) (with_lock-node s.nodes a n at) ∙ set-set s.nodes a n' m in
      let there : get_elem? s'.nodes a ≡ some m =
        ap (λ l. get_elem? l a) whole
        ∙ get_elem?-set_self s.nodes a m (lt_of_get_elem? s.nodes a n at) in
      get_node-ok (lock_at s a) a _ (at_lock s.nodes a n at)
      ∙ lift-ok _ (lock_at s a) done
      ∙ unlock_node-ok s' a m there refl
      ∙ ap (λ l. ok (tt, record s { nodes = l }))
          (ap (λ l. set l a (record m { lock = open_mutex })) whole
            ∙ set-set s.nodes a m (record m { lock = open_mutex }))

  insert_at_lem :
      (s : Heap) (fuel root a : ℕ) (n : Node) (e : Leaf Ptr) (key : ℤ) (r : ℕ)
      → get_elem? s.nodes a ≡ some n
      → Takes n key
      → insert_into_leaf n.entries key (to_record r) ≡ ok (some e)
      → insert_at mem fuel root a key r (lock_at s a)
        ≡ ok (
          some root,
          record s { nodes = set s.nodes a (record n { entries = e; lock = open_mutex }) },
        )
  unfolding insert_at
  insert_at_lem s fuel root a n e key r at t done =
      let (index, k, scanned, loaded, apart) = not_there n key t in
      let room : ltb n.entries.num_keys (order - 1) ≡ true =
        ground (arith, t.room.room, t.keys_length) in
      get_node-ok (lock_at s a) a _ (at_lock s.nodes a n at)
      ∙ lift-ok _ (lock_at s a) scanned
      ∙ lift-ok _ (lock_at s a) loaded
      ∙ if-false _ _ (lock_at s a) apart
      ∙ if-true _ _ (lock_at s a) room
      ∙ bind-ok (insert_with_room mem a key r) _ (insert_with_room_lem s a n e key r at done)

  pub insert_there :
      (s : Heap) (fuel root a : ℕ) (key value : ℤ) (res : Run (Option ℕ × Heap))
      → find_leaf_insert mem fuel (some root) key (with_record s value)
        ≡ ok (some a, lock_at (with_record s value) a)
      → insert_at mem fuel root a key (length s.records) (lock_at (with_record s value) a) ≡ res
      → insert mem fuel (some root) key value s ≡ res
  unfolding insert make_record
  insert_there s fuel root a key value res walked done =
      bind-ok (find_leaf_insert mem fuel (some root) key) _ {s = with_record s value} walked ∙ done

  AllOpen-set :
      (nodes : List Node) (a : ℕ) (m : Node)
      → m.lock ≡ open_mutex
      → ((j : ℕ) (n : Node) → get_elem? nodes j ≡ some n → n.lock ≡ open_mutex)
      → (j : ℕ) (n : Node) → get_elem? (set nodes a m) j ≡ some n
      → n.lock ≡ open_mutex
  AllOpen-set nodes a m h o j n at = elim (get_elem?-set_cases nodes a j m n at) [
    | inl (e, same) ↦ ap (λ n. n.lock) (sym same) ∙ h
    | inr there ↦ o j n there
  ]

  -- In an ordered tree with no node locked, an insertion ends at the leaf `a` at which the search for
  -- the key ends, and returns the root. The leaf gets the key and the new record at their place, as
  -- `insert_into_leaf` puts them; the record has the value; no other node or record changes, and no
  -- node is locked. The leaf has room, and neither a slot of its array nor the word behind it holds
  -- the key. Fuel for the levels and for the leaves is enough.
  pub insert_room_lem :
      (s : Heap) (t : Tree) (fuel a : ℕ) (n : Node) (key value : ℤ)
      → levels t ≤ fuel
      → length (leaves t) ≤ fuel
      → Holds order s none t
      → IsOrdered t
      → AllOpen s
      → find_leaf_search mem fuel (some (root t)) key (with_record s value)
        ≡ ok (some a, with_record s value)
      → get_elem? s.nodes a ≡ some n
      → Takes n key
      → (point : ℕ) × (e : Leaf Ptr) × (insert mem fuel (some (root t)) key value s
          ≡ ok (some (root t), with_entries s value a n e))
        × Inserted n.entries key (to_record (length s.records)) point e
        × AllOpen (with_entries s value a n e)
  insert_room_lem s t fuel a n key value l k h p o searched at takes =
      let s1 = with_record s value in
      let walked =
        reach_locked mem s1 key fuel a t l k (Holds-with_record order s value none t h) p o
          searched in
      let (point, stop, result) =
        insert_into_leaf_lem n.entries key (to_record (length s.records)) takes.room in
      elim result [
        | inl (there, _) ↦
            absurd (let e = takes.absent point key there in let f = int_eq_refl key in cc (e, f))
        | inr (e, done, put) ↦ (
          point,
          e,
          insert_there s fuel (root t) a key value _ walked
              (insert_at_lem s1 fuel (root t) a n e key (length s.records) at takes done),
          put,
          AllOpen-set s.nodes a (record n { entries = e; lock = open_mutex }) refl o,
        )
      ]
