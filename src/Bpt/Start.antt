-- ===== src/Bpt/Start.antt =====
-- The first insertion, which makes the tree.
use green_hash_tree.Prelude.{
  ℕ, zero, suc, ◌-◌, ◌<◌, ◌≡◌, ◌≢◌, refl, ap, sym, ◌∙◌, true, false, Bool-cases, inl, inr, none,
  some, List, [], ◌∷◌, ◌++◌, get_elem?, set, length, length-set, get_elem?-set_self,
  get_elem?-set_ne, if◌then◌else◌, arith,
}
use green_hash_tree.Prelude.Int.{ℤ, int_eq}
use green_hash_tree.Prelude.Run.{ok}
use green_hash_tree.Msgq.{open_mutex, held, lock_mutex, unlock_mutex}
use green_hash_tree.Bpt.Arrays.{store-ok}
use green_hash_tree.Bpt.Heap.{
  null, to_record, Node, Record, Heap, Memory, MemoryLaws, put_node, make_node, make_leaf,
  make_record, lock_global, unlock_global, get_node-ok, lift-ok, bind-ok,
}
use green_hash_tree.Bpt.Split.{first_entry}
use green_hash_tree.Bpt.Insertion.{first_leaf_at, start_new_tree, insert}
use green_hash_tree.Bpt.Search.{find}
use green_hash_tree.Bpt.Tree.{leaf, LeafAt, Holds, IsDivided, entries, leaves, levels}
use green_hash_tree.Bpt.Lookup.{find_lem, copied}

at_end {ℓ} : {A : Type ℓ} (xs : List A) (x : A) → get_elem? (xs ++ (x ∷ [])) (length xs) ≡ some x
at_end [] x = refl
at_end (y ∷ xs) x = at_end xs x

set_end {ℓ} :
    {A : Type ℓ} (xs : List A) (x y : A) → set (xs ++ (x ∷ [])) (length xs) y ≡ xs ++ (y ∷ [])
set_end [] x y = refl
set_end (z ∷ xs) x y = ap (◌∷◌ z) (set_end xs x y)

one_entry : (e x : ℤ × ℕ) (j : ℕ) → get_elem? (e ∷ []) j ≡ some x → e ≡ x
one_entry e x zero at = cc at
one_entry e x (suc j) at = ground (arith, at)

entry_record {ℓ} :
    {A : Type ℓ} (xs : List A) (x : A) (key : ℤ) (j : ℕ) (k : ℤ) (q : ℕ)
    → get_elem? {A = ℤ × ℕ} ((key, length xs) ∷ []) j ≡ some (k, q)
    → get_elem? (xs ++ (x ∷ [])) q ≡ some x
entry_record xs x key j k q e =
    ap (get_elem? (xs ++ (x ∷ []))) (sym (ap (λ x. x.1) (one_entry (key, length xs) (k, q) j e)))
    ∙ at_end xs x

-- What an array has for the only entry of a leaf.
at_one {ℓ} :
    {B : Type ℓ} (f : ℤ × ℕ → B) (e : ℤ × ℕ) (xs : List B)
    → get_elem? xs 0 ≡ some (f e)
    → (j : ℕ) (x : ℤ × ℕ) → get_elem? (e ∷ []) j ≡ some x
    → get_elem? xs j ≡ some (f x)
at_one f e xs h zero x at = h ∙ ap (λ y. some (f y)) (one_entry e x 0 at)
at_one f e xs h (suc j) x at = ground (arith, at)

module _ (mem : Memory) (laws : MemoryLaws mem) where
  abbrev order : ℕ
  order = mem.order

  -- The new leaf.
  abbrev new_node : ℕ → Node
  new_node a = record {
    entries = record { keys = mem.fresh_keys a; pointers = mem.fresh_pointers a; num_keys = 0 };
    is_leaf = true;
    parent = none;
    lock = open_mutex;
  }

  abbrev first_node : ℕ → ℤ → ℕ → Node
  first_node a key r = record (new_node a) {
    entries = record {
      keys = set (mem.fresh_keys a) 0 key;
      pointers = set (set (mem.fresh_pointers a) 0 (to_record r)) (order - 1) null;
      num_keys = 1;
    };
  }

  make_leaf_lem :
      (s : Heap)
      → make_leaf mem s
        ≡ ok (length s.nodes, record s { nodes = s.nodes ++ (new_node (length s.nodes) ∷ []) })
  unfolding make_leaf make_node put_node
  make_leaf_lem s =
      let n : Node = record (new_node (length s.nodes)) { is_leaf = false } in
      let s' : Heap = record s { nodes = s.nodes ++ (n ∷ []) } in
      get_node-ok s' (length s.nodes) _ (at_end s.nodes n)
      ∙ ap (λ l. ok (length s.nodes, record s { nodes = l }))
          (set_end s.nodes n (new_node (length s.nodes)))

  first_entry_lem :
      (a : ℕ) (key : ℤ) (r : ℕ)
      → first_entry mem (new_node a).entries key (to_record r) ≡ ok (first_node a key r).entries
  unfolding first_entry
  first_entry_lem a key r =
      let least = laws.order_least in
      let keys : 0 < length (mem.fresh_keys a) = omega (arith, laws.keys_length a, least) in
      let pointers : 0 < length (mem.fresh_pointers a) =
        omega (arith, laws.pointers_length a, least) in
      let pointers' : order - 1 < length (set (mem.fresh_pointers a) 0 (to_record r)) =
        omega (
          arith,
          length-set (mem.fresh_pointers a) 0 (to_record r),
          laws.pointers_length a,
          least,
        ) in
      simp
        (
          store-ok (mem.fresh_keys a) 0 key keys,
          store-ok (mem.fresh_pointers a) 0 (to_record r) pointers,
          store-ok (set (mem.fresh_pointers a) 0 (to_record r)) (order - 1) null pointers',
        )
        refl

  first_leaf_at_lem :
      (s : Heap) (key : ℤ) (r : ℕ)
      → first_leaf_at mem key r
          (length s.nodes)
          (record s { nodes = s.nodes ++ (new_node (length s.nodes) ∷ []) })
        ≡ ok (
          length s.nodes,
          record s { nodes = s.nodes ++ (first_node (length s.nodes) key r ∷ []) },
        )
  unfolding first_leaf_at put_node
  first_leaf_at_lem s key r =
      let a = length s.nodes in
      let s' : Heap = record s { nodes = s.nodes ++ (new_node a ∷ []) } in
      get_node-ok s' a _ (at_end s.nodes (new_node a))
      ∙ lift-ok _ s' (first_entry_lem a key r)
      ∙ ap (λ l. ok (a, record s { nodes = l })) (set_end s.nodes (new_node a) (first_node a key r))

  start_new_tree_lem :
      (s : Heap) (key : ℤ) (r : ℕ)
      → start_new_tree mem key r s
        ≡ ok (
          length s.nodes,
          record s { nodes = s.nodes ++ (first_node (length s.nodes) key r ∷ []) },
        )
  unfolding start_new_tree
  start_new_tree_lem s key r =
      bind-ok (make_leaf mem) (first_leaf_at mem key r) {s = s} (make_leaf_lem s)
      ∙ first_leaf_at_lem s key r

  -- The memory after the first insertion.
  abbrev pub started : Heap → ℤ → ℤ → Heap
  started s key value = record s {
    nodes = s.nodes ++ (first_node (length s.nodes) key (length s.records) ∷ []);
    global_lock = open_mutex;
    records = s.records ++ (some (record { value = value; simdata = s.example }) ∷ []);
  }

  lock_global-ok :
      (s : Heap)
      → s.global_lock ≡ open_mutex
      → lock_global s ≡ ok (tt, record s { global_lock = held })
  unfolding lock_global lock_mutex
  lock_global-ok s e = lift-ok _ s (ap lock_mutex e)

  unlock_global-ok :
      (s : Heap)
      → s.global_lock ≡ held
      → unlock_global s ≡ ok (tt, record s { global_lock = open_mutex })
  unfolding unlock_global unlock_mutex
  unlock_global-ok s e = lift-ok _ s (ap unlock_mutex e)

  insert-none :
      (fuel : ℕ) (s : Heap) (key value : ℤ)
      → s.global_lock ≡ open_mutex
      → insert mem fuel none key value s ≡ ok (some (length s.nodes), started s key value)
  unfolding insert make_record
  insert-none fuel s key value o =
      let s1 : Heap = record s { records = (started s key value).records } in
      let s2 : Heap = record s1 { global_lock = held } in
      bind-ok lock_global _ {s = s1} {s' = s2} (lock_global-ok s1 o)
      ∙ bind-ok (start_new_tree mem key (length s.records)) _ {s = s2}
          (start_new_tree_lem s2 key (length s.records))

  started-LeafAt :
      (s : Heap) (key value : ℤ)
      → LeafAt order (started s key value) (length s.nodes) ((key, length s.records) ∷ []) none
  started-LeafAt s key value =
      let a = length s.nodes in
      let r = length s.records in
      let least = laws.order_least in
      let keys : 0 < length (mem.fresh_keys a) = omega (arith, laws.keys_length a, least) in
      let pointers : 0 < length (mem.fresh_pointers a) =
        omega (arith, laws.pointers_length a, least) in
      let first = set (mem.fresh_pointers a) 0 (to_record r) in
      let pointers' : order - 1 < length first =
        omega (
          arith,
          length-set (mem.fresh_pointers a) 0 (to_record r),
          laws.pointers_length a,
          least,
        ) in
      let apart : order - 1 ≢ 0 = omega (arith, least) in
      let there =
        get_elem?-set_ne first (order - 1) 0 null apart
        ∙ get_elem?-set_self (mem.fresh_pointers a) 0 (to_record r) pointers in
      let new : Record = record { value = value; simdata = s.example } in
      record {
        node = first_node a key r;
        at = at_end s.nodes (first_node a key r);
        is_leaf = refl;
        count = omega arith;
        some_key = omega arith;
        keys = λ j k q e.
            at_one (λ x. x.0) (key, r) (set (mem.fresh_keys a) 0 key)
              (get_elem?-set_self (mem.fresh_keys a) 0 key keys) j (k, q) e;
        pointers = λ j k q e.
            at_one (λ x. to_record x.1) (key, r) (set first (order - 1) null) there j (k, q) e;
        records = λ j k q e. (new, entry_record s.records (some new) key j k q e);
        next_at = get_elem?-set_self first (order - 1) null pointers';
      }

  -- The first insertion makes a tree with one entry, its record the value: it is what `find` then
  -- returns for the key, and for any other key `find` returns NULL. The global lock is free before.
  pub find-insert-none :
      (fuel : ℕ) (s : Heap) (key value other : ℤ)
      → s.global_lock ≡ open_mutex
      → 0 < fuel
      → (root : ℕ) × (s' : Heap) × (r : ℕ) × (insert mem fuel none key value s ≡ ok (some root, s'))
        × (get_elem? s'.records r ≡ some (some (record { value = value; simdata = s.example })))
        × (find mem fuel (some root) other s'
            ≡ (if int_eq key other then ok (some r, s') else ok (none, s')))
  unfolding Holds IsDivided entries leaves levels
  find-insert-none fuel s key value other o n =
      let a = length s.nodes in
      let r = length s.records in
      let s' = started s key value in
      let t = leaf a ((key, r) ∷ []) in
      let there = at_end s.records (some (record { value = value; simdata = s.example })) in
      let same =
        find_lem mem s' other fuel t (omega (arith, n)) (omega (arith, n))
          (started-LeafAt s key value) ((tt, tt), tt) in
      (
        a,
        s',
        r,
        insert-none fuel s key value o,
        there,
        same ∙ elim (Bool-cases (int_eq key other)) [
          | inl e ↦ rw (e, copied, there) refl
          | inr e ↦ rw e refl
        ],
      )
