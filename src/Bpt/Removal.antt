-- ===== src/Bpt/Removal.antt =====
-- What `remove_entry_from_node` does with the arrays of a leaf.
use green_hash_tree.Prelude.{
  ℕ, zero, suc, ◌+◌, ◌-◌, ◌≤◌, ◌<◌, ◌≡◌, refl, ap, sym, ◌∙◌, Bool, true, false, Bool-cases, inl,
  inr, some, List, [], ◌∷◌, get_elem?, set, length, length-set, get_elem?-set_self,
  get_elem?-set_ne, get_elem?_of_lt, if◌then◌else◌, arith, ◌==◌, eq_of_==,
}
use green_hash_tree.Prelude.Int.{ℤ, int_eq, int_eq_refl}
use green_hash_tree.Prelude.Run.{ok}
use green_hash_tree.Bpt.{Leaf}
use green_hash_tree.Bpt.Arrays.{load-ok, store-ok}
use green_hash_tree.Bpt.Heap.{Ptr, null, ptr_eq, Node, Heap, put_node, get_node-ok, lift-ok}
use green_hash_tree.Bpt.Loops.{seek, shift_down, fill}
use green_hash_tree.Bpt.Copies.{fill_lem}
use green_hash_tree.Bpt.Deletion.{remove_entry_from_node}

module _ {ℓ} {A : Type ℓ} where
  -- The first index with a property.
  seek_lem :
      (test : A → Bool) (xs : List A) (start i : ℕ) (x : A)
      → get_elem? xs i ≡ some x
      → test x ≡ true
      → ((j : ℕ) (y : A) → j < i → get_elem? xs j ≡ some y → test y ≡ false)
      → seek test start xs ≡ ok (start + i)
  unfolding seek
  seek_lem test [] start i x at h before = ground (arith, at)
  seek_lem test (y ∷ xs) start zero x at h before =
      let same : y ≡ x = cc at in
      let here : test y ≡ true = ap test same ∙ h in rw here (ap ok (omega arith))
  seek_lem test (y ∷ xs) start (suc i) x at h before =
      let here : test y ≡ false = before 0 y (omega arith) refl in
      let rest =
        seek_lem test xs (start + 1) i x at h (λ j z p e. before (suc j) z (omega (arith, p)) e) in
      rw here (rest ∙ ap ok (omega arith))

  -- The elements behind `i` have moved down by one; the last of them stays in its place too.
  pub record Dropped (xs ys : List A) (i left : ℕ) : Type ℓ where
    pub len : length ys ≡ length xs
    pub below : (j : ℕ) → j < i → get_elem? ys j ≡ get_elem? xs j
    pub inside : (j : ℕ) → i ≤ j → j < i + left → get_elem? ys j ≡ get_elem? xs (j + 1)
    pub above : (j : ℕ) → i + left ≤ j → get_elem? ys j ≡ get_elem? xs j

  shift_down_lem :
      (xs : List A) (i left : ℕ)
      → i + left < length xs
      → (ys : List A) × (shift_down xs i left ≡ ok ys) × Dropped xs ys i left
  unfolding shift_down
  shift_down_lem xs i zero h = (
    xs,
    refl,
    record {
      len = refl;
      below = λ j p. refl;
      inside = λ j p q. absurd (omega (arith, p, q));
      above = λ j p. refl;
    },
  )
  shift_down_lem xs i (suc left) h =
      let (x, at) = get_elem?_of_lt xs (i + 1) (omega (arith, h)) in
      let inner : i < length xs = omega (arith, h) in
      let (ys, done, d) =
        shift_down_lem (set xs i x) (i + 1) left (omega (arith, h, length-set xs i x)) in
      (
        ys,
        simp (load-ok xs (i + 1) at, store-ok xs i x inner) done,
        record {
          len = d.len ∙ length-set xs i x;
          below =
              λ j p. d.below j (omega (arith, p)) ∙ get_elem?-set_ne xs i j x (ground (arith, p));
          inside = λ j p q. elim (Bool-cases (i == j)) [
            | inl e ↦
                let same : i ≡ j = eq_of_== i j e in
                ap (get_elem? ys) (sym same)
                ∙ d.below i (omega arith)
                ∙ get_elem?-set_self xs i x inner
                ∙ sym at
                ∙ ap (λ n. get_elem? xs (n + 1)) same
            | inr e ↦
                d.inside j (ground (arith, e, p)) (omega (arith, q))
                ∙ get_elem?-set_ne xs i (j + 1) x (ground (arith, p))
          ];
          above =
              λ j p. d.above j (omega (arith, p)) ∙ get_elem?-set_ne xs i j x (ground (arith, p));
        },
      )

-- The arrays of a leaf without its entry at `i`: the entries behind it are one index lower, the slot
-- of the last key keeps that key, and the leaf is linked as before.
pub record Removed (order : ℕ) (leaf : Leaf Ptr) (i : ℕ) (leaf' : Leaf Ptr) : Type 0 where
  pub one_less : leaf'.num_keys + 1 ≡ leaf.num_keys
  pub keys_below : (j : ℕ) → j < i → get_elem? leaf'.keys j ≡ get_elem? leaf.keys j
  pub keys_behind :
      (j : ℕ) → i ≤ j → j < leaf'.num_keys → get_elem? leaf'.keys j ≡ get_elem? leaf.keys (j + 1)
  pub stale : get_elem? leaf'.keys leaf'.num_keys ≡ get_elem? leaf.keys leaf'.num_keys
  pub pointers_below : (j : ℕ) → j < i → get_elem? leaf'.pointers j ≡ get_elem? leaf.pointers j
  pub pointers_behind :
      (j : ℕ)
      → i ≤ j
      → j < leaf'.num_keys
      → get_elem? leaf'.pointers j ≡ get_elem? leaf.pointers (j + 1)
  pub next_at : get_elem? leaf'.pointers (order - 1) ≡ get_elem? leaf.pointers (order - 1)

-- The entry that is looked for is at `i`, and neither its key nor its pointer is anywhere before.
pub record EntryAt (order : ℕ) (leaf : Leaf Ptr) (key : ℤ) (pointer : Ptr) (i : ℕ) : Type 0 where
  pub keys_length : length leaf.keys + 1 ≡ order
  pub pointers_length : length leaf.pointers ≡ order
  pub count : leaf.num_keys < order
  pub inside : i < leaf.num_keys
  pub key_at : get_elem? leaf.keys i ≡ some key
  pub key_first : (j : ℕ) (k : ℤ) → j < i → get_elem? leaf.keys j ≡ some k → int_eq k key ≡ false
  pub pointer_at : get_elem? leaf.pointers i ≡ some pointer
  pub pointer_same : ptr_eq pointer pointer ≡ true
  pub pointer_first :
      (j : ℕ) (p : Ptr) → j < i → get_elem? leaf.pointers j ≡ some p → ptr_eq p pointer ≡ false

-- The removal of an entry of a leaf ends, takes that entry out of the arrays and no other, and leaves
-- the key of the last entry in its slot, behind the entries.
pub remove_entry_from_node_lem :
    (order : ℕ) (s : Heap) (a i : ℕ) (n : Node) (key : ℤ) (pointer : Ptr)
    → get_elem? s.nodes a ≡ some n
    → n.is_leaf ≡ true
    → EntryAt order n.entries key pointer i
    → (e : Leaf Ptr) × (remove_entry_from_node order a key pointer s
        ≡ ok (tt, record s { nodes = set s.nodes a (record n { entries = e }) }))
      × Removed order n.entries i e
unfolding remove_entry_from_node put_node
remove_entry_from_node_lem order s a i n key pointer at is_leaf h =
    let e = n.entries in
    let left = e.num_keys - (i + 1) in
    let zero_more : 0 + i ≡ i = omega arith in
    let (keys, done_k, k) =
      shift_down_lem e.keys i left (omega (arith, h.keys_length, h.count, h.inside)) in
    let (ps, done_p, p) =
      shift_down_lem e.pointers i left (omega (arith, h.pointers_length, h.count, h.inside)) in
    let count = e.num_keys - 1 in
    let (qs, done_q, len, below, within, above) =
      fill_lem ps null count (order - 1 - count)
        (omega (arith, p.len, h.pointers_length, h.count, h.inside)) in
    let seek_k : seek (λ k. int_eq k key) 0 e.keys ≡ ok i =
      seek_lem (λ k. int_eq k key) e.keys 0 i key h.key_at (int_eq_refl key)
        (λ j x q. h.key_first j x q)
      ∙ ap ok zero_more in
    let seek_p : seek (λ p. ptr_eq p pointer) 0 e.pointers ≡ ok i =
      seek_lem (λ p. ptr_eq p pointer) e.pointers 0 i pointer h.pointer_at h.pointer_same
        (λ j x q. h.pointer_first j x q)
      ∙ ap ok zero_more in
    let shift_p : shift_down e.pointers i
          ((if n.is_leaf then e.num_keys else e.num_keys + 1) - (i + 1))
        ≡ ok ps =
      ap (λ b. shift_down e.pointers i ((if b then e.num_keys else e.num_keys + 1) - (i + 1)))
        is_leaf
      ∙ done_p in
    let fill_p : (if n.is_leaf
          then fill ps null count (order - 1 - count)
          else fill ps null (count + 1) (order - (count + 1)))
        ≡ ok qs =
      ap
        (λ b.
          if b
          then fill ps null count (order - 1 - count)
          else fill ps null (count + 1) (order - (count + 1)))
        is_leaf
      ∙ done_q in
    (
      record { keys = keys; pointers = qs; num_keys = count },
      get_node-ok s a _ at
          ∙ lift-ok _ s seek_k
          ∙ lift-ok _ s done_k
          ∙ lift-ok _ s seek_p
          ∙ lift-ok _ s shift_p
          ∙ lift-ok _ s fill_p,
      record {
        one_less = omega (arith, h.inside);
        keys_below = k.below;
        keys_behind = λ j u v. k.inside j u (omega (arith, v, h.inside));
        stale = k.above count (omega (arith, h.inside));
        pointers_below = λ j u. below j (omega (arith, u, h.inside)) ∙ p.below j u;
        pointers_behind = λ j u v. below j v ∙ p.inside j u (omega (arith, v, h.inside));
        next_at =
            above (order - 1) (omega (arith, h.count, h.inside))
            ∙ p.above (order - 1) (omega (arith, h.count, h.inside));
      },
    )
