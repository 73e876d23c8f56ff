-- ===== src/Bpt/Middle.antt =====
-- What the split of a full inner node does with the arrays, and which key goes up.
use green_hash_tree.Prelude.{
  ℕ, ◌+◌, ◌-◌, ◌%◌, ◌≤◌, ◌<◌, ◌≡◌, refl, ap, sym, ◌∙◌, inl, inr, Bool-cases, eq_of_==, some, List,
  arith, get_elem?, set, length, ◌==◌, length-set, get_elem?-set_self, get_elem?-set_ne,
  get_elem?_of_lt,
}
use green_hash_tree.Prelude.Int.{ℤ}
use green_hash_tree.Prelude.Run.{ok}
use green_hash_tree.Bpt.{Leaf, load, store}
use green_hash_tree.Bpt.Arrays.{load-ok, store-ok}
use green_hash_tree.Bpt.Heap.{Ptr, Memory, MemoryLaws}
use green_hash_tree.Bpt.Loops.{cut, copy}
use green_hash_tree.Bpt.Copies.{Copied, copy_lem, copy_around_lem, with_entry, gap_filled}
use green_hash_tree.Bpt.Split.{node_temps, halve_node}
use green_hash_tree.Bpt.Half.{Sized, cut-lt}

-- The arrays of a full node that takes a child `right` behind the one at `left_index`, split in two:
-- the keys of the first half, the middle key, and the keys of the second half are those of the node
-- with the new one put in, and the children of the halves are those of the node with the new one.
pub record Parted (order : ℕ) (old : Leaf Ptr) (left_index : ℕ) (key : ℤ) (right : Ptr)
    (left : Leaf Ptr) (middle : ℤ) (fresh : Leaf Ptr) : Type 0 where
  pub left_some : 0 < left.num_keys
  pub fresh_some : 0 < fresh.num_keys
  pub left_room : left.num_keys < order - 1
  pub fresh_room : fresh.num_keys < order - 1
  pub count : left.num_keys + 1 + fresh.num_keys ≡ old.num_keys + 1
  pub left_keys :
      (m : ℕ) → m < left.num_keys → get_elem? left.keys m ≡ with_entry old.keys left_index key m
  pub middle_key : with_entry old.keys left_index key left.num_keys ≡ some middle
  pub fresh_keys :
      (m : ℕ)
      → m < fresh.num_keys
      → get_elem? fresh.keys m ≡ with_entry old.keys left_index key (left.num_keys + 1 + m)
  pub left_children :
      (m : ℕ)
      → m ≤ left.num_keys
      → get_elem? left.pointers m ≡ with_entry old.pointers (left_index + 1) right m
  pub fresh_children :
      (m : ℕ)
      → m ≤ fresh.num_keys
      → get_elem? fresh.pointers m
        ≡ with_entry old.pointers (left_index + 1) right (left.num_keys + 1 + m)

-- A copied part with one element more written behind it.
Copied-more :
    (to from done : List Ptr) (i left : ℕ) (x : Ptr)
    → Copied to from done i 0 left
    → left < length to
    → get_elem? from (i + left) ≡ some x
    → (m : ℕ) → m ≤ left
    → get_elem? (set done left x) m ≡ get_elem? from (i + m)
Copied-more to from done i left x c h at m p = elim (Bool-cases (m == left)) [
  | inl e ↦
      let same : m ≡ left = eq_of_== m left e in
      ap (get_elem? (set done left x)) same
      ∙ get_elem?-set_self done left x (omega (arith, h, c.len))
      ∙ sym at
      ∙ ap (λ n. get_elem? from (i + n)) (sym same)
  | inr e ↦
      let start : m ≡ 0 + m = omega arith in
      get_elem?-set_ne done left m x (ground (arith, e))
      ∙ ap (get_elem? done) start
      ∙ c.inside m (ground (arith, e, p))
]

cut-some : (n : ℕ) → 3 ≤ n → 1 < cut n
unfolding cut
cut-some n h = elim (Bool-cases (n % 2 == 0)) [
  | inl e ↦ rw e (ground (arith, h, e))
  | inr e ↦ rw e (omega (arith, h))
]

module _ (mem : Memory) (laws : MemoryLaws mem) where
  abbrev order : ℕ
  order = mem.order

  node_temps_lem :
      (old : Leaf Ptr) (left_index : ℕ) (key : ℤ) (right : Ptr)
      → Sized order old
      → old.num_keys + 1 ≡ order
      → left_index ≤ old.num_keys
      → (temp_keys : List ℤ) × (temp_pointers : List Ptr) × (node_temps mem old left_index key right
          ≡ ok (temp_keys, temp_pointers))
        × (length temp_keys ≡ order)
        × (length temp_pointers ≡ order + 1)
        × ((m : ℕ) → m < order → get_elem? temp_keys m ≡ with_entry old.keys left_index key m)
        × ((m : ℕ)
            → m < order + 1
            → get_elem? temp_pointers m ≡ with_entry old.pointers (left_index + 1) right m)
  unfolding node_temps
  node_temps_lem old left_index key right z full h =
      let tk = laws.temp_keys_length in
      let tp = laws.temp_pointers_length in
      let (keys, done, c) =
        copy_around_lem mem.temp_keys old.keys left_index 0 old.num_keys (omega arith)
          (omega (arith, h)) (omega (arith, full, z.keys_length)) (omega (arith, tk, full)) in
      let (pointers, done', d) =
        copy_around_lem mem.temp_pointers old.pointers (left_index + 1) 0 (old.num_keys + 1)
          (omega arith) (omega (arith, h)) (omega (arith, full, z.pointers_length))
          (omega (arith, tp, full)) in
      (
        set keys left_index key,
        set pointers (left_index + 1) right,
        simp
            (
              done,
              done',
              store-ok keys left_index key (omega (arith, c.len, tk, full, h)),
              store-ok pointers (left_index + 1) right (omega (arith, d.len, tp, full, h)),
            )
            refl,
        length-set keys left_index key ∙ c.len ∙ tk,
        length-set pointers (left_index + 1) right ∙ d.len ∙ tp,
        λ m p.
            gap_filled mem.temp_keys old.keys keys left_index (0 + old.num_keys) key c
              (omega (arith, tk, full, h)) m (omega (arith, p, full)),
        λ m p.
            gap_filled mem.temp_pointers old.pointers pointers (left_index + 1)
              (0 + (old.num_keys + 1)) right d (omega (arith, tp, full, h)) m
              (omega (arith, p, full)),
      )

  split_bounds : (1 < cut order) × (cut order < order)
  split_bounds = (cut-some order laws.order_least, cut-lt order (omega (arith, laws.order_least)))

  -- The parts of the temporary arrays that stay, and those that go to the new node.
  left_part :
      (old : Leaf Ptr) (tk : List ℤ) (tp : List Ptr)
      → Sized order old
      → length tk ≡ order
      → length tp ≡ order + 1
      → (a : List Ptr) × (b : List ℤ) × (x : Ptr) × (k : ℤ) × (copy old.pointers tp 0 0
            (cut order - 1)
          ≡ ok a)
        × (copy old.keys tk 0 0 (cut order - 1) ≡ ok b)
        × (load tp (cut order - 1) ≡ ok x)
        × (store a (cut order - 1) x ≡ ok (set a (cut order - 1) x))
        × (load tk (cut order - 1) ≡ ok k)
        × (get_elem? tk (cut order - 1) ≡ some k)
        × ((m : ℕ) → m < cut order - 1 → get_elem? b m ≡ get_elem? tk m)
        × ((m : ℕ) → m ≤ cut order - 1 → get_elem? (set a (cut order - 1) x) m ≡ get_elem? tp m)
  left_part old tk tp z len_k len_p =
      let (pos, lt) = split_bounds in
      let n = cut order - 1 in
      let (a, copied_a, ca) =
        copy_lem old.pointers tp 0 0 n (omega (arith, lt, len_p))
          (omega (arith, lt, z.pointers_length)) in
      let (b, copied_b, cb) =
        copy_lem old.keys tk 0 0 n (omega (arith, lt, len_k)) (omega (arith, lt, z.keys_length)) in
      let (x, at) = get_elem?_of_lt tp n (omega (arith, lt, len_p)) in
      let (k, at') = get_elem?_of_lt tk n (omega (arith, lt, len_k)) in
      let room : n < length old.pointers = omega (arith, lt, z.pointers_length) in
      let start : (m : ℕ) → m ≡ 0 + m = λ m. omega arith in
      (
        a,
        b,
        x,
        k,
        copied_a,
        copied_b,
        load-ok tp n at,
        store-ok a n x (omega (arith, room, ca.len)),
        load-ok tk n at',
        at',
        λ m p. ap (get_elem? b) (start m) ∙ cb.inside m p ∙ ap (get_elem? tk) (sym (start m)),
        λ m p.
            Copied-more old.pointers tp a 0 n x ca room (ap (get_elem? tp) (sym (start n)) ∙ at) m p
            ∙ ap (get_elem? tp) (sym (start m)),
      )

  right_part :
      (fresh : Leaf Ptr) (tk : List ℤ) (tp : List Ptr)
      → Sized order fresh
      → length tk ≡ order
      → length tp ≡ order + 1
      → (c : List Ptr) × (d : List ℤ) × (w : Ptr) × (copy fresh.pointers tp
            (cut order)
            0
            (order - cut order)
          ≡ ok c)
        × (copy fresh.keys tk (cut order) 0 (order - cut order) ≡ ok d)
        × (load tp order ≡ ok w)
        × (store c (order - cut order) w ≡ ok (set c (order - cut order) w))
        × ((m : ℕ) → m < order - cut order → get_elem? d m ≡ get_elem? tk (cut order + m))
        × ((m : ℕ)
            → m ≤ order - cut order
            → get_elem? (set c (order - cut order) w) m ≡ get_elem? tp (cut order + m))
  right_part fresh tk tp z len_k len_p =
      let (pos, lt) = split_bounds in
      let n = order - cut order in
      let (c, copied_c, cp) =
        copy_lem fresh.pointers tp (cut order) 0 n (omega (arith, lt, len_p))
          (omega (arith, pos, z.pointers_length)) in
      let (d, copied_d, cd) =
        copy_lem fresh.keys tk (cut order) 0 n (omega (arith, lt, len_k))
          (omega (arith, pos, lt, z.keys_length)) in
      let (w, at) = get_elem?_of_lt tp order (omega (arith, len_p)) in
      let room : n < length fresh.pointers = omega (arith, pos, lt, z.pointers_length) in
      let start : (m : ℕ) → m ≡ 0 + m = λ m. omega arith in
      let end : cut order + n ≡ order = omega (arith, lt) in
      (
        c,
        d,
        w,
        copied_c,
        copied_d,
        load-ok tp order at,
        store-ok c n w (omega (arith, room, cp.len)),
        λ m p. ap (get_elem? d) (start m) ∙ cd.inside m p,
        λ m p.
            Copied-more fresh.pointers tp c (cut order) n w cp room (ap (get_elem? tp) end ∙ at) m
              p,
      )

  -- A full inner node that takes a child splits without a fault: both halves get keys and are left
  -- with room, the middle key goes up, and no key and no child is lost or moved out of order. The
  -- arrays have their full lengths, and the new node is empty.
  pub halve_node_lem :
      (old fresh : Leaf Ptr) (left_index : ℕ) (key : ℤ) (right : Ptr)
      → Sized order old
      → Sized order fresh
      → old.num_keys + 1 ≡ order
      → fresh.num_keys ≡ 0
      → left_index ≤ old.num_keys
      → (left : Leaf Ptr) × (middle : ℤ) × (new : Leaf Ptr) × (halve_node mem old fresh left_index
            key right
          ≡ ok (left, middle, new))
        × Parted order old left_index key right left middle new
  unfolding halve_node
  halve_node_lem old fresh left_index key right z y full none h =
      let (pos, lt) = split_bounds in
      let (tk, tp, temps, len_k, len_p, at_k, at_p) =
        node_temps_lem old left_index key right z full h in
      let (a, b, x, k, done_a, done_b, done_x, stored_a, done_k, middle, keys, children) =
        left_part old tk tp z len_k len_p in
      let (c, d, w, done_c, done_d, done_w, stored_c, keys', children') =
        right_part fresh tk tp y len_k len_p in
      let behind : (m : ℕ) → cut order + m ≡ cut order - 1 + 1 + m = λ m. omega (arith, pos) in
      (
        record { keys = b; pointers = set a (cut order - 1) x; num_keys = cut order - 1 },
        k,
        record {
          keys = d;
          pointers = set c (order - cut order) w;
          num_keys = fresh.num_keys + (order - cut order);
        },
        simp (temps, done_a, done_b, done_x, stored_a, done_k, done_c, done_d, done_w, stored_c)
            refl,
        record {
          left_some = omega (arith, pos);
          fresh_some = omega (arith, lt, none);
          left_room = omega (arith, lt, pos);
          fresh_room = omega (arith, pos, none, lt);
          count = omega (arith, pos, lt, none, full);
          left_keys = λ m p. keys m p ∙ at_k m (omega (arith, p, lt));
          middle_key = sym (at_k (cut order - 1) (omega (arith, lt))) ∙ middle;
          fresh_keys = λ m p.
              keys' m (omega (arith, p, none))
              ∙ ap (get_elem? tk) (behind m)
              ∙ at_k (cut order - 1 + 1 + m) (omega (arith, p, none, pos, lt));
          left_children = λ m p. children m p ∙ at_p m (omega (arith, p, lt));
          fresh_children = λ m p.
              children' m (omega (arith, p, none))
              ∙ ap (get_elem? tp) (behind m)
              ∙ at_p (cut order - 1 + 1 + m) (omega (arith, p, none, pos, lt));
        },
      )
