-- ===== src/Bpt/Half.antt =====
-- One half of a leaf that is split.
use green_hash_tree.Prelude.{
  ℕ, ◌+◌, ◌-◌, ◌%◌, ◌≤◌, ◌<◌, ◌≡◌, refl, ap, ◌∙◌, inl, inr, Bool-cases, some, List, arith,
  get_elem?, set, length, ◌==◌, length-set, get_elem?-set_self, get_elem?-set_ne,
}
use green_hash_tree.Prelude.Int.{ℤ}
use green_hash_tree.Prelude.Run.{ok}
use green_hash_tree.Bpt.{Leaf, store}
use green_hash_tree.Bpt.Arrays.{store-ok}
use green_hash_tree.Bpt.Heap.{Ptr, null, Memory, MemoryLaws}
use green_hash_tree.Bpt.Loops.{cut, copy, fill}
use green_hash_tree.Bpt.Copies.{copy_lem, fill_lem}
use green_hash_tree.Bpt.Split.{left_leaf, right_leaf}

pub cut-lt : (n : ℕ) → 1 < n → cut n < n
unfolding cut
cut-lt n h = elim (Bool-cases (n % 2 == 0)) [
  | inl e ↦ rw e (omega (arith, h))
  | inr e ↦ rw e (ground (arith, h, e))
]

pub cut-pos : (n : ℕ) → 1 < n → 0 < cut n
unfolding cut
cut-pos n h = elim (Bool-cases (n % 2 == 0)) [
  | inl e ↦ rw e (omega (arith, h))
  | inr e ↦ rw e (ground (arith, h, e))
]

-- The pointers of one half: `count` of the temporary ones from `i` on, NULL behind them, and the next
-- leaf in the last slot, `n`.
half_pointers :
    (to temp : List Ptr) (i count n : ℕ) (next : Ptr)
    → length to ≡ n + 1
    → count ≤ n
    → i + count ≤ length temp
    → (a b c : List Ptr) × (copy to temp i 0 count ≡ ok a)
      × (store a n next ≡ ok b)
      × (fill b null count (n - count) ≡ ok c)
      × ((m : ℕ) → m < count → get_elem? c m ≡ get_elem? temp (i + m))
      × (get_elem? c n ≡ some next)
half_pointers to temp i count n next len h g =
    let (a, copied, c) = copy_lem to temp i 0 count g (omega (arith, len, h)) in
    let inner : n < length a = omega (arith, c.len, len) in
    let b = set a n next in
    let whole = length-set a n next in
    let (d, filled, len', below, inside, above) =
      fill_lem b null count (n - count) (omega (arith, whole, c.len, len, h)) in
    (
      a,
      b,
      d,
      copied,
      store-ok a n next inner,
      filled,
      λ m p.
          let start : m ≡ 0 + m = omega arith in
          below m p
          ∙ get_elem?-set_ne a n m next (ground (arith, p, h))
          ∙ ap (get_elem? a) start
          ∙ c.inside m p,
      above n (omega (arith, h)) ∙ get_elem?-set_self a n next inner,
    )

-- One half: `count` entries of the temporary arrays from `start` on, and the next leaf.
pub record Half (order : ℕ) (temp_keys : List ℤ) (temp_pointers : List Ptr) (start count : ℕ)
    (next : Ptr) (h : Leaf Ptr) : Type 0 where
  pub num_keys : h.num_keys ≡ count
  pub keys : (m : ℕ) → m < count → get_elem? h.keys m ≡ get_elem? temp_keys (start + m)
  pub pointers : (m : ℕ) → m < count → get_elem? h.pointers m ≡ get_elem? temp_pointers (start + m)
  pub next_at : get_elem? h.pointers (order - 1) ≡ some next

-- The arrays of a node, as `make_node` gives them.
pub record Sized (order : ℕ) (l : Leaf Ptr) : Type 0 where
  pub keys_length : length l.keys + 1 ≡ order
  pub pointers_length : length l.pointers ≡ order

module _ (mem : Memory) (laws : MemoryLaws mem) where
  abbrev order : ℕ
  order = mem.order

  pub split_bounds : (0 < cut (order - 1)) × (cut (order - 1) < order - 1)
  split_bounds = (
    cut-pos (order - 1) (omega (arith, laws.order_least)),
    cut-lt (order - 1) (omega (arith, laws.order_least)),
  )

  pub left_leaf_lem :
      (leaf : Leaf Ptr) (temp_keys : List ℤ) (temp_pointers : List Ptr) (new : Ptr)
      → Sized order leaf
      → length temp_keys ≡ order
      → length temp_pointers ≡ order + 1
      → (h : Leaf Ptr) × (left_leaf mem leaf temp_keys temp_pointers new ≡ ok h)
        × Half order temp_keys temp_pointers 0 (cut (order - 1)) new h
  unfolding left_leaf
  left_leaf_lem leaf temp_keys temp_pointers new z k p =
      let (pos, lt) = split_bounds in
      let least = laws.order_least in
      let n : length leaf.pointers ≡ order - 1 + 1 = omega (arith, z.pointers_length, least) in
      let (a, b, c, copied, stored, filled, at, next_at) =
        half_pointers leaf.pointers temp_pointers 0 (cut (order - 1)) (order - 1) new n
          (omega (arith, lt)) (omega (arith, lt, p, least)) in
      let (keys, copied', ck) =
        copy_lem leaf.keys temp_keys 0 0 (cut (order - 1)) (omega (arith, k, lt, least))
          (omega (arith, z.keys_length, lt, least)) in
      (
        record { keys = keys; pointers = c; num_keys = cut (order - 1) },
        simp (copied, copied', stored, filled) refl,
        record {
          num_keys = refl;
          keys = λ m q.
              let start : m ≡ 0 + m = omega arith in ap (get_elem? keys) start ∙ ck.inside m q;
          pointers = at;
          next_at = next_at;
        },
      )

  pub right_leaf_lem :
      (fresh : Leaf Ptr) (temp_keys : List ℤ) (temp_pointers : List Ptr) (next : Ptr)
      → Sized order fresh
      → fresh.num_keys ≡ 0
      → length temp_keys ≡ order
      → length temp_pointers ≡ order + 1
      → (h : Leaf Ptr) × (right_leaf mem fresh temp_keys temp_pointers next ≡ ok h)
        × Half order temp_keys temp_pointers (cut (order - 1)) (order - cut (order - 1)) next h
  unfolding right_leaf
  right_leaf_lem fresh temp_keys temp_pointers next z none k p =
      let (pos, lt) = split_bounds in
      let least = laws.order_least in
      let count = order - cut (order - 1) in
      let zero_more : fresh.num_keys + count ≡ count = omega (arith, none) in
      let n : length fresh.pointers ≡ order - 1 + 1 = omega (arith, z.pointers_length, least) in
      let (a, b, c, copied, stored, filled, at, next_at) =
        half_pointers fresh.pointers temp_pointers (cut (order - 1)) count (order - 1) next n
          (omega (arith, pos, least)) (omega (arith, lt, p, least)) in
      let (keys, copied', ck) =
        copy_lem fresh.keys temp_keys (cut (order - 1)) 0 count (omega (arith, k, lt, least))
          (omega (arith, z.keys_length, pos, least)) in
      (
        record { keys = keys; pointers = c; num_keys = fresh.num_keys + count },
        simp (copied, copied', stored, ap (λ m. fill b null m (order - 1 - m)) zero_more ∙ filled)
            refl,
        record {
          num_keys = zero_more;
          keys = λ m q.
              let start : m ≡ 0 + m = omega arith in ap (get_elem? keys) start ∙ ck.inside m q;
          pointers = at;
          next_at = next_at;
        },
      )
