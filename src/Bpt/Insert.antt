-- ===== src/Bpt/Insert.antt =====
-- The leaf that `insert_into_leaf` leaves, and when it refuses a key.
use green_hash_tree.Prelude.{
  ℕ, suc, eq_of_==, ◌+◌, ◌-◌, ◌≤◌, ◌<◌, ◌≡◌, refl, ap, sym, ◌∙◌, ◌⊎◌, inl, inr, Bool-cases, true,
  false, none, some, List, arith, if◌then◌else◌, ltb, leb, ◌&&◌, get_elem?, set, length, ◌==◌,
  length-set, get_elem?-set_self, get_elem?-set_ne, get_elem?_of_lt,
}
use native.Mathlib.Decide.{dec_lt}
use mathlib.Core.Path.{subst}
use green_hash_tree.Prelude.Int.{ℤ, int_lt, int_eq, int_eq→≡, int_eq_refl}
use green_hash_tree.Prelude.Run.{ok}
use green_hash_tree.Bpt.{Leaf, store, shift_up, insert_into_leaf}
use green_hash_tree.Bpt.Arrays.{load-ok, store-ok, moved, shift_up_lem}
use green_hash_tree.Bpt.Scan.{Ascending, Stop, same_entry, scan_keys_lem}

-- A leaf whose arrays have their lengths, with room for one more key, and whose keys go up.
pub record HasRoom {P : Type 0} (leaf : Leaf P) : Type 0 where
  pub same_length : length leaf.pointers ≡ length leaf.keys + 1
  pub room : leaf.num_keys < length leaf.keys
  pub ascending : Ascending leaf.keys leaf.num_keys

-- `ys` is `xs` with `x` at `point`, and the entries from there to `n` moved up.
abbrev pub PutAt : {A : Type 0} → List A → ℕ → ℕ → A → List A → Type 0
PutAt xs point n x ys =
    (length ys ≡ length xs)
    × ((j : ℕ) → get_elem? ys j ≡ (if point == j then some x else moved xs point (n - point) j))

put_at :
    {A : Type 0} (xs : List A) (point n : ℕ) (x : A)
    → point ≤ n
    → n < length xs
    → (ys zs : List A) × (shift_up xs point (n - point) ≡ ok ys)
      × (store ys point x ≡ ok zs)
      × PutAt xs point n x zs
put_at xs point n x h room =
    let (ys, done, len, got) = shift_up_lem xs point (n - point) (omega (arith, h, room)) in
    let inside : point < length ys = omega (arith, h, room, len) in
    (
      ys,
      set ys point x,
      done,
      store-ok ys point x inside,
      (
        length-set ys point x ∙ len,
        λ j. elim (Bool-cases (point == j)) [
          | inl e ↦ rw (e, ← eq_of_== point j e) (get_elem?-set_self ys point x inside)
          | inr e ↦ rw e (get_elem?-set_ne ys point j x (ground (arith, e)) ∙ got j)
        ],
      ),
    )

-- The leaf after an insertion at `point`.
pub record Inserted {P : Type 0} (leaf : Leaf P) (key : ℤ) (pointer : P) (point : ℕ)
    (leaf' : Leaf P) : Type 0 where
  pub keys_put : PutAt leaf.keys point leaf.num_keys key leaf'.keys
  pub pointers_put : PutAt leaf.pointers point leaf.num_keys pointer leaf'.pointers
  pub one_more : leaf'.num_keys ≡ leaf.num_keys + 1
  pub ascending : Ascending leaf'.keys leaf'.num_keys

module _ (keys keys' : List ℤ) (key : ℤ) (point n : ℕ) (stop : Stop keys key 0 n point)
    (new : (a : ℤ) → get_elem? keys point ≡ some a → int_eq a key ≡ false)
    (put : PutAt keys point n key keys') (asc : Ascending keys n) where
  put_here : get_elem? keys' point ≡ some key
  put_here = put.1 point ∙ (let e : (point == point) ≡ true = ground arith in rw e refl)

  put_low : (j : ℕ) → j < point → get_elem? keys' j ≡ get_elem? keys j
  put_low j h =
      let e : (point == j) ≡ false = ground (arith, h) in
      let f : (ltb point j && leb j (point + (n - point))) ≡ false = ground (arith, h) in
      put.1 j ∙ rw (e, f) refl

  put_high : (j : ℕ) → point ≤ j → j < n → get_elem? keys' (suc j) ≡ get_elem? keys j
  put_high j h u =
      let e : (point == suc j) ≡ false = ground (arith, h) in
      let f : (ltb point (suc j) && leb (suc j) (point + (n - point))) ≡ true =
        ground (arith, h, u) in
      put.1 (suc j) ∙ rw (e, f) (ap (get_elem? keys) (omega arith))

  above_key : (b : ℤ) → point < n → get_elem? keys point ≡ some b → int_lt key b ≡ true
  above_key b h at = ground (arith, stop.above b (omega (arith, h)) at, new b at)

  PutAt-Ascending : Ascending keys' (n + 1)
  PutAt-Ascending j a b h at at' = elim (Bool-cases (ltb (suc j) point)) [
    | inl e ↦
        asc j a b (ground (arith, e, stop.upto)) (sym (put_low j (ground (arith, e))) ∙ at)
          (sym (put_low (suc j) (ground (arith, e))) ∙ at')
    | inr e ↦ elim (Bool-cases (suc j == point)) [
      | inl f ↦
          let here : suc j ≡ point = eq_of_== _ _ f in
          let b_key : key ≡ b = same_entry put_here (ap (get_elem? keys') (sym here) ∙ at') in
          subst (λ x. int_lt a x ≡ true) b_key
            (stop.below j a (omega arith) (omega (arith, here))
              (sym (put_low j (omega (arith, here))) ∙ at))
      | inr f ↦ elim (Bool-cases (point == j)) [
        | inl g ↦
            let here : point ≡ j = eq_of_== _ _ g in
            let a_key : key ≡ a = same_entry put_here (ap (get_elem? keys') here ∙ at) in
            subst (λ x. int_lt x b ≡ true) a_key
              (above_key b (omega (arith, here, h)) (
                ap (get_elem? keys) here
                ∙ sym (put_high j (omega (arith, here)) (omega (arith, h)))
                ∙ at'))
        | inr g ↦
            let over : point < j = ground (arith, e, f, g) in
            let back : suc (j - 1) ≡ j = omega (arith, over) in
            asc (j - 1) a b (omega (arith, over, h))
              (sym (put_high (j - 1) (omega (arith, over)) (omega (arith, over, h)))
                ∙ ap (get_elem? keys') back
                ∙ at)
              (ap (get_elem? keys) back
                ∙ sym (put_high j (omega (arith, over)) (omega (arith, h)))
                ∙ at')
      ]
    ]
  ]

-- On a leaf with room, `insert_into_leaf` finds the first of its keys that is not below the new one,
-- or the index `num_keys`. If the array holds the new key there, it returns NULL. Otherwise the key
-- and the pointer stand there, all entries behind have moved up by one, and the keys go up as before.
pub insert_into_leaf_lem :
    {P : Type 0} (leaf : Leaf P) (key : ℤ) (pointer : P)
    → HasRoom leaf
    → (point : ℕ) × Stop leaf.keys key 0 leaf.num_keys point
      × (((get_elem? leaf.keys point ≡ some key) × (insert_into_leaf leaf key pointer ≡ ok none))
          ⊎ ((leaf' : Leaf P) × (insert_into_leaf leaf key pointer ≡ ok (some leaf'))
              × Inserted leaf key pointer point leaf'))
unfolding insert_into_leaf
insert_into_leaf_lem leaf key pointer h =
    let (point, found, s) = scan_keys_lem leaf.keys key 0 leaf.num_keys (omega (arith, h.room)) in
    let (k, at) = get_elem?_of_lt leaf.keys point (omega (arith, h.room, s.upto)) in
    let got = load-ok leaf.keys point at in
    (
      point,
      s,
      elim (Bool-cases (int_eq k key)) [
        | inl e ↦ inl (at ∙ ap some (int_eq→≡ k key e), simp (found, got, e) refl)
        | inr e ↦
            let (ks, ks', moved_keys, stored_keys, put) =
              put_at leaf.keys point leaf.num_keys key (omega (arith, s.upto)) h.room in
            let (ps, ps', moved_ptrs, stored_ptrs, put_ptrs) =
              put_at leaf.pointers point leaf.num_keys pointer (omega (arith, s.upto))
                (omega (arith, h.room, h.same_length)) in
            inr (
              record { keys = ks'; pointers = ps'; num_keys = leaf.num_keys + 1 },
              simp (found, got, e, moved_keys, moved_ptrs, stored_keys, stored_ptrs) refl,
              record {
                keys_put = put;
                pointers_put = put_ptrs;
                one_more = refl;
                ascending =
                    PutAt-Ascending leaf.keys ks' key point leaf.num_keys s
                      (λ a at'. sym (ap (λ x. int_eq x key) (same_entry at at')) ∙ e) put
                      h.ascending;
              },
            )
      ],
    )

-- When all keys of a leaf with room are below the new key, and the slot behind them still holds that
-- key from an earlier operation, `insert_into_leaf` returns NULL and does not insert it.
pub insert_into_leaf_stale :
    {P : Type 0} (leaf : Leaf P) (key : ℤ) (pointer : P)
    → HasRoom leaf
    → ((j : ℕ) (a : ℤ) → j < leaf.num_keys → get_elem? leaf.keys j ≡ some a → int_lt a key ≡ true)
    → get_elem? leaf.keys leaf.num_keys ≡ some key
    → insert_into_leaf leaf key pointer ≡ ok none
unfolding insert_into_leaf
insert_into_leaf_stale leaf key pointer h below stale =
    let (point, found, s) = scan_keys_lem leaf.keys key 0 leaf.num_keys (omega (arith, h.room)) in
    let (k, at) = get_elem?_of_lt leaf.keys point (omega (arith, h.room, s.upto)) in
    let last : point ≡ leaf.num_keys = elim (dec_lt point leaf.num_keys) [
      | no q ↦ omega (arith, q, s.upto)
      | yes q ↦ absurd (ground (arith, below point k q at, s.above k (omega (arith, q)) at))
    ] in
    let k_key : k ≡ key = same_entry at (ap (get_elem? leaf.keys) last ∙ stale) in
    let same : int_eq k key ≡ true = ap (λ x. int_eq x key) k_key ∙ int_eq_refl key in
    simp (found, load-ok leaf.keys point at, same) refl
