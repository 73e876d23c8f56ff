-- ===== src/Bpt/Arrays.antt =====
-- Reads and writes of arrays, and the loop that moves entries up.
use green_hash_tree.Prelude.{
  ℕ, zero, suc, eq_of_==, ◌+◌, ◌-◌, ◌<◌, ◌≡◌, ◌≢◌, refl, ap, sym, ◌∙◌, inl, inr, Bool-cases, true,
  false, Option, some, List, arith, if◌then◌else◌, ltb, leb, ◌&&◌, get_elem?, set, length, ◌==◌,
  length-set, get_elem?-set_self, get_elem?-set_ne, get_elem?_of_lt,
}
use green_hash_tree.Prelude.Run.{ok}
use green_hash_tree.Bpt.{load, store, shift_up}

module _ {ℓ} {A : Type ℓ} where
  pub load-ok : (xs : List A) (i : ℕ) {x : A} → get_elem? xs i ≡ some x → load xs i ≡ ok x
  load-ok xs i at = rw (at, load) refl

  pub store-ok : (xs : List A) (i : ℕ) (x : A) → i < length xs → store xs i x ≡ ok (set xs i x)
  store-ok xs i x h = let e : ltb i (length xs) ≡ true = ground (arith, h) in rw e refl

  -- What `xs` holds at `j` after the entries at `point` to `point + left - 1` have moved up by one.
  abbrev pub moved : List A → (point left j : ℕ) → Option A
  moved xs point left j =
      if ltb point j && leb j (point + left) then get_elem? xs (j - 1) else get_elem? xs j

  not_moved : (xs : List A) (point j : ℕ) → get_elem? xs j ≡ moved xs point 0 j
  not_moved xs point j =
      let e : (ltb point j && leb j (point + 0)) ≡ false = ground arith in rw e refl

  -- One more entry moved, the first.
  moved-set :
      (xs : List A) (point left j : ℕ) (x : A)
      → get_elem? xs (point + left) ≡ some x
      → point + suc left < length xs
      → moved (set xs (point + suc left) x) point left j ≡ moved xs point (suc left) j
  moved-set xs point left j x at h = elim (Bool-cases ((point + suc left) == j)) [
    | inl e ↦
        let same : point + suc left ≡ j = eq_of_== _ _ e in
        let f : (ltb point j && leb j (point + left)) ≡ false = ground (arith, same) in
        let g : (ltb point j && leb j (point + suc left)) ≡ true = ground (arith, same) in
        rw (f, g)
          (ap (get_elem? (set xs (point + suc left) x)) (sym same)
            ∙ get_elem?-set_self xs _ x h
            ∙ sym at
            ∙ ap (get_elem? xs) (omega (arith, same)))
    | inr e ↦
        let apart : point + suc left ≢ j = ground (arith, e) in
        elim (Bool-cases (ltb point j && leb j (point + left))) [
          | inl f ↦
              let g : (ltb point j && leb j (point + suc left)) ≡ true = ground (arith, f) in
              rw (f, g) (get_elem?-set_ne xs (point + suc left) (j - 1) x (ground (arith, f)))
          | inr f ↦
              let g : (ltb point j && leb j (point + suc left)) ≡ false =
                ground (arith, f, apart) in
              rw (f, g) (get_elem?-set_ne xs (point + suc left) j x apart)
        ]
  ]

  pub shift_up_lem :
      (xs : List A) (point left : ℕ)
      → point + left < length xs
      → (ys : List A) × (shift_up xs point left ≡ ok ys)
        × (length ys ≡ length xs)
        × ((j : ℕ) → get_elem? ys j ≡ moved xs point left j)
  unfolding shift_up
  shift_up_lem xs point zero h = (xs, refl, refl, λ j. not_moved xs point j)
  shift_up_lem xs point (suc left) h =
      let (x, at) = get_elem?_of_lt xs (point + left) (omega (arith, h)) in
      let xs' = set xs (point + suc left) x in
      let (ys, done, len, got) =
        shift_up_lem xs' point left (omega (arith, h, length-set xs (point + suc left) x)) in
      (
        ys,
        simp (load-ok xs (point + left) at, store-ok xs (point + suc left) x h) done,
        len ∙ length-set xs _ _,
        λ j. got j ∙ moved-set xs point left j x at h,
      )
