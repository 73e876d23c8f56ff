-- ===== src/Bpt/Copies.antt =====
-- What the loops that copy parts of arrays leave.
use green_hash_tree.Prelude.{
  ℕ, zero, suc, ◌+◌, ◌-◌, ◌≤◌, ◌<◌, ◌≡◌, refl, ap, sym, ◌∙◌, inl, inr, Bool-cases, false, Option,
  some, List, arith, if◌then◌else◌, ltb, get_elem?, set, length, ◌==◌, ==_refl, eq_of_==,
  length-set, get_elem?-set_self, get_elem?-set_ne, get_elem?_of_lt,
}
use mathlib.Core.Path.{subst}
use green_hash_tree.Prelude.Run.{ok}
use green_hash_tree.Bpt.Arrays.{load-ok, store-ok}
use green_hash_tree.Bpt.Loops.{copy, copy_around, fill}

module _ {ℓ} {A : Type ℓ} where
  -- `done` is `to` with `left` elements of `from` from `i` on, put from `j` on.
  pub record Copied (to from done : List A) (i j left : ℕ) : Type ℓ where
    pub len : length done ≡ length to
    pub inside : (m : ℕ) → m < left → get_elem? done (j + m) ≡ get_elem? from (i + m)
    pub below : (m : ℕ) → m < j → get_elem? done m ≡ get_elem? to m
    pub above : (m : ℕ) → j + left ≤ m → get_elem? done m ≡ get_elem? to m

  Copied-first :
      (to from done : List A) (i j left : ℕ) (x : A)
      → get_elem? from i ≡ some x
      → j < length to
      → Copied (set to j x) from done (i + 1) (j + 1) left
      → (m : ℕ) → m < suc left
      → get_elem? done (j + m) ≡ get_elem? from (i + m)
  Copied-first to from done i j left x at h c zero p =
      let here : j + 0 ≡ j = omega arith in
      let there : i ≡ i + 0 = omega arith in
      ap (get_elem? done) here
      ∙ c.below j (omega arith)
      ∙ get_elem?-set_self to j x h
      ∙ sym at
      ∙ ap (get_elem? from) there
  Copied-first to from done i j left x at h c (suc m) p =
      let here : j + suc m ≡ j + 1 + m = omega arith in
      let there : i + 1 + m ≡ i + suc m = omega arith in
      ap (get_elem? done) here ∙ c.inside m (omega (arith, p)) ∙ ap (get_elem? from) there

  pub copy_lem :
      (to from : List A) (i j left : ℕ)
      → i + left ≤ length from
      → j + left ≤ length to
      → (done : List A) × (copy to from i j left ≡ ok done) × Copied to from done i j left
  unfolding copy
  copy_lem to from i j zero h g = (
    to,
    refl,
    record {
      len = refl;
      inside = λ m p. absurd (omega (arith, p));
      below = λ m p. refl;
      above = λ m p. refl;
    },
  )
  copy_lem to from i j (suc left) h g =
      let (x, at) = get_elem?_of_lt from i (omega (arith, h)) in
      let (done, e, c) =
        copy_lem (set to j x) from (i + 1) (j + 1) left (omega (arith, h))
          (omega (arith, g, length-set to j x)) in
      let inner : j < length to = omega (arith, g) in
      (
        done,
        simp (load-ok from i at, store-ok to j x inner) e,
        record {
          len = c.len ∙ length-set to j x;
          inside = Copied-first to from done i j left x at inner c;
          below =
              λ m p. c.below m (omega (arith, p)) ∙ get_elem?-set_ne to j m x (ground (arith, p));
          above =
              λ m p. c.above m (omega (arith, p)) ∙ get_elem?-set_ne to j m x (ground (arith, p));
        },
      )

  -- Behind the index that it passes over, `copy_around` is `copy`.
  copy_around_behind :
      (to from : List A) (skip i j left : ℕ)
      → skip < j
      → i + left ≤ length from
      → j + left ≤ length to
      → copy_around to from skip i j left ≡ copy to from i j left
  unfolding copy copy_around
  copy_around_behind to from skip i j zero k h g = refl
  copy_around_behind to from skip i j (suc left) k h g =
      let e : (j == skip) ≡ false = ground (arith, k) in
      let (x, at) = get_elem?_of_lt from i (omega (arith, h)) in
      let inner : j < length to = omega (arith, g) in
      let rest =
        copy_around_behind (set to j x) from skip (i + 1) (j + 1) left (omega (arith, k))
          (omega (arith, h)) (omega (arith, g, length-set to j x)) in
      simp (e, load-ok from i at, store-ok to j x inner) rest

  -- From the index that it passes over.
  copy_around_at :
      (to from : List A) (i left : ℕ)
      → i + left ≤ length from
      → i + 1 + left ≤ length to
      → copy_around to from i i i left ≡ copy to from i (i + 1) left
  unfolding copy copy_around
  copy_around_at to from i zero h g = refl
  copy_around_at to from i (suc left) h g =
      let (x, at) = get_elem?_of_lt from i (omega (arith, h)) in
      let inner : i + 1 < length to = omega (arith, g) in
      let rest =
        copy_around_behind (set to (i + 1) x) from i (i + 1) (i + 1 + 1) left (omega arith)
          (omega (arith, h)) (omega (arith, g, length-set to (i + 1) x)) in
      simp (==_refl i, load-ok from i at, store-ok to (i + 1) x inner) rest

  -- `done` has the first `n` elements of `from`, but for a gap at `skip`.
  pub record Gapped (to from done : List A) (skip i n : ℕ) : Type ℓ where
    pub len : length done ≡ length to
    pub before : (m : ℕ) → i ≤ m → m < skip → get_elem? done m ≡ get_elem? from m
    pub after : (m : ℕ) → skip ≤ m → m < n → get_elem? done (m + 1) ≡ get_elem? from m
    pub below : (m : ℕ) → m < i → get_elem? done m ≡ get_elem? to m

  Gapped-at :
      (to from done : List A) (i left : ℕ)
      → Copied to from done i (i + 1) left
      → Gapped to from done i i (i + left)
  Gapped-at to from done i left c = record {
    len = c.len;
    before = λ m p q. absurd (omega (arith, p, q));
    after = λ m p q.
        let here : m + 1 ≡ i + 1 + (m - i) = omega (arith, p) in
        let there : i + (m - i) ≡ m = omega (arith, p) in
        ap (get_elem? done) here
        ∙ c.inside (m - i) (omega (arith, p, q))
        ∙ ap (get_elem? from) there;
    below = λ m p. c.below m (omega (arith, p));
  }

  Gapped-first :
      (to from done : List A) (skip i n : ℕ) (x : A)
      → get_elem? from i ≡ some x
      → i < length to
      → Gapped (set to i x) from done skip (i + 1) n
      → Gapped to from done skip i n
  Gapped-first to from done skip i n x at h c = record {
    len = c.len ∙ length-set to i x;
    before = λ m p q. elim (Bool-cases (i == m)) [
      | inl e ↦
          let same : i ≡ m = eq_of_== i m e in
          let first = c.below i (omega arith) ∙ get_elem?-set_self to i x h ∙ sym at in
          ap (get_elem? done) (sym same) ∙ first ∙ ap (get_elem? from) same
      | inr e ↦ c.before m (ground (arith, e, p)) q
    ];
    after = c.after;
    below = λ m p. c.below m (omega (arith, p)) ∙ get_elem?-set_ne to i m x (ground (arith, p));
  }

  pub copy_around_lem :
      (to from : List A) (skip i left : ℕ)
      → i ≤ skip
      → skip ≤ i + left
      → i + left ≤ length from
      → i + left < length to
      → (done : List A) × (copy_around to from skip i i left ≡ ok done)
        × Gapped to from done skip i (i + left)
  unfolding copy_around
  copy_around_lem to from skip i zero p q h g = (
    to,
    refl,
    record {
      len = refl;
      before = λ m u v. absurd (omega (arith, q, u, v));
      after = λ m u v. absurd (omega (arith, p, u, v));
      below = λ m u. refl;
    },
  )
  copy_around_lem to from skip i (suc left) p q h g = elim (Bool-cases (i == skip)) [
    | inl e ↦
        let same : i ≡ skip = eq_of_== i skip e in
        let (done, copied, c) = copy_lem to from i (i + 1) (suc left) h (omega (arith, g)) in
        subst
          (λ k.
            (done : List A) × (copy_around to from k i i (suc left) ≡ ok done)
            × Gapped to from done k i (i + suc left))
          same
          (
            done,
            copy_around_at to from i (suc left) h (omega (arith, g)) ∙ copied,
            Gapped-at to from done i (suc left) c,
          )
    | inr e ↦
        let (x, at) = get_elem?_of_lt from i (omega (arith, h)) in
        let inner : i < length to = omega (arith, g) in
        let (done, copied, c) =
          copy_around_lem (set to i x) from skip (i + 1) left (ground (arith, e, p))
            (omega (arith, q)) (omega (arith, h)) (omega (arith, g, length-set to i x)) in
        let sum : i + 1 + left ≡ i + suc left = omega arith in
        (
          done,
          simp (e, load-ok from i at, store-ok to i x inner) copied,
          subst (λ n. Gapped to from done skip i n) sum
              (Gapped-first to from done skip i (i + 1 + left) x at inner c),
        )
  ]

  pub fill_lem :
      (to : List A) (x : A) (i left : ℕ)
      → i + left ≤ length to
      → (done : List A) × (fill to x i left ≡ ok done)
        × (length done ≡ length to)
        × ((m : ℕ) → m < i → get_elem? done m ≡ get_elem? to m)
        × ((m : ℕ) → i ≤ m → m < i + left → get_elem? done m ≡ some x)
        × ((m : ℕ) → i + left ≤ m → get_elem? done m ≡ get_elem? to m)
  unfolding fill
  fill_lem to x i zero h =
      (to, refl, refl, λ m p. refl, λ m p q. absurd (omega (arith, p, q)), λ m p. refl)
  fill_lem to x i (suc left) h =
      let inner : i < length to = omega (arith, h) in
      let (done, e, len, below, inside, above) =
        fill_lem (set to i x) x (i + 1) left (omega (arith, h, length-set to i x)) in
      (
        done,
        simp (store-ok to i x inner) e,
        len ∙ length-set to i x,
        λ m p. below m (omega (arith, p)) ∙ get_elem?-set_ne to i m x (ground (arith, p)),
        λ m p q. elim (Bool-cases (i == m)) [
          | inl f ↦
              let same : i ≡ m = eq_of_== i m f in
              ap (get_elem? done) (sym same)
              ∙ below i (omega arith)
              ∙ get_elem?-set_self to i x inner
          | inr f ↦ inside m (ground (arith, f, p)) (omega (arith, q))
        ],
        λ m p. above m (omega (arith, p)) ∙ get_elem?-set_ne to i m x (ground (arith, p)),
      )

  -- The element at `m` of `xs` with `x` put in at `index`.
  abbrev pub with_entry : List A → (index : ℕ) → A → (m : ℕ) → Option A
  with_entry xs index x m =
      if ltb m index then get_elem? xs m else if m == index then some x else get_elem? xs (m - 1)

  -- The gap filled.
  pub gap_filled :
      (to from done : List A) (index n : ℕ) (x : A)
      → Gapped to from done index 0 n
      → index < length to
      → (m : ℕ) → m < n + 1
      → get_elem? (set done index x) m ≡ with_entry from index x m
  gap_filled to from done index n x c h m p = elim (Bool-cases (m == index)) [
    | inl e ↦
        let same : m ≡ index = eq_of_== m index e in
        let f : ltb m index ≡ false = ground (arith, same) in
        rw (f, e)
          (ap (get_elem? (set done index x)) same
            ∙ get_elem?-set_self done index x (omega (arith, h, c.len)))
    | inr e ↦ elim (Bool-cases (ltb m index)) [
      | inl f ↦ rw f (
          get_elem?-set_ne done index m x (ground (arith, f))
          ∙ c.before m (omega arith) (ground (arith, f)))
      | inr f ↦
          let here : m ≡ m - 1 + 1 = ground (arith, e, f) in
          rw (f, e)
            (get_elem?-set_ne done index m x (ground (arith, e))
              ∙ ap (get_elem? done) here
              ∙ c.after (m - 1) (ground (arith, e, f)) (ground (arith, e, f, p)))
    ]
  ]
