-- ===== src/Sveb/Places.antt =====
-- The layout fills the array with no gap: its addresses are below the number of the nodes, and no two
-- nodes have the same.
use green_hash_tree.Prelude.{
  ℕ, zero, suc, ◌+◌, ◌-◌, ◌*◌, ◌/◌, ◌%◌, ◌^◌, ◌≤◌, ◌<◌, ◌≡◌, sym, ap, ap₂, ◌∙◌, inl, inr,
  Bool-cases, ltb, arith,
}
use green_hash_tree.Prelude.Powers.{pow_pos, pow-add, div-mod_parts}
use native.Mathlib.Nat.{mod-lt, pow-suc, pow-zero, div-lt_iff_lt-mul, div-add-mod}
use green_hash_tree.Prelude.Run.{Gives, Gives-map}
use green_hash_tree.Sveb.{LevelInfo, table_length, init_height}
use green_hash_tree.Sveb.Table.{init_height_lem}
use green_hash_tree.Sveb.Layout.{Laid, one_level, split, place, place_upper, place_lower}

-- The number of a lower part.
pub part-lt :
    (c l me top : ℕ) → l ≤ me → me < top → c < 2 ^ (top - l) → c / 2 ^ (me - l) < 2 ^ (top - me)
part-lt c l me top a g b =
    let sum : top - l ≡ (top - me) + (me - l) = omega arith in
    let all : 2 ^ (top - l) ≡ 2 ^ (top - me) * 2 ^ (me - l) =
      ap (λ (t : ℕ). 2 ^ t) sum ∙ pow-add (top - me) (me - l) in
    (div-lt_iff_lt-mul (pow_pos (me - l))).1 (omega (arith, all))

nodes : (P Q : ℕ) → 0 < P → 0 < Q → P - 1 + (Q - 1) * P + 1 ≡ P * Q
nodes P zero p q = elim q [ ]
nodes P (suc Q) p q =
    let one : suc Q - 1 ≡ Q = omega arith in omega (arith, p, ap (λ (t : ℕ). t * P) one)

room : (q r T B P : ℕ) → q < P → r < B → T + 1 ≡ P → T + B * q + r < T + B * P
room q r T B P h g e = grind arith

module _ {myli : ℕ → LevelInfo} where
  pub place-lt :
      {top bot : ℕ} (t : Laid myli top bot) (l c : ℕ)
      → bot < l
      → l ≤ top
      → c < 2 ^ (top - l)
      → place t l c < 2 ^ (top - bot) - 1
  unfolding place
  place-lt {top = top} {bot = bot} (one_level h) l c a b d =
      let one : top - bot ≡ suc 0 = omega arith in
      omega (arith, ap (λ (t : ℕ). 2 ^ t) one, pow-suc 2 0, pow-zero 2)
  place-lt {top = top} {bot = bot} (split me h g e upper lower) l c a b d =
      let sum : top - bot ≡ (top - me) + (me - bot) = omega arith in
      let all : 2 ^ (top - bot) ≡ 2 ^ (top - me) * 2 ^ (me - bot) =
        ap (λ (t : ℕ). 2 ^ t) sum ∙ pow-add (top - me) (me - bot) in
      let count : 2 ^ (top - me) - 1 + (2 ^ (me - bot) - 1) * 2 ^ (top - me) ≡ 2 ^ (top - bot) - 1 =
        omega (
          arith,
          all,
          nodes (2 ^ (top - me)) (2 ^ (me - bot)) (pow_pos (top - me)) (pow_pos (me - bot)),
        ) in
      elim (Bool-cases (ltb me l)) [
        | inl x ↦
            let IH = place-lt upper l c (ground arith) b d in
            omega (arith, place_upper me h g e upper lower l c (ground arith), IH, count)
        | inr x ↦
            let small : l ≤ me = ground arith in
            let part = part-lt c l me top small g d in
            let IH = place-lt lower l (c % 2 ^ (me - l)) a small (mod-lt c (pow_pos (me - l))) in
            let bound =
              room (c / 2 ^ (me - l)) (place lower l (c % 2 ^ (me - l))) (2 ^ (top - me) - 1)
                (2 ^ (me - bot) - 1) (2 ^ (top - me)) part IH (omega (arith, pow_pos (top - me))) in
            omega (arith, place_lower me h g e upper lower l c small, bound, count)
      ]

  -- Two nodes with one address are one node.
  pub place-injective :
      {top bot : ℕ} (t : Laid myli top bot) (l c k d : ℕ)
      → bot < l
      → l ≤ top
      → c < 2 ^ (top - l)
      → bot < k
      → k ≤ top
      → d < 2 ^ (top - k)
      → place t l c ≡ place t k d
      → (l ≡ k) × (c ≡ d)
  place-injective {top = top} {bot = bot} (one_level h) l c k d a b p a' b' p' same =
      let one : top - l ≡ 0 = omega arith in
      let one' : top - k ≡ 0 = omega arith in
      (
        omega arith,
        omega (arith, ap (λ (t : ℕ). 2 ^ t) one, ap (λ (t : ℕ). 2 ^ t) one', pow-zero 2),
      )
  place-injective {top = top} {bot = bot} (split me h g e upper lower) l c k d a b p a' b' p' same =
      let up = place_upper me h g e upper lower in
      let low = place_lower me h g e upper lower in
      elim (Bool-cases (ltb me l)) [
        | inl x ↦ elim (Bool-cases (ltb me k)) [
          | inl y ↦
              place-injective upper l c k d (ground arith) b p (ground arith) b' p'
                (sym (up l c (ground arith)) ∙ same ∙ up k d (ground arith))
          | inr y ↦ absurd (
              let z = place-lt upper l c (ground arith) b p in
              omega (arith, z, up l c (ground arith), low k d (ground arith), same))
        ]
        | inr x ↦ elim (Bool-cases (ltb me k)) [
          | inl y ↦ absurd (
              let z = place-lt upper k d (ground arith) b' p' in
              omega (arith, z, up k d (ground arith), low l c (ground arith), same))
          | inr y ↦
              let l-le : l ≤ me = ground arith in
              let k-le : k ≤ me = ground arith in
              let B = 2 ^ (me - bot) - 1 in
              let r = place lower l (c % 2 ^ (me - l)) in
              let r' = place lower k (d % 2 ^ (me - k)) in
              let lt = place-lt lower l (c % 2 ^ (me - l)) a l-le (mod-lt c (pow_pos (me - l))) in
              let lt' = place-lt lower k (d % 2 ^ (me - k)) a' k-le (mod-lt d (pow_pos (me - k))) in
              let eq : c / 2 ^ (me - l) * B + r ≡ d / 2 ^ (me - k) * B + r' =
                omega (arith, low l c l-le, low k d k-le, same) in
              let x1 = div-mod_parts (c / 2 ^ (me - l)) r B lt in
              let x2 = div-mod_parts (d / 2 ^ (me - k)) r' B lt' in
              let q : c / 2 ^ (me - l) ≡ d / 2 ^ (me - k) =
                sym x1.0 ∙ ap (λ (t : ℕ). t / B) eq ∙ x2.0 in
              let rest : r ≡ r' = sym x1.1 ∙ ap (λ (t : ℕ). t % B) eq ∙ x2.1 in
              let (level, node) =
                place-injective lower l (c % 2 ^ (me - l)) k (d % 2 ^ (me - k)) a l-le
                  (mod-lt c (pow_pos (me - l))) a' k-le (mod-lt d (pow_pos (me - k))) rest in
              let c-eq = div-add-mod c (2 ^ (me - l)) in
              let d-eq = div-add-mod d (2 ^ (me - k)) in
              let width : 2 ^ (me - l) ≡ 2 ^ (me - k) = ap (λ (t : ℕ). 2 ^ (me - t)) level in
              let prod : 2 ^ (me - l) * (c / 2 ^ (me - l)) ≡ 2 ^ (me - k) * (d / 2 ^ (me - k)) =
                ap₂ (λ (s t : ℕ). s * t) width q in
              (level, omega (arith, c-eq, d-eq, prod, node))
        ]
      ]

-- A table that gives each node of `d` levels a place of its own among `2 ^ d - 1`.
pub record Fits (d : ℕ) (myli : ℕ → LevelInfo) : Type 0 where
  pub laid : Laid myli d 0
  pub bound : (l c : ℕ) → 0 < l → l ≤ d → c < 2 ^ (d - l) → place laid l c < 2 ^ d - 1
  pub distinct :
      (l c k e : ℕ)
      → 0 < l
      → l ≤ d
      → c < 2 ^ (d - l)
      → 0 < k
      → k ≤ d
      → e < 2 ^ (d - k)
      → place laid l c ≡ place laid k e
      → (l ≡ k) × (c ≡ e)

-- For up to 40 levels `init_height` ends with no access out of bounds, and its table gives the nodes of
-- the levels 1 to `d` places below `2 ^ d - 1`, two different ones to any two of them.
pub init_height-Fits :
    (d : ℕ) (myli : ℕ → LevelInfo)
    → d ≤ table_length
    → Gives (Fits d) (init_height (suc d) d 0 myli)
init_height-Fits d myli h = Gives-map (init_height_lem (suc d) d 0 myli (omega arith) h) λ myli' f.
    let all : d - 0 ≡ d = omega arith in
    record {
      laid = f.laid;
      bound = λ l c a b p. omega (arith, place-lt f.laid l c a b p, ap (λ (x : ℕ). 2 ^ x) all);
      distinct = λ l c k e a b p a' b' p' same. place-injective f.laid l c k e a b p a' b' p' same;
    }
