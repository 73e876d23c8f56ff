-- ===== src/Sveb/Levels.antt =====
-- The table of `init_height` gives the address of a node from that of one of its ancestors.
use green_hash_tree.Prelude.{
  ℕ, ◌+◌, ◌-◌, ◌*◌, ◌/◌, ◌%◌, ◌^◌, ◌<◌, ◌≡◌, sym, ap, ◌∙◌, inl, inr, Bool-cases, ltb, arith, ◌==◌,
  eq_of_==,
}
use green_hash_tree.Prelude.Powers.{div-pow_add, mod-pow_add, pow_pos}
use native.Mathlib.Nat.{mod-lt, mod-eq_of_lt, div-eq_of_lt, div-one}
use mathlib.Core.Path.{subst}
use green_hash_tree.Sveb.{LevelInfo}
use green_hash_tree.Sveb.Layout.{
  cut_entry, Laid, one_level, split, place, place-root, place_upper, place_lower, whole, Level,
}

module _ {myli : ℕ → LevelInfo} where
  module _ {top bot : ℕ} (me : ℕ) (h : bot < me) (g : me < top) (e : myli me ≡ cut_entry top me bot)
      (upper : Laid myli top me) (lower : Laid myli me bot) where
    Level-upper : (l : ℕ) → me < l → Level upper l → Level (whole me h g e upper lower) l
    Level-upper l a z = record {
      above = z.above;
      within = z.within;
      mask = z.mask;
      address = λ c b.
          place_upper me h g e upper lower l c a
          ∙ z.address c b
          ∙ ap (λ (t : ℕ). (myli l).bs * (c % 2 ^ ((myli l).p - l)) + (myli l).ts + t)
              (sym (
                place_upper me h g e upper lower (myli l).p (c / 2 ^ ((myli l).p - l))
                  (omega (arith, z.above))));
    }

    Level-lower : (l : ℕ) → l < me → Level lower l → Level (whole me h g e upper lower) l
    Level-lower l a z =
        let p = (myli l).p in
        let m = p - l in
        let n = me - p in
        let sum : m + n ≡ me - l = omega (arith, z.above, z.within) in
        let address : (c : ℕ)
            → c < 2 ^ (top - l)
            → place (whole me h g e upper lower) l c
              ≡ (myli l).bs * (c % 2 ^ m)
                + (myli l).ts
                + place (whole me h g e upper lower) p (c / 2 ^ m) =
          (λ c b.
            let d : c / 2 ^ (me - l) ≡ c / 2 ^ m / 2 ^ n =
              ap (λ (t : ℕ). c / 2 ^ t) (sym sum) ∙ div-pow_add c m n in
            let q : c % 2 ^ (me - l) / 2 ^ m ≡ c / 2 ^ m % 2 ^ n =
              ap (λ (t : ℕ). c % 2 ^ t / 2 ^ m) (sym sum) ∙ (mod-pow_add c m n).0 in
            let r : c % 2 ^ (me - l) % 2 ^ m ≡ c % 2 ^ m =
              ap (λ (t : ℕ). c % 2 ^ t % 2 ^ m) (sym sum) ∙ (mod-pow_add c m n).1 in
            omega (
              arith,
              place_lower me h g e upper lower l c (omega arith),
              place_lower me h g e upper lower p (c / 2 ^ m) z.within,
              z.address (c % 2 ^ (me - l)) (mod-lt c (pow_pos (me - l))),
              ap (λ (t : ℕ). (2 ^ (me - bot) - 1) * t) d,
              ap (λ (t : ℕ). (myli l).bs * t) r,
              ap (place lower p) q,
            )) in
        record {
          above = z.above;
          within = omega (arith, z.within);
          mask = z.mask;
          address = address;
        }

    Level-cut : Level (whole me h g e upper lower) me
    Level-cut =
        let p : (myli me).p ≡ top = ap (λ (x : LevelInfo). x.p) e in
        let ts : (myli me).ts ≡ 2 ^ (top - me) - 1 = ap (λ (x : LevelInfo). x.ts) e in
        let bs : (myli me).bs ≡ 2 ^ (me - bot) - 1 = ap (λ (x : LevelInfo). x.bs) e in
        let address : (c : ℕ)
            → c < 2 ^ (top - me)
            → place (whole me h g e upper lower) me c
              ≡ (2 ^ (me - bot) - 1) * (c % 2 ^ (top - me))
                + (2 ^ (top - me) - 1)
                + place (whole me h g e upper lower) top (c / 2 ^ (top - me)) =
          (λ c b.
            let none : me - me ≡ 0 = omega arith in
            let one : c / 2 ^ (me - me) ≡ c = ap (λ (t : ℕ). c / 2 ^ t) none ∙ div-one c in
            let rest : c % 2 ^ (me - me) ≡ 0 = ap (λ (t : ℕ). c % 2 ^ t) none ∙ omega arith in
            omega (
              arith,
              place_lower me h g e upper lower me c (omega arith),
              ap (λ (t : ℕ). (2 ^ (me - bot) - 1) * t) one,
              ap (place lower me) rest,
              place-root lower,
              ap (λ (t : ℕ). (2 ^ (me - bot) - 1) * t) (mod-eq_of_lt b),
              ap (place (whole me h g e upper lower) top) (div-eq_of_lt b),
              place-root (whole me h g e upper lower),
            )) in
        record {
          above = omega (arith, p);
          within = omega (arith, p);
          mask = rw p ts;
          address = rw (p, ts, bs) address;
        }

  pub Level_lem : {top bot : ℕ} (t : Laid myli top bot) (l : ℕ) → bot < l → l < top → Level t l
  Level_lem (one_level h) l a b = absurd (omega arith)
  Level_lem (split me h g e upper lower) l a b = elim (Bool-cases (ltb me l)) [
    | inl x ↦ Level-upper me h g e upper lower l (ground arith) (Level_lem upper l (ground arith) b)
    | inr x ↦ elim (Bool-cases (l == me)) [
      | inl y ↦
          subst (λ k. Level (whole me h g e upper lower) k) (sym (eq_of_== l me y))
            (Level-cut me h g e upper lower)
      | inr y ↦
          Level-lower me h g e upper lower l (ground arith) (Level_lem lower l a (ground arith))
    ]
  ]
