-- ===== src/Bpt/Scan.antt =====
-- Where the loop that looks for the place of a key stops.
use green_hash_tree.Prelude.{
  ℕ, zero, suc, eq_of_==, ◌+◌, ◌≤◌, ◌<◌, ◌≡◌, refl, ap, sym, ◌∙◌, inl, inr, Bool-cases, true, false,
  Option, some, List, arith, get_elem?, length, ◌==◌, get_elem?_of_lt,
}
use green_hash_tree.Prelude.Int.{ℤ, int_lt}
use green_hash_tree.Prelude.Run.{ok}
use green_hash_tree.Bpt.{scan_keys}
use green_hash_tree.Bpt.Arrays.{load-ok}

-- The keys before the index `n` go up.
abbrev pub Ascending : List ℤ → ℕ → Type 0
Ascending keys n =
    (j : ℕ) (a b : ℤ)
    → suc j < n
    → get_elem? keys j ≡ some a
    → get_elem? keys (suc j) ≡ some b
    → int_lt a b ≡ true

-- Where `scan_keys` stops: behind the keys that are below `key`, at the end or at one that is not.
pub record Stop (keys : List ℤ) (key : ℤ) (i left point : ℕ) : Type 0 where
  pub from : i ≤ point
  pub upto : point ≤ i + left
  pub below : (j : ℕ) (a : ℤ) → i ≤ j → j < point → get_elem? keys j ≡ some a → int_lt a key ≡ true
  pub above : (a : ℤ) → point < i + left → get_elem? keys point ≡ some a → int_lt a key ≡ false

pub same_entry : {o : Option ℤ} {a b : ℤ} → o ≡ some a → o ≡ some b → a ≡ b
same_entry p q = let both = sym p ∙ q in cc both

first_or_later :
    {keys : List ℤ} {key k a : ℤ} {left point : ℕ} (i j : ℕ)
    → Stop keys key (i + 1) left point
    → int_lt k key ≡ true
    → get_elem? keys i ≡ some k
    → get_elem? keys j ≡ some a
    → i ≤ j
    → j < point
    → int_lt a key ≡ true
first_or_later {keys} {key} {k} {a} i j s e at at' p q = elim (Bool-cases (i == j)) [
  | inl f ↦
      let same : i ≡ j = eq_of_== i j f in
      sym (ap (λ x. int_lt x key) (same_entry at (ap (get_elem? keys) same ∙ at'))) ∙ e
  | inr f ↦ s.below j a (ground (arith, f, p)) q at'
]

pub scan_keys_lem :
    (keys : List ℤ) (key : ℤ) (i left : ℕ)
    → i + left ≤ length keys
    → (point : ℕ) × (scan_keys keys key i left ≡ ok point) × Stop keys key i left point
unfolding scan_keys
scan_keys_lem keys key i zero h = (
  i,
  refl,
  record {
    from = omega arith;
    upto = omega arith;
    below = λ j a p q. absurd (omega (arith, p, q));
    above = λ a p. absurd (omega (arith, p));
  },
)
scan_keys_lem keys key i (suc left) h =
    let (k, at) = get_elem?_of_lt keys i (omega (arith, h)) in
    let (point, done, s) = scan_keys_lem keys key (i + 1) left (omega (arith, h)) in
    elim (Bool-cases (int_lt k key)) [
      | inl e ↦ (
        point,
        simp (load-ok keys i at, e) done,
        record {
          from = omega (arith, s.from);
          upto = omega (arith, s.upto);
          below = λ j a p q at'. first_or_later i j s e at at' p q;
          above = λ a p. s.above a (omega (arith, p));
        },
      )
      | inr e ↦ (
        i,
        simp (load-ok keys i at, e) refl,
        record {
          from = omega arith;
          upto = omega arith;
          below = λ j a p q. absurd (omega (arith, p, q));
          above = λ a p at'. sym (ap (λ x. int_lt x key) (same_entry at at')) ∙ e;
        },
      )
    ]
