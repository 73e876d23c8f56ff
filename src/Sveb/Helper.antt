-- ===== src/Sveb/Helper.antt =====
-- The keys that `helper` holds from one index up to another, in order.
use green_hash_tree.Prelude.{
  ℕ, zero, suc, ◌+◌, ◌-◌, ◌≤◌, ◌<◌, ◌≡◌, ap, ◌∙◌, true, false, List, [], ◌∷◌, ◌++◌, arith,
}
use green_hash_tree.Prelude.Int.{ℤ, int_eq, int_lt}
use green_hash_tree.Sveb.{max_int}
use green_hash_tree.Sveb.Contents.{AllBelow, AllAbove}

-- The `n` keys from the index `i` on.
abbrev pub slice : (ℕ → ℤ) → (i n : ℕ) → List ℤ
slice f i zero = []
slice f i (suc n) = f i ∷ slice f (suc i) n

slice-append : (f : ℕ → ℤ) (i m n : ℕ) → slice f i (m + n) ≡ slice f i m ++ slice f (i + m) n
slice-append f i zero n =
    let here : i ≡ i + 0 = omega arith in
    let all : 0 + n ≡ n = omega arith in ap (slice f i) all ∙ ap (λ (j : ℕ). slice f j n) here
slice-append f i (suc m) n =
    let e : suc m + n ≡ suc (m + n) = omega arith in
    let e' : suc i + m ≡ i + suc m = omega arith in
    ap (slice f i) e
    ∙ ap (λ (ks : List ℤ). f i ∷ ks) (slice-append f (suc i) m n)
    ∙ ap (λ (j : ℕ). f i ∷ (slice f (suc i) m ++ slice f j n)) e'

pub slice_middle :
    (f : ℕ → ℤ) (lo m hi : ℕ)
    → lo ≤ m
    → m < hi
    → slice f lo (hi - lo) ≡ slice f lo (m - lo) ++ (f m ∷ slice f (m + 1) (hi - (m + 1)))
slice_middle f lo m hi h g =
    let count : hi - lo ≡ (m - lo) + suc (hi - (m + 1)) = omega arith in
    let at : lo + (m - lo) ≡ m = omega arith in
    let next : suc m ≡ m + 1 = omega arith in
    ap (slice f lo) count
    ∙ slice-append f lo (m - lo) (suc (hi - (m + 1)))
    ∙ ap (λ (j : ℕ). slice f lo (m - lo) ++ slice f j (suc (hi - (m + 1)))) at
    ∙ ap (λ (j : ℕ). slice f lo (m - lo) ++ (f m ∷ slice f j (hi - (m + 1)))) next

pub AllBelow-slice :
    (f : ℕ → ℤ) (v : ℤ) (i n : ℕ)
    → ((j : ℕ) → i ≤ j → j < i + n → int_lt (f j) v ≡ true)
    → AllBelow v (slice f i n)
AllBelow-slice f v i zero h = tt
AllBelow-slice f v i (suc n) h = (
  h i (omega arith) (omega arith),
  AllBelow-slice f v (suc i) n (λ j a b. h j (omega arith) (omega arith)),
)

pub AllAbove-slice :
    (f : ℕ → ℤ) (v : ℤ) (i n : ℕ)
    → ((j : ℕ) → i ≤ j → j < i + n → int_lt v (f j) ≡ true)
    → AllAbove v (slice f i n)
AllAbove-slice f v i zero h = tt
AllAbove-slice f v i (suc n) h = (
  h i (omega arith) (omega arith),
  AllAbove-slice f v (suc i) n (λ j a b. h j (omega arith) (omega arith)),
)

-- The elements from `lo` up to `hi` are keys, and go up.
pub record Ascends (f : ℕ → ℤ) (lo hi : ℕ) : Type 0 where
  pub keyed : (i : ℕ) → lo ≤ i → i < hi → int_eq max_int (f i) ≡ false
  pub ascending : (i j : ℕ) → lo ≤ i → i < j → j < hi → int_lt (f i) (f j) ≡ true

pub Ascends-part :
    (f : ℕ → ℤ) (lo hi lo' hi' : ℕ) → lo ≤ lo' → hi' ≤ hi → Ascends f lo hi → Ascends f lo' hi'
Ascends-part f lo hi lo' hi' a b z = record {
  keyed = λ i p q. z.keyed i (omega arith) (omega arith);
  ascending = λ i j p q r. z.ascending i j (omega arith) q (omega arith);
}
