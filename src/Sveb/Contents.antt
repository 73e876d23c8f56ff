-- ===== src/Sveb/Contents.antt =====
-- The keys in the tree, in order, and when the tree is a search tree: the abstract view of `val`.
use green_hash_tree.Prelude.{
  ℕ, zero, suc, ◌+◌, ◌-◌, ◌*◌, ◌%◌, ◌^◌, ◌≤◌, ◌<◌, ◌≡◌, refl, ap, ◌∙◌, inl, inr, Bool, true, false,
  Bool-cases, ◌||◌, List, [], ◌∷◌, ◌++◌, if◌then◌else◌, arith,
}
use green_hash_tree.Prelude.Powers.{pow_pos}
use green_hash_tree.Prelude.Int.{ℤ, int_eq, int_lt, int_lt_trans, int_lt_ne}
use native.Mathlib.Nat.{mod-lt}
use mathlib.Core.Path.{subst}
use green_hash_tree.Sveb.{LevelInfo, max_int}
use green_hash_tree.Sveb.Layout.{Laid}
use green_hash_tree.Sveb.Places.{place-lt}
use green_hash_tree.Sveb.Cursor.{address}

-- Whether a key is in a list.
abbrev pub contains : ℤ → List ℤ → Bool
contains key [] = false
contains key (x ∷ xs) = int_eq x key || contains key xs

pub contains-append :
    (key : ℤ) (xs ys : List ℤ) → contains key (xs ++ ys) ≡ contains key xs || contains key ys
contains-append key [] ys = refl
contains-append key (x ∷ xs) ys = ground (arith, contains-append key xs ys)

-- All keys of a list are below `v`, or above it.
abbrev pub AllBelow : ℤ → List ℤ → Type 0
AllBelow v [] = Unit
AllBelow v (x ∷ xs) = (int_lt x v ≡ true) × AllBelow v xs

abbrev pub AllAbove : ℤ → List ℤ → Type 0
AllAbove v [] = Unit
AllAbove v (x ∷ xs) = (int_lt v x ≡ true) × AllAbove v xs

pub contains_above :
    (key v : ℤ) (xs : List ℤ) → AllAbove v xs → int_lt key v ≡ true → contains key xs ≡ false
contains_above key v [] h e = refl
contains_above key v (x ∷ xs) h e =
    ground (arith, int_lt_trans key v x e h.0, int_lt_ne key x, contains_above key v xs h.1 e)

pub contains_below :
    (key v : ℤ) (xs : List ℤ) → AllBelow v xs → int_lt key v ≡ false → contains key xs ≡ false
contains_below key v [] h e = refl
contains_below key v (x ∷ xs) h e = ground (arith, contains_below key v xs h.1 e)

pub AllAbove-left : (key : ℤ) (xs ys : List ℤ) → AllAbove key (xs ++ ys) → AllAbove key xs
AllAbove-left key [] ys h = tt
AllAbove-left key (x ∷ xs) ys h = (h.0, AllAbove-left key xs ys h.1)

pub AllAbove-right : (key : ℤ) (xs ys : List ℤ) → AllAbove key (xs ++ ys) → AllAbove key ys
AllAbove-right key [] ys h = h
AllAbove-right key (x ∷ xs) ys h = AllAbove-right key xs ys h.1

-- A node's key, if it has one.
abbrev pub key_of : ℤ → List ℤ
key_of v = if int_eq max_int v then [] else v ∷ []

pub not-AllAbove_node :
    (key v : ℤ) (xs ys : List ℤ)
    → AllAbove key (xs ++ (key_of v ++ ys))
    → int_lt key v ≡ false
    → int_lt key max_int ≡ true
    → ⊥
not-AllAbove_node key v xs ys h e g =
    let here : AllAbove key (key_of v ++ ys) = AllAbove-right key xs (key_of v ++ ys) h in
    elim (Bool-cases (int_eq max_int v)) [
      | inl a ↦ ground (arith, a, e, g)
      | inr a ↦
          let one : key_of v ≡ v ∷ [] = rw a refl in
          let first : AllAbove key (v ∷ ys) = subst (λ ks. AllAbove key (ks ++ ys)) one here in
          ground (arith, first.0, e)
    ]

-- A key below that of a node is in the left subtree, if it is in the tree.
pub contains_left :
    (key v : ℤ) (xs ys : List ℤ)
    → AllAbove v ys
    → int_lt key v ≡ true
    → contains key (xs ++ (key_of v ++ ys)) ≡ contains key xs
contains_left key v xs ys h e =
    let behind : contains key (key_of v ++ ys) ≡ false =
      ground (arith, contains_above key v ys h e, int_lt_ne key v e) in
    contains-append key xs (key_of v ++ ys) ∙ ground (arith, behind)

-- Any other is that of the node, or in the right subtree.
pub contains_right :
    (key v : ℤ) (xs ys : List ℤ)
    → AllBelow v xs
    → int_lt key v ≡ false
    → int_lt key max_int ≡ true
    → contains key (xs ++ (key_of v ++ ys)) ≡ int_eq v key || contains key ys
contains_right key v xs ys h e g =
    let behind : contains key (key_of v ++ ys) ≡ int_eq v key || contains key ys = ground arith in
    contains-append key xs (key_of v ++ ys) ∙ ground (arith, behind, contains_below key v xs h e)

module _ {myli : ℕ → LevelInfo} {d : ℕ} (t : Laid myli d 0) (val : ℕ → ℤ) where
  -- The keys below the node with the path `b` on the level `l`, in order.
  unfoldable pub keys_below : (l b : ℕ) → List ℤ
  keys_below zero b = []
  keys_below (suc l) b =
      keys_below l (b * 2 + 0) ++ (key_of (val (address t (suc l) b)) ++ keys_below l (b * 2 + 1))

  -- The keys to the left of a node are below that of the node, and those to the right above it.
  abbrev pub IsOrdered : (l b : ℕ) → Type 0
  IsOrdered zero b = Unit
  IsOrdered (suc l) b =
      AllBelow (val (address t (suc l) b)) (keys_below l (b * 2 + 0))
      × AllAbove (val (address t (suc l) b)) (keys_below l (b * 2 + 1))
      × IsOrdered l (b * 2 + 0)
      × IsOrdered l (b * 2 + 1)

module _ {myli : ℕ → LevelInfo} {d : ℕ} (t : Laid myli d 0) where
  pub address-lt : (l b : ℕ) → 0 < l → l ≤ d → address t l b < 2 ^ d - 1
  address-lt l b h g =
      let all : d - 0 ≡ d = omega arith in
      omega (
        arith,
        place-lt t l (b % 2 ^ (d - l)) h g (mod-lt b (pow_pos (d - l))),
        ap (λ (x : ℕ). 2 ^ x) all,
      )
