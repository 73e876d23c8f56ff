-- ===== src/Sveb/Sorted.antt =====
-- The insertion of a key into sorted keys, and into the keys below a node.
use green_hash_tree.Prelude.{
  ℕ, suc, ◌+◌, ◌*◌, ◌≤◌, ◌≡◌, refl, sym, ap, ap₂, ◌∙◌, inl, inr, Bool, true, false, Bool-cases,
  List, [], ◌∷◌, ◌++◌, if◌then◌else◌, ◌||◌, arith,
}
use mathlib.Core.Path.{subst}
use green_hash_tree.Prelude.Int.{ℤ, int_eq, int_lt, int_lt_asym, int_lt_trans}
use green_hash_tree.Sveb.{LevelInfo, max_int}
use green_hash_tree.Sveb.Layout.{Laid}
use green_hash_tree.Sveb.Cursor.{address}
use green_hash_tree.Sveb.Contents.{contains, keys_below, IsOrdered, AllBelow, AllAbove, key_of}
use green_hash_tree.Sveb.Subtrees.{IsPath, IsBelow, root-apart, children-apart}
use green_hash_tree.Sveb.Written.{Written, keys_below_same, IsOrdered-same}

swap : (a b c : Bool) → a || (b || c) ≡ b || (a || c)
swap true true c = refl
swap true false c = refl
swap false true c = refl
swap false false c = refl

-- Puts a key in front of the first one that is larger.
abbrev pub put_key : ℤ → List ℤ → List ℤ
put_key key [] = key ∷ []
put_key key (x ∷ xs) = if int_lt key x then key ∷ x ∷ xs else x ∷ put_key key xs

pub contains-put_key :
    (k key : ℤ) (xs : List ℤ) → contains k (put_key key xs) ≡ int_eq key k || contains k xs
contains-put_key k key [] = refl
contains-put_key k key (x ∷ xs) = elim (Bool-cases (int_lt key x)) [
  | inl e ↦ rw e refl
  | inr e ↦ rw e (
      ap (λ (c : Bool). int_eq x k || c) (contains-put_key k key xs)
      ∙ swap (int_eq x k) (int_eq key k) (contains k xs))
]

pub put_key_left :
    (key v : ℤ) (xs ys : List ℤ)
    → int_lt key v ≡ true
    → put_key key (xs ++ (v ∷ ys)) ≡ put_key key xs ++ (v ∷ ys)
put_key_left key v [] ys h = rw h refl
put_key_left key v (x ∷ xs) ys h = elim (Bool-cases (int_lt key x)) [
  | inl e ↦ rw e refl
  | inr e ↦ rw e (ap (λ (ks : List ℤ). x ∷ ks) (put_key_left key v xs ys h))
]

pub put_key_right :
    (key v : ℤ) (xs ys : List ℤ)
    → AllBelow v xs
    → int_lt v key ≡ true
    → put_key key (xs ++ (v ∷ ys)) ≡ xs ++ (v ∷ put_key key ys)
put_key_right key v [] ys b h = rw (int_lt_asym v key h) refl
put_key_right key v (x ∷ xs) ys b h =
    let other : int_lt key x ≡ false = int_lt_asym x key (int_lt_trans x v key b.0 h) in
    rw other (ap (λ (ks : List ℤ). x ∷ ks) (put_key_right key v xs ys b.1 h))

pub AllBelow-put_key :
    (key v : ℤ) (xs : List ℤ) → AllBelow v xs → int_lt key v ≡ true → AllBelow v (put_key key xs)
AllBelow-put_key key v [] b h = (h, tt)
AllBelow-put_key key v (x ∷ xs) b h = elim (Bool-cases (int_lt key x)) [
  | inl e ↦ rw e (h, b)
  | inr e ↦ rw e (b.0, AllBelow-put_key key v xs b.1 h)
]

pub AllAbove-put_key :
    (key v : ℤ) (xs : List ℤ) → AllAbove v xs → int_lt v key ≡ true → AllAbove v (put_key key xs)
AllAbove-put_key key v [] b h = (h, tt)
AllAbove-put_key key v (x ∷ xs) b h = elim (Bool-cases (int_lt key x)) [
  | inl e ↦ rw e (h, b)
  | inr e ↦ rw e (b.0, AllAbove-put_key key v xs b.1 h)
]

module _ {myli : ℕ → LevelInfo} {d : ℕ} (t : Laid myli d 0) where
  module _ (l b : ℕ) (key : ℤ) (val val1 : ℕ → ℤ) (h : suc l ≤ d) (p : IsPath d (suc l) b) where
    abbrev v : ℤ
    v = val (address t (suc l) b)

    abbrev left : List ℤ
    left = keys_below t val l (b * 2 + 0)

    abbrev right : List ℤ
    right = keys_below t val l (b * 2 + 1)

    -- The key has been put into the left subtree.
    pub Written-left :
        Written t l (b * 2 + 0) val val1 (put_key key left)
        → IsOrdered t val (suc l) b
        → int_eq max_int v ≡ false
        → int_lt key v ≡ true
        → Written t (suc l) b val val1 (put_key key (keys_below t val (suc l) b))
    unfolding keys_below
    Written-left w o e g =
        let here : val1 (address t (suc l) b) ≡ v =
          w.others (address t (suc l) b) (root-apart t l b 0 h (omega arith) p) in
        let kept : (i : ℕ) → IsBelow t l (b * 2 + 1) i → val1 i ≡ val i =
          (λ i y. w.others i (λ x. children-apart t l b i h p x y)) in
        let other = keys_below_same t val val1 l (b * 2 + 1) kept in
        let one : key_of v ≡ v ∷ [] = rw e refl in
        record {
          others = λ i outside. w.others i (λ x. outside (inr (inl x)));
          keys_eq =
              ap₂ (λ (us vs : List ℤ). us ++ vs) w.keys_eq
                (ap₂ (λ (x : ℤ) (vs : List ℤ). key_of x ++ vs) here other)
              ∙ ap (λ (ks : List ℤ). put_key key left ++ (ks ++ right)) one
              ∙ sym (put_key_left key v left right g)
              ∙ ap (λ (ks : List ℤ). put_key key (left ++ (ks ++ right))) (sym one);
          ordered = (
            subst (λ x. AllBelow x (keys_below t val1 l (b * 2 + 0))) (sym here)
                (subst (AllBelow v) (sym w.keys_eq) (AllBelow-put_key key v left o.0 g)),
            subst (λ x. AllAbove x (keys_below t val1 l (b * 2 + 1))) (sym here)
                (subst (AllAbove v) (sym other) o.1),
            w.ordered,
            IsOrdered-same t val val1 l (b * 2 + 1) kept o.3,
          );
        }

    -- The key has been put into the right subtree.
    pub Written-right :
        Written t l (b * 2 + 1) val val1 (put_key key right)
        → IsOrdered t val (suc l) b
        → int_eq max_int v ≡ false
        → int_lt v key ≡ true
        → Written t (suc l) b val val1 (put_key key (keys_below t val (suc l) b))
    unfolding keys_below
    Written-right w o e g =
        let here : val1 (address t (suc l) b) ≡ v =
          w.others (address t (suc l) b) (root-apart t l b 1 h (omega arith) p) in
        let kept : (i : ℕ) → IsBelow t l (b * 2 + 0) i → val1 i ≡ val i =
          (λ i y. w.others i (λ x. children-apart t l b i h p y x)) in
        let other = keys_below_same t val val1 l (b * 2 + 0) kept in
        let one : key_of v ≡ v ∷ [] = rw e refl in
        record {
          others = λ i outside. w.others i (λ x. outside (inr (inr x)));
          keys_eq =
              ap₂ (λ (us vs : List ℤ). us ++ vs) other
                (ap₂ (λ (x : ℤ) (vs : List ℤ). key_of x ++ vs) here w.keys_eq)
              ∙ ap (λ (ks : List ℤ). left ++ (ks ++ put_key key right)) one
              ∙ sym (put_key_right key v left right o.0 g)
              ∙ ap (λ (ks : List ℤ). put_key key (left ++ (ks ++ right))) (sym one);
          ordered = (
            subst (λ x. AllBelow x (keys_below t val1 l (b * 2 + 0))) (sym here)
                (subst (AllBelow v) (sym other) o.0),
            subst (λ x. AllAbove x (keys_below t val1 l (b * 2 + 1))) (sym here)
                (subst (AllAbove v) (sym w.keys_eq) (AllAbove-put_key key v right o.1 g)),
            IsOrdered-same t val val1 l (b * 2 + 0) kept o.2,
            w.ordered,
          );
        }
