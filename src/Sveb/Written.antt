-- ===== src/Sveb/Written.antt =====
-- A subtree that is written by a recursion: what it holds then, from what was written to its parts.
use green_hash_tree.Prelude.{
  ℕ, zero, suc, ◌+◌, ◌*◌, ◌≤◌, ◌≡◌, refl, sym, ap₂, ◌∙◌, inl, inr, false, Bool-cases, List, ◌++◌,
  update, update_self, update_ne, ◌==◌, eq_of_==, arith,
}
use mathlib.Core.Path.{subst}
use green_hash_tree.Prelude.Int.{ℤ}
use green_hash_tree.Sveb.{LevelInfo}
use green_hash_tree.Sveb.Layout.{Laid}
use green_hash_tree.Sveb.Cursor.{address}
use green_hash_tree.Sveb.Contents.{keys_below, IsOrdered, AllBelow, AllAbove, key_of}
use green_hash_tree.Sveb.Subtrees.{IsPath, IsBelow, root-apart, children-apart}

pub apart : (a i : ℕ) → (i ≡ a → ⊥) → (a == i) ≡ false
apart a i other = elim (Bool-cases (a == i)) [
  | inl e ↦ absurd (other (sym (eq_of_== a i e)))
  | inr e ↦ e
]

module _ {myli : ℕ → LevelInfo} {d : ℕ} (t : Laid myli d 0) where
  -- The keys below a node depend on the values there alone.
  pub keys_below_same :
      (val val' : ℕ → ℤ) (l b : ℕ)
      → ((ad : ℕ) → IsBelow t l b ad → val' ad ≡ val ad)
      → keys_below t val' l b ≡ keys_below t val l b
  unfolding keys_below
  keys_below_same val val' zero b same = refl
  keys_below_same val val' (suc l) b same =
      ap₂ (λ (xs ys : List ℤ). xs ++ ys)
        (keys_below_same val val' l (b * 2 + 0) (λ ad x. same ad (inr (inl x))))
        (ap₂ (λ (v : ℤ) (ys : List ℤ). key_of v ++ ys) (same (address t (suc l) b) (inl refl))
          (keys_below_same val val' l (b * 2 + 1) (λ ad x. same ad (inr (inr x)))))

  pub IsOrdered-same :
      (val val' : ℕ → ℤ) (l b : ℕ)
      → ((ad : ℕ) → IsBelow t l b ad → val' ad ≡ val ad)
      → IsOrdered t val l b
      → IsOrdered t val' l b
  IsOrdered-same val val' zero b same o = tt
  IsOrdered-same val val' (suc l) b same o =
      let v = same (address t (suc l) b) (inl refl) in
      let left = keys_below_same val val' l (b * 2 + 0) (λ ad x. same ad (inr (inl x))) in
      let right = keys_below_same val val' l (b * 2 + 1) (λ ad x. same ad (inr (inr x))) in
      (
        subst (λ ks. AllBelow (val' (address t (suc l) b)) ks) (sym left)
            (subst (λ x. AllBelow x (keys_below t val l (b * 2 + 0))) (sym v) o.0),
        subst (λ ks. AllAbove (val' (address t (suc l) b)) ks) (sym right)
            (subst (λ x. AllAbove x (keys_below t val l (b * 2 + 1))) (sym v) o.1),
        IsOrdered-same val val' l (b * 2 + 0) (λ ad x. same ad (inr (inl x))) o.2,
        IsOrdered-same val val' l (b * 2 + 1) (λ ad x. same ad (inr (inr x))) o.3,
      )

  -- Of the values, only those below a node have changed, and there the tree has these keys, in order.
  pub record Written (l b : ℕ) (val val' : ℕ → ℤ) (keys : List ℤ) : Type 0 where
    pub others : (ad : ℕ) → (IsBelow t l b ad → ⊥) → val' ad ≡ val ad
    pub keys_eq : keys_below t val' l b ≡ keys
    pub ordered : IsOrdered t val' l b

  -- The left subtree is written, then the node, then the right subtree.
  pub Written-node :
      (l b : ℕ) (x : ℤ) (xs ys : List ℤ) (val val1 val2 : ℕ → ℤ)
      → suc l ≤ d
      → IsPath d (suc l) b
      → Written l (b * 2 + 0) val val1 xs
      → Written l (b * 2 + 1) (update val1 (address t (suc l) b) x) val2 ys
      → AllBelow x xs
      → AllAbove x ys
      → Written (suc l) b val val2 (xs ++ (key_of x ++ ys))
  unfolding keys_below
  Written-node l b x xs ys val val1 val2 h p left right below above =
      let ad = address t (suc l) b in
      let here : val2 ad ≡ x =
        right.others ad (root-apart t l b 1 h (omega arith) p) ∙ update_self val1 ad x in
      let kept : (i : ℕ) → IsBelow t l (b * 2 + 0) i → val2 i ≡ val1 i = (λ i y.
        let other : (ad == i) ≡ false =
          apart ad i
            (λ e. root-apart t l b 0 h (omega arith) p (subst (IsBelow t l (b * 2 + 0)) e y)) in
        right.others i (children-apart t l b i h p y) ∙ update_ne val1 ad x other) in
      let left_keys = keys_below_same val1 val2 l (b * 2 + 0) kept ∙ left.keys_eq in
      let others : (i : ℕ) → (IsBelow t (suc l) b i → ⊥) → val2 i ≡ val i = (λ i outside.
        let other : (ad == i) ≡ false = apart ad i (λ e. outside (inl e)) in
        right.others i (λ y. outside (inr (inr y)))
        ∙ update_ne val1 ad x other
        ∙ left.others i (λ y. outside (inr (inl y)))) in
      record {
        others = others;
        keys_eq =
            ap₂ (λ (us vs : List ℤ). us ++ vs) left_keys
              (ap₂ (λ (v : ℤ) (vs : List ℤ). key_of v ++ vs) here right.keys_eq);
        ordered = (
          subst (λ v. AllBelow v (keys_below t val2 l (b * 2 + 0))) (sym here)
              (subst (AllBelow x) (sym left_keys) below),
          subst (λ v. AllAbove v (keys_below t val2 l (b * 2 + 1))) (sym here)
              (subst (AllAbove x) (sym right.keys_eq) above),
          IsOrdered-same val1 val2 l (b * 2 + 0) kept left.ordered,
          right.ordered,
        );
      }
