-- ===== src/Sveb/Subtrees.antt =====
-- The addresses below a node: different nodes have different ones, so what is written below one child
-- leaves the node and the other child alone.
use green_hash_tree.Prelude.{
  ℕ, zero, suc, ◌+◌, ◌-◌, ◌*◌, ◌/◌, ◌%◌, ◌^◌, ◌≤◌, ◌<◌, ◌≡◌, refl, sym, ap, ap₂, ◌∙◌, ◌⊎◌, inl, inr,
  arith,
}
use green_hash_tree.Prelude.Powers.{pow_pos, div-pow_add}
use native.Mathlib.Nat.{mod-lt, div-add-mod, pow-suc, pow-zero}
use green_hash_tree.Sveb.{LevelInfo}
use green_hash_tree.Sveb.Layout.{Laid}
use green_hash_tree.Sveb.Places.{place-injective}
use green_hash_tree.Sveb.Cursor.{address, path-up}

-- The path of a node of the level `l` in a tree of `d` levels is a 1 and `d - l` digits.
abbrev pub IsPath : (d l b : ℕ) → Type 0
IsPath d l b = b / 2 ^ (d - l) ≡ 1

pub IsPath-down :
    (d l b bit : ℕ) → suc l ≤ d → bit < 2 → IsPath d (suc l) b → IsPath d l (b * 2 + bit)
IsPath-down d l b bit h g p = path-up l b bit d h g ∙ p

module _ {myli : ℕ → LevelInfo} {d : ℕ} (t : Laid myli d 0) where
  -- `ad` is the address of the node with the path `b` on the level `l`, or of one below it.
  abbrev pub IsBelow : (l b ad : ℕ) → Type 0
  IsBelow zero b ad = ⊥
  IsBelow (suc l) b ad =
      (ad ≡ address t (suc l) b) ⊎ IsBelow l (b * 2 + 0) ad ⊎ IsBelow l (b * 2 + 1) ad

  -- Such a node.
  record Spot (l b ad : ℕ) : Type 0 where
    k : ℕ
    c : ℕ
    positive : 0 < k
    within : k ≤ l
    ancestor : c / 2 ^ (l - k) ≡ b
    path : IsPath d k c
    stands : ad ≡ address t k c

  spot_up : (l b bit ad : ℕ) → bit < 2 → Spot l (b * 2 + bit) ad → Spot (suc l) b ad
  spot_up l b bit ad h z =
      let sum : (l - z.k) + 1 ≡ suc l - z.k = omega (arith, z.within) in
      let two : 2 ^ 1 ≡ 2 = omega (arith, pow-suc 2 0, pow-zero 2) in
      let half : (b * 2 + bit) / 2 ≡ b = omega arith in
      record {
        k = z.k;
        c = z.c;
        positive = z.positive;
        within = omega (arith, z.within);
        ancestor =
            ap (λ (x : ℕ). z.c / 2 ^ x) (sym sum)
            ∙ div-pow_add z.c (l - z.k) 1
            ∙ ap₂ (λ (x y : ℕ). x / y) z.ancestor two
            ∙ half;
        path = z.path;
        stands = z.stands;
      }

  spot : (l b ad : ℕ) → l ≤ d → IsPath d l b → IsBelow l b ad → Spot l b ad
  spot zero b ad h p x = elim x [ ]
  spot (suc l) b ad h p (inl e) =
      let none : suc l - suc l ≡ 0 = omega arith in
      record {
        k = suc l;
        c = b;
        positive = omega arith;
        within = omega arith;
        ancestor = ap (λ (x : ℕ). b / 2 ^ x) none ∙ omega arith;
        path = p;
        stands = e;
      }
  spot (suc l) b ad h p (inr (inl x)) =
      spot_up l b 0 ad (omega arith)
        (spot l (b * 2 + 0) ad (omega arith) (IsPath-down d l b 0 h (omega arith) p) x)
  spot (suc l) b ad h p (inr (inr x)) =
      spot_up l b 1 ad (omega arith)
        (spot l (b * 2 + 1) ad (omega arith) (IsPath-down d l b 1 h (omega arith) p) x)

  -- Two nodes with one address have one path.
  one_spot :
      (l b l' b' ad : ℕ) (x : Spot l b ad) (y : Spot l' b' ad)
      → l ≤ d
      → l' ≤ d
      → (x.k ≡ y.k) × (x.c ≡ y.c)
  one_spot l b l' b' ad x y h h' =
      let (level, rest) =
        place-injective t x.k (x.c % 2 ^ (d - x.k)) y.k (y.c % 2 ^ (d - y.k)) x.positive
          (omega (arith, x.within)) (mod-lt x.c (pow_pos (d - x.k))) y.positive
          (omega (arith, y.within)) (mod-lt y.c (pow_pos (d - y.k))) (sym x.stands ∙ y.stands) in
      let width : 2 ^ (d - x.k) ≡ 2 ^ (d - y.k) = ap (λ (u : ℕ). 2 ^ (d - u)) level in
      let cx : 2 ^ (d - x.k) + x.c % 2 ^ (d - x.k) ≡ x.c =
        omega (arith, div-add-mod x.c (2 ^ (d - x.k)), ap (λ (u : ℕ). 2 ^ (d - x.k) * u) x.path) in
      let cy : 2 ^ (d - y.k) + y.c % 2 ^ (d - y.k) ≡ y.c =
        omega (arith, div-add-mod y.c (2 ^ (d - y.k)), ap (λ (u : ℕ). 2 ^ (d - y.k) * u) y.path) in
      (level, omega (arith, cx, cy, width, rest))

  -- A node is not below its children, and no node is below both.
  pub root-apart :
      (l b bit : ℕ)
      → suc l ≤ d
      → bit < 2
      → IsPath d (suc l) b
      → IsBelow l (b * 2 + bit) (address t (suc l) b)
      → ⊥
  unfolding spot
  root-apart l b bit h g p x =
      let y = spot l (b * 2 + bit) _ (omega arith) (IsPath-down d l b bit h g p) x in
      let z = spot (suc l) b (address t (suc l) b) h p (inl refl) in
      let level : y.k ≡ suc l = (one_spot l (b * 2 + bit) (suc l) b _ y z (omega arith) h).0 in
      omega (arith, level, y.within)

  pub children-apart :
      (l b ad : ℕ)
      → suc l ≤ d
      → IsPath d (suc l) b
      → IsBelow l (b * 2 + 0) ad
      → IsBelow l (b * 2 + 1) ad
      → ⊥
  children-apart l b ad h p x y =
      let u = spot l (b * 2 + 0) ad (omega arith) (IsPath-down d l b 0 h (omega arith) p) x in
      let v = spot l (b * 2 + 1) ad (omega arith) (IsPath-down d l b 1 h (omega arith) p) y in
      let (level, path) = one_spot l (b * 2 + 0) l (b * 2 + 1) ad u v (omega arith) (omega arith) in
      let same : u.c / 2 ^ (l - u.k) ≡ v.c / 2 ^ (l - v.k) =
        ap₂ (λ (c k : ℕ). c / 2 ^ (l - k)) path level in
      omega (arith, same, u.ancestor, v.ancestor)
