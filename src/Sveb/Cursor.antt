-- ===== src/Sveb/Cursor.antt =====
-- Where the program stands in the tree: the height `h`, the path `bf` as binary digits below a 1, and in
-- `anc` the addresses of the nodes on the path. `down` keeps them, and gives the address of the child.
use Prim.Native.Nat.{bit_and}
use green_hash_tree.Prelude.{
  ℕ, zero, suc, ◌+◌, ◌-◌, ◌*◌, ◌/◌, ◌%◌, ◌^◌, ◌≤◌, ◌<◌, ◌≡◌, refl, sym, ap, ap₂, ◌∙◌, inl, inr,
  true, Bool-cases, ltb, ◌==◌, eq_of_==, update, update_self, update_ne, arith,
}
use green_hash_tree.Prelude.Powers.{pow_pos, div-pow_add, mod-pow_add}
use green_hash_tree.Prelude.Run.{ok}
use green_hash_tree.Bits.{bit_and-ones}
use native.Mathlib.Nat.{mod-lt, pow-suc, pow-zero}
use green_hash_tree.Sveb.{LevelInfo, Veb, table_length, read, to_root, down, up}
use green_hash_tree.Sveb.Layout.{Laid, place, place-root, Level}
use green_hash_tree.Sveb.Levels.{Level_lem}
use green_hash_tree.Sveb.Table.{write-ok}

pub read-ok {ℓ} : {A : Type ℓ} (a : ℕ → A) (n i : ℕ) → i < n → read a n i ≡ ok (a i)
read-ok a n i h = let e : ltb i n ≡ true = ground arith in rw e refl

-- The path of a node's ancestor on the level `k`.
pub path-up : (l b bit k : ℕ) → l < k → bit < 2 → (b * 2 + bit) / 2 ^ (k - l) ≡ b / 2 ^ (k - suc l)
path-up l b bit k h g =
    let sum : 1 + (k - suc l) ≡ k - l = omega arith in
    let two : 2 ^ 1 ≡ 2 = omega (arith, pow-suc 2 0, pow-zero 2) in
    let half : (b * 2 + bit) / 2 ≡ b = omega arith in
    ap (λ (t : ℕ). (b * 2 + bit) / 2 ^ t) (sym sum)
    ∙ div-pow_add (b * 2 + bit) 1 (k - suc l)
    ∙ ap (λ (t : ℕ). (b * 2 + bit) / t / 2 ^ (k - suc l)) two
    ∙ ap (λ (t : ℕ). t / 2 ^ (k - suc l)) half

-- The state after a step to another node.
abbrev pub moved : Veb → (h bf : ℕ) → (ℕ → ℕ) → Veb
moved s h bf anc = record s { h = h; bf = bf; anc = anc }

module _ {myli : ℕ → LevelInfo} {d : ℕ} (t : Laid myli d 0) where
  -- The address of the node with the path `b` on the level `l`.
  abbrev pub address : (l b : ℕ) → ℕ
  address l b = place t l (b % 2 ^ (d - l))

  pub record At (l b : ℕ) (s : Veb) : Type 0 where
    pub table : s.myli ≡ myli
    pub height : s.h ≡ l
    pub path : s.bf ≡ b
    pub anc : (k : ℕ) → l ≤ k → 0 < k → k ≤ d → s.anc k ≡ address k (b / 2 ^ (k - l))

  -- The address of a child, from that of the ancestor that the table names.
  pub address-down :
      (l b bit : ℕ)
      → 0 < l
      → l < d
      → bit < 2
      → let b' = b * 2 + bit in
        let li = myli l in
        address l b' ≡ li.bs * bit_and b' li.ts + li.ts + address li.p (b / 2 ^ (li.p - suc l))
  address-down l b bit pos lt h =
      let b' = b * 2 + bit in
      let li = myli l in
      let z : Level t l = Level_lem t l pos lt in
      let m = li.p - l in
      let n = d - li.p in
      let sum : m + n ≡ d - l = omega (arith, z.above, z.within) in
      let low : b' % 2 ^ (d - l) % 2 ^ m ≡ b' % 2 ^ m =
        ap (λ (t : ℕ). b' % 2 ^ t % 2 ^ m) (sym sum) ∙ (mod-pow_add b' m n).1 in
      let high : b' % 2 ^ (d - l) / 2 ^ m ≡ b' / 2 ^ m % 2 ^ n =
        ap (λ (t : ℕ). b' % 2 ^ t / 2 ^ m) (sym sum) ∙ (mod-pow_add b' m n).0 in
      let up : b' / 2 ^ m ≡ b / 2 ^ (li.p - suc l) = path-up l b bit li.p z.above h in
      let mask : bit_and b' li.ts ≡ b' % 2 ^ m = ap (bit_and b') z.mask ∙ bit_and-ones m b' in
      omega (
        arith,
        z.address (b' % 2 ^ (d - l)) (mod-lt b' (pow_pos (d - l))),
        ap (λ (t : ℕ). li.bs * t) low,
        ap (λ (t : ℕ). li.bs * t) mask,
        ap (place t li.p) high,
        ap (λ (x : ℕ). place t li.p (x % 2 ^ n)) up,
      )

-- The address that `down` computes, with the entry of the table for the child's level.
abbrev child_address : LevelInfo → (bf bit : ℕ) → (ℕ → ℕ) → ℕ
child_address li bf bit anc = li.bs * bit_and (bf * 2 + bit) li.ts + li.ts + anc li.p

down_run :
    (bit : ℕ) (s : Veb)
    → s.h - 1 < table_length
    → (s.myli (s.h - 1)).p < table_length
    → let ad = child_address (s.myli (s.h - 1)) s.bf bit s.anc in
      down bit s ≡ ok (ad, moved s (s.h - 1) (s.bf * 2 + bit) (update s.anc (s.h - 1) ad))
unfolding down
down_run bit s a b =
    let ad = child_address (s.myli (s.h - 1)) s.bf bit s.anc in
    simp
      (
        read-ok s.myli table_length (s.h - 1) a,
        read-ok s.anc table_length (s.myli (s.h - 1)).p b,
        write-ok s.anc table_length (s.h - 1) ad a,
      )
      refl

module _ {myli : ℕ → LevelInfo} {d : ℕ} (t : Laid myli d 0) where
  -- The step to a child.
  pub record Down (l b bit : ℕ) (s : Veb) : Type 0 where
    pub ad : ℕ
    pub h : ℕ
    pub bf : ℕ
    pub anc : ℕ → ℕ
    pub runs : down bit s ≡ ok (ad, moved s h bf anc)
    pub there : At t l (b * 2 + bit) (moved s h bf anc)
    pub known : 0 < l → ad ≡ address t l (b * 2 + bit)

  module _ (d-lt : d < table_length) (low : (myli 0).p < table_length) where
    p-lt : (l : ℕ) → l < d → (myli l).p < table_length
    p-lt zero h = low
    p-lt (suc l) h =
        let z : Level t (suc l) = Level_lem t (suc l) (omega arith) h in omega (arith, z.within)

    pub down_lem : (l b bit : ℕ) (s : Veb) → At t (suc l) b s → l < d → bit < 2 → Down l b bit s
    down_lem l b bit s z lt h =
        let height : s.h - 1 ≡ l = omega (arith, z.height) in
        let entry : s.myli (s.h - 1) ≡ myli l =
          ap (λ (f : ℕ → LevelInfo). f (s.h - 1)) z.table ∙ ap myli height in
        let ad = child_address (s.myli (s.h - 1)) s.bf bit s.anc in
        let anc' = update s.anc (s.h - 1) ad in
        let known : 0 < l → ad ≡ address t l (b * 2 + bit) = (λ pos.
          let y : Level t l = Level_lem t l pos lt in
          ap₂ (λ (li : LevelInfo) (bf : ℕ). child_address li bf bit s.anc) entry z.path
          ∙ ap (λ (x : ℕ). (myli l).bs * bit_and (b * 2 + bit) (myli l).ts + (myli l).ts + x)
              (z.anc (myli l).p y.above (omega (arith, y.above)) y.within)
          ∙ sym (address-down t l b bit pos lt h)) in
        let anc-eq : (k : ℕ)
            → l ≤ k
            → 0 < k
            → k ≤ d
            → anc' k ≡ address t k ((b * 2 + bit) / 2 ^ (k - l)) =
          (λ k a pos le. elim (Bool-cases (s.h - 1 == k)) [
            | inl e ↦
                let same : l ≡ k = sym height ∙ eq_of_== (s.h - 1) k e in
                let none : k - l ≡ 0 = omega arith in
                let whole : (b * 2 + bit) / 2 ^ (k - l) ≡ b * 2 + bit =
                  ap (λ (x : ℕ). (b * 2 + bit) / 2 ^ x) none ∙ omega (arith, pow-zero 2) in
                let here : anc' k ≡ ad = rw e refl in
                here
                ∙ known (omega arith)
                ∙ ap (λ (x : ℕ). address t x (b * 2 + bit)) same
                ∙ ap (address t k) (sym whole)
            | inr e ↦
                let other : l < k = ground (arith, height) in
                update_ne s.anc (s.h - 1) ad e
                ∙ z.anc k other pos le
                ∙ ap (address t k) (sym (path-up l b bit k other h))
          ]) in
        record {
          ad = ad;
          h = s.h - 1;
          bf = s.bf * 2 + bit;
          anc = anc';
          runs = down_run bit s (omega (arith, height)) (rw entry (p-lt l lt));
          there = record {
            table = z.table;
            height = height;
            path = omega (arith, z.path);
            anc = anc-eq;
          };
          known = known;
        }

  -- The step back.
  pub up_lem : (l b bit : ℕ) (s : Veb) → At t l (b * 2 + bit) s → bit < 2 → At t (suc l) b (up s)
  up_lem l b bit s z h = record {
    table = z.table;
    height = omega (arith, z.height);
    path = omega (arith, z.path);
    anc = λ k a pos le. z.anc k (omega arith) pos le ∙ ap (address t k) (path-up l b bit k a h);
  }

  -- The root.
  pub to_root_lem :
      (s : Veb)
      → s.myli ≡ myli
      → s.max_dep ≡ d
      → d < table_length
      → (anc : ℕ → ℕ) × (to_root s ≡ ok (moved s s.max_dep 1 anc))
        × At t d 1 (moved s s.max_dep 1 anc)
  unfolding to_root
  to_root_lem s table e lt =
      let here : (k : ℕ)
          → d ≤ k
          → 0 < k
          → k ≤ d
          → update s.anc s.max_dep 0 k ≡ address t k (1 / 2 ^ (k - d)) =
        (λ k a pos le.
          let same : s.max_dep ≡ k = omega arith in
          let none : d - k ≡ 0 = omega arith in
          let one : 1 / 2 ^ (k - d) % 2 ^ (d - k) ≡ 0 =
            ap (λ (x : ℕ). 1 / 2 ^ (k - d) % 2 ^ x) none ∙ omega arith in
          let root : d ≡ k = omega arith in
          ap (λ (x : ℕ). update s.anc x 0 k) same
          ∙ update_self s.anc k 0
          ∙ sym (place-root t)
          ∙ ap (λ (x : ℕ). place t x 0) root
          ∙ ap (place t k) (sym one)) in
      (
        update s.anc s.max_dep 0,
        rw (write-ok s.anc table_length s.max_dep 0 (omega arith)) refl,
        record { table = table; height = e; path = refl; anc = here },
      )

  pub address-root : address t d 1 ≡ 0
  address-root =
      let none : d - d ≡ 0 = omega arith in
      ap (λ (x : ℕ). place t d (1 % 2 ^ x)) none ∙ place-root t
