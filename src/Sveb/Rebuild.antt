-- ===== src/Sveb/Rebuild.antt =====
-- `rebuild` puts the keys of `helper` in order into the subtree of a node.
use green_hash_tree.Prelude.{
  ℕ, zero, suc, ◌+◌, ◌-◌, ◌/◌, ◌^◌, ◌≤◌, ◌<◌, ◌≡◌, refl, sym, ap, ap₂, ◌∙◌, inl, inr, true, false,
  Bool-cases, List, [], ◌∷◌, ◌++◌, leb, arith,
}
use mathlib.Core.Path.{subst}
use native.Mathlib.Nat.{pow-suc}
use green_hash_tree.Prelude.Powers.{pow_pos}
use green_hash_tree.Prelude.Int.{ℤ}
use green_hash_tree.Prelude.Run.{ok}
use green_hash_tree.Sveb.{LevelInfo, Veb, max_int, table_length}
use green_hash_tree.Sveb.Layout.{Laid}
use green_hash_tree.Sveb.Table.{write-ok}
use green_hash_tree.Sveb.Cursor.{moved, read-ok}
use green_hash_tree.Sveb.Contents.{keys_below, key_of, AllBelow, AllAbove, address-lt}
use green_hash_tree.Sveb.Descent.{Standing, below_leaves, at_node}
use green_hash_tree.Sveb.Subtrees.{IsPath}
use green_hash_tree.Sveb.Written.{Written}
use green_hash_tree.Sveb.Helper.{slice, slice_middle, AllBelow-slice, AllAbove-slice, Ascends}
use green_hash_tree.Sveb.Insertion.{rebuild}
use green_hash_tree.Sveb.Parts.{after, Rebuilt, Ready, parts, Parts-At, Parts-Written}

module _ {myli : ℕ → LevelInfo} {d : ℕ} (t : Laid myli d 0) where
  module _ (d-lt : d < table_length) (low : (myli 0).p < table_length) (fuel l : ℕ)
      (ih : (b ad : ℕ) (s : Veb) → Ready t l b ad s → Rebuilt t fuel l b ad s) where
    module _ (b ad : ℕ) (s : Veb) (z : Standing t s.val (suc l) b ad s)
        (p : IsPath d (suc l) b) where
      -- A subtree for which no key is left.
      rebuild_vacant :
          s.lh ≤ s.rh_end
          → s.rh_end ≤ s.lh
          → s.rh_end ≤ s.helper_length
          → Ascends s.helper s.lh s.rh_end
          → Rebuilt t (suc fuel) (suc l) b ad s
      unfolding rebuild
      rebuild_vacant a c inside keys =
          let q =
            parts t d-lt low fuel l ih b ad s z p s.rh_end s.rh_end max_int a (omega arith) a
              (omega arith) (omega arith) (omega arith) inside keys in
          let none : s.rh_end - s.lh ≡ 0 = omega arith in
          let test : leb s.rh_end s.lh ≡ true = ground arith in
          let lt : ad < s.val_length = omega (
            arith,
            z.known (omega arith),
            address-lt t (suc l) b (omega arith) z.inside,
            z.sized,
            z.long,
          ) in
          let writes = write-ok q.left.val s.val_length ad max_int lt in
          let runs : rebuild (suc fuel) ad s
              ≡ ok (after s q.right.val (q.right.h + 1) (q.right.bf / 2) q.right.anc) =
            simp (at_node t l b ad s z, test, q.x.runs, q.left.runs, writes, q.y.runs, q.right.runs)
              refl in
          let empty : slice s.helper s.lh (s.rh_end - s.lh) ≡ [] = ap (slice s.helper s.lh) none in
          let nil : s.rh_end - s.rh_end ≡ 0 = omega arith in
          let empty' : slice s.helper s.rh_end (s.rh_end - s.rh_end) ≡ [] =
            ap (slice s.helper s.rh_end) nil in
          let all : slice s.helper s.lh (s.rh_end - s.lh)
                ++ ([] ++ slice s.helper s.rh_end (s.rh_end - s.rh_end))
              ≡ slice s.helper s.lh (s.rh_end - s.lh) =
            ap₂ (λ (xs ys : List ℤ). xs ++ ys) empty empty' ∙ sym empty in
          let below = subst (AllBelow max_int) (sym empty) tt in
          let above = subst (AllAbove max_int) (sym empty') tt in
          record {
            val = q.right.val;
            h = q.right.h + 1;
            bf = q.right.bf / 2;
            anc = q.right.anc;
            runs = runs;
            here = Parts-At t d-lt low fuel l ih b ad s z p s.rh_end s.rh_end max_int q;
            written = subst (Written t (suc l) b s.val q.right.val) all (
                Parts-Written t d-lt low fuel l ih b ad s z p s.rh_end s.rh_end max_int q below
                  above);
          }

      -- A subtree for some keys: the middle one goes to its root.
      rebuild_filled :
          s.lh < s.rh_end
          → s.rh_end ≤ s.lh + (2 ^ suc l - 1)
          → s.rh_end ≤ s.helper_length
          → Ascends s.helper s.lh s.rh_end
          → Rebuilt t (suc fuel) (suc l) b ad s
      unfolding rebuild
      rebuild_filled a c inside keys =
          let m = (s.lh + s.rh_end - 1) / 2 in
          let v = s.helper m in
          let q =
            parts t d-lt low fuel l ih b ad s z p m (m + 1) v (omega arith) (omega arith)
              (omega arith) (omega arith) (omega (arith, c, pow-suc 2 l, pow_pos l))
              (omega (arith, c, pow-suc 2 l, pow_pos l)) inside keys in
          let test : leb s.rh_end s.lh ≡ false = ground arith in
          let lt : ad < s.val_length = omega (
            arith,
            z.known (omega arith),
            address-lt t (suc l) b (omega arith) z.inside,
            z.sized,
            z.long,
          ) in
          let s1 = moved (record s { rh_end = m }) q.x.h q.x.bf q.x.anc in
          let read = read-ok s.helper s.helper_length m (omega (arith, inside)) in
          let writes = write-ok q.left.val s.val_length ad v lt in
          let runs : rebuild (suc fuel) ad s
              ≡ ok (after s q.right.val (q.right.h + 1) (q.right.bf / 2) q.right.anc) =
            simp
              (
                at_node t l b ad s z,
                test,
                q.x.runs,
                q.left.runs,
                read,
                writes,
                q.y.runs,
                q.right.runs,
              )
              refl in
          let keyed : key_of v ≡ v ∷ [] = rw (keys.keyed m (omega arith) (omega arith)) refl in
          let all : slice s.helper s.lh (m - s.lh)
                ++ (key_of v ++ slice s.helper (m + 1) (s.rh_end - (m + 1)))
              ≡ slice s.helper s.lh (s.rh_end - s.lh) =
            ap
              (λ (ks : List ℤ).
                slice s.helper s.lh (m - s.lh)
                ++ (ks ++ slice s.helper (m + 1) (s.rh_end - (m + 1))))
              keyed
            ∙ sym (slice_middle s.helper s.lh m s.rh_end (omega arith) (omega arith)) in
          let below =
            AllBelow-slice s.helper v s.lh (m - s.lh)
              (λ j e f. keys.ascending j m e (omega arith) (omega arith)) in
          let above =
            AllAbove-slice s.helper v (m + 1) (s.rh_end - (m + 1))
              (λ j e f. keys.ascending m j (omega arith) (omega arith) (omega arith)) in
          record {
            val = q.right.val;
            h = q.right.h + 1;
            bf = q.right.bf / 2;
            anc = q.right.anc;
            runs = runs;
            here = Parts-At t d-lt low fuel l ih b ad s z p m (m + 1) v q;
            written =
                subst (Written t (suc l) b s.val q.right.val) all
                  (Parts-Written t d-lt low fuel l ih b ad s z p m (m + 1) v q below above);
          }

  -- Below the leaves there is room for no key.
  rebuild_below : (fuel b ad : ℕ) (s : Veb) → Ready t 0 b ad s → Rebuilt t (suc fuel) 0 b ad s
  unfolding rebuild keys_below
  rebuild_below fuel b ad s r =
      let same : s.lh ≡ s.rh_end = omega (arith, r.order, r.fits) in
      let none : s.rh_end - s.lh ≡ 0 = omega arith in
      let z = r.standing in
      record {
        val = s.val;
        h = s.h;
        bf = s.bf;
        anc = s.anc;
        runs = rw (below_leaves t b ad s z) (ap (λ (x : ℕ). ok (record s { lh = x })) same);
        here = record {
          table = z.here.table;
          height = z.here.height;
          path = z.here.path;
          anc = z.here.anc;
        };
        written = record {
          others = λ i x. refl;
          keys_eq = sym (ap (slice s.helper s.lh) none);
          ordered = tt;
        };
      }

  -- At a node of a tree of fewer than 40 levels, with keys from `helper[lh]` to `helper[rh]` that go up
  -- and are not more than the nodes of its subtree, and with fuel for the levels, `rebuild` ends with no
  -- access out of bounds, at the node where it began, with `lh` behind `rh`. The subtree then is a search
  -- tree with those keys, in order, and no value elsewhere in the tree has changed.
  pub rebuild_lem :
      (d-lt : d < table_length) (low : (myli 0).p < table_length) (fuel l b ad : ℕ) (s : Veb)
      → l < fuel
      → Ready t l b ad s
      → Rebuilt t fuel l b ad s
  rebuild_lem d-lt low zero l b ad s h r = elim h [ ]
  rebuild_lem d-lt low (suc fuel) zero b ad s h r = rebuild_below fuel b ad s r
  rebuild_lem d-lt low (suc fuel) (suc l) b ad s h r =
      let ih : (b ad : ℕ) (s : Veb) → Ready t l b ad s → Rebuilt t fuel l b ad s =
        (λ b ad s. rebuild_lem d-lt low fuel l b ad s (omega arith)) in
      elim (Bool-cases (leb s.rh_end s.lh)) [
        | inl e ↦
            rebuild_vacant d-lt low fuel l ih b ad s r.standing r.path r.order (ground arith)
              r.inside r.keys
        | inr e ↦
            rebuild_filled d-lt low fuel l ih b ad s r.standing r.path (ground arith) r.fits
              r.inside r.keys
      ]
