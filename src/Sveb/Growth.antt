-- ===== src/Sveb/Growth.antt =====
-- The growth of a tree by one level, with the keys of `helper`.
use green_hash_tree.Prelude.{
  ℕ, suc, ◌+◌, ◌-◌, ◌*◌, ◌/◌, ◌^◌, ◌≤◌, ◌<◌, ◌≡◌, refl, sym, ap, inl, inr, true, Bool-cases, leb,
  ltb, arith,
}
use native.Mathlib.Nat.{pow-suc, pow-le-pow_right}
use green_hash_tree.Prelude.Powers.{pow_pos}
use green_hash_tree.Prelude.Int.{ℤ}
use green_hash_tree.Prelude.Run.{Gives, gives, Gives-bind}
use green_hash_tree.Msgq.{int_max}
use green_hash_tree.Sveb.{Veb, max_int, table_length}
use green_hash_tree.Sveb.Layout.{Laid}
use green_hash_tree.Sveb.Cursor.{address-root, moved, to_root_lem, At}
use green_hash_tree.Sveb.Lookup.{IsPerfect, keys_of, IsSearchTree}
use green_hash_tree.Sveb.Start.{initialize_depth_lem}
use green_hash_tree.Sveb.Helper.{slice, Ascends}
use green_hash_tree.Sveb.Parts.{Ready, Rebuilt, after}
use green_hash_tree.Sveb.Rebuild.{rebuild_lem}
use green_hash_tree.Sveb.Insertion.{resize}

-- A power of two that is an `int` has few digits.
few_levels : (k : ℕ) → 2 ^ k ≤ int_max → k < 31
few_levels k h = elim (Bool-cases (ltb k 31)) [
  | inl e ↦ ground arith
  | inr e ↦
      let more : 2 ^ 31 ≤ 2 ^ k =
        pow-le-pow_right {n = 2} (omega arith) {i = 31} {j = k} (ground arith) in
      absurd (omega arith)
]

-- A tree that was built from the keys of the `helper` of `s`.
pub record Grown (s s' : Veb) : Type 0 where
  pub perfect : IsPerfect s'
  pub twice : s'.size ≡ s.size * 2 + 1
  pub ordered : IsSearchTree s' perfect
  pub keys_eq : keys_of s' perfect ≡ slice s.helper s.lh (s.rh_end - s.lh)
  pub room : s'.helper_length ≡ 2 * s'.size

-- The call of `rebuild` at the root of an empty tree.
root_Ready :
    (l : ℕ) (s : Veb) (t : Laid s.myli (suc l) 0)
    → At t (suc l) 1 s
    → s.size ≡ 2 ^ suc l - 1
    → s.size ≤ s.val_length
    → s.lh ≤ s.rh_end
    → s.rh_end ≤ s.lh + (2 ^ suc l - 1)
    → s.rh_end ≤ s.helper_length
    → Ascends s.helper s.lh s.rh_end
    → Ready t (suc l) 1 0 s
root_Ready l s t at sized long order fits inside keys =
    let none : suc l - suc l ≡ 0 = omega arith in
    record {
      standing = record {
        here = at;
        inside = omega arith;
        vals = refl;
        sized = sized;
        long = long;
        known = λ h. sym (address-root t);
      };
      path = ap (λ (x : ℕ). 1 / 2 ^ x) none;
      order = order;
      fits = fits;
      inside = inside;
      keys = keys;
    }

-- In a tree with its levels laid out, with keys from `helper[lh]` to `helper[rh]` that go up and are at
-- most twice as many as its nodes, and one more, and with a size that stays an `int`: the growth ends,
-- with a search tree of twice the nodes and one more that has those keys, in order, and with a `helper`
-- of twice its size.
pub resize_lem :
    (garbage : ℕ → ℤ) (s : Veb)
    → IsPerfect s
    → (s.size + 1) * 2 ≤ int_max
    → s.lh ≤ s.rh_end
    → s.rh_end ≤ s.lh + (s.size * 2 + 1)
    → s.rh_end ≤ s.helper_length
    → Ascends s.helper s.lh s.rh_end
    → Gives (Grown s) (resize garbage s)
unfolding resize
resize_lem garbage s z small order fits inside keys =
    let l = suc z.levels in
    let size = (s.size + 1) * 2 - 1 in
    let whole : size + 1 ≡ 2 ^ suc l = omega (arith, z.sized, pow-suc 2 l, pow_pos l) in
    let few : suc l < 31 = few_levels (suc l) (omega (arith, whole)) in
    let test : leb ((s.size + 1) * 2) int_max ≡ true = ground arith in
    rw test (
      Gives-bind (initialize_depth_lem l size (record s { size = size }) whole (omega (arith, few)))
        λ s1 x.
          let blank : Veb = record s {
            size = size;
            max_dep = suc l;
            myli = x.myli;
            val = λ _. max_int;
            val_length = size + 2;
          } in
          let few' : suc l < table_length = omega (arith, few) in
          let sized : size ≡ 2 ^ suc l - 1 = omega (arith, whole) in
          let (anc, begun, at) = to_root_lem x.laid blank refl refl few' in
          let begin = moved blank (suc l) 1 anc in
          let r : Rebuilt x.laid (suc (suc l)) (suc l) 1 0 begin =
            rebuild_lem x.laid few' x.low (suc (suc l)) (suc l) 1 0 begin (omega arith) (
              root_Ready l begin x.laid at sized (omega arith) order
                (omega (arith, fits, sized, whole)) inside keys) in
          let fuel : suc l + 1 ≡ suc (suc l) = omega arith in
          let perfect : IsPerfect (record (after begin r.val r.h r.bf r.anc) {
            helper = garbage;
            helper_length = 2 * size;
          }) =
            record {
              levels = l;
              deep = refl;
              laid = x.laid;
              few = few';
              low = x.low;
              sized = sized;
              long = omega arith;
            } in
          rw (x.state, begun, fuel, r.runs)
            (gives (record {
              perfect = perfect;
              twice = omega arith;
              ordered = r.written.ordered;
              keys_eq = r.written.keys_eq;
              room = refl;
            })))
