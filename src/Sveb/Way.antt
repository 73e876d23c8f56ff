-- ===== src/Sveb/Way.antt =====
-- The way of a key through `insert_rec` to a node without a key.
use green_hash_tree.Prelude.{
  ℕ, zero, suc, ◌+◌, ◌-◌, ◌*◌, ◌<◌, ◌≡◌, refl, inl, inr, Bool, false, arith,
}
use green_hash_tree.Prelude.Int.{int_eq}
use green_hash_tree.Sveb.{LevelInfo, Veb, max_int, table_length}
use green_hash_tree.Sveb.Layout.{Laid}
use green_hash_tree.Sveb.Cursor.{moved, down_lem}
use green_hash_tree.Sveb.Contents.{IsOrdered}
use green_hash_tree.Sveb.Descent.{Standing, child_of}
use green_hash_tree.Sveb.Subtrees.{IsPath, IsPath-down}
use green_hash_tree.Sveb.Place.{HasPlace, Placed, place_here, place_left, place_right}

module _ {myli : ℕ → LevelInfo} {d : ℕ} (t : Laid myli d 0) (roomy : ℕ → ℕ → ℕ → Bool)
    (d-lt : d < table_length) (low : (myli 0).p < table_length) where
  pub insert_rec_place :
      (fuel l b ad : ℕ) (s : Veb)
      → l < fuel
      → Standing t s.val l b ad s
      → IsPath d l b
      → IsOrdered t s.val l b
      → int_eq max_int s.key ≡ false
      → HasPlace t s.key s.val l b
      → Placed t roomy fuel l b ad s
  insert_rec_place zero l b ad s h z p o g place = elim h [ ]
  insert_rec_place (suc fuel) zero b ad s h z p o g place = elim place [ ]
  insert_rec_place (suc fuel) (suc l) b ad s h z p o g (inl (e, left, right)) =
      place_here t roomy d-lt low l b ad s z p o fuel g e left right
  insert_rec_place (suc fuel) (suc l) b ad s h z p o g (inr (inl (e, less, place))) =
      let x = down_lem t d-lt low l b 0 s z.here (omega (arith, z.inside)) (omega arith) in
      let y = child_of t l b ad 0 s z x in
      let s1 : Veb = record (moved s x.h x.bf x.anc) { level = s.level - 1 } in
      let z1 : Standing t s1.val l (b * 2 + 0) x.ad s1 = record {
        here = record {
          table = y.here.table;
          height = y.here.height;
          path = y.here.path;
          anc = y.here.anc;
        };
        inside = y.inside;
        vals = refl;
        sized = y.sized;
        long = y.long;
        known = y.known;
      } in
      let q =
        insert_rec_place fuel l (b * 2 + 0) x.ad s1 (omega arith) z1
          (IsPath-down d l b 0 z.inside (omega arith) p) o.2 g place in
      place_left t roomy d-lt low l b ad s z p o fuel e less x q
  insert_rec_place (suc fuel) (suc l) b ad s h z p o g (inr (inr (e, less, place))) =
      let x = down_lem t d-lt low l b 1 s z.here (omega (arith, z.inside)) (omega arith) in
      let y = child_of t l b ad 1 s z x in
      let s1 : Veb = record (moved s x.h x.bf x.anc) { level = s.level - 1 } in
      let z1 : Standing t s1.val l (b * 2 + 1) x.ad s1 = record {
        here = record {
          table = y.here.table;
          height = y.here.height;
          path = y.here.path;
          anc = y.here.anc;
        };
        inside = y.inside;
        vals = refl;
        sized = y.sized;
        long = y.long;
        known = y.known;
      } in
      let q =
        insert_rec_place fuel l (b * 2 + 1) x.ad s1 (omega arith) z1
          (IsPath-down d l b 1 z.inside (omega arith) p) o.3 g place in
      place_right t roomy d-lt low l b ad s z p o fuel e less x q
