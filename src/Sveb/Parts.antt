-- ===== src/Sveb/Parts.antt =====
-- What `rebuild` asks for and leaves, and its two calls for the children of a node.
use green_hash_tree.Prelude.{
  ℕ, suc, ◌+◌, ◌-◌, ◌*◌, ◌/◌, ◌^◌, ◌≤◌, ◌<◌, ◌≡◌, refl, ◌++◌, update, arith,
}
use mathlib.Core.Path.{subst}
use green_hash_tree.Prelude.Int.{ℤ}
use green_hash_tree.Prelude.Run.{ok}
use green_hash_tree.Sveb.{LevelInfo, Veb, table_length}
use green_hash_tree.Sveb.Layout.{Laid}
use green_hash_tree.Sveb.Cursor.{At, moved, Down, down_lem, up_lem}
use green_hash_tree.Sveb.Contents.{key_of, AllBelow, AllAbove}
use green_hash_tree.Sveb.Descent.{Standing, child_of}
use green_hash_tree.Sveb.Subtrees.{IsPath, IsPath-down}
use green_hash_tree.Sveb.Written.{Written, Written-node}
use green_hash_tree.Sveb.Helper.{slice, Ascends, Ascends-part}
use green_hash_tree.Sveb.Insertion.{rebuild}

-- The state after `rebuild`, which has taken all keys up to `rh`.
abbrev pub after : Veb → (ℕ → ℤ) → (h bf : ℕ) → (ℕ → ℕ) → Veb
after s val h bf anc = record s { val = val; h = h; bf = bf; anc = anc; lh = s.rh_end }

module _ {myli : ℕ → LevelInfo} {d : ℕ} (t : Laid myli d 0) where
  -- `rebuild` at a node ends, with the keys of `helper` from `lh` to `rh` below that node.
  pub record Rebuilt (fuel l b ad : ℕ) (s : Veb) : Type 0 where
    pub val : ℕ → ℤ
    pub h : ℕ
    pub bf : ℕ
    pub anc : ℕ → ℕ
    pub runs : rebuild fuel ad s ≡ ok (after s val h bf anc)
    pub here : At t l b (after s val h bf anc)
    pub written : Written t l b s.val val (slice s.helper s.lh (s.rh_end - s.lh))

  -- What `rebuild` asks for: the keys go up and there is room for them.
  pub record Ready (l b ad : ℕ) (s : Veb) : Type 0 where
    pub standing : Standing t s.val l b ad s
    pub path : IsPath d l b
    pub order : s.lh ≤ s.rh_end
    pub fits : s.rh_end ≤ s.lh + (2 ^ l - 1)
    pub inside : s.rh_end ≤ s.helper_length
    pub keys : Ascends s.helper s.lh s.rh_end

  module _ (d-lt : d < table_length) (low : (myli 0).p < table_length) (fuel l : ℕ)
      (ih : (b ad : ℕ) (s : Veb) → Ready l b ad s → Rebuilt fuel l b ad s) where
    module _ (b ad : ℕ) (s : Veb) (z : Standing t s.val (suc l) b ad s)
        (p : IsPath d (suc l) b) where
      -- The two calls for the children, with the key `v` for the node: the keys up to `mid` go to the
      -- left, those from `next` on to the right.
      pub record Parts (mid next : ℕ) (v : ℤ) : Type 0 where
        pub x : Down t l b 0 (record s { rh_end = mid })
        pub left :
            Rebuilt fuel l (b * 2 + 0) x.ad (moved (record s { rh_end = mid }) x.h x.bf x.anc)
        pub y : Down t l b 1 (record s {
          val = update left.val ad v;
          h = left.h + 1;
          bf = left.bf / 2;
          anc = left.anc;
          lh = next;
        })
        pub right : Rebuilt fuel l (b * 2 + 1) y.ad (
            moved
              (record s {
                val = update left.val ad v;
                h = left.h + 1;
                bf = left.bf / 2;
                anc = left.anc;
                lh = next;
              })
              y.h
              y.bf
              y.anc)

      pub parts :
          (mid next : ℕ) (v : ℤ)
          → s.lh ≤ mid
          → mid ≤ s.rh_end
          → s.lh ≤ next
          → next ≤ s.rh_end
          → mid ≤ s.lh + (2 ^ l - 1)
          → s.rh_end ≤ next + (2 ^ l - 1)
          → s.rh_end ≤ s.helper_length
          → Ascends s.helper s.lh s.rh_end
          → Parts mid next v
      parts mid next v a1 a2 a3 a4 f1 f2 inside keys =
          let s0 : Veb = record s { rh_end = mid } in
          let at0 : At t (suc l) b s0 = record {
            table = z.here.table;
            height = z.here.height;
            path = z.here.path;
            anc = z.here.anc;
          } in
          let z0 : Standing t s.val (suc l) b ad s0 = record {
            here = at0;
            inside = z.inside;
            vals = refl;
            sized = z.sized;
            long = z.long;
            known = z.known;
          } in
          let x = down_lem t d-lt low l b 0 s0 at0 (omega (arith, z.inside)) (omega arith) in
          let s1 = moved s0 x.h x.bf x.anc in
          let left = ih (b * 2 + 0) x.ad s1 (record {
            standing = child_of t l b ad 0 s0 z0 x;
            path = IsPath-down d l b 0 z.inside (omega arith) p;
            order = a1;
            fits = f1;
            inside = omega (arith, inside, a2);
            keys = Ascends-part s.helper s.lh s.rh_end s.lh mid (omega arith) a2 keys;
          }) in
          let s4 : Veb = record s {
            val = update left.val ad v;
            h = left.h + 1;
            bf = left.bf / 2;
            anc = left.anc;
            lh = next;
          } in
          let back =
            up_lem t l b 0 (after s1 left.val left.h left.bf left.anc) left.here (omega arith) in
          let at4 : At t (suc l) b s4 = record {
            table = back.table;
            height = back.height;
            path = back.path;
            anc = back.anc;
          } in
          let z4 : Standing t s4.val (suc l) b ad s4 = record {
            here = at4;
            inside = z.inside;
            vals = refl;
            sized = z.sized;
            long = z.long;
            known = z.known;
          } in
          let y = down_lem t d-lt low l b 1 s4 at4 (omega (arith, z.inside)) (omega arith) in
          let right = ih (b * 2 + 1) y.ad (moved s4 y.h y.bf y.anc) (record {
            standing = child_of t l b ad 1 s4 z4 y;
            path = IsPath-down d l b 1 z.inside (omega arith) p;
            order = a4;
            fits = f2;
            inside = inside;
            keys = Ascends-part s.helper s.lh s.rh_end next s.rh_end a3 (omega arith) keys;
          }) in
          record { x = x; left = left; y = y; right = right }

      pub Parts-At :
          (mid next : ℕ) (v : ℤ) (q : Parts mid next v)
          → At t (suc l) b (after s q.right.val (q.right.h + 1) (q.right.bf / 2) q.right.anc)
      Parts-At mid next v q =
          let s4 : Veb = record s {
            val = update q.left.val ad v;
            h = q.left.h + 1;
            bf = q.left.bf / 2;
            anc = q.left.anc;
            lh = next;
          } in
          let s5 = moved s4 q.y.h q.y.bf q.y.anc in
          let back =
            up_lem t l b 1 (after s5 q.right.val q.right.h q.right.bf q.right.anc) q.right.here
              (omega arith) in
          record { table = back.table; height = back.height; path = back.path; anc = back.anc }

      pub Parts-Written :
          (mid next : ℕ) (v : ℤ) (q : Parts mid next v)
          → AllBelow v (slice s.helper s.lh (mid - s.lh))
          → AllAbove v (slice s.helper next (s.rh_end - next))
          → Written t (suc l) b s.val q.right.val (
              slice s.helper s.lh (mid - s.lh)
              ++ (key_of v ++ slice s.helper next (s.rh_end - next)))
      Parts-Written mid next v q below above =
          let right =
            subst
              (λ (a : ℕ).
                Written t l (b * 2 + 1) (update q.left.val a v) q.right.val
                  (slice s.helper next (s.rh_end - next)))
              (z.known (omega arith)) q.right.written in
          Written-node t l b v _ _ s.val q.left.val q.right.val z.inside p q.left.written right
            below above
