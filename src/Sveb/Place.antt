-- ===== src/Sveb/Place.antt =====
-- `insert_rec` for a key whose way ends at a node without a key.
use green_hash_tree.Prelude.{
  ℕ, zero, suc, ◌+◌, ◌-◌, ◌*◌, ◌/◌, ◌≤◌, ◌<◌, ◌≡◌, refl, sym, ap, ap₂, ◌∙◌, ◌⊎◌, inl, Bool, true,
  false, List, [], ◌∷◌, ◌++◌, update, update_self, update_ne, arith,
}
use mathlib.Core.Path.{subst}
use green_hash_tree.Prelude.Int.{ℤ, int_eq, int_lt, int_lt_asym}
use green_hash_tree.Prelude.Run.{ok}
use green_hash_tree.Sveb.{LevelInfo, Veb, max_int, table_length}
use green_hash_tree.Sveb.Layout.{Laid}
use green_hash_tree.Sveb.Table.{write-ok}
use green_hash_tree.Sveb.Cursor.{address, At, moved, Down, up_lem}
use green_hash_tree.Sveb.Contents.{keys_below, IsOrdered, AllBelow, AllAbove, key_of, address-lt}
use green_hash_tree.Sveb.Descent.{Standing, at_node, val_at_node}
use green_hash_tree.Sveb.Subtrees.{IsPath, IsBelow, root-apart}
use green_hash_tree.Sveb.Written.{Written, apart, keys_below_same, IsOrdered-same}
use green_hash_tree.Sveb.Sorted.{put_key, Written-left, Written-right}
use green_hash_tree.Sveb.Insertion.{insert_rec}

-- The state after the insertion.
abbrev pub placed : Veb → (ℕ → ℤ) → (h bf : ℕ) → (ℕ → ℕ) → (level : ℕ) → Veb
placed s val h bf anc level = record s { val = val; h = h; bf = bf; anc = anc; level = level }

module _ {myli : ℕ → LevelInfo} {d : ℕ} (t : Laid myli d 0) where
  -- The way of the key from a node ends at a node that has no key, and none below it.
  abbrev pub HasPlace : ℤ → (ℕ → ℤ) → (l b : ℕ) → Type 0
  HasPlace key val zero b = ⊥
  HasPlace key val (suc l) b =
      ((int_eq max_int (val (address t (suc l) b)) ≡ true)
        × (keys_below t val l (b * 2 + 0) ≡ [])
        × (keys_below t val l (b * 2 + 1) ≡ []))
      ⊎ (((int_eq max_int (val (address t (suc l) b)) ≡ false)
            × (int_lt key (val (address t (suc l) b)) ≡ true)
            × HasPlace key val l (b * 2 + 0))
          ⊎ ((int_eq max_int (val (address t (suc l) b)) ≡ false)
              × (int_lt (val (address t (suc l) b)) key ≡ true)
              × HasPlace key val l (b * 2 + 1)))

  -- The key has been written to a node without one.
  pub Written-vacant :
      (l b : ℕ) (key : ℤ) (val : ℕ → ℤ)
      → suc l ≤ d
      → IsPath d (suc l) b
      → IsOrdered t val (suc l) b
      → int_eq max_int key ≡ false
      → int_eq max_int (val (address t (suc l) b)) ≡ true
      → keys_below t val l (b * 2 + 0) ≡ []
      → keys_below t val l (b * 2 + 1) ≡ []
      → Written t
          (suc l)
          b
          val
          (update val (address t (suc l) b) key)
          (put_key key (keys_below t val (suc l) b))
  unfolding keys_below
  Written-vacant l b key val h p o g e left right =
      let ad = address t (suc l) b in
      let val1 = update val ad key in
      let kept : (bit : ℕ) → bit < 2 → (i : ℕ) → IsBelow t l (b * 2 + bit) i → val1 i ≡ val i =
        (λ bit two i y. update_ne val ad key (
          apart ad i
            (λ q. root-apart t l b bit h two p (subst (IsBelow t l (b * 2 + bit)) q y)))) in
      let here : val1 ad ≡ key = update_self val ad key in
      let left' = keys_below_same t val val1 l (b * 2 + 0) (kept 0 (omega arith)) ∙ left in
      let right' = keys_below_same t val val1 l (b * 2 + 1) (kept 1 (omega arith)) ∙ right in
      let one : key_of key ≡ key ∷ [] = rw g refl in
      let none : key_of (val ad) ≡ [] = rw e refl in
      record {
        others = λ i outside. update_ne val ad key (apart ad i (λ q. outside (inl q)));
        keys_eq =
            ap₂ (λ (us vs : List ℤ). us ++ vs) left'
              (ap₂ (λ (us vs : List ℤ). us ++ vs) (ap key_of here ∙ one) right')
            ∙ ap (put_key key) (
                sym (
                  ap₂ (λ (us vs : List ℤ). us ++ vs) left
                    (ap₂ (λ (us vs : List ℤ). us ++ vs) none right)));
        ordered = (
          subst (AllBelow (val1 ad)) (sym left') tt,
          subst (AllAbove (val1 ad)) (sym right') tt,
          IsOrdered-same t val val1 l (b * 2 + 0) (kept 0 (omega arith)) o.2,
          IsOrdered-same t val val1 l (b * 2 + 1) (kept 1 (omega arith)) o.3,
        );
      }

  module _ (roomy : ℕ → ℕ → ℕ → Bool) where
    pub record Placed (fuel l b ad : ℕ) (s : Veb) : Type 0 where
      pub val : ℕ → ℤ
      pub h : ℕ
      pub bf : ℕ
      pub anc : ℕ → ℕ
      pub level : ℕ
      pub runs : insert_rec roomy fuel ad s ≡ ok (0, placed s val h bf anc level)
      pub here : At t l b (placed s val h bf anc level)
      pub written : Written t l b s.val val (put_key s.key (keys_below t s.val l b))

    module _ (d-lt : d < table_length) (low : (myli 0).p < table_length) (l b ad : ℕ) (s : Veb)
        (z : Standing t s.val (suc l) b ad s) (p : IsPath d (suc l) b)
        (o : IsOrdered t s.val (suc l) b) (fuel : ℕ) where
      pub place_here :
          int_eq max_int s.key ≡ false
          → int_eq max_int (s.val (address t (suc l) b)) ≡ true
          → keys_below t s.val l (b * 2 + 0) ≡ []
          → keys_below t s.val l (b * 2 + 1) ≡ []
          → Placed (suc fuel) (suc l) b ad s
      unfolding insert_rec
      place_here g e left right =
          let known = z.known (omega arith) in
          let lt : ad < s.val_length =
            omega (arith, known, address-lt t (suc l) b (omega arith) z.inside, z.sized, z.long) in
          let writes = write-ok s.val s.val_length ad s.key lt in
          record {
            val = update s.val ad s.key;
            h = s.h;
            bf = s.bf;
            anc = s.anc;
            level = s.level;
            runs = simp (at_node t l b ad s z, val_at_node t l b ad s z, e, writes) refl;
            here = record {
              table = z.here.table;
              height = z.here.height;
              path = z.here.path;
              anc = z.here.anc;
            };
            written =
                subst
                  (λ (a : ℕ).
                    Written t (suc l) b s.val (update s.val a s.key)
                      (put_key s.key (keys_below t s.val (suc l) b)))
                  (sym known) (Written-vacant l b s.key s.val z.inside p o g e left right);
          }

      -- The state in which `insert_rec` goes on at a child.
      abbrev pub at_child : {bit : ℕ} → Down t l b bit s → Veb
      at_child x = record (moved s x.h x.bf x.anc) { level = s.level - 1 }

      pub place_left :
          int_eq max_int (s.val (address t (suc l) b)) ≡ false
          → int_lt s.key (s.val (address t (suc l) b)) ≡ true
          → (x : Down t l b 0 s) → Placed fuel l (b * 2 + 0) x.ad (at_child x)
          → Placed (suc fuel) (suc l) b ad s
      unfolding insert_rec
      place_left e g x r =
          let back =
            up_lem t l b 0 (placed (at_child x) r.val r.h r.bf r.anc r.level) r.here
              (omega arith) in
          record {
            val = r.val;
            h = r.h + 1;
            bf = r.bf / 2;
            anc = r.anc;
            level = r.level + 1;
            runs = simp (at_node t l b ad s z, val_at_node t l b ad s z, e, g, x.runs, r.runs) refl;
            here = record {
              table = back.table;
              height = back.height;
              path = back.path;
              anc = back.anc;
            };
            written = Written-left t l b s.key s.val r.val z.inside p r.written o e g;
          }

      pub place_right :
          int_eq max_int (s.val (address t (suc l) b)) ≡ false
          → int_lt (s.val (address t (suc l) b)) s.key ≡ true
          → (x : Down t l b 1 s) → Placed fuel l (b * 2 + 1) x.ad (at_child x)
          → Placed (suc fuel) (suc l) b ad s
      unfolding insert_rec
      place_right e g x r =
          let back =
            up_lem t l b 1 (placed (at_child x) r.val r.h r.bf r.anc r.level) r.here
              (omega arith) in
          record {
            val = r.val;
            h = r.h + 1;
            bf = r.bf / 2;
            anc = r.anc;
            level = r.level + 1;
            runs =
                simp
                  (
                    at_node t l b ad s z,
                    val_at_node t l b ad s z,
                    e,
                    int_lt_asym (s.val (address t (suc l) b)) s.key g,
                    g,
                    x.runs,
                    r.runs,
                  )
                  refl;
            here = record {
              table = back.table;
              height = back.height;
              path = back.path;
              anc = back.anc;
            };
            written = Written-right t l b s.key s.val r.val z.inside p r.written o e g;
          }
