-- ===== src/Sveb/Descent.antt =====
-- The loop of `search` below a node: where it ends, and that it ends.
use green_hash_tree.Prelude.{
  ℕ, zero, suc, ◌+◌, ◌-◌, ◌*◌, ◌^◌, ◌≤◌, ◌<◌, ◌≡◌, refl, sym, ap, ap₂, ◌∙◌, inl, inr, Bool, true,
  false, Bool-cases, ◌||◌, ◌++◌, arith,
}
use mathlib.Core.Path.{subst}
use green_hash_tree.Prelude.Int.{ℤ, int_eq, int_lt, int_eq→≡}
use green_hash_tree.Prelude.Run.{ok, Gives, gives, Gives-map}
use green_hash_tree.Sveb.{LevelInfo, Veb, max_int, table_length, in_tree, val_at}
use green_hash_tree.Sveb.Layout.{Laid}
use green_hash_tree.Sveb.Cursor.{address, At, moved, Down, down_lem, read-ok}
use green_hash_tree.Sveb.Contents.{
  contains, contains_left, contains_right, AllAbove, AllAbove-left, not-AllAbove_node, key_of,
  keys_below, IsOrdered, address-lt,
}
use green_hash_tree.Sveb.Search.{search_loop}

met_before : (a e l : Bool) → (l ≡ true → e ≡ true) → a || e ≡ (e || a) || l
met_before true true l h = refl
met_before true false l h = refl
met_before false true l h = refl
met_before false false true h = h refl
met_before false false false h = refl

-- What the moves in the tree leave alone.
pub record Moved (s s' : Veb) : Type 0 where
  pub h : ℕ
  pub bf : ℕ
  pub anc : ℕ → ℕ
  pub same : s' ≡ moved s h bf anc

module _ {myli : ℕ → LevelInfo} {d : ℕ} (t : Laid myli d 0) where
  -- The program stands at a node of the tree, at `ad`, or below the leaves, on level 0.
  pub record Standing (val : ℕ → ℤ) (l b ad : ℕ) (s : Veb) : Type 0 where
    pub here : At t l b s
    pub inside : l ≤ d
    pub vals : s.val ≡ val
    pub sized : s.size ≡ 2 ^ d - 1
    pub long : s.size ≤ s.val_length
    pub known : 0 < l → ad ≡ address t l b

  pub below_leaves :
      {val : ℕ → ℤ} (b ad : ℕ) (s : Veb) → Standing val 0 b ad s → in_tree ad s ≡ false
  below_leaves b ad s z = ground (arith, z.here.height)

  pub at_node :
      {val : ℕ → ℤ} (l b ad : ℕ) (s : Veb) → Standing val (suc l) b ad s → in_tree ad s ≡ true
  at_node l b ad s z =
      let small = address-lt t (suc l) b (omega arith) z.inside in
      let lt : ad < s.size = omega (arith, small, z.known (omega arith), z.sized) in
      ground (arith, z.here.height, lt)

  pub val_at_node :
      {val : ℕ → ℤ} (l b ad : ℕ) (s : Veb)
      → Standing val (suc l) b ad s
      → val_at ad s ≡ ok (val (address t (suc l) b))
  val_at_node l b ad s z =
      let small = address-lt t (suc l) b (omega arith) z.inside in
      let lt : ad < s.val_length = omega (arith, small, z.known (omega arith), z.sized, z.long) in
      read-ok s.val s.val_length ad lt
      ∙ ap₂ (λ (f : ℕ → ℤ) (x : ℕ). ok (f x)) z.vals (z.known (omega arith))

  pub child_of :
      {val : ℕ → ℤ} (l b ad bit : ℕ) (s : Veb) (z : Standing val (suc l) b ad s)
      (x : Down t l b bit s)
      → Standing val l (b * 2 + bit) x.ad (moved s x.h x.bf x.anc)
  child_of l b ad bit s z x = record {
    here = x.there;
    inside = omega (arith, z.inside);
    vals = z.vals;
    sized = z.sized;
    long = z.long;
    known = x.known;
  }

  module _ (val : ℕ → ℤ) (key : ℤ) where
    -- Where the loop ends.
    pub record Searched (l b last : ℕ) (s : Veb) (r : ℕ × Veb) : Type 0 where
      pub bound : r.0 < 2 ^ d - 1
      pub found :
          int_eq (val r.0) key ≡ contains key (keys_below t val l b) || int_eq (val last) key
      pub state : Moved s r.1

    -- The step of the loop at a node, from what it does on the level below, where the last node passed
    -- on the right has the key only if no key before it can be met.
    pub search_node :
        (fuel l : ℕ)
        → d < table_length
        → (myli 0).p < table_length
        → int_lt key max_int ≡ true
        → ((b ad last : ℕ) (s : Veb)
            → Standing val l b ad s
            → IsOrdered t val l b
            → last < 2 ^ d - 1
            → (int_eq (val last) key ≡ true → AllAbove key (keys_below t val l b))
            → Gives (Searched l b last s) (search_loop fuel key ad last s))
        → (b ad last : ℕ) (s : Veb) → Standing val (suc l) b ad s
        → IsOrdered t val (suc l) b
        → last < 2 ^ d - 1
        → (int_eq (val last) key ≡ true
            → int_lt key (val (address t (suc l) b)) ≡ false
            → int_eq (val (address t (suc l) b)) key ≡ true)
        → (int_eq (val last) key ≡ true
            → int_lt key (val (address t (suc l) b)) ≡ true
            → AllAbove key (keys_below t val l (b * 2 + 0)))
        → Gives (Searched (suc l) b last s) (search_loop (suc fuel) key ad last s)
    unfolding search_loop keys_below
    search_node fuel l lt low g ih b ad last s z o last-lt q q' =
        let v = val (address t (suc l) b) in
        let left = keys_below t val l (b * 2 + 0) in
        let right = keys_below t val l (b * 2 + 1) in
        elim (Bool-cases (int_lt key v)) [
          | inl e ↦
              let x = down_lem t lt low l b 0 s z.here (omega (arith, z.inside)) (omega arith) in
              let step : search_loop (suc fuel) key ad last s
                  ≡ search_loop fuel key x.ad last (moved s x.h x.bf x.anc) =
                simp (at_node l b ad s z, val_at_node l b ad s z, e, x.runs) refl in
              rw step (
                Gives-map
                  (ih (b * 2 + 0) x.ad last (moved s x.h x.bf x.anc) (child_of l b ad 0 s z x) o.2
                    last-lt (λ a. q' a e))
                  λ r y. record {
                    bound = y.bound;
                    found =
                        y.found
                        ∙ ap (λ (c : Bool). c || int_eq (val last) key)
                            (sym (contains_left key v left right o.1 e));
                    state = record {
                      h = y.state.h;
                      bf = y.state.bf;
                      anc = y.state.anc;
                      same = y.state.same;
                    };
                  })
          | inr e ↦
              let x = down_lem t lt low l b 1 s z.here (omega (arith, z.inside)) (omega arith) in
              let here : val ad ≡ v = ap val (z.known (omega arith)) in
              let ad-lt : ad < 2 ^ d - 1 =
                omega
                  (arith, z.known (omega arith), address-lt t (suc l) b (omega arith) z.inside) in
              let step : search_loop (suc fuel) key ad last s
                  ≡ search_loop fuel key x.ad ad (moved s x.h x.bf x.anc) =
                simp (at_node l b ad s z, val_at_node l b ad s z, e, x.runs) refl in
              let next : int_eq (val ad) key ≡ true → AllAbove key right = (λ a.
                let same : v ≡ key = sym here ∙ int_eq→≡ (val ad) key a in
                subst (λ k. AllAbove k right) same o.1) in
              let all = contains_right key v left right o.0 e g in
              rw step (
                Gives-map
                  (ih (b * 2 + 1) x.ad ad (moved s x.h x.bf x.anc) (child_of l b ad 1 s z x) o.3
                    ad-lt next)
                  λ r y. record {
                    bound = y.bound;
                    found =
                        y.found
                        ∙ ap (λ (k : ℤ). contains key right || int_eq k key) here
                        ∙ met_before (contains key right) (int_eq v key) (int_eq (val last) key)
                            (λ a. q a e)
                        ∙ ap (λ (c : Bool). c || int_eq (val last) key) (sym all);
                    state = record {
                      h = y.state.h;
                      bf = y.state.bf;
                      anc = y.state.anc;
                      same = y.state.same;
                    };
                  })
        ]

    -- From any node below, where the loop has met the key only if no key before it can be met.
    pub search_loop_lem :
        (fuel l : ℕ)
        → l < fuel
        → d < table_length
        → (myli 0).p < table_length
        → int_lt key max_int ≡ true
        → (b ad last : ℕ) (s : Veb) → Standing val l b ad s
        → IsOrdered t val l b
        → last < 2 ^ d - 1
        → (int_eq (val last) key ≡ true → AllAbove key (keys_below t val l b))
        → Gives (Searched l b last s) (search_loop fuel key ad last s)
    unfolding search_loop keys_below
    search_loop_lem zero l h lt low g b ad last s z o last-lt q = elim h [ ]
    search_loop_lem (suc fuel) zero h lt low g b ad last s z o last-lt q =
        rw (below_leaves b ad s z) (
          gives (record {
            bound = last-lt;
            found = refl;
            state = record { h = s.h; bf = s.bf; anc = s.anc; same = refl };
          }))
    search_loop_lem (suc fuel) (suc l) h lt low g b ad last s z o last-lt q =
        let v = val (address t (suc l) b) in
        let left = keys_below t val l (b * 2 + 0) in
        let right = keys_below t val l (b * 2 + 1) in
        search_node fuel l lt low g (search_loop_lem fuel l (omega arith) lt low g) b ad last s z o
          last-lt (λ a e. absurd (not-AllAbove_node key v left right (q a) e g))
          (λ a e. AllAbove-left key left (key_of v ++ right) (q a))
