-- ===== src/Sveb/Lookup.antt =====
-- A key is found by `search_test` exactly if it is in the tree.
use green_hash_tree.Prelude.{
  ℕ, suc, ◌+◌, ◌-◌, ◌^◌, ◌<◌, ◌≤◌, ◌≡◌, refl, sym, ap, ◌∙◌, Bool, true, false, ◌||◌, List, arith,
}
use mathlib.Core.Path.{subst}
use green_hash_tree.Prelude.Int.{ℤ, int_eq, int_lt, int_lt_irrefl, int_eq→≡, pos_part, neg_part}
use native.Mathlib.Nat.{pow-suc}
use green_hash_tree.Prelude.Powers.{pow_pos}
use green_hash_tree.Prelude.Run.{ok, ◌>>=◌, Gives, gives, Gives-bind}
use green_hash_tree.Sveb.{Veb, max_int, table_length, val_at}
use green_hash_tree.Sveb.Layout.{Laid}
use green_hash_tree.Sveb.Cursor.{address, address-root, moved, to_root_lem, read-ok}
use green_hash_tree.Sveb.Contents.{contains, contains_right, keys_below, IsOrdered}
use green_hash_tree.Sveb.Descent.{Standing, Searched, search_node, search_loop_lem}
use green_hash_tree.Sveb.Search.{search, search_loop}

-- The arrays fit the tree: `size` nodes on `levels + 1` levels, which the table lays out.
pub record IsPerfect (s : Veb) : Type 0 where
  pub levels : ℕ
  pub deep : s.max_dep ≡ suc levels
  pub laid : Laid s.myli (suc levels) 0
  pub few : suc levels < table_length
  pub low : (s.myli 0).p < table_length
  pub sized : s.size ≡ 2 ^ suc levels - 1
  pub long : s.size ≤ s.val_length

-- The keys in the tree, in order.
abbrev pub keys_of : (s : Veb) → IsPerfect s → List ℤ
keys_of s z = keys_below z.laid s.val (suc z.levels) 1

abbrev pub IsSearchTree : (s : Veb) → IsPerfect s → Type 0
IsSearchTree s z = IsOrdered z.laid s.val (suc z.levels) 1

-- Where `search` ends.
pub record Found (s : Veb) (z : IsPerfect s) (key : ℤ) (r : ℕ × Veb) : Type 0 where
  pub bound : r.0 < s.size
  pub found : int_eq (s.val r.0) key ≡ contains key (keys_of s z)
  pub h : ℕ
  pub bf : ℕ
  pub anc : ℕ → ℕ
  pub state : r.1 ≡ record (moved s h bf anc) { res = s.val r.0 }

-- The key of the root is in the tree.
root_key : (a e : Bool) → (e ≡ true → a ≡ true) → a || e ≡ a
root_key true e h = refl
root_key false true h = sym (h refl)
root_key false false h = refl

module _ (s : Veb) (z : IsPerfect s) where
  -- The read of `val[last_right]`.
  read-Found :
      (key : ℤ) (s1 : Veb) (h bf : ℕ) (anc : ℕ → ℕ)
      → s1 ≡ moved s h bf anc
      → (int_eq (s.val 0) key ≡ true → contains key (keys_of s z) ≡ true)
      → (r : ℕ × Veb) → Searched z.laid s.val key (suc z.levels) 1 0 s1 r
      → Gives (Found s z key) (do v ← val_at r.0 r.1; ok (r.0, record r.1 { res = v }))
  read-Found key s1 h bf anc e q r y =
      let same : r.1 ≡ moved s y.state.h y.state.bf y.state.anc =
        y.state.same ∙ ap (λ (x : Veb). moved x y.state.h y.state.bf y.state.anc) e in
      let lt : r.0 < s.size = omega (arith, y.bound, z.sized) in
      let read : val_at r.0 r.1 ≡ ok (s.val r.0) =
        ap (val_at r.0) same ∙ read-ok s.val s.val_length r.0 (omega (arith, lt, z.long)) in
      rw read (
        gives (record {
          bound = lt;
          found = y.found ∙ root_key (contains key (keys_of s z)) (int_eq (s.val 0) key) q;
          h = y.state.h;
          bf = y.state.bf;
          anc = y.state.anc;
          state = ap (λ (x : Veb). record x { res = s.val r.0 }) same;
        }))

  pub search_lem :
      IsSearchTree s z
      → (key : ℤ) → int_lt key max_int ≡ true
      → Gives (Found s z key) (search key s)
  unfolding search keys_below
  search_lem o key g =
      let t = z.laid in
      let l = z.levels in
      let (anc, begun, there) = to_root_lem t s refl z.deep z.few in
      let s1 = moved s s.max_dep 1 anc in
      let v = s.val (address t (suc l) 1) in
      let root : v ≡ s.val 0 = ap s.val (address-root t) in
      let node : Standing t s.val (suc l) 1 0 s1 = record {
        here = there;
        inside = omega arith;
        vals = refl;
        sized = z.sized;
        long = z.long;
        known = λ h. sym (address-root t);
      } in
      let positive : 0 < 2 ^ suc l - 1 = omega (arith, pow-suc 2 l, pow_pos l) in
      let same : int_eq (s.val 0) key ≡ true → v ≡ key = (λ a. root ∙ int_eq→≡ (s.val 0) key a) in
      let loop : Gives (Searched t s.val key (suc l) 1 0 s1)
          (search_loop (suc (suc l)) key 0 0 s1) =
        search_node t s.val key (suc l) l z.few z.low g
          (search_loop_lem t s.val key (suc l) l (omega arith) z.few z.low g) 1 0 0 s1 node o
          positive (λ a e. ap (λ (x : ℤ). int_eq x key) root ∙ a)
          (λ a e. absurd (ground (arith, ap pos_part (same a), ap neg_part (same a), e))) in
      let member : int_eq (s.val 0) key ≡ true → contains key (keys_of s z) ≡ true = (λ a.
        let x =
          contains_right key v (keys_below t s.val l 2) (keys_below t s.val l 3) o.0
            (ap (int_lt key) (same a) ∙ int_lt_irrefl key) g in
        let y : int_eq v key ≡ true = ap (λ (x : ℤ). int_eq x key) root ∙ a in
        x ∙ ap (λ (c : Bool). c || contains key (keys_below t s.val l 3)) y) in
      let fuel : suc (suc l) ≡ s.max_dep + 1 = omega (arith, z.deep) in
      rw begun (
        Gives-bind
          (subst (λ n. Gives (Searched t s.val key (suc l) 1 0 s1) (search_loop n key 0 0 s1)) fuel
            loop)
          (read-Found key s1 s.max_dep 1 anc refl member))
