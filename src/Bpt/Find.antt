-- ===== src/Bpt/Find.antt =====
-- The search of `find` at the leaf that `insert_into_leaf` leaves.
use green_hash_tree.Prelude.{
  ℕ, zero, suc, ◌+◌, ◌-◌, ◌≤◌, ◌<◌, ◌≡◌, refl, ap, sym, ◌∙◌, inl, inr, Bool-cases, true, false,
  some, List, arith, ltb, leb, ◌&&◌, get_elem?, length, ◌==◌, get_elem?_of_lt, eq_of_==,
}
use mathlib.Core.Path.{subst}
use green_hash_tree.Prelude.Int.{ℤ, int_lt, int_eq, int_eq_refl}
use green_hash_tree.Prelude.Run.{ok}
use green_hash_tree.Bpt.{Leaf, insert_into_leaf, find_index, find_in_leaf}
use green_hash_tree.Bpt.Arrays.{load-ok}
use green_hash_tree.Bpt.Scan.{Stop, same_entry}
use green_hash_tree.Bpt.Insert.{HasRoom, PutAt, Inserted, insert_into_leaf_lem}

-- The loop passes the keys below its key and stops at the key.
find_index_lem :
    (keys : List ℤ) (key : ℤ) (i left point : ℕ)
    → i + left ≤ length keys
    → i ≤ point
    → point < i + left
    → ((j : ℕ) (a : ℤ) → j < point → get_elem? keys j ≡ some a → int_lt a key ≡ true)
    → get_elem? keys point ≡ some key
    → find_index keys key i left ≡ ok point
unfolding find_index
find_index_lem keys key i zero point h from upto below there = absurd (omega (arith, from, upto))
find_index_lem keys key i (suc left) point h from upto below there =
    let (k, at) = get_elem?_of_lt keys i (omega (arith, h)) in
    elim (Bool-cases (i == point)) [
      | inl e ↦
          let same : i ≡ point = eq_of_== _ _ e in
          let k_key : k ≡ key = same_entry at (ap (get_elem? keys) same ∙ there) in
          let f : int_eq k key ≡ true = ap (λ x. int_eq x key) k_key ∙ int_eq_refl key in
          simp (load-ok keys i at, f) (ap ok same)
      | inr e ↦
          let f : int_eq k key ≡ false = ground (arith, below i k (ground (arith, e, from)) at) in
          simp (load-ok keys i at, f)
            (find_index_lem keys key (i + 1) left point (omega (arith, h)) (ground (arith, e, from))
              (omega (arith, upto)) below there)
    ]

module _ {P : Type 0} (leaf leaf' : Leaf P) (key : ℤ) (pointer : P) (point : ℕ)
    (room : HasRoom leaf) (s : Stop leaf.keys key 0 leaf.num_keys point)
    (put : Inserted leaf key pointer point leaf') where
  entry_there :
      {A : Type 0} (xs ys : List A) (x : A)
      → PutAt xs point leaf.num_keys x ys
      → get_elem? ys point ≡ some x
  entry_there xs ys x p = p.1 point ∙ (let e : (point == point) ≡ true = ground arith in rw e refl)

  old_below : (j : ℕ) (a : ℤ) → j < point → get_elem? leaf'.keys j ≡ some a → int_lt a key ≡ true
  old_below j a h at =
      let e : (point == j) ≡ false = ground (arith, h) in
      let f : (ltb point j && leb j (point + (leaf.num_keys - point))) ≡ false =
        ground (arith, h) in
      let old : get_elem? leaf'.keys j ≡ get_elem? leaf.keys j =
        put.keys_put.1 j ∙ rw (e, f) refl in
      s.below j a (omega arith) h (sym old ∙ at)

  found-Inserted : find_in_leaf leaf' key ≡ ok (some pointer)
  unfolding find_in_leaf
  found-Inserted =
      let at =
        find_index_lem leaf'.keys key 0 leaf'.num_keys point
          (omega (arith, put.keys_put.0, put.one_more, room.room)) (omega arith)
          (omega (arith, put.one_more, s.upto)) old_below
          (entry_there leaf.keys leaf'.keys key put.keys_put) in
      let e : (point == leaf'.num_keys) ≡ false = ground (arith, put.one_more, s.upto) in
      simp
        (
          at,
          e,
          load-ok leaf'.pointers point
              (entry_there leaf.pointers leaf'.pointers pointer put.pointers_put),
        )
        refl

-- What `insert_into_leaf` has put into a leaf with room, `find` returns at that leaf.
pub find_in_leaf-insert_into_leaf :
    {P : Type 0} (leaf leaf' : Leaf P) (key : ℤ) (pointer : P)
    → HasRoom leaf
    → insert_into_leaf leaf key pointer ≡ ok (some leaf')
    → find_in_leaf leaf' key ≡ ok (some pointer)
find_in_leaf-insert_into_leaf leaf leaf' key pointer room e =
    let (point, s, out) = insert_into_leaf_lem leaf key pointer room in
    elim out [
      | inl (_, null) ↦ let clash = sym e ∙ null in absurd (cc clash)
      | inr (leaf'', done, put) ↦
          let same : leaf'' ≡ leaf' = (let both = sym done ∙ e in cc both) in
          subst (λ l. find_in_leaf l key ≡ ok (some pointer)) same
            (found-Inserted leaf leaf'' key pointer point room s put)
    ]
