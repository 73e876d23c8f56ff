-- ===== src/Bpt/Lookup.antt =====
-- The search of a key in a tree that nobody is changing.
use green_hash_tree.Prelude.{
  ℕ, suc, ◌+◌, ◌≤◌, ◌<◌, ◌≡◌, refl, ap, sym, ◌∙◌, true, false, Bool-cases, inl, inr, Option, none,
  some, List, [], ◌∷◌, ◌++◌, get_elem?, length, arith, ◌==◌,
}
use mathlib.Core.Path.{subst}
use green_hash_tree.Prelude.Int.{ℤ, int_eq}
use green_hash_tree.Prelude.Run.{ok}
use green_hash_tree.Bpt.{find_index}
use green_hash_tree.Bpt.Arrays.{load-ok}
use green_hash_tree.Bpt.Heap.{
  to_record, Record, Heap, Memory, get_node-ok, lift-ok, bind-ok, if-true, if-false,
}
use green_hash_tree.Bpt.Tree.{
  Tree, root, entries, leaves, flat, levels, assoc, IsSorted, IsOrdered, LeafAt, Holds, head_of,
}
use green_hash_tree.Bpt.Tree.Order.{
  assoc_below, assoc_above, assoc-append_none, assoc-append_left, IsSorted-suffix, SortedAbove-last,
}
use green_hash_tree.Bpt.Search.{find_leaf_search, copy_out, find_at, find}
use green_hash_tree.Bpt.Walk.{Settled, reach}

-- Where the loop of `find` over the keys of some entries stops: behind them, or at the first entry
-- with the key.
pub data Stopped (key : ℤ) (keys : List ℤ) (i : ℕ) (es : List (ℤ × ℕ)) : Type 0 where
  missing :
      assoc key es ≡ none
      → find_index keys key i (length es) ≡ ok (i + length es)
      → Stopped key keys i es
  there :
      (j : ℕ) (k : ℤ) (r : ℕ)
      → assoc key es ≡ some r
      → find_index keys key i (length es) ≡ ok (i + j)
      → get_elem? es j ≡ some (k, r)
      → j < length es
      → Stopped key keys i es

further :
    (key : ℤ) (keys : List ℤ) (i : ℕ) (k : ℤ) (r : ℕ) (es : List (ℤ × ℕ))
    → get_elem? keys i ≡ some k
    → int_eq k key ≡ false
    → Stopped key keys (i + 1) es
    → Stopped key keys i ((k, r) ∷ es)
unfolding find_index
further key keys i k r es at e (missing f g) =
    missing (rw e f) (simp (load-ok keys i at, e) (g ∙ ap ok (omega arith)))
further key keys i k r es at e (there j x q f g h l) =
    there (suc j) x q (rw e f) (simp (load-ok keys i at, e) (g ∙ ap ok (omega arith))) h
      (omega (arith, l))

pub find_index-Stopped :
    (key : ℤ) (keys : List ℤ) (i : ℕ) (es : List (ℤ × ℕ))
    → ((j : ℕ) (k : ℤ) (r : ℕ) → get_elem? es j ≡ some (k, r) → get_elem? keys (i + j) ≡ some k)
    → Stopped key keys i es
unfolding find_index
find_index-Stopped key keys i [] same = missing refl (ap ok (omega arith))
find_index-Stopped key keys i ((k, r) ∷ es) same =
    let at : get_elem? keys i ≡ some k = ap (get_elem? keys) (omega arith) ∙ same 0 k r refl in
    elim (Bool-cases (int_eq k key)) [
      | inl e ↦
          there 0 k r (rw e refl) (simp (load-ok keys i at, e) (ap ok (omega arith))) refl
            (omega arith)
      | inr e ↦ further key keys i k r es at e (
          find_index-Stopped key keys (i + 1) es
            (λ j x q at'. ap (get_elem? keys) (omega arith) ∙ same (suc j) x q at'))
    ]

-- The memory after `find` has returned a record, or NULL.
abbrev pub copied : Option ℕ → Heap → Heap
copied none s = s
copied (some r) s = elim (get_elem? s.records r) [
  | none ↦ s
  | some none ↦ s
  | some (some x) ↦ record s { example = x.simdata }
]

module _ (mem : Memory) (s : Heap) where
  abbrev order : ℕ
  order = mem.order

  copy_out-copied :
      (r : ℕ) (x : Record)
      → get_elem? s.records r ≡ some (some x)
      → copy_out mem (to_record r) s ≡ ok (some r, copied (some r) s)
  unfolding copy_out
  copy_out-copied r x at = rw (at, copy_out, copied) refl

  find_at_lem :
      (key : ℤ) (a : ℕ) (es : List (ℤ × ℕ)) (next : Option ℕ) (h : LeafAt order s a es next)
      → Stopped key h.node.entries.keys 0 es
      → find_at mem key (some a) s ≡ ok (assoc key es, copied (assoc key es) s)
  unfolding find_at
  find_at_lem key a es next h (missing e f) =
      let sum : 0 + length es ≡ length es = omega arith in
      let end : (length es == h.node.entries.num_keys) ≡ true = ground (arith, h.count) in
      let all = ap (find_index h.node.entries.keys key 0) h.count ∙ f ∙ ap ok sum in
      get_node-ok s a _ h.at
      ∙ lift-ok _ s all
      ∙ if-true _ _ s end
      ∙ ap (λ o. ok (o, copied o s)) (sym e)
  find_at_lem key a es next h (there j k r e f at l) =
      let sum : 0 + j ≡ j = omega arith in
      let before : (j == h.node.entries.num_keys) ≡ false = ground (arith, h.count, l) in
      let all = ap (find_index h.node.entries.keys key 0) h.count ∙ f ∙ ap ok sum in
      let (x, here) = h.records j k r at in
      get_node-ok s a _ h.at
      ∙ lift-ok _ s all
      ∙ if-false _ _ s before
      ∙ lift-ok _ s (load-ok h.node.entries.pointers j (h.pointers j k r at))
      ∙ copy_out-copied r x here
      ∙ ap (λ o. ok (o, copied o s)) (sym e)

  -- The entries of the other leaves do not have the key.
  assoc-Settled :
      (key : ℤ) (all : List (ℤ × ℕ)) (n fuel a : ℕ) (z : Settled mem s key all n fuel a)
      → IsSorted all
      → assoc key all ≡ assoc key ((z.first, z.first_record) ∷ z.others)
  assoc-Settled key all n fuel a z p =
      let es = (z.first, z.first_record) ∷ z.others in
      let here = IsSorted-suffix z.before (es ++ flat z.rest) (subst IsSorted z.split p) in
      let above = SortedAbove-last z.first z.first_record z.others (flat z.rest) here in
      let none_behind : assoc key (flat z.rest) ≡ none = (elim z.stop [
        | inl b ↦ assoc_above key _ (flat z.rest) b above
        | inr b ↦ ap (λ l. assoc key (flat l)) b
      ]) in
      ap (assoc key) z.split
      ∙ assoc-append_none key z.before (es ++ flat z.rest) (assoc_below key z.before z.lower)
      ∙ assoc-append_left key es (flat z.rest) none_behind

  -- In an ordered tree with nothing behind it, `find` ends and returns the record of the key, or NULL
  -- if no entry has it, and changes nothing but the 32 bytes that it copies out of that record. Fuel
  -- for the levels and for the leaves is enough.
  pub find_lem :
      (key : ℤ) (fuel : ℕ) (t : Tree)
      → levels t ≤ fuel
      → length (leaves t) ≤ fuel
      → Holds order s none t
      → IsOrdered t
      → find mem fuel (some (root t)) key s
        ≡ ok (assoc key (entries t), copied (assoc key (entries t)) s)
  unfolding find
  find_lem key fuel t l n h o =
      let z = reach mem s key fuel t l n h o in
      let es = (z.leaf.first, z.leaf.first_record) ∷ z.leaf.others in
      let (at, behind) = z.leaf.chain in
      let i =
        find_index-Stopped key at.node.entries.keys 0 es
          (λ j k r e. ap (get_elem? at.node.entries.keys) (omega arith) ∙ at.keys j k r e) in
      bind-ok (find_leaf_search mem fuel (some (root t)) key) (find_at mem key) z.found_leaf
      ∙ find_at_lem key z.leaf.addr es (head_of z.leaf.rest none) at i
      ∙ ap (λ r. ok (r, copied r s))
          (sym (assoc-Settled key (entries t) (length (leaves t)) fuel z.from z.leaf o.1))
