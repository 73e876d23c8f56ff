-- ===== src/Bpt/Range.antt =====
-- The range search in a tree that nobody is changing.
use green_hash_tree.Prelude.{
  ℕ, zero, suc, ◌+◌, ◌-◌, ◌≤◌, ◌<◌, ◌≡◌, refl, ap, ap₂, sym, ◌∙◌, true, false, inl, inr, Option,
  none, some, List, [], ◌∷◌, ◌++◌, map, get_elem?, length, length-append, arith, ◌==◌,
}
use mathlib.Core.Path.{subst}
use green_hash_tree.Prelude.Int.{ℤ}
use green_hash_tree.Prelude.Run.{ok}
use green_hash_tree.Bpt.{scan_keys}
use green_hash_tree.Bpt.Arrays.{load-ok}
use green_hash_tree.Bpt.Heap.{Ptr, Heap, Memory, get_node-ok, lift-ok, bind-ok, if-true, if-false}
use green_hash_tree.Bpt.Loops.{take_range}
use green_hash_tree.Bpt.Tree.{
  Tree, root, entries, leaves, flat, levels, AllBelow, IsSorted, IsOrdered, LeafAt, Holds, ChainAt,
  head_of,
}
use green_hash_tree.Bpt.Tree.Order.{append_assoc, append_nil, IsSorted-suffix}
use green_hash_tree.Bpt.Search.{find_leaf_search, collect, find_range_from, find_range}
use green_hash_tree.Bpt.Walk.{Settled, reach}
use green_hash_tree.Bpt.Bounds.{
  at_most, in_range, out, at_most-append, map_append, in_range-below, in_range-from, HasFrom,
  take_range_lem, node_or_null-next, Scanned, scan_entries, get_elem?-append, last_below,
}

module _ (mem : Memory) (s : Heap) where
  abbrev order : ℕ
  order = mem.order

  LeafAt-HasFrom :
      (a : ℕ) (pre suf : List (ℤ × ℕ)) (next : Option ℕ) (h : LeafAt order s a (pre ++ suf) next)
      → HasFrom h.node.entries (length pre) suf
  LeafAt-HasFrom a pre suf next h j k r at =
      let here = get_elem?-append pre suf j ∙ at in
      (h.keys (length pre + j) k r here, h.pointers (length pre + j) k r here)

  collect_end : (fuel : ℕ) (e : ℤ) → collect mem (suc fuel) e 0 none s ≡ ok ([], s)
  unfolding collect
  collect_end fuel e = refl

  -- One leaf of the loop.
  collect_leaf :
      (fuel : ℕ) (e : ℤ) (a : ℕ) (pre suf : List (ℤ × ℕ)) (next : Option ℕ) (more : List (ℤ × Ptr))
      → LeafAt order s a (pre ++ suf) next
      → IsSorted suf
      → collect mem fuel e 0 next s ≡ ok (more, s)
      → collect mem (suc fuel) e (length pre) (some a) s ≡ ok (map out (at_most e suf) ++ more, s)
  unfolding collect
  collect_leaf fuel e a pre suf next more h p rest =
      let left : h.node.entries.num_keys - length pre ≡ length suf =
        omega (arith, h.count, length-append pre suf) in
      let here =
        take_range_lem h.node.entries e (length pre) suf (LeafAt-HasFrom a pre suf next h) p in
      get_node-ok s a _ h.at
      ∙ lift-ok _ s (ap (take_range h.node.entries e (length pre)) left ∙ here)
      ∙ lift-ok _ s (load-ok h.node.entries.pointers _ h.next_at)
      ∙ lift-ok _ s (node_or_null-next next)
      ∙ bind-ok (collect mem fuel e 0 next) _ rest

  IsSorted-prefix : (xs ys : List (ℤ × ℕ)) → IsSorted (xs ++ ys) → IsSorted xs
  IsSorted-prefix [] ys p = tt
  IsSorted-prefix ((x, r) ∷ []) ys p = tt
  IsSorted-prefix ((x, r) ∷ (y, q) ∷ xs) ys (b, p) = (b, IsSorted-prefix ((y, q) ∷ xs) ys p)

  -- The loop from some entry of a leaf on collects, of it and of all that follow, those at most `e`.
  collect_chain :
      (fuel : ℕ) (e : ℤ) (a : ℕ) (pre suf : List (ℤ × ℕ)) (rest : List (ℕ × List (ℤ × ℕ)))
      → length rest + 1 < fuel
      → ChainAt order s ((a, pre ++ suf) ∷ rest) none
      → IsSorted (suf ++ flat rest)
      → collect mem fuel e (length pre) (some a) s ≡ ok (map out (at_most e (suf ++ flat rest)), s)
  collect_chain zero e a pre suf rest n c p = absurd (omega (arith, n))
  collect_chain (suc zero) e a pre suf [] n c p = absurd (omega (arith, n))
  collect_chain (suc (suc fuel)) e a pre suf [] n (h, c) p =
      let here = IsSorted-prefix suf [] p in
      collect_leaf (suc fuel) e a pre suf none [] h here (collect_end fuel e)
      ∙ ap (λ l. ok (l, s))
          (sym (map_append out (at_most e suf) []) ∙ ap (map out) (sym (at_most-append e suf [])))
  collect_chain (suc fuel) e a pre suf ((b, es) ∷ rest) n (h, c) p =
      let here = IsSorted-prefix suf (es ++ flat rest) p in
      let more = at_most e (es ++ flat rest) in
      let after =
        collect_chain fuel e b [] es rest (omega (arith, n)) c
          (IsSorted-suffix suf (es ++ flat rest) p) in
      collect_leaf fuel e a pre suf (some b) (map out more) h here after
      ∙ ap (λ l. ok (l, s))
          (sym (map_append out (at_most e suf) more)
            ∙ ap (map out) (sym (at_most-append e suf (es ++ flat rest))))

  -- The two ends of `find_range_from`: all keys of the last leaf are below `a`, or the loop starts at
  -- the first entry that is not.
  range_none :
      (a e : ℤ) (fuel c : ℕ) (es : List (ℤ × ℕ)) (next : Option ℕ) (h : LeafAt order s c es next)
      → scan_keys h.node.entries.keys a 0 (length es) ≡ ok (0 + length es)
      → find_range_from mem fuel a e (some c) s ≡ ok ([], s)
  unfolding find_range_from
  range_none a e fuel c es next h d =
      let all : (0 + length es == h.node.entries.num_keys) ≡ true = ground (arith, h.count) in
      get_node-ok s c _ h.at
      ∙ lift-ok _ s (ap (scan_keys h.node.entries.keys a 0) h.count ∙ d)
      ∙ if-true _ _ s all

  range_some :
      (a e : ℤ) (fuel c : ℕ) (es pre : List (ℤ × ℕ)) (k : ℤ) (r : ℕ) (suf : List (ℤ × ℕ))
      (rest : List (ℕ × List (ℤ × ℕ)))
      → length rest + 1 < fuel
      → (h : ChainAt order s ((c, es) ∷ rest) none) → es ≡ pre ++ ((k, r) ∷ suf)
      → IsSorted (((k, r) ∷ suf) ++ flat rest)
      → scan_keys h.0.node.entries.keys a 0 (length es) ≡ ok (0 + length pre)
      → find_range_from mem fuel a e (some c) s
        ≡ ok (map out (at_most e (((k, r) ∷ suf) ++ flat rest)), s)
  unfolding find_range_from
  range_some a e fuel c es pre k r suf rest n (h, g) x p d =
      let index : 0 + length pre ≡ length pre = omega arith in
      let before : (length pre == h.node.entries.num_keys) ≡ false =
        ground (arith, h.count ∙ ap length x, length-append pre ((k, r) ∷ suf)) in
      get_node-ok s c _ h.at
      ∙ lift-ok _ s (ap (scan_keys h.node.entries.keys a 0) h.count ∙ d ∙ ap ok index)
      ∙ if-false _ _ s before
      ∙ collect_chain fuel e c pre ((k, r) ∷ suf) rest n
          (subst (λ l. ChainAt order s ((c, l) ∷ rest) none) x (h, g)) p

  -- What the walk to the leaf has passed is not in the range.
  in_range-Settled :
      (a e : ℤ) (m fuel c : ℕ) (all : List (ℤ × ℕ)) (z : Settled mem s a all m fuel c)
      (pre suf : List (ℤ × ℕ))
      → (z.first, z.first_record) ∷ z.others ≡ pre ++ suf
      → AllBelow (some a) pre
      → in_range a e all ≡ in_range a e (suf ++ flat z.rest)
  in_range-Settled a e m fuel c all z pre suf d l =
      ap (in_range a e) z.split
      ∙ in_range-below a e z.before (((z.first, z.first_record) ∷ z.others) ++ flat z.rest) z.lower
      ∙ ap (λ l. in_range a e (l ++ flat z.rest)) d
      ∙ ap (in_range a e) (append_assoc pre suf (flat z.rest))
      ∙ in_range-below a e pre (suf ++ flat z.rest) l

  from_Settled :
      (a e : ℤ) (m fuel c : ℕ) (all : List (ℤ × ℕ)) (z : Settled mem s a all m fuel c)
      → length z.rest + 1 < fuel
      → IsSorted all
      → Scanned a z.chain.0.node.entries.keys 0 ((z.first, z.first_record) ∷ z.others)
      → find_range_from mem fuel a e (some z.addr) s ≡ ok (map out (in_range a e all), s)
  from_Settled a e m fuel c all z n p t = elim t.stop [
    | inl nil ↦
        let es = (z.first, z.first_record) ∷ z.others in
        let whole : es ≡ t.pre = t.split ∙ ap (λ l. t.pre ++ l) nil ∙ append_nil t.pre in
        let below =
          last_below a z.first z.first_record z.others
            (subst (AllBelow (some a)) (sym whole) t.lower) in
        let nothing : in_range a e (t.suf ++ flat z.rest) ≡ [] = (elim z.stop [
          | inl b ↦ absurd (cc (b, below))
          | inr b ↦ ap₂ (λ u v. in_range a e (u ++ flat v)) nil b
        ]) in
        range_none a e fuel z.addr es (head_of z.rest none) z.chain.0
          (t.done ∙ ap (λ l. ok (0 + length l)) (sym whole))
        ∙ ap (λ l. ok (map out l, s))
            (sym (in_range-Settled a e m fuel c all z t.pre t.suf t.split t.lower ∙ nothing))
    | inr (k, r, more, cons, b) ↦
        let es = (z.first, z.first_record) ∷ z.others in
        let whole : es ≡ t.pre ++ ((k, r) ∷ more) = t.split ∙ ap (λ l. t.pre ++ l) cons in
        let here = IsSorted-suffix z.before (es ++ flat z.rest) (subst IsSorted z.split p) in
        let there = subst (λ l. IsSorted (l ++ flat z.rest)) whole here in
        let sorted =
          IsSorted-suffix t.pre (((k, r) ∷ more) ++ flat z.rest)
            (subst IsSorted (append_assoc t.pre ((k, r) ∷ more) (flat z.rest)) there) in
        range_some a e fuel z.addr es t.pre k r more z.rest n z.chain whole sorted t.done
        ∙ ap (λ l. ok (map out l, s))
            (sym (
              in_range-Settled a e m fuel c all z t.pre ((k, r) ∷ more) whole t.lower
              ∙ in_range-from a e k r (more ++ flat z.rest) b sorted))
  ]

  -- In an ordered tree with nothing behind it, `find_range` ends and returns, in their order, the
  -- entries with keys from `a` to `e`, and changes nothing. Fuel for the levels, and for two rounds
  -- more than there are leaves, is enough.
  pub find_range_lem :
      (a e : ℤ) (fuel : ℕ) (t : Tree)
      → levels t ≤ fuel
      → length (leaves t) + 1 < fuel
      → Holds order s none t
      → IsOrdered t
      → find_range mem fuel (some (root t)) a e s ≡ ok (map out (in_range a e (entries t)), s)
  unfolding find_range
  find_range_lem a e fuel t l n h o =
      let z = reach mem s a fuel t l (omega (arith, n)) h o in
      let es = (z.leaf.first, z.leaf.first_record) ∷ z.leaf.others in
      let at = z.leaf.chain.0 in
      let i = scan_entries at.node.entries a 0 es (λ j k r e. (
        ap (get_elem? at.node.entries.keys) (omega arith) ∙ at.keys j k r e,
        ap (get_elem? at.node.entries.pointers) (omega arith) ∙ at.pointers j k r e,
      )) in
      bind-ok (find_leaf_search mem fuel (some (root t)) a) _ z.found_leaf
      ∙ from_Settled a e (length (leaves t)) fuel z.from (entries t) z.leaf
          (omega (arith, n, z.leaf.count)) o.1 i
