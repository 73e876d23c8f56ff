-- ===== src/Bpt/Walk.antt =====
-- The walks along the leaves of a tree that nobody is changing, and of one writer.
use green_hash_tree.Prelude.{
  ℕ, zero, suc, ◌≤◌, ◌<◌, ◌≡◌, refl, ap, sym, ◌∙◌, ◌⊎◌, false, Bool-cases, inl, inr, none, some,
  List, [], ◌∷◌, ◌++◌, length, arith,
}
use mathlib.Core.Path.{subst}
use green_hash_tree.Prelude.Int.{ℤ, int_lt}
use green_hash_tree.Prelude.Run.{ok, same_outcome}
use green_hash_tree.Bpt.Heap.{Heap, Memory, lock_node, bind-ok}
use green_hash_tree.Bpt.Tree.{
  Tree, root, entries, leaves, flat, levels, AllBelow, SortedAbove, IsSorted, IsOrdered, Holds,
  ChainAt, head_of,
}
use green_hash_tree.Bpt.Tree.Order.{
  append_assoc, AllBelow-append, last_of, SortedAbove-suffix, SortedAbove-prefix, IsSorted-suffix,
  AllBelow-last,
}
use green_hash_tree.Bpt.Search.{
  descend, move_right, move_right_locked, find_leaf_search, find_leaf_insert,
}
use green_hash_tree.Bpt.Leaves.{move_right_stay, move_right_further, move_right_end}
use green_hash_tree.Bpt.Locks.{
  lock_at, AllOpen, lock_node-lock_at, locked_stay, locked_end, locked_further,
}
use green_hash_tree.Bpt.Descent.{arrive}

module _ (mem : Memory) (s : Heap) where
  abbrev order : ℕ
  order = mem.order

  -- The leaf at which a walk to the right for `key` ends: its last key is not below the key, or it is
  -- the last leaf. The entries before it are below the key.
  pub record Settled (key : ℤ) (all : List (ℤ × ℕ)) (n fuel a : ℕ) : Type 0 where
    pub addr : ℕ
    pub done : move_right mem fuel key a s ≡ ok (addr, s)
    pub before : List (ℤ × ℕ)
    pub first : ℤ
    pub first_record : ℕ
    pub others : List (ℤ × ℕ)
    pub rest : List (ℕ × List (ℤ × ℕ))
    pub split : all ≡ before ++ (((first, first_record) ∷ others) ++ flat rest)
    pub lower : AllBelow (some key) before
    pub chain : ChainAt order s ((addr, (first, first_record) ∷ others) ∷ rest) none
    pub stop : (int_lt (last_of (first, first_record) others) key ≡ false) ⊎ (rest ≡ [])
    pub count : length rest < n
    pub locked :
        AllOpen s → move_right_locked mem fuel key a (lock_at s a) ≡ ok (addr, lock_at s addr)

  stay :
      (key : ℤ) (all before : List (ℤ × ℕ)) (n fuel c : ℕ) (x : ℤ) (q : ℕ) (es : List (ℤ × ℕ))
      (rest : List (ℕ × List (ℤ × ℕ)))
      → move_right mem fuel key c s ≡ ok (c, s)
      → all ≡ before ++ (((x, q) ∷ es) ++ flat rest)
      → AllBelow (some key) before
      → ChainAt order s ((c, (x, q) ∷ es) ∷ rest) none
      → (int_lt (last_of (x, q) es) key ≡ false) ⊎ (rest ≡ [])
      → length rest < n
      → (AllOpen s → move_right_locked mem fuel key c (lock_at s c) ≡ ok (c, lock_at s c))
      → Settled key all n fuel c
  stay key all before n fuel c x q es rest d e l h z m o = record {
    addr = c;
    done = d;
    before = before;
    first = x;
    first_record = q;
    others = es;
    rest = rest;
    split = e;
    lower = l;
    chain = h;
    stop = z;
    count = m;
    locked = o;
  }

  pub settle :
      (key : ℤ) (all before : List (ℤ × ℕ)) (n fuel c : ℕ) (es : List (ℤ × ℕ))
      (rest : List (ℕ × List (ℤ × ℕ)))
      → length rest < n
      → length rest < fuel
      → all ≡ before ++ (es ++ flat rest)
      → AllBelow (some key) before
      → ChainAt order s ((c, es) ∷ rest) none
      → IsSorted (es ++ flat rest)
      → Settled key all n fuel c
  settle key all before n zero c es rest m d e l h p = absurd (omega (arith, d))
  settle key all before n (suc fuel) c [] rest m d e l (h, g) p = absurd (omega (arith, h.some_key))
  settle key all before n (suc fuel) c ((x, q) ∷ es) [] m d e l (h, g) p =
      elim (Bool-cases (int_lt (last_of (x, q) es) key)) [
        | inl b ↦
            stay key all before n (suc fuel) c x q es []
              (move_right_end mem s key fuel c x q es h b) e l (h, g) (inr refl) m
              (λ o. locked_end mem s key fuel c x q es h b)
        | inr b ↦
            stay key all before n (suc fuel) c x q es []
              (move_right_stay mem s key fuel c x q es none h b) e l (h, g) (inl b) m
              (λ o. locked_stay mem s key fuel c x q es none h b)
      ]
  settle key all before n (suc fuel) c ((x, q) ∷ es) ((r, fs) ∷ rest) m d e l (h, g) p =
      elim (Bool-cases (int_lt (last_of (x, q) es) key)) [
        | inr b ↦
            stay key all before n (suc fuel) c x q es ((r, fs) ∷ rest)
              (move_right_stay mem s key fuel c x q es (some r) h b) e l (h, g) (inl b) m
              (λ o. locked_stay mem s key fuel c x q es (some r) h b)
        | inl b ↦
            let here = AllBelow-last key x q es (fs ++ flat rest) p b in
            let t =
              settle key all (before ++ ((x, q) ∷ es)) n fuel r fs rest (omega (arith, m))
                (omega (arith, d)) (e ∙ sym (append_assoc before ((x, q) ∷ es) (fs ++ flat rest)))
                (AllBelow-append (some key) before ((x, q) ∷ es) l here) g
                (SortedAbove-suffix x es (fs ++ flat rest) p) in
            record {
              addr = t.addr;
              done = move_right_further mem s key fuel c r x q es h b ∙ t.done;
              before = t.before;
              first = t.first;
              first_record = t.first_record;
              others = t.others;
              rest = t.rest;
              split = t.split;
              lower = t.lower;
              chain = t.chain;
              stop = t.stop;
              count = t.count;
              locked = λ o.
                  locked_further mem s key fuel c r x q es fs (head_of rest none) h g.0 o
                    (SortedAbove-prefix x (es ++ fs) (flat rest)
                      (subst (SortedAbove x) (sym (append_assoc es fs (flat rest))) p))
                    b
                  ∙ t.locked o;
            }
      ]

  -- Both walks of `find_leaf_search`.
  pub record Reached (key : ℤ) (t : Tree) (fuel : ℕ) : Type 0 where
    pub from : ℕ
    pub leaf : Settled key (entries t) (length (leaves t)) fuel from
    pub found_leaf : find_leaf_search mem fuel (some (root t)) key s ≡ ok (some leaf.addr, s)
    pub found_locked :
        AllOpen s
        → find_leaf_insert mem fuel (some (root t)) key s ≡ ok (some leaf.addr, lock_at s leaf.addr)

  pub reach :
      (key : ℤ) (fuel : ℕ) (t : Tree)
      → levels t ≤ fuel
      → length (leaves t) ≤ fuel
      → Holds order s none t
      → IsOrdered t
      → Reached key t fuel
  unfolding find_leaf_search find_leaf_insert
  reach key fuel t l n h (o, p) =
      let (c, done, f) = arrive mem s key fuel none none none t l h o in
      let z =
        settle key (entries t) f.before (length (leaves t)) fuel c f.es f.rest f.count
          (omega (arith, n, f.count)) f.split f.lower f.chain
          (IsSorted-suffix f.before (f.es ++ flat f.rest) (subst IsSorted f.split p)) in
      record {
        from = c;
        leaf = z;
        found_leaf =
            bind-ok (descend mem fuel key (root t)) _ done
            ∙ bind-ok (move_right mem fuel key c) _ z.done;
        found_locked = λ o.
            bind-ok (descend mem fuel key (root t)) _ done
            ∙ bind-ok (lock_node c) _ (lock_node-lock_at s c f.chain.0.node f.chain.0.at o)
            ∙ bind-ok (move_right_locked mem fuel key c) _ (z.locked o);
      }

  -- In an ordered tree with nothing behind it and with no node locked, the walk of the writers ends
  -- at the leaf at which the walk of the readers ends, and has taken the lock of that leaf and no
  -- other. Fuel for the levels and for the leaves is enough.
  pub find_leaf_insert-find_leaf_search :
      (key : ℤ) (fuel : ℕ) (t : Tree)
      → levels t ≤ fuel
      → length (leaves t) ≤ fuel
      → Holds order s none t
      → IsOrdered t
      → AllOpen s
      → (a : ℕ) × (find_leaf_search mem fuel (some (root t)) key s ≡ ok (some a, s))
        × (find_leaf_insert mem fuel (some (root t)) key s ≡ ok (some a, lock_at s a))
  find_leaf_insert-find_leaf_search key fuel t l n h p o =
      let z = reach key fuel t l n h p in (z.leaf.addr, z.found_leaf, z.found_locked o)

  -- The leaf of the writers, by that of the readers.
  pub reach_locked :
      (key : ℤ) (fuel a : ℕ) (t : Tree)
      → levels t ≤ fuel
      → length (leaves t) ≤ fuel
      → Holds order s none t
      → IsOrdered t
      → AllOpen s
      → find_leaf_search mem fuel (some (root t)) key s ≡ ok (some a, s)
      → find_leaf_insert mem fuel (some (root t)) key s ≡ ok (some a, lock_at s a)
  reach_locked key fuel a t l n h p o searched =
      let z = reach key fuel t l n h p in
      let found : some z.leaf.addr ≡ some a = ap (λ x. x.0) (same_outcome z.found_leaf searched) in
      let same : z.leaf.addr ≡ a = cc found in
      subst (λ x. find_leaf_insert mem fuel (some (root t)) key s ≡ ok (some x, lock_at s x)) same
        (z.found_locked o)
