-- ===== src/Bpt/Descent.antt =====
-- The way down to a leaf in a tree that nobody is changing.
use green_hash_tree.Prelude.{
  ℕ, zero, suc, ◌+◌, ◌≤◌, ◌<◌, ◌≡◌, refl, ap, sym, ◌∙◌, Bool-cases, inl, inr, Option, some, List,
  [], ◌∷◌, ◌++◌, get_elem?, length, length-append, if◌then◌else◌, arith,
}
use mathlib.Core.Path.{subst}
use green_hash_tree.Prelude.Int.{ℤ, int_lt}
use green_hash_tree.Prelude.Run.{ok}
use green_hash_tree.Bpt.Arrays.{load-ok}
use green_hash_tree.Bpt.Heap.{Heap, Memory, get_node-ok, lift-ok, if-true, if-false}
use green_hash_tree.Bpt.Loops.{child_index}
use green_hash_tree.Bpt.Tree.{
  Tree, leaf, inner, Forest, last, more, root, roots, separators, entries, entries_in, leaves,
  leaves_in, flat, first_leaf, first_leaf_in, levels, levels_in, AllBelow, IsDivided, IsDividedIn,
  LeafAt, InnerAt, Holds, HoldsIn, ChainAt, head_of,
}
use green_hash_tree.Bpt.Tree.Order.{
  append_assoc, append_nil, AllBelow-up, AllBelow-append, entries-AllBelow, flat-append,
  flat-leaves_in,
}
use green_hash_tree.Bpt.Search.{descend}

-- The child that holds a key, by its index.
abbrev pub picked : ℤ → Forest → ℕ
picked key (last t) = 0
picked key (more t k f) = if int_lt key k then 0 else suc (picked key f)

pub child_index_lem :
    (keys : List ℤ) (key : ℤ) (f : Forest) (i : ℕ)
    → ((j : ℕ) (k : ℤ) → get_elem? (separators f) j ≡ some k → get_elem? keys (i + j) ≡ some k)
    → child_index keys key i (length (separators f)) ≡ ok (i + picked key f)
unfolding child_index
child_index_lem keys key (last t) i same = ap ok (omega arith)
child_index_lem keys key (more t k f) i same =
    let here = load-ok keys i (ap (get_elem? keys) (omega arith) ∙ same 0 k refl) in
    let rest =
      child_index_lem keys key f (i + 1)
        (λ j x at. ap (get_elem? keys) (omega arith) ∙ same (suc j) x at) in
    elim (Bool-cases (int_lt key k)) [
      | inl e ↦ simp (here, e) (ap ok (omega arith))
      | inr e ↦ simp (here, e) (rest ∙ ap ok (omega arith))
    ]

head_of-append :
    (xs ys : List (ℕ × List (ℤ × ℕ))) (end : Option ℕ)
    → head_of (xs ++ ys) end ≡ head_of xs (head_of ys end)
head_of-append [] ys end = refl
head_of-append ((a, es) ∷ xs) ys end = refl

mutual
  unfolding leaves first_leaf

  head_of-leaves : (t : Tree) (end : Option ℕ) → head_of (leaves t) end ≡ some (first_leaf t)
  head_of-leaves (leaf a es) end = refl
  head_of-leaves (inner a f) end = head_of-leaves_in f end

  head_of-leaves_in :
      (f : Forest) (end : Option ℕ) → head_of (leaves_in f) end ≡ some (first_leaf_in f)
  head_of-leaves_in (last t) end = head_of-leaves t end
  head_of-leaves_in (more t k f) end =
      head_of-append (leaves t) (leaves_in f) end ∙ head_of-leaves t (head_of (leaves_in f) end)

module _ (mem : Memory) (s : Heap) where
  abbrev order : ℕ
  order = mem.order

  ChainAt-append :
      (xs ys : List (ℕ × List (ℤ × ℕ))) (end : Option ℕ)
      → ChainAt order s xs (head_of ys end)
      → ChainAt order s ys end
      → ChainAt order s (xs ++ ys) end
  ChainAt-append [] ys end c d = d
  ChainAt-append ((a, es) ∷ xs) ys end (h, c) d =
      (subst (LeafAt order s a es) (sym (head_of-append xs ys end)) h, ChainAt-append xs ys end c d)

  mutual
    unfolding Holds leaves

    -- The leaves of a tree in memory are linked.
    leaves-ChainAt :
        (next : Option ℕ) (t : Tree) → Holds order s next t → ChainAt order s (leaves t) next
    leaves-ChainAt next (leaf a es) h = (h, tt)
    leaves-ChainAt next (inner a f) (h, g) = leaves_in-ChainAt next f g

    leaves_in-ChainAt :
        (next : Option ℕ) (f : Forest) → HoldsIn order s next f → ChainAt order s (leaves_in f) next
    leaves_in-ChainAt next (last t) h = leaves-ChainAt next t h
    leaves_in-ChainAt next (more t k f) (h, g) =
        let here = subst (λ n. Holds order s n t) (sym (head_of-leaves_in f next)) h in
        ChainAt-append (leaves t) (leaves_in f) next
          (leaves-ChainAt (head_of (leaves_in f) next) t here) (leaves_in-ChainAt next f g)

  -- The entries `all` from the leaf at `c` on, to which a walk for `key` has come: those before are
  -- below the key.
  pub record From (key : ℤ) (all : List (ℤ × ℕ)) (n : ℕ) (end : Option ℕ) (c : ℕ) : Type 0 where
    pub before : List (ℤ × ℕ)
    pub es : List (ℤ × ℕ)
    pub rest : List (ℕ × List (ℤ × ℕ))
    pub split : all ≡ before ++ (es ++ flat rest)
    pub lower : AllBelow (some key) before
    pub chain : ChainAt order s ((c, es) ∷ rest) end
    pub count : length rest < n

  descend_leaf :
      (key : ℤ) (fuel a : ℕ) (es : List (ℤ × ℕ)) (next : Option ℕ)
      → LeafAt order s a es next
      → descend mem (suc fuel) key a s ≡ ok (a, s)
  unfolding descend
  descend_leaf key fuel a es next h = get_node-ok s a _ h.at ∙ if-true _ _ s h.is_leaf

  descend_inner :
      (key : ℤ) (fuel a c : ℕ) (f : Forest)
      → InnerAt order s a (separators f) (roots f)
      → get_elem? (roots f) (picked key f) ≡ some c
      → descend mem (suc fuel) key a s ≡ descend mem fuel key c s
  unfolding descend
  descend_inner key fuel a c f h at =
      let index =
        child_index_lem h.node.entries.keys key f 0
          (λ j k e. ap (get_elem? h.node.entries.keys) (omega arith) ∙ h.keys j k e)
        ∙ ap ok (omega arith) in
      get_node-ok s a _ h.at
      ∙ if-false _ _ s h.is_inner
      ∙ lift-ok _ s (ap (child_index h.node.entries.keys key 0) h.count ∙ index)
      ∙ lift-ok _ s (load-ok h.node.entries.pointers _ (h.pointers (picked key f) c at))

  -- With more leaves behind.
  From-append :
      (key : ℤ) (all others : List (ℤ × ℕ)) (ls : List (ℕ × List (ℤ × ℕ))) (n : ℕ) (end : Option ℕ)
      (c : ℕ)
      → From key all n (head_of ls end) c
      → ChainAt order s ls end
      → flat ls ≡ others
      → From key (all ++ others) (n + length ls) end c
  From-append key all others ls n end c f g e = record {
    before = f.before;
    es = f.es;
    rest = f.rest ++ ls;
    split =
        ap (λ l. l ++ others) f.split
        ∙ append_assoc f.before (f.es ++ flat f.rest) others
        ∙ ap (λ l. f.before ++ l)
            (append_assoc f.es (flat f.rest) others
              ∙ ap (λ l. f.es ++ l)
                  (ap (λ l. flat f.rest ++ l) (sym e) ∙ sym (flat-append f.rest ls)));
    lower = f.lower;
    chain = ChainAt-append ((c, f.es) ∷ f.rest) ls end f.chain g;
    count = omega (arith, f.count, length-append f.rest ls);
  }

  -- With more entries before, which are below the key.
  From-prepend :
      (key : ℤ) (less all : List (ℤ × ℕ)) (n m : ℕ) (end : Option ℕ) (c : ℕ)
      → AllBelow (some key) less
      → From key all n end c
      → From key (less ++ all) (m + n) end c
  From-prepend key less all n m end c a f = record {
    before = less ++ f.before;
    es = f.es;
    rest = f.rest;
    split = ap (λ l. less ++ l) f.split ∙ sym (append_assoc less f.before (f.es ++ flat f.rest));
    lower = AllBelow-append (some key) less f.before a f.lower;
    chain = f.chain;
    count = omega (arith, f.count);
  }

  mutual
    unfolding Holds IsDivided levels entries leaves

    pub arrive :
        (key : ℤ) (fuel : ℕ) (low high : Option ℤ) (next : Option ℕ) (t : Tree)
        → levels t ≤ fuel
        → Holds order s next t
        → IsDivided low high t
        → (c : ℕ) × (descend mem fuel key (root t) s ≡ ok (c, s))
          × From key (entries t) (length (leaves t)) next c
    arrive key zero low high next (leaf a es) l h o = absurd (omega (arith, l))
    arrive key (suc fuel) low high next (leaf a es) l h o =
        let one : length {A = ℕ × List (ℤ × ℕ)} [] < 1 = omega arith in
        (
          a,
          descend_leaf key fuel a es next h,
          record {
            before = [];
            es = es;
            rest = [];
            split = sym (append_nil es);
            lower = tt;
            chain = (h, tt);
            count = one;
          },
        )
    arrive key zero low high next (inner a f) l h o = absurd (omega (arith, l))
    arrive key (suc fuel) low high next (inner a f) l (h, g) o =
        let (r, at, c, done, there) = arrive_in key fuel low high next f (omega (arith, l)) g o in
        (c, descend_inner key fuel a r f h at ∙ done, there)

    arrive_in :
        (key : ℤ) (fuel : ℕ) (low high : Option ℤ) (next : Option ℕ) (f : Forest)
        → levels_in f ≤ fuel
        → HoldsIn order s next f
        → IsDividedIn low high f
        → (r : ℕ) × (get_elem? (roots f) (picked key f) ≡ some r)
          × (c : ℕ) × (descend mem fuel key r s ≡ ok (c, s))
          × From key (entries_in f) (length (leaves_in f)) next c
    arrive_in key fuel low high next (last t) l h o =
        let (c, done, there) = arrive key fuel low high next t l h o in
        (root t, refl, c, done, there)
    arrive_in key fuel low high next (more t k f) l (h, g) (p, q, o, r) =
        elim (Bool-cases (int_lt key k)) [
          | inl e ↦
              let here = subst (λ n. Holds order s n t) (sym (head_of-leaves_in f next)) h in
              let (c, done, there) =
                arrive key fuel low (some k) (head_of (leaves_in f) next) t (omega (arith, l)) here
                  o in
              let more' =
                subst (λ n. From key (entries t ++ entries_in f) n next c)
                  (sym (length-append (leaves t) (leaves_in f)))
                  (From-append key (entries t) (entries_in f) (leaves_in f) (length (leaves t)) next
                    c there (leaves_in-ChainAt next f g) (flat-leaves_in f)) in
              (root t, rw e refl, c, done, more')
          | inr e ↦
              let (x, at, c, done, there) =
                arrive_in key fuel (some k) high next f (omega (arith, l)) g r in
              let less = AllBelow-up k key (entries t) e (entries-AllBelow low (some k) t o) in
              let more' =
                From-prepend key (entries t) (entries_in f) (length (leaves_in f))
                  (length (leaves t)) next c less there in
              (
                x,
                rw e at,
                c,
                done,
                subst (λ n. From key (entries t ++ entries_in f) n next c)
                    (sym (length-append (leaves t) (leaves_in f))) more',
              )
        ]
