-- ===== src/Bpt/Locks.antt =====
-- One step along the leaves with the lock of a leaf, which goes from leaf to leaf.
use green_hash_tree.Prelude.{
  ℕ, zero, suc, ◌≡◌, ◌≢◌, refl, ap, sym, ◌∙◌, true, false, Option, none, some, List, [], ◌∷◌, ◌++◌,
  get_elem?, set, get_elem?-set_self, get_elem?-set_ne, lt_of_get_elem?, arith,
}
use green_hash_tree.Prelude.Int.{ℤ, int_lt, int_lt_irrefl}
use green_hash_tree.Prelude.Run.{ok}
use green_hash_tree.Msgq.{open_mutex, held, lock_mutex, unlock_mutex}
use green_hash_tree.Bpt.Arrays.{load-ok}
use green_hash_tree.Bpt.Heap.{
  Node, Heap, Memory, put_node, lock_node, unlock_node, get_node-ok, lift-ok, bind-ok, if-true,
  if-false,
}
use green_hash_tree.Bpt.Tree.{LeafAt, SortedAbove}
use green_hash_tree.Bpt.Tree.Order.{last_of, SortedAbove-later}
use green_hash_tree.Bpt.Search.{move_right_locked}
use green_hash_tree.Bpt.Leaves.{last_key-LeafAt}

-- The heap with the lock of one node taken.
abbrev pub with_lock : List Node → ℕ → List Node
with_lock nodes a = elim (get_elem? nodes a) [
  | none ↦ nodes
  | some n ↦ set nodes a (record n { lock = held })
]

abbrev pub lock_at : Heap → ℕ → Heap
lock_at s a = record s { nodes = with_lock s.nodes a }

-- No node is locked.
abbrev pub AllOpen : Heap → Type 0
AllOpen s = (a : ℕ) (n : Node) → get_elem? s.nodes a ≡ some n → n.lock ≡ open_mutex

set_twice {ℓ} :
    {A : Type ℓ} (xs : List A) (i : ℕ) (a c : A)
    → get_elem? xs i ≡ some c
    → set (set xs i a) i c ≡ xs
set_twice [] i a c at = refl
set_twice (x ∷ xs) zero a c at = let e = sym at in cc e
set_twice (x ∷ xs) (suc i) a c at = ap (◌∷◌ x) (set_twice xs i a c at)

-- One element is set, another one is set, and the first one is set back.
set_back {ℓ} :
    {A : Type ℓ} (xs : List A) (i j : ℕ) (a b c : A)
    → get_elem? xs i ≡ some c
    → i ≢ j
    → set (set (set xs i a) j b) i c ≡ set xs j b
set_back [] i j a b c at h = refl
set_back (x ∷ xs) zero zero a b c at h = absurd (h refl)
set_back (x ∷ xs) zero (suc j) a b c at h = ap (λ y. y ∷ set xs j b) (let e = sym at in cc e)
set_back (x ∷ xs) (suc i) zero a b c at h = ap (◌∷◌ b) (set_twice xs i a c at)
set_back (x ∷ xs) (suc i) (suc j) a b c at h =
    ap (◌∷◌ x) (set_back xs i j a b c at (λ e. h (ap suc e)))

pub lock_node-ok :
    (s : Heap) (a : ℕ) (n : Node)
    → get_elem? s.nodes a ≡ some n
    → n.lock ≡ open_mutex
    → lock_node a s ≡ ok (tt, record s { nodes = set s.nodes a (record n { lock = held }) })
unfolding lock_node lock_mutex put_node
lock_node-ok s a n at e = get_node-ok s a _ at ∙ lift-ok _ s (ap lock_mutex e)

pub unlock_node-ok :
    (s : Heap) (a : ℕ) (n : Node)
    → get_elem? s.nodes a ≡ some n
    → n.lock ≡ held
    → unlock_node a s ≡ ok (tt, record s { nodes = set s.nodes a (record n { lock = open_mutex }) })
unfolding unlock_node unlock_mutex put_node
unlock_node-ok s a n at e = get_node-ok s a _ at ∙ lift-ok _ s (ap unlock_mutex e)

pub with_lock-node :
    (nodes : List Node) (a : ℕ) (n : Node)
    → get_elem? nodes a ≡ some n
    → with_lock nodes a ≡ set nodes a (record n { lock = held })
with_lock-node nodes a n at = rw (at, with_lock) refl

pub at_lock :
    (nodes : List Node) (a : ℕ) (n : Node)
    → get_elem? nodes a ≡ some n
    → get_elem? (with_lock nodes a) a ≡ some (record n { lock = held })
at_lock nodes a n at =
    ap (λ l. get_elem? l a) (with_lock-node nodes a n at)
    ∙ get_elem?-set_self nodes a (record n { lock = held }) (lt_of_get_elem? nodes a n at)

pub lock_node-lock_at :
    (s : Heap) (a : ℕ) (n : Node)
    → get_elem? s.nodes a ≡ some n
    → AllOpen s
    → lock_node a s ≡ ok (tt, lock_at s a)
lock_node-lock_at s a n at o =
    lock_node-ok s a n at (o a n at)
    ∙ ap (λ l. ok (tt, record s { nodes = l })) (sym (with_lock-node s.nodes a n at))

module _ (mem : Memory) (s : Heap) where
  abbrev order : ℕ
  order = mem.order

  -- Two leaves one after the other are not the same.
  leaves_apart :
      (c r : ℕ) (x : ℤ) (q : ℕ) (es fs : List (ℤ × ℕ)) (after next : Option ℕ)
      → LeafAt order s c ((x, q) ∷ es) after
      → LeafAt order s r fs next
      → SortedAbove x (es ++ fs)
      → c ≢ r
  leaves_apart c r x q es [] after next h g p e = absurd (omega (arith, g.some_key))
  leaves_apart c r x q es ((y, z) ∷ fs) after next h g p e =
      let at = h.at in
      let at' = ap (get_elem? s.nodes) e ∙ g.at in
      let one = h.keys 0 x q refl in
      let two = g.keys 0 y z refl in
      let same : h.node ≡ g.node = cc (at, at') in
      let keys : x ≡ y =
        (let one' = ap (λ n. get_elem? n.entries.keys 0) (sym same) ∙ one in cc (one', two)) in
      let up = SortedAbove-later x es y z fs p in
      let never = int_lt_irrefl x in
      let up' : int_lt x x ≡ true = ap (int_lt x) keys ∙ up in absurd (cc (up', never))

  pub locked_stay :
      (key : ℤ) (fuel a : ℕ) (x : ℤ) (q : ℕ) (es : List (ℤ × ℕ)) (next : Option ℕ)
      → LeafAt order s a ((x, q) ∷ es) next
      → int_lt (last_of (x, q) es) key ≡ false
      → move_right_locked mem (suc fuel) key a (lock_at s a) ≡ ok (a, lock_at s a)
  unfolding move_right_locked
  locked_stay key fuel a x q es next h e =
      get_node-ok (lock_at s a) a _ (at_lock s.nodes a h.node h.at)
      ∙ lift-ok _ (lock_at s a) (last_key-LeafAt mem s a x q es next h)
      ∙ if-false _ _ (lock_at s a) e

  pub locked_end :
      (key : ℤ) (fuel a : ℕ) (x : ℤ) (q : ℕ) (es : List (ℤ × ℕ))
      → LeafAt order s a ((x, q) ∷ es) none
      → int_lt (last_of (x, q) es) key ≡ true
      → move_right_locked mem (suc fuel) key a (lock_at s a) ≡ ok (a, lock_at s a)
  unfolding move_right_locked
  locked_end key fuel a x q es h e =
      get_node-ok (lock_at s a) a _ (at_lock s.nodes a h.node h.at)
      ∙ lift-ok _ (lock_at s a) (last_key-LeafAt mem s a x q es none h)
      ∙ if-true _ _ (lock_at s a) e
      ∙ lift-ok _ (lock_at s a) (load-ok h.node.entries.pointers _ h.next_at)

  -- The two nodes while both are locked.
  abbrev both : (c r : ℕ) → Node → Node → Heap
  both c r n m = record s {
    nodes = set (set s.nodes c (record n { lock = held })) r (record m { lock = held });
  }

  lock_next :
      (c r : ℕ) (n m : Node)
      → get_elem? s.nodes c ≡ some n
      → get_elem? s.nodes r ≡ some m
      → c ≢ r
      → AllOpen s
      → lock_node r (lock_at s c) ≡ ok (tt, both c r n m)
  lock_next c r n m at to apart o =
      let there = with_lock-node s.nodes c n at in
      let at_r =
        ap (λ l. get_elem? l r) there
        ∙ get_elem?-set_ne s.nodes c r (record n { lock = held }) apart
        ∙ to in
      lock_node-ok (lock_at s c) r m at_r (o r m to)
      ∙ ap (λ l. ok (tt, record s { nodes = set l r (record m { lock = held }) })) there

  unlock_last :
      (c r : ℕ) (n m : Node)
      → get_elem? s.nodes c ≡ some n
      → get_elem? s.nodes r ≡ some m
      → c ≢ r
      → AllOpen s
      → unlock_node c (both c r n m) ≡ ok (tt, lock_at s r)
  unlock_last c r n m at to apart o =
      let n' : Node = record n { lock = held } in
      let at_c =
        get_elem?-set_ne (set s.nodes c n') r c (record m { lock = held }) (λ e. apart (sym e))
        ∙ get_elem?-set_self s.nodes c n' (lt_of_get_elem? s.nodes c n at) in
      let before : record n { lock = open_mutex } ≡ n =
        ap (λ l. record n { lock = l }) (sym (o c n at)) in
      unlock_node-ok (both c r n m) c n' at_c refl
      ∙ ap (λ l. ok (tt, record s { nodes = l }))
          (ap (set (set (set s.nodes c n') r (record m { lock = held })) c) before
            ∙ set_back s.nodes c r n' (record m { lock = held }) n at apart
            ∙ sym (with_lock-node s.nodes r m to))

  pub locked_further :
      (key : ℤ) (fuel c r : ℕ) (x : ℤ) (q : ℕ) (es fs : List (ℤ × ℕ)) (next : Option ℕ)
      → LeafAt order s c ((x, q) ∷ es) (some r)
      → LeafAt order s r fs next
      → AllOpen s
      → SortedAbove x (es ++ fs)
      → int_lt (last_of (x, q) es) key ≡ true
      → move_right_locked mem (suc fuel) key c (lock_at s c)
        ≡ move_right_locked mem fuel key r (lock_at s r)
  unfolding move_right_locked
  locked_further key fuel c r x q es fs next h g o p e =
      let apart = leaves_apart c r x q es fs (some r) next h g p in
      get_node-ok (lock_at s c) c _ (at_lock s.nodes c h.node h.at)
      ∙ lift-ok _ (lock_at s c) (last_key-LeafAt mem s c x q es (some r) h)
      ∙ if-true _ _ (lock_at s c) e
      ∙ lift-ok _ (lock_at s c) (load-ok h.node.entries.pointers _ h.next_at)
      ∙ bind-ok (lock_node r) _ (lock_next c r h.node g.node h.at g.at apart o)
      ∙ bind-ok (unlock_node c) _ (unlock_last c r h.node g.node h.at g.at apart o)
