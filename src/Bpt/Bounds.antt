-- ===== src/Bpt/Bounds.antt =====
-- The entries between two keys, and the loops of `find_range` over one leaf.
use green_hash_tree.Prelude.{
  ℕ, suc, ◌+◌, ◌≡◌, refl, ap, sym, ◌∙◌, ◌⊎◌, true, false, Bool-cases, inl, inr, Option, none, some,
  List, [], ◌∷◌, ◌++◌, map, get_elem?, length, if◌then◌else◌, arith,
}
use green_hash_tree.Prelude.Int.{ℤ, int_lt, int_le}
use green_hash_tree.Prelude.Run.{ok}
use green_hash_tree.Bpt.{Leaf, scan_keys}
use green_hash_tree.Bpt.Arrays.{load-ok}
use green_hash_tree.Bpt.Heap.{Ptr, node_or_null, to_record}
use green_hash_tree.Bpt.Loops.{take_range}
use green_hash_tree.Bpt.Tree.{AllBelow, SortedAbove, IsSorted, next_ptr}
use green_hash_tree.Bpt.Tree.Order.{last_of, SortedAbove-suffix}

-- The entries whose keys are at most `key_end`, and those whose keys are also at least `key_start`.
abbrev pub at_most : ℤ → List (ℤ × ℕ) → List (ℤ × ℕ)
at_most key_end [] = []
at_most key_end ((k, r) ∷ es) =
    let rest = at_most key_end es in if int_le k key_end then (k, r) ∷ rest else rest

abbrev pub in_range : (key_start key_end : ℤ) → List (ℤ × ℕ) → List (ℤ × ℕ)
in_range key_start key_end [] = []
in_range key_start key_end ((k, r) ∷ es) =
    let rest = in_range key_start key_end es in
    if int_lt k key_start then rest else if int_le k key_end then (k, r) ∷ rest else rest

-- An entry as the arrays of a leaf have it.
abbrev pub out : ℤ × ℕ → ℤ × Ptr
out (k, r) = (k, to_record r)

pub at_most-append :
    (e : ℤ) (xs ys : List (ℤ × ℕ)) → at_most e (xs ++ ys) ≡ at_most e xs ++ at_most e ys
at_most-append e [] ys = refl
at_most-append e ((k, r) ∷ xs) ys = elim (Bool-cases (int_le k e)) [
  | inl b ↦ rw b (ap (◌∷◌ (k, r)) (at_most-append e xs ys))
  | inr b ↦ rw b (at_most-append e xs ys)
]

pub map_append {ℓ} :
    {A B : Type ℓ} (f : A → B) (xs ys : List A) → map f (xs ++ ys) ≡ map f xs ++ map f ys
map_append f [] ys = refl
map_append f (x ∷ xs) ys = ap (◌∷◌ (f x)) (map_append f xs ys)

-- Behind a key above `e` no key is at most `e`.
pub at_most-above :
    (e l : ℤ) (es : List (ℤ × ℕ)) → int_le l e ≡ false → SortedAbove l es → at_most e es ≡ []
at_most-above e l [] h s = refl
at_most-above e l ((k, r) ∷ es) h (p, s) =
    let b : int_le k e ≡ false = ground (arith, h, p) in rw b (at_most-above e k es b s)

pub in_range-below :
    (a e : ℤ) (xs ys : List (ℤ × ℕ))
    → AllBelow (some a) xs
    → in_range a e (xs ++ ys) ≡ in_range a e ys
in_range-below a e [] ys h = refl
in_range-below a e ((k, r) ∷ xs) ys (p, h) = rw p (in_range-below a e xs ys h)

pub in_range-above :
    (a e l : ℤ) (es : List (ℤ × ℕ))
    → int_lt l a ≡ false
    → SortedAbove l es
    → in_range a e es ≡ at_most e es
in_range-above a e l [] h s = refl
in_range-above a e l ((k, r) ∷ es) h (p, s) =
    let b : int_lt k a ≡ false = ground (arith, h, p) in
    let rest = in_range-above a e k es b s in
    rw b
      (elim (Bool-cases (int_le k e)) [ inl c ↦ rw c (ap (◌∷◌ (k, r)) rest) | inr c ↦ rw c rest ])

pub in_range-from :
    (a e k : ℤ) (r : ℕ) (es : List (ℤ × ℕ))
    → int_lt k a ≡ false
    → SortedAbove k es
    → in_range a e ((k, r) ∷ es) ≡ at_most e ((k, r) ∷ es)
in_range-from a e k r es b s =
    let rest = in_range-above a e k es b s in
    rw b
      (elim (Bool-cases (int_le k e)) [ inl c ↦ rw c (ap (◌∷◌ (k, r)) rest) | inr c ↦ rw c rest ])

-- The arrays have the entries from the index `i` on.
abbrev pub HasFrom : Leaf Ptr → ℕ → List (ℤ × ℕ) → Type 0
HasFrom leaf i es =
    (j : ℕ) (k : ℤ) (r : ℕ)
    → get_elem? es j ≡ some (k, r)
    → (get_elem? leaf.keys (i + j) ≡ some k)
      × (get_elem? leaf.pointers (i + j) ≡ some (to_record r))

pub HasFrom-tail :
    (leaf : Leaf Ptr) (i : ℕ) (e : ℤ × ℕ) (es : List (ℤ × ℕ))
    → HasFrom leaf i (e ∷ es)
    → HasFrom leaf (i + 1) es
HasFrom-tail leaf i e es h j k r at =
    let index : i + 1 + j ≡ i + suc j = omega arith in
    (
      ap (get_elem? leaf.keys) index ∙ (h (suc j) k r at).0,
      ap (get_elem? leaf.pointers) index ∙ (h (suc j) k r at).1,
    )

pub HasFrom-head :
    (leaf : Leaf Ptr) (i : ℕ) (k : ℤ) (r : ℕ) (es : List (ℤ × ℕ))
    → HasFrom leaf i ((k, r) ∷ es)
    → (get_elem? leaf.keys i ≡ some k) × (get_elem? leaf.pointers i ≡ some (to_record r))
HasFrom-head leaf i k r es h =
    let index : i ≡ i + 0 = omega arith in
    (
      ap (get_elem? leaf.keys) index ∙ (h 0 k r refl).0,
      ap (get_elem? leaf.pointers) index ∙ (h 0 k r refl).1,
    )

pub take_range_lem :
    (leaf : Leaf Ptr) (e : ℤ) (i : ℕ) (es : List (ℤ × ℕ))
    → HasFrom leaf i es
    → IsSorted es
    → take_range leaf e i (length es) ≡ ok (map out (at_most e es))
unfolding take_range
take_range_lem leaf e i [] h s = refl
take_range_lem leaf e i ((k, r) ∷ es) h s =
    let (at, to) = HasFrom-head leaf i k r es h in
    let rest =
      take_range_lem leaf e (i + 1) es (HasFrom-tail leaf i (k, r) es h)
        (SortedAbove-suffix k [] es s) in
    elim (Bool-cases (int_le k e)) [
      | inl b ↦ simp (load-ok leaf.keys i at, load-ok leaf.pointers i to, b, rest) refl
      | inr b ↦
          simp (load-ok leaf.keys i at, b)
            (ap (λ l. ok (map out l)) (sym (at_most-above e k es b s)))
    ]

pub node_or_null-next : (next : Option ℕ) → node_or_null (next_ptr next) ≡ ok next
node_or_null-next none = refl
node_or_null-next (some a) = refl

-- Where the loop for `key_start` stops in the entries of a leaf.
pub record Scanned (a : ℤ) (keys : List ℤ) (i : ℕ) (es : List (ℤ × ℕ)) : Type 0 where
  pub pre : List (ℤ × ℕ)
  pub suf : List (ℤ × ℕ)
  pub split : es ≡ pre ++ suf
  pub done : scan_keys keys a i (length es) ≡ ok (i + length pre)
  pub lower : AllBelow (some a) pre
  pub stop :
      (suf ≡ [])
      ⊎ (k : ℤ) × (r : ℕ) × (more : List (ℤ × ℕ)) × (suf ≡ (k, r) ∷ more) × (int_lt k a ≡ false)

pub scan_entries :
    (leaf : Leaf Ptr) (a : ℤ) (i : ℕ) (es : List (ℤ × ℕ))
    → HasFrom leaf i es
    → Scanned a leaf.keys i es
unfolding scan_keys
scan_entries leaf a i [] h = record {
  pre = [];
  suf = [];
  split = refl;
  done = ap ok (omega arith);
  lower = tt;
  stop = inl refl;
}
scan_entries leaf a i ((k, r) ∷ es) h =
    let (at, to) = HasFrom-head leaf i k r es h in
    let t = scan_entries leaf a (i + 1) es (HasFrom-tail leaf i (k, r) es h) in
    elim (Bool-cases (int_lt k a)) [
      | inl b ↦
          let sum : i + 1 + length t.pre ≡ i + length ((k, r) ∷ t.pre) = omega arith in
          record {
            pre = (k, r) ∷ t.pre;
            suf = t.suf;
            split = ap (◌∷◌ (k, r)) t.split;
            done = simp (load-ok leaf.keys i at, b) (t.done ∙ ap ok sum);
            lower = (b, t.lower);
            stop = t.stop;
          }
      | inr b ↦
          let sum : i ≡ i + length {A = ℤ × ℕ} [] = omega arith in
          record {
            pre = [];
            suf = (k, r) ∷ es;
            split = refl;
            done = simp (load-ok leaf.keys i at, b) (ap ok sum);
            lower = tt;
            stop = inr (k, r, es, refl, b);
          }
    ]

pub get_elem?-append {ℓ} :
    {A : Type ℓ} (xs ys : List A) (j : ℕ) → get_elem? (xs ++ ys) (length xs + j) ≡ get_elem? ys j
get_elem?-append [] ys j = ap (get_elem? ys) (omega arith)
get_elem?-append (x ∷ xs) ys j =
    let index : length (x ∷ xs) + j ≡ suc (length xs + j) = omega arith in
    ap (get_elem? (x ∷ (xs ++ ys))) index ∙ get_elem?-append xs ys j

pub last_below :
    (a x : ℤ) (q : ℕ) (es : List (ℤ × ℕ))
    → AllBelow (some a) ((x, q) ∷ es)
    → int_lt (last_of (x, q) es) a ≡ true
last_below a x q [] (p, h) = p
last_below a x q ((y, r) ∷ es) (p, h) = last_below a y r es h
