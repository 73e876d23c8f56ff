-- ===== src/Bpt/Tree/Order.antt =====
-- What the order of a tree says of its entries.
use green_hash_tree.Prelude.{
  ℕ, ◌≡◌, refl, ap, sym, ◌∙◌, true, false, Option, none, some, List, [], ◌∷◌, ◌++◌, get_elem?,
  length, arith,
}
use green_hash_tree.Prelude.Int.{
  ℤ, int_lt, int_eq, int_lt_above, int_lt_asym, int_lt_ne, int_lt_irrefl, int_lt_trans,
}
use green_hash_tree.Bpt.Tree.{
  Tree, leaf, inner, Forest, last, more, entries, entries_in, leaves, leaves_in, flat, assoc, Below,
  AllBelow, SortedAbove, IsSorted, IsDivided, IsDividedIn,
}

pub append_assoc {ℓ} : {A : Type ℓ} (xs ys zs : List A) → (xs ++ ys) ++ zs ≡ xs ++ (ys ++ zs)
append_assoc [] ys zs = refl
append_assoc (x ∷ xs) ys zs = ap (◌∷◌ x) (append_assoc xs ys zs)

pub append_nil {ℓ} : {A : Type ℓ} (xs : List A) → xs ++ [] ≡ xs
append_nil [] = refl
append_nil (x ∷ xs) = ap (◌∷◌ x) (append_nil xs)

pub Below-trans : (high : Option ℤ) (a b : ℤ) → Below high a → int_lt b a ≡ true → Below high b
Below-trans none a b h e = tt
Below-trans (some l) a b h e = int_lt_trans b a l e h

pub AllBelow-weaken :
    (high : Option ℤ) (k : ℤ) (es : List (ℤ × ℕ))
    → Below high k
    → AllBelow (some k) es
    → AllBelow high es
AllBelow-weaken high k [] h a = tt
AllBelow-weaken high k ((x, r) ∷ es) h (q, a) =
    (Below-trans high k x h q, AllBelow-weaken high k es h a)

pub AllBelow-up :
    (k key : ℤ) (es : List (ℤ × ℕ))
    → int_lt key k ≡ false
    → AllBelow (some k) es
    → AllBelow (some key) es
AllBelow-up k key [] h a = tt
AllBelow-up k key ((x, r) ∷ es) h (q, a) = (int_lt_above x k key q h, AllBelow-up k key es h a)

pub AllBelow-append :
    (high : Option ℤ) (xs ys : List (ℤ × ℕ))
    → AllBelow high xs
    → AllBelow high ys
    → AllBelow high (xs ++ ys)
AllBelow-append high [] ys a b = b
AllBelow-append high ((x, r) ∷ xs) ys (q, a) b = (q, AllBelow-append high xs ys a b)

mutual
  unfolding entries IsDivided

  -- All keys of a divided tree are below its upper bound.
  pub entries-AllBelow :
      (low high : Option ℤ) (t : Tree) → IsDivided low high t → AllBelow high (entries t)
  entries-AllBelow low high (leaf a es) h = h
  entries-AllBelow low high (inner a f) h = entries_in-AllBelow low high f h

  pub entries_in-AllBelow :
      (low high : Option ℤ) (f : Forest) → IsDividedIn low high f → AllBelow high (entries_in f)
  entries_in-AllBelow low high (last t) h = entries-AllBelow low high t h
  entries_in-AllBelow low high (more t k f) (p, q, h, g) =
      AllBelow-append high (entries t) (entries_in f)
        (AllBelow-weaken high k (entries t) q (entries-AllBelow low (some k) t h))
        (entries_in-AllBelow (some k) high f g)

pub flat-append : (xs ys : List (ℕ × List (ℤ × ℕ))) → flat (xs ++ ys) ≡ flat xs ++ flat ys
flat-append [] ys = refl
flat-append ((a, es) ∷ xs) ys =
    ap (λ l. es ++ l) (flat-append xs ys) ∙ sym (append_assoc es (flat xs) (flat ys))

mutual
  unfolding entries leaves

  -- The entries of a tree are those of its leaves.
  pub flat-leaves : (t : Tree) → flat (leaves t) ≡ entries t
  flat-leaves (leaf a es) = append_nil es
  flat-leaves (inner a f) = flat-leaves_in f

  pub flat-leaves_in : (f : Forest) → flat (leaves_in f) ≡ entries_in f
  flat-leaves_in (last t) = flat-leaves t
  flat-leaves_in (more t k f) =
      flat-append (leaves t) (leaves_in f)
      ∙ ap (λ l. l ++ flat (leaves_in f)) (flat-leaves t)
      ∙ ap (λ l. entries t ++ l) (flat-leaves_in f)

-- A key above all is not there.
pub assoc_below : (key : ℤ) (es : List (ℤ × ℕ)) → AllBelow (some key) es → assoc key es ≡ none
assoc_below key [] a = refl
assoc_below key ((x, r) ∷ es) (q, a) = let e = int_lt_ne x key q in rw e (assoc_below key es a)

-- A key that is not above a lower bound is not there.
pub assoc_above :
    (key l : ℤ) (es : List (ℤ × ℕ)) → int_lt l key ≡ false → SortedAbove l es → assoc key es ≡ none
assoc_above key l [] h s = refl
assoc_above key l ((x, r) ∷ es) h (p, s) =
    let e : int_eq x key ≡ false = ground (arith, h, p) in
    let up : int_lt x key ≡ false = ground (arith, h, p) in rw e (assoc_above key x es up s)

pub assoc-append_none :
    (key : ℤ) (xs ys : List (ℤ × ℕ)) → assoc key xs ≡ none → assoc key (xs ++ ys) ≡ assoc key ys
assoc-append_none key [] ys h = refl
assoc-append_none key ((x, r) ∷ xs) ys h = ground (arith, h, assoc-append_none key xs ys)

pub assoc-append_left :
    (key : ℤ) (xs ys : List (ℤ × ℕ)) → assoc key ys ≡ none → assoc key (xs ++ ys) ≡ assoc key xs
assoc-append_left key [] ys h = h
assoc-append_left key ((x, r) ∷ xs) ys h = ground (arith, assoc-append_left key xs ys h)

-- The last of some entries.
abbrev pub last_of : ℤ × ℕ → List (ℤ × ℕ) → ℤ
last_of (x, q) [] = x
last_of (x, q) (e ∷ es) = last_of e es

pub get_elem?-last :
    (e : ℤ × ℕ) (es : List (ℤ × ℕ))
    → (r : ℕ) × (get_elem? (e ∷ es) (length es) ≡ some (last_of e es, r))
get_elem?-last (x, q) [] = (q, refl)
get_elem?-last (x, q) (e ∷ es) = get_elem?-last e es

pub SortedAbove-suffix : (l : ℤ) (xs ys : List (ℤ × ℕ)) → SortedAbove l (xs ++ ys) → IsSorted ys
SortedAbove-suffix l [] [] s = tt
SortedAbove-suffix l [] ((y, r) ∷ ys) (p, s) = s
SortedAbove-suffix l ((x, r) ∷ xs) ys (p, s) = SortedAbove-suffix x xs ys s

pub IsSorted-suffix : (xs ys : List (ℤ × ℕ)) → IsSorted (xs ++ ys) → IsSorted ys
IsSorted-suffix [] ys s = s
IsSorted-suffix ((x, r) ∷ xs) ys s = SortedAbove-suffix x xs ys s

-- What follows some sorted entries is above their last key.
pub SortedAbove-last :
    (x : ℤ) (q : ℕ) (es ys : List (ℤ × ℕ))
    → SortedAbove x (es ++ ys)
    → SortedAbove (last_of (x, q) es) ys
SortedAbove-last x q [] ys s = s
SortedAbove-last x q ((y, r) ∷ es) ys (p, s) = SortedAbove-last y r es ys s

pub last_above :
    (x : ℤ) (q : ℕ) (es ys : List (ℤ × ℕ))
    → SortedAbove x (es ++ ys)
    → int_lt (last_of (x, q) es) x ≡ false
last_above x q [] ys s = int_lt_irrefl x
last_above x q ((y, p) ∷ es) ys (a, s) =
    int_lt_asym x _ (int_lt_above x y (last_of (y, p) es) a (last_above y p es ys s))

-- Where the last key is below a key, all are.
pub AllBelow-last :
    (key x : ℤ) (q : ℕ) (es ys : List (ℤ × ℕ))
    → SortedAbove x (es ++ ys)
    → int_lt (last_of (x, q) es) key ≡ true
    → AllBelow (some key) ((x, q) ∷ es)
AllBelow-last key x q [] ys s h = (h, tt)
AllBelow-last key x q ((y, p) ∷ es) ys (a, s) h =
    let up = int_lt_above x y (last_of (y, p) es) a (last_above y p es ys s) in
    (int_lt_trans x (last_of (y, p) es) key up h, AllBelow-last key y p es ys s h)

pub SortedAbove-prefix :
    (l : ℤ) (xs ys : List (ℤ × ℕ)) → SortedAbove l (xs ++ ys) → SortedAbove l xs
SortedAbove-prefix l [] ys s = tt
SortedAbove-prefix l ((x, r) ∷ xs) ys (p, s) = (p, SortedAbove-prefix x xs ys s)

-- A later entry is above an earlier one.
pub SortedAbove-later :
    (l : ℤ) (xs : List (ℤ × ℕ)) (y : ℤ) (r : ℕ) (ys : List (ℤ × ℕ))
    → SortedAbove l (xs ++ ((y, r) ∷ ys))
    → int_lt l y ≡ true
SortedAbove-later l [] y r ys (p, s) = p
SortedAbove-later l ((x, q) ∷ xs) y r ys (p, s) =
    int_lt_trans l x y p (SortedAbove-later x xs y r ys s)
