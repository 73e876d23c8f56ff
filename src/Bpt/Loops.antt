-- ===== src/Bpt/Loops.antt =====
-- The loops of BPT/bpt.c over the arrays of one node or two.
use green_hash_tree.Prelude.{
  ℕ, zero, suc, ◌+◌, ◌-◌, ◌/◌, ◌%◌, ◌==◌, Bool, List, [], ◌∷◌, length, if◌then◌else◌,
}
use green_hash_tree.Prelude.Int.{ℤ, int_lt, int_le}
use green_hash_tree.Prelude.Run.{Run, ok, fault, ◌>>=◌}
use green_hash_tree.Bpt.{Leaf, load, store}

-- `while (i < num_keys) { if (key >= keys[i]) i++; else break; }`, with `left` keys to go.
unfoldable pub child_index : List ℤ → ℤ → (i left : ℕ) → Run ℕ
child_index keys key i zero = ok i
child_index keys key i (suc left) = do
  k ← load keys i
  let further = child_index keys key (i + 1) left
  if int_lt key k then ok i else further

-- `keys[num_keys - 1]`
unfoldable pub last_key : {P : Type 0} → Leaf P → Run ℤ
last_key entries = if entries.num_keys == 0 then fault else load entries.keys (entries.num_keys - 1)

-- `for ( ; i < num_keys && keys[i] <= key_end; i++)`, the entries that it passes.
unfoldable pub take_range : {P : Type 0} → Leaf P → ℤ → (i left : ℕ) → Run (List (ℤ × P))
take_range entries key_end i zero = ok []
take_range entries key_end i (suc left) = do
  k ← load entries.keys i
  let more = (do
    p ← load entries.pointers i
    rest ← take_range entries key_end (i + 1) left
    ok ((k, p) ∷ rest))
  if int_le k key_end then more else ok []

-- `cut`, the size of the left part of a split.
unfoldable pub cut : ℕ → ℕ
cut n = if n % 2 == 0 then n / 2 else n / 2 + 1

-- `for (…; …; i++, j++) to[j] = from[i];`, `left` times.
unfoldable pub copy {ℓ} : {A : Type ℓ} → (to from : List A) → (i j left : ℕ) → Run (List A)
copy to from i j zero = ok to
copy to from i j (suc left) = do
  x ← load from i
  to' ← store to j x
  copy to' from (i + 1) (j + 1) left

-- The same, but the index `skip` of `to` is passed over.
unfoldable pub copy_around {ℓ} :
    {A : Type ℓ} → (to from : List A) → (skip i j left : ℕ) → Run (List A)
copy_around to from skip i j zero = ok to
copy_around to from skip i j (suc left) = do
  let j' = if j == skip then j + 1 else j
  x ← load from i
  to' ← store to j' x
  copy_around to' from skip (i + 1) (j' + 1) left

-- `for (; i < …; i++) to[i] = x;`
unfoldable pub fill {ℓ} : {A : Type ℓ} → (to : List A) → A → (i left : ℕ) → Run (List A)
fill to x i zero = ok to
fill to x i (suc left) = do to' ← store to i x; fill to' x (i + 1) left

-- The first index of a pointer, up to `num_keys`, and `num_keys + 1` without one.
unfoldable pub index_of {ℓ} : {A : Type ℓ} → (A → Bool) → List A → (i left : ℕ) → Run ℕ
index_of test xs i zero = ok i
index_of test xs i (suc left) = do
  x ← load xs i
  let further = index_of test xs (i + 1) left
  if test x then ok i else further

-- `while (xs[i] != x) i++;`, which runs off the array if there is none.
unfoldable pub seek {ℓ} : {A : Type ℓ} → (A → Bool) → (i : ℕ) → List A → Run ℕ
seek test i [] = fault
seek test i (x ∷ xs) = let further = seek test (i + 1) xs in if test x then ok i else further

-- `for (++i; i < …; i++) xs[i - 1] = xs[i];`, `left` times.
unfoldable pub shift_down {ℓ} : {A : Type ℓ} → List A → (i left : ℕ) → Run (List A)
shift_down xs i zero = ok xs
shift_down xs i (suc left) = do x ← load xs (i + 1); xs' ← store xs i x; shift_down xs' (i + 1) left

-- `keys[i]`, the word behind the keys included.
unfoldable pub load_key : Run ℤ → List ℤ → ℕ → Run ℤ
load_key behind keys i = if i == length keys then behind else load keys i
