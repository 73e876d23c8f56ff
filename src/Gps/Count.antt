-- ===== src/Gps/Count.antt =====
-- Lists of client numbers: membership, no repetition, and how long such a list can be.
use green_hash_tree.Prelude.{
  ℕ, zero, suc, ◌≤◌, ◌<◌, ◌≡◌, refl, Bool, true, false, ◌||◌, Bool-cases, inl, inr, List, [], ◌∷◌,
  ◌++◌, arith, if◌then◌else◌, length, ◌==◌, eq_of_==,
}

abbrev pub mem : ℕ → List ℕ → Bool
mem i [] = false
mem i (x ∷ xs) = (x == i) || mem i xs

abbrev pub IsNodup : List ℕ → Type 0
IsNodup [] = Unit
IsNodup (x ∷ xs) = (mem x xs ≡ false) × IsNodup xs

abbrev pub AllBelow : ℕ → List ℕ → Type 0
AllBelow n [] = Unit
AllBelow n (x ∷ xs) = (x < n) × AllBelow n xs

pub mem-snoc : (i x : ℕ) (xs : List ℕ) → mem i (xs ++ (x ∷ [])) ≡ ((x == i) || mem i xs)
mem-snoc i x [] = refl
mem-snoc i x (y ∷ xs) = ground (arith, mem-snoc i x xs)

pub IsNodup-snoc : (x : ℕ) (xs : List ℕ) → mem x xs ≡ false → IsNodup xs → IsNodup (xs ++ (x ∷ []))
IsNodup-snoc x [] new d = (refl, tt)
IsNodup-snoc x (y ∷ xs) new (here, d) =
    (ground (arith, mem-snoc y x xs), IsNodup-snoc x xs (ground arith) d)

-- The list without the entries `v`.
remove : ℕ → List ℕ → List ℕ
remove v [] = []
remove v (x ∷ xs) = if x == v then remove v xs else x ∷ remove v xs

mem-remove : (i v : ℕ) (xs : List ℕ) → mem i xs ≡ false → mem i (remove v xs) ≡ false
unfolding remove
mem-remove i v [] h = refl
mem-remove i v (x ∷ xs) h = ground (arith, mem-remove i v xs)

IsNodup-remove : (v : ℕ) (xs : List ℕ) → IsNodup xs → IsNodup (remove v xs)
unfolding remove
IsNodup-remove v [] d = tt
IsNodup-remove v (x ∷ xs) (new, d) = elim (Bool-cases (x == v)) [
  | inl e ↦ rw e (IsNodup-remove v xs d)
  | inr e ↦ rw e (mem-remove x v xs new, IsNodup-remove v xs d)
]

AllBelow-remove : (n : ℕ) (xs : List ℕ) → AllBelow (suc n) xs → AllBelow n (remove n xs)
unfolding remove
AllBelow-remove n [] b = tt
AllBelow-remove n (x ∷ xs) (lt, b) = elim (Bool-cases (x == n)) [
  | inl e ↦ rw e (AllBelow-remove n xs b)
  | inr e ↦ rw e (ground arith, AllBelow-remove n xs b)
]

remove-absent : (v : ℕ) (xs : List ℕ) → mem v xs ≡ false → remove v xs ≡ xs
unfolding remove
remove-absent v [] h = refl
remove-absent v (x ∷ xs) h = ground (arith, remove-absent v xs)

length-remove : (v : ℕ) (xs : List ℕ) → IsNodup xs → length xs ≤ suc (length (remove v xs))
unfolding remove
length-remove v [] d = omega arith
length-remove v (x ∷ xs) (new, d) = elim (Bool-cases (x == v)) [
  | inl e ↦ rw (e, remove-absent v xs (rw (← eq_of_== x v e) new)) (omega arith)
  | inr e ↦ rw e (omega (arith, length-remove v xs d))
]

-- No more than `n` distinct numbers are below `n`.
pub length-le : (n : ℕ) (xs : List ℕ) → IsNodup xs → AllBelow n xs → length xs ≤ n
length-le zero [] d b = omega arith
length-le zero (x ∷ xs) d b = absurd (omega arith)
length-le (suc n) xs d b = omega (
  arith,
  length-remove n xs d,
  length-le n (remove n xs) (IsNodup-remove n xs d) (AllBelow-remove n xs b),
)

pub AllBelow-of_mem : (n : ℕ) (xs : List ℕ) → ((i : ℕ) → mem i xs ≡ true → i < n) → AllBelow n xs
AllBelow-of_mem n [] h = tt
AllBelow-of_mem n (x ∷ xs) h =
    (h x (ground arith), AllBelow-of_mem n xs (λ i m. h i (ground (arith, m))))
