-- ===== src/Prelude/Run.antt =====
-- The outcome of a piece of C code: a value, a wait for a lock or for an operation, or undefined
-- behaviour (a null pointer followed, an index out of range, a signed overflow).

use mathlib.Core.Path.{◌≡◌, sym, ◌∙◌}

pub data Run {ℓ} (A : Type ℓ) : Type ℓ where
  ok : A → Run A
  blocked : Run A
  fault : Run A

infixl 5 ◌>>=◌ ◌>>◌
abbrev pub ◌>>=◌ {ℓ κ} : {A : Type ℓ} {B : Type κ} → Run A → (A → Run B) → Run B
ok a >>= f = f a
blocked >>= f = blocked
fault >>= f = fault

abbrev pub ◌>>◌ {ℓ} : {B : Type ℓ} → Run (Unit {0}) → Run B → Run B
m >> k = m >>= λ _. k

module _ {ℓ} {A : Type ℓ} where
  -- A call has one outcome.
  pub same_outcome : {r : Run A} {x y : A} → r ≡ ok x → r ≡ ok y → x ≡ y
  same_outcome p q = let both = sym p ∙ q in cc both

  pub ok-ne-blocked : {r : Run A} {x : A} → r ≡ ok x → r ≡ blocked → ⊥
  ok-ne-blocked p q = let both = sym p ∙ q in cc both

  pub ok-ne-fault : {r : Run A} {x : A} → r ≡ ok x → r ≡ fault → ⊥
  ok-ne-fault p q = let both = sym p ∙ q in cc both

-- The run ends, with a value that satisfies `P`.
pub data Gives {ℓ κ} {A : Type ℓ} (P : A → Type κ) : Run A → Type (ℓ ⊔ κ) where
  gives : {x : A} → P x → Gives P (ok x)

-- What holds of a run holds of its value; and the rest of a run may start from that.
pub Gives-map {ℓ κ κ'} :
    {A : Type ℓ} {r : Run A} {P : A → Type κ} {Q : A → Type κ'}
    → Gives P r
    → ((x : A) → P x → Q x)
    → Gives Q r
Gives-map (gives h) weaken = gives (weaken _ h)

pub Gives-bind {ℓ κ ℓ' κ'} :
    {A : Type ℓ} {r : Run A} {P : A → Type κ}
    → {B : Type ℓ'} {rest : A → Run B} {Q : B → Type κ'} → Gives P r
    → ((x : A) → P x → Gives Q (rest x))
    → Gives Q (r >>= rest)
Gives-bind (gives h) onward = onward _ h
