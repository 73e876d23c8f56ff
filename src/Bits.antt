-- ===== src/Bits.antt =====
-- Exclusive or on machine words, from the recursion on binary digits that the native operation
-- stands for: the lowest digit, cancellation, bounds, and words split into two fields. At the end, the
-- conjunction with a mask of ones.
use Prim.Native.Nat.{min, bit_and, bit_xor, digits, differ, bit_and-bitwise, bit_xor-bitwise}
use native.Mathlib.Nat.{pow-suc}
use green_hash_tree.Prelude.Powers.{pow_pos, mod-mul}
use green_hash_tree.Prelude.{
  ℕ, zero, suc, ◌+◌, ◌-◌, ◌*◌, ◌/◌, ◌%◌, ◌^◌, ◌≤◌, ◌<◌, ◌≡◌, refl, sym, ap, ◌∙◌, arith,
}

module _ (alone : ℕ → ℕ) (digit : ℕ → ℕ → ℕ) where
  -- Two amounts of fuel that both suffice give one result.
  digits-eq : (k l a b : ℕ) → a ≤ k → a ≤ l → digits alone digit k a b ≡ digits alone digit l a b
  digits-eq zero zero a b p q = refl
  digits-eq zero (suc l) zero b p q = refl
  digits-eq zero (suc l) (suc a) b p q = absurd (omega arith)
  digits-eq (suc k) zero zero b p q = refl
  digits-eq (suc k) zero (suc a) b p q = absurd (omega arith)
  digits-eq (suc k) (suc l) zero b p q = refl
  digits-eq (suc k) (suc l) (suc a) b p q =
      ap (λ (t : ℕ). t * 2 + digit (suc a % 2) (b % 2))
        (digits-eq k l (suc a / 2) (b / 2) (omega arith) (omega arith))

  -- The lowest digit, and the rest, of an operation by digits.
  step_of :
      (op : ℕ → ℕ → ℕ)
      → ((x y : ℕ) → op x y ≡ digits alone digit x x y)
      → (x y : ℕ) → op (suc x) y ≡ op (suc x / 2) (y / 2) * 2 + digit (suc x % 2) (y % 2)
  step_of op law x y =
      let rest : digits alone digit x (suc x / 2) (y / 2) ≡ op (suc x / 2) (y / 2) =
        digits-eq x (suc x / 2) (suc x / 2) (y / 2) (omega arith) (omega arith)
        ∙ sym (law (suc x / 2) (y / 2)) in
      law (suc x) y ∙ ap (λ (t : ℕ). t * 2 + digit (suc x % 2) (y % 2)) rest

pub zero-bit_xor : (b : ℕ) → bit_xor 0 b ≡ b
zero-bit_xor b = bit_xor-bitwise 0 b

-- The lowest digit, and the rest.
pub bit_xor_step : (a b : ℕ) → bit_xor a b ≡ bit_xor (a / 2) (b / 2) * 2 + differ (a % 2) (b % 2)
bit_xor_step zero b = omega (arith, zero-bit_xor b, zero-bit_xor (b / 2))
bit_xor_step (suc a) b = step_of (λ d. d) differ bit_xor bit_xor-bitwise a b

digit_laws : (x y : ℕ) → x < 2 → y < 2 → (differ x y < 2) × (differ x (differ x y) ≡ y)
digit_laws zero y p q = (q, refl)
digit_laws (suc zero) zero p q = omega arith
digit_laws (suc zero) (suc zero) p q = omega arith
digit_laws (suc zero) (suc (suc y)) p q = absurd (omega arith)
digit_laws (suc (suc x)) y p q = absurd (omega arith)

bit_xor_halves :
    (a b : ℕ)
    → (bit_xor a b / 2 ≡ bit_xor (a / 2) (b / 2)) × (bit_xor a b % 2 ≡ differ (a % 2) (b % 2))
bit_xor_halves a b =
    omega (arith, bit_xor_step a b, digit_laws (a % 2) (b % 2) (omega arith) (omega arith))

-- Words of `k` bits are closed under exclusive or.
pub bit_xor-lt : (k a b : ℕ) → a < 2 ^ k → b < 2 ^ k → bit_xor a b < 2 ^ k
bit_xor-lt zero zero zero p q = omega arith
bit_xor-lt zero zero (suc b) p q = absurd (omega arith)
bit_xor-lt zero (suc a) b p q = absurd (omega arith)
bit_xor-lt (suc k) a b p q = omega (
  arith,
  pow-suc 2 k,
  bit_xor_step a b,
  bit_xor-lt k (a / 2) (b / 2) (omega (arith, pow-suc 2 k)) (omega (arith, pow-suc 2 k)),
  digit_laws (a % 2) (b % 2) (omega arith) (omega arith),
)

-- Exclusive or with the same word twice gives the other word back.
pub bit_xor_cancel : (k a b : ℕ) → a < 2 ^ k → bit_xor a (bit_xor a b) ≡ b
bit_xor_cancel zero zero b p = zero-bit_xor (bit_xor 0 b) ∙ zero-bit_xor b
bit_xor_cancel zero (suc a) b p = absurd (omega arith)
bit_xor_cancel (suc k) a b p = ground (
  arith,
  pow-suc 2 k,
  bit_xor_halves a b,
  bit_xor_step a (bit_xor a b),
  digit_laws (a % 2) (b % 2) (omega arith) (omega arith),
  bit_xor_cancel k (a / 2) (b / 2) (omega (arith, pow-suc 2 k)),
)

mul-pow-suc : (q k : ℕ) → q * 2 ^ suc k ≡ q * 2 ^ k * 2
mul-pow-suc q k = omega (arith, ap (λ (t : ℕ). q * t) (pow-suc 2 k))

-- A word that fits the low field leaves the high field as it is.
pub bit_xor_fields :
    (k a q r : ℕ) → a < 2 ^ k → r < 2 ^ k → bit_xor a (q * 2 ^ k + r) ≡ q * 2 ^ k + bit_xor a r
bit_xor_fields zero zero q zero p s = omega (arith, zero-bit_xor (q * 2 ^ 0 + 0), zero-bit_xor 0)
bit_xor_fields zero zero q (suc r) p s = absurd (omega arith)
bit_xor_fields zero (suc a) q r p s = absurd (omega arith)
bit_xor_fields (suc k) a q r p s = ground (
  arith,
  pow-suc 2 k,
  mul-pow-suc q k,
  bit_xor_step a (q * 2 ^ suc k + r),
  bit_xor_step a r,
  bit_xor_fields k (a / 2) q (r / 2) (omega (arith, pow-suc 2 k)) (omega (arith, pow-suc 2 k)),
)

-- A mask without ones.
bit_and-none : (a fuel : ℕ) → a ≤ fuel → bit_and a 0 ≡ 0
bit_and-none zero fuel h = bit_and-bitwise 0 0
bit_and-none (suc a) zero h = elim h [ ]
bit_and-none (suc a) (suc fuel) h =
    let low = step_of (λ d. 0) min bit_and bit_and-bitwise a 0 in
    let high = bit_and-none (suc a / 2) fuel (omega arith) in omega (arith, low, high)

-- A mask that ends in a one.
bit_and_odd : (a m : ℕ) → bit_and a (m * 2 + 1) ≡ bit_and (a / 2) m * 2 + a % 2
bit_and_odd zero m = omega (arith, bit_and-bitwise 0 (m * 2 + 1), bit_and-bitwise 0 m)
bit_and_odd (suc a) m =
    let half : (m * 2 + 1) / 2 ≡ m = omega arith in
    omega (
      arith,
      step_of (λ d. 0) min bit_and bit_and-bitwise a (m * 2 + 1),
      ap (bit_and (suc a / 2)) half,
    )

-- The mask of `k` ones.
pub bit_and-ones : (k a : ℕ) → bit_and a (2 ^ k - 1) ≡ a % 2 ^ k
bit_and-ones zero a = omega (arith, bit_and-none a a (omega arith))
bit_and-ones (suc k) a =
    let double : 2 ^ suc k ≡ 2 ^ k * 2 = omega (arith, pow-suc 2 k) in
    let mask : 2 ^ suc k - 1 ≡ (2 ^ k - 1) * 2 + 1 = omega (arith, double, pow_pos k) in
    omega (
      arith,
      ap (bit_and a) mask,
      bit_and_odd a (2 ^ k - 1),
      bit_and-ones k (a / 2),
      ap (λ (t : ℕ). a % t) double,
      mod-mul a (2 ^ k) 2 (pow_pos k) (omega arith),
    )
