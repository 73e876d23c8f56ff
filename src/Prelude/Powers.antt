-- ===== src/Prelude/Powers.antt =====
-- Powers of two, and the two parts of a number that is written in base `m`.
use Prim.Native.Nat.{ℕ, zero, suc, ◌+◌, ◌*◌, ◌/◌, ◌%◌, ◌^◌, ◌<◌}
use mathlib.Core.Path.{◌≡◌, sym, ap, ◌∙◌}
use native.Mathlib.Omega.{arith}
use native.Mathlib.Nat.{
  pow-zero, pow-suc, mul-add-mod_self_left, mod-eq_of_lt, mul-add-div_right, mul-add-mod_self_right,
  div-add-mod, mod-lt, div-eq_of_lt, div-div-eq-div-mul,
}

pub pow_pos : (k : ℕ) → 0 < 2 ^ k
pow_pos zero = omega arith
pow_pos (suc k) = omega (arith, pow-suc 2 k, pow_pos k)

pub pow-add : (k l : ℕ) → 2 ^ (k + l) ≡ 2 ^ k * 2 ^ l
pow-add zero l =
    let e : 0 + l ≡ l = omega arith in ap (λ (t : ℕ). 2 ^ t) e ∙ omega (arith, pow-zero 2)
pow-add (suc k) l =
    let e : suc k + l ≡ suc (k + l) = omega arith in
    ap (λ (t : ℕ). 2 ^ t) e
    ∙ omega (
      arith,
      pow-suc 2 (k + l),
      pow-suc 2 k,
      ap (λ (t : ℕ). t * 2 ^ l) (pow-suc 2 k),
      pow-add k l,
    )

-- The quotient and the rest determine a number.
pub div-mod_parts : (q r n : ℕ) → r < n → ((q * n + r) / n ≡ q) × ((q * n + r) % n ≡ r)
div-mod_parts q r n h =
    let d = mul-add-div_right {m = n} (omega arith) q r in
    let m = mul-add-mod_self_right q n r in (d ∙ omega (arith, div-eq_of_lt h), m ∙ mod-eq_of_lt h)

pub mod-mul : (a n m : ℕ) → 0 < n → 0 < m → a % (n * m) ≡ a / m % n * m + a % m
mod-mul a n m p q =
    let q1 = a / m / n in
    let r1 = a / m % n in
    let r0 = a % m in
    let top : n * q1 + r1 ≡ a / m = div-add-mod (a / m) n in
    let all : m * (a / m) + r0 ≡ a = div-add-mod a m in
    let lt1 : r1 < n = mod-lt (a / m) p in
    let lt0 : r0 < m = mod-lt a q in
    let small : r1 * m + r0 < n * m = grind arith in
    let whole : a ≡ n * m * q1 + (r1 * m + r0) = omega (arith, all, ap (λ (t : ℕ). m * t) top) in
    ap (λ (t : ℕ). t % (n * m)) whole
    ∙ mul-add-mod_self_left (n * m) q1 (r1 * m + r0)
    ∙ mod-eq_of_lt small

-- A number without its `k` low binary digits, and those digits, where `k + l` of them are cut off.
pub div-pow_add : (c k l : ℕ) → c / 2 ^ (k + l) ≡ c / 2 ^ k / 2 ^ l
div-pow_add c k l = ap (λ (t : ℕ). c / t) (pow-add k l) ∙ sym (div-div-eq-div-mul c (2 ^ k) (2 ^ l))

pub mod-pow_add :
    (c k l : ℕ)
    → (c % 2 ^ (k + l) / 2 ^ k ≡ c / 2 ^ k % 2 ^ l) × (c % 2 ^ (k + l) % 2 ^ k ≡ c % 2 ^ k)
mod-pow_add c k l =
    let swap : 2 ^ (k + l) ≡ 2 ^ l * 2 ^ k = omega (arith, pow-add k l) in
    let e : c % 2 ^ (k + l) ≡ c / 2 ^ k % 2 ^ l * 2 ^ k + c % 2 ^ k =
      ap (λ (t : ℕ). c % t) swap ∙ mod-mul c (2 ^ l) (2 ^ k) (pow_pos l) (pow_pos k) in
    let parts = div-mod_parts (c / 2 ^ k % 2 ^ l) (c % 2 ^ k) (2 ^ k) (mod-lt c (pow_pos k)) in
    (ap (λ (t : ℕ). t / 2 ^ k) e ∙ parts.0, ap (λ (t : ℕ). t % 2 ^ k) e ∙ parts.1)
