-- ===== src/Hash/Inverse.antt =====
-- The hashes of gps.c and SimpleHashMap/shm.c together with `unhash` and `simpleunhash`.
use Prim.Native.Nat.{bit_xor}
use green_hash_tree.Prelude.{ℕ, ◌+◌, ◌*◌, ◌/◌, ◌%◌, ◌^◌, ◌<◌, ◌≡◌, ap, sym, ◌∙◌, arith}
use green_hash_tree.Bits.{bit_xor-lt, bit_xor_cancel, bit_xor_fields}
use green_hash_tree.Hash.{fold_high, mul32, hash, unhash, simplehash, simpleunhash}

-- `fold_high` changes the low half alone.
fold_high-fields :
    (x : ℕ) → x < 2 ^ 32 → fold_high x ≡ x / 2 ^ 16 * 2 ^ 16 + bit_xor (x / 2 ^ 16) (x % 2 ^ 16)
unfolding fold_high
fold_high-fields x h =
    ap (bit_xor (x / 2 ^ 16)) (omega arith)
    ∙ bit_xor_fields 16 (x / 2 ^ 16) (x / 2 ^ 16) (x % 2 ^ 16) (omega arith) (omega arith)

fold_high-lt : (x : ℕ) → x < 2 ^ 32 → fold_high x < 2 ^ 32
unfolding fold_high
fold_high-lt x h = bit_xor-lt 32 (x / 2 ^ 16) x (omega arith) h

high-fold_high : (x : ℕ) → x < 2 ^ 32 → fold_high x / 2 ^ 16 ≡ x / 2 ^ 16
unfolding fold_high
high-fold_high x h = omega (
  arith,
  fold_high-fields x h,
  bit_xor-lt 16 (x / 2 ^ 16) (x % 2 ^ 16) (omega arith) (omega arith),
)

fold_high-fold_high : (x : ℕ) → x < 2 ^ 32 → fold_high (fold_high x) ≡ x
unfolding fold_high
fold_high-fold_high x h =
    ap (λ (t : ℕ). bit_xor t (fold_high x)) (high-fold_high x h)
    ∙ bit_xor_cancel 16 (x / 2 ^ 16) x (omega arith)

mul32-lt : (x c : ℕ) → mul32 x c < 2 ^ 32
unfolding mul32
mul32-lt x c = omega arith

-- 0x45d9f3b and 0x119de1f3 are inverse to one another modulo 2 ^ 32.
mul32_back : (x : ℕ) → x < 2 ^ 32 → mul32 (mul32 x 0x45d9f3b) 0x119de1f3 ≡ x
unfolding mul32
mul32_back x h = omega arith

mul32_forth : (x : ℕ) → x < 2 ^ 32 → mul32 (mul32 x 0x119de1f3) 0x45d9f3b ≡ x
unfolding mul32
mul32_forth x h = omega arith

-- One round, and the round that undoes it, with the constants as parameters.
module _ (c d : ℕ) (undo : (x : ℕ) → x < 2 ^ 32 → mul32 (mul32 x c) d ≡ x) where
  abbrev mixed : ℕ → ℕ → ℕ
  mixed e x = fold_high (mul32 (fold_high (mul32 (fold_high x) e)) e)

  mixed_undo : (x : ℕ) → x < 2 ^ 32 → mixed d (mixed c x) ≡ x
  mixed_undo x h =
      ap (λ t. fold_high (mul32 (fold_high (mul32 t d)) d)) (fold_high-fold_high p3 (mul32-lt _ c))
      ∙ ap (λ t. fold_high (mul32 (fold_high t) d)) (undo p2 (fold_high-lt p1 (mul32-lt _ c)))
      ∙ ap (λ t. fold_high (mul32 t d)) (fold_high-fold_high p1 (mul32-lt _ c))
      ∙ ap fold_high (undo (fold_high x) (fold_high-lt x h))
      ∙ fold_high-fold_high x h
    where
      p1 : ℕ
      p1 = mul32 (fold_high x) c

      p2 : ℕ
      p2 = fold_high p1

      p3 : ℕ
      p3 = mul32 p2 c

-- `unhash` undoes `hash`, and `hash` undoes `unhash`, on every 32-bit word.
pub hash_inverse : (x : ℕ) → x < 2 ^ 32 → (unhash (hash x) ≡ x) × (hash (unhash x) ≡ x)
unfolding hash unhash
hash_inverse x h = (
  mixed_undo 0x45d9f3b 0x119de1f3 mul32_back x h,
  mixed_undo 0x119de1f3 0x45d9f3b mul32_forth x h,
)

-- `simpleunhash` undoes `simplehash`, and the other way round, on every 32-bit word.
pub simplehash_inverse :
    (x : ℕ) → x < 2 ^ 32 → (simpleunhash (simplehash x) ≡ x) × (simplehash (simpleunhash x) ≡ x)
unfolding simplehash simpleunhash
simplehash_inverse x h = (
  mixed_undo 0x45d9f3b 0x119de1f3 mul32_back x h,
  mixed_undo 0x119de1f3 0x45d9f3b mul32_forth x h,
)

pub hash-lt : (x : ℕ) → hash x < 2 ^ 32
unfolding hash
hash-lt x = fold_high-lt _ (mul32-lt _ _)

-- `hash` never maps two 32-bit words to one.
pub hash-injective : (x y : ℕ) → x < 2 ^ 32 → y < 2 ^ 32 → hash x ≡ hash y → x ≡ y
hash-injective x y hx hy e = sym (hash_inverse x hx).0 ∙ ap unhash e ∙ (hash_inverse y hy).0
