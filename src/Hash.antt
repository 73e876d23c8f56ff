-- ===== src/Hash.antt =====
-- The integer hash of gps.c, which picks a partition, and of SimpleHashMap/shm.c, which picks a
-- bucket, each with its inverse function. Both work on `unsigned int`: 32-bit words.
pub mod Inverse
use Prim.Native.Nat.{bit_xor}
use green_hash_tree.Prelude.{ℕ, ◌*◌, ◌/◌, ◌%◌, ◌^◌}

-- `(x >> 16) ^ x`
unfoldable pub fold_high : ℕ → ℕ
fold_high x = bit_xor (x / 2 ^ 16) x

-- `x * c` on `unsigned int`
unfoldable pub mul32 : ℕ → ℕ → ℕ
mul32 x c = x * c % 2 ^ 32

-- gps.c
unfoldable pub hash : ℕ → ℕ
unfolding fold_high mul32
hash x =
    let y = mul32 (fold_high x) 0x45d9f3b in let z = mul32 (fold_high y) 0x45d9f3b in fold_high z

unfoldable pub unhash : ℕ → ℕ
unfolding fold_high mul32
unhash x =
    let y = mul32 (fold_high x) 0x119de1f3 in let z = mul32 (fold_high y) 0x119de1f3 in fold_high z

-- SimpleHashMap/shm.c
unfoldable pub simplehash : ℕ → ℕ
unfolding fold_high mul32
simplehash x =
    let y = mul32 (fold_high x) 0x45d9f3b in let z = mul32 (fold_high y) 0x45d9f3b in fold_high z

unfoldable pub simpleunhash : ℕ → ℕ
unfolding fold_high mul32
simpleunhash x =
    let y = mul32 (fold_high x) 0x119de1f3 in let z = mul32 (fold_high y) 0x119de1f3 in fold_high z
