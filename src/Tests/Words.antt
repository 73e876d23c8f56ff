-- ===== src/Tests/Words.antt =====
-- The hashes on concrete words.
use green_hash_tree.Prelude.{◌≡◌, refl, arith}
use green_hash_tree.Prelude.Int.{to_unsigned, negsuc}
use green_hash_tree.Hash.{fold_high, mul32, hash, unhash, simplehash, simpleunhash}
use green_hash_tree.Hash.Inverse.{hash_inverse, simplehash_inverse}

hash-1 : hash 1 ≡ 824515495
unfolding hash fold_high mul32
hash-1 = refl

simplehash-minus_1 : simplehash (to_unsigned (negsuc 0)) ≡ 539527247
unfolding simplehash fold_high mul32
simplehash-minus_1 = refl

hash_inverse_example : (unhash (hash 1000) ≡ 1000) × (hash (unhash 1000) ≡ 1000)
hash_inverse_example = hash_inverse 1000 (omega arith)

simplehash_inverse_example :
    (simpleunhash (simplehash 0xffff_ffff) ≡ 0xffff_ffff)
    × (simplehash (simpleunhash 0xffff_ffff) ≡ 0xffff_ffff)
simplehash_inverse_example = simplehash_inverse 0xffff_ffff (omega arith)
