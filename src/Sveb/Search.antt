-- ===== src/Sveb/Search.antt =====
-- The search of staticvebtree.c, and the calls that look a key up: `search_test` and `delete`.
use green_hash_tree.Prelude.{
  ℕ, zero, suc, ◌+◌, ◌*◌, ◌/◌, ◌%◌, ◌^◌, ◌==◌, Bool, true, false, if◌then◌else◌,
}
use green_hash_tree.Prelude.Int.{ℤ, int_lt, int_eq, to_unsigned}
use green_hash_tree.Prelude.Run.{Run, ok, blocked, fault, ◌>>=◌}
use green_hash_tree.Msgq.{lock_mutex, unlock_mutex}
use green_hash_tree.Sveb.{Veb, val_at, in_tree, to_root, down}

-- The loop of `search`, from the address `ad` on.
unfoldable pub search_loop : (fuel : ℕ) → ℤ → (ad last_right : ℕ) → Veb → Run (ℕ × Veb)
unfolding down
search_loop zero key ad last_right s = blocked
search_loop (suc fuel) key ad last_right s =
    let further : Run (ℕ × Veb) = (do
      v ← val_at ad s
      let less = int_lt key v
      (ad', s') ← down (if less then 0 else 1) s
      search_loop fuel key ad' (if less then last_right else ad) s') in
    if in_tree ad s then further else ok (last_right, s)

unfoldable pub search : ℤ → Veb → Run (ℕ × Veb)
unfolding search_loop to_root
search key s = do
  s1 ← to_root s
  (last_right, s2) ← search_loop (s1.max_dep + 1) key 0 0 s1
  v ← val_at last_right s2
  ok (last_right, record s2 { res = v })

-- `search` under the lock.
unfoldable pub locked_search : ℤ → Veb → Run (ℕ × Veb)
unfolding lock_mutex unlock_mutex search
locked_search key s = do
  l ← lock_mutex s.global_lock
  (it, s') ← search key (record s { global_lock = l })
  l' ← unlock_mutex s'.global_lock
  ok (it, record s' { global_lock = l' })

-- `((unsigned int)key%simsize) * 32`, a product of unsigned integers, in slots of 32 bytes.
abbrev pub key_slot : ℤ → ℕ → ℕ
key_slot key simsize = to_unsigned key % simsize * 32 % 2 ^ 32 / 32

-- The remainder by `simsize` 0 is undefined.
unfoldable pub slot_of : ℤ → Veb → Run ℕ
slot_of key s = if s.simsize == 0 then fault else ok (key_slot key s.simsize)

-- Copies the key's slot of `simdataset` to EXAMPLEDATA. Of a slot that no insertion has written, only
-- that its bytes are unknown is kept, not how far `strcpy` goes.
unfoldable pub copy_slot : ℤ → Veb → Run Veb
unfolding slot_of
copy_slot key s = do i ← slot_of key s; ok (record s { example = s.simdataset i })

unfoldable pub search_test : ℤ → Veb → Run (Bool × Veb)
unfolding locked_search copy_slot
search_test key s = do
  (it, s1) ← locked_search key s
  v ← val_at it s1
  let found : Run (Bool × Veb) = (do s2 ← copy_slot key s1; ok (true, s2))
  if int_eq v key then found else ok (false, s1)

-- `delete`
unfoldable pub delete_key : ℤ → Veb → Run (Bool × Veb)
unfolding locked_search
delete_key key s = do (it, s1) ← locked_search key s; v ← val_at it s1; ok (int_eq v key, s1)
