-- ===== src/Sveb/Calls.antt =====
-- What the store calls: `insert`, `init_tree` and `initial_add` of staticvebtree.c, and its middleware,
-- vebmiddleware.c. The tree is in global variables, so NULL is passed for it.
use green_hash_tree.Prelude.{
  ℕ, zero, suc, ◌+◌, ◌*◌, ◌%◌, ◌==◌, Bool, true, false, Option, none, some, List, [], ◌∷◌,
  if◌then◌else◌, update,
}
use green_hash_tree.Prelude.Int.{ℤ, pos}
use green_hash_tree.Prelude.Run.{Run, ok, blocked, fault, ◌>>=◌}
use green_hash_tree.Msgq.{open_mutex, lock_mutex, unlock_mutex, increment}
use green_hash_tree.Shm.{indeterminate}
use green_hash_tree.Sveb.{Veb, max_int, to_root, initialize_depth}
use green_hash_tree.Sveb.Search.{slot_of, search_test}
use green_hash_tree.Sveb.Insertion.{insert_rec, resize}

-- `strcpy(destination, EXAMPLEDATA)` at the key's slot
unfoldable pub copy_example : ℤ → Veb → Run Veb
unfolding slot_of
copy_example ky s = do
  i ← slot_of ky s
  ok (record s { simdataset = update s.simdataset i s.example })

abbrev pub release : Veb → Run Veb
unfolding unlock_mutex
release s = do l ← unlock_mutex s.global_lock; ok (record s { global_lock = l })

-- `malloc` succeeds; `garbage` is what it leaves in a new `helper`.
module _ (garbage : ℕ → ℤ) where
  -- The end of `insert`, which returns 0 for a key that was in the tree.
  unfoldable pub end_insert : ℕ → Veb → Run (Bool × Veb)
  unfolding unlock_mutex resize
  end_insert c s =
      let rebuilt : Run Veb = (if c == 0 then ok s else resize garbage s) in
      let added : Run (Bool × Veb) = (do s1 ← rebuilt; s2 ← release s1; ok (true, s2)) in
      let present : Run (Bool × Veb) = (do s1 ← release s; ok (false, s1)) in
      if s.was_in then present else added

  unfoldable pub init_memory : Veb → Run Veb
  unfolding initialize_depth
  init_memory s = initialize_depth 7 (record s {
    size = 7;
    val = λ _. max_int;
    val_length = 7 + 2;
    helper = garbage;
    helper_length = 2 * 7;
  })

  unfoldable pub init_tree : ℕ → Veb → Run Veb
  unfolding init_memory
  init_tree t s = do
    s' ← init_memory (record s { n = t; simdataset = λ _. indeterminate; simsize = t })
    ok (record s' { global_lock = open_mutex })

  unfoldable pub init_struct : Veb → Run Veb
  unfolding init_tree
  init_struct s = init_tree 2_000_000 s

-- `roomy` stands for the test in floating point of `insert_rec`.
module _ (roomy : ℕ → ℕ → ℕ → Bool) (garbage : ℕ → ℤ) where
  unfoldable pub insert : ℤ → Veb → Run (Bool × Veb)
  unfolding lock_mutex to_root increment insert_rec copy_example end_insert
  insert ky s = do
    l ← lock_mutex s.global_lock
    s1 ← to_root (record s { global_lock = l })
    keys ← increment s1.keys
    let s2 = record s1 { key = ky; level = s1.max_dep; was_in = false; keys = keys }
    (c, s3) ← insert_rec roomy (s2.max_dep + 1) 0 s2
    s4 ← copy_example ky s3
    end_insert garbage c s4

  -- `initial_add`, where `rand` gives the numbers of the list in turn, and `blocked` stands for a list
  -- that is too short.
  unfoldable pub initial_add : List ℕ → (num range : ℕ) → Veb → Run Veb
  unfolding insert
  initial_add rands zero range s = ok s
  initial_add [] (suc num) range s = blocked
  initial_add (r ∷ rands) (suc num) range s =
      let next : Bool × Veb → Run Veb = (λ x.
        let more = initial_add rands (suc num) range x.1 in
        let less = initial_add rands num range x.1 in if x.0 then less else more) in
      if range == 0 then fault else (insert (pos (r % range + 1)) s >>= next)

  unfoldable pub insert_into_struct : (key value : ℤ) → Veb → Run Veb
  unfolding insert
  insert_into_struct key value s = do (added, s') ← insert key s; ok s'

-- The `int` that is returned is 1, and NULL stands for 0.
unfoldable pub search_struct : ℤ → Veb → Run (Option ℕ × Veb)
unfolding search_test
search_struct key s = do (found, s') ← search_test key s; ok (if found then some 1 else none, s')
