-- ===== src/Sveb/Answers.antt =====
-- What `search_test` and `delete` answer, and what they change.
use green_hash_tree.Prelude.{
  ℕ, ◌<◌, ◌≡◌, refl, sym, ap, ◌∙◌, inl, inr, Bool, true, false, Bool-cases, if◌then◌else◌, ◌==◌,
  arith,
}
use green_hash_tree.Prelude.Int.{ℤ, int_eq, int_lt}
use green_hash_tree.Prelude.Run.{ok, Gives, gives, Gives-bind}
use green_hash_tree.Msgq.{Mutex, open_mutex, held, lock_mutex, unlock_mutex}
use green_hash_tree.Shm.{Chars}
use green_hash_tree.Sveb.{Veb, max_int, val_at}
use green_hash_tree.Sveb.Cursor.{moved, read-ok}
use green_hash_tree.Sveb.Contents.{contains}
use green_hash_tree.Sveb.Lookup.{IsPerfect, keys_of, IsSearchTree, Found, search_lem}
use green_hash_tree.Sveb.Search.{
  locked_search, copy_slot, key_slot, slot_of, search_test, delete_key,
}

-- The state with the lock of the tree in another state; the tree in it is the same.
abbrev pub with_lock : Mutex → Veb → Veb
with_lock l s = record s { global_lock = l }

abbrev same_tree : (l : Mutex) (s : Veb) → IsPerfect s → IsPerfect (with_lock l s)
same_tree l s z = record {
  levels = z.levels;
  deep = z.deep;
  laid = z.laid;
  few = z.few;
  low = z.low;
  sized = z.sized;
  long = z.long;
}

-- The answer for a key, and the state: of the tree nothing has changed but where the program stands.
pub record Answer (s : Veb) (z : IsPerfect s) (key : ℤ) (example : Bool → Chars) (r : Bool × Veb)
    : Type 0 where
  pub answer : r.0 ≡ contains key (keys_of s z)
  pub h : ℕ
  pub bf : ℕ
  pub anc : ℕ → ℕ
  pub res : ℤ
  pub state :
      r.1 ≡ record (moved s h bf anc) { res = res; global_lock = open_mutex; example = example r.0 }

module _ (s : Veb) (z : IsPerfect s) (o : IsSearchTree s z) (key : ℤ)
    (g : int_lt key max_int ≡ true) (free : s.global_lock ≡ open_mutex) where
  locked_search_lem :
      Gives (Found (with_lock open_mutex s) (same_tree open_mutex s z) key) (locked_search key s)
  unfolding locked_search lock_mutex unlock_mutex
  locked_search_lem =
      let taken : lock_mutex s.global_lock ≡ ok held = ap lock_mutex free in
      rw taken (
        Gives-bind (search_lem (with_lock held s) (same_tree held s z) o key g) λ r y.
          let locked : r.1.global_lock ≡ held = ap (λ (x : Veb). x.global_lock) y.state in
          rw (ap unlock_mutex locked) (
            gives (record {
              bound = y.bound;
              found = y.found;
              h = y.h;
              bf = y.bf;
              anc = y.anc;
              state = ap (with_lock open_mutex) y.state;
            })))

  -- In an unlocked search tree `delete` of a key below INT_MAX ends, answers whether the key is in the
  -- tree, and takes nothing out: of the state, only where the program stands and `res` change.
  pub delete_key_lem : Gives (Answer s z key (λ b. s.example)) (delete_key key s)
  unfolding delete_key
  delete_key_lem = Gives-bind locked_search_lem λ r y.
      let read : val_at r.0 r.1 ≡ ok (s.val r.0) =
        ap (val_at r.0) y.state ∙ read-ok s.val s.val_length r.0 (omega (arith, y.bound, z.long)) in
      rw read (
        gives (record {
          answer = y.found;
          h = y.h;
          bf = y.bf;
          anc = y.anc;
          res = s.val r.0;
          state = y.state;
        }))

  -- In an unlocked search tree, with slots in `simdataset`, `search_test` of a key below INT_MAX ends
  -- and answers whether the key is in the tree. It copies the key's slot to EXAMPLEDATA if it is; else
  -- only where the program stands and `res` change.
  pub search_test_lem :
      0 < s.simsize
      → Gives
          (Answer s z key (λ b. if b then s.simdataset (key_slot key s.simsize) else s.example))
          (search_test key s)
  unfolding search_test copy_slot slot_of
  search_test_lem pos = Gives-bind locked_search_lem λ r y.
      let read : val_at r.0 r.1 ≡ ok (s.val r.0) =
        ap (val_at r.0) y.state ∙ read-ok s.val s.val_length r.0 (omega (arith, y.bound, z.long)) in
      let nonzero : (s.simsize == 0) ≡ false = ground arith in
      let slot : slot_of key r.1 ≡ ok (key_slot key s.simsize) =
        ap (slot_of key) y.state ∙ rw nonzero refl in
      elim (Bool-cases (int_eq (s.val r.0) key)) [
        | inl e ↦
            rw (read, e, slot)
              (gives (record {
                answer = sym e ∙ y.found;
                h = y.h;
                bf = y.bf;
                anc = y.anc;
                res = s.val r.0;
                state =
                    ap (λ (x : Veb). record x { example = x.simdataset (key_slot key s.simsize) })
                      y.state;
              }))
        | inr e ↦
            rw (read, e)
              (gives (record {
                answer = sym e ∙ y.found;
                h = y.h;
                bf = y.bf;
                anc = y.anc;
                res = s.val r.0;
                state = y.state;
              }))
      ]
