-- ===== src/Sveb/Insert.antt =====
-- `insert` of a key whose way ends at a node without a key: no subtree is built anew.
use green_hash_tree.Prelude.{
  ℕ, suc, ◌+◌, ◌-◌, ◌/◌, ◌^◌, ◌<◌, ◌≡◌, refl, sym, ap, ◌∙◌, Bool, true, false, ltb, update, ◌==◌,
  ◌||◌, arith,
}
use green_hash_tree.Prelude.Int.{ℤ, int_eq, int_lt}
use green_hash_tree.Prelude.Run.{ok, ◌>>=◌, Gives, gives, Gives-bind, Gives-map}
use green_hash_tree.Msgq.{open_mutex, held, lock_mutex, unlock_mutex, increment, int_max}
use green_hash_tree.Sveb.{Veb, max_int}
use green_hash_tree.Sveb.Cursor.{address-root, moved, to_root_lem}
use green_hash_tree.Sveb.Contents.{contains}
use green_hash_tree.Sveb.Descent.{Standing}
use green_hash_tree.Sveb.Subtrees.{IsPath}
use green_hash_tree.Sveb.Lookup.{IsPerfect, keys_of, IsSearchTree}
use green_hash_tree.Sveb.Way.{insert_rec_place}
use green_hash_tree.Sveb.Sorted.{put_key, contains-put_key}
use green_hash_tree.Sveb.Place.{HasPlace, Placed, placed}
use green_hash_tree.Sveb.Search.{key_slot, slot_of, search_test}
use green_hash_tree.Sveb.Answers.{search_test_lem}
use green_hash_tree.Sveb.Insertion.{insert_rec}
use green_hash_tree.Sveb.Calls.{insert, copy_example, end_insert}

-- A tree that has a key more.
pub record Added (s : Veb) (z : IsPerfect s) (key : ℤ) (r : Bool × Veb) : Type 0 where
  pub answer : r.0 ≡ true
  pub perfect : IsPerfect r.1
  pub ordered : IsSearchTree r.1 perfect
  pub keys_eq : keys_of r.1 perfect ≡ put_key key (keys_of s z)
  pub count : r.1.keys ≡ s.keys + 1
  pub copied : r.1.simdataset ≡ update s.simdataset (key_slot key s.simsize) s.example
  pub free : r.1.global_lock ≡ open_mutex
  pub slots : r.1.simsize ≡ s.simsize
  pub size_eq : r.1.size ≡ s.size

increment-ok : (n : ℕ) → n < int_max → increment n ≡ ok (n + 1)
unfolding increment
increment-ok n h = let e : ltb n int_max ≡ true = ground arith in rw e refl

held-unlock : unlock_mutex held ≡ ok open_mutex
unfolding unlock_mutex
held-unlock = refl

open-lock : lock_mutex open_mutex ≡ ok held
unfolding lock_mutex
open-lock = refl

-- The end of `insert` for a key that was put in its place.
end_insert-zero :
    (garbage : ℕ → ℤ) (key : ℤ) (s : Veb)
    → s.global_lock ≡ held
    → s.was_in ≡ false
    → (s.simsize == 0) ≡ false
    → (copy_example key s >>= end_insert garbage 0)
      ≡ ok (
        true,
        record s {
          global_lock = open_mutex;
          simdataset = update s.simdataset (key_slot key s.simsize) s.example;
        },
      )
unfolding copy_example slot_of end_insert
end_insert-zero garbage key s taken new nonzero =
    let opened : unlock_mutex s.global_lock ≡ ok open_mutex = ap unlock_mutex taken ∙ held-unlock in
    rw (nonzero, new, opened) refl

-- In an unlocked search tree, for a key other than INT_MAX whose way from the root ends at a node
-- without a key and with none below it, and with a count of keys that stays an `int` and slots in
-- `simdataset`, `insert` ends and returns 1. The result is an unlocked search tree of the same size, with
-- the key put in its place among the keys, a count one higher, and EXAMPLEDATA in the slot of the key.
pub insert_place :
    (roomy : ℕ → ℕ → ℕ → Bool) (garbage : ℕ → ℤ) (s : Veb) (z : IsPerfect s) (key : ℤ)
    → IsSearchTree s z
    → int_eq max_int key ≡ false
    → HasPlace z.laid key s.val (suc z.levels) 1
    → s.global_lock ≡ open_mutex
    → s.keys < int_max
    → 0 < s.simsize
    → Gives (Added s z key) (insert roomy garbage key s)
unfolding insert
insert_place roomy garbage s z key o g place free few slots =
    let t = z.laid in
    let d = suc z.levels in
    let locked : Veb = record s { global_lock = held } in
    let (anc, begun, there) = to_root_lem t locked refl z.deep z.few in
    let begin : Veb = record (moved locked s.max_dep 1 anc) {
      key = key;
      level = s.max_dep;
      was_in = false;
      keys = s.keys + 1;
    } in
    let standing : Standing t begin.val d 1 0 begin = record {
      here = record {
        table = there.table;
        height = there.height;
        path = there.path;
        anc = there.anc;
      };
      inside = omega arith;
      vals = refl;
      sized = z.sized;
      long = z.long;
      known = λ h. sym (address-root t);
    } in
    let none : d - d ≡ 0 = omega arith in
    let root : IsPath d d 1 = ap (λ (x : ℕ). 1 / 2 ^ x) none in
    let q : Placed t roomy (suc d) d 1 0 begin =
      insert_rec_place t roomy z.few z.low (suc d) d 1 0 begin (omega arith) standing root o g
        place in
    let fuel : s.max_dep + 1 ≡ suc d = omega (arith, z.deep) in
    let nonzero : (s.simsize == 0) ≡ false = ground arith in
    let taken : lock_mutex s.global_lock ≡ ok held = ap lock_mutex free ∙ open-lock in
    let after : Veb = record (placed begin q.val q.h q.bf q.anc q.level) {
      global_lock = open_mutex;
      simdataset = update s.simdataset (key_slot key s.simsize) s.example;
    } in
    let start : insert roomy garbage key s ≡ (
        insert_rec roomy (s.max_dep + 1) 0 begin >>= λ r.
        copy_example key r.1 >>= end_insert garbage r.0) =
      rw (taken, begun, increment-ok s.keys few) refl in
    let added : (insert_rec roomy (s.max_dep + 1) 0 begin >>= λ r.
    copy_example key r.1 >>= end_insert garbage r.0)
        ≡ ok (true, after) =
      rw (fuel, q.runs)
        (end_insert-zero garbage key (placed begin q.val q.h q.bf q.anc q.level) refl refl
          nonzero) in
    let runs : insert roomy garbage key s ≡ ok (true, after) = start ∙ added in
    rw runs (
      gives (record {
        answer = refl;
        perfect = record {
          levels = z.levels;
          deep = z.deep;
          laid = t;
          few = z.few;
          low = z.low;
          sized = z.sized;
          long = z.long;
        };
        ordered = q.written.ordered;
        keys_eq = q.written.keys_eq;
        count = refl;
        copied = refl;
        free = refl;
        slots = refl;
        size_eq = refl;
      }))

-- In an unlocked search tree, for a key other than INT_MAX whose way from the root ends at a node
-- without a key and with none below it, and with a count of keys that stays an `int` and slots in
-- `simdataset`: an `insert` of that key and then a `search_test` of any key below INT_MAX end, and the
-- answer is whether it is the key put in, or was in the tree before.
pub search_test-insert :
    (roomy : ℕ → ℕ → ℕ → Bool) (garbage : ℕ → ℤ) (s : Veb) (z : IsPerfect s) (key k : ℤ)
    → IsSearchTree s z
    → int_eq max_int key ≡ false
    → int_lt k max_int ≡ true
    → HasPlace z.laid key s.val (suc z.levels) 1
    → s.global_lock ≡ open_mutex
    → s.keys < int_max
    → 0 < s.simsize
    → Gives
        (λ (r : Bool × Veb). r.0 ≡ int_eq key k || contains k (keys_of s z))
        (insert roomy garbage key s >>= λ r. search_test k r.1)
search_test-insert roomy garbage s z key k o g g' place free few slots =
    Gives-bind (insert_place roomy garbage s z key o g place free few slots) λ r a.
      let slots' : 0 < r.1.simsize = omega (arith, a.slots, slots) in
      Gives-map (search_test_lem r.1 a.perfect a.ordered k g' a.free slots')
        λ q w. w.answer ∙ ap (contains k) a.keys_eq ∙ contains-put_key k key (keys_of s z)
