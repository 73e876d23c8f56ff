-- ===== src/Bpt/Middleware.antt =====
-- The B+ tree as the substructure of a store (BPT/bptmiddleware.c). The pointer to the `value` of a
-- record is the address of the record.
use green_hash_tree.Prelude.{
  ℕ, ◌≡◌, ◌<◌, ◌∙◌, refl, Option, none, some, if◌then◌else◌, inl, inr, Bool-cases, get_elem?,
}
use green_hash_tree.Prelude.Int.{ℤ, pos, int_eq}
use green_hash_tree.Prelude.Run.{ok}
use green_hash_tree.Msgq.{open_mutex}
use green_hash_tree.Bpt.Heap.{Heap, Memory, MemoryLaws, Prog, return, ◌>>=◌, bind-ok}
use green_hash_tree.Bpt.Search.{find}
use green_hash_tree.Bpt.Insertion.{insert}
use green_hash_tree.Bpt.Start.{find-insert-none}

module _ (mem : Memory) where
  unfoldable pub init_struct : (fuel : ℕ) → Prog (Option ℕ)
  unfolding insert
  init_struct fuel = insert mem fuel none (pos 0) (pos 0)

  unfoldable pub insert_into_struct : (fuel : ℕ) → Option ℕ → (key value : ℤ) → Prog (Option ℕ)
  unfolding insert
  insert_into_struct fuel root key value = insert mem fuel root key value

  unfoldable pub search_struct : (fuel : ℕ) → Option ℕ → ℤ → Prog (Option ℕ)
  unfolding find
  search_struct fuel root key = do
    node_record ← find mem fuel root key
    return (elim node_record [ none ↦ none | some r ↦ some r ])

-- A new tree has the key 0, with the value 0, before anything is inserted: a search for 0 returns that
-- record, and for any other key NULL. The global lock is free before.
pub search_struct-init_struct :
    (mem : Memory) (fuel : ℕ) (s : Heap) (key : ℤ)
    → MemoryLaws mem
    → s.global_lock ≡ open_mutex
    → 0 < fuel
    → (root : Option ℕ) × (s' : Heap) × (r : ℕ) × (init_struct mem fuel s ≡ ok (root, s'))
      × (get_elem? s'.records r ≡ some (some (record { value = pos 0; simdata = s.example })))
      × (search_struct mem fuel root key s' ≡ ok (if int_eq (pos 0) key then some r else none, s'))
unfolding init_struct search_struct
search_struct-init_struct mem fuel s key laws o n =
    let (root, s', r, done, there, got) =
      find-insert-none mem laws fuel s (pos 0) (pos 0) key o n in
    (
      some root,
      s',
      r,
      done,
      there,
      elim (Bool-cases (int_eq (pos 0) key)) [
        | inl e ↦
            let result : find mem fuel (some root) key s' ≡ ok (some r, s') = got ∙ rw e refl in
            bind-ok (find mem fuel (some root) key) _ result ∙ rw e refl
        | inr e ↦
            let result : find mem fuel (some root) key s' ≡ ok (none, s') = got ∙ rw e refl in
            bind-ok (find mem fuel (some root) key) _ result ∙ rw e refl
      ],
    )
