-- ===== src/Gps/Perform.antt =====
-- What an operation that a partition carries out does to its substructure, for any substructure.
use green_hash_tree.Prelude.{
  ℕ, ◌≤◌, ◌<◌, ◌≡◌, refl, sym, ◌∙◌, ◌⊎◌, inl, inr, true, false, Option, none, some, arith, is_some,
}
use green_hash_tree.Prelude.Int.{ℤ, int_eq_refl}
use green_hash_tree.Prelude.Run.{ok}
use green_hash_tree.Msgq.{Operation, op_add, op_read}
use green_hash_tree.Substruct.{SubStruct, SubStructLaws}
use green_hash_tree.Gps.{perform, found_mark}

module _ (sub : SubStruct) (laws : SubStructLaws sub) where
  open sub use {State, Ptr, insert_into_struct, search_struct}

  -- What the answer `m` to the operation `o` says of the substructure before and after.
  pub record Performed (before root : State) (o : Operation) (m : ℕ) : Type 0 where
    pub is_ok : laws.IsOk root
    pub kept : (key : ℤ) → laws.has before key ≡ true → laws.has root key ≡ true
    pub positive : 0 < m
    pub range : m ≤ 2
    pub one_type : m ≡ 1 → o.type ≡ op_read
    pub one_absent : m ≡ 1 → laws.has before o.key ≡ false
    pub two : m ≡ 2 → laws.has root o.key ≡ true

  add-Performed :
      (before : State) (o : Operation)
      → laws.IsOk before
      → o.type ≡ op_add
      → (root : State) × (perform sub before o ≡ ok (root, some 2)) × Performed before root o 2
  unfolding perform
  add-Performed before o h e =
      let (root, done, is_ok, adds) = laws.insert_ok before o.key o.value h in
      (
        root,
        simp e (simp done refl),
        record {
          is_ok = is_ok;
          kept = λ k m. ground (arith, adds k, m);
          positive = omega arith;
          range = omega arith;
          one_type = λ m. absurd (omega (arith, m));
          one_absent = λ m. absurd (omega (arith, m));
          two = λ m. ground (arith, adds o.key, int_eq_refl o.key);
        },
      )

  found-Performed :
      (before root : State) (o : Operation) (r : Option Ptr)
      → laws.IsOk root
      → o.type ≡ op_read
      → is_some r ≡ laws.has before o.key
      → ((key : ℤ) → laws.has root key ≡ laws.has before key)
      → Performed before root o (found_mark sub r)
  found-Performed before root o none is_ok e found same = record {
    is_ok = is_ok;
    kept = λ k m. same k ∙ m;
    positive = omega arith;
    range = omega arith;
    one_type = λ m. e;
    one_absent = λ m. sym found;
    two = λ m. absurd (omega (arith, m));
  }
  found-Performed before root o (some p) is_ok e found same = record {
    is_ok = is_ok;
    kept = λ k m. same k ∙ m;
    positive = omega arith;
    range = omega arith;
    one_type = λ m. e;
    one_absent = λ m. absurd (omega (arith, m));
    two = λ m. same o.key ∙ sym found;
  }

  read-Performed :
      (before : State) (o : Operation)
      → laws.IsOk before
      → o.type ≡ op_read
      → (root : State) × (m : ℕ) × (perform sub before o ≡ ok (root, some m))
        × Performed before root o m
  unfolding perform
  read-Performed before o h e =
      let (r, root, done, is_ok, found, same) = laws.search_ok before o.key h in
      (
        root,
        found_mark sub r,
        simp e (simp done refl),
        found-Performed before root o r is_ok e found same,
      )

  -- On a substructure in order a partition carries out each addition and each search, keeps it in
  -- order and keeps its keys. It writes 1 or 2: 1 only for a search whose key is not there, 2 only if
  -- the key is there afterwards.
  pub perform_lem :
      (before : State) (o : Operation)
      → laws.IsOk before
      → (o.type ≡ op_add) ⊎ (o.type ≡ op_read)
      → (root : State) × (m : ℕ) × (perform sub before o ≡ ok (root, some m))
        × Performed before root o m
  perform_lem before o h (inl e) =
      let (root, done, f) = add-Performed before o h e in (root, 2, done, f)
  perform_lem before o h (inr e) = read-Performed before o h e
