-- ===== src/Baseline.antt =====
-- The store without partitions of baseline.c, over any substructure, and a run of calls on it by one
-- thread. `malloc` succeeds; the heartbeat and POET calls, which are off by default, are left out.
use green_hash_tree.Prelude.{
  ◌≡◌, refl, ap, ap₂, ◌∙◌, Bool, Option, none, some, is_some, List, [], ◌∷◌, if◌then◌else◌, ◌||◌,
}
use green_hash_tree.Prelude.Int.{ℤ, pos, int_eq}
use green_hash_tree.Prelude.Run.{Run, ok, ◌>>=◌}
use green_hash_tree.Substruct.{SubStruct, SubStructLaws}

-- `db_t`, with the number behind `intval`.
pub record Db (State : Type 0) : Type 0 where
  pub root : State
  pub intval : ℤ

-- The calls that a client makes.
pub data Call : Type 0 where
  put : (key val : ℤ) → Call
  get : (key : ℤ) → Call

module _ (sub : SubStruct) where
  open sub use {State, Ptr, init_struct, insert_into_struct, search_struct}

  pub db_new : Db State
  db_new = record { root = init_struct; intval = pos 3579 }

  pub db_put : Db State → (key val : ℤ) → Run (Option ℤ × Db State)
  db_put db key val = do
    root ← insert_into_struct db.root key val
    ok (some db.intval, record db { root = root })

  -- What `db_get` returns for what `search_struct` returned: NULL, or `intval`.
  pub found_value : ℤ → Option Ptr → Option ℤ
  found_value intval none = none
  found_value intval (some p) = some intval

  pub db_get : Db State → (key : ℤ) → Run (Option ℤ × Db State)
  unfolding found_value
  db_get db key = do
    (i, root) ← search_struct db.root key
    ok (found_value db.intval i, record db { root = root })

  pub call : Db State → Call → Run (Option ℤ × Db State)
  unfolding db_put db_get
  call db (put key val) = db_put db key val
  call db (get key) = db_get db key

  -- The results of a sequence of calls, and the store at the end.
  pub run : Db State → List Call → Run (List (Option ℤ) × Db State)
  unfolding call
  run db [] = ok ([], db)
  run db (c ∷ cs) = do (r, db') ← call db c; (rs, db'') ← run db' cs; ok (r ∷ rs, db'')

-- What a set of keys answers: the keys that are there, and the calls.
abbrev pub expected : ℤ → (ℤ → Bool) → List Call → List (Option ℤ)
expected intval keys [] = []
expected intval keys (put key val ∷ cs) =
    some intval ∷ expected intval (λ j. int_eq key j || keys j) cs
expected intval keys (get key ∷ cs) =
    (if keys key then some intval else none) ∷ expected intval keys cs

module _ (sub : SubStruct) (laws : SubStructLaws sub) where
  open sub use {State, Ptr}

  found_value-is_some :
      (v : ℤ) (r : Option Ptr) → found_value sub v r ≡ (if is_some r then some v else none)
  unfolding found_value
  found_value-is_some v none = refl
  found_value-is_some v (some p) = refl

  put-ok :
      (db : Db State) (key val : ℤ) {root : State}
      → sub.insert_into_struct db.root key val ≡ ok root
      → call sub db (put key val) ≡ ok (some db.intval, record db { root = root })
  unfolding call db_put
  put-ok db key val done = simp done refl

  get-ok :
      (db : Db State) (key : ℤ) {root : State} {r : Option Ptr}
      → sub.search_struct db.root key ≡ ok (r, root)
      → call sub db (get key) ≡ ok (found_value sub db.intval r, record db { root = root })
  unfolding call db_get
  get-ok db key done = simp done refl

  run_cons :
      (db db' db'' : Db State) (c : Call) (cs : List Call) {r : Option ℤ} {rs : List (Option ℤ)}
      → call sub db c ≡ ok (r, db')
      → run sub db' cs ≡ ok (rs, db'')
      → run sub db (c ∷ cs) ≡ ok (r ∷ rs, db'')
  unfolding run
  run_cons db db' db'' c cs one more = simp one (simp more refl)

  expected-eq :
      (v : ℤ) (f g : ℤ → Bool) (cs : List Call)
      → ((j : ℤ) → f j ≡ g j)
      → expected v f cs ≡ expected v g cs
  expected-eq v f g cs same = ap (λ h. expected v h cs) (λ i. λ j. same j i)

  -- On a substructure that keeps its laws, a sequence of calls ends without a fault or a wait. Every
  -- `db_put` returns `intval`; a `db_get` returns `intval` if the key was there at the start or was put
  -- before, and NULL if not.
  pub run_lem :
      (db : Db State) (cs : List Call)
      → laws.IsOk db.root
      → (db' : Db State) × (run sub db cs ≡ ok (expected db.intval (laws.has db.root) cs, db'))
        × laws.IsOk db'.root
        × (db'.intval ≡ db.intval)
  unfolding run
  run_lem db [] h = (db, refl, h, refl)
  run_lem db (put key val ∷ cs) h =
      let (root, done, h', adds) = laws.insert_ok db.root key val h in
      let (db'', more, h'', same) = run_lem (record db { root = root }) cs h' in
      (
        db'',
        run_cons db (record db { root = root }) db'' (put key val) cs (put-ok db key val done) more
            ∙ ap (λ rs. ok (some db.intval ∷ rs, db'')) (expected-eq db.intval _ _ cs adds),
        h'',
        same,
      )
  run_lem db (get key ∷ cs) h =
      let (r, root, done, h', found, kept) = laws.search_ok db.root key h in
      let (db'', more, h'', same) = run_lem (record db { root = root }) cs h' in
      (
        db'',
        run_cons db (record db { root = root }) db'' (get key) cs (get-ok db key done) more
            ∙ ap₂ (λ r rs. ok (r ∷ rs, db''))
                (found_value-is_some db.intval r
                  ∙ ap (λ b. if b then some db.intval else none) found)
                (expected-eq db.intval _ _ cs kept),
        h'',
        same,
      )
