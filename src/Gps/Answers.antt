-- ===== src/Gps/Answers.antt =====
-- What a client reads in its cell: the outcomes of `db_put` and `db_get` in every reachable state.
use green_hash_tree.Prelude.{
  ℕ, ◌≤◌, ◌≡◌, refl, sym, ◌∙◌, ◌⊎◌, inl, inr, Bool, Bool-cases, true, false, none, some, arith,
}
use green_hash_tree.Prelude.Int.{ℤ, int_eq}
use green_hash_tree.Prelude.Run.{ok, fault}
use green_hash_tree.Msgq.{op_add, op_read, Operation, initial_lenght}
use green_hash_tree.Substruct.{SubStruct, SubStructLaws}
use green_hash_tree.Gps.{Db, db_put_poll, db_get_poll}
use green_hash_tree.Gps.System.{System, present, poll, Step, Reach, next}
use green_hash_tree.Gps.Invariant.{Answer, Reach-Inv, Step-Later, poll-sleeps}

module _ (sub : SubStruct) (laws : SubStructLaws sub) (n : ℕ) where
  open sub use {State}

  poll-one :
      (db : Db State) (o : Operation)
      → o.type ≡ op_read
      → db.cells o.retval ≡ 1
      → poll sub laws db o ≡ some (ok none)
  unfolding poll db_get_poll
  poll-one db o t e = simp (t, e) refl

  poll-two :
      (db : Db State) (o : Operation)
      → db.cells o.retval ≡ 2
      → poll sub laws db o ≡ some (ok (some db.intval))
  unfolding poll db_put_poll db_get_poll
  poll-two db o e = elim (Bool-cases (int_eq o.type op_add)) [
    | inl f ↦ simp (f, e) refl
    | inr f ↦ simp (f, e) refl
  ]

  below_three : (a : ℕ) → a ≤ 2 → (a ≡ 0) ⊎ ((a ≡ 1) ⊎ (a ≡ 2))
  below_three a h = omega (arith, h)

  -- The three ways that a test of a cell can go.
  pub data Polled (s : System State) (i : ℕ) : Type 0 where
    sleeps :
        poll sub laws s.db (s.clients i).request ≡ none
        → s.db.cells (s.clients i).request.retval ≡ 0
        → Polled s i
    absent :
        poll sub laws s.db (s.clients i).request ≡ some (ok none)
        → (s.clients i).seen ≡ false
        → Polled s i
    there :
        poll sub laws s.db (s.clients i).request ≡ some (ok (some s.db.intval))
        → present sub laws s.db (s.clients i).request.key ≡ true
        → Polled s i

  Answer-Polled : {s : System State} {i : ℕ} {left : Bool} → Answer sub laws n s i left → Polled s i
  Answer-Polled {s} {i} a = elim (below_three _ a.range) [
    | inl e ↦ sleeps (poll-sleeps sub laws n s.db (s.clients i).request e) e
    | inr (inl e) ↦ absent (poll-one s.db (s.clients i).request (a.one_type e) e) (a.one_seen e)
    | inr (inr e) ↦ there (poll-two s.db (s.clients i).request e) (a.two e)
  ]

  module _ (small : n ≤ initial_lenght) {numcpus : ℕ} {s : System State}
      (reach : Reach sub laws n numcpus s) (i : ℕ) (waits : (s.clients i).waiting ≡ true) where
    pub polled : Polled s i
    polled = Answer-Polled ((Reach-Inv sub laws n small reach).waiting i waits).answer

    -- With at most 10,000 clients, in every reachable state: the answer that a waiting client finds never
    -- runs off the end of `db_get`.
    pub poll-no_fault : ¬ (poll sub laws s.db (s.clients i).request ≡ some fault)
    poll-no_fault e = elim polled [
      | sleeps p z ↦ let clash = sym p ∙ e in cc clash
      | absent p z ↦ let clash = sym p ∙ e in cc clash
      | there p z ↦ let clash = sym p ∙ e in cc clash
    ]

    -- With at most 10,000 clients, in every reachable state: if the call of a waiting client would now
    -- return NULL, the partition of its key did not have the key when the client called.
    pub null-absent :
        poll sub laws s.db (s.clients i).request ≡ some (ok none) → (s.clients i).seen ≡ false
    null-absent e = elim polled [
      | sleeps p z ↦ let clash = sym p ∙ e in absurd (cc clash)
      | absent p z ↦ z
      | there p z ↦ let clash = sym p ∙ e in absurd (cc clash)
    ]

    -- With at most 10,000 clients, in every reachable state: if the call of a waiting client would now
    -- return a pointer, it is `intval`, and the partition of its key has the key.
    pub answer-present :
        {v : ℤ}
        → poll sub laws s.db (s.clients i).request ≡ some (ok (some v))
        → (v ≡ s.db.intval) × (present sub laws s.db (s.clients i).request.key ≡ true)
    answer-present e = elim polled [
      | sleeps p z ↦ let clash = sym p ∙ e in absurd (cc clash)
      | absent p z ↦ let clash = sym p ∙ e in absurd (cc clash)
      | there p z ↦ let same = sym e ∙ p in (cc same, z)
    ]

  -- The states that a store comes to from the state `s`.
  pub data Steps (s : System State) : System State → Type 0 where
    stop : Steps s s
    step : {t u : System State} → Steps s t → Step sub laws n t u → Steps s u

  Steps-Reach :
      {numcpus : ℕ} {s t : System State}
      → Reach sub laws n numcpus s
      → Steps s t
      → Reach sub laws n numcpus t
  Steps-Reach r stop = r
  Steps-Reach r (step ss a) = next (Steps-Reach r ss) a

  -- With at most 10,000 clients: a key that its partition has in a reachable state is there after any
  -- further steps of clients and partitions.
  pub present-Steps :
      (small : n ≤ initial_lenght) {numcpus : ℕ} {s t : System State} (key : ℤ)
      → Reach sub laws n numcpus s
      → Steps s t
      → present sub laws s.db key ≡ true
      → present sub laws t.db key ≡ true
  present-Steps small key r stop h = h
  present-Steps small key r (step ss a) h =
      (Step-Later sub laws n small (Reach-Inv sub laws n small (Steps-Reach r ss)) a).stays key
        (present-Steps small key r ss h)
