-- ===== src/Gps/Invariant/Call.antt =====
-- What a call of `send` does by its queue, and the clients that may make one.
use green_hash_tree.Prelude.{
  ℕ, ◌+◌, ◌<◌, ◌≡◌, refl, sym, ◌∙◌, inl, inr, Bool-cases, true, false, ◌∷◌, arith, update, ◌==◌,
  length,
}
use green_hash_tree.Prelude.Int.{ℤ}
use green_hash_tree.Prelude.Run.{ok, fault}
use green_hash_tree.Msgq.{Operation, Queue, queue_add}
use green_hash_tree.Substruct.{SubStruct, SubStructLaws}
use green_hash_tree.Gps.{Db, send}
use green_hash_tree.Gps.System.{System, home}
use green_hash_tree.Gps.Count.{mem, length-le, AllBelow-of_mem}
use green_hash_tree.Gps.Invariant.Defs.{length-in_front, pending, Inv}

module _ (sub : SubStruct) (laws : SubStructLaws sub) (n : ℕ) where
  open sub use {State}

  -- The operation that `send` makes, and the store that it leaves, its queue being `q`.
  abbrev pub made : Db State → (key value type : ℤ) → Operation
  made db key value type = record { key = key; value = value; type = type; retval = db.next_cell }

  abbrev pub sent : Db State → ℤ → Queue → Db State
  sent db key q =
      let p = home db.numthreads key in
      record db {
        substructlist = update db.substructlist p (record (db.substructlist p) { msgq = q });
        cells = update db.cells db.next_cell 0;
        next_cell = db.next_cell + 1;
      }

  pub send-ok :
      (db : Db State) (key value type : ℤ) {q : Queue}
      → (db.numthreads == 0) ≡ false
      → queue_add (db.substructlist (home db.numthreads key)).msgq (made db key value type) ≡ ok q
      → send sub db key value type ≡ ok (made db key value type, sent db key q)
  unfolding send home
  send-ok db key value type some_threads done = simp (some_threads, done) refl

  pub send-fault :
      (db : Db State) (key value type : ℤ)
      → (db.numthreads == 0) ≡ true
      → send sub db key value type ≡ fault
  unfolding send
  send-fault db key value type none_there = simp none_there refl

  pub send-overflow :
      (db : Db State) (key value type : ℤ)
      → (db.numthreads == 0) ≡ false
      → queue_add (db.substructlist (home db.numthreads key)).msgq (made db key value type) ≡ fault
      → send sub db key value type ≡ fault
  unfolding send home
  send-overflow db key value type some_threads done = simp (some_threads, done) refl

  module _ {s : System State} (inv : Inv sub laws n s) (i : ℕ) (below : i < n)
      (free : (s.clients i).waiting ≡ false) where
    pub not-pending : (p : ℕ) → mem i (pending inv.hand inv.line p) ≡ false
    not-pending p = elim (Bool-cases (mem i (pending inv.hand inv.line p))) [
      | inr e ↦ e
      | inl e ↦ let clash = sym free ∙ (inv.pended p i e).waits in absurd (cc clash)
    ]

    -- Each client has one operation under way, so no line grows to the length of a queue.
    pub line-short : (p : ℕ) → length (inv.line p) < n
    line-short p = omega (
      arith,
      length-in_front (inv.hand p) (inv.line p),
      length-le n (i ∷ pending inv.hand inv.line p) (not-pending p, inv.distinct p)
          (below, AllBelow-of_mem n _ (λ j m. (inv.pended p j m).below)),
    )
