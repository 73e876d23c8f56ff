-- ===== src/Gps/Enqueued.antt =====
-- A call of `send` (gps.c) that gets its operation into the queue of the key's partition.
use green_hash_tree.Prelude.{
  ℕ, ◌<◌, ◌≡◌, refl, false, List, [], ◌∷◌, ◌++◌, ◌+◌, update, ◌==◌, length,
}
use green_hash_tree.Prelude.Int.{ℤ}
use green_hash_tree.Prelude.Run.{Run, ok}
use green_hash_tree.Msgq.{Operation, Queue, int_max}
use green_hash_tree.Msgq.Fifo.{Holds, queue_add_lem}
use green_hash_tree.Substruct.{SubStruct, SubStructLaws}
use green_hash_tree.Gps.{Db, send}
use green_hash_tree.Gps.System.{home}
use green_hash_tree.Gps.Invariant.{made, sent, send-ok}

-- `out` has made an operation `o` of the call, whose answer goes to a new cell that holds 0, and has
-- put it behind the operations that waited in the queue of the key's partition, that queue being `q`
-- afterwards. Nothing else of the partitions is changed.
pub record Enqueued {State : Type 0} (db : Db State) (key value type : ℤ)
    (out : Run (Operation × Db State)) : Type 0 where
  pub o : Operation
  pub db' : Db State
  pub ops : List Operation
  pub q : Queue
  pub done : out ≡ ok (o, db')
  pub called : o ≡ record { key = key; value = value; type = type; retval = db.next_cell }
  pub before : Holds (db.substructlist (home db.numthreads key)).msgq ops
  pub after : Holds q (ops ++ (o ∷ []))
  pub stored :
      let p = home db.numthreads key in
      db'.substructlist ≡ update db.substructlist p (record (db.substructlist p) { msgq = q })
  pub unanswered : db'.cells ≡ update db.cells o.retval 0
  pub taken : db'.next_cell ≡ db.next_cell + 1

module _ (sub : SubStruct) (laws : SubStructLaws sub) (n : ℕ) where
  open sub use {State}

  -- With a slot left in the queue and its counter below INT_MAX, `send` does so.
  pub send-Enqueued :
      {ops : List Operation} (db : Db State) (key value type : ℤ)
      → (db.numthreads == 0) ≡ false
      → Holds (db.substructlist (home db.numthreads key)).msgq ops
      → length ops < (db.substructlist (home db.numthreads key)).msgq.lenght
      → (db.substructlist (home db.numthreads key)).msgq.lastadded < int_max
      → Enqueued db key value type (send sub db key value type)
  send-Enqueued {ops} db key value type some_threads h room counted =
      let o = made sub laws n db key value type in
      let (q, done, holds, _, _) = queue_add_lem o h room counted in
      record {
        o = o;
        db' = sent sub laws n db key q;
        ops = ops;
        q = q;
        done = send-ok sub laws n db key value type some_threads done;
        called = refl;
        before = h;
        after = holds;
        stored = refl;
        unanswered = refl;
        taken = refl;
      }
