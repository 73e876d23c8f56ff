-- ===== src/Gps/System.antt =====
-- `n` clients and the partitions of a store, interleaved in any order. A step is one call of
-- `queue_add` or `queue_read`, one operation of a partition, or one test of a client's cell that
-- succeeds; a test that fails changes nothing.
use green_hash_tree.Prelude.{
  ℕ, ◌%◌, ◌<◌, ◌≡◌, Bool, true, false, Option, none, some, if◌then◌else◌, update,
}
use green_hash_tree.Prelude.Int.{ℤ, pos, int_eq, to_unsigned}
use green_hash_tree.Prelude.Run.{Run, ok}
use green_hash_tree.Hash.{hash}
use green_hash_tree.Msgq.{Operation, op_add}
use green_hash_tree.Substruct.{SubStruct, SubStructLaws}
use green_hash_tree.Gps.{
  Partition, Db, db_new, db_put_send, db_get_send, db_put_poll, db_get_poll, fetch, perform,
}

-- A thread of the benchmark: whether it waits in `db_put` or `db_get`, for which operation, and
-- whether its key was there when it made the call (the last is for the statements alone).
pub record Client : Type 0 where
  pub waiting : Bool
  pub request : Operation
  pub seen : Bool

pub record System (State : Type 0) : Type 0 where
  pub db : Db State
  pub clients : ℕ → Client

-- The partition that answers for a key.
unfoldable pub home : ℕ → ℤ → ℕ
home numthreads key = hash (to_unsigned key) % numthreads

-- What a partition writes to the cell of an operation, if it writes.
unfoldable pub write_answer : (ℕ → ℕ) → ℕ → Option ℕ → ℕ → ℕ
write_answer cells a none = cells
write_answer cells a (some mark) = update cells a mark

module _ (sub : SubStruct) (laws : SubStructLaws sub) where
  open sub use {State}

  -- Whether the partition of a key has the key.
  unfoldable pub present : Db State → ℤ → Bool
  present db key = laws.has (db.substructlist (home db.numthreads key)).root key

  -- What a client that waits does on each test.
  unfoldable pub poll : Db State → Operation → Option (Run (Option ℤ))
  poll db o = if int_eq o.type op_add then db_put_poll sub db o else db_get_poll sub db o

  -- A client that starts to wait for the operation `o`.
  unfoldable pub start : System State → ℕ → Operation → Db State → System State
  start s i o db' = record {
    db = db';
    clients =
        update s.clients i (record { waiting = true; request = o; seen = present s.db o.key });
  }

  abbrev pub with_partition : Db State → ℕ → Partition State → Db State
  with_partition db p part = record db { substructlist = update db.substructlist p part }

  -- A partition that has carried out the operation `o`.
  unfoldable pub finish : System State → ℕ → Operation → State → Option ℕ → System State
  finish s p o root mark = record s {
    db = record s.db {
      substructlist =
          update s.db.substructlist p (record (s.db.substructlist p) { root = root; busy = none });
      cells = write_answer s.db.cells o.retval mark;
    };
  }

  unfoldable pub leave : System State → ℕ → System State
  leave s i = record s { clients = update s.clients i (record (s.clients i) { waiting = false }) }

  pub data Step (n : ℕ) (s : System State) : System State → Type 0 where
    put :
        (i : ℕ) (key value : ℤ) {o : Operation} {db' : Db State}
        → i < n
        → (s.clients i).waiting ≡ false
        → db_put_send sub s.db key value ≡ ok (o, db')
        → Step n s (start s i o db')
    get :
        (i : ℕ) (key : ℤ) {o : Operation} {db' : Db State}
        → i < n
        → (s.clients i).waiting ≡ false
        → db_get_send sub s.db key ≡ ok (o, db')
        → Step n s (start s i o db')
    read :
        (p : ℕ) {part : Partition State}
        → p < s.db.numthreads
        → (s.db.substructlist p).busy ≡ none
        → fetch sub (s.db.substructlist p) ≡ ok part
        → Step n s (record s { db = with_partition s.db p part })
    work :
        (p : ℕ) {o : Operation} {root : State} {mark : Option ℕ}
        → p < s.db.numthreads
        → (s.db.substructlist p).busy ≡ some o
        → perform sub (s.db.substructlist p).root o ≡ ok (root, mark)
        → Step n s (finish s p o root mark)
    return :
        (i : ℕ) {result : Option ℤ}
        → i < n
        → (s.clients i).waiting ≡ true
        → poll s.db (s.clients i).request ≡ some (ok result)
        → Step n s (leave s i)

  -- A store on a machine with `numcpus` logical processors, before any client has called it.
  unfoldable pub initial : (numcpus : ℕ) → System State
  initial numcpus = record {
    db = db_new sub numcpus;
    clients = λ i. record {
      waiting = false;
      request = record { key = pos 0; value = pos 0; type = op_add; retval = 0 };
      seen = false;
    };
  }

  pub data Reach (n numcpus : ℕ) : System State → Type 0 where
    here : Reach n numcpus (initial numcpus)
    next : {s t : System State} → Reach n numcpus s → Step n s t → Reach n numcpus t
