-- ===== src/Gps.antt =====
-- The partitioned store of gps.c: `db_put` and `db_get` send an operation to the partition that the
-- key hashes to and wait at a cell for the answer; a thread for each partition reads its queue and
-- works on its own substructure. `malloc` always succeeds.
pub mod System
pub mod Count
pub mod Perform
pub mod Invariant
pub mod Answers
pub mod Enqueued
pub mod Progress
use green_hash_tree.Prelude.{
  ℕ, zero, suc, ◌+◌, ◌/◌, ◌%◌, Bool, true, false, Option, none, some, if◌then◌else◌, ◌==◌, update,
}
use green_hash_tree.Prelude.Int.{ℤ, pos, int_eq, to_unsigned}
use green_hash_tree.Prelude.Run.{Run, ok, fault, ◌>>=◌}
use green_hash_tree.Hash.{hash}
use green_hash_tree.Msgq.{Operation, op_add, op_read, Queue, queue_init, queue_add, queue_read}
use green_hash_tree.Substruct.{SubStruct}

-- `substruct_t`, and what its thread keeps in `subStructFunc`: the root of its substructure, and the
-- operation that it has read and not yet carried out.
pub record Partition (State : Type 0) : Type 0 where
  pub msgq : Queue
  pub cpunum : ℕ
  pub root : State
  pub busy : Option Operation

-- `db_t` with the memory that clients and partitions share: the cells behind `retval`, and the
-- address that `malloc` gives out next. `*intval` is INT32_MAX.
pub record Db (State : Type 0) : Type 0 where
  pub numthreads : ℕ
  pub substructlist : ℕ → Partition State
  pub intval : ℤ
  pub cells : ℕ → ℕ
  pub next_cell : ℕ

module _ (sub : SubStruct) where
  open sub use {State, Ptr, init_struct, insert_into_struct, search_struct}

  -- `db_new` on a machine with `numcpus` logical processors, every thread at the head of its loop.
  unfoldable pub db_new : (numcpus : ℕ) → Db State
  db_new numcpus = record {
    numthreads = numcpus / 2;
    substructlist =
        λ i. record { msgq = queue_init; cpunum = 1 + i + i; root = init_struct; busy = none };
    intval = pos 0x7fff_ffff;
    cells = λ a. 0;
    next_cell = 0;
  }

  -- `hash(key) % db_data->numthreads`, a division by zero without partitions.
  unfoldable pub partition_of : ℕ → ℤ → Run ℕ
  partition_of numthreads key =
      if numthreads == 0 then fault else ok (hash (to_unsigned key) % numthreads)

  -- What `db_put` and `db_get` do before they wait: the cell, and the operation put into the queue.
  unfoldable pub send : Db State → (key value type : ℤ) → Run (Operation × Db State)
  unfolding partition_of
  send db key value type = do
    i ← partition_of db.numthreads key
    let o : Operation = record { key = key; value = value; type = type; retval = db.next_cell }
    let part = db.substructlist i
    q ← queue_add part.msgq o
    ok (
      o,
      record db {
        substructlist = update db.substructlist i (record part { msgq = q });
        cells = update db.cells db.next_cell 0;
        next_cell = db.next_cell + 1;
      },
    )

  unfoldable pub db_put_send : Db State → (key value : ℤ) → Run (Operation × Db State)
  unfolding send
  db_put_send db key value = send db key value op_add

  unfoldable pub db_get_send : Db State → (key : ℤ) → Run (Operation × Db State)
  unfolding send
  db_get_send db key = send db key (pos 0) op_read

  -- One test of the cell in `while(*o.retval == 0)`: `none` means to sleep and test again.
  -- `db_put` then returns `intval`.
  unfoldable pub db_put_poll : Db State → Operation → Option (Run (Option ℤ))
  db_put_poll db o = if db.cells o.retval == 0 then none else some (ok (some db.intval))

  -- `db_get` returns NULL (`none`) or `intval`; any other answer runs off the end of the function.
  unfoldable pub db_get_poll : Db State → Operation → Option (Run (Option ℤ))
  db_get_poll db o =
      let answer = db.cells o.retval in
      if answer == 0
      then none
      else some
          (if answer == 1 then ok none else if answer == 2 then ok (some db.intval) else fault)

  -- The head of the loop in `subStructFunc`: the next operation, or a wait.
  unfoldable pub fetch : Partition State → Run (Partition State)
  fetch part = do (o, q) ← queue_read part.msgq; ok (record part { msgq = q; busy = some o })

  -- The answer to a search: 1 for NULL, 2 for a pointer.
  abbrev pub found_mark : Option Ptr → ℕ
  found_mark none = 1
  found_mark (some p) = 2

  -- The rest of the loop: the new root, and what is written to `*o.retval`, if anything.
  unfoldable pub perform : State → Operation → Run (State × Option ℕ)
  perform root o =
      if int_eq o.type op_add
      then (do root' ← insert_into_struct root o.key o.value; ok (root', some 2))
      else if int_eq o.type op_read
      then (do (i, root') ← search_struct root o.key; ok (root', some (found_mark i)))
      else ok (root, none)
