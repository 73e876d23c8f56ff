-- ===== src/Tests/Gps.antt =====
-- The theorems on the store, applied to the states of a run.
use green_hash_tree.Prelude.{
  Option, ◌⊎◌, ℕ, ◌<◌, ◌≡◌, refl, true, false, length, inl, none, some, List, arith,
}
use green_hash_tree.Prelude.Int.{ℤ, pos}
use green_hash_tree.Prelude.Run.{ok, fault}
use green_hash_tree.Msgq.{
  Operation, op_add, op_read, queue_add, queue_init, queue_of, lock_mutex, unlock_mutex, store_slot,
  increment, int_max,
}
use green_hash_tree.Hash.{hash}
use green_hash_tree.Gps.Answers.{
  null-absent, answer-present, poll-no_fault, present-Steps, stop, step,
}
use green_hash_tree.Gps.Progress.{
  Awaited, CanGo, waiting-Awaited, no_deadlock, queue-room, calls-ok,
}
use green_hash_tree.Gps.Enqueued.{Enqueued}
use green_hash_tree.Gps.Perform.{Performed, perform_lem}
use green_hash_tree.Msgq.Fifo.{Holds}
use green_hash_tree.Shm.Substruct.{shm_new-IsReady}
use green_hash_tree.Shm.{HashMap, shm_new}
use green_hash_tree.Gps.{
  db_new, db_get_send, db_put_send, send, partition_of, perform, db_get_poll, db_put_poll,
}
use green_hash_tree.Gps.System.{initial, start, leave, home, return, present, poll}
use green_hash_tree.Tests.Trace.{
  S, found_nothing, reach1, reach2, reach6, s1, s2, s6, store, store_laws, told, waits0, waits1,
  was_put,
}

null-absent_example : (s6.clients 0).seen ≡ false
null-absent_example = null-absent store store_laws 2 (omega arith) reach6 0 waits0 found_nothing

answer-present_example :
    (s6.db.intval ≡ s6.db.intval)
    × (present store store_laws s6.db (s6.clients 1).request.key ≡ true)
answer-present_example = answer-present store store_laws 2 (omega arith) reach6 1 waits1 was_put

poll-no_fault_example : ¬ (poll store store_laws s6.db (s6.clients 0).request ≡ some fault)
poll-no_fault_example = poll-no_fault store store_laws 2 (omega arith) reach6 0 waits0

-- Client 0 goes on, and the key that client 1 has put is still there.
abbrev s7 : S
s7 = leave store store_laws s6 0

present-Steps_example : present store store_laws s7.db (s6.clients 1).request.key ≡ true
present-Steps_example =
    present-Steps store store_laws 2 (omega arith) (s6.clients 1).request.key reach6
      (step stop (return 0 (omega arith) waits0 found_nothing))
      (answer-present store store_laws 2 (omega arith) reach6 1 waits1 was_put).1

-- Before the thread has read a call, both clients wait.
asleep : poll store store_laws s2.db (s2.clients 0).request ≡ none
unfolding db_get_send db_put_send send partition_of queue_add queue_init queue_of lock_mutex
    unlock_mutex store_slot increment hash db_new initial start poll db_get_poll db_put_poll
asleep = refl

waits_at_2 : (s2.clients 0).waiting ≡ true
unfolding db_get_send db_put_send send partition_of queue_add queue_init queue_of lock_mutex
    unlock_mutex store_slot increment hash db_new initial start
waits_at_2 = refl

some_thread : 0 < s2.db.numthreads
unfolding db_get_send db_put_send send partition_of queue_add queue_init queue_of lock_mutex
    unlock_mutex store_slot increment hash db_new initial start
some_thread = omega arith

waiting-Awaited_example :
    Awaited store store_laws 2 s2
      (home s2.db.numthreads (s2.clients 0).request.key)
      (s2.clients 0).request
waiting-Awaited_example =
    waiting-Awaited store store_laws 2 (omega arith) reach2 0 waits_at_2 asleep

no_deadlock_example :
    ((result : Option ℤ) × (poll store store_laws s2.db (s2.clients 0).request ≡ some (ok result)))
    ⊎ ((home s2.db.numthreads (s2.clients 0).request.key < s2.db.numthreads)
        × CanGo store store_laws 2 s2 (home s2.db.numthreads (s2.clients 0).request.key))
no_deadlock_example = no_deadlock store store_laws 2 (omega arith) reach2 0 waits_at_2 some_thread

free_at_1 : (s1.clients 1).waiting ≡ false
unfolding db_get_send db_put_send send partition_of queue_add queue_init queue_of lock_mutex
    unlock_mutex store_slot increment hash db_new initial start
free_at_1 = refl

queue-room_example :
    (ops : List Operation) × Holds (s1.db.substructlist 0).msgq ops
    × (length ops < (s1.db.substructlist 0).msgq.lenght)
queue-room_example = queue-room store store_laws 2 (omega arith) reach1 1 (omega arith) free_at_1 0

some_thread_at_1 : 0 < s1.db.numthreads
unfolding db_get_send db_put_send send partition_of queue_add queue_init queue_of lock_mutex
    unlock_mutex store_slot increment hash db_new initial start
some_thread_at_1 = omega arith

counted_at_1 : (s1.db.substructlist (home s1.db.numthreads (pos 5))).msgq.lastadded < int_max
unfolding db_get_send db_put_send send partition_of queue_add queue_init queue_of lock_mutex
    unlock_mutex store_slot increment hash db_new initial start home
counted_at_1 = omega arith

calls-ok_example :
    Enqueued s1.db (pos 5) (pos 9) op_add (db_put_send store s1.db (pos 5) (pos 9))
    × Enqueued s1.db (pos 5) (pos 0) op_read (db_get_send store s1.db (pos 5))
calls-ok_example =
    calls-ok store store_laws 2 (omega arith) reach1 1 (omega arith) free_at_1 (pos 5) (pos 9)
      some_thread_at_1 counted_at_1

perform_lem_example :
    (root : HashMap) × (m : ℕ) × (perform store (shm_new 2) told ≡ ok (root, some m))
    × Performed store store_laws (shm_new 2) root told m
perform_lem_example =
    perform_lem store store_laws (shm_new 2) told (shm_new-IsReady 2 (omega arith)) (inl refl)
