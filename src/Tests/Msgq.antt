-- ===== src/Tests/Msgq.antt =====
-- Queues with two slots, and the theorems on queues applied to them.
use green_hash_tree.Prelude.{◌≡◌, refl, some, [], ◌∷◌, arith}
use green_hash_tree.Prelude.Int.{pos}
use green_hash_tree.Prelude.Run.{ok}
use green_hash_tree.Msgq.{Operation, Queue, open_mutex, op_add, op_read, queue_add, queue_read}
use green_hash_tree.Msgq.Fifo.{Holds, queue_add_lem, queue_add_full}
use green_hash_tree.Msgq.Trace.{add, read, Fifo, run-Fifo}

abbrev first : Operation
first = record { key = pos 3; value = pos 30; type = op_add; retval = 0 }

abbrev second : Operation
second = record { key = pos 4; value = pos 0; type = op_read; retval = 1 }

-- A queue of two slots that has been used before, with `first` and `second` in it.
abbrev full : Queue
full = record {
  array = some second ∷ some first ∷ [];
  lenght = 2;
  current = 5;
  lastadded = 7;
  mutex = open_mutex;
}

full-Holds : Holds full (first ∷ second ∷ [])
full-Holds = record {
  sized = refl;
  positive = omega arith;
  free = refl;
  counted = refl;
  fits = omega arith;
  small = omega arith;
  slots = (refl, (refl, tt));
}

-- The same after `first` has been read.
abbrev half : Queue
half = record full { current = 6 }

half-Holds : Holds half (second ∷ [])
half-Holds = record {
  sized = refl;
  positive = omega arith;
  free = refl;
  counted = refl;
  fits = omega arith;
  small = omega arith;
  slots = (refl, tt);
}

queue_add_lem_example :
    (q : Queue) × (queue_add half first ≡ ok q)
    × Holds q (second ∷ first ∷ [])
    × (q.lenght ≡ 2)
    × (q.lastadded ≡ 8)
queue_add_lem_example = queue_add_lem first half-Holds (omega arith) (omega arith)

queue_add_full_example :
    (q1 q2 : Queue) × (queue_add full first ≡ ok q1)
    × (queue_read q1 ≡ ok (first, q2))
    × (q2.current ≡ 6)
queue_add_full_example = queue_add_full first full-Holds refl (omega arith)

run-Fifo_example : Fifo half (second ∷ []) (add first ∷ read ∷ add second ∷ read ∷ [])
run-Fifo_example =
    run-Fifo (second ∷ []) (add first ∷ read ∷ add second ∷ read ∷ []) half-Holds
      (omega arith, (omega arith, (omega arith, (omega arith, tt)))) (omega arith)
