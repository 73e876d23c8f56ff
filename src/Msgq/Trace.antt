-- ===== src/Msgq/Trace.antt =====
-- Whole schedules of calls on one queue, in the order in which the mutex is taken.
use green_hash_tree.Prelude.{
  ℕ, suc, ◌+◌, ◌-◌, ◌≤◌, ◌<◌, ◌≡◌, refl, ap, sym, ◌∙◌, List, [], ◌∷◌, ◌++◌, arith, length,
  length-append,
}
use mathlib.Core.Path.{subst₂}
use mathlib.Core.List.{append_assoc, append-nil}
use green_hash_tree.Prelude.Run.{Run, ok, ◌>>=◌}
use green_hash_tree.Msgq.{Operation, Queue, int_max, queue_add, queue_read}
use green_hash_tree.Msgq.Fifo.{Holds, queue_add_lem, queue_read_lem}

pub data Call : Type 0 where
  add : Operation → Call
  read : Call

-- The operations that the reads return, and the queue at the end.
pub run : Queue → List Call → Run (List Operation × Queue)
run q [] = ok ([], q)
run q (add o ∷ calls) = do q' ← queue_add q o; run q' calls
run q (read ∷ calls) = do (o, q') ← queue_read q; (outs, q'') ← run q' calls; ok (o ∷ outs, q'')

abbrev pub additions : List Call → List Operation
additions [] = []
additions (add o ∷ calls) = o ∷ additions calls
additions (read ∷ calls) = additions calls

-- From `waiting` operations on, no call meets a full or an empty queue of `room` slots.
abbrev pub Fits : (room waiting : ℕ) → List Call → Type 0
Fits room waiting [] = Unit
Fits room waiting (add o ∷ calls) = (waiting < room) × Fits room (waiting + 1) calls
Fits room waiting (read ∷ calls) = (0 < waiting) × Fits room (waiting - 1) calls

-- What such a schedule returns and leaves.
pub record Fifo (q : Queue) (ops : List Operation) (calls : List Call) : Type 0 where
  pub outs : List Operation
  pub final : Queue
  pub left : List Operation
  pub done : run q calls ≡ ok (outs, final)
  pub holds : Holds final left
  pub order : outs ++ left ≡ ops ++ additions calls

-- While no call meets a full or an empty queue and the counter does not reach INT_MAX, every call
-- ends, and the operations come out in the order in which they went in: none is lost, doubled or
-- overtaken, and those that have not come out wait in the queue.
pub run-Fifo :
    {q : Queue} (ops : List Operation) (calls : List Call)
    → Holds q ops
    → Fits q.lenght (length ops) calls
    → q.lastadded + length (additions calls) ≤ int_max
    → Fifo q ops calls
unfolding run
run-Fifo {q} ops [] h fits small = record {
  outs = [];
  final = q;
  left = ops;
  done = refl;
  holds = h;
  order = sym (append-nil ops);
}
run-Fifo {q} ops (add o ∷ calls) h (room, fits) small =
    let (q', done, h', same, next) = queue_add_lem o h room (omega arith) in
    let fits' : Fits q'.lenght (length (ops ++ (o ∷ []))) calls =
      rw (same, length-append ops (o ∷ [])) fits in
    let rest = run-Fifo {q = q'} (ops ++ (o ∷ [])) calls h' fits' (omega arith) in
    record {
      outs = rest.outs;
      final = rest.final;
      left = rest.left;
      done = rw done rest.done;
      holds = rest.holds;
      order = rest.order ∙ append_assoc ops (o ∷ []) (additions calls);
    }
run-Fifo {q} [] (read ∷ calls) h (some_wait, fits) small = absurd (omega arith)
run-Fifo {q} (o ∷ ops) (read ∷ calls) h (_, fits) small =
    let (q', done, h', same, next) = queue_read_lem h in
    let fits' : Fits q'.lenght (length ops) calls =
      let one_less : suc (length ops) - 1 ≡ length ops = omega arith in
      subst₂ (λ n w. Fits n w calls) (sym same) one_less fits in
    let rest = run-Fifo {q = q'} ops calls h' fits' (omega arith) in
    record {
      outs = o ∷ rest.outs;
      final = rest.final;
      left = rest.left;
      done = rw (done, rest.done) refl;
      holds = rest.holds;
      order = ap (λ t. o ∷ t) rest.order;
    }
