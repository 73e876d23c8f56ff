-- ===== src/Gps/Invariant/Send.antt =====
-- A client calls `db_put` or `db_get`, and the call goes through.
use green_hash_tree.Prelude.{
  ℕ, ◌≤◌, ◌<◌, ◌≡◌, ◌∙◌, ◌⊎◌, inl, inr, Bool-cases, true, false, arith, ltb, ◌==◌,
}
use mathlib.Core.Path.{subst}
use green_hash_tree.Prelude.Int.{ℤ}
use green_hash_tree.Prelude.Run.{ok, same_outcome, ok-ne-fault}
use green_hash_tree.Msgq.{Operation, op_add, op_read, int_max, Queue, initial_lenght}
use green_hash_tree.Msgq.Fifo.{queue_add_lem, queue_add-overflow}
use green_hash_tree.Substruct.{SubStruct, SubStructLaws}
use green_hash_tree.Gps.{Db, send}
use green_hash_tree.Gps.System.{System, home, start}
use green_hash_tree.Gps.Invariant.Defs.{length-requests, Inv, Later}
use green_hash_tree.Gps.Invariant.Call.{made, send-ok, send-fault, send-overflow, line-short}
use green_hash_tree.Gps.Invariant.Sent.{sent-Later}

module _ (sub : SubStruct) (laws : SubStructLaws sub) (n : ℕ) where
  open sub use {State}

  module _ {s : System State} (inv : Inv sub laws n s) (i : ℕ) (below : i < n)
      (free : (s.clients i).waiting ≡ false) where
    module _ (small : n ≤ initial_lenght) (key value type : ℤ)
        (known : (type ≡ op_add) ⊎ (type ≡ op_read)) {o : Operation} {db' : Db State}
        (e : send sub s.db key value type ≡ ok (o, db')) where
      some_threads : (s.db.numthreads == 0) ≡ false
      some_threads = elim (Bool-cases (s.db.numthreads == 0)) [
        | inr f ↦ f
        | inl f ↦ absurd (
            ok-ne-fault {r = send sub s.db key value type} e
              (send-fault sub laws n s.db key value type f))
      ]

      abbrev queue : Queue
      queue = (s.db.substructlist (home s.db.numthreads key)).msgq

      counted : ltb queue.lastadded int_max ≡ true
      counted = elim (Bool-cases (ltb queue.lastadded int_max)) [
        | inl f ↦ f
        | inr f ↦ absurd (
            ok-ne-fault {r = send sub s.db key value type} e (
              send-overflow sub laws n s.db key value type some_threads
                (queue_add-overflow _ (inv.queued (home s.db.numthreads key)) f)))
      ]

      -- A call that goes through keeps the invariant and all keys.
      pub send-Later : Later sub laws n s (start sub laws s i o db')
      send-Later =
          let p = home s.db.numthreads key in
          let (q, done, holds, same, _) =
            queue_add_lem (made sub laws n s.db key value type) (inv.queued p)
              (omega (
                arith,
                small,
                line-short sub laws n inv i below free p,
                inv.room p,
                length-requests s.clients (inv.line p),
              ))
              (ground (arith, counted)) in
          let out =
            same_outcome {r = send sub s.db key value type}
              (send-ok sub laws n s.db key value type some_threads done) e in
          subst (λ x. Later sub laws n s (start sub laws s i x.0 x.1)) out
            (sent-Later sub laws n inv i below free key value type q known holds
              (same ∙ inv.room p))
