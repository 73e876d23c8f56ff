-- ===== src/Gps/Invariant/Reach.antt =====
-- The invariant, from a new store through every step.
use green_hash_tree.Prelude.{ℕ, ◌≤◌, refl, sym, ◌∙◌, inl, inr, none, []}
use green_hash_tree.Msgq.{initial_lenght}
use green_hash_tree.Msgq.Fifo.{queue_init-Holds, queue_init-lenght}
use green_hash_tree.Substruct.{SubStruct, SubStructLaws}
use green_hash_tree.Gps.{db_new, db_put_send, db_get_send}
use green_hash_tree.Gps.System.{
  System, Step, put, get, read, work, return, initial, Reach, here, next,
}
use green_hash_tree.Gps.Invariant.Defs.{requests, Inv, Later}
use green_hash_tree.Gps.Invariant.Send.{send-Later}
use green_hash_tree.Gps.Invariant.Take.{read-Later}
use green_hash_tree.Gps.Invariant.Work.{work-Later}
use green_hash_tree.Gps.Invariant.Leave.{poll-sleeps, leave-Later}

module _ (sub : SubStruct) (laws : SubStructLaws sub) (n : ℕ) where
  open sub use {State}

  initial-Inv : (numcpus : ℕ) → Inv sub laws n (initial sub laws numcpus)
  unfolding initial db_new requests
  initial-Inv numcpus = record {
    line = λ p. [];
    hand = λ p. none;
    queued = λ p. queue_init-Holds;
    room = λ p. queue_init-lenght;
    busy = λ p. refl;
    in_order = λ p. laws.init_ok;
    distinct = λ p. tt;
    pended = λ p i m. absurd (cc m);
    unique = λ i j w. absurd (cc w);
    waiting = λ i w. absurd (cc w);
  }

  module _ (small : n ≤ initial_lenght) where
    -- Every step keeps the invariant and all keys.
    pub Step-Later :
        {s t : System State} → Inv sub laws n s → Step sub laws n s t → Later sub laws n s t
    unfolding db_put_send db_get_send
    Step-Later inv (put i key value below free e) =
        send-Later sub laws n inv i below free small key value _ (inl refl) e
    Step-Later inv (get i key below free e) =
        send-Later sub laws n inv i below free small key _ _ (inr refl) e
    Step-Later inv (read p below idle e) = read-Later sub laws n inv p idle e
    Step-Later inv (work p below busy e) = work-Later sub laws n inv p busy e
    Step-Later {s} inv (return i below w e) =
        leave-Later sub laws n inv i (λ z.
          let clash = sym (poll-sleeps sub laws n s.db (s.clients i).request z) ∙ e in cc clash)

    pub Reach-Inv : {numcpus : ℕ} {s : System State} → Reach sub laws n numcpus s → Inv sub laws n s
    Reach-Inv {numcpus} here = initial-Inv numcpus
    Reach-Inv (next r step) = (Step-Later (Reach-Inv r) step).inv
