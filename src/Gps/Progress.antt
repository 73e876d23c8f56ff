-- ===== src/Gps/Progress.antt =====
-- Operations under way, and the threads that can go on.
use green_hash_tree.Prelude.{
  ℕ, ◌≤◌, ◌<◌, ◌≡◌, refl, ap, sym, ◌∙◌, ◌⊎◌, inl, inr, Bool-cases, true, false, Option, none, some,
  List, [], ◌∷◌, arith, ◌==◌, length, eq_of_==,
}
use mathlib.Core.Path.{subst}
use green_hash_tree.Prelude.Int.{ℤ, pos}
use green_hash_tree.Prelude.Run.{ok}
use green_hash_tree.Msgq.{op_add, op_read, Operation, initial_lenght, int_max}
use green_hash_tree.Msgq.Fifo.{Holds, queue_read_lem}
use green_hash_tree.Substruct.{SubStruct, SubStructLaws}
use green_hash_tree.Gps.{Partition, fetch, perform, db_put_send, db_get_send, send}
use green_hash_tree.Gps.Enqueued.{Enqueued, send-Enqueued}
use green_hash_tree.Gps.Perform.{perform_lem}
use green_hash_tree.Gps.System.{Client, System, home, poll, Reach}
use green_hash_tree.Gps.Count.{mem}
use green_hash_tree.Gps.Invariant.{
  Inv, Reach-Inv, requests, request_of, in_front, pending, line-short, length-requests,
}
use green_hash_tree.Gps.Answers.{sleeps, absent, there, polled}

-- Whether an operation is among the operations of a queue.
pub IsIn : Operation → List Operation → Type 0
IsIn o [] = ⊥
IsIn o (x ∷ xs) = (x ≡ o) ⊎ IsIn o xs

IsIn-requests :
    (f : ℕ → Client) (i : ℕ) (is : List ℕ) → mem i is ≡ true → IsIn (f i).request (requests f is)
unfolding requests IsIn
IsIn-requests f i [] m = absurd (cc m)
IsIn-requests f i (j ∷ is) m = elim (Bool-cases (j == i)) [
  | inl e ↦ inl (ap (λ x. (f x).request) (eq_of_== j i e))
  | inr e ↦ inr (IsIn-requests f i is (ground (arith, e, m)))
]

hand_or_line :
    (h : Option ℕ) (is : List ℕ) (i : ℕ)
    → mem i (in_front h is) ≡ true
    → (h ≡ some i) ⊎ (mem i is ≡ true)
hand_or_line none is i m = inr m
hand_or_line (some j) is i m = elim (Bool-cases (j == i)) [
  | inl e ↦ inl (ap some (eq_of_== j i e))
  | inr e ↦ inr (ground (arith, e, m))
]

module _ (sub : SubStruct) (laws : SubStructLaws sub) (n : ℕ) where
  open sub use {State}

  -- The partition `p` has the operation `o` before it: its thread has read it, or will.
  pub record Awaited (s : System State) (p : ℕ) (o : Operation) : Type 0 where
    pub ops : List Operation
    pub holds : Holds (s.db.substructlist p).msgq ops
    pub where_it_is : ((s.db.substructlist p).busy ≡ some o) ⊎ IsIn o ops

  -- What a partition with something before it can do: a step `read`, or a step `work`.
  pub CanGo : System State → ℕ → Type 0
  CanGo s p =
      ((part : Partition State) × ((s.db.substructlist p).busy ≡ none)
        × (fetch sub (s.db.substructlist p) ≡ ok part))
      ⊎ ((o : Operation) × (root : State) × (mark : Option ℕ) × ((s.db.substructlist p).busy
            ≡ some o)
          × (perform sub (s.db.substructlist p).root o ≡ ok (root, mark)))

  fetch-ok :
      (part : Partition State) {o : Operation} {ops : List Operation}
      → Holds part.msgq (o ∷ ops)
      → (part' : Partition State) × (fetch sub part ≡ ok part')
  unfolding fetch
  fetch-ok part {o} h =
      let (q, done, _, _, _) = queue_read_lem h in
      (record part { msgq = q; busy = some o }, rw done refl)

  module _ {s : System State} (inv : Inv sub laws n s) (p : ℕ) where
    go_hand : (j : ℕ) → inv.hand p ≡ some j → CanGo s p
    unfolding CanGo
    go_hand j held =
        let h = inv.pended p j (rw held (ground arith)) in
        let w = inv.waiting j h.waits in
        let (root, m, done, _) =
          perform_lem sub laws (s.db.substructlist p).root (s.clients j).request (inv.in_order p)
            w.typed in
        inr ((s.clients j).request, root, some m, inv.busy p ∙ ap (request_of s.clients) held, done)

    go_line :
        (is : List ℕ) (i : ℕ) → inv.line p ≡ is → inv.hand p ≡ none → mem i is ≡ true → CanGo s p
    unfolding CanGo requests
    go_line [] i e idle m = absurd (cc m)
    go_line (j ∷ is) i e idle m =
        let (part, done) = fetch-ok (s.db.substructlist p) (
          subst (λ is. Holds (s.db.substructlist p).msgq (requests s.clients is)) e
            (inv.queued p)) in
        inl (part, inv.busy p ∙ ap (request_of s.clients) idle, done)

    go_by :
        (h : Option ℕ) (i : ℕ) → inv.hand p ≡ h → mem i (in_front h (inv.line p)) ≡ true → CanGo s p
    go_by none i e m = go_line (inv.line p) i refl e m
    go_by (some j) i e m = go_hand j e

  module _ (small : n ≤ initial_lenght) {numcpus : ℕ} {s : System State}
      (reach : Reach sub laws n numcpus s) where
    inv : Inv sub laws n s
    inv = Reach-Inv sub laws n small reach

    partition : ℕ → ℕ
    partition i = home s.db.numthreads (s.clients i).request.key

    module _ (i : ℕ) (waits : (s.clients i).waiting ≡ true) where
      left :
          s.db.cells (s.clients i).request.retval ≡ 0
          → mem i (pending inv.hand inv.line (partition i)) ≡ true
      unfolding partition
      left z = (inv.waiting i waits).answer.zero z

      find :
          mem i (pending inv.hand inv.line (partition i)) ≡ true
          → Awaited s (partition i) (s.clients i).request
      find m = record {
        ops = requests s.clients (inv.line (partition i));
        holds = inv.queued (partition i);
        where_it_is = elim (hand_or_line (inv.hand (partition i)) (inv.line (partition i)) i m) [
          | inl e ↦ inl (inv.busy (partition i) ∙ ap (request_of s.clients) e)
          | inr e ↦ inr (IsIn-requests s.clients i (inv.line (partition i)) e)
        ];
      }

      -- With at most 10,000 clients, in every reachable state: a waiting client whose test of its cell
      -- would fail has its operation in the queue of its key's partition, or the partition's thread has
      -- read it and not yet carried it out.
      pub waiting-Awaited :
          poll sub laws s.db (s.clients i).request ≡ none
          → Awaited s (home s.db.numthreads (s.clients i).request.key) (s.clients i).request
      unfolding partition
      waiting-Awaited e = elim (polled sub laws n small reach i waits) [
        | sleeps f z ↦ find (left z)
        | absent f z ↦ let clash = sym f ∙ e in absurd (cc clash)
        | there f z ↦ let clash = sym f ∙ e in absurd (cc clash)
      ]

      -- With at most 10,000 clients and at least one partition, in every reachable state: while a client
      -- waits, its test of its cell would end the wait, or the partition of its key can read its queue
      -- or carry out what it has read. So the store does not deadlock.
      pub no_deadlock :
          0 < s.db.numthreads
          → (((result : Option ℤ) × (poll sub laws s.db (s.clients i).request ≡ some (ok result)))
              ⊎ ((home s.db.numthreads (s.clients i).request.key < s.db.numthreads)
                  × CanGo s (home s.db.numthreads (s.clients i).request.key)))
      unfolding partition home
      no_deadlock some_threads = elim (polled sub laws n small reach i waits) [
        | sleeps f z ↦ inr (
          omega (arith, some_threads),
          go_by inv (partition i) (inv.hand (partition i)) i refl (left z),
        )
        | absent f z ↦ inl (none, f)
        | there f z ↦ inl (some s.db.intval, f)
      ]

    -- With at most 10,000 clients, in every reachable state: while some client does not wait, every
    -- queue holds fewer operations than it has slots, so that client's call writes over none.
    pub queue-room :
        (i : ℕ)
        → i < n
        → (s.clients i).waiting ≡ false
        → (p : ℕ)
        → (ops : List Operation) × Holds (s.db.substructlist p).msgq ops
          × (length ops < (s.db.substructlist p).msgq.lenght)
    queue-room i below free p = (
      requests s.clients (inv.line p),
      inv.queued p,
      omega (
        arith,
        small,
        line-short sub laws n inv i below free p,
        inv.room p,
        length-requests s.clients (inv.line p),
      ),
    )

    goes_through :
        (i : ℕ)
        → i < n
        → (s.clients i).waiting ≡ false
        → (key value type : ℤ) → 0 < s.db.numthreads
        → (s.db.substructlist (home s.db.numthreads key)).msgq.lastadded < int_max
        → Enqueued s.db key value type (send sub s.db key value type)
    goes_through i below free key value type some_threads counted =
        let (ops, h, room) = queue-room i below free (home s.db.numthreads key) in
        send-Enqueued sub laws n s.db key value type (ground (arith, some_threads)) h room counted

    -- With at most 10,000 clients, in every reachable state: a client that does not wait can call
    -- `db_put` and `db_get` with any key, if there are partitions and the counter `lastadded` of the
    -- key's queue is below INT_MAX. The call makes an operation of its arguments, with a new cell that
    -- holds 0, and puts it behind those that wait in the queue of the key's partition; it changes no
    -- other queue and no substructure.
    pub calls-ok :
        (i : ℕ)
        → i < n
        → (s.clients i).waiting ≡ false
        → (key value : ℤ) → 0 < s.db.numthreads
        → (s.db.substructlist (home s.db.numthreads key)).msgq.lastadded < int_max
        → Enqueued s.db key value op_add (db_put_send sub s.db key value)
          × Enqueued s.db key (pos 0) op_read (db_get_send sub s.db key)
    unfolding db_put_send db_get_send
    calls-ok i below free key value some_threads counted = (
      goes_through i below free key value op_add some_threads counted,
      goes_through i below free key (pos 0) op_read some_threads counted,
    )
