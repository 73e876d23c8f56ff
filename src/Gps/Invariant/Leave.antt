-- ===== src/Gps/Invariant/Leave.antt =====
-- A client sees its answer and goes on.
use green_hash_tree.Prelude.{
  ℕ, ◌≡◌, refl, ap, sym, ◌∙◌, inl, inr, Bool-cases, true, false, none, arith, ◌==◌, eq_of_==,
  at_each, update_self, update_ne,
}
use mathlib.Core.Path.{subst}
use green_hash_tree.Prelude.Int.{int_eq}
use green_hash_tree.Msgq.{Operation, op_add}
use green_hash_tree.Substruct.{SubStruct, SubStructLaws}
use green_hash_tree.Gps.{Db, db_put_poll, db_get_poll}
use green_hash_tree.Gps.System.{Client, System, home, poll, leave}
use green_hash_tree.Gps.Count.{mem}
use green_hash_tree.Gps.Invariant.Defs.{
  requests-eq, request_of-eq, pending, Pended, Inv, Later, Waiting-later,
}

module _ (sub : SubStruct) (laws : SubStructLaws sub) (n : ℕ) where
  open sub use {State}

  -- A test of an empty cell does not end the wait.
  pub poll-sleeps :
      (db : Db State) (o : Operation) → db.cells o.retval ≡ 0 → poll sub laws db o ≡ none
  unfolding poll db_put_poll db_get_poll
  poll-sleeps db o e = elim (Bool-cases (int_eq o.type op_add)) [
    | inl f ↦ simp (f, e) refl
    | inr f ↦ simp (f, e) refl
  ]

  module _ {s : System State} (inv : Inv sub laws n s) (i : ℕ)
      (answered : s.db.cells (s.clients i).request.retval ≡ 0 → ⊥) where
    abbrev after : System State
    after = leave sub laws s i

    same_client : {j : ℕ} → (i == j) ≡ false → after.clients j ≡ s.clients j
    unfolding leave
    same_client e = update_ne s.clients i _ e

    same_request : (j : ℕ) → (after.clients j).request ≡ (s.clients j).request
    unfolding leave
    same_request =
        at_each (λ j. (after.clients j).request ≡ (s.clients j).request) i
          (ap Client.request (update_self s.clients i _)) (λ j e. ap Client.request (same_client e))

    -- A client that waits afterwards is another one.
    still :
        (j : ℕ)
        → (after.clients j).waiting ≡ true
        → ((i == j) ≡ false) × ((s.clients j).waiting ≡ true)
    unfolding leave
    still =
        at_each
          (λ j.
            (after.clients j).waiting ≡ true → ((i == j) ≡ false) × ((s.clients j).waiting ≡ true))
          i
          (λ w.
            absurd (let here = sym (ap Client.waiting (update_self s.clients i _)) ∙ w in cc here))
          (λ j e w. (e, sym (ap Client.waiting (same_client e)) ∙ w))

    not-pending : (r j : ℕ) → mem j (pending inv.hand inv.line r) ≡ true → (i == j) ≡ false
    not-pending r j m = elim (Bool-cases (i == j)) [
      | inr e ↦ e
      | inl e ↦ absurd (
          answered (
            subst (λ x. s.db.cells (s.clients x).request.retval ≡ 0) (sym (eq_of_== i j e))
              (inv.pended r j m).unanswered))
    ]

    after-Pended : (r j : ℕ) → mem j (pending inv.hand inv.line r) ≡ true → Pended n after r j
    unfolding leave
    after-Pended r j m =
        let h = inv.pended r j m in
        let c = same_client (not-pending r j m) in
        record {
          below = h.below;
          waits = ap Client.waiting c ∙ h.waits;
          at_home = ap (λ c. home s.db.numthreads c.request.key) c ∙ h.at_home;
          unanswered = ap (λ c. s.db.cells c.request.retval) c ∙ h.unanswered;
        }

    after-Inv : Inv sub laws n after
    unfolding leave
    after-Inv = record {
      line = inv.line;
      hand = inv.hand;
      queued = λ r.
          rw (requests-eq after.clients s.clients (inv.line r) (λ j m. same_request j))
            (inv.queued r);
      room = inv.room;
      busy = λ r.
          inv.busy r
          ∙ sym (
              request_of-eq after.clients s.clients (inv.hand r) (inv.line r)
                (λ j m. same_request j));
      in_order = inv.in_order;
      distinct = inv.distinct;
      pended = after-Pended;
      unique = λ j k wj wk e.
          inv.unique j k ((still j wj).1) ((still k wk).1)
            (sym (ap Operation.retval (same_request j)) ∙ e ∙ ap Operation.retval (same_request k));
      waiting = λ j w.
          let (e, w') = still j w in
          let c = same_client e in
          Waiting-later sub laws n c refl (omega arith) (λ k m. m)
            (λ m.
              ap (λ x. mem j (pending inv.hand inv.line (home s.db.numthreads x.request.key))) c
              ∙ m)
            (inv.waiting j w');
    }

    -- The end of a wait keeps the invariant and all keys.
    pub leave-Later : Later sub laws n s after
    unfolding leave
    leave-Later = record { inv = after-Inv; stays = λ k m. m }
