-- ===== src/Gps/Invariant/Sent.antt =====
-- The state after a call: its client stands at the end of the line of the key's partition.
use green_hash_tree.Prelude.{
  ℕ, ◌<◌, ◌≡◌, refl, ap, ap₂, sym, ◌∙◌, ◌⊎◌, inl, inr, Bool-cases, true, false, List, [], ◌∷◌, ◌++◌,
  arith, ◌&&◌, ◌||◌, update, ◌==◌, eq_of_==, ==_refl, at_each, update_self, update_ne,
}
use mathlib.Core.Path.{subst}
use green_hash_tree.Prelude.Int.{ℤ}
use green_hash_tree.Msgq.{Operation, op_add, op_read, Queue, initial_lenght}
use green_hash_tree.Msgq.Fifo.{Holds}
use green_hash_tree.Substruct.{SubStruct, SubStructLaws}
use green_hash_tree.Gps.System.{Client, System, home, present, start}
use green_hash_tree.Gps.Count.{mem, IsNodup, mem-snoc, IsNodup-snoc}
use green_hash_tree.Gps.Invariant.Defs.{
  in_front-snoc, mem-in_front, request_of-eq, Waiting-later, requests, requests-eq, requests-snoc,
  pending, Pended, Waiting, Inv, Later, left_of,
}
use green_hash_tree.Gps.Invariant.Call.{made, sent, not-pending}

module _ (sub : SubStruct) (laws : SubStructLaws sub) (n : ℕ) where
  open sub use {State}

  module _ {s : System State} (inv : Inv sub laws n s) (i : ℕ) (below : i < n)
      (free : (s.clients i).waiting ≡ false) where
    module _ (key value type : ℤ) (q : Queue) (known : (type ≡ op_add) ⊎ (type ≡ op_read))
        (added : Holds q (
          requests s.clients (inv.line (home s.db.numthreads key))
          ++ (made sub laws n s.db key value type ∷ [])))
        (room : q.lenght ≡ initial_lenght) where
      abbrev o : Operation
      o = made sub laws n s.db key value type

      abbrev p : ℕ
      p = home s.db.numthreads key

      abbrev after : System State
      after = start sub laws s i o (sent sub laws n s.db key q)

      abbrev line' : ℕ → List ℕ
      line' = update inv.line p (inv.line p ++ (i ∷ []))

      client_i :
          after.clients i ≡ record { waiting = true; request = o; seen = present sub laws s.db key }
      unfolding start
      client_i = update_self s.clients i _

      same_client : {j : ℕ} → (i == j) ≡ false → after.clients j ≡ s.clients j
      unfolding start
      same_client e = update_ne s.clients i _ e

      -- A client other than `i`, from its place in a line.
      other : (r j : ℕ) → mem j (pending inv.hand inv.line r) ≡ true → (i == j) ≡ false
      other r j m = elim (Bool-cases (i == j)) [
        | inr e ↦ e
        | inl e ↦
            let absent =
              subst (λ x. mem x (pending inv.hand inv.line r) ≡ false) (eq_of_== i j e)
                (not-pending sub laws n inv i below free r) in
            let clash = sym absent ∙ m in absurd (cc clash)
      ]

      old_cell :
          (j : ℕ)
          → (s.clients j).waiting ≡ true
          → after.db.cells (s.clients j).request.retval ≡ s.db.cells (s.clients j).request.retval
      unfolding start
      old_cell j w = update_ne s.db.cells s.db.next_cell 0 (ground (arith, (inv.waiting j w).fresh))

      same_present : (k : ℤ) → present sub laws after.db k ≡ present sub laws s.db k
      unfolding present start
      same_present k =
          at_each
            (λ r.
              laws.has (after.db.substructlist r).root k ≡ laws.has (s.db.substructlist r).root k)
            p (ap (λ t. laws.has t.root k) (update_self s.db.substructlist p _))
            (λ r e. ap (λ t. laws.has t.root k) (update_ne s.db.substructlist p _ e))
            (home s.db.numthreads k)

      mem-pending :
          (r j : ℕ)
          → mem j (pending inv.hand line' r)
            ≡ (((p == r) && (i == j)) || mem j (pending inv.hand inv.line r))
      mem-pending r j =
          at_each
            (λ r.
              mem j (pending inv.hand line' r)
              ≡ (((p == r) && (i == j)) || mem j (pending inv.hand inv.line r)))
            p
            (rw (==_refl p, in_front-snoc (inv.hand p) (inv.line p) i)
              (mem-snoc j i (pending inv.hand inv.line p)))
            (λ r e. rw e refl) r

      -- Client `i` stands in the line of its own partition alone.
      landed : (r j : ℕ) → (i == j) ≡ true → mem j (pending inv.hand line' r) ≡ true → p ≡ r
      landed r j e m = elim (Bool-cases (p == r)) [
        | inl f ↦ eq_of_== p r f
        | inr f ↦
            let clash = sym e ∙ other r j (ground (arith, mem-pending r j, m, f)) in
            absurd (cc clash)
      ]

      new_Pended : (r : ℕ) → p ≡ r → Pended n after r i
      unfolding start
      new_Pended r e = record {
        below = below;
        waits = ap Client.waiting client_i;
        at_home = ap (λ c. home s.db.numthreads c.request.key) client_i ∙ e;
        unanswered =
            ap (λ c. after.db.cells c.request.retval) client_i
            ∙ update_self s.db.cells s.db.next_cell 0;
      }

      after-Pended : (r j : ℕ) → mem j (pending inv.hand line' r) ≡ true → Pended n after r j
      unfolding start
      after-Pended r j m = elim (Bool-cases (i == j)) [
        | inl e ↦ subst (λ x. Pended n after r x) (eq_of_== i j e) (new_Pended r (landed r j e m))
        | inr e ↦
            let h = inv.pended r j (ground (arith, mem-pending r j, m, e)) in
            record {
              below = h.below;
              waits = ap Client.waiting (same_client e) ∙ h.waits;
              at_home = ap (λ c. home s.db.numthreads c.request.key) (same_client e) ∙ h.at_home;
              unanswered =
                  ap (λ c. after.db.cells c.request.retval) (same_client e)
                  ∙ old_cell j h.waits
                  ∙ h.unanswered;
            }
      ]

      left_mono :
          (j r : ℕ)
          → mem j (pending inv.hand inv.line r) ≡ true
          → mem j (pending inv.hand line' r) ≡ true
      left_mono j r m = ground (arith, mem-pending r j, m)

      mine : left_of sub laws n after inv.hand line' i ≡ true
      unfolding start
      mine =
          ap (λ c. mem i (pending inv.hand line' (home s.db.numthreads c.request.key))) client_i
          ∙ ground (arith, mem-pending p i, ==_refl p, ==_refl i)

      no_answer : after.db.cells (after.clients i).request.retval ≡ 0
      no_answer = (new_Pended p refl).unanswered

      new_Waiting : Waiting sub laws n after i (left_of sub laws n after inv.hand line' i)
      unfolding start
      new_Waiting = record {
        fresh = ground (arith, ap (λ c. c.request.retval) client_i);
        typed =
            subst (λ c. (c.request.type ≡ op_add) ⊎ (c.request.type ≡ op_read)) (sym client_i)
              known;
        remembered = λ m.
            ap (λ c. present sub laws after.db c.request.key) client_i
            ∙ same_present key
            ∙ sym (ap Client.seen client_i)
            ∙ m;
        answer = record {
          range = ground (arith, no_answer);
          zero = λ m. mine;
          one_type = λ m. absurd (ground (arith, no_answer, m));
          one_seen = λ m. absurd (ground (arith, no_answer, m));
          two = λ m. absurd (ground (arith, no_answer, m));
        };
      }

      after-Waiting :
          (j : ℕ)
          → (after.clients j).waiting ≡ true
          → Waiting sub laws n after j (left_of sub laws n after inv.hand line' j)
      unfolding start
      after-Waiting j m = elim (Bool-cases (i == j)) [
        | inl e ↦
            subst (λ x. Waiting sub laws n after x (left_of sub laws n after inv.hand line' x))
              (eq_of_== i j e) new_Waiting
        | inr e ↦
            let c = same_client e in
            let waits = sym (ap Client.waiting c) ∙ m in
            Waiting-later sub laws n c (old_cell j waits) (omega arith) (λ k f. same_present k ∙ f)
              (λ f.
                ap (λ x. mem j (pending inv.hand line' (home s.db.numthreads x.request.key))) c
                ∙ left_mono j _ f)
              (inv.waiting j waits)
      ]

      spared :
          (r : ℕ) (j : ℕ)
          → mem j (pending inv.hand inv.line r) ≡ true
          → (after.clients j).request ≡ (s.clients j).request
      spared r j m = ap Client.request (same_client (other r j m))

      line-requests :
          (r : ℕ) → requests after.clients (inv.line r) ≡ requests s.clients (inv.line r)
      line-requests r =
          requests-eq after.clients s.clients (inv.line r)
            (λ j m. spared r j (mem-in_front (inv.hand r) (inv.line r) j m))

      grown-requests :
          requests after.clients (inv.line p ++ (i ∷ []))
          ≡ requests s.clients (inv.line p) ++ (o ∷ [])
      grown-requests =
          requests-snoc after.clients i (inv.line p)
          ∙ ap₂ (λ os o'. os ++ (o' ∷ [])) (line-requests p) (ap Client.request client_i)

      my_cell : (after.clients i).request.retval ≡ s.db.next_cell
      my_cell = ap (λ c. c.request.retval) client_i

      older_cell :
          (j : ℕ)
          → (i == j) ≡ false
          → (after.clients j).waiting ≡ true
          → (after.clients j).request.retval < s.db.next_cell
      older_cell j e m =
          let waits = sym (ap Client.waiting (same_client e)) ∙ m in
          ground (arith, (inv.waiting j waits).fresh, ap (λ c. c.request.retval) (same_client e))

      cell_of : (j : ℕ) → (i == j) ≡ true → (after.clients j).request.retval ≡ s.db.next_cell
      cell_of j e =
          subst (λ x. (after.clients x).request.retval ≡ s.db.next_cell) (eq_of_== i j e) my_cell

      after_unique :
          (j k : ℕ)
          → (after.clients j).waiting ≡ true
          → (after.clients k).waiting ≡ true
          → (after.clients j).request.retval ≡ (after.clients k).request.retval
          → j ≡ k
      after_unique j k wj wk e = elim (Bool-cases (i == j)) [
        | inl a ↦ elim (Bool-cases (i == k)) [
          | inl b ↦ sym (eq_of_== i j a) ∙ eq_of_== i k b
          | inr b ↦ absurd (ground (arith, e, cell_of j a, older_cell k b wk))
        ]
        | inr a ↦ elim (Bool-cases (i == k)) [
          | inl b ↦ absurd (ground (arith, e, cell_of k b, older_cell j a wj))
          | inr b ↦
              let cj = same_client a in
              let ck = same_client b in
              inv.unique j k (sym (ap Client.waiting cj) ∙ wj) (sym (ap Client.waiting ck) ∙ wk)
                (sym (ap (λ c. c.request.retval) cj) ∙ e ∙ ap (λ c. c.request.retval) ck)
        ]
      ]

      after-Inv : Inv sub laws n after
      unfolding start
      after-Inv = record {
        line = line';
        hand = inv.hand;
        queued =
            at_each (λ r. Holds (after.db.substructlist r).msgq (requests after.clients (line' r)))
              p (rw (==_refl p, grown-requests) added)
              (λ r e. rw (e, line-requests r) (inv.queued r));
        room =
            at_each (λ r. (after.db.substructlist r).msgq.lenght ≡ initial_lenght) p
              (rw (==_refl p) room) (λ r e. rw e (inv.room r));
        busy = λ r.
            at_each (λ r. (after.db.substructlist r).busy ≡ (s.db.substructlist r).busy) p
              (rw (==_refl p) refl) (λ r e. rw e refl) r
            ∙ inv.busy r
            ∙ sym (request_of-eq after.clients s.clients (inv.hand r) (inv.line r) (spared r));
        in_order =
            at_each (λ r. laws.IsOk (after.db.substructlist r).root) p
              (rw (==_refl p) (inv.in_order p)) (λ r e. rw e (inv.in_order r));
        distinct =
            at_each (λ r. IsNodup (pending inv.hand line' r)) p
              (rw (==_refl p, in_front-snoc (inv.hand p) (inv.line p) i)
                (IsNodup-snoc i (pending inv.hand inv.line p)
                  (not-pending sub laws n inv i below free p) (inv.distinct p)))
              (λ r e. rw e (inv.distinct r));
        pended = after-Pended;
        unique = after_unique;
        waiting = after-Waiting;
      }

      pub sent-Later : Later sub laws n s after
      sent-Later = record { inv = after-Inv; stays = λ k m. same_present k ∙ m }
