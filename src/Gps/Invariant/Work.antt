-- ===== src/Gps/Invariant/Work.antt =====
-- A partition carries out the operation in its hand and answers its client.
use green_hash_tree.Prelude.{
  ℕ, ◌≡◌, refl, ap, sym, ◌∙◌, inl, inr, Bool, Bool-cases, true, false, Option, none, some, ◌∷◌,
  arith, update, ◌==◌, eq_of_==, ==_refl, at_each, update_self, update_ne,
}
use mathlib.Core.Path.{subst}
use green_hash_tree.Prelude.Int.{ℤ}
use green_hash_tree.Prelude.Run.{ok, same_outcome}
use green_hash_tree.Msgq.{Operation, initial_lenght}
use green_hash_tree.Msgq.Fifo.{Holds}
use green_hash_tree.Substruct.{SubStruct, SubStructLaws}
use green_hash_tree.Gps.{perform}
use green_hash_tree.Gps.Perform.{Performed, perform_lem}
use green_hash_tree.Gps.System.{Client, System, home, present, write_answer, finish}
use green_hash_tree.Gps.Count.{mem, IsNodup}
use green_hash_tree.Gps.Invariant.Defs.{
  requests, in_front, request_of, pending, Pended, Answer, Waiting, Inv, Later, left_of,
  Waiting-later,
}

module _ (sub : SubStruct) (laws : SubStructLaws sub) (n : ℕ) where
  open sub use {State}

  mem-held :
      {s : System State} (inv : Inv sub laws n s) (p i : ℕ)
      → inv.hand p ≡ some i
      → mem i (pending inv.hand inv.line p) ≡ true
  mem-held inv p i held = rw held (ground arith)

  -- Partition `p` has carried out the operation of client `i`, with the answer `m`.
  module _ {s : System State} (inv : Inv sub laws n s) (p : ℕ) (i : ℕ) (root : State) (m : ℕ)
      (held : inv.hand p ≡ some i)
      (f : Performed sub laws (s.db.substructlist p).root root (s.clients i).request m) where
    abbrev o : Operation
    o = (s.clients i).request

    abbrev after : System State
    after = finish sub laws s p o root (some m)

    abbrev hand' : ℕ → Option ℕ
    hand' = update inv.hand p none

    before-eq : (r : ℕ) → (p == r) ≡ true → pending inv.hand inv.line r ≡ i ∷ inv.line r
    before-eq r e =
        ap (λ h. in_front h (inv.line r)) (subst (λ x. inv.hand x ≡ some i) (eq_of_== p r e) held)

    after-eq : (r : ℕ) → (p == r) ≡ true → pending hand' inv.line r ≡ inv.line r
    after-eq r e = ap (λ h. in_front h (inv.line r)) {y = none} (rw e refl)

    other-eq : (r : ℕ) → (p == r) ≡ false → pending hand' inv.line r ≡ pending inv.hand inv.line r
    other-eq r e = ap (λ h. in_front h (inv.line r)) (update_ne inv.hand p none e)

    mem-i : mem i (pending inv.hand inv.line p) ≡ true
    mem-i = mem-held inv p i held

    mine : Pended n s p i
    mine = inv.pended p i mem-i

    mem-less :
        (r j : ℕ)
        → mem j (pending hand' inv.line r) ≡ true
        → mem j (pending inv.hand inv.line r) ≡ true
    mem-less r j m = elim (Bool-cases (p == r)) [
      | inl e ↦ ground (arith, ap (mem j) (before-eq r e), ap (mem j) (after-eq r e), m)
      | inr e ↦ sym (ap (mem j) (other-eq r e)) ∙ m
    ]

    mem-kept :
        (r j : ℕ)
        → (i == j) ≡ false
        → mem j (pending inv.hand inv.line r) ≡ true
        → mem j (pending hand' inv.line r) ≡ true
    mem-kept r j ne m = elim (Bool-cases (p == r)) [
      | inl e ↦ ground (arith, ap (mem j) (before-eq r e), ap (mem j) (after-eq r e), m, ne)
      | inr e ↦ ap (mem j) (other-eq r e) ∙ m
    ]

    distinct' : (r : ℕ) → IsNodup (pending hand' inv.line r)
    distinct' r = elim (Bool-cases (p == r)) [
      | inl e ↦ rw (after-eq r e) ((subst IsNodup (before-eq r e) (inv.distinct r)).1)
      | inr e ↦ subst IsNodup (sym (other-eq r e)) (inv.distinct r)
    ]

    gone : (r : ℕ) → mem i (pending hand' inv.line r) ≡ true → ⊥
    gone r m = elim (Bool-cases (p == r)) [
      | inl e ↦
          ground (
            arith,
            ap (mem i) (after-eq r e),
            m,
            (subst IsNodup (before-eq r e) (inv.distinct r)).0,
          )
      | inr e ↦ ground (arith, e, mine.at_home, (inv.pended r i (mem-less r i m)).at_home)
    ]

    -- The cells of other clients that wait are not the one that was written.
    old_cell :
        (j : ℕ)
        → (i == j) ≡ false
        → (s.clients j).waiting ≡ true
        → after.db.cells (s.clients j).request.retval ≡ s.db.cells (s.clients j).request.retval
    unfolding finish write_answer
    old_cell j e w = elim (Bool-cases (o.retval == (s.clients j).request.retval)) [
      | inl f ↦
          let same = inv.unique i j mine.waits w (eq_of_== _ _ f) in
          absurd (ground (arith, e, same))
      | inr f ↦ update_ne s.db.cells o.retval m f
    ]

    my_cell : after.db.cells o.retval ≡ m
    unfolding finish write_answer
    my_cell = update_self s.db.cells o.retval m

    kept_present :
        (key : ℤ) → present sub laws s.db key ≡ true → present sub laws after.db key ≡ true
    unfolding present finish
    kept_present key =
        at_each
          (λ r.
            laws.has (s.db.substructlist r).root key ≡ true
            → laws.has (after.db.substructlist r).root key ≡ true)
          p (λ h. ap (λ t. laws.has t.root key) (update_self s.db.substructlist p _) ∙ f.kept key h)
          (λ r e h. ap (λ t. laws.has t.root key) (update_ne s.db.substructlist p _ e) ∙ h)
          (home s.db.numthreads key)

    -- Where the operation's key is, before and after.
    before_present : present sub laws s.db o.key ≡ laws.has (s.db.substructlist p).root o.key
    unfolding present
    before_present = ap (λ r. laws.has (s.db.substructlist r).root o.key) mine.at_home

    after_present : present sub laws after.db o.key ≡ laws.has root o.key
    unfolding present finish
    after_present =
        ap (λ r. laws.has (after.db.substructlist r).root o.key) mine.at_home
        ∙ ap (λ t. laws.has t.root o.key) (update_self s.db.substructlist p _)

    was_absent : m ≡ 1 → (s.clients i).seen ≡ false
    was_absent h = elim (Bool-cases (s.clients i).seen) [
      | inr e ↦ e
      | inl e ↦
          absurd (
            ground (arith, (inv.waiting i mine.waits).remembered e, before_present, f.one_absent h))
    ]

    answered : (left : Bool) → Answer sub laws n after i left
    unfolding finish
    answered left = record {
      range = ground (arith, my_cell, f.range);
      zero = λ e. absurd (ground (arith, my_cell, e, f.positive));
      one_type = λ e. f.one_type (sym my_cell ∙ e);
      one_seen = λ e. was_absent (sym my_cell ∙ e);
      two = λ e. after_present ∙ f.two (sym my_cell ∙ e);
    }

    new_Waiting : (left : Bool) → Waiting sub laws n after i left
    unfolding finish
    new_Waiting left =
        let w = inv.waiting i mine.waits in
        record {
          fresh = w.fresh;
          typed = w.typed;
          remembered = λ e. kept_present _ (w.remembered e);
          answer = answered left;
        }

    after-Waiting :
        (j : ℕ)
        → (s.clients j).waiting ≡ true
        → Waiting sub laws n after j (left_of sub laws n after hand' inv.line j)
    unfolding finish
    after-Waiting j w = elim (Bool-cases (i == j)) [
      | inl e ↦
          subst (λ x. Waiting sub laws n after x (left_of sub laws n after hand' inv.line x))
            (eq_of_== i j e) (new_Waiting _)
      | inr e ↦
          Waiting-later sub laws n refl (old_cell j e w) (omega arith) kept_present (mem-kept _ j e)
            (inv.waiting j w)
    ]

    after-Pended : (r j : ℕ) → mem j (pending hand' inv.line r) ≡ true → Pended n after r j
    unfolding finish
    after-Pended r j e =
        let h = inv.pended r j (mem-less r j e) in
        let ne : (i == j) ≡ false = elim (Bool-cases (i == j)) [
          | inr g ↦ g
          | inl g ↦ absurd (
              gone r
                (subst (λ x. mem x (pending hand' inv.line r) ≡ true) (sym (eq_of_== i j g)) e))
        ] in
        record {
          below = h.below;
          waits = h.waits;
          at_home = h.at_home;
          unanswered = old_cell j ne h.waits ∙ h.unanswered;
        }

    after-Inv : Inv sub laws n after
    unfolding finish
    after-Inv = record {
      line = inv.line;
      hand = hand';
      queued =
          at_each (λ r. Holds (after.db.substructlist r).msgq (requests s.clients (inv.line r))) p
            (rw (==_refl p) (inv.queued p)) (λ r e. rw e (inv.queued r));
      room =
          at_each (λ r. (after.db.substructlist r).msgq.lenght ≡ initial_lenght) p
            (rw (==_refl p) (inv.room p)) (λ r e. rw e (inv.room r));
      busy =
          at_each (λ r. (after.db.substructlist r).busy ≡ request_of s.clients (hand' r)) p
            (rw (==_refl p) refl) (λ r e. rw e (inv.busy r));
      in_order =
          at_each (λ r. laws.IsOk (after.db.substructlist r).root) p (rw (==_refl p) f.is_ok)
            (λ r e. rw e (inv.in_order r));
      distinct = distinct';
      pended = after-Pended;
      unique = inv.unique;
      waiting = after-Waiting;
    }

    worked : Later sub laws n s after
    worked = record { inv = after-Inv; stays = kept_present }

  hand-some :
      (clients : ℕ → Client) (h : Option ℕ) {o : Operation}
      → request_of clients h ≡ some o
      → (i : ℕ) × (h ≡ some i) × ((clients i).request ≡ o)
  hand-some clients none e = absurd (cc e)
  hand-some clients (some i) e = (i, refl, cc e)

  module _ {s : System State} (inv : Inv sub laws n s) (p : ℕ) where
    work-of :
        (i : ℕ) {root : State} {mark : Option ℕ}
        → inv.hand p ≡ some i
        → perform sub (s.db.substructlist p).root (s.clients i).request ≡ ok (root, mark)
        → Later sub laws n s (finish sub laws s p (s.clients i).request root mark)
    work-of i held e =
        let h = inv.pended p i (mem-held inv p i held) in
        let w = inv.waiting i h.waits in
        let (root', m, done, f) =
          perform_lem sub laws (s.db.substructlist p).root (s.clients i).request (inv.in_order p)
            w.typed in
        let out =
          same_outcome {r = perform sub (s.db.substructlist p).root (s.clients i).request} done e in
        subst (λ x. Later sub laws n s (finish sub laws s p (s.clients i).request x.0 x.1)) out
          (worked inv p i root' m held f)

    -- A partition that answers keeps the invariant and all keys.
    pub work-Later :
        {o : Operation} {root : State} {mark : Option ℕ}
        → (s.db.substructlist p).busy ≡ some o
        → perform sub (s.db.substructlist p).root o ≡ ok (root, mark)
        → Later sub laws n s (finish sub laws s p o root mark)
    work-Later {o} {root} {mark} busy e =
        let (i, held, same) = hand-some s.clients (inv.hand p) (sym (inv.busy p) ∙ busy) in
        subst
          (λ o.
            perform sub (s.db.substructlist p).root o ≡ ok (root, mark)
            → Later sub laws n s (finish sub laws s p o root mark))
          same (work-of i held) e
