-- ===== src/Gps/Invariant/Take.antt =====
-- A partition's thread reads an operation: it goes from the line into the hand.
use green_hash_tree.Prelude.{
  ℕ, ◌≡◌, refl, ap, ap₂, sym, ◌∙◌, Bool, Option, none, some, List, [], ◌∷◌, update, ==_refl,
  at_each, update_self, update_ne,
}
use mathlib.Core.Path.{subst}
use green_hash_tree.Prelude.Int.{ℤ}
use green_hash_tree.Prelude.Run.{ok, same_outcome, ok-ne-blocked}
use green_hash_tree.Msgq.{Operation, initial_lenght}
use green_hash_tree.Msgq.Fifo.{Holds, queue_read_lem, queue_read-empty}
use green_hash_tree.Substruct.{SubStruct, SubStructLaws}
use green_hash_tree.Gps.{Partition, fetch}
use green_hash_tree.Gps.System.{Client, System, home, present, with_partition}
use green_hash_tree.Gps.Invariant.Defs.{
  requests, in_front, request_of, pending, Waiting, Inv, Later,
}

module _ (sub : SubStruct) (laws : SubStructLaws sub) (n : ℕ) where
  open sub use {State}

  -- What a fetch of the first of the line gives.
  record Fetched (part part' : Partition State) (os : List Operation) (o : Operation) : Type 0 where
    holds : Holds part'.msgq os
    same_lenght : part'.msgq.lenght ≡ part.msgq.lenght
    in_hand : part'.busy ≡ some o
    same_root : part'.root ≡ part.root

  fetch-Fetched :
      (part : Partition State) {part' : Partition State} {o : Operation} {os : List Operation}
      → Holds part.msgq (o ∷ os)
      → fetch sub part ≡ ok part'
      → Fetched part part' os o
  unfolding fetch
  fetch-Fetched part {part'} {o} {os} h e =
      let (q, done, h', same, _) = queue_read_lem h in
      let now : Partition State = record part { msgq = q; busy = some o } in
      let out : now ≡ part' = same_outcome {r = fetch sub part} (rw done refl) e in
      subst (λ x. Fetched part x os o) out
        (record { holds = h'; same_lenght = same; in_hand = refl; same_root = refl })

  fetch-empty :
      (part : Partition State) {part' : Partition State}
      → Holds part.msgq []
      → fetch sub part ≡ ok part'
      → ⊥
  unfolding fetch
  fetch-empty part h e = ok-ne-blocked {r = fetch sub part} e (rw (queue_read-empty h) refl)

  -- The thread of partition `p` has taken client `i` from the head of its line.
  module _ {s : System State} (inv : Inv sub laws n s) (p : ℕ) (part' : Partition State) (i : ℕ)
      (rest : List ℕ) (idle : inv.hand p ≡ none) (head : inv.line p ≡ i ∷ rest)
      (f : Fetched
        (s.db.substructlist p)
        part'
        (requests s.clients rest)
        (s.clients i).request) where
    abbrev after : System State
    after = record s { db = with_partition sub laws s.db p part' }

    abbrev line' : ℕ → List ℕ
    line' = update inv.line p rest

    abbrev hand' : ℕ → Option ℕ
    hand' = update inv.hand p (some i)

    pending-eq : (q : ℕ) → pending hand' line' q ≡ pending inv.hand inv.line q
    pending-eq =
        at_each (λ q. pending hand' line' q ≡ pending inv.hand inv.line q) p
          (rw (==_refl p, idle, head) refl)
          (λ q e. ap₂ in_front (update_ne inv.hand p (some i) e) (update_ne inv.line p rest e))

    same_present : (key : ℤ) → present sub laws after.db key ≡ present sub laws s.db key
    unfolding present
    same_present key =
        at_each
          (λ q.
            laws.has (after.db.substructlist q).root key ≡ laws.has (s.db.substructlist q).root key)
          p
          (ap (λ r. laws.has r key)
            (ap Partition.root (update_self s.db.substructlist p part') ∙ f.same_root))
          (λ q e. ap (λ t. laws.has t.root key) (update_ne s.db.substructlist p part' e))
          (home s.db.numthreads key)

    after-Waiting :
        (j : ℕ) (left : Bool) → Waiting sub laws n s j left → Waiting sub laws n after j left
    after-Waiting j left w = record {
      fresh = w.fresh;
      typed = w.typed;
      remembered = λ m. same_present _ ∙ w.remembered m;
      answer = record {
        range = w.answer.range;
        zero = w.answer.zero;
        one_type = w.answer.one_type;
        one_seen = w.answer.one_seen;
        two = λ m. same_present _ ∙ w.answer.two m;
      };
    }

    after-Inv : Inv sub laws n after
    after-Inv = record {
      line = line';
      hand = hand';
      queued =
          at_each (λ q. Holds (after.db.substructlist q).msgq (requests s.clients (line' q))) p
            (rw (==_refl p) f.holds) (λ q e. rw e (inv.queued q));
      room =
          at_each (λ q. (after.db.substructlist q).msgq.lenght ≡ initial_lenght) p
            (rw (==_refl p) (f.same_lenght ∙ inv.room p)) (λ q e. rw e (inv.room q));
      busy =
          at_each (λ q. (after.db.substructlist q).busy ≡ request_of s.clients (hand' q)) p
            (rw (==_refl p) f.in_hand) (λ q e. rw e (inv.busy q));
      in_order =
          at_each (λ q. laws.IsOk (after.db.substructlist q).root) p
            (rw (==_refl p, f.same_root) (inv.in_order p)) (λ q e. rw e (inv.in_order q));
      distinct = λ q. rw (pending-eq q) (inv.distinct q);
      pended = λ q j m.
          let h = inv.pended q j (rw (pending-eq q) at m) in
          record {
            below = h.below;
            waits = h.waits;
            at_home = h.at_home;
            unanswered = h.unanswered;
          };
      unique = inv.unique;
      waiting = λ j m. after-Waiting j _ (rw (pending-eq _) (inv.waiting j m));
    }

    taken : Later sub laws n s after
    taken = record { inv = after-Inv; stays = λ k m. same_present k ∙ m }

  hand-none : (clients : ℕ → Client) (o : Option ℕ) → request_of clients o ≡ none → o ≡ none
  hand-none clients none e = refl
  hand-none clients (some i) e = absurd (cc e)

  module _ {s : System State} (inv : Inv sub laws n s) (p : ℕ) {part' : Partition State}
      (idle : (s.db.substructlist p).busy ≡ none)
      (e : fetch sub (s.db.substructlist p) ≡ ok part') where
    take_from :
        (is : List ℕ)
        → inv.line p ≡ is
        → Later sub laws n s (record s { db = with_partition sub laws s.db p part' })
    unfolding requests
    take_from [] empty = absurd (
        fetch-empty (s.db.substructlist p)
          (subst (λ is. Holds (s.db.substructlist p).msgq (requests s.clients is)) empty
            (inv.queued p))
          e)
    take_from (i ∷ rest) head =
        taken inv p part' i rest (hand-none s.clients (inv.hand p) (sym (inv.busy p) ∙ idle)) head (
          fetch-Fetched (s.db.substructlist p)
            (subst (λ is. Holds (s.db.substructlist p).msgq (requests s.clients is)) head
              (inv.queued p))
            e)

    -- A partition that reads its queue keeps the invariant and all keys.
    pub read-Later : Later sub laws n s (record s { db = with_partition sub laws s.db p part' })
    read-Later = take_from (inv.line p) refl
