-- ===== src/Gps/Invariant/Defs.antt =====
-- The invariant, by client numbers: `line p` are the clients whose operations wait in the queue of
-- partition `p`, and `hand p` is the one whose operation its thread has read.
use green_hash_tree.Prelude.{
  ℕ, suc, ◌≤◌, ◌<◌, ◌≡◌, refl, ap, ap₂, sym, ◌∙◌, ◌⊎◌, Bool, true, false, Option, none, some, List,
  [], ◌∷◌, ◌++◌, arith, length,
}
use mathlib.Core.Path.{subst}
use green_hash_tree.Prelude.Int.{ℤ}
use green_hash_tree.Msgq.{Operation, op_add, op_read, initial_lenght}
use green_hash_tree.Msgq.Fifo.{Holds}
use green_hash_tree.Substruct.{SubStruct, SubStructLaws}
use green_hash_tree.Gps.System.{Client, System, home, present}
use green_hash_tree.Gps.Count.{mem, IsNodup}

-- The operations of a list of clients.
unfoldable pub requests : (ℕ → Client) → List ℕ → List Operation
requests clients [] = []
requests clients (i ∷ is) = (clients i).request ∷ requests clients is

abbrev pub request_of : (ℕ → Client) → Option ℕ → Option Operation
request_of clients none = none
request_of clients (some i) = some (clients i).request

abbrev pub in_front : Option ℕ → List ℕ → List ℕ
in_front none is = is
in_front (some i) is = i ∷ is

abbrev pub pending : (ℕ → Option ℕ) → (ℕ → List ℕ) → ℕ → List ℕ
pending hand line p = in_front (hand p) (line p)

-- Client `i` of `n` waits for an answer of partition `p`.
pub record Pended {State : Type 0} (n : ℕ) (s : System State) (p i : ℕ) : Type 0 where
  pub below : i < n
  pub waits : (s.clients i).waiting ≡ true
  pub at_home : home s.db.numthreads (s.clients i).request.key ≡ p
  pub unanswered : s.db.cells (s.clients i).request.retval ≡ 0

module _ (sub : SubStruct) (laws : SubStructLaws sub) (n : ℕ) where
  open sub use {State}

  -- What the cell of client `i` may say, if its operation is (`left`) still to be carried out.
  pub record Answer (s : System State) (i : ℕ) (left : Bool) : Type 0 where
    pub range : s.db.cells (s.clients i).request.retval ≤ 2
    pub zero : s.db.cells (s.clients i).request.retval ≡ 0 → left ≡ true
    pub one_type :
        s.db.cells (s.clients i).request.retval ≡ 1 → (s.clients i).request.type ≡ op_read
    pub one_seen : s.db.cells (s.clients i).request.retval ≡ 1 → (s.clients i).seen ≡ false
    pub two :
        s.db.cells (s.clients i).request.retval ≡ 2
        → present sub laws s.db (s.clients i).request.key ≡ true

  -- What holds of a client that waits.
  pub record Waiting (s : System State) (i : ℕ) (left : Bool) : Type 0 where
    pub fresh : (s.clients i).request.retval < s.db.next_cell
    pub typed : ((s.clients i).request.type ≡ op_add) ⊎ ((s.clients i).request.type ≡ op_read)
    pub remembered :
        (s.clients i).seen ≡ true → present sub laws s.db (s.clients i).request.key ≡ true
    pub answer : Answer s i left

  abbrev pub left_of : System State → (ℕ → Option ℕ) → (ℕ → List ℕ) → ℕ → Bool
  left_of s hand line i = mem i (pending hand line (home s.db.numthreads (s.clients i).request.key))

  pub record Inv (s : System State) : Type 0 where
    pub line : ℕ → List ℕ
    pub hand : ℕ → Option ℕ
    pub queued : (p : ℕ) → Holds (s.db.substructlist p).msgq (requests s.clients (line p))
    pub room : (p : ℕ) → (s.db.substructlist p).msgq.lenght ≡ initial_lenght
    pub busy : (p : ℕ) → (s.db.substructlist p).busy ≡ request_of s.clients (hand p)
    pub in_order : (p : ℕ) → laws.IsOk (s.db.substructlist p).root
    pub distinct : (p : ℕ) → IsNodup (pending hand line p)
    pub pended : (p i : ℕ) → mem i (pending hand line p) ≡ true → Pended n s p i
    pub unique :
        (i j : ℕ)
        → (s.clients i).waiting ≡ true
        → (s.clients j).waiting ≡ true
        → (s.clients i).request.retval ≡ (s.clients j).request.retval
        → i ≡ j
    pub waiting : (i : ℕ) → (s.clients i).waiting ≡ true → Waiting s i (left_of s hand line i)

  -- A step to `t` that keeps the invariant, and every key that is there.
  pub record Later (s t : System State) : Type 0 where
    pub inv : Inv t
    pub stays : (key : ℤ) → present sub laws s.db key ≡ true → present sub laws t.db key ≡ true

-- The operations of clients that the change of a client spares.
pub requests-eq :
    (f g : ℕ → Client) (is : List ℕ)
    → ((i : ℕ) → mem i is ≡ true → (f i).request ≡ (g i).request)
    → requests f is ≡ requests g is
unfolding requests
requests-eq f g [] h = refl
requests-eq f g (i ∷ is) h =
    ap₂ ◌∷◌ (h i (ground arith)) (requests-eq f g is λ j m. h j (ground (arith, m)))

pub requests-snoc :
    (f : ℕ → Client) (i : ℕ) (is : List ℕ)
    → requests f (is ++ (i ∷ [])) ≡ requests f is ++ ((f i).request ∷ [])
unfolding requests
requests-snoc f i [] = refl
requests-snoc f i (j ∷ is) = ap (λ t. (f j).request ∷ t) (requests-snoc f i is)

pub requests-cons :
    (f : ℕ → Client) (is : List ℕ) {o : Operation} {os : List Operation}
    → requests f is ≡ o ∷ os
    → (i : ℕ) × (js : List ℕ) × (is ≡ i ∷ js) × ((f i).request ≡ o) × (requests f js ≡ os)
unfolding requests
requests-cons f [] e = absurd (ground arith)
requests-cons f (i ∷ is) e = (i, is, refl, cc, cc)

pub length-in_front : (h : Option ℕ) (is : List ℕ) → length is ≤ length (in_front h is)
length-in_front none is = omega arith
length-in_front (some i) is = omega arith

pub in_front-snoc :
    (h : Option ℕ) (is : List ℕ) (i : ℕ) → in_front h (is ++ (i ∷ [])) ≡ in_front h is ++ (i ∷ [])
in_front-snoc none is i = refl
in_front-snoc (some j) is i = refl

pub mem-in_front :
    (h : Option ℕ) (is : List ℕ) (i : ℕ) → mem i is ≡ true → mem i (in_front h is) ≡ true
mem-in_front none is i m = m
mem-in_front (some j) is i m = ground (arith, m)

-- The operation in a hand, when a client that is not there changes.
pub request_of-eq :
    (f g : ℕ → Client) (h : Option ℕ) (is : List ℕ)
    → ((i : ℕ) → mem i (in_front h is) ≡ true → (f i).request ≡ (g i).request)
    → request_of f h ≡ request_of g h
request_of-eq f g none is same = refl
request_of-eq f g (some i) is same = ap some (same i (ground arith))

-- A client that waits on, in a later state where its operation and its cell are the same.
pub Waiting-later :
    (sub : SubStruct) (laws : SubStructLaws sub) (n : ℕ) {s t : System sub.State} {j : ℕ}
    {left left' : Bool}
    → t.clients j ≡ s.clients j
    → t.db.cells (s.clients j).request.retval ≡ s.db.cells (s.clients j).request.retval
    → s.db.next_cell ≤ t.db.next_cell
    → ((key : ℤ) → present sub laws s.db key ≡ true → present sub laws t.db key ≡ true)
    → (left ≡ true → left' ≡ true)
    → Waiting sub laws n s j left
    → Waiting sub laws n t j left'
Waiting-later sub laws n {s} {t} {j} {left} {left'} same cell later kept mono w =
    let same_cell = ap (λ c. t.db.cells c.request.retval) same ∙ cell in
    record {
      fresh = ground (arith, w.fresh, later, ap (λ c. c.request.retval) same);
      typed =
          subst (λ c. (c.request.type ≡ op_add) ⊎ (c.request.type ≡ op_read)) (sym same) w.typed;
      remembered = λ m.
          ap (λ c. present sub laws t.db c.request.key) same
          ∙ kept _ (w.remembered (sym (ap Client.seen same) ∙ m));
      answer = record {
        range = ground (arith, w.answer.range, same_cell);
        zero = λ m. mono (w.answer.zero (sym same_cell ∙ m));
        one_type = λ m. ap (λ c. c.request.type) same ∙ w.answer.one_type (sym same_cell ∙ m);
        one_seen = λ m. ap Client.seen same ∙ w.answer.one_seen (sym same_cell ∙ m);
        two = λ m.
            ap (λ c. present sub laws t.db c.request.key) same
            ∙ kept _ (w.answer.two (sym same_cell ∙ m));
      };
    }

pub length-requests : (f : ℕ → Client) (is : List ℕ) → length (requests f is) ≡ length is
unfolding requests
length-requests f [] = refl
length-requests f (i ∷ is) = ap suc (length-requests f is)
