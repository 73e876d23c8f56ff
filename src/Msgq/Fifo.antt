-- ===== src/Msgq/Fifo.antt =====
-- The queue as a first-in first-out list of the operations that were added and not yet read.
use native.Mathlib.Nat.{mod-add-mod, mod-eq_of_lt, mod-eq-sub-mod, add-mod_right}
use native.Mathlib.Numerals.{towards_suc}
use native.Mathlib.Decide.{dec_lt}
use green_hash_tree.Prelude.{
  ℕ, suc, ◌+◌, ◌-◌, ◌%◌, ◌≤◌, ◌<◌, ◌≡◌, ◌≢◌, refl, ap, sym, ◌∙◌, Option, none, some, List, [], ◌∷◌,
  ◌++◌, arith, ◌==◌, ltb, false, true, length, get_elem?, set, length-set, length-append,
  length-replicate, get_elem?-set_self, get_elem?-set_ne,
}
use green_hash_tree.Prelude.Run.{ok, blocked, fault}
use green_hash_tree.Msgq.{
  Operation, Queue, open_mutex, int_max, initial_lenght, queue_of, lock_mutex, unlock_mutex,
  queue_init, store_slot, load_slot, increment, queue_add, queue_read,
}

-- The slots from the counter `c` on, round the array, hold `ops`.
abbrev pub Slots : List (Option Operation) → ℕ → ℕ → List Operation → Type 0
Slots array n c [] = Unit
Slots array n c (o ∷ ops) = (get_elem? array (c % n) ≡ some (some o)) × Slots array n (suc c) ops

-- A queue that no thread is in the middle of, with the operations `ops` waiting, oldest first.
pub record Holds (q : Queue) (ops : List Operation) : Type 0 where
  pub sized : length q.array ≡ q.lenght
  pub positive : 0 < q.lenght
  pub free : q.mutex ≡ open_mutex
  pub counted : q.lastadded ≡ q.current + length ops
  pub fits : length ops ≤ q.lenght
  pub small : q.lastadded ≤ int_max
  pub slots : Slots q.array q.lenght q.current ops

-- Counters less than one round apart have different slots.
mod-ne : (n c d : ℕ) → 0 < d → d < n → c % n ≢ (c + d) % n
mod-ne n c d p q = elim (dec_lt (c % n + d) n) [
  | yes h ↦ omega (arith, mod-add-mod c n d, mod-eq_of_lt h)
  | no h ↦ omega (
    arith,
    mod-add-mod c n d,
    mod-eq-sub-mod {n = c % n + d} {m = n} (omega arith),
    mod-eq_of_lt {n = c % n + d - n} {m = n} (omega arith),
  )
]

module _ (array : List (Option Operation)) (n w : ℕ) (o : Operation) where
  -- A write at the counter behind the waiting operations adds one, if a slot is left for it.
  Slots-set :
      (c : ℕ) (ops : List Operation)
      → c + length ops ≡ w
      → length ops < n
      → w % n < length array
      → Slots array n c ops
      → Slots (set array (w % n) (some o)) n c (ops ++ (o ∷ []))
  Slots-set c [] e room h s =
      let here : c ≡ w = omega arith in rw here (get_elem?-set_self array (w % n) (some o) h, tt)
  Slots-set c (x ∷ ops) e room h (at, s) =
      let apart : w % n ≢ c % n = λ same.
        mod-ne n c (suc (length ops)) (omega arith) room (sym same ∙ ap (λ t. t % n) (sym e)) in
      (
        get_elem?-set_ne array (w % n) (c % n) (some o) apart ∙ at,
        Slots-set (suc c) ops (omega arith) (omega arith) h s,
      )

store_slot-ok :
    (array : List (Option Operation)) (i : ℕ) (o : Operation)
    → i < length array
    → store_slot array i o ≡ ok (set array i (some o))
unfolding store_slot
store_slot-ok array i o h = ground arith

load_slot-ok :
    (array : List (Option Operation)) (i : ℕ) (o : Operation)
    → get_elem? array i ≡ some (some o)
    → load_slot array i ≡ ok o
unfolding load_slot
load_slot-ok array i o at = rw (at, load_slot) refl

increment-ok : (n : ℕ) → n < int_max → increment n ≡ ok (n + 1)
unfolding increment
increment-ok n h = ground arith

-- The queue that an addition leaves.
abbrev pub added : Queue → Operation → Queue
added q o = record q {
  array = set q.array (q.lastadded % q.lenght) (some o);
  lastadded = q.lastadded + 1;
  mutex = open_mutex;
}

slot_in : {q : Queue} {ops : List Operation} → Holds q ops → q.lastadded % q.lenght < length q.array
slot_in h = omega (arith, h.sized, h.positive)

pub queue_add-ok :
    {q : Queue} {ops : List Operation} (o : Operation)
    → Holds q ops
    → q.lastadded < int_max
    → queue_add q o ≡ ok (added q o)
unfolding queue_add lock_mutex unlock_mutex
queue_add-ok {q} o h room = simp h.free (
    simp
      (store_slot-ok q.array (q.lastadded % q.lenght) o (slot_in h), increment-ok q.lastadded room)
      refl)

-- `queue_add` on a free queue with a slot left and its counter below INT_MAX puts the operation behind
-- those that wait.
pub queue_add_lem :
    {q : Queue} {ops : List Operation} (o : Operation)
    → Holds q ops
    → length ops < q.lenght
    → q.lastadded < int_max
    → (q' : Queue) × (queue_add q o ≡ ok q')
      × Holds q' (ops ++ (o ∷ []))
      × (q'.lenght ≡ q.lenght)
      × (q'.lastadded ≡ q.lastadded + 1)
queue_add_lem {q} {ops} o h room small = (
  added q o,
  queue_add-ok o h small,
  record {
    sized = length-set q.array _ _ ∙ h.sized;
    positive = h.positive;
    free = refl;
    counted = omega (arith, h.counted, length-append ops (o ∷ []));
    fits = omega (arith, length-append ops (o ∷ []));
    small = omega arith;
    slots =
        Slots-set q.array q.lenght q.lastadded o q.current ops (sym h.counted) room (slot_in h)
          h.slots;
  },
  refl,
  refl,
)

-- At INT_MAX the counter overflows.
pub queue_add-overflow :
    {q : Queue} {ops : List Operation} (o : Operation)
    → Holds q ops
    → ltb q.lastadded int_max ≡ false
    → queue_add q o ≡ fault
unfolding queue_add lock_mutex unlock_mutex increment
queue_add-overflow {q} o h over =
    simp h.free
      (simp (store_slot-ok q.array (q.lastadded % q.lenght) o (slot_in h)) (simp over refl))

-- `queue_read` on a free queue that is not empty takes the oldest operation, and leaves the others.
pub queue_read_lem :
    {q : Queue} {o : Operation} {ops : List Operation}
    → Holds q (o ∷ ops)
    → (q' : Queue) × (queue_read q ≡ ok (o, q'))
      × Holds q' ops
      × (q'.lenght ≡ q.lenght)
      × (q'.lastadded ≡ q.lastadded)
unfolding queue_read lock_mutex unlock_mutex
queue_read_lem {q} {o} {ops} h =
    let full : (q.current == q.lastadded) ≡ false = ground (arith, h.counted) in
    let (at, rest) = h.slots in
    (
      record q { current = q.current + 1; mutex = open_mutex },
      simp h.free (
          simp
            (
              full,
              load_slot-ok q.array (q.current % q.lenght) o at,
              increment-ok q.current (omega (arith, h.counted, h.small)),
            )
            refl),
      record {
        sized = h.sized;
        positive = h.positive;
        free = refl;
        counted = omega (arith, h.counted);
        fits = omega (arith, h.fits);
        small = h.small;
        slots = simp towards_suc rest;
      },
      refl,
      refl,
    )

-- On an empty free queue `queue_read` waits.
pub queue_read-empty : {q : Queue} → Holds q [] → queue_read q ≡ blocked
unfolding queue_read lock_mutex
queue_read-empty {q} h =
    let empty : (q.current == q.lastadded) ≡ true = ground (arith, h.counted) in
    simp h.free (simp empty refl)

queue_of-Holds : (n : ℕ) → 0 < n → Holds (queue_of n) []
unfolding queue_of
queue_of-Holds n p = record {
  sized = length-replicate n none;
  positive = p;
  free = refl;
  counted = omega arith;
  fits = omega arith;
  small = omega arith;
  slots = tt;
}

-- A new queue is free, of its length, and empty.
pub queue_init-Holds : Holds queue_init []
unfolding queue_init
queue_init-Holds = queue_of-Holds initial_lenght (omega arith)

pub queue_init-lenght : queue_init.lenght ≡ initial_lenght
unfolding queue_init queue_of
queue_init-lenght = refl

-- On a full queue whose counter is below INT_MAX `queue_add` does not wait: it writes over the oldest operation, which nobody reads
-- any more. The next `queue_read` returns the new operation in its place.
pub queue_add_full :
    {q : Queue} {o : Operation} {ops : List Operation} (new : Operation)
    → Holds q (o ∷ ops)
    → length (o ∷ ops) ≡ q.lenght
    → q.lastadded < int_max
    → (q1 q2 : Queue) × (queue_add q new ≡ ok q1)
      × (queue_read q1 ≡ ok (new, q2))
      × (q2.current ≡ q.current + 1)
unfolding queue_read lock_mutex unlock_mutex
queue_add_full {q} new h full room =
    let behind : (q.current == q.lastadded + 1) ≡ false = ground (arith, h.counted) in
    let round : q.lastadded % q.lenght ≡ q.current % q.lenght =
      ap (λ t. t % q.lenght) (h.counted ∙ ap (λ t. q.current + t) full)
      ∙ add-mod_right q.current q.lenght in
    let at : get_elem? (added q new).array (q.current % q.lenght) ≡ some (some new) =
      ap (get_elem? (added q new).array) (sym round) ∙ get_elem?-set_self q.array _ _ (slot_in h) in
    (
      added q new,
      record (added q new) { current = q.current + 1 },
      queue_add-ok new h room,
      simp
          (
            behind,
            load_slot-ok (added q new).array (q.current % q.lenght) new at,
            increment-ok q.current (omega (arith, h.counted)),
          )
          refl,
      refl,
    )
