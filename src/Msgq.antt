-- ===== src/Msgq.antt =====
-- The message queue of msgq.c and msgq.h: an array that is used in a circle, two counters that only
-- grow, a mutex and a condition variable. A thread that finds the mutex taken, or the queue empty,
-- is `blocked`; it runs the same call again when it is woken. The condition variable holds no data.
pub mod Fifo
pub mod Trace
use green_hash_tree.Prelude.{
  ℕ, ◌+◌, ◌-◌, ◌%◌, ◌^◌, Bool, true, false, Option, none, some, List, [], ◌∷◌, if◌then◌else◌, ltb,
  ◌==◌, length, get_elem?, set, replicate,
}
use green_hash_tree.Prelude.Int.{ℤ, pos}
use green_hash_tree.Prelude.Run.{Run, ok, blocked, fault, ◌>>=◌}

-- `pthread_mutex_t`
pub data Mutex : Type 0 where
  open_mutex : Mutex
  held : Mutex

unfoldable pub lock_mutex : Mutex → Run Mutex
lock_mutex open_mutex = ok held
lock_mutex held = blocked

unfoldable pub unlock_mutex : Mutex → Run Mutex
unlock_mutex open_mutex = fault
unlock_mutex held = ok open_mutex

-- `operation_t`; `retval` is the address of the cell that the client polls.
pub record Operation : Type 0 where
  pub key : ℤ
  pub value : ℤ
  pub type : ℤ
  pub retval : ℕ

-- OP_ADD and OP_READ
abbrev pub op_add : ℤ
op_add = pos 0

abbrev pub op_read : ℤ
op_read = pos 1

-- `queue_t`; a slot is `none` while nothing was written to it. The counters are `int`s from 0 on.
pub record Queue : Type 0 where
  pub array : List (Option Operation)
  pub lenght : ℕ
  pub current : ℕ
  pub lastadded : ℕ
  pub mutex : Mutex

abbrev pub int_max : ℕ
int_max = 2 ^ 31 - 1

-- `n += 1` on an `int` that is not negative; beyond INT_MAX the behaviour is undefined.
unfoldable pub increment : ℕ → Run ℕ
increment n = if ltb n int_max then ok (n + 1) else fault

abbrev pub initial_lenght : ℕ
initial_lenght = 10000

-- `queue_init`, with the length as an argument; `malloc` of the queue and of its array succeed.
unfoldable pub queue_of : ℕ → Queue
queue_of lenght = record {
  array = replicate lenght none;
  lenght = lenght;
  current = 0;
  lastadded = 0;
  mutex = open_mutex;
}

unfoldable pub queue_init : Queue
queue_init = queue_of initial_lenght

-- `queue->array[i] = o`
unfoldable pub store_slot : List (Option Operation) → ℕ → Operation → Run (List (Option Operation))
store_slot array i o = if ltb i (length array) then ok (set array i (some o)) else fault

-- `queue->array[i]`; the slot must have been written.
unfoldable pub load_slot : List (Option Operation) → ℕ → Run Operation
load_slot array i = elim (get_elem? array i) [
  | none ↦ fault
  | some slot ↦ elim slot [ none ↦ fault | some o ↦ ok o ]
]

unfoldable pub queue_add : Queue → Operation → Run Queue
unfolding lock_mutex unlock_mutex
queue_add q o = do
  m ← lock_mutex q.mutex
  array' ← store_slot q.array (q.lastadded % q.lenght) o
  lastadded' ← increment q.lastadded
  m' ← unlock_mutex m
  ok (record q { array = array'; lastadded = lastadded'; mutex = m' })

-- `pthread_cond_wait` on an empty queue gives the mutex back, so the queue stays as it was.
unfoldable pub queue_read : Queue → Run (Operation × Queue)
unfolding lock_mutex unlock_mutex
queue_read q = do
  m ← lock_mutex q.mutex
  if q.current == q.lastadded then blocked else do
    o ← load_slot q.array (q.current % q.lenght)
    current' ← increment q.current
    m' ← unlock_mutex m
    ok (o, record q { current = current'; mutex = m' })
