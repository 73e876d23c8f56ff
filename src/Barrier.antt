-- ===== src/Barrier.antt =====
-- The barrier of common/barrier.c. A thread that waits on the condition variable is counted in
-- `asleep`; a broadcast wakes them all, and no thread wakes before one. `count` is far from INT_MAX.
use green_hash_tree.Prelude.{
  ℕ, zero, suc, ◌+◌, ◌<◌, ◌≡◌, refl, true, false, Option, none, some, List, [], ◌∷◌, ◌++◌, arith,
  if◌then◌else◌, leb, replicate, ◌==◌,
}
use mathlib.Core.Path.{subst}
use green_hash_tree.Prelude.Run.{Run, ok, ◌>>=◌}
use green_hash_tree.Msgq.{Mutex, open_mutex, lock_mutex, unlock_mutex}

pub record Barrier : Type 0 where
  pub mutex : Mutex
  pub asleep : ℕ
  pub count : ℕ
  pub trip_count : ℕ

-- `none` stands for the return value -1. The calls that set up the mutex and the condition variable
-- succeed.
unfoldable pub pthread_barrier_init : ℕ → Option Barrier
pthread_barrier_init count =
    if count == 0
    then none
    else some (record { mutex = open_mutex; asleep = 0; count = 0; trip_count = count })

-- What a thread does when it reaches the barrier: it goes through with 1, or it goes to sleep
-- (`none`), gives the mutex back, and returns 0 once it is woken.
pub pthread_barrier_wait : Barrier → Run (Option ℕ × Barrier)
unfolding lock_mutex unlock_mutex
pthread_barrier_wait b = do
  m ← lock_mutex b.mutex
  let count = b.count + 1
  m' ← unlock_mutex m
  if leb b.trip_count count
      then ok (some 1, record b { mutex = m'; count = 0; asleep = 0 })
      else ok (none, record b { mutex = m'; count = count; asleep = b.asleep + 1 })

-- A number of threads reach the barrier, one after another; what each of them does.
pub arrivals : ℕ → Barrier → Run (List (Option ℕ) × Barrier)
unfolding pthread_barrier_wait
arrivals zero b = ok ([], b)
arrivals (suc n) b = do
  (r, b') ← pthread_barrier_wait b
  (rs, b'') ← arrivals n b'
  ok (r ∷ rs, b'')

-- A barrier at which `n` threads sleep.
abbrev pub at_rest : (trip n : ℕ) → Barrier
at_rest trip n = record { mutex = open_mutex; asleep = n; count = n; trip_count = trip }

wait_sleeps :
    (trip n : ℕ)
    → n + 1 < trip
    → pthread_barrier_wait (at_rest trip n) ≡ ok (none, at_rest trip (n + 1))
unfolding pthread_barrier_wait lock_mutex unlock_mutex
wait_sleeps trip n h = let e : leb trip (n + 1) ≡ false = ground (arith, h) in simp e refl

wait_trips :
    (trip n : ℕ)
    → n + 1 ≡ trip
    → pthread_barrier_wait (at_rest trip n) ≡ ok (some 1, at_rest trip 0)
unfolding pthread_barrier_wait lock_mutex unlock_mutex
wait_trips trip n h = let e : leb trip (n + 1) ≡ true = ground (arith, h) in simp e refl

arrivals_cons :
    (n : ℕ) (b b' b'' : Barrier) {r : Option ℕ} {rs : List (Option ℕ)}
    → pthread_barrier_wait b ≡ ok (r, b')
    → arrivals n b' ≡ ok (rs, b'')
    → arrivals (suc n) b ≡ ok (r ∷ rs, b'')
unfolding arrivals
arrivals_cons n b b' b'' one more = simp one (simp more refl)

-- At a barrier for `n + 1 + left` threads where `n` sleep, the next `left` threads go to sleep; the one
-- after them goes through with 1, wakes all, and leaves the barrier as it was when it was made.
pub arrivals_lem :
    (n left : ℕ)
    → arrivals (suc left) (at_rest (n + suc left) n)
      ≡ ok (replicate left none ++ (some 1 ∷ []), at_rest (n + suc left) 0)
unfolding arrivals
arrivals_lem n zero =
    arrivals_cons 0 (at_rest (n + 1) n) (at_rest (n + 1) 0) (at_rest (n + 1) 0)
      (wait_trips (n + 1) n refl) refl
arrivals_lem n (suc left) =
    let trip = n + suc (suc left) in
    let more = arrivals_lem (n + 1) left in
    let same : (n + 1) + suc left ≡ trip = omega arith in
    arrivals_cons (suc left) (at_rest trip n) (at_rest trip (n + 1)) (at_rest trip 0)
      (wait_sleeps trip n (omega arith))
      (subst
        (λ t.
          arrivals (suc left) (at_rest t (n + 1))
          ≡ ok (replicate left none ++ (some 1 ∷ []), at_rest t 0))
        same more)
