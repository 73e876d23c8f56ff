-- ===== src/Tests/Barrier.antt =====
-- A barrier for three threads.
use green_hash_tree.Prelude.{◌≡◌, refl, none, some, [], ◌∷◌}
use green_hash_tree.Prelude.Run.{ok}
use green_hash_tree.Barrier.{arrivals, at_rest, arrivals_lem, pthread_barrier_init}

init_none : pthread_barrier_init 0 ≡ none
unfolding pthread_barrier_init
init_none = refl

init_three : pthread_barrier_init 3 ≡ some (at_rest 3 0)
unfolding pthread_barrier_init
init_three = refl

arrivals_lem_example : arrivals 3 (at_rest 3 0) ≡ ok (none ∷ none ∷ some 1 ∷ [], at_rest 3 0)
arrivals_lem_example = arrivals_lem 0 2
