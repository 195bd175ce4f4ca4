-- ===== src/Runs/Pools.antt =====
-- A pool of two workers that is stopped with two tasks in its queue.
use mathlib.Core.List.{Perm}
use collapsar.Base.{ℕ, ◌≤◌, ◌≡◌, ◌⊎◌, refl, true, [], ◌∷◌, All}
use collapsar.Util.ThreadPool.{exited, new_pool, submit_task, stop, worker_step, waiting, busy}
use collapsar.Util.Tasks.{System, Turn, turn, Reach, later, start, submits, stops, IsSound}
use collapsar.Util.Accepted.{Reach-IsSound}
use collapsar.Util.Shutdown.{Turns, none_yet, one_more, turns_left, join_all}

abbrev submitted : System ℕ
submitted = record {
  pool = record { workers = waiting ∷ waiting ∷ []; tasks = 7 ∷ 8 ∷ []; stopped = true };
  accepted = 7 ∷ 8 ∷ [];
  taken = [];
  finished = [];
}

submitted-Reach : Reach submitted
unfolding submit_task stop new_pool
submitted-Reach = later (later (later (start 2) (submits 7 refl)) (submits 8 refl)) stops

abbrev one_taken : System ℕ
one_taken = record {
  pool = record { workers = busy 7 ∷ waiting ∷ []; tasks = 8 ∷ []; stopped = true };
  accepted = 7 ∷ 8 ∷ [];
  taken = 7 ∷ [];
  finished = [];
}

one_turn : Turns 1 submitted one_taken
unfolding worker_step
one_turn = one_more (none_yet submitted) (turn [] (waiting ∷ []) waiting refl refl)

Reach-IsSound_example : IsSound submitted
Reach-IsSound_example = Reach-IsSound submitted submitted-Reach

join_all_example :
    (1 ≤ turns_left submitted.pool)
    × (((u : System ℕ) × Turn one_taken u)
        ⊎ (All (λ w. w ≡ exited) one_taken.pool.workers
            × (one_taken.pool.tasks ≡ [])
            × Perm submitted.accepted one_taken.finished))
join_all_example = join_all submitted submitted-Reach refl 1 one_taken one_turn
