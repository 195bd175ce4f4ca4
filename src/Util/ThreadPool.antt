-- ===== src/Util/ThreadPool.antt =====
-- `ThreadPool` of core/src/util/thread_pool.hpp and thread_pool.cpp. Each piece of code that runs under
-- `mutex_` is one step; so is the run of a task, which holds no lock.
use collapsar.Base.{
  ℕ, zero, suc, ◌==◌, Bool, true, false, Option, none, some, List, [], ◌∷◌, ◌++◌, length,
  if◌then◌else◌,
}

-- Where a worker thread is: at the condition variable, in a task, or at its end.
pub data Worker {ℓ} (A : Type ℓ) : Type ℓ where
  waiting : Worker A
  busy : A → Worker A
  exited : Worker A

pub record ThreadPool {ℓ} (A : Type ℓ) : Type ℓ where
  pub workers : List (Worker A)
  pub tasks : List A
  pub stopped : Bool

module _ {ℓ} {A : Type ℓ} where
  abbrev pub start_workers : ℕ → List (Worker A)
  start_workers zero = []
  start_workers (suc n) = waiting ∷ start_workers n

  unfoldable pub new_pool : ℕ → ThreadPool A
  new_pool worker_count = record {
    workers = start_workers (if worker_count == 0 then 1 else worker_count);
    tasks = [];
    stopped = false;
  }

  -- `none` is the exception.
  unfoldable pub submit_task : A → ThreadPool A → Option (ThreadPool A)
  submit_task task pool =
      if pool.stopped then none else some (record pool { tasks = pool.tasks ++ task ∷ [] })

  unfoldable pub stop : ThreadPool A → ThreadPool A
  stop pool = record pool { stopped = true }

  -- One turn of `worker_loop`, on the queue and the flag: `none` is a thread that does not move. A task
  -- that throws ends like any other.
  unfoldable pub worker_step : Worker A → List A → Bool → Option (Worker A × List A)
  worker_step waiting (task ∷ tasks) stopped = some (busy task, tasks)
  worker_step waiting [] true = some (exited, [])
  worker_step waiting [] false = none
  worker_step (busy task) tasks stopped = some (waiting, tasks)
  worker_step exited tasks stopped = none

  -- `size()`
  abbrev pub size : ThreadPool A → ℕ
  size pool = length pool.workers
