-- ===== src/Pipeline/Outlived.antt =====
-- An early return of `Pipeline::run`, and the tasks that it leaves in the pool.
use collapsar.Base.{ℕ, ◌≡◌, refl, subst, true, false, List, [], ◌∷◌, ◌++◌, append_assoc, map}
use collapsar.Core.Blocks.{FileEntry}
use collapsar.Util.ThreadPool.{new_pool}
use collapsar.Util.Tasks.{System, created}
use collapsar.Util.Standing.{submit_task-some}
use collapsar.Pipeline.Schedule.{
  Read, FileTask, Command, submit_read, submit_file, task_of, tasks_of, submit_loop, drain_loop,
  program_of, Schedule, start_schedule, enqueues_read, enqueues_file, moves, returns, MayReturn,
  before_file, before_get, Runs, begins, goes_on,
}

module _ (block_bytes : ℕ) (entries : List FileEntry) where
  -- A state that the job has reached with this much of its program left, and pools in use.
  record Stands (program : List Command) (cpu : System FileTask) : Type 0 where
    io : System Read
    got : List FileTask
    on : io.pool.stopped ≡ false
    there :
        Runs block_bytes entries false (record { program = program; got = got; io = io; cpu = cpu })

  after_reads :
      (rs : List Read) (p : List Command) (cpu : System FileTask)
      → Stands (map submit_read rs ++ p) cpu
      → Stands p cpu
  after_reads [] p cpu s = s
  after_reads (r ∷ rs) p cpu s = after_reads rs p cpu (record {
    io = _;
    got = s.got;
    on = s.on;
    there = goes_on s.there (
        moves (enqueues_read r (map submit_read rs ++ p) refl (submit_task-some r s.io.pool s.on)));
  })

abbrev with_task : FileTask → System FileTask → System FileTask
with_task t cpu = record cpu {
  pool = record cpu.pool { tasks = cpu.pool.tasks ++ t ∷ [] };
  accepted = cpu.accepted ++ t ∷ [];
}

not_over :
    (xs ys : List Command) (c : Command)
    → (d : Command) × (rest : List Command) × (xs ++ c ∷ ys ≡ d ∷ rest)
not_over [] ys c = (c, ys, refl)
not_over (x ∷ xs) ys c = (x, xs ++ c ∷ ys, refl)

-- Behind the task of its first file the job is at a test, of the next file or of the drain loop.
tested : (t : FileTask) (ts : List FileTask) → MayReturn (submit_loop ts ++ drain_loop (t ∷ ts))
unfolding submit_loop drain_loop
tested t [] = before_get t [] refl
tested t (u ∷ us) = before_file u us (t ∷ u ∷ us) refl

-- For every job over one file or more and any numbers of workers there is a run in which the job
-- has returned early, at a point where its code returns, while the task of its first file waits in
-- the queue of the CPU pool and nothing is finished there.
pub Runs-outlived :
    (block_bytes io_threads cpu_threads : ℕ) (entry : FileEntry) (entries : List FileEntry)
    → (s : Schedule) × Runs block_bytes (entry ∷ entries) true s
      × (s.program ≡ [])
      × (s.cpu.pool.tasks ≡ task_of block_bytes 0 entry ∷ [])
      × (s.cpu.finished ≡ [])
unfolding start_schedule program_of tasks_of submit_loop drain_loop new_pool
Runs-outlived block_bytes io_threads cpu_threads entry entries =
    let t = task_of block_bytes 0 entry in
    let ts = tasks_of block_bytes 1 entries in
    let begun : Stands block_bytes (entry ∷ entries)
        ((map submit_read t.reads ++ submit_file t ∷ submit_loop ts) ++ drain_loop (t ∷ ts))
        (created cpu_threads) =
      record { io = _; got = _; on = refl; there = begins io_threads cpu_threads } in
    let submitted =
      after_reads block_bytes (entry ∷ entries) t.reads
        (submit_file t ∷ (submit_loop ts ++ drain_loop (t ∷ ts))) (created cpu_threads)
        (subst (λ p. Stands block_bytes (entry ∷ entries) p (created cpu_threads))
          (append_assoc (map submit_read t.reads) (submit_file t ∷ submit_loop ts)
            (drain_loop (t ∷ ts)))
          begun) in
    let (c, rest, is) = not_over (submit_loop ts) (drain_loop ts) _ in
    (
      _,
      goes_on
          (goes_on submitted.there
            (moves (enqueues_file t _ refl (submit_task-some t (new_pool cpu_threads) refl))))
          (returns c rest is (tested t ts)),
      refl,
      refl,
      refl,
    )
