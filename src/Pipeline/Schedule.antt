-- ===== src/Pipeline/Schedule.antt =====
-- How a job of pipeline.cpp uses the two pools: its own thread submits the reads and the task of each
-- file and then waits for the tasks in input order, while the workers of both pools take turns. A
-- file task waits for its reads. The engine stops neither pool while a job runs.
use mathlib.Core.List.{Mem, Subset}
use collapsar.Base.{ℕ, ◌+◌, ◌≡◌, Bool, true, false, ◌||◌, some, List, [], ◌∷◌, ◌++◌, map}
use collapsar.Core.Blocks.{FileEntry}
use collapsar.Io.AsyncReader.{Slice, effective_block_bytes, submit}
use collapsar.Util.ThreadPool.{Worker, busy, waiting, exited, ThreadPool, submit_task, worker_step}
use collapsar.Util.Tasks.{System, turned, Turn, created}

-- A read task: the position of the file, and the part that it reads.
pub record Read : Type 0 where
  pub file : ℕ
  pub part : Slice

-- A file task, with the futures that it captures and waits for. The pointers to the codecs and the
-- reference to the mutex that it captures too are not modelled.
pub record FileTask : Type 0 where
  pub file : ℕ
  pub reads : List Read

-- What the job's thread does to the pools.
pub data Command : Type 0 where
  submit_read : Read → Command
  submit_file get : FileTask → Command

unfoldable pub task_of : ℕ → ℕ → FileEntry → FileTask
task_of block_bytes i entry = record {
  file = i;
  reads =
      map (λ (s : Slice). record { file = i; part = s })
        (submit entry.size_bytes (effective_block_bytes block_bytes));
}

-- The tasks of the files, from the position `i` on.
unfoldable pub tasks_of : ℕ → ℕ → List FileEntry → List FileTask
unfolding task_of
tasks_of block_bytes i [] = []
tasks_of block_bytes i (entry ∷ entries) =
    task_of block_bytes i entry ∷ tasks_of block_bytes (i + 1) entries

-- The submit loop and the drain loop, if neither returns early.
unfoldable pub submit_loop : List FileTask → List Command
submit_loop [] = []
submit_loop (t ∷ ts) = map submit_read t.reads ++ submit_file t ∷ submit_loop ts

unfoldable pub drain_loop : List FileTask → List Command
drain_loop = map get

unfoldable pub program_of : ℕ → List FileEntry → List Command
unfolding tasks_of submit_loop drain_loop
program_of block_bytes entries =
    let tasks = tasks_of block_bytes 0 entries in submit_loop tasks ++ drain_loop tasks

-- What is left of the program, the results that the job has got, and the two pools.
pub record Schedule : Type 0 where
  pub program : List Command
  pub got : List FileTask
  pub io : System Read
  pub cpu : System FileTask

unfoldable pub start_schedule : ℕ → ℕ → List Command → Schedule
start_schedule io_threads cpu_threads program = record {
  program = program;
  got = [];
  io = created io_threads;
  cpu = created cpu_threads;
}

-- A worker in a file task ends it when the futures it waits for are ready.
abbrev pub MayMove : List Read → Worker FileTask → Type 0
MayMove ready waiting = Unit
MayMove ready (busy task) = Subset task.reads ready
MayMove ready exited = Unit

pub data Move (s : Schedule) : Schedule → Type 0 where
  enqueues_read :
      (r : Read) (rest : List Command) {pool : ThreadPool Read}
      → s.program ≡ submit_read r ∷ rest
      → submit_task r s.io.pool ≡ some pool
      → Move s (record s {
        program = rest;
        io = record s.io { pool = pool; accepted = s.io.accepted ++ r ∷ [] };
      })
  enqueues_file :
      (t : FileTask) (rest : List Command) {pool : ThreadPool FileTask}
      → s.program ≡ submit_file t ∷ rest
      → submit_task t s.cpu.pool ≡ some pool
      → Move s (record s {
        program = rest;
        cpu = record s.cpu { pool = pool; accepted = s.cpu.accepted ++ t ∷ [] };
      })
  gets :
      (t : FileTask) (rest : List Command)
      → s.program ≡ get t ∷ rest
      → Mem t s.cpu.finished
      → Move s (record s { program = rest; got = s.got ++ t ∷ [] })
  io_turns : {io : System Read} → Turn s.io io → Move s (record s { io = io })
  cpu_turns :
      (before after : List (Worker FileTask)) (w : Worker FileTask)
      {next : Worker FileTask × List FileTask}
      → s.cpu.pool.workers ≡ before ++ w ∷ after
      → worker_step w s.cpu.pool.tasks s.cpu.pool.stopped ≡ some next
      → MayMove s.io.finished w
      → Move s (record s { cpu = turned s.cpu before after w next })

-- Where the job's thread may return early: at the test before it submits a file, and in the drain
-- loop, where it tests before it waits for a file and looks at the results of that file after it. An
-- error behind the last result leaves no program either.
pub data MayReturn (program : List Command) : Type 0 where
  before_file :
      (t : FileTask) (ts all : List FileTask)
      → program ≡ submit_loop (t ∷ ts) ++ drain_loop all
      → MayReturn program
  before_get : (t : FileTask) (rest : List Command) → program ≡ get t ∷ rest → MayReturn program

-- A move, or an error or a cancellation: a file task that ends early, which it may do before any of
-- its reads, since it tests before it waits for its first block; or the job itself (`true`), where
-- the code returns.
pub data Event (s : Schedule) : Bool → Schedule → Type 0 where
  moves : {t : Schedule} → Move s t → Event s false t
  leaves : {cpu : System FileTask} → Turn s.cpu cpu → Event s false (record s { cpu = cpu })
  returns :
      (c : Command) (rest : List Command)
      → s.program ≡ c ∷ rest
      → MayReturn s.program
      → Event s true (record s { program = [] })

-- The states of a job over some files, and whether it has returned early.
pub data Runs (block_bytes : ℕ) (entries : List FileEntry) : Bool → Schedule → Type 0 where
  begins :
      (io_threads cpu_threads : ℕ)
      → Runs block_bytes entries false
          (start_schedule io_threads cpu_threads (program_of block_bytes entries))
  goes_on :
      {early this : Bool} {s t : Schedule}
      → Runs block_bytes entries early s
      → Event s this t
      → Runs block_bytes entries (early || this) t
