-- ===== src/Runs/Schedules.antt =====
-- A job over one file of one block on two pools of one worker each.
use mathlib.Core.WellFounded.{Acc}
use mathlib.Core.List.{mem-cons_self}
use collapsar.Base.{◌≡◌, ◌⊎◌, refl, true, false, [], ◌∷◌}
use collapsar.Util.ThreadPool.{waiting, busy, new_pool, submit_task, worker_step}
use collapsar.Util.Tasks.{turn, running}
use collapsar.Util.Standing.{IsSettled}
use collapsar.Io.AsyncReader.{submit, slices_from, slice, block_count, effective_block_bytes}
use collapsar.Pipeline.Schedule.{
  Read, FileTask, Schedule, task_of, tasks_of, submit_loop, drain_loop, program_of, start_schedule,
  Move, enqueues_read, enqueues_file, gets, io_turns, cpu_turns, moves, Runs, begins, goes_on,
}
use collapsar.Pipeline.Settling.{Follows, Follows-Acc}
use collapsar.Pipeline.Deadlock.{Runs-moves}
use collapsar.Pipeline.Idle.{Runs-idle}
use collapsar.Pipeline.Outlived.{Runs-outlived}
use collapsar.Runs.Files.{five_entry}

abbrev five_read : Read
five_read = record { file = 0; part = record { idx = 0; offset = 0; bytes = 5; last = true } }

abbrev five_task : FileTask
five_task = record { file = 0; reads = five_read ∷ [] }

abbrev before_run : Schedule
before_run = start_schedule 1 1 (program_of 8 (five_entry ∷ []))

-- All is done.
abbrev all_done : Schedule
all_done = record {
  program = [];
  got = five_task ∷ [];
  io = record {
    pool = record { workers = waiting ∷ []; tasks = []; stopped = false };
    accepted = five_read ∷ [];
    taken = five_read ∷ [];
    finished = five_read ∷ [];
  };
  cpu = record {
    pool = record { workers = waiting ∷ []; tasks = []; stopped = false };
    accepted = five_task ∷ [];
    taken = five_task ∷ [];
    finished = five_task ∷ [];
  };
}

all_done-Runs : Runs 8 (five_entry ∷ []) false all_done
unfolding start_schedule program_of tasks_of task_of submit_loop drain_loop new_pool submit_task
    worker_step submit slices_from slice block_count effective_block_bytes
all_done-Runs =
    goes_on
      (goes_on
        (goes_on
          (goes_on
            (goes_on
              (goes_on (goes_on (begins 1 1) (moves (enqueues_read five_read _ refl refl)))
                (moves (enqueues_file five_task _ refl refl)))
              (moves (cpu_turns [] [] waiting refl refl tt)))
            (moves (io_turns (turn [] [] waiting refl refl))))
          (moves (io_turns (turn [] [] (busy five_read) refl refl))))
        (moves (cpu_turns [] [] (busy five_task) refl refl (λ r m. m))))
      (moves (gets five_task [] refl mem-cons_self))

Runs-moves_example :
    ((t : Schedule) × Move all_done t)
    ⊎ ((all_done.program ≡ []) × IsSettled all_done.io × IsSettled all_done.cpu)
Runs-moves_example = Runs-moves 8 (five_entry ∷ []) false all_done all_done-Runs

Runs-idle_example :
    (all_done.got ≡ tasks_of 8 0 (five_entry ∷ []))
    × (all_done.cpu.accepted ≡ tasks_of 8 0 (five_entry ∷ []))
    × (all_done.cpu.pool.tasks ≡ [])
    × (running all_done.cpu.pool.workers ≡ [])
Runs-idle_example = Runs-idle 8 (five_entry ∷ []) all_done all_done-Runs refl

Follows-Acc_example : Acc Follows before_run
Follows-Acc_example = Follows-Acc before_run

Runs-outlived_example :
    (s : Schedule) × Runs 8 (five_entry ∷ five_entry ∷ []) true s
    × (s.program ≡ [])
    × (s.cpu.pool.tasks ≡ task_of 8 0 five_entry ∷ [])
    × (s.cpu.finished ≡ [])
Runs-outlived_example = Runs-outlived 8 1 1 five_entry (five_entry ∷ [])
