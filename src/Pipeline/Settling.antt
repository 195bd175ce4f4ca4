-- ===== src/Pipeline/Settling.antt =====
-- The events of a job on its pools end.
use mathlib.Core.WellFounded.{Acc}
use collapsar.Base.{ℕ, zero, suc, ◌+◌, ◌<◌, ap, Bool, List, [], ◌∷◌, arith}
use collapsar.Util.Shutdown.{turns_left, Turn-costs}
use collapsar.Util.Tasks.{turn}
use collapsar.Util.Standing.{submit_task-kept}
use collapsar.Pipeline.Schedule.{
  Command, submit_read, submit_file, get, Schedule, Move, enqueues_read, enqueues_file, gets,
  io_turns, cpu_turns, Event, moves, leaves, returns,
}

abbrev cost : List Command → ℕ
cost [] = 0
cost (submit_read r ∷ rest) = 3 + cost rest
cost (submit_file t ∷ rest) = 3 + cost rest
cost (get t ∷ rest) = 1 + cost rest

-- How many events can still come.
abbrev pub events_left : Schedule → ℕ
events_left s = cost s.program + turns_left s.io.pool + turns_left s.cpu.pool

cost_positive : (c : Command) (rest : List Command) → 0 < cost (c ∷ rest)
cost_positive (submit_read r) rest = omega arith
cost_positive (submit_file t) rest = omega arith
cost_positive (get t) rest = omega arith

Move-costs : (s t : Schedule) → Move s t → events_left t < events_left s
Move-costs s _ (enqueues_read r rest is made) =
    omega (arith, ap cost is, (submit_task-kept r s.io.pool _ made).1)
Move-costs s _ (enqueues_file t rest is made) =
    omega (arith, ap cost is, (submit_task-kept t s.cpu.pool _ made).1)
Move-costs s _ (gets t rest is done) = omega (arith, ap cost is)
Move-costs s _ (io_turns {io} turns) = omega (arith, Turn-costs s.io io turns)
Move-costs s _ (cpu_turns before after w at is may) =
    omega (arith, Turn-costs s.cpu _ (turn before after w at is))

Event-costs : (s t : Schedule) (early : Bool) → Event s early t → events_left t < events_left s
Event-costs s t _ (moves step) = Move-costs s t step
Event-costs s _ _ (leaves {cpu} turns) = omega (arith, Turn-costs s.cpu cpu turns)
Event-costs s _ _ (returns c rest is at) = omega (arith, ap cost is, cost_positive c rest)

-- `t` comes right after `s`.
abbrev pub Follows : Schedule → Schedule → Type 0
Follows t s = (early : Bool) × Event s early t

Follows-Acc_below : (n : ℕ) (s : Schedule) → events_left s < n → Acc Follows s
Follows-Acc_below zero s below = absurd (omega arith)
Follows-Acc_below (suc n) s below =
    Acc.intro s
      λ t follows. Follows-Acc_below n t (omega (arith, Event-costs s t follows.0 follows.1))

-- From any state of a job on its two pools every sequence of events is finite: moves of the job's
-- thread and of the workers, file tasks that end early, early returns of the job.
pub Follows-Acc : (s : Schedule) → Acc Follows s
Follows-Acc s = Follows-Acc_below (suc (events_left s)) s (omega arith)
