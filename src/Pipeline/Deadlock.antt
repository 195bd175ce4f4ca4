-- ===== src/Pipeline/Deadlock.antt =====
-- A job on its pools never gets stuck, and what it has got in the end.
use mathlib.Core.List.Perm
use collapsar.Base.{ℕ, ◌≡◌, refl, subst, ◌⊎◌, inl, inr, Bool, List, [], ◌∷◌}
use collapsar.Core.Blocks.{FileEntry}
use collapsar.Util.ThreadPool.{busy, waiting, worker_step}
use collapsar.Util.Tasks.{turn}
use collapsar.Util.Standing.{BusyAt, IsSettled, stands, submit_task-some}
use collapsar.Pipeline.Schedule.{
  Command, submit_read, submit_file, get, Schedule, Move, enqueues_read, enqueues_file, gets,
  io_turns, cpu_turns, Runs,
}
use collapsar.Pipeline.Orderly.{IsReady, IsOrderly, Runs-IsOrderly, busy_accepted}

abbrev CanMove : Schedule → Type 0
CanMove s = (t : Schedule) × Move s t

io_stands : (s : Schedule) → IsOrderly s → CanMove s ⊎ IsSettled s.io
unfolding worker_step
io_stands s o = elim (stands s.io o.io_open.reach o.io_open.on) [
  | inl (before, after, next, at, is) ↦ inl (_, io_turns (turn before after waiting at is))
  | inr (inl (before, task, after, at)) ↦ inl (_, io_turns (turn before after (busy task) at refl))
  | inr (inr all) ↦ inr all
]

-- When all reads are finished, so are the futures that a file task waits for.
busy_moves : (s : Schedule) → IsOrderly s → IsSettled s.io → BusyAt s.cpu.pool.workers → CanMove s
unfolding worker_step
busy_moves s o all (before, task, after, at) =
    let there = busy_accepted s.cpu before after task at o.cpu_open in
    (
      _,
      cpu_turns before after (busy task) at refl
          (λ r m. (Perm.mem_iff all).0 (o.captured task there r m)),
    )

cpu_stands : (s : Schedule) → IsOrderly s → IsSettled s.io → CanMove s ⊎ IsSettled s.cpu
cpu_stands s o all = elim (stands s.cpu o.cpu_open.reach o.cpu_open.on) [
  | inl (before, after, next, at, is) ↦ inl (_, cpu_turns before after waiting at is tt)
  | inr (inl at) ↦ inl (busy_moves s o all at)
  | inr (inr done) ↦ inr done
]

program_stands :
    (s : Schedule) (p : List Command)
    → s.program ≡ p
    → IsOrderly s
    → IsSettled s.cpu
    → CanMove s ⊎ (p ≡ [])
program_stands s [] is o done = inr refl
program_stands s (submit_read r ∷ rest) is o done =
    inl (_, enqueues_read r rest is (submit_task-some r s.io.pool o.io_open.on))
program_stands s (submit_file t ∷ rest) is o done =
    inl (_, enqueues_file t rest is (submit_task-some t s.cpu.pool o.cpu_open.on))
program_stands s (get t ∷ rest) is o done =
    let (there, _) = subst (IsReady s.io.accepted s.cpu.accepted) is o.ready in
    inl (_, gets t rest is ((Perm.mem_iff done).0 there))

-- In every state that a job over some files reaches on its two pools, also after file tasks that
-- ended early or an early return of the job, something can move, or the job's thread has nothing
-- left to do and in both pools the finished tasks are the accepted ones, each as often.
pub Runs-moves :
    (block_bytes : ℕ) (entries : List FileEntry) (early : Bool) (s : Schedule)
    → Runs block_bytes entries early s
    → ((t : Schedule) × Move s t) ⊎ ((s.program ≡ []) × IsSettled s.io × IsSettled s.cpu)
Runs-moves block_bytes entries early s runs =
    let o = Runs-IsOrderly block_bytes entries early s runs in
    elim (io_stands s o) [
      | inl can ↦ inl can
      | inr all ↦ elim (cpu_stands s o all) [
        | inl can ↦ inl can
        | inr done ↦ elim (program_stands s s.program refl o done) [
          | inl can ↦ inl can
          | inr none_left ↦ inr (none_left, all, done)
        ]
      ]
    ]
