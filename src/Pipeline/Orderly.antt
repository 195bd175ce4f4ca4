-- ===== src/Pipeline/Orderly.antt =====
-- What holds of a job on its pools in every interleaving.
use mathlib.Core.List.{
  Mem, Mem-prop, Subset, mem-append, mem-append_left, mem-append_right, mem-cons_self,
  eq-or-mem_of_mem-cons, not-mem-nil, mem-cons_of_mem,
}
use mathlib.Core.Logic.Or
use mathlib.Core.List.Perm
use collapsar.Base.{
  ℕ, ◌≡◌, refl, ap, sym, subst, ◌∙◌, Bool, false, some, List, [], ◌∷◌, ◌++◌, append-nil,
  append_assoc, map,
}
use collapsar.Core.Blocks.{FileEntry}
use collapsar.Util.ThreadPool.{ThreadPool, new_pool, submit_task, busy}
use collapsar.Util.Tasks.{
  System, created, running, running_instead, Turn, turn, submits, works, Reach, start, later,
}
use collapsar.Util.Accepted.{Reach-IsSound}
use collapsar.Util.Standing.{submit_task-kept}
use collapsar.Pipeline.Schedule.{
  Read, FileTask, Command, submit_read, submit_file, get, tasks_of, submit_loop, drain_loop,
  program_of, Schedule, start_schedule, Move, enqueues_read, enqueues_file, gets, io_turns,
  cpu_turns, Event, moves, leaves, returns, Runs, begins, goes_on,
}

-- A pool that is in use.
pub record IsOpen {ℓ} {A : Type ℓ} (s : System A) : Type ℓ where
  pub reach : Reach s
  pub on : s.pool.stopped ≡ false

module _ {ℓ} {A : Type ℓ} where
  created-IsOpen : (n : ℕ) → IsOpen (created {A = A} n)
  unfolding new_pool
  created-IsOpen n = record { reach = start n; on = refl }

  submit_task-IsOpen :
      (task : A) (s : System A) (pool : ThreadPool A)
      → submit_task task s.pool ≡ some pool
      → IsOpen s
      → IsOpen (record s { pool = pool; accepted = s.accepted ++ task ∷ [] })
  submit_task-IsOpen task s pool is o = record {
    reach = later o.reach (submits task is);
    on = (submit_task-kept task s.pool pool is).0;
  }

  Turn-IsOpen : (s t : System A) → Turn s t → IsOpen s → IsOpen t
  Turn-IsOpen s _ (turn before after w at is) o = record {
    reach = later o.reach (works (turn before after w at is));
    on = o.on;
  }

  accepted_of : (s : System A) → IsOpen s → Subset (running s.pool.workers) s.accepted
  accepted_of s o task in_work =
      let sound = Reach-IsSound s o.reach in
      subst (Mem task) (sym sound.fifo) (
        mem-append_left s.pool.tasks
          ((Perm.mem_iff sound.held).1 (mem-append_right s.finished in_work)))

  pub busy_accepted :
      (s : System A) (before after : List _) (task : A)
      → s.pool.workers ≡ before ++ busy task ∷ after
      → IsOpen s
      → Mem task s.accepted
  busy_accepted s before after task at o = accepted_of s o task (
      subst (Mem task) (sym (ap running at ∙ running_instead before after (busy task)))
        (mem-append_right (running before) mem-cons_self))

-- Each file task is submitted behind its reads, and each result is asked for behind its task.
abbrev pub IsReady : List Read → List FileTask → List Command → Type 0
IsReady rs ts [] = Unit
IsReady rs ts (submit_read r ∷ p) = IsReady (rs ++ r ∷ []) ts p
IsReady rs ts (submit_file t ∷ p) = Subset t.reads rs × IsReady rs (ts ++ t ∷ []) p
IsReady rs ts (get t ∷ p) = Mem t ts × IsReady rs ts p

-- What every event keeps.
pub record IsOrderly (s : Schedule) : Type 0 where
  pub io_open : IsOpen s.io
  pub cpu_open : IsOpen s.cpu
  pub ready : IsReady s.io.accepted s.cpu.accepted s.program
  pub captured : (t : FileTask) → Mem t s.cpu.accepted → Subset t.reads s.io.accepted

captured_snoc :
    (rs : List Read) (ts : List FileTask) (t : FileTask)
    → ((u : FileTask) → Mem u ts → Subset u.reads rs)
    → Subset t.reads rs
    → (u : FileTask) → Mem u (ts ++ t ∷ [])
    → Subset u.reads rs
captured_snoc rs ts t old new u at r is =
    Or.elim Mem-prop (mem-append.0 at) (λ before. old u before r is)
      (λ last.
        Or.elim Mem-prop (eq-or-mem_of_mem-cons last)
          (λ same. new r (subst (λ (v : FileTask). Mem r v.reads) same is))
          (λ none_there. absurd (not-mem-nil none_there)))

Move-IsOrderly : (s t : Schedule) → Move s t → IsOrderly s → IsOrderly t
Move-IsOrderly s _ (enqueues_read r rest {pool} is made) o = record {
  io_open = submit_task-IsOpen r s.io pool made o.io_open;
  cpu_open = o.cpu_open;
  ready = subst (IsReady s.io.accepted s.cpu.accepted) is o.ready;
  captured = λ t at q m. mem-append_left (r ∷ []) (o.captured t at q m);
}
Move-IsOrderly s _ (enqueues_file t rest {pool} is made) o =
    let (behind, ready) = subst (IsReady s.io.accepted s.cpu.accepted) is o.ready in
    record {
      io_open = o.io_open;
      cpu_open = submit_task-IsOpen t s.cpu pool made o.cpu_open;
      ready = ready;
      captured = captured_snoc s.io.accepted s.cpu.accepted t o.captured behind;
    }
Move-IsOrderly s _ (gets t rest is done) o = record {
  io_open = o.io_open;
  cpu_open = o.cpu_open;
  ready = (subst (IsReady s.io.accepted s.cpu.accepted) is o.ready).1;
  captured = o.captured;
}
Move-IsOrderly s _ (io_turns {io} (turn before after w at is)) o = record {
  io_open = Turn-IsOpen s.io io (turn before after w at is) o.io_open;
  cpu_open = o.cpu_open;
  ready = o.ready;
  captured = o.captured;
}
Move-IsOrderly s _ (cpu_turns before after w at is may) o = record {
  io_open = o.io_open;
  cpu_open = Turn-IsOpen s.cpu _ (turn before after w at is) o.cpu_open;
  ready = o.ready;
  captured = o.captured;
}

pub Event-IsOrderly : (s t : Schedule) (early : Bool) → Event s early t → IsOrderly s → IsOrderly t
Event-IsOrderly s t _ (moves step) o = Move-IsOrderly s t step o
Event-IsOrderly s _ _ (leaves {cpu} (turn before after w at is)) o = record {
  io_open = o.io_open;
  cpu_open = Turn-IsOpen s.cpu cpu (turn before after w at is) o.cpu_open;
  ready = o.ready;
  captured = o.captured;
}
Event-IsOrderly s _ _ (returns c rest is at) o = record {
  io_open = o.io_open;
  cpu_open = o.cpu_open;
  ready = tt;
  captured = o.captured;
}

IsReady-map :
    (rs qs : List Read) (ts : List FileTask) (p : List Command)
    → IsReady (rs ++ qs) ts p
    → IsReady rs ts (map submit_read qs ++ p)
IsReady-map rs [] ts p h = subst (λ l. IsReady l ts p) (append-nil rs) h
IsReady-map rs (q ∷ qs) ts p h =
    IsReady-map (rs ++ q ∷ []) qs ts p
      (subst (λ l. IsReady l ts p) (sym (append_assoc rs (q ∷ []) qs)) h)

IsReady-drain_loop :
    (rs : List Read) (ts asked : List FileTask) → Subset asked ts → IsReady rs ts (drain_loop asked)
unfolding drain_loop
IsReady-drain_loop rs ts [] there = tt
IsReady-drain_loop rs ts (t ∷ asked) there =
    (there t mem-cons_self, IsReady-drain_loop rs ts asked (λ u m. there u (mem-cons_of_mem t m)))

IsReady-submit_loop :
    (rs : List Read) (before ts : List FileTask) (p : List Command)
    → ((rs' : List Read) → IsReady rs' (before ++ ts) p)
    → IsReady rs before (submit_loop ts ++ p)
unfolding submit_loop
IsReady-submit_loop rs before [] p h = subst (λ l. IsReady rs l p) (append-nil before) (h rs)
IsReady-submit_loop rs before (t ∷ ts) p h =
    subst (IsReady rs before)
      (sym (append_assoc (map submit_read t.reads) (submit_file t ∷ submit_loop ts) p))
      (IsReady-map rs t.reads before (submit_file t ∷ submit_loop ts ++ p) (
        (λ r m. mem-append_right rs m),
        IsReady-submit_loop (rs ++ t.reads) (before ++ t ∷ []) ts p
            (λ rs'. subst (λ l. IsReady rs' l p) (sym (append_assoc before (t ∷ []) ts)) (h rs')),
      ))

start_schedule-IsOrderly :
    (io_threads cpu_threads block_bytes : ℕ) (entries : List FileEntry)
    → IsOrderly (start_schedule io_threads cpu_threads (program_of block_bytes entries))
unfolding start_schedule program_of
start_schedule-IsOrderly io_threads cpu_threads block_bytes entries = record {
  io_open = created-IsOpen io_threads;
  cpu_open = created-IsOpen cpu_threads;
  ready =
      IsReady-submit_loop [] [] (tasks_of block_bytes 0 entries) _
        (λ rs. IsReady-drain_loop rs _ _ (λ t m. m));
  captured = λ t at. absurd (not-mem-nil at);
}

pub Runs-IsOrderly :
    (block_bytes : ℕ) (entries : List FileEntry) (early : Bool) (s : Schedule)
    → Runs block_bytes entries early s
    → IsOrderly s
Runs-IsOrderly block_bytes entries _ _ (begins io_threads cpu_threads) =
    start_schedule-IsOrderly io_threads cpu_threads block_bytes entries
Runs-IsOrderly block_bytes entries _ t (goes_on {early} {this} {s} runs event) =
    Event-IsOrderly s t this event (Runs-IsOrderly block_bytes entries early s runs)
