-- ===== src/Pipeline/Order.antt =====
-- The results that a job has got from its pools, in which order, and what it leaves behind.
use mathlib.Core.List.{
  Mem, Mem-prop, Subset, mem-append, mem-append_left, eq-or-mem_of_mem-cons, not-mem-nil,
}
use mathlib.Core.Logic.Or
use collapsar.Base.{
  ℕ, ◌≡◌, refl, ap, sym, subst, ◌∙◌, Bool, true, false, List, [], ◌∷◌, ◌++◌, append-nil,
  append_assoc, map,
}
use collapsar.Core.Blocks.{FileEntry}
use collapsar.Util.Tasks.{System, Turn, turn}
use collapsar.Pipeline.Schedule.{
  Read, FileTask, Command, submit_read, submit_file, get, tasks_of, submit_loop, drain_loop,
  program_of, Schedule, start_schedule, Move, enqueues_read, enqueues_file, gets, io_turns,
  cpu_turns, moves, leaves, returns, Runs, begins, goes_on,
}

-- The tasks that a program still submits, and those that it still waits for.
abbrev submitted : List Command → List FileTask
submitted [] = []
submitted (submit_read r ∷ rest) = submitted rest
submitted (submit_file t ∷ rest) = t ∷ submitted rest
submitted (get t ∷ rest) = submitted rest

abbrev awaited : List Command → List FileTask
awaited [] = []
awaited (submit_read r ∷ rest) = awaited rest
awaited (submit_file t ∷ rest) = awaited rest
awaited (get t ∷ rest) = t ∷ awaited rest

-- What every event but an early return of the job keeps.
record IsOnCourse (all : List FileTask) (s : Schedule) : Type 0 where
  asks : s.got ++ awaited s.program ≡ all
  files : s.cpu.accepted ++ submitted s.program ≡ all
  done : Subset s.got s.cpu.finished

Subset-append : (xs ys zs : List FileTask) → Subset xs ys → Subset xs (ys ++ zs)
Subset-append xs ys zs h t m = mem-append_left zs (h t m)

Subset-snoc :
    (xs ys : List FileTask) (t : FileTask) → Subset xs ys → Mem t ys → Subset (xs ++ t ∷ []) ys
Subset-snoc xs ys t old new u at =
    Or.elim Mem-prop (mem-append.0 at) (λ m. old u m)
      (λ last.
        Or.elim Mem-prop (eq-or-mem_of_mem-cons last) (λ same. subst (λ v. Mem v ys) (sym same) new)
          (λ none_there. absurd (not-mem-nil none_there)))

Turn-IsOnCourse :
    (all : List FileTask) (s : Schedule) (cpu : System FileTask)
    → Turn s.cpu cpu
    → IsOnCourse all s
    → IsOnCourse all (record s { cpu = cpu })
Turn-IsOnCourse all s _ (turn before after w at is) o = record {
  asks = o.asks;
  files = o.files;
  done = Subset-append s.got s.cpu.finished _ o.done;
}

Move-IsOnCourse :
    (all : List FileTask) (s t : Schedule) → Move s t → IsOnCourse all s → IsOnCourse all t
Move-IsOnCourse all s _ (enqueues_read r rest is made) o = record {
  asks = ap (λ p. s.got ++ awaited p) (sym is) ∙ o.asks;
  files = ap (λ p. s.cpu.accepted ++ submitted p) (sym is) ∙ o.files;
  done = o.done;
}
Move-IsOnCourse all s _ (enqueues_file t rest is made) o = record {
  asks = ap (λ p. s.got ++ awaited p) (sym is) ∙ o.asks;
  files =
      append_assoc s.cpu.accepted (t ∷ []) (submitted rest)
      ∙ ap (λ p. s.cpu.accepted ++ submitted p) (sym is)
      ∙ o.files;
  done = o.done;
}
Move-IsOnCourse all s _ (gets t rest is there) o = record {
  asks =
      append_assoc s.got (t ∷ []) (awaited rest) ∙ ap (λ p. s.got ++ awaited p) (sym is) ∙ o.asks;
  files = ap (λ p. s.cpu.accepted ++ submitted p) (sym is) ∙ o.files;
  done = Subset-snoc s.got s.cpu.finished t o.done there;
}
Move-IsOnCourse all s _ (io_turns turns) o = record {
  asks = o.asks;
  files = o.files;
  done = o.done;
}
Move-IsOnCourse all s _ (cpu_turns before after w at is may) o =
    Turn-IsOnCourse all s _ (turn before after w at is) o

awaited_reads :
    (rs : List Read) (p q : List Command)
    → awaited ((map submit_read rs ++ p) ++ q) ≡ awaited (p ++ q)
awaited_reads [] p q = refl
awaited_reads (r ∷ rs) p q = awaited_reads rs p q

submitted_reads :
    (rs : List Read) (p q : List Command)
    → submitted ((map submit_read rs ++ p) ++ q) ≡ submitted (p ++ q)
submitted_reads [] p q = refl
submitted_reads (r ∷ rs) p q = submitted_reads rs p q

awaited-submit_loop :
    (ts : List FileTask) (p : List Command) → awaited (submit_loop ts ++ p) ≡ awaited p
unfolding submit_loop
awaited-submit_loop [] p = refl
awaited-submit_loop (t ∷ ts) p =
    awaited_reads t.reads (submit_file t ∷ submit_loop ts) p ∙ awaited-submit_loop ts p

submitted-submit_loop :
    (ts : List FileTask) (p : List Command) → submitted (submit_loop ts ++ p) ≡ ts ++ submitted p
unfolding submit_loop
submitted-submit_loop [] p = refl
submitted-submit_loop (t ∷ ts) p =
    submitted_reads t.reads (submit_file t ∷ submit_loop ts) p
    ∙ ap (λ l. t ∷ l) (submitted-submit_loop ts p)

awaited-drain_loop : (ts : List FileTask) → awaited (drain_loop ts) ≡ ts
unfolding drain_loop
awaited-drain_loop [] = refl
awaited-drain_loop (t ∷ ts) = ap (λ l. t ∷ l) (awaited-drain_loop ts)

submitted-drain_loop : (ts : List FileTask) → submitted (drain_loop ts) ≡ []
unfolding drain_loop
submitted-drain_loop [] = refl
submitted-drain_loop (t ∷ ts) = submitted-drain_loop ts

module _ (block_bytes : ℕ) (entries : List FileEntry) where
  start_schedule-IsOnCourse :
      (io_threads cpu_threads : ℕ)
      → IsOnCourse
          (tasks_of block_bytes 0 entries)
          (start_schedule io_threads cpu_threads (program_of block_bytes entries))
  unfolding start_schedule program_of
  start_schedule-IsOnCourse io_threads cpu_threads =
      let ts = tasks_of block_bytes 0 entries in
      record {
        asks = awaited-submit_loop ts (drain_loop ts) ∙ awaited-drain_loop ts;
        files =
            submitted-submit_loop ts (drain_loop ts)
            ∙ ap (λ l. ts ++ l) (submitted-drain_loop ts)
            ∙ append-nil ts;
        done = λ t at. absurd (not-mem-nil at);
      }

  -- Nothing but an early return takes a job off its course.
  Runs-IsOnCourse :
      (early : Bool) (s : Schedule)
      → Runs block_bytes entries early s
      → early ≡ false
      → IsOnCourse (tasks_of block_bytes 0 entries) s
  Runs-IsOnCourse _ _ (begins io_threads cpu_threads) on =
      start_schedule-IsOnCourse io_threads cpu_threads
  Runs-IsOnCourse _ t (goes_on {early = false} {s = s} runs (moves step)) on =
      Move-IsOnCourse _ s t step (Runs-IsOnCourse false s runs refl)
  Runs-IsOnCourse _ _ (goes_on {early = false} {s = s} runs (leaves {cpu} turns)) on =
      Turn-IsOnCourse _ s cpu turns (Runs-IsOnCourse false s runs refl)
  Runs-IsOnCourse _ _ (goes_on {early = false} runs (returns c rest is at)) on = cc
  Runs-IsOnCourse _ _ (goes_on {early = true} runs event) on = cc

  -- A job on its two pools that has not returned early and has nothing left to do has submitted
  -- the task of each file and got its result, both in input order, and each of these tasks is
  -- finished.
  pub Runs-in_order :
      (s : Schedule)
      → Runs block_bytes entries false s
      → s.program ≡ []
      → (s.got ≡ tasks_of block_bytes 0 entries)
        × (s.cpu.accepted ≡ tasks_of block_bytes 0 entries)
        × Subset s.got s.cpu.finished
  Runs-in_order s runs over =
      let o = Runs-IsOnCourse false s runs refl in
      (
        sym (append-nil s.got) ∙ ap (λ p. s.got ++ awaited p) (sym over) ∙ o.asks,
        sym (append-nil s.cpu.accepted)
            ∙ ap (λ p. s.cpu.accepted ++ submitted p) (sym over)
            ∙ o.files,
        o.done,
      )
