-- ===== src/Pipeline/Idle.antt =====
-- What a job that does not return early leaves in the CPU pool.
use mathlib.Core.List.{
  Mem, Subset, Nodup, Nodup-nil, Nodup-cons, Nodup-append, mem-append_left, mem-append_right,
  mem-cons_self, eq-or-mem_of_mem-cons, not-mem-nil, Perm,
}
use mathlib.Core.List.Perm
use mathlib.Core.HLevel.{⊥_prop}
use mathlib.Core.Logic.Or
use collapsar.Base.{
  ℕ, ◌+◌, ◌≤◌, ◌≡◌, refl, ap, sym, subst, ◌∙◌, false, List, [], ◌∷◌, ◌++◌, arith, All,
}
use collapsar.Core.Blocks.{FileEntry}
use collapsar.Util.Tasks.{running}
use collapsar.Util.Accepted.{Reach-IsSound}
use collapsar.Pipeline.Schedule.{FileTask, task_of, tasks_of, Schedule, Runs}
use collapsar.Pipeline.Orderly.{Runs-IsOrderly}
use collapsar.Pipeline.Order.{Runs-in_order}

abbrev AreFrom : ℕ → List FileTask → Type 0
AreFrom i = All (λ t. i ≤ t.file)

AreFrom-weaken : (i : ℕ) (ts : List FileTask) → AreFrom (i + 1) ts → AreFrom i ts
AreFrom-weaken i [] all = tt
AreFrom-weaken i (t ∷ ts) (from, all) = (omega (arith, from), AreFrom-weaken i ts all)

tasks_of-AreFrom :
    (block_bytes i : ℕ) (entries : List FileEntry) → AreFrom i (tasks_of block_bytes i entries)
unfolding tasks_of task_of
tasks_of-AreFrom block_bytes i [] = tt
tasks_of-AreFrom block_bytes i (entry ∷ entries) =
    (omega arith, AreFrom-weaken i _ (tasks_of-AreFrom block_bytes (i + 1) entries))

AreFrom-not_in : (t : FileTask) (ts : List FileTask) → AreFrom (t.file + 1) ts → ¬ (Mem t ts)
AreFrom-not_in t [] all at = not-mem-nil at
AreFrom-not_in t (u ∷ us) (from, all) at =
    Or.elim ⊥_prop (eq-or-mem_of_mem-cons at)
      (λ same.
        let file : t.file ≡ u.file = ap (λ (v : FileTask). v.file) same in
        absurd (omega (arith, from, file)))
      (AreFrom-not_in t us all)

-- The tasks of a job are all different: each has the position of its file.
tasks_of-Nodup :
    (block_bytes i : ℕ) (entries : List FileEntry) → Nodup (tasks_of block_bytes i entries)
unfolding tasks_of task_of
tasks_of-Nodup block_bytes i [] = Nodup-nil
tasks_of-Nodup block_bytes i (entry ∷ entries) = Nodup-cons.1 (
  AreFrom-not_in (task_of block_bytes i entry) _ (tasks_of-AreFrom block_bytes (i + 1) entries),
  tasks_of-Nodup block_bytes (i + 1) entries,
)

module _ {ℓ} {A : Type ℓ} (taken finished : List A) where
  no_queue :
      (queue rest : List A)
      → Nodup (taken ++ queue)
      → Perm taken (finished ++ rest)
      → Subset (taken ++ queue) finished
      → queue ≡ []
  no_queue [] rest different held done = refl
  no_queue (t ∷ queue) rest different held done =
      let ended = done t (mem-append_right taken mem-cons_self) in
      let started = (Perm.mem_iff held).1 (mem-append_left rest ended) in
      absurd ((Nodup-append.0 different).2 t started mem-cons_self)

  no_rest :
      (rest : List A)
      → Nodup taken
      → Perm taken (finished ++ rest)
      → Subset taken finished
      → rest ≡ []
  no_rest [] different held done = refl
  no_rest (t ∷ rest) different held done =
      let at : Mem t (finished ++ t ∷ rest) = mem-append_right finished mem-cons_self in
      let ended = done t ((Perm.mem_iff held).1 at) in
      absurd ((Nodup-append.0 (Perm.nodup held different)).2 t ended mem-cons_self)

-- A job on its two pools that has not returned early and has nothing left to do has submitted the
-- task of each file and got its result, both in input order, and no file task waits in the queue
-- of the CPU pool or is run by a worker. Nothing is said of the I/O pool, where reads of a file
-- whose task ended early may still wait.
pub Runs-idle :
    (block_bytes : ℕ) (entries : List FileEntry) (s : Schedule)
    → Runs block_bytes entries false s
    → s.program ≡ []
    → (s.got ≡ tasks_of block_bytes 0 entries)
      × (s.cpu.accepted ≡ tasks_of block_bytes 0 entries)
      × (s.cpu.pool.tasks ≡ [])
      × (running s.cpu.pool.workers ≡ [])
Runs-idle block_bytes entries s runs over =
    let (got, accepted, done) = Runs-in_order block_bytes entries s runs over in
    let sound =
      Reach-IsSound s.cpu (Runs-IsOrderly block_bytes entries false s runs).cpu_open.reach in
    let all : s.cpu.taken ++ s.cpu.pool.tasks ≡ s.got = sym sound.fifo ∙ accepted ∙ sym got in
    let different : Nodup (s.cpu.taken ++ s.cpu.pool.tasks) =
      subst Nodup (sym (all ∙ got)) (tasks_of-Nodup block_bytes 0 entries) in
    let ended : Subset (s.cpu.taken ++ s.cpu.pool.tasks) s.cpu.finished =
      subst (λ l. Subset l s.cpu.finished) (sym all) done in
    (
      got,
      accepted,
      no_queue s.cpu.taken s.cpu.finished s.cpu.pool.tasks _ different sound.held ended,
      no_rest s.cpu.taken s.cpu.finished _ (Nodup-append.0 different).0 sound.held
          (λ t at. ended t (mem-append_left s.cpu.pool.tasks at)),
    )
