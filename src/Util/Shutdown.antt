-- ===== src/Util/Shutdown.antt =====
-- The destructor: `stop`, and then a join of each worker. The workers may take their turns in any order.
use mathlib.Core.List.{Perm}
use collapsar.Base.{
  ℕ, suc, ◌+◌, ◌*◌, ◌≤◌, ◌<◌, ◌≡◌, refl, ap, sym, subst, ◌∙◌, ◌⊎◌, inl, inr, Bool, true, false,
  Option, none, some, List, [], ◌∷◌, ◌++◌, append-nil, All, arith, length,
}
use collapsar.Util.ThreadPool.{Worker, waiting, busy, exited, ThreadPool, worker_step}
use collapsar.Util.Tasks.{System, turned, Turn, turn, works, Reach, later, running, has_exited}
use collapsar.Util.Accepted.{system_of, Reach-IsSound}

module _ {ℓ} {A : Type ℓ} where
  abbrev weight : Worker A → ℕ
  weight waiting = 1
  weight (busy task) = 2
  weight exited = 0

  abbrev weights : List (Worker A) → ℕ
  weights [] = 0
  weights (w ∷ ws) = weight w + weights ws

  -- How many turns the workers can still take when nothing is submitted.
  abbrev pub turns_left : ThreadPool A → ℕ
  turns_left pool = 2 * length pool.tasks + weights pool.workers

  -- A number of turns, with nothing in between.
  pub data Turns : ℕ → System A → System A → Type ℓ where
    none_yet : (s : System A) → Turns 0 s s
    one_more : {n : ℕ} {s t u : System A} → Turns n s t → Turn t u → Turns (suc n) s u

  weights_instead :
      (before after : List (Worker A)) (w w' : Worker A)
      → weights (before ++ w ∷ after) + weight w' ≡ weights (before ++ w' ∷ after) + weight w
  weights_instead [] after w w' = omega arith
  weights_instead (v ∷ before) after w w' = omega (arith, weights_instead before after w w')

  abbrev Costs :
      System A → List (Worker A) → List (Worker A) → Worker A → Option (Worker A × List A) → Type 0
  Costs s before after w none = Unit
  Costs s before after w (some next) =
      suc (turns_left (turned s before after w next).pool) ≤ turns_left s.pool

  worker_step-Costs :
      (w : Worker A) (tasks : List A) (stopped : Bool) (accepted taken finished : List A)
      (before after : List (Worker A))
      → Costs
          (system_of (before ++ w ∷ after) tasks stopped accepted taken finished)
          before
          after
          w
          (worker_step w tasks stopped)
  unfolding worker_step
  worker_step-Costs waiting (task ∷ tasks) stopped accepted taken finished before after =
      omega (arith, weights_instead before after waiting (busy task))
  worker_step-Costs waiting [] true accepted taken finished before after =
      omega (arith, weights_instead before after waiting exited)
  worker_step-Costs waiting [] false accepted taken finished before after = tt
  worker_step-Costs (busy task) tasks stopped accepted taken finished before after =
      omega (arith, weights_instead before after (busy task) waiting)
  worker_step-Costs exited tasks stopped accepted taken finished before after = tt

  pub Turn-costs : (s t : System A) → Turn s t → suc (turns_left t.pool) ≤ turns_left s.pool
  Turn-costs s _ (turn before after w {next} at is) =
      let here =
        worker_step-Costs w s.pool.tasks s.pool.stopped s.accepted s.taken s.finished before
          after in
      let same : turns_left s.pool ≡ 2 * length s.pool.tasks + weights (before ++ w ∷ after) =
        ap (λ ws. 2 * length s.pool.tasks + weights ws) at in
      subst (λ m. suc (turns_left (turned s before after w next).pool) ≤ m) (sym same)
        (subst
          (Costs
            (system_of (before ++ w ∷ after) s.pool.tasks s.pool.stopped s.accepted s.taken
              s.finished)
            before after w)
          is here)

  Turns-cost : (n : ℕ) (s t : System A) → Turns n s t → n + turns_left t.pool ≤ turns_left s.pool
  Turns-cost _ s _ (none_yet _) = omega arith
  Turns-cost _ _ u (one_more {n} {s} {t} turns next) =
      omega (arith, Turns-cost n s t turns, Turn-costs t u next)

  Turns-Reach :
      (n : ℕ) (s t : System A)
      → Turns n s t
      → Reach s
      → s.pool.stopped ≡ true
      → Reach t × (t.pool.stopped ≡ true) × (t.accepted ≡ s.accepted)
  Turns-Reach _ s _ (none_yet _) reach off = (reach, off, refl)
  Turns-Reach _ _ _ (one_more {n} {s} {t} turns (turn before after w at is)) reach off =
      let (there, still, same) = Turns-Reach n s t turns reach off in
      (later there (works (turn before after w at is)), still, same)

  abbrev AreExited : List (Worker A) → Type ℓ
  AreExited = All (λ w. w ≡ exited)

  -- A worker that is not gone, and where it stands.
  find_worker :
      (ws : List (Worker A))
      → AreExited ws
        ⊎ ((before : List (Worker A)) × (w : Worker A) × (after : List (Worker A)) × (ws
              ≡ before ++ w ∷ after)
            × ((w ≡ waiting) ⊎ ((task : A) × (w ≡ busy task))))
  find_worker [] = inl tt
  find_worker (waiting ∷ ws) = inr ([], waiting, ws, refl, inl refl)
  find_worker (busy task ∷ ws) = inr ([], busy task, ws, refl, inr (task, refl))
  find_worker (exited ∷ ws) = elim (find_worker ws) [
    | inl gone ↦ inl (refl, gone)
    | inr (before, w, after, at, kind) ↦
        inr (exited ∷ before, w, after, ap (λ l. exited ∷ l) at, kind)
  ]

  -- A worker of a stopped pool moves, wherever it is.
  waiting_moves :
      (tasks : List A) → (next : Worker A × List A) × (worker_step waiting tasks true ≡ some next)
  unfolding worker_step
  waiting_moves [] = (_, refl)
  waiting_moves (task ∷ tasks) = (_, refl)

  busy_moves :
      (task : A) (tasks : List A)
      → (next : Worker A × List A) × (worker_step (busy task) tasks true ≡ some next)
  unfolding worker_step
  busy_moves task tasks = (_, refl)

  stopped_moves :
      (w : Worker A) (tasks : List A)
      → (w ≡ waiting) ⊎ ((task : A) × (w ≡ busy task))
      → (next : Worker A × List A) × (worker_step w tasks true ≡ some next)
  stopped_moves w tasks (inl is) =
      subst (λ w. (next : Worker A × List A) × (worker_step w tasks true ≡ some next)) (sym is)
        (waiting_moves tasks)
  stopped_moves w tasks (inr (task, is)) =
      subst (λ w. (next : Worker A × List A) × (worker_step w tasks true ≡ some next)) (sym is)
        (busy_moves task tasks)

  some-Turn :
      (s : System A)
      → s.pool.stopped ≡ true
      → AreExited s.pool.workers ⊎ ((t : System A) × Turn s t)
  some-Turn s off = elim (find_worker s.pool.workers) [
    | inl gone ↦ inl gone
    | inr (before, w, after, at, kind) ↦
        let (next, is) = stopped_moves w s.pool.tasks kind in
        inr (
          _,
          turn before after w at
              (subst (λ b. worker_step w s.pool.tasks b ≡ some next) (sym off) is),
        )
  ]

  exited_idle : (ws : List (Worker A)) → AreExited ws → running ws ≡ []
  exited_idle [] gone = refl
  exited_idle (w ∷ ws) (is, gone) = rw is (exited_idle ws gone)

  exited_some : (ws : List (Worker A)) → AreExited ws → 0 < length ws → has_exited ws ≡ true
  exited_some [] gone some_worker = elim some_worker [ ]
  exited_some (w ∷ ws) (is, gone) some_worker = rw is refl

  -- When all workers are gone nothing is left.
  exited_complete :
      (s : System A)
      → Reach s
      → AreExited s.pool.workers
      → (s.pool.tasks ≡ []) × Perm s.accepted s.finished
  exited_complete s reach gone =
      let sound = Reach-IsSound s reach in
      let (off, empty) = sound.ended (exited_some s.pool.workers gone sound.some_worker) in
      let all_taken : s.accepted ≡ s.taken =
        sound.fifo ∙ ap (λ l. s.taken ++ l) empty ∙ append-nil s.taken in
      let none_running : s.finished ++ running s.pool.workers ≡ s.finished =
        ap (λ l. s.finished ++ l) (exited_idle s.pool.workers gone) ∙ append-nil s.finished in
      (
        empty,
        subst (λ l. Perm l s.finished) (sym all_taken)
            (subst (Perm s.taken) none_running sound.held),
      )

  -- From a stopped pool that submissions, stops and turns of the workers have led to, the workers
  -- take at most turns_left turns, whatever their order; and after any turns some worker can take
  -- another, or all have exited, the queue is empty, and the tasks that were finished are those
  -- that were accepted, each as often.
  pub join_all :
      (s : System A)
      → Reach s
      → s.pool.stopped ≡ true
      → (n : ℕ) (t : System A) → Turns n s t
      → (n ≤ turns_left s.pool)
        × (((u : System A) × Turn t u)
            ⊎ (AreExited t.pool.workers × (t.pool.tasks ≡ []) × Perm s.accepted t.finished))
  join_all s reach off n t turns =
      let (there, still, same) = Turns-Reach n s t turns reach off in
      (
        omega (arith, Turns-cost n s t turns),
        elim (some-Turn t still) [
          | inl gone ↦
              let (empty, all) = exited_complete t there gone in
              inr (gone, empty, subst (λ l. Perm l t.finished) same all)
          | inr more ↦ inl more
        ],
      )
