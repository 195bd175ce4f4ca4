-- ===== src/Util/Standing.antt =====
-- Where a pool that nobody has stopped stands between two turns.
use mathlib.Core.List.{Perm}
use collapsar.Base.{
  ◌+◌, ◌<◌, ◌≡◌, refl, ap, sym, subst, ◌∙◌, ◌⊎◌, inl, inr, Bool, false, Bool-cases, some, List, [],
  ◌∷◌, ◌++◌, append-nil, All, arith, length, length-append,
}
use collapsar.Util.ThreadPool.{Worker, waiting, busy, exited, ThreadPool, submit_task, worker_step}
use collapsar.Util.Tasks.{System, Reach, running, has_exited}
use collapsar.Util.Accepted.{Reach-IsSound}
use collapsar.Util.Shutdown.{turns_left}

module _ {ℓ} {A : Type ℓ} where
  -- A worker in a task, and where it stands.
  abbrev pub BusyAt : List (Worker A) → Type ℓ
  BusyAt ws =
      (before : List (Worker A)) × (task : A) × (after : List (Worker A)) × (ws
        ≡ before ++ busy task ∷ after)

  -- A worker that can take a task.
  abbrev pub TakerAt : ThreadPool A → Type ℓ
  TakerAt pool =
      (before after : List (Worker A)) × (next : Worker A × List A) × (pool.workers
        ≡ before ++ waiting ∷ after)
      × (worker_step waiting pool.tasks pool.stopped ≡ some next)

  find_busy : (ws : List (Worker A)) → has_exited ws ≡ false → BusyAt ws ⊎ All (λ w. w ≡ waiting) ws
  find_busy [] here = inr tt
  find_busy (exited ∷ ws) here = cc
  find_busy (busy task ∷ ws) here = inl ([], task, ws, refl)
  find_busy (waiting ∷ ws) here = elim (find_busy ws here) [
    | inl (before, task, after, at) ↦ inl (waiting ∷ before, task, after, ap (λ l. waiting ∷ l) at)
    | inr all ↦ inr (refl, all)
  ]

  waiting_idle : (ws : List (Worker A)) → All (λ w. w ≡ waiting) ws → running ws ≡ []
  waiting_idle [] all = refl
  waiting_idle (w ∷ ws) (is, all) = rw is (waiting_idle ws all)

  find_taker :
      (ws : List (Worker A)) (task : A) (tasks : List A) (stopped : Bool)
      → All (λ w. w ≡ waiting) ws
      → 0 < length ws
      → TakerAt (record { workers = ws; tasks = task ∷ tasks; stopped = stopped })
  unfolding worker_step
  find_taker [] task tasks stopped all some_worker = elim some_worker [ ]
  find_taker (w ∷ ws) task tasks stopped (is, all) some_worker =
      ([], ws, _, ap (λ w. w ∷ ws) is, refl)

  -- All accepted tasks are finished.
  abbrev pub IsSettled : System A → Type ℓ
  IsSettled s = Perm s.accepted s.finished

  settled :
      (s : System A)
      → Reach s
      → s.pool.tasks ≡ []
      → All (λ w. w ≡ waiting) s.pool.workers
      → IsSettled s
  settled s reach empty all =
      let sound = Reach-IsSound s reach in
      let all_taken : s.accepted ≡ s.taken =
        sound.fifo ∙ ap (λ l. s.taken ++ l) empty ∙ append-nil s.taken in
      let none_running : s.finished ++ running s.pool.workers ≡ s.finished =
        ap (λ l. s.finished ++ l) (waiting_idle s.pool.workers all) ∙ append-nil s.finished in
      subst (λ l. Perm l s.finished) (sym all_taken) (subst (Perm s.taken) none_running sound.held)

  not_exited : (s : System A) → Reach s → s.pool.stopped ≡ false → has_exited s.pool.workers ≡ false
  not_exited s reach on = elim (Bool-cases (has_exited s.pool.workers)) [
    | inl gone ↦ let (off, empty) = (Reach-IsSound s reach).ended gone in cc
    | inr here ↦ here
  ]

  waiting_stands :
      (ws : List (Worker A)) (tasks : List A) (stopped : Bool)
      → All (λ w. w ≡ waiting) ws
      → 0 < length ws
      → TakerAt (record { workers = ws; tasks = tasks; stopped = stopped }) ⊎ (tasks ≡ [])
  waiting_stands ws [] stopped all some_worker = inr refl
  waiting_stands ws (task ∷ tasks) stopped all some_worker =
      inl (find_taker ws task tasks stopped all some_worker)

  pub stands :
      (s : System A)
      → Reach s
      → s.pool.stopped ≡ false
      → TakerAt s.pool ⊎ (BusyAt s.pool.workers ⊎ IsSettled s)
  stands s reach on = elim (find_busy s.pool.workers (not_exited s reach on)) [
    | inl somewhere ↦ inr (inl somewhere)
    | inr all ↦
        elim (waiting_stands s.pool.workers s.pool.tasks s.pool.stopped all
          (Reach-IsSound s reach).some_worker) [
            | inl taker ↦ inl taker
            | inr empty ↦ inr (inr (settled s reach empty all))
          ]
  ]

  -- What a submission to a pool that is not stopped makes of it.
  pub submit_task-kept :
      (task : A) (pool pool' : ThreadPool A)
      → submit_task task pool ≡ some pool'
      → (pool'.stopped ≡ false) × (turns_left pool' ≡ 2 + turns_left pool)
  unfolding submit_task
  submit_task-kept task pool pool' is = elim (Bool-cases pool.stopped) [
    | inl off ↦ cc
    | inr on ↦
        let made : record pool { tasks = pool.tasks ++ task ∷ [] } ≡ pool' = grind arith in
        (
          ap (λ p. p.stopped) (sym made) ∙ on,
          ap turns_left (sym made) ∙ omega (arith, length-append pool.tasks (task ∷ [])),
        )
  ]

  pub submit_task-some :
      (task : A) (pool : ThreadPool A)
      → pool.stopped ≡ false
      → submit_task task pool ≡ some (record pool { tasks = pool.tasks ++ task ∷ [] })
  unfolding submit_task
  submit_task-some task pool on = rw on refl
