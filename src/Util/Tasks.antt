-- ===== src/Util/Tasks.antt =====
-- All interleavings of the workers of a thread pool with those who submit to it and stop it.
use mathlib.Core.List.{Perm, perm_middle}
use mathlib.Core.List.Perm
use collapsar.Base.{
  ℕ, ◌<◌, ◌≡◌, refl, ap, sym, subst, ◌∙◌, Bool, true, false, ◌||◌, some, List, [], ◌∷◌, ◌++◌,
  append-nil, append_assoc, arith, length,
}
use collapsar.Util.ThreadPool.{
  Worker, waiting, busy, exited, ThreadPool, new_pool, submit_task, stop, worker_step,
}

-- A pool and its history: the tasks that were accepted, taken by a worker and finished, in order.
pub record System {ℓ} (A : Type ℓ) : Type ℓ where
  pub pool : ThreadPool A
  pub accepted : List A
  pub taken : List A
  pub finished : List A

module _ {ℓ} {A : Type ℓ} where
  abbrev pub taken_by : Worker A → List A → List A
  taken_by waiting (task ∷ tasks) = task ∷ []
  taken_by _ _ = []

  abbrev pub finished_by : Worker A → List A
  finished_by (busy task) = task ∷ []
  finished_by _ = []

  abbrev pub turned :
      System A → List (Worker A) → List (Worker A) → Worker A → Worker A × List A → System A
  turned s before after w (w', tasks) = record {
    pool = record { workers = before ++ w' ∷ after; tasks = tasks; stopped = s.pool.stopped };
    accepted = s.accepted;
    taken = s.taken ++ taken_by w s.pool.tasks;
    finished = s.finished ++ finished_by w;
  }

  -- Some worker moves.
  pub data Turn (s : System A) : System A → Type ℓ where
    turn :
        (before after : List (Worker A)) (w : Worker A) {next : Worker A × List A}
        → s.pool.workers ≡ before ++ w ∷ after
        → worker_step w s.pool.tasks s.pool.stopped ≡ some next
        → Turn s (turned s before after w next)

  pub data Step (s : System A) : System A → Type ℓ where
    submits :
        (task : A) {pool : ThreadPool A}
        → submit_task task s.pool ≡ some pool
        → Step s (record s { pool = pool; accepted = s.accepted ++ task ∷ [] })
    stops : Step s (record s { pool = stop s.pool })
    works : {t : System A} → Turn s t → Step s t

  abbrev pub created : ℕ → System A
  created worker_count = record {
    pool = new_pool worker_count;
    accepted = [];
    taken = [];
    finished = [];
  }

  pub data Reach : System A → Type ℓ where
    start : (worker_count : ℕ) → Reach (created worker_count)
    later : {s t : System A} → Reach s → Step s t → Reach t

  abbrev running_by : Worker A → List A
  running_by (busy task) = task ∷ []
  running_by _ = []

  abbrev pub running : List (Worker A) → List A
  running [] = []
  running (w ∷ ws) = running_by w ++ running ws

  abbrev pub is_exited : Worker A → Bool
  is_exited exited = true
  is_exited _ = false

  abbrev pub has_exited : List (Worker A) → Bool
  has_exited [] = false
  has_exited (w ∷ ws) = is_exited w || has_exited ws

  -- What every step keeps.
  pub record IsSound (s : System A) : Type ℓ where
    pub fifo : s.accepted ≡ s.taken ++ s.pool.tasks
    pub held : Perm s.taken (s.finished ++ running s.pool.workers)
    pub ended : has_exited s.pool.workers ≡ true → (s.pool.stopped ≡ true) × (s.pool.tasks ≡ [])
    pub some_worker : 0 < length s.pool.workers

  running-append :
      (before after : List (Worker A)) → running (before ++ after) ≡ running before ++ running after
  running-append [] after = refl
  running-append (w ∷ before) after =
      ap (λ r. running_by w ++ r) (running-append before after)
      ∙ sym (append_assoc (running_by w) (running before) (running after))

  pub has_exited_instead :
      (before after : List (Worker A)) (w w' : Worker A)
      → is_exited w ≡ is_exited w'
      → has_exited (before ++ w ∷ after) ≡ has_exited (before ++ w' ∷ after)
  has_exited_instead [] after w w' same = ap (λ b. b || has_exited after) same
  has_exited_instead (v ∷ before) after w w' same =
      ap (λ b. is_exited v || b) (has_exited_instead before after w w' same)

  pub length_instead :
      (before after : List (Worker A)) (w : Worker A) → 0 < length (before ++ w ∷ after)
  length_instead [] after w = omega arith
  length_instead (v ∷ before) after w = omega arith

  pub running_instead :
      (before after : List (Worker A)) (w : Worker A)
      → running (before ++ w ∷ after) ≡ running before ++ (running_by w ++ running after)
  running_instead before after w = running-append before (w ∷ after)

  inserted :
      (front before after : List A) (task : A)
      → Perm (front ++ (before ++ task ∷ after)) (task ∷ (front ++ (before ++ after)))
  inserted front before after task =
      subst (λ l. Perm l (task ∷ (front ++ (before ++ after))))
        (append_assoc front before (task ∷ after))
        (subst (λ l. Perm ((front ++ before) ++ task ∷ after) (task ∷ l))
          (append_assoc front before after) (perm_middle (front ++ before) after))

  appended : (front : List A) (task : A) → Perm (front ++ task ∷ []) (task ∷ front)
  appended front task =
      subst (λ l. Perm (front ++ task ∷ []) (task ∷ l)) (append-nil front) (perm_middle front [])

  pub held_taken :
      (taken front before after : List A) (task : A)
      → Perm taken (front ++ (before ++ after))
      → Perm (taken ++ task ∷ []) (front ++ (before ++ task ∷ after))
  held_taken taken front before after task held =
      Perm.trans (appended taken task)
        (Perm.trans (Perm.cons task held) (Perm.symm (inserted front before after task)))

  pub held_finished :
      (taken front before after : List A) (task : A)
      → Perm taken (front ++ (before ++ task ∷ after))
      → Perm taken ((front ++ task ∷ []) ++ (before ++ after))
  held_finished taken front before after task held = Perm.trans held (
      Perm.trans (inserted front before after task) (
        Perm.symm (
          subst (λ l. Perm l (task ∷ (front ++ (before ++ after))))
            (sym (append_assoc front (task ∷ []) (before ++ after)))
            (perm_middle front (before ++ after)))))
