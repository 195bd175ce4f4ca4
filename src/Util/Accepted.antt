-- ===== src/Util/Accepted.antt =====
-- Every accepted task is taken in its turn and finished once, and none is left when the workers are gone.
use mathlib.Core.List.{Perm}
use mathlib.Core.List.Perm
use collapsar.Base.{
  ℕ, zero, suc, ◌<◌, ◌==◌, ◌≡◌, refl, ap, sym, subst, ◌∙◌, Bool, true, false, Option, none, some,
  List, [], ◌∷◌, ◌++◌, append-nil, append_assoc, arith, if◌then◌else◌,
}
use collapsar.Util.ThreadPool.{
  Worker, waiting, busy, exited, ThreadPool, start_workers, new_pool, submit_task, stop,
  worker_step,
}
use collapsar.Util.Tasks.{
  System, turned, Turn, turn, Step, submits, stops, works, created, Reach, start, later, running,
  has_exited, IsSound, has_exited_instead, length_instead, running_instead, held_taken,
  held_finished,
}

module _ {ℓ} {A : Type ℓ} where
  abbrev pub system_of : List (Worker A) → List A → Bool → List A → List A → List A → System A
  system_of workers tasks stopped accepted taken finished = record {
    pool = record { workers = workers; tasks = tasks; stopped = stopped };
    accepted = accepted;
    taken = taken;
    finished = finished;
  }

  abbrev AfterTurn :
      System A → List (Worker A) → List (Worker A) → Worker A → Option (Worker A × List A) → Type ℓ
  AfterTurn s before after w none = Unit
  AfterTurn s before after w (some next) = IsSound (turned s before after w next)

  worker_step-IsSound :
      (w : Worker A) (tasks : List A) (stopped : Bool) (accepted taken finished : List A)
      (before after : List (Worker A))
      → IsSound (system_of (before ++ w ∷ after) tasks stopped accepted taken finished)
      → AfterTurn
          (system_of (before ++ w ∷ after) tasks stopped accepted taken finished)
          before
          after
          w
          (worker_step w tasks stopped)
  unfolding worker_step
  worker_step-IsSound waiting (task ∷ tasks) stopped accepted taken finished before after sound =
      record {
        fifo = sound.fifo ∙ sym (append_assoc taken (task ∷ []) tasks);
        held =
            subst (λ l. Perm (taken ++ task ∷ []) l)
              (ap (λ l. l ++ (running before ++ task ∷ running after)) (sym (append-nil finished))
                ∙ ap (λ l. (finished ++ []) ++ l) (sym (running_instead before after (busy task))))
              (held_taken taken finished (running before) (running after) task (
                subst (λ l. Perm taken (finished ++ l)) (running_instead before after waiting)
                  sound.held));
        ended = λ gone.
            let (off, empty) =
              sound.ended (has_exited_instead before after waiting (busy task) refl ∙ gone) in
            cc;
        some_worker = length_instead before after (busy task);
      }
  worker_step-IsSound waiting [] true accepted taken finished before after sound = record {
    fifo = sound.fifo ∙ ap (λ l. l ++ []) (sym (append-nil taken));
    held =
        subst (λ l. Perm (taken ++ []) l)
          (ap (λ l. l ++ running (before ++ waiting ∷ after)) (sym (append-nil finished))
            ∙ ap (λ l. (finished ++ []) ++ l)
                (running_instead before after waiting ∙ sym (running_instead before after exited)))
          (subst (λ l. Perm l (finished ++ running (before ++ waiting ∷ after)))
            (sym (append-nil taken)) sound.held);
    ended = λ gone. (refl, refl);
    some_worker = length_instead before after exited;
  }
  worker_step-IsSound waiting [] false accepted taken finished before after sound = tt
  worker_step-IsSound (busy task) tasks stopped accepted taken finished before after sound =
      record {
        fifo = sound.fifo ∙ ap (λ l. l ++ tasks) (sym (append-nil taken));
        held =
            subst (λ l. Perm (taken ++ []) ((finished ++ task ∷ []) ++ l))
              (sym (running_instead before after waiting))
              (subst (λ l. Perm l ((finished ++ task ∷ []) ++ (running before ++ running after)))
                (sym (append-nil taken))
                (held_finished taken finished (running before) (running after) task (
                  subst (λ l. Perm taken (finished ++ l)) (running_instead before after (busy task))
                    sound.held)));
        ended =
            λ gone. sound.ended (has_exited_instead before after (busy task) waiting refl ∙ gone);
        some_worker = length_instead before after waiting;
      }
  worker_step-IsSound exited tasks stopped accepted taken finished before after sound = tt

  Turn-IsSound : (s t : System A) → Turn s t → IsSound s → IsSound t
  Turn-IsSound s _ (turn before after w {next} at is) sound =
      let here : IsSound (
          system_of (before ++ w ∷ after) s.pool.tasks s.pool.stopped s.accepted s.taken
            s.finished) =
        subst
          (λ ws. IsSound (system_of ws s.pool.tasks s.pool.stopped s.accepted s.taken s.finished))
          at sound in
      subst (AfterTurn s before after w) is (
        worker_step-IsSound w s.pool.tasks s.pool.stopped s.accepted s.taken s.finished before after
          here)

  abbrev AfterSubmit : System A → A → Option (ThreadPool A) → Type ℓ
  AfterSubmit s task none = Unit
  AfterSubmit s task (some pool) =
      IsSound (record s { pool = pool; accepted = s.accepted ++ task ∷ [] })

  submit_task-IsSound :
      (task : A) (workers : List (Worker A)) (tasks : List A) (stopped : Bool)
      (accepted taken finished : List A)
      → IsSound (system_of workers tasks stopped accepted taken finished)
      → AfterSubmit
          (system_of workers tasks stopped accepted taken finished)
          task
          (submit_task task (record { workers = workers; tasks = tasks; stopped = stopped }))
  unfolding submit_task
  submit_task-IsSound task workers tasks true accepted taken finished sound = tt
  submit_task-IsSound task workers tasks false accepted taken finished sound = record {
    fifo = ap (λ l. l ++ task ∷ []) sound.fifo ∙ append_assoc taken tasks (task ∷ []);
    held = sound.held;
    ended = λ gone. let (off, empty) = sound.ended gone in cc;
    some_worker = sound.some_worker;
  }

  Step-IsSound : (s t : System A) → Step s t → IsSound s → IsSound t
  unfolding stop
  Step-IsSound s _ (submits task is) sound = subst (AfterSubmit s task) is (
      submit_task-IsSound task s.pool.workers s.pool.tasks s.pool.stopped s.accepted s.taken
        s.finished sound)
  Step-IsSound s _ stops sound = record {
    fifo = sound.fifo;
    held = sound.held;
    ended = λ gone. (refl, (sound.ended gone).1);
    some_worker = sound.some_worker;
  }
  Step-IsSound s t (works moves) sound = Turn-IsSound s t moves sound

  start_workers_idle :
      (n : ℕ)
      → (running (start_workers {A = A} n) ≡ []) × (has_exited (start_workers {A = A} n) ≡ false)
  start_workers_idle zero = (refl, refl)
  start_workers_idle (suc n) = start_workers_idle n

  start_workers-IsSound :
      (n : ℕ) → 0 < n → IsSound (system_of (start_workers {A = A} n) [] false [] [] [])
  start_workers-IsSound zero some_worker = elim some_worker [ ]
  start_workers-IsSound (suc n) some_worker =
      let (idle, none_gone) = start_workers_idle n in
      record {
        fifo = refl;
        held = subst (Perm []) (sym idle) (Perm.refl []);
        ended = λ gone. cc;
        some_worker = omega arith;
      }

  created-IsSound : (n : ℕ) → IsSound (created {A = A} n)
  unfolding new_pool
  created-IsSound n =
      let positive : 0 < (if n == 0 then 1 else n) = ground arith in
      start_workers-IsSound (if n == 0 then 1 else n) positive

  -- In every interleaving of submissions, stops and turns of the workers of a pool, the accepted
  -- tasks are those taken, in the same order, and behind them the queue; those taken are those
  -- finished and those that a worker runs, each as often; a worker has exited only if the pool is
  -- stopped and the queue empty; and there is a worker.
  pub Reach-IsSound : (s : System A) → Reach s → IsSound s
  Reach-IsSound _ (start n) = created-IsSound n
  Reach-IsSound _ (later {s} {t} reach step) = Step-IsSound s t step (Reach-IsSound s reach)
