-- ===== src/Bridge/Agree.antt =====
-- The C interface against the engine that it wraps.
use collapsar.Base.{
  ℕ, ◌≡◌, refl, ap, subst, ◌⊎◌, inl, inr, Bool-cases, Bool, true, Option, some, Bytes, List, [],
  ◌∷◌,
}
use collapsar.Core.Status.{Error, Result, ok, err, StatusCode, ok_status, is_ok}
use collapsar.Core.Options.{EngineOptions, JobOptions}
use collapsar.Core.Blocks.{FilePath}
use collapsar.Core.Job.{JobRequest, JobStats, no_stats}
use collapsar.Pipeline.Run.{Env, World, run}
use collapsar.Engine.Handle.{
  JobHandle, new_job_handle, set_future, wait, wait_begin, wait_end, error_of, stats_of,
}
use collapsar.Engine.Submit.{submit_job, check_inputs, collect, run_submitted, engine_run}
use collapsar.Engine.Handle.{started}
use collapsar.Bridge.Values.{status_value, CJobOptions, options_of}
use collapsar.Bridge.Pack.{EngineHandle, CJobResult, request_of, result_of, run_job, engine_pack}

-- The statistics that a caller sees.
abbrev pub HasStats : CJobResult → JobStats → Type 0
HasStats c s =
    (c.files_processed ≡ s.files_processed)
    × (c.input_bytes ≡ s.input_bytes)
    × (c.output_bytes ≡ s.output_bytes)
    × (c.cpu_blocks ≡ s.cpu_blocks)
    × (c.gpu_blocks ≡ s.gpu_blocks)

-- A result of the C interface that says what a result of the engine says.
abbrev pub Says : CJobResult → Result JobStats → Type 0
Says c (ok stats) = (c.status ≡ status_value ok_status) × HasStats c stats
Says c (err e) = (c.status ≡ status_value e.code) × HasStats c no_stats

is_ok-true : (c : StatusCode) → is_ok c ≡ true → c ≡ ok_status
is_ok-true StatusCode.ok_status h = refl
is_ok-true StatusCode.cancelled h = cc
is_ok-true StatusCode.invalid_argument h = cc
is_ok-true StatusCode.not_found h = cc
is_ok-true StatusCode.permission_denied h = cc
is_ok-true StatusCode.io h = cc
is_ok-true StatusCode.out_of_memory h = cc
is_ok-true StatusCode.cuda_error h = cc
is_ok-true StatusCode.nvcomp_error h = cc
is_ok-true StatusCode.codec_error h = cc
is_ok-true StatusCode.format_error h = cc
is_ok-true StatusCode.unsupported h = cc
is_ok-true StatusCode.internal h = cc

check_inputs-Ends :
    (inputs : List FilePath) (output : Bytes)
    → ((e : Error) × (check_inputs inputs output ≡ err e))
      ⊎ (check_inputs inputs output ≡ ok started)
check_inputs-Ends [] output = inl (_, refl)
check_inputs-Ends (i ∷ is) [] = inl (_, refl)
check_inputs-Ends (i ∷ is) (c ∷ cs) = inr refl

module _ (malloc : ℕ → Bool) where
  result_of-started :
      (r : Result JobStats) → Says (result_of malloc r (wait r started)) (collect r started)
  unfolding result_of wait wait_begin wait_end collect error_of stats_of set_future new_job_handle
  result_of-started (ok stats) = (refl, (refl, refl, refl, refl, refl))
  result_of-started (err e) = elim (Bool-cases (is_ok e.code)) [
    | inl fine ↦ rw fine (ap status_value (is_ok-true e.code fine), (refl, refl, refl, refl, refl))
    | inr bad ↦ rw bad (refl, (refl, refl, refl, refl, refl))
  ]

  run_job-run_submitted :
      (env : Env) (engine : EngineOptions) (req : JobRequest) (world : World) (c : Result JobHandle)
      → ((e : Error) × (c ≡ err e)) ⊎ (c ≡ ok started)
      → let (result, after) = run_job malloc env engine req c world in
        let (r, after') = run_submitted env engine req c world in Says result r × (after ≡ after')
  run_job-run_submitted env engine req world (err e) ends =
      ((refl, (refl, refl, refl, refl, refl)), refl)
  run_job-run_submitted env engine req world (ok h) (inl (e, is)) = cc
  run_job-run_submitted env engine req world (ok h) (inr is) =
      let same : started ≡ h = cc in
      let r = (run env engine req world).0 in
      (
        subst (λ h. Says (result_of malloc r (wait r h)) (collect r h)) same (result_of-started r),
        refl,
      )

  -- For an engine and an output that are not null and options whose values name enumerators, the
  -- call of the C interface gives the status code and the statistics of what the engine answers to
  -- the request with the inputs that are not null, and leaves what the engine leaves.
  pub engine_pack-engine_run :
      (env : Env) (h : EngineHandle) (inputs : Option (List (Option Bytes))) (output : Bytes)
      (options : Option CJobOptions) (o : JobOptions) (world : World)
      → options_of options ≡ some o
      → (result : CJobResult) × (engine_pack malloc env (some h) inputs (some output) options world
          ≡ some (result, (engine_run env h.engine (request_of inputs output o) world).1))
        × Says result (engine_run env h.engine (request_of inputs output o) world).0
  unfolding engine_pack engine_run submit_job
  engine_pack-engine_run env h inputs output options o world named =
      let req = request_of inputs output o in
      let (says, same) =
        run_job-run_submitted env h.engine req world (check_inputs req.inputs req.output)
          (check_inputs-Ends req.inputs req.output) in
      let result = (run_job malloc env h.engine req (check_inputs req.inputs req.output) world).0 in
      (result, rw named (ap (λ w. some (result, w)) same), says)
