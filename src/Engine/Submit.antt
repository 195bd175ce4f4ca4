-- ===== src/Engine/Submit.antt =====
-- `Engine::submit` and `Engine::run`.
use collapsar.Base.{◌≡◌, ◌≢◌, ◌⊎◌, inl, inr, refl, false, Bytes, List, [], ◌∷◌, text, if◌then◌else◌}
use collapsar.Core.Status.{Error, Result, ok, err, make_error, is_ok, invalid_argument}
use collapsar.Core.Options.{EngineOptions}
use collapsar.Core.Blocks.{FilePath}
use collapsar.Core.Job.{JobRequest, JobStats}
use collapsar.Core.Action.{Action, fail}
use collapsar.Pipeline.Run.{Env, World, run}
use collapsar.Engine.Handle.{
  pending, JobHandle, new_job_handle, set_future, wait_begin, wait_end, wait, error_of, stats_of,
}

-- The two checks of `submit`. The job itself runs on a thread of its own.
abbrev check_output : Bytes → Result JobHandle
check_output [] = err (make_error invalid_argument (text "JobRequest::output is empty"))
check_output (c ∷ cs) = ok (set_future pending new_job_handle)

abbrev pub check_inputs : List FilePath → Bytes → Result JobHandle
check_inputs [] output = err (make_error invalid_argument (text "JobRequest::inputs is empty"))
check_inputs (i ∷ inputs) output = check_output output

unfoldable pub submit_job : JobRequest → Result JobHandle
submit_job req = check_inputs req.inputs req.output

-- `run` after `submit`: `wait`, `error`, and `stats`, where `r` is what the pipeline answers.
unfoldable pub collect : Result JobStats → JobHandle → Result JobStats
unfolding wait error_of stats_of
collect r h =
    let waited = wait r h in
    let (e, asked) = error_of r waited in if is_ok e.code then ok (stats_of r asked).0 else err e

abbrev pub run_submitted :
    Env → EngineOptions → JobRequest → Result JobHandle → Action World JobStats
run_submitted env engine req (err e) = fail e
run_submitted env engine req (ok h) =
    λ world. let (r, after) = run env engine req world in (collect r h, after)

unfoldable pub engine_run : Env → EngineOptions → JobRequest → Action World JobStats
unfolding submit_job collect
engine_run env engine req = run_submitted env engine req (submit_job req)

-- What the handle passes on of a result.
pub collect-started :
    (r : Result JobStats)
    → ((e : Error) → r ≡ err e → is_ok e.code ≡ false)
    → collect r (set_future pending new_job_handle) ≡ r
unfolding collect wait wait_begin wait_end error_of stats_of set_future new_job_handle
collect-started (ok stats) fails = refl
collect-started (err e) fails = rw (fails e refl)

pub engine_run-submitted :
    (env : Env) (engine : EngineOptions) (req : JobRequest) (world : World)
    → ((e : Error) → (run env engine req world).0 ≡ err e → is_ok e.code ≡ false)
    → run_submitted env engine req (ok (set_future pending new_job_handle)) world
      ≡ run env engine req world
engine_run-submitted env engine req world fails =
    λ i. (collect-started (run env engine req world).0 fails i, (run env engine req world).1)

pub check_inputs_ok :
    (inputs : List FilePath) (output : Bytes)
    → inputs ≢ []
    → output ≢ []
    → check_inputs inputs output ≡ ok (set_future pending new_job_handle)
check_inputs_ok [] output some_input some_output = absurd (some_input refl)
check_inputs_ok (i ∷ is) [] some_input some_output = absurd (some_output refl)
check_inputs_ok (i ∷ is) (c ∷ cs) some_input some_output = refl

pub check_inputs_err :
    (inputs : List FilePath) (output : Bytes)
    → (inputs ≡ []) ⊎ (output ≡ [])
    → (e : Error) × (check_inputs inputs output ≡ err e) × (e.code ≡ invalid_argument)
check_inputs_err [] output why = (_, refl, refl)
check_inputs_err (i ∷ is) [] why = (_, refl, refl)
check_inputs_err (i ∷ is) (c ∷ cs) (inl h) = cc
check_inputs_err (i ∷ is) (c ∷ cs) (inr h) = cc
