-- ===== src/Bridge/Pack.antt =====
-- `collapsar_engine_pack` and what else changes a handle of bridge/src/c_bridge.cpp. The progress
-- callback and the elapsed time are left out.
use collapsar.Base.{ℕ, Bool, Option, none, some, Bytes, List, [], ◌∷◌, text}
use collapsar.Core.Status.{Result, ok, err, StatusCode, internal, invalid_argument}
use collapsar.Core.Options.{EngineOptions, JobOptions}
use collapsar.Core.Blocks.{FilePath}
use collapsar.Core.Job.{JobRequest, JobStats}
use collapsar.Pipeline.Run.{Env, World, run}
use collapsar.Engine.Handle.{JobHandle, request_stop, wait, error_of, stats_of}
use collapsar.Engine.Submit.{submit_job}
use collapsar.Bridge.Values.{dup_cstring, status_value, CJobOptions, options_of}

-- `collapsar_engine_handle`: the engine, as the options it was made with, and the job in flight.
pub record EngineHandle : Type 0 where
  pub engine : EngineOptions
  pub job : Option JobHandle

-- `collapsar_job_result_t`
pub record CJobResult : Type 0 where
  pub status : ℕ
  pub message : Option Bytes
  pub files_processed : ℕ
  pub input_bytes : ℕ
  pub output_bytes : ℕ
  pub cpu_blocks : ℕ
  pub gpu_blocks : ℕ

abbrev pub no_result : CJobResult
no_result = record {
  status = 0;
  message = none;
  files_processed = 0;
  input_bytes = 0;
  output_bytes = 0;
  cpu_blocks = 0;
  gpu_blocks = 0;
}

-- The inputs that are not null.
abbrev pub inputs_of : Option (List (Option Bytes)) → List FilePath
inputs_of none = []
inputs_of (some []) = []
inputs_of (some (none ∷ inputs)) = inputs_of (some inputs)
inputs_of (some (some path ∷ inputs)) = path ∷ inputs_of (some inputs)

abbrev pub request_of : Option (List (Option Bytes)) → Bytes → JobOptions → JobRequest
request_of inputs output options = record {
  inputs = inputs_of inputs;
  output = output;
  options = options;
}

module _ (malloc : ℕ → Bool) where
  abbrev pub refused : StatusCode → Bytes → CJobResult
  refused code message = record no_result {
    status = status_value code;
    message = dup_cstring malloc message;
  }

  -- After the wait: the error and the statistics of the job.
  unfoldable pub result_of : Result JobStats → JobHandle → CJobResult
  unfolding dup_cstring error_of stats_of
  result_of r h =
      let (e, asked) = error_of r h in
      let stats = (stats_of r asked).0 in
      record {
        status = status_value e.code;
        message = dup_cstring malloc e.message;
        files_processed = stats.files_processed;
        input_bytes = stats.input_bytes;
        output_bytes = stats.output_bytes;
        cpu_blocks = stats.cpu_blocks;
        gpu_blocks = stats.gpu_blocks;
      }

  abbrev pub run_job :
      Env → EngineOptions → JobRequest → Result JobHandle → World → CJobResult × World
  run_job env engine req (err e) world = (refused e.code e.message, world)
  run_job env engine req (ok h) world =
      let (r, after) = run env engine req world in (result_of r (wait r h), after)

  abbrev run_request :
      Env
      → EngineOptions
      → Option (List (Option Bytes))
      → Bytes
      → Option JobOptions
      → World
      → Option (CJobResult × World)
  run_request env engine inputs output none world = none
  run_request env engine inputs output (some options) world =
      let req = request_of inputs output options in
      some (run_job env engine req (submit_job req) world)

  -- For an `out_result` that is not null. `none`: an option has a value that names no enumerator,
  -- and what the engine makes of it is left open.
  unfoldable pub engine_pack :
      Env
      → Option EngineHandle
      → Option (List (Option Bytes))
      → Option Bytes
      → Option CJobOptions
      → World
      → Option (CJobResult × World)
  unfolding result_of submit_job wait
  engine_pack env none inputs output options world =
      some (refused internal (text "engine handle is null"), world)
  engine_pack env (some h) inputs none options world =
      some (refused invalid_argument (text "output path is null"), world)
  engine_pack env (some h) inputs (some output) options world =
      run_request env h.engine inputs output (options_of options) world

-- The job that `pack` publishes while it waits, and takes back.
unfoldable pub publish_job : JobHandle → EngineHandle → EngineHandle
publish_job job h = record h { job = some job }

unfoldable pub reset_job : EngineHandle → EngineHandle
reset_job h = record h { job = none }

abbrev cancel_job : Option JobHandle → Option JobHandle
cancel_job none = none
cancel_job (some job) = some (request_stop job)

unfoldable pub engine_cancel : EngineHandle → EngineHandle
unfolding request_stop
engine_cancel h = record h { job = cancel_job h.job }

-- What `collapsar_engine_destroy` does under the lock; `r` is what the job answers.
abbrev stop_job : Result JobStats → Option JobHandle → Option JobHandle
stop_job r none = none
stop_job r (some job) = some (wait r (request_stop job))

unfoldable pub engine_destroy : Result JobStats → EngineHandle → Option JobHandle × EngineHandle
unfolding reset_job wait request_stop
engine_destroy r h = (stop_job r h.job, reset_job h)

unfoldable pub job_result_free : CJobResult → CJobResult
job_result_free result = record result { message = none }
