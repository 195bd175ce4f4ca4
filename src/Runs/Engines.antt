-- ===== src/Runs/Engines.antt =====
-- Job handles, the engine and the queue.
use collapsar.Base.{◌≡◌, ◌≢◌, ◌⊎◌, ◌≤◌, refl, false, Bytes, none, List, [], ◌∷◌, ◌++◌, length}
use collapsar.Core.Status.{code_of, invalid_argument}
use collapsar.Core.Options.{default_engine_options, default_job_options}
use collapsar.Core.Job.{JobRequest, JobStats, no_stats}
use collapsar.Pipeline.Run.{Env, World, run}
use collapsar.Engine.Submit.{engine_run}
use collapsar.Engine.Answers.{IsMissing, engine_run-run}
use collapsar.Codec.Reasons.{BehavesWell}
use collapsar.Util.BoundedQueue.{Queue, new_queue, push, pop, close}
use collapsar.Util.Fifo.{Run, started as begun, pushed, popped, closed, Run-fifo}
use collapsar.Runs.Jobs.{env, one_file_fs}

abbrev one_file_stats : JobStats
one_file_stats = record no_stats { files_processed = 1 }

abbrev no_input : JobRequest
no_input = record { inputs = []; output = b'o' ∷ []; options = default_job_options }

abbrev missing_input : JobRequest
missing_input = record no_input { inputs = (b'x' ∷ []) ∷ [] }

abbrev pub empty_world : World
empty_world = record { next_id = 1; output = none }

abbrev bare_env : Env
bare_env = record env { fs = record one_file_fs { exists = λ p. false } }

bare_env-BehavesWell : BehavesWell bare_env.cuda
bare_env-BehavesWell = λ device streams bytes. refl

engine_run-run_example :
    ((missing_input.inputs ≢ [])
      × (missing_input.output ≢ [])
      × (engine_run bare_env (default_engine_options 8) missing_input empty_world
          ≡ run bare_env (default_engine_options 8) missing_input empty_world))
    ⊎ (IsMissing missing_input
        × (code_of (engine_run bare_env (default_engine_options 8) missing_input empty_world).0
            ≡ invalid_argument)
        × ((engine_run bare_env (default_engine_options 8) missing_input empty_world).1
            ≡ empty_world))
engine_run-run_example =
    engine_run-run bare_env (default_engine_options 8) missing_input empty_world
      bare_env-BehavesWell

abbrev queue_with : List Bytes → Queue Bytes
queue_with items = record (new_queue 2) { items = items }

one_in_one_out : Run (close (queue_with ((2 ∷ []) ∷ []))) ((1 ∷ []) ∷ (2 ∷ []) ∷ []) ((1 ∷ []) ∷ [])
unfolding push pop new_queue
one_in_one_out =
    closed (popped (1 ∷ []) (pushed (2 ∷ []) (pushed (1 ∷ []) (begun 2) refl) refl) refl)

Run-fifo_example :
    ((1 ∷ []) ∷ (2 ∷ []) ∷ [] ≡ ((1 ∷ []) ∷ []) ++ (close (queue_with ((2 ∷ []) ∷ []))).items)
    × (length (close (queue_with ((2 ∷ []) ∷ []))).items
        ≤ (close (queue_with ((2 ∷ []) ∷ []))).capacity)
Run-fifo_example = Run-fifo (close (queue_with ((2 ∷ []) ∷ []))) _ _ one_in_one_out
