-- ===== src/Cli/Commands.antt =====
-- `cmd_pack` and `main`, with the exit code; what they print is left out, and so is the progress
-- line that `--quiet` turns off. `cmd_info` only prints.
use collapsar.Base.{ℕ, Bool, ◌||◌, Bytes, List, [], ◌∷◌, text, same, ltb, if◌then◌else◌}
use collapsar.Core.Status.{Result, ok, err}
use collapsar.Core.Options.{
  EngineOptions, default_engine_options, Algorithm, auto, cpu_deflate, default_job_options,
}
use collapsar.Core.Job.{JobRequest, JobStats}
use collapsar.Pipeline.Run.{Env, World}
use collapsar.Engine.Submit.{engine_run}
use collapsar.Cli.Args.{PackArgs, Cursor, at_arg, at_value, rejected, parse_pack}

unfoldable pub engine_options : ℕ → PackArgs → EngineOptions
engine_options hardware_concurrency args =
    let options = default_engine_options hardware_concurrency in
    record options {
      io_threads = args.io_threads;
      cpu_codec_threads = if ltb 0 args.threads then args.threads else options.cpu_codec_threads;
      enable_gpu = args.use_gpu;
    }

abbrev pub algorithm_of : Bool → Bool → Algorithm
algorithm_of gpu_set use_gpu = if gpu_set then (if use_gpu then auto else cpu_deflate) else auto

unfoldable pub request : PackArgs → JobRequest
request args = record {
  inputs = args.inputs;
  output = args.output;
  options = record default_job_options {
    format = args.format;
    gpu_threshold_bytes = args.gpu_threshold;
    block_bytes = args.block_bytes;
    level = args.level;
    overwrite = args.overwrite;
    recurse = args.recurse;
    algorithm = algorithm_of args.gpu_set args.use_gpu;
  };
}

abbrev pub exit_code : Result JobStats → ℕ
exit_code (ok s) = 0
exit_code (err e) = 1

unfoldable pub run_pack : Env → ℕ → Cursor → World → ℕ × World
unfolding engine_options request
run_pack env hardware_concurrency (at_arg args) world =
    let (res, after) =
      engine_run env (engine_options hardware_concurrency args) (request args) world in
    (exit_code res, after)
run_pack env hardware_concurrency (at_value v args) world = (2, world)
run_pack env hardware_concurrency (rejected message) world = (2, world)

unfoldable pub cmd_pack : Env → ℕ → List Bytes → World → ℕ × World
unfolding run_pack
cmd_pack env hardware_concurrency argv world =
    run_pack env hardware_concurrency (parse_pack argv) world

-- `argv` without the name of the program.
unfoldable pub main : Env → ℕ → List Bytes → World → ℕ × World
unfolding cmd_pack
main env hardware_concurrency [] world = (2, world)
main env hardware_concurrency (cmd ∷ argv) world =
    if same cmd (text "--help") || same cmd (text "-h")
    then (0, world)
    else if same cmd (text "info")
    then (0, world)
    else if same cmd (text "pack")
    then cmd_pack env hardware_concurrency argv world
    else (2, world)
