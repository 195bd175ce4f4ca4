-- ===== src/Cli/Render.antt =====
-- The arguments that stand for a `PackArgs`, one way to write each.
use collapsar.Base.{
  ◌^◌, ◌<◌, ◌≡◌, ◌≢◌, Bool, true, false, Bytes, List, [], ◌∷◌, ◌++◌, text, All, decimal,
}
use collapsar.Core.Options.{Format, zip, gzip, zstd, Level, fast, balanced, best}
use collapsar.Cli.Args.{PackArgs, Valued, input, name_of, arg_of}

abbrev pub format_name : Format → Bytes
format_name zip = text "zip"
format_name gzip = text "gzip"
format_name zstd = text "zstd"

abbrev pub level_name : Level → Bytes
level_name fast = text "fast"
level_name balanced = text "balanced"
level_name best = text "best"

abbrev pub switch : Bool → Bytes → List Bytes
switch true name = name ∷ []
switch false name = []

abbrev pub switch_off : Bool → Bytes → List Bytes
switch_off true name = []
switch_off false name = name ∷ []

abbrev pub gpu_switch : Bool → Bool → List Bytes
gpu_switch true set = switch set (text "--gpu")
gpu_switch false set = text "--no-gpu" ∷ []

abbrev pub switches : PackArgs → List Bytes
switches args =
    gpu_switch args.use_gpu args.gpu_set
    ++ (switch args.overwrite (text "--overwrite")
        ++ (switch_off args.recurse (text "--no-recurse")
            ++ (switch args.quiet (text "--quiet") ++ args.inputs)))

abbrev pub value_of : Valued → PackArgs → Bytes
value_of Valued.output args = args.output
value_of Valued.format args = format_name args.format
value_of Valued.gpu_threshold args = decimal args.gpu_threshold
value_of Valued.block_bytes args = decimal args.block_bytes
value_of Valued.threads args = decimal args.threads
value_of Valued.io_threads args = decimal args.io_threads
value_of Valued.level args = level_name args.level

abbrev pub with_value : PackArgs → Valued → List Bytes → List Bytes
with_value args v rest = name_of v ∷ value_of v args ∷ rest

unfoldable pub render : PackArgs → List Bytes
render args = with_value args Valued.output (
    with_value args Valued.format (
      with_value args Valued.gpu_threshold (
        with_value args Valued.block_bytes (
          with_value args Valued.threads
            (with_value args Valued.io_threads (with_value args Valued.level (switches args)))))))

-- What can be written: no input looks like an option, and `--no-gpu` is what turns the GPU off.
pub record IsWritable (args : PackArgs) : Type 0 where
  pub some_output : args.output ≢ []
  pub some_input : args.inputs ≢ []
  pub inputs_plain : All (λ i. arg_of i ≡ input) args.inputs
  pub gpu_known : args.use_gpu ≡ false → args.gpu_set ≡ true
  pub gpu_threshold_fits : args.gpu_threshold < 2 ^ 64
  pub block_bytes_fits : args.block_bytes < 2 ^ 64
  pub threads_fits : args.threads < 2 ^ 64
  pub io_threads_fits : args.io_threads < 2 ^ 64
