-- ===== src/Cli/ReadBack.antt =====
-- The arguments that `render` writes are read back.
use collapsar.Base.{
  ℕ, ◌*◌, ◌%◌, ◌^◌, ◌<◌, ◌≡◌, ◌≢◌, refl, ap, sym, ◌∙◌, Bool, true, false, some, Bytes, List, [],
  ◌∷◌, ◌++◌, text, append-nil, append_assoc, All, decimal, arith,
}
use collapsar.Core.Blocks.{FilePath}
use collapsar.Core.Options.{Format, zip, gzip, zstd, Level, fast, balanced, best}
use collapsar.Cli.Sizes.{parse_size}
use collapsar.Cli.SizeText.{parse_size-decimal}
use collapsar.Cli.Args.{
  PackArgs, default_args, Valued, valued, input, take_arg, at_arg, name_of, arg_of, take_value,
  step, read_args, check, check_output, check_inputs, parse_pack, parse_format, parse_level,
}
use collapsar.Cli.Render.{
  format_name, level_name, switch, switch_off, gpu_switch, switches, value_of, with_value, render,
  IsWritable,
}

-- The field of an option, changed to what it is in `args`.
abbrev set_from : PackArgs → Valued → PackArgs → PackArgs
set_from args Valued.output a = record a { output = args.output }
set_from args Valued.format a = record a { format = args.format }
set_from args Valued.gpu_threshold a = record a { gpu_threshold = args.gpu_threshold }
set_from args Valued.block_bytes a = record a { block_bytes = args.block_bytes }
set_from args Valued.threads a = record a { threads = args.threads }
set_from args Valued.io_threads a = record a { io_threads = args.io_threads }
set_from args Valued.level a = record a { level = args.level }

parse_size_plain : (n : ℕ) → n < 2 ^ 64 → parse_size (decimal n) ≡ some n
parse_size_plain n h =
    let same_text : decimal n ++ [] ≡ decimal n = append-nil (decimal n) in
    let value : n * 1 % 2 ^ 64 ≡ n = omega (arith, h) in
    ap parse_size (sym same_text) ∙ parse_size-decimal n 1 [] h refl ∙ ap some value

parse_format-format_name : (f : Format) → parse_format (format_name f) ≡ some f
unfolding text
parse_format-format_name zip = refl
parse_format-format_name gzip = refl
parse_format-format_name zstd = refl

parse_level-level_name : (l : Level) → parse_level (level_name l) ≡ some l
unfolding text
parse_level-level_name fast = refl
parse_level-level_name balanced = refl
parse_level-level_name best = refl

take_value_back :
    (args : PackArgs)
    → IsWritable args
    → (v : Valued) (a : PackArgs) → take_value v (value_of v args) a ≡ at_arg (set_from args v a)
unfolding take_value
take_value_back args ok Valued.output a = refl
take_value_back args ok Valued.format a = rw (parse_format-format_name args.format)
take_value_back args ok Valued.gpu_threshold a =
    rw (parse_size_plain args.gpu_threshold ok.gpu_threshold_fits)
take_value_back args ok Valued.block_bytes a =
    rw (parse_size_plain args.block_bytes ok.block_bytes_fits)
take_value_back args ok Valued.threads a = rw (parse_size_plain args.threads ok.threads_fits)
take_value_back args ok Valued.io_threads a =
    rw (parse_size_plain args.io_threads ok.io_threads_fits)
take_value_back args ok Valued.level a = rw (parse_level-level_name args.level)

arg_of-name_of : (v : Valued) → arg_of (name_of v) ≡ valued v
unfolding arg_of text
arg_of-name_of Valued.output = refl
arg_of-name_of Valued.format = refl
arg_of-name_of Valued.gpu_threshold = refl
arg_of-name_of Valued.block_bytes = refl
arg_of-name_of Valued.threads = refl
arg_of-name_of Valued.io_threads = refl
arg_of-name_of Valued.level = refl

read_args-with_value :
    (args : PackArgs)
    → IsWritable args
    → (v : Valued) (rest : List Bytes) (a : PackArgs)
    → read_args (at_arg a) (with_value args v rest) ≡ read_args (at_arg (set_from args v a)) rest
unfolding read_args step
read_args-with_value args ok v rest a =
    let value = value_of v args in
    ap (λ k. read_args (step (take_arg (name_of v) k a) value) rest) (arg_of-name_of v)
    ∙ ap (λ s. read_args s rest) (take_value_back args ok v a)

check_inputs_some :
    (inputs : List FilePath) (args : PackArgs)
    → inputs ≢ []
    → check_inputs inputs args ≡ at_arg args
check_inputs_some [] args some_input = absurd (some_input refl)
check_inputs_some (i ∷ is) args some_input = refl

check_output_some :
    (output : FilePath) (args : PackArgs)
    → output ≢ []
    → args.inputs ≢ []
    → check_output output args ≡ at_arg args
check_output_some [] args some_output some_input = absurd (some_output refl)
check_output_some (c ∷ cs) args some_output some_input =
    check_inputs_some args.inputs args some_input

false_not_true : false ≢ true
false_not_true h = cc

-- A switch is read on top of its default.
read_gpu_switch :
    (on set : Bool) (rest : List Bytes) (a : PackArgs)
    → (on ≡ false → set ≡ true)
    → read_args (at_arg (record a { use_gpu = true; gpu_set = false })) (gpu_switch on set ++ rest)
      ≡ read_args (at_arg (record a { use_gpu = on; gpu_set = set })) rest
unfolding read_args step arg_of text
read_gpu_switch true true rest a known = refl
read_gpu_switch true false rest a known = refl
read_gpu_switch false true rest a known = refl
read_gpu_switch false false rest a known = absurd (false_not_true (known refl))

read_overwrite :
    (b : Bool) (rest : List Bytes) (a : PackArgs)
    → read_args (at_arg (record a { overwrite = false })) (switch b (text "--overwrite") ++ rest)
      ≡ read_args (at_arg (record a { overwrite = b })) rest
unfolding read_args step arg_of text
read_overwrite true rest a = refl
read_overwrite false rest a = refl

read_no_recurse :
    (b : Bool) (rest : List Bytes) (a : PackArgs)
    → read_args (at_arg (record a { recurse = true })) (switch_off b (text "--no-recurse") ++ rest)
      ≡ read_args (at_arg (record a { recurse = b })) rest
unfolding read_args step arg_of text
read_no_recurse true rest a = refl
read_no_recurse false rest a = refl

read_quiet :
    (b : Bool) (rest : List Bytes) (a : PackArgs)
    → read_args (at_arg (record a { quiet = false })) (switch b (text "--quiet") ++ rest)
      ≡ read_args (at_arg (record a { quiet = b })) rest
unfolding read_args step arg_of text
read_quiet true rest a = refl
read_quiet false rest a = refl

read_args-inputs :
    (inputs : List FilePath) (a : PackArgs)
    → All (λ i. arg_of i ≡ input) inputs
    → read_args (at_arg a) inputs ≡ at_arg (record a { inputs = a.inputs ++ inputs })
unfolding read_args step
read_args-inputs [] a plain =
    ap (λ inputs. at_arg (record a { inputs = inputs })) (sym (append-nil a.inputs))
read_args-inputs (i ∷ inputs) a (is, plain) =
    let more = record a { inputs = a.inputs ++ i ∷ [] } in
    ap (λ s. read_args s inputs) (ap (λ k. take_arg i k a) is)
    ∙ read_args-inputs inputs more plain
    ∙ ap (λ all. at_arg (record a { inputs = all })) (append_assoc a.inputs (i ∷ []) inputs)

-- What has been read when the switches come.
abbrev with_values : PackArgs → PackArgs
with_values args = record args {
  inputs = [];
  use_gpu = true;
  gpu_set = false;
  overwrite = false;
  recurse = true;
  quiet = false;
}

read_args-switches :
    (args : PackArgs)
    → IsWritable args
    → read_args (at_arg (with_values args)) (switches args) ≡ at_arg args
read_args-switches args ok =
    read_gpu_switch args.use_gpu args.gpu_set _ (with_values args) ok.gpu_known
    ∙ read_overwrite args.overwrite _
        (record (with_values args) { use_gpu = args.use_gpu; gpu_set = args.gpu_set })
    ∙ read_no_recurse args.recurse _ (record args { inputs = []; recurse = true; quiet = false })
    ∙ read_quiet args.quiet args.inputs (record args { inputs = []; quiet = false })
    ∙ read_args-inputs args.inputs (record args { inputs = [] }) ok.inputs_plain

read_args-render :
    (args : PackArgs)
    → IsWritable args
    → read_args (at_arg default_args) (render args) ≡ at_arg args
unfolding render
read_args-render args ok =
    read_args-with_value args ok Valued.output _ default_args
    ∙ read_args-with_value args ok Valued.format _ _
    ∙ read_args-with_value args ok Valued.gpu_threshold _ _
    ∙ read_args-with_value args ok Valued.block_bytes _ _
    ∙ read_args-with_value args ok Valued.threads _ _
    ∙ read_args-with_value args ok Valued.io_threads _ _
    ∙ read_args-with_value args ok Valued.level _ _
    ∙ read_args-switches args ok

-- Arguments with an output and an input, inputs that do not look like options, sizes below 2^64
-- and the GPU turned off only by --no-gpu are read back from the command line that writes each of
-- them out.
pub parse_pack-render : (args : PackArgs) → IsWritable args → parse_pack (render args) ≡ at_arg args
unfolding parse_pack
parse_pack-render args ok =
    ap check (read_args-render args ok)
    ∙ check_output_some args.output args ok.some_output ok.some_input
