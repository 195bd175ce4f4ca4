-- ===== src/Cli/Args.antt =====
-- `PackArgs` and `parse_pack`. The arguments are those after the command, as byte strings.
use collapsar.Base.{
  ℕ, ◌*◌, Bool, true, false, ◌&&◌, ◌||◌, ◌==◌, Option, none, some, Bytes, List, [], ◌∷◌, ◌++◌, text,
  same, if◌then◌else◌,
}
use collapsar.Core.Blocks.{FilePath}
use collapsar.Core.Options.{Format, zip, gzip, zstd, Level, fast, balanced, best}
use collapsar.Cli.Sizes.{parse_size}

pub record PackArgs : Type 0 where
  pub inputs : List FilePath
  pub output : FilePath
  pub format : Format
  pub use_gpu : Bool
  pub gpu_set : Bool
  pub gpu_threshold : ℕ
  pub block_bytes : ℕ
  pub threads : ℕ
  pub io_threads : ℕ
  pub level : Level
  pub overwrite : Bool
  pub recurse : Bool
  pub quiet : Bool

abbrev pub default_args : PackArgs
default_args = record {
  inputs = [];
  output = [];
  format = zip;
  use_gpu = true;
  gpu_set = false;
  gpu_threshold = 1 * 1024 * 1024;
  block_bytes = 8 * 1024 * 1024;
  threads = 0;
  io_threads = 4;
  level = balanced;
  overwrite = false;
  recurse = true;
  quiet = false;
}

-- The options that take a value, and what else an argument may be.
pub data Valued : Type 0 where
  output format gpu_threshold block_bytes threads io_threads level : Valued

pub data Arg : Type 0 where
  valued : Valued → Arg
  gpu no_gpu overwrite no_recurse quiet help unknown input : Arg

abbrev pub name_of : Valued → Bytes
name_of output = text "--output"
name_of format = text "--format"
name_of gpu_threshold = text "--gpu-threshold"
name_of block_bytes = text "--block-bytes"
name_of threads = text "--threads"
name_of io_threads = text "--io-threads"
name_of level = text "--level"

-- `a.size() > 2 && a.substr(0, 2) == "--"`
abbrev pub looks_like_option : Bytes → Bool
looks_like_option (x ∷ y ∷ c ∷ cs) = (x == b'-') && (y == b'-')
looks_like_option _ = false

-- The tests on one argument, in the order of the source.
unfoldable pub arg_of : Bytes → Arg
arg_of a =
    if same a (name_of output)
    then valued output
    else if same a (name_of format)
    then valued format
    else if same a (text "--gpu")
    then gpu
    else if same a (text "--no-gpu")
    then no_gpu
    else if same a (name_of gpu_threshold)
    then valued gpu_threshold
    else if same a (name_of block_bytes)
    then valued block_bytes
    else if same a (name_of threads)
    then valued threads
    else if same a (name_of io_threads)
    then valued io_threads
    else if same a (name_of level)
    then valued level
    else if same a (text "--overwrite")
    then overwrite
    else if same a (text "--no-recurse")
    then no_recurse
    else if same a (text "--quiet")
    then quiet
    else if same a (text "--help") || same a (text "-h")
    then help
    else if looks_like_option a
    then unknown
    else input

-- Where the loop is: before an argument, before the value of an option, or out of it with `err`.
pub data Cursor : Type 0 where
  at_arg : PackArgs → Cursor
  at_value : Valued → PackArgs → Cursor
  rejected : Bytes → Cursor

-- A branch of the loop that takes no value. `--help` leaves `err` empty.
abbrev pub take_arg : Bytes → Arg → PackArgs → Cursor
take_arg a (valued v) args = at_value v args
take_arg a gpu args = at_arg (record args { use_gpu = true; gpu_set = true })
take_arg a no_gpu args = at_arg (record args { use_gpu = false; gpu_set = true })
take_arg a overwrite args = at_arg (record args { overwrite = true })
take_arg a no_recurse args = at_arg (record args { recurse = false })
take_arg a quiet args = at_arg (record args { quiet = true })
take_arg a help args = rejected []
take_arg a unknown args = rejected (text "unknown option: " ++ a)
take_arg a input args = at_arg (record args { inputs = args.inputs ++ a ∷ [] })

abbrev pub parse_format : Bytes → Option Format
parse_format fmt =
    if same fmt (text "zip")
    then some zip
    else if same fmt (text "gzip")
    then some gzip
    else if same fmt (text "zstd")
    then some zstd
    else none

abbrev pub parse_level : Bytes → Option Level
parse_level lv =
    if same lv (text "fast")
    then some fast
    else if same lv (text "balanced")
    then some balanced
    else if same lv (text "best")
    then some best
    else none

abbrev pub store {ℓ} : {A : Type ℓ} → Bytes → (A → PackArgs) → Option A → Cursor
store message set none = rejected message
store message set (some value) = at_arg (set value)

unfoldable pub take_value : Valued → Bytes → PackArgs → Cursor
take_value output v args = at_arg (record args { output = v })
take_value format v args =
    store (text "unknown --format value") (λ x. record args { format = x }) (parse_format v)
take_value gpu_threshold v args =
    store (text "invalid --gpu-threshold") (λ x. record args { gpu_threshold = x }) (parse_size v)
take_value block_bytes v args =
    store (text "invalid --block-bytes") (λ x. record args { block_bytes = x }) (parse_size v)
take_value threads v args =
    store (text "invalid --threads") (λ x. record args { threads = x }) (parse_size v)
take_value io_threads v args =
    store (text "invalid --io-threads") (λ x. record args { io_threads = x }) (parse_size v)
take_value level v args =
    store (text "unknown --level value") (λ x. record args { level = x }) (parse_level v)

unfoldable pub step : Cursor → Bytes → Cursor
unfolding arg_of take_value
step (at_arg args) a = take_arg a (arg_of a) args
step (at_value v args) a = take_value v a args
step (rejected message) a = rejected message

unfoldable pub read_args : Cursor → List Bytes → Cursor
unfolding step
read_args c [] = c
read_args c (a ∷ rest) = read_args (step c a) rest

-- The checks after the loop.
abbrev pub check_inputs : List FilePath → PackArgs → Cursor
check_inputs [] args = rejected (text "at least one input file is required")
check_inputs (i ∷ is) args = at_arg args

abbrev pub check_output : FilePath → PackArgs → Cursor
check_output [] args = rejected (text "--output is required")
check_output (c ∷ cs) args = check_inputs args.inputs args

abbrev pub check : Cursor → Cursor
check (at_arg args) = check_output args.output args
check (at_value v args) = rejected (text "missing value for " ++ name_of v)
check (rejected message) = rejected message

unfoldable pub parse_pack : List Bytes → Cursor
unfolding read_args
parse_pack argv = check (read_args (at_arg default_args) argv)
