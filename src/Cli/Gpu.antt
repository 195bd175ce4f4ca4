-- ===== src/Cli/Gpu.antt =====
-- `--gpu`, which sets `use_gpu` to its default and `gpu_set` with it.
use collapsar.Base.{
  ℕ, ◌≡◌, refl, ap, sym, subst, ◌∙◌, ◌⊎◌, inl, inr, true, false, Option, none, some, Bytes, List,
  [], ◌∷◌, text,
}
use collapsar.Core.Blocks.{FilePath}
use collapsar.Pipeline.Run.{Env, World}
use collapsar.Cli.Sizes.{parse_size}
use collapsar.Cli.Args.{
  PackArgs, default_args, Valued, Arg, valued, Cursor, at_arg, at_value, rejected, arg_of, take_arg,
  store, take_value, step, read_args, check, check_output, check_inputs, parse_pack, parse_format,
  parse_level,
}
use collapsar.Cli.Commands.{engine_options, request, run_pack, cmd_pack, main}

abbrev forced : PackArgs → PackArgs
forced a = record a { use_gpu = true; gpu_set = true }

abbrev force : Cursor → Cursor
force (at_arg a) = at_arg (forced a)
force (at_value v a) = at_value v (forced a)
force (rejected message) = rejected message

-- No switch of the GPU has been read.
abbrev PlainArgs : PackArgs → Type 0
PlainArgs a = (a.use_gpu ≡ true) × (a.gpu_set ≡ false)

abbrev IsPlain : Cursor → Type 0
IsPlain (at_arg a) = PlainArgs a
IsPlain (at_value v a) = PlainArgs a
IsPlain (rejected message) = Unit

-- A forced cursor either stays one, or a switch has made it equal to the other.
abbrev AreJoined : Cursor → Cursor → Type 0
AreJoined c d = (d ≡ c) ⊎ ((d ≡ force c) × IsPlain c)

take_arg-forced :
    (a : Bytes) (k : Arg) (args : PackArgs)
    → PlainArgs args
    → AreJoined (take_arg a k args) (take_arg a k (forced args))
take_arg-forced a (valued v) args plain = inr (refl, plain)
take_arg-forced a Arg.gpu args plain = inl refl
take_arg-forced a Arg.no_gpu args plain = inl refl
take_arg-forced a Arg.overwrite args plain = inr (refl, plain)
take_arg-forced a Arg.no_recurse args plain = inr (refl, plain)
take_arg-forced a Arg.quiet args plain = inr (refl, plain)
take_arg-forced a Arg.help args plain = inl refl
take_arg-forced a Arg.unknown args plain = inl refl
take_arg-forced a Arg.input args plain = inr (refl, plain)

store-forced :
    {A : Type 0} (message : Bytes) (set : A → PackArgs → PackArgs) (args : PackArgs) (o : Option A)
    → ((x : A) → (set x (forced args) ≡ forced (set x args)) × PlainArgs (set x args))
    → AreJoined (store message (λ x. set x args) o) (store message (λ x. set x (forced args)) o)
store-forced message set args none each = inl refl
store-forced message set args (some x) each = inr (ap at_arg (each x).0, (each x).1)

take_value-forced :
    (v : Valued) (a : Bytes) (args : PackArgs)
    → PlainArgs args
    → AreJoined (take_value v a args) (take_value v a (forced args))
unfolding take_value
take_value-forced Valued.output a args plain = inr (refl, plain)
take_value-forced Valued.format a args plain =
    store-forced _ (λ x p. record p { format = x }) args (parse_format a) (λ x. (refl, plain))
take_value-forced Valued.gpu_threshold a args plain =
    store-forced _ (λ x p. record p { gpu_threshold = x }) args (parse_size a) (λ x. (refl, plain))
take_value-forced Valued.block_bytes a args plain =
    store-forced _ (λ x p. record p { block_bytes = x }) args (parse_size a) (λ x. (refl, plain))
take_value-forced Valued.threads a args plain =
    store-forced _ (λ x p. record p { threads = x }) args (parse_size a) (λ x. (refl, plain))
take_value-forced Valued.io_threads a args plain =
    store-forced _ (λ x p. record p { io_threads = x }) args (parse_size a) (λ x. (refl, plain))
take_value-forced Valued.level a args plain =
    store-forced _ (λ x p. record p { level = x }) args (parse_level a) (λ x. (refl, plain))

step-force : (c : Cursor) (a : Bytes) → IsPlain c → AreJoined (step c a) (step (force c) a)
unfolding step
step-force (at_arg args) a plain = take_arg-forced a (arg_of a) args plain
step-force (at_value v args) a plain = take_value-forced v a args plain
step-force (rejected message) a plain = inl refl

read_args-force :
    (c : Cursor) (argv : List Bytes)
    → IsPlain c
    → AreJoined (read_args c argv) (read_args (force c) argv)
unfolding read_args
read_args-force c [] plain = inr (refl, plain)
read_args-force c (a ∷ argv) plain = elim (step-force c a plain) [
  | inl joined ↦ inl (ap (λ d. read_args d argv) joined)
  | inr (is, still) ↦
      subst (λ d. AreJoined (read_args (step c a) argv) (read_args d argv)) (sym is)
        (read_args-force (step c a) argv still)
]

check_inputs-forced :
    (inputs : List FilePath) (args : PackArgs)
    → PlainArgs args
    → AreJoined (check_inputs inputs args) (check_inputs inputs (forced args))
check_inputs-forced [] args plain = inl refl
check_inputs-forced (i ∷ is) args plain = inr (refl, plain)

check_output-forced :
    (output : FilePath) (args : PackArgs)
    → PlainArgs args
    → AreJoined (check_output output args) (check_output output (forced args))
check_output-forced [] args plain = inl refl
check_output-forced (c ∷ cs) args plain = check_inputs-forced args.inputs args plain

check-force : (c : Cursor) → IsPlain c → AreJoined (check c) (check (force c))
check-force (at_arg args) plain = check_output-forced args.output args plain
check-force (at_value v args) plain = inl refl
check-force (rejected message) plain = inl refl

check-AreJoined : (c d : Cursor) → AreJoined c d → AreJoined (check c) (check d)
check-AreJoined c d (inl is) = inl (ap check is)
check-AreJoined c d (inr (is, plain)) =
    subst (λ d. AreJoined (check c) (check d)) (sym is) (check-force c plain)

module _ (env : Env) (hardware_concurrency : ℕ) (world : World) where
  run_pack-force :
      (c : Cursor)
      → IsPlain c
      → run_pack env hardware_concurrency (force c) world
        ≡ run_pack env hardware_concurrency c world
  unfolding run_pack engine_options request
  run_pack-force (at_arg args) (on, unset) = rw (on, unset) refl
  run_pack-force (at_value v args) plain = refl
  run_pack-force (rejected message) plain = refl

  run_pack-AreJoined :
      (c d : Cursor)
      → AreJoined c d
      → run_pack env hardware_concurrency d world ≡ run_pack env hardware_concurrency c world
  run_pack-AreJoined c d (inl is) = ap (λ c. run_pack env hardware_concurrency c world) is
  run_pack-AreJoined c d (inr (is, plain)) =
      ap (λ c. run_pack env hardware_concurrency c world) is ∙ run_pack-force c plain

  -- In front of the other arguments of pack, --gpu changes nothing: not the exit code, and not
  -- what is left.
  pub main_gpu :
      (argv : List Bytes)
      → main env hardware_concurrency (text "pack" ∷ text "--gpu" ∷ argv) world
        ≡ main env hardware_concurrency (text "pack" ∷ argv) world
  unfolding main cmd_pack parse_pack read_args step arg_of text
  main_gpu argv =
      run_pack-AreJoined _ _
        (check-AreJoined _ _ (read_args-force (at_arg default_args) argv (refl, refl)))
