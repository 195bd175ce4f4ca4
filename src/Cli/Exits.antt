-- ===== src/Cli/Exits.antt =====
-- How `collapsar pack` ends.
use collapsar.Base.{ℕ, ◌≡◌, ◌≢◌, refl, sym, subst, ◌⊎◌, inl, inr, Bytes, List, [], ◌∷◌, text}
use collapsar.Core.Status.{Result, ok, err}
use collapsar.Core.Job.{JobStats}
use collapsar.Core.Blocks.{FilePath}
use collapsar.Codec.Reasons.{BehavesWell}
use collapsar.Engine.Answers.{engine_run_some}
use collapsar.Pipeline.Run.{Env, World, run}
use collapsar.Engine.Submit.{engine_run, submit_job, check_inputs_ok}
use collapsar.Engine.Handle.{started}
use collapsar.Cli.Args.{
  PackArgs, Cursor, at_arg, at_value, rejected, check, check_output, check_inputs, parse_pack,
}
use collapsar.Cli.Commands.{engine_options, request, exit_code, run_pack, cmd_pack, main}

check_inputs-accepts :
    (inputs : List FilePath) (args a : PackArgs)
    → check_inputs inputs args ≡ at_arg a
    → (inputs ≢ []) × (args ≡ a)
check_inputs-accepts [] args a is = cc
check_inputs-accepts (i ∷ is) args a h = (λ empty. cc, cc)

check_output-accepts :
    (output : FilePath) (args a : PackArgs)
    → check_output output args ≡ at_arg a
    → (output ≢ []) × (args.inputs ≢ []) × (args ≡ a)
check_output-accepts [] args a is = cc
check_output-accepts (c ∷ cs) args a is =
    let (some_input, same) = check_inputs-accepts args.inputs args a is in
    (λ empty. cc, some_input, same)

-- Arguments that are accepted have an output and an input.
check-accepts : (c : Cursor) (a : PackArgs) → check c ≡ at_arg a → (a.output ≢ []) × (a.inputs ≢ [])
check-accepts (at_arg args) a is =
    let (some_output, some_input, same) = check_output-accepts args.output args a is in
    subst (λ a. (a.output ≢ []) × (a.inputs ≢ [])) same (some_output, some_input)
check-accepts (at_value v args) a is = cc
check-accepts (rejected message) a is = cc

-- The checks end in one of two ways.
abbrev Ends : Cursor → Type 0
Ends c = ((m : Bytes) × (c ≡ rejected m)) ⊎ ((a : PackArgs) × (c ≡ at_arg a))

check_inputs-Ends : (inputs : List FilePath) (args : PackArgs) → Ends (check_inputs inputs args)
check_inputs-Ends [] args = inl (_, refl)
check_inputs-Ends (i ∷ is) args = inr (args, refl)

check_output-Ends : (output : FilePath) (args : PackArgs) → Ends (check_output output args)
check_output-Ends [] args = inl (_, refl)
check_output-Ends (c ∷ cs) args = check_inputs-Ends args.inputs args

check-Ends : (c : Cursor) → Ends (check c)
check-Ends (at_arg args) = check_output-Ends args.output args
check-Ends (at_value v args) = inl (_, refl)
check-Ends (rejected message) = inl (_, refl)

parse_pack-Ends : (argv : List Bytes) → Ends (parse_pack argv)
unfolding parse_pack
parse_pack-Ends argv = check-Ends _

-- The engine's own checks never refuse what the command line asks for.
submit_job-request :
    (argv : List Bytes) (args : PackArgs)
    → parse_pack argv ≡ at_arg args
    → submit_job (request args) ≡ ok started
unfolding submit_job request parse_pack
submit_job-request argv args is =
    let (some_output, some_input) = check-accepts _ args is in
    check_inputs_ok args.inputs args.output some_input some_output

-- What `pack` ends with after a job: exit code 0 if it succeeds and 1 if it fails, and what the job
-- leaves.
abbrev pub IsExitOf : Result JobStats × World → ℕ × World → Type 0
IsExitOf (ok stats, after) exits = exits ≡ (0, after)
IsExitOf (err e, after) exits = exits ≡ (1, after)

exit_code-IsExitOf : (r : Result JobStats × World) → IsExitOf r (exit_code r.0, r.1)
exit_code-IsExitOf (ok stats, after) = refl
exit_code-IsExitOf (err e, after) = refl

module _ (env : Env) (hardware_concurrency : ℕ) (world : World) where
  run_pack_rejected :
      (m : Bytes) (c : Cursor)
      → c ≡ rejected m
      → run_pack env hardware_concurrency c world ≡ (2, world)
  unfolding run_pack
  run_pack_rejected m c is = rw is refl

  run_pack-IsExitOf :
      (args : PackArgs) (c : Cursor)
      → c ≡ at_arg args
      → IsExitOf
          (engine_run env (engine_options hardware_concurrency args) (request args) world)
          (run_pack env hardware_concurrency c world)
  unfolding run_pack
  run_pack-IsExitOf args c is =
      subst
        (λ c.
          IsExitOf (engine_run env (engine_options hardware_concurrency args) (request args) world)
            (run_pack env hardware_concurrency c world))
        (sym is)
        (exit_code-IsExitOf
          (engine_run env (engine_options hardware_concurrency args) (request args) world))

  -- The engine answers for the request what the pipeline answers.
  engine_run-request :
      BehavesWell env.cuda
      → (argv : List Bytes) (args : PackArgs) → parse_pack argv ≡ at_arg args
      → engine_run env (engine_options hardware_concurrency args) (request args) world
        ≡ run env (engine_options hardware_concurrency args) (request args) world
  unfolding request parse_pack
  engine_run-request behaves argv args is =
      let (some_output, some_input) = check-accepts _ args is in
      engine_run_some env (engine_options hardware_concurrency args) (request args) world behaves
        some_input some_output

  -- If no failure of the GPU codec or of its creation has the code Ok, the command pack ends in
  -- one of two ways, whatever its arguments: they are rejected, the exit code is 2 and nothing is
  -- touched; or they are accepted, the checks of the engine accept the request that is made of
  -- them, and the exit code is 0 if the pipeline succeeds on that request and 1 if it fails, and
  -- what is left is what the pipeline leaves.
  pub main_pack :
      (argv : List Bytes)
      → BehavesWell env.cuda
      → ((m : Bytes) × (parse_pack argv ≡ rejected m)
          × (main env hardware_concurrency (text "pack" ∷ argv) world ≡ (2, world)))
        ⊎ ((args : PackArgs) × (parse_pack argv ≡ at_arg args)
            × (submit_job (request args) ≡ ok started)
            × IsExitOf
                (run env (engine_options hardware_concurrency args) (request args) world)
                (main env hardware_concurrency (text "pack" ∷ argv) world))
  unfolding main cmd_pack text
  main_pack argv behaves = elim (parse_pack-Ends argv) [
    | inl (m, is) ↦ inl (m, is, run_pack_rejected m (parse_pack argv) is)
    | inr (args, is) ↦ inr (
      args,
      is,
      submit_job-request argv args is,
      subst (λ r. IsExitOf r (run_pack env hardware_concurrency (parse_pack argv) world))
          (engine_run-request behaves argv args is) (run_pack-IsExitOf args (parse_pack argv) is),
    )
  ]
