-- ===== src/Runs/Commands.antt =====
-- Command lines.
use collapsar.Base.{
  ◌*◌, ◌%◌, ◌^◌, ◌≡◌, refl, ◌⊎◌, inl, inr, true, false, some, Bytes, [], ◌∷◌, ◌++◌, text, decimal,
  arith,
}
use collapsar.Core.Status.{ok}
use collapsar.Core.Options.{gzip, best}
use collapsar.Engine.Submit.{submit_job}
use collapsar.Engine.Handle.{started}
use collapsar.Cli.Sizes.{parse_size}
use collapsar.Cli.SizeText.{parse_size-decimal}
use collapsar.Cli.Args.{PackArgs, default_args, at_arg, rejected, arg_of, parse_pack}
use collapsar.Cli.Commands.{main, engine_options, request}
use collapsar.Cli.Render.{render, IsWritable}
use collapsar.Cli.ReadBack.{parse_pack-render}
use collapsar.Cli.Gpu.{main_gpu}
use collapsar.Cli.Exits.{IsExitOf, main_pack}
use collapsar.Pipeline.Run.{run}
use collapsar.Runs.Jobs.{env}
use collapsar.Runs.Engines.{empty_world}

parse_size-decimal_example : parse_size (decimal 256 ++ b'M' ∷ []) ≡ some (256 * 1048576 % 2 ^ 64)
parse_size-decimal_example =
    parse_size-decimal 256 1048576 (b'M' ∷ []) (omega arith) (inr (inl (inl refl, refl)))

-- 17179869184 GiB is 2 ^ 64 bytes.
size_wraps : parse_size (decimal 17179869184 ++ b'G' ∷ []) ≡ some 0
size_wraps =
    parse_size-decimal 17179869184 1073741824 (b'G' ∷ []) (omega arith) (inr (inr (inl refl, refl)))

abbrev some_args : PackArgs
some_args = record default_args {
  inputs = (b'a' ∷ []) ∷ (b'b' ∷ []) ∷ [];
  output = b'o' ∷ [];
  format = gzip;
  use_gpu = false;
  gpu_set = true;
  threads = 12;
  level = best;
  overwrite = true;
  recurse = false;
}

some_args-IsWritable : IsWritable some_args
unfolding arg_of text
some_args-IsWritable = record {
  some_output = λ e. cc;
  some_input = λ e. cc;
  inputs_plain = (refl, (refl, tt));
  gpu_known = λ e. refl;
  gpu_threshold_fits = omega arith;
  block_bytes_fits = omega arith;
  threads_fits = omega arith;
  io_threads_fits = omega arith;
}

parse_pack-render_example : parse_pack (render some_args) ≡ at_arg some_args
parse_pack-render_example = parse_pack-render some_args some_args-IsWritable

main_gpu_example :
    main env 8
      (text "pack" ∷ text "--gpu" ∷ text "--output" ∷ (b'o' ∷ []) ∷ (b'a' ∷ []) ∷ [])
      empty_world
    ≡ main env 8 (text "pack" ∷ text "--output" ∷ (b'o' ∷ []) ∷ (b'a' ∷ []) ∷ []) empty_world
main_gpu_example = main_gpu env 8 empty_world (text "--output" ∷ (b'o' ∷ []) ∷ (b'a' ∷ []) ∷ [])

main_pack_example :
    ((m : Bytes) × (parse_pack (render some_args) ≡ rejected m)
      × (main env 8 (text "pack" ∷ render some_args) empty_world ≡ (2, empty_world)))
    ⊎ ((args : PackArgs) × (parse_pack (render some_args) ≡ at_arg args)
        × (submit_job (request args) ≡ ok started)
        × IsExitOf
            (run env (engine_options 8 args) (request args) empty_world)
            (main env 8 (text "pack" ∷ render some_args) empty_world))
main_pack_example = main_pack env 8 empty_world (render some_args) (λ device streams bytes. refl)
