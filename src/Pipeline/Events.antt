-- ===== src/Pipeline/Events.antt =====
-- What the drain loop of `Pipeline::run` tells the coalescer.
use collapsar.Base.{ℕ, ◌+◌, ◌%◌, ◌^◌, ◌≡◌, refl, ap, ◌∙◌, List, [], ◌∷◌, length, arith}
use collapsar.Core.Blocks.{PreparedFile}
use collapsar.Core.Job.{ProgressEvent}
use collapsar.Pipeline.Router.{SizeRouter}
use collapsar.Pipeline.Run.{Drain, start_file, complete_file, on_file_started, on_file_completed}
use collapsar.Pipeline.Drained.{counted}
use collapsar.Pipeline.Progress.{
  Coalescer, Call, file_started, file_completed, call, run_calls, maybe_emit_snapshot,
}

-- The calls for some files, each with the time at which it is done.
unfoldable pub calls_of : List (PreparedFile × ℕ) → List Call
calls_of [] = []
calls_of ((file, now) ∷ files) =
    file_started file.entry.archive_path
    ∷ file_completed file.uncompressed file.compressed now
    ∷ calls_of files

abbrev pub files_of : List (PreparedFile × ℕ) → List PreparedFile
files_of [] = []
files_of ((file, now) ∷ files) = file ∷ files_of files

-- The snapshot that an event would report is the progress of the drain loop.
pub run_calls-counted :
    (router : SizeRouter) (files : List (PreparedFile × ℕ)) (d : Drain) (c : Coalescer)
    → c.snapshot ≡ d.progress
    → (run_calls (calls_of files) c).snapshot ≡ (counted router (files_of files) d).progress
unfolding run_calls calls_of call start_file complete_file
run_calls-counted router [] d c is = is
run_calls-counted router ((file, now) ∷ files) d c is =
    run_calls-counted router files (complete_file file (start_file router file d)) _ (
      maybe_emit_snapshot now _
      ∙ ap
          (λ e.
            on_file_completed file.uncompressed file.compressed
              (on_file_started file.entry.archive_path e))
          is)

-- The sums that a snapshot shows, modulo 2^64.
abbrev pub sum_of : (PreparedFile → ℕ) → List PreparedFile → ℕ
sum_of f [] = 0
sum_of f (file ∷ files) = f file + sum_of f files

pub record Shows (e0 : ProgressEvent) (files : List PreparedFile) (e : ProgressEvent) : Type 0 where
  pub files_is : e.processed_files ≡ (e0.processed_files + length files) % 2 ^ 64
  pub bytes_is :
      e.processed_bytes ≡ (e0.processed_bytes + sum_of (λ f. f.uncompressed) files) % 2 ^ 64
  pub output_is : e.output_bytes ≡ (e0.output_bytes + sum_of (λ f. f.compressed) files) % 2 ^ 64
  pub total_files_is : e.total_files ≡ e0.total_files
  pub total_bytes_is : e.total_bytes ≡ e0.total_bytes

pub counted-Shows :
    (router : SizeRouter) (files : List PreparedFile) (d : Drain)
    → d.progress.processed_files % 2 ^ 64 ≡ d.progress.processed_files
    → d.progress.processed_bytes % 2 ^ 64 ≡ d.progress.processed_bytes
    → d.progress.output_bytes % 2 ^ 64 ≡ d.progress.output_bytes
    → Shows d.progress files (counted router files d).progress
unfolding start_file complete_file on_file_started on_file_completed
counted-Shows router [] d small_files small_bytes small_output = record {
  files_is = omega (arith, small_files);
  bytes_is = omega (arith, small_bytes);
  output_is = omega (arith, small_output);
  total_files_is = refl;
  total_bytes_is = refl;
}
counted-Shows router (f ∷ fs) d small_files small_bytes small_output =
    let next = complete_file f (start_file router f d) in
    let rest = counted-Shows router fs next (omega arith) (omega arith) (omega arith) in
    record {
      files_is = rest.files_is ∙ omega arith;
      bytes_is = rest.bytes_is ∙ omega arith;
      output_is = rest.output_is ∙ omega arith;
      total_files_is = rest.total_files_is;
      total_bytes_is = rest.total_bytes_is;
    }
