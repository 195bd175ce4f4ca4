-- ===== src/Pipeline/Reasons.antt =====
-- No failure of a job has the code Ok, if none of the GPU codec has.
use collapsar.Base.{ℕ, ◌+◌, refl, ◌≡◌, Bool, false, Bool-cases, inl, inr, List, [], ◌∷◌, All}
use collapsar.Core.Status.{Error, Result, ok, err, is_ok}
use collapsar.Core.Reason.{
  HasReason, fine, because, Ends, succeeds, fails, HasReason-code, Ends-HasReason, HasReason-Ends,
  bind-Ends, seq-Ends,
}
use collapsar.Core.Options.{EngineOptions, Format, zip, gzip, zstd}
use collapsar.Core.Blocks.{FilePath, FileEntry, PreparedFile}
use collapsar.Core.Job.{JobRequest, JobStats}
use collapsar.Codec.Factory.{CodecBundle}
use collapsar.Codec.Reasons.{OptionWell, BundleWell, BehavesWell, make_codecs_well}
use collapsar.Io.Disk.{Disk}
use collapsar.Io.Reasons.{scan-Ends, if_method}
use collapsar.Zip.Writer.{ZipWriter}
use collapsar.Gzip.Writer.{GzipWriter}
use collapsar.Zip.Reasons as ZipEnds
use collapsar.Gzip.Reasons as GzipEnds
use collapsar.Pipeline.Router.{SizeRouter, route}
use collapsar.Pipeline.Stop.{Stop}
use collapsar.Pipeline.TaskReasons.{file_task_reason}
use collapsar.Pipeline.Task.{file_task}
use collapsar.Pipeline.Writer.{
  Writer, zip_writer, gzip_writer, on_zip, on_gzip, make_writer, begin, write_file, finish,
}
use collapsar.Pipeline.Run.{
  Env, World, Drain, on_writer, enqueue, wait_for, after_write, start_file, drain_file, drain_all,
  submit_files, drain_files, begin_output, finish_output, process, left_in, run_writer, run_codecs,
  run_entries, run, scan_inputs,
}

-- A failure is passed on whatever object is left beside it.
on_zip-Ends : (x : Result (Unit {0}) × ZipWriter) → Ends x → Ends (on_zip x)
on_zip-Ends (ok a, w) h = succeeds
on_zip-Ends (err e, w) (fails why) = fails why

on_gzip-Ends : (x : Result (Unit {0}) × GzipWriter) → Ends x → Ends (on_gzip x)
on_gzip-Ends (ok a, w) h = succeeds
on_gzip-Ends (err e, w) (fails why) = fails why

on_writer-Ends : (x : Result (Unit {0}) × Writer) (d : Drain) → Ends x → Ends (on_writer x d)
on_writer-Ends (ok a, w) d h = succeeds
on_writer-Ends (err e, w) d (fails why) = fails why

after_write-Ends :
    (file : PreparedFile) (d : Drain) (x : Result (Unit {0}) × Writer)
    → Ends x
    → Ends (after_write file d x)
after_write-Ends file d (ok a, w) h = succeeds
after_write-Ends file d (err e, w) (fails why) = fails why

left_in-Ends : (world : World) (x : Result JobStats × Drain) → Ends x → Ends (left_in world x)
left_in-Ends world (ok a, d) h = succeeds
left_in-Ends world (err e, d) (fails why) = fails why

begin-Ends : (disk : Disk) (w : Writer) → Ends (begin disk w)
unfolding begin
begin-Ends disk (zip_writer w) = on_zip-Ends _ (ZipEnds.begin-Ends disk w)
begin-Ends disk (gzip_writer w) = on_gzip-Ends _ (GzipEnds.begin-Ends disk w)

write_file-Ends : (disk : Disk) (file : PreparedFile) (w : Writer) → Ends (write_file disk file w)
unfolding write_file
write_file-Ends disk file (zip_writer w) = on_zip-Ends _ (ZipEnds.write_file-Ends disk file w)
write_file-Ends disk file (gzip_writer w) = on_gzip-Ends _ (GzipEnds.write_file-Ends file w)

finish-Ends : (w : Writer) → Ends (finish w)
unfolding finish
finish-Ends (zip_writer w) = on_zip-Ends _ (ZipEnds.finish-Ends w)
finish-Ends (gzip_writer w) = on_gzip-Ends _ (GzipEnds.finish-Ends w)

-- The tasks in the queue.
abbrev TasksWell : Result (List (Result PreparedFile)) → Type 0
TasksWell (ok tasks) = All HasReason tasks
TasksWell (err e) = is_ok e.code ≡ false

enqueue_well :
    (task : Result PreparedFile) (rest : Result (List (Result PreparedFile)))
    → HasReason task
    → TasksWell rest
    → TasksWell (enqueue task rest)
enqueue_well task (ok tasks) h all = (h, all)
enqueue_well task (err e) h why = why

wait_for-Ends :
    (disk : Disk) (router : SizeRouter) (task : Result PreparedFile) (d : Drain)
    → HasReason task
    → Ends (wait_for disk router task d)
unfolding drain_file
wait_for-Ends disk router (ok file) d h =
    let started = start_file router file d in
    after_write-Ends file started _ (write_file-Ends disk file started.writer)
wait_for-Ends disk router (err e) d (because why) = fails why

drain_files-Ends :
    (disk : Disk) (router : SizeRouter) (stop : Stop) (i : ℕ) (tasks : List (Result PreparedFile))
    (d : Drain)
    → All HasReason tasks
    → Ends (drain_files disk router stop i tasks d)
unfolding drain_files
drain_files-Ends disk router stop i [] d all = succeeds
drain_files-Ends disk router stop i (task ∷ tasks) d (h, all) =
    if_method (stop.writing i) _ _ (λ _. fails refl)
      (seq-Ends (wait_for disk router task) _ (λ t. wait_for-Ends disk router task t h)
        (λ t. drain_files-Ends disk router stop (i + 1) tasks t all))
      d

module _ (env : Env) (behaves : BehavesWell env.cuda) where
  submit_files_well :
      (block_bytes : ℕ) (codecs : CodecBundle) (router : SizeRouter) (i : ℕ)
      (entries : List FileEntry)
      → OptionWell codecs.gpu
      → TasksWell (submit_files env block_bytes codecs router i entries)
  unfolding submit_files
  submit_files_well block_bytes codecs router i [] well = tt
  submit_files_well block_bytes codecs router i (entry ∷ entries) well =
      elim (Bool-cases (env.stop.submitting i)) [
        | inl now ↦ rw now refl
        | inr later ↦ rw later (
            enqueue_well
              (file_task env.zlib env.host env.stop block_bytes codecs
                (route router entry.size_bytes) i entry)
              (submit_files env block_bytes codecs router (i + 1) entries)
              (file_task_reason env.zlib env.host env.stop block_bytes i codecs
                (route router entry.size_bytes) entry well)
              (submit_files_well block_bytes codecs router (i + 1) entries well))
      ]

  drain_all-Ends :
      (router : SizeRouter) (tasks : Result (List (Result PreparedFile))) (d : Drain)
      → TasksWell tasks
      → Ends (drain_all env.disk router env.stop tasks d)
  drain_all-Ends router (ok tasks) d all = drain_files-Ends env.disk router env.stop 0 tasks d all
  drain_all-Ends router (err e) d why = fails why

  process-Ends :
      (block_bytes : ℕ) (codecs : CodecBundle) (router : SizeRouter) (entries : List FileEntry)
      (d : Drain)
      → OptionWell codecs.gpu
      → Ends (process env block_bytes codecs router entries d)
  unfolding process begin_output finish_output
  process-Ends block_bytes codecs router entries d well =
      seq-Ends _ _ (λ t. on_writer-Ends _ t (begin-Ends env.disk t.writer))
        (seq-Ends _ _
          (λ t.
            drain_all-Ends router _ t (submit_files_well block_bytes codecs router 0 entries well))
          (seq-Ends _ _ (λ t. on_writer-Ends _ t (finish-Ends t.writer)) (λ _. succeeds)))
        d

  run_writer-Ends :
      (req : JobRequest) (entries : List FileEntry) (codecs : CodecBundle) (w : Result Writer)
      (world : World)
      → OptionWell codecs.gpu
      → HasReason w
      → Ends (run_writer env req entries codecs w world)
  unfolding run_writer
  run_writer-Ends req entries codecs (ok w) world well h =
      left_in-Ends world _ (process-Ends _ codecs _ entries _ well)
  run_writer-Ends req entries codecs (err e) world well (because why) = fails why

  make_writer_reason :
      (format : Format) (output : FilePath) (b : Bool) → HasReason (make_writer format output b)
  unfolding make_writer
  make_writer_reason zip output b = fine
  make_writer_reason gzip output b = fine
  make_writer_reason zstd output b = because refl

  run_codecs-Ends :
      (req : JobRequest) (entries : List FileEntry) (codecs : Result CodecBundle) (world : World)
      → BundleWell codecs
      → Ends (run_codecs env req entries codecs world)
  unfolding run_codecs
  run_codecs-Ends req entries (ok codecs) world well =
      run_writer-Ends req entries codecs _ world well
        (make_writer_reason req.options.format req.output req.options.overwrite)
  run_codecs-Ends req entries (err e) world why = fails why

  run_entries-Ends :
      (engine : EngineOptions) (req : JobRequest) (entries : List FileEntry) (world : World)
      → Ends (run_entries env engine req entries world)
  unfolding run_entries
  run_entries-Ends engine req [] world = fails refl
  run_entries-Ends engine req (e ∷ es) world =
      run_codecs-Ends req (e ∷ es) _ world (make_codecs_well env.cuda behaves engine req.options)

  pub run-Ends :
      (engine : EngineOptions) (req : JobRequest) (world : World) → Ends (run env engine req world)
  unfolding run
  run-Ends engine req world =
      bind-Ends (scan_inputs env req) _
        (λ w.
          HasReason-Ends _ _
            (Ends-HasReason _ (scan-Ends env.fs req.inputs req.options.recurse w.next_id)))
        (run_entries-Ends engine req) world

  pub run_reason :
      (engine : EngineOptions) (req : JobRequest) (world : World) (e : Error)
      → (run env engine req world).0 ≡ err e
      → is_ok e.code ≡ false
  run_reason engine req world = HasReason-code _ (Ends-HasReason _ (run-Ends engine req world))
