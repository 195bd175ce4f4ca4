-- ===== src/Pipeline/Run.antt =====
-- `Pipeline::run` of core/src/pipeline/pipeline.cpp. A task's result does not depend on when the
-- pools run it, so a future is its result, and the stop oracle says what the task saw of a cancellation.
use collapsar.Base.{
  ℕ, ◌+◌, ◌%◌, ◌^◌, Bool, true, false, Option, none, some, List, [], ◌∷◌, length, text,
  if◌then◌else◌,
}
use collapsar.Core.Status.{Result, ok, err, make_error, cancelled, invalid_argument}
use collapsar.Core.Action.{Action, done, fail, ◌>>=◌, ◌>>◌}
use collapsar.Core.Options.{EngineOptions}
use collapsar.Core.Blocks.{FilePath, FileEntry, PreparedFile}
use collapsar.Core.Job.{JobRequest, JobStats, no_stats, ProgressEvent, no_progress}
use collapsar.Codec.Zlib.{Zlib}
use collapsar.Codec.Factory.{Gpu, CodecBundle, make_codecs}
use collapsar.Io.Disk.{Disk}
use collapsar.Io.AsyncReader.{Host}
use collapsar.Io.FileScanner.{FileSystem, scan}
use collapsar.Pipeline.Router.{Decision, cpu, gpu, SizeRouter, new_router, route}
use collapsar.Pipeline.Stop.{Stop}
use collapsar.Pipeline.Task.{file_task}
use collapsar.Pipeline.Writer.{Writer, make_writer, begin, write_file, finish}

-- Everything outside the repository that a job meets.
pub record Env : Type 0 where
  pub zlib : Zlib
  pub cuda : Gpu
  pub host : Host
  pub disk : Disk
  pub fs : FileSystem
  pub stop : Stop

-- What the drain loop changes.
pub record Drain : Type 0 where
  pub writer : Writer
  pub stats : JobStats
  pub progress : ProgressEvent

-- `ProgressCoalescer`, less the clock: the snapshot that an event would report.
abbrev pub total_bytes : ℕ → List FileEntry → ℕ
total_bytes acc [] = acc
total_bytes acc (e ∷ es) = total_bytes ((acc + e.size_bytes) % 2 ^ 64) es

unfoldable pub new_progress : List FileEntry → ProgressEvent
new_progress entries = record no_progress {
  total_files = length entries;
  total_bytes = total_bytes 0 entries;
}

unfoldable pub on_file_started : FilePath → ProgressEvent → ProgressEvent
on_file_started current e = record e { current_file = current }

unfoldable pub on_file_completed : ℕ → ℕ → ProgressEvent → ProgressEvent
on_file_completed in_bytes out_bytes e = record e {
  processed_files = (e.processed_files + 1) % 2 ^ 64;
  processed_bytes = (e.processed_bytes + in_bytes) % 2 ^ 64;
  output_bytes = (e.output_bytes + out_bytes) % 2 ^ 64;
}

abbrev pub enqueue :
    Result PreparedFile → Result (List (Result PreparedFile)) → Result (List (Result PreparedFile))
enqueue task (ok tasks) = ok (task ∷ tasks)
enqueue task (err e) = err e

-- The submit loop, from file `i` on. `AsyncReader::submit` never fails.
unfoldable pub submit_files :
    Env → ℕ → CodecBundle → SizeRouter → ℕ → List FileEntry → Result (List (Result PreparedFile))
submit_files env block_bytes codecs router i [] = ok []
submit_files env block_bytes codecs router i (entry ∷ entries) =
    let rest = submit_files env block_bytes codecs router (i + 1) entries in
    let decision = route router entry.size_bytes in
    let task = file_task env.zlib env.host env.stop block_bytes codecs decision i entry in
    if env.stop.submitting i
    then err (make_error cancelled (text "job cancelled"))
    else enqueue task rest

-- The tally of the blocks by the route of their file.
unfoldable pub tally : Decision → ℕ → JobStats → JobStats
tally gpu blocks s = record s { gpu_blocks = (s.gpu_blocks + blocks) % 2 ^ 64 }
tally cpu blocks s = record s { cpu_blocks = (s.cpu_blocks + blocks) % 2 ^ 64 }

unfoldable pub count_file : PreparedFile → JobStats → JobStats
count_file file s = record s {
  files_processed = (s.files_processed + 1) % 2 ^ 64;
  input_bytes = (s.input_bytes + file.uncompressed) % 2 ^ 64;
  output_bytes = (s.output_bytes + file.compressed) % 2 ^ 64;
}

-- What the loop does before the call of the writer, the call, and what it does after.
unfoldable pub start_file : SizeRouter → PreparedFile → Drain → Drain
unfolding tally on_file_started
start_file router file d = record d {
  stats = tally (route router file.entry.size_bytes) (length file.blocks) d.stats;
  progress = on_file_started file.entry.archive_path d.progress;
}

unfoldable pub complete_file : PreparedFile → Drain → Drain
unfolding count_file on_file_completed
complete_file file d = record d {
  stats = count_file file d.stats;
  progress = on_file_completed file.uncompressed file.compressed d.progress;
}

abbrev pub after_write :
    PreparedFile → Drain → Result (Unit {0}) × Writer → Result (Unit {0}) × Drain
after_write file d (ok _, w) = (ok tt, complete_file file (record d { writer = w }))
after_write file d (err e, w) = (err e, record d { writer = w })

unfoldable pub drain_file : Disk → SizeRouter → PreparedFile → Action Drain (Unit {0})
unfolding start_file complete_file
drain_file disk router file d =
    let started = start_file router file d in
    after_write file started (write_file disk file started.writer)

abbrev pub wait_for : Disk → SizeRouter → Result PreparedFile → Action Drain (Unit {0})
wait_for disk router (ok file) = drain_file disk router file
wait_for disk router (err e) = fail e

-- The drain loop, from the future `i` on.
unfoldable pub drain_files :
    Disk → SizeRouter → Stop → ℕ → List (Result PreparedFile) → Action Drain (Unit {0})
unfolding drain_file
drain_files disk router stop i [] = done tt
drain_files disk router stop i (future ∷ futures) =
    let rest = drain_files disk router stop (i + 1) futures in
    if stop.writing i
    then fail (make_error cancelled (text "job cancelled"))
    else wait_for disk router future >> rest

abbrev pub on_writer : Result (Unit {0}) × Writer → Drain → Result (Unit {0}) × Drain
on_writer (r, w) d = (r, record d { writer = w })

unfoldable pub begin_output : Disk → Action Drain (Unit {0})
begin_output disk d = on_writer (begin disk d.writer) d

unfoldable pub finish_output : Action Drain (Unit {0})
finish_output d = on_writer (finish d.writer) d

abbrev pub drain_all :
    Disk → SizeRouter → Stop → Result (List (Result PreparedFile)) → Action Drain (Unit {0})
drain_all disk router stop (ok futures) = drain_files disk router stop 0 futures
drain_all disk router stop (err e) = fail e

abbrev get_stats : Action Drain JobStats
get_stats d = (ok d.stats, d)

-- From the writer's `begin` to the end.
unfoldable pub process : Env → ℕ → CodecBundle → SizeRouter → List FileEntry → Action Drain JobStats
unfolding begin_output finish_output drain_files submit_files
process env block_bytes codecs router entries =
    begin_output env.disk
    >> (drain_all env.disk router env.stop (submit_files env block_bytes codecs router 0 entries)
        >> (finish_output >> get_stats))

-- What a job leaves: the counter of file ids, and the writer if it got as far as making one.
pub record World : Type 0 where
  pub next_id : ℕ
  pub output : Option Writer

abbrev pub left_in : World → Result JobStats × Drain → Result JobStats × World
left_in w (r, d) = (r, record w { output = some d.writer })

unfoldable pub start_drain : List FileEntry → Writer → Drain
unfolding new_progress
start_drain entries writer = record {
  writer = writer;
  stats = no_stats;
  progress = new_progress entries;
}

-- `static_cast<bool>(codecs.gpu)`.
unfoldable pub has_gpu : CodecBundle → Bool
has_gpu codecs = elim codecs.gpu [ none ↦ false | some _ ↦ true ]

-- After a scan that found files.
unfoldable pub run_writer :
    Env → JobRequest → List FileEntry → CodecBundle → Result Writer → Action World JobStats
unfolding process start_drain new_router has_gpu
run_writer env req entries codecs (err e) = fail e
run_writer env req entries codecs (ok writer) = λ world. left_in world (
    process env req.options.block_bytes codecs (new_router req.options (has_gpu codecs)) entries
      (start_drain entries writer))

unfoldable pub run_codecs :
    Env → JobRequest → List FileEntry → Result CodecBundle → Action World JobStats
unfolding run_writer
run_codecs env req entries (err e) = fail e
run_codecs env req entries (ok codecs) =
    run_writer env req entries codecs
      (make_writer req.options.format req.output req.options.overwrite)

unfoldable pub run_entries :
    Env → EngineOptions → JobRequest → List FileEntry → Action World JobStats
unfolding run_codecs
run_entries env engine req [] = fail (make_error invalid_argument (text "no input files"))
run_entries env engine req (e ∷ es) =
    run_codecs env req (e ∷ es) (make_codecs env.cuda engine req.options)

abbrev pub scan_inputs : Env → JobRequest → Action World (List FileEntry)
scan_inputs env req world =
    let (r, n) = scan env.fs req.inputs req.options.recurse world.next_id in
    (r, record world { next_id = n })

unfoldable pub run : Env → EngineOptions → JobRequest → Action World JobStats
unfolding run_entries
run env engine req = scan_inputs env req >>= run_entries env engine req
