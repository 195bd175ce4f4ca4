-- ===== src/Runs/Events.antt =====
-- Three completed files, two of them within the interval.
use collapsar.Base.{◌+◌, ◌%◌, ◌^◌, ◌≡◌, true, false, List, [], ◌∷◌}
use collapsar.Pipeline.Run.{total_bytes}
use collapsar.Pipeline.Writer.{zip_writer}
use collapsar.Zip.Writer.{new_zip_writer}
use collapsar.Engine.Handle.{new_job_handle}
use collapsar.Engine.Callback.{Watched, deliver, flushed}
use collapsar.Bridge.Events.{CProgressEvent, c_event, c_events, c_events-deliver}
use collapsar.Runs.Files.{five_entry}
use collapsar.Runs.Jobs.{five_file, cpu_router}
use collapsar.Pipeline.Progress.{
  Call, file_started, file_completed, new_coalescer, run_calls, flush, AreSpaced, completed,
  run_calls-flush,
}

abbrev calls : List Call
calls =
    file_started (b'a' ∷ [])
    ∷ file_completed 5 3 100000000
    ∷ file_completed 6 4 120000000
    ∷ file_completed 7 5 190000000
    ∷ []

run_calls-flush_example :
    let c = run_calls calls (new_coalescer true 3 18) in
    AreSpaced c.last_emit c.emitted
    × ((flush 200000000 c).emitted ≡ (200000000, c.snapshot) ∷ c.emitted)
    × (c.snapshot.processed_files ≡ completed calls % 2 ^ 64)
run_calls-flush_example = run_calls-flush calls 3 18 200000000

abbrev watched : Watched
watched = record { handle = new_job_handle; seen = [] }

-- One file is drained, and the job flushes.
c_events-deliver_example :
    let told =
      deliver true
        (flushed (five_entry ∷ []) ((five_file, 100000000) ∷ []) 200000000).emitted
        watched in
    (e : CProgressEvent) × (older : List CProgressEvent) × (c_events told.seen ≡ e ∷ older)
    × (e ≡ c_event told.handle.progress)
    × (e.total_files ≡ 1)
    × (e.total_bytes ≡ total_bytes 0 (five_entry ∷ []))
    × (e.processed_files ≡ 1 % 2 ^ 64)
    × (e.processed_bytes ≡ (5 + 0) % 2 ^ 64)
    × (e.output_bytes ≡ (11 + 0) % 2 ^ 64)
c_events-deliver_example =
    c_events-deliver cpu_router (zip_writer (new_zip_writer [] false)) (five_entry ∷ [])
      ((five_file, 100000000) ∷ []) 200000000 watched
