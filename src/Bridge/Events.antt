-- ===== src/Bridge/Events.antt =====
-- `collapsar_progress_event_t`, and the callback that `collapsar_engine_pack` hands to the engine. The
-- throughput is left out.
use collapsar.Base.{ℕ, ◌%◌, ◌^◌, ◌≡◌, refl, ap, ◌∙◌, true, List, [], ◌∷◌, Bytes, length, arith}
use collapsar.Core.Blocks.{FileEntry, PreparedFile}
use collapsar.Core.Job.{ProgressEvent}
use collapsar.Pipeline.Run.{total_bytes, new_progress}
use collapsar.Pipeline.Events.{files_of, sum_of}
use collapsar.Pipeline.Router.{SizeRouter}
use collapsar.Pipeline.Writer.{Writer}
use collapsar.Engine.Callback.{Watched, deliver, flushed, deliver-flushed}

pub record CProgressEvent : Type 0 where
  pub total_files : ℕ
  pub total_bytes : ℕ
  pub processed_files : ℕ
  pub processed_bytes : ℕ
  pub output_bytes : ℕ
  pub current_file : Bytes

-- What the lambda makes of an event for `on_progress`.
unfoldable pub c_event : ProgressEvent → CProgressEvent
c_event e = record {
  total_files = e.total_files;
  total_bytes = e.total_bytes;
  processed_files = e.processed_files;
  processed_bytes = e.processed_bytes;
  output_bytes = e.output_bytes;
  current_file = e.current_file;
}

-- What `on_progress` was called with, the newest first.
abbrev pub c_events : List ProgressEvent → List CProgressEvent
c_events [] = []
c_events (e ∷ events) = c_event e ∷ c_events events

-- When a job has drained some files, at whatever times, and flushes, the newest event that the C
-- callback got is the progress that the handle shows; it has the totals of the scan, and as
-- processed the count of the drained files and the sums of their sizes, modulo 2^64.
pub c_events-deliver :
    (router : SizeRouter) (writer : Writer) (entries : List FileEntry)
    (files : List (PreparedFile × ℕ)) (now : ℕ) (w : Watched)
    → let told = deliver true (flushed entries files now).emitted w in
      (e : CProgressEvent) × (older : List CProgressEvent) × (c_events told.seen ≡ e ∷ older)
      × (e ≡ c_event told.handle.progress)
      × (e.total_files ≡ length entries)
      × (e.total_bytes ≡ total_bytes 0 entries)
      × (e.processed_files ≡ length (files_of files) % 2 ^ 64)
      × (e.processed_bytes ≡ sum_of (λ f. f.uncompressed) (files_of files) % 2 ^ 64)
      × (e.output_bytes ≡ sum_of (λ f. f.compressed) (files_of files) % 2 ^ 64)
unfolding c_event new_progress
c_events-deliver router writer entries files now w =
    let (_, shows, (older, newest)) = deliver-flushed router writer entries files now w in
    (
      _,
      c_events older,
      ap c_events newest,
      refl,
      shows.total_files_is,
      shows.total_bytes_is,
      shows.files_is ∙ omega arith,
      shows.bytes_is ∙ omega arith,
      shows.output_is ∙ omega arith,
    )
