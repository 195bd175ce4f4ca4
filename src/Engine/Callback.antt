-- ===== src/Engine/Callback.antt =====
-- The progress callback of `Engine::submit`: it stores the event in the handle and passes it on.
use collapsar.Base.{
  ℕ, ◌≡◌, refl, ap, sym, subst, ◌∙◌, Bool, true, List, [], ◌∷◌, length, arith, if◌then◌else◌,
}
use collapsar.Core.Blocks.{FileEntry, PreparedFile}
use collapsar.Core.Job.{ProgressEvent}
use collapsar.Pipeline.Router.{SizeRouter}
use collapsar.Pipeline.Run.{start_drain, new_progress, total_bytes}
use collapsar.Pipeline.Drained.{counted}
use collapsar.Pipeline.Progress.{Coalescer, new_coalescer, run_calls, flush, run_calls-IsPaced}
use collapsar.Pipeline.Events.{calls_of, files_of, Shows, run_calls-counted, counted-Shows}
use collapsar.Pipeline.Writer.{Writer}
use collapsar.Engine.Handle.{JobHandle, publish_progress}

-- The handle, and the events that the caller's own callback was given, the newest first.
pub record Watched : Type 0 where
  pub handle : JobHandle
  pub seen : List ProgressEvent

unfoldable pub progress_cb : Bool → ProgressEvent → Watched → Watched
unfolding publish_progress
progress_cb has_user e w = record {
  handle = publish_progress e w.handle;
  seen = if has_user then e ∷ w.seen else w.seen;
}

-- All that a coalescer has emitted, the oldest first.
unfoldable pub deliver : Bool → List (ℕ × ProgressEvent) → Watched → Watched
unfolding progress_cb
deliver has_user [] w = w
deliver has_user ((t, e) ∷ older) w = progress_cb has_user e (deliver has_user older w)

-- A job that has drained some files, and then flushes at the time `now`.
abbrev pub flushed : List FileEntry → List (PreparedFile × ℕ) → ℕ → Coalescer
flushed entries files now =
    flush now
      (run_calls (calls_of files) (new_coalescer true (length entries) (total_bytes 0 entries)))

flushed_newest :
    (entries : List FileEntry) (files : List (PreparedFile × ℕ)) (now : ℕ)
    → let c =
        run_calls (calls_of files) (new_coalescer true (length entries) (total_bytes 0 entries)) in
      (flushed entries files now).emitted ≡ (now, c.snapshot) ∷ c.emitted
unfolding flush new_coalescer
flushed_newest entries files now =
    let start = new_coalescer true (length entries) (total_bytes 0 entries) in
    let (_, called) = run_calls-IsPaced (calls_of files) start (tt, refl) in rw called refl

-- After the flush the handle shows the progress of the drain loop, and the caller saw it last.
pub deliver-flushed :
    (router : SizeRouter) (writer : Writer) (entries : List FileEntry)
    (files : List (PreparedFile × ℕ)) (now : ℕ) (w : Watched)
    → let drained = counted router (files_of files) (start_drain entries writer) in
      let told = deliver true (flushed entries files now).emitted w in
      (told.handle.progress ≡ drained.progress)
      × Shows (new_progress entries) (files_of files) told.handle.progress
      × ((older : List ProgressEvent) × (told.seen ≡ told.handle.progress ∷ older))
unfolding deliver progress_cb publish_progress start_drain new_progress new_coalescer
deliver-flushed router writer entries files now w =
    let d = start_drain entries writer in
    let start = new_coalescer true (length entries) (total_bytes 0 entries) in
    let newest = flushed_newest entries files now in
    let same : (deliver true (flushed entries files now).emitted w).handle.progress
        ≡ (counted router (files_of files) d).progress =
      ap (λ l. (deliver true l w).handle.progress) newest
      ∙ run_calls-counted router files d start refl in
    let shows = counted-Shows router (files_of files) d (omega arith) (omega arith) (omega arith) in
    (
      same,
      subst (Shows d.progress (files_of files)) (sym same) shows,
      (
        _,
        ap (λ l. (deliver true l w).seen) newest
            ∙ ap
                (λ l.
                  (deliver true l w).handle.progress
                  ∷ (deliver true (run_calls (calls_of files) start).emitted w).seen)
                (sym newest),
      ),
    )
