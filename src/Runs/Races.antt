-- ===== src/Runs/Races.antt =====
-- Calls of pack, cancel and destroy on one handle.
use collapsar.Base.{◌≡◌, refl, true, false, none, some}
use collapsar.Core.Status.{Error, ok, no_error, internal}
use collapsar.Core.Job.{no_stats}
use collapsar.Engine.Handle.{new_job_handle, set_future, request_stop, wait_begin, wait_end}
use collapsar.Bridge.Threads.{
  blocked, returned, not_called, gone, no_cancel, Shared, use_handle, pack_submits, pack_publishes,
  pack_waits, pack_wakes, pack_reads, pack_resets, job_answers, cancel_copies, cancel_stops,
  destroy_locks, destroy_resets, destroy_deletes, Reach, start, later,
}
use collapsar.Bridge.Safe.{HasReported, Reach-reports}
use collapsar.Bridge.Freed.{Steps, Reach-misused}

-- Pack waits, and somebody has cancelled.
abbrev cancelled_wait : Shared
cancelled_wait = record {
  pack = blocked;
  destroy = not_called;
  cancel = no_cancel;
  freed = false;
  locked = false;
  published = true;
  job = record new_job_handle { stop_requested = true };
  answer = none;
  misused = false;
}

cancelled_wait-Reach : Reach true cancelled_wait
unfolding use_handle set_future new_job_handle wait_begin request_stop
cancelled_wait-Reach =
    later
      (later
        (later (later (later start (pack_submits refl (λ _. refl))) (pack_publishes refl refl))
          (pack_waits refl))
        (cancel_copies refl (λ _. refl) refl))
      (cancel_stops true refl)

-- The job has succeeded all the same, and the handle is gone.
abbrev ended : Shared
ended = record {
  pack = returned no_error no_stats;
  destroy = gone;
  cancel = no_cancel;
  freed = true;
  locked = false;
  published = false;
  job = record new_job_handle { stop_requested = true; resolved = true };
  answer = some (ok no_stats);
  misused = false;
}

ended-Reach : Reach true ended
unfolding use_handle new_job_handle wait_end
ended-Reach =
    later
      (later
        (later
          (later
            (later
              (later (later cancelled_wait-Reach (job_answers (ok no_stats) (λ h. cc) refl))
                (pack_wakes (ok no_stats) refl refl))
              (pack_reads refl refl))
            (pack_resets no_error no_stats refl refl))
          (destroy_locks refl (λ _. (tt, refl)) refl))
        (destroy_resets refl))
      (destroy_deletes refl)

Reach-reports_example : (ended.misused ≡ false) × HasReported ended.pack ended.answer
Reach-reports_example = Reach-reports ended ended-Reach

Reach-misused_example :
    (t : Shared) × (u : Shared) × (e : Error) × Steps cancelled_wait t
    × (t.freed ≡ true)
    × (t.answer ≡ none)
    × Steps t u
    × (u.answer ≡ some (ok no_stats))
    × (u.pack ≡ returned e no_stats)
    × (e.code ≡ internal)
    × (u.misused ≡ true)
Reach-misused_example = Reach-misused cancelled_wait no_stats cancelled_wait-Reach refl refl refl
