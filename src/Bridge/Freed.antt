-- ===== src/Bridge/Freed.antt =====
-- A handle that is destroyed while pack waits for its job.
use collapsar.Base.{◌≡◌, refl, sym, subst, true, false, none, some}
use collapsar.Core.Status.{Error, ok, internal}
use collapsar.Core.Job.{JobStats}
use collapsar.Engine.Handle.{invalid, JobHandle, request_stop, wait_begin, wait_end}
use collapsar.Bridge.Threads.{
  blocked, returned, not_called, gone, CancelAt, Shared, use_handle, Step, pack_wakes, pack_reads,
  pack_resets, job_answers, destroy_locks, destroy_stops, destroy_waits, destroy_resets,
  destroy_deletes, Reach,
}
use collapsar.Bridge.Ordered.{IsOrdered, pack_is, handle_at}
use collapsar.Bridge.Safe.{Reach-IsOrdered}

-- Steps in a row, of threads that keep no order.
pub data Steps (s : Shared) : Shared → Type 0 where
  none_yet : Steps s s
  one_more : {t u : Shared} → Steps s t → Step false t u → Steps s u

abbrev unresolved : JobHandle → JobHandle
unresolved h = record h { resolved = false; future = invalid }

-- A state in which pack waits and destroy may come.
abbrev waiting_state : CancelAt → JobHandle → Shared
waiting_state c h = record {
  pack = blocked;
  destroy = not_called;
  cancel = c;
  freed = false;
  locked = false;
  published = true;
  job = unresolved h;
  answer = none;
  misused = false;
}

-- What destroy leaves, and what pack makes of it when the job succeeds.
abbrev deleted_state : CancelAt → JobHandle → Shared
deleted_state c h = record (waiting_state c h) {
  destroy = gone;
  freed = true;
  published = false;
  job = (wait_begin (request_stop (unresolved h))).1;
}

abbrev last_error : JobHandle → Error
last_error h = (wait_begin (request_stop (unresolved h))).1.error

abbrev misused_state : CancelAt → JobHandle → JobStats → Shared
misused_state c h stats = record (deleted_state c h) {
  pack = returned (last_error h) stats;
  job = wait_end (ok stats) (deleted_state c h).job;
  answer = some (ok stats);
  misused = true;
}

destroy_comes : (c : CancelAt) (h : JobHandle) → Steps (waiting_state c h) (deleted_state c h)
unfolding use_handle wait_begin request_stop
destroy_comes c h =
    one_more
      (one_more
        (one_more
          (one_more (one_more none_yet (destroy_locks refl (λ strict. cc) refl))
            (destroy_stops refl))
          (destroy_waits refl))
        (destroy_resets refl))
      (destroy_deletes refl)

pack_goes_on :
    (c : CancelAt) (h : JobHandle) (stats : JobStats)
    → Steps (deleted_state c h) (misused_state c h stats)
unfolding use_handle wait_begin request_stop wait_end
pack_goes_on c h stats =
    one_more
      (one_more
        (one_more (one_more none_yet (job_answers (ok stats) (λ h. cc) refl))
          (pack_wakes (ok stats) refl refl))
        (pack_reads refl refl))
      (pack_resets (last_error h) stats refl refl)

last_error_code : (h : JobHandle) → (last_error h).code ≡ internal
unfolding wait_begin request_stop
last_error_code h = refl

is_waiting :
    (s : Shared)
    → IsOrdered s
    → s.pack ≡ blocked
    → s.destroy ≡ not_called
    → s.answer ≡ none
    → waiting_state s.cancel s.job ≡ s
is_waiting s o is first nothing =
    let (there, open_still, taken, _) = pack_is s o blocked is in
    let (alive, unlocked) = handle_at s o not_called first in
    λ i. record {
      pack = sym is i;
      destroy = sym first i;
      cancel = s.cancel;
      freed = sym alive i;
      locked = sym unlocked i;
      published = sym there i;
      job = record s.job { resolved = sym open_still i; future = sym taken i };
      answer = sym nothing i;
      misused = sym o.unused i;
    }

-- From every state that such calls in order have reached, in which pack waits for the job, the job
-- has not answered and destroy has not begun, destroy can delete the handle before the job
-- answers, and after that, when the job succeeds, pack can use the deleted handle and report an
-- internal error.
pub Reach-misused :
    (s : Shared) (stats : JobStats)
    → Reach true s
    → s.pack ≡ blocked
    → s.destroy ≡ not_called
    → s.answer ≡ none
    → (t : Shared) × (u : Shared) × (e : Error) × Steps s t
      × (t.freed ≡ true)
      × (t.answer ≡ none)
      × Steps t u
      × (u.answer ≡ some (ok stats))
      × (u.pack ≡ returned e stats)
      × (e.code ≡ internal)
      × (u.misused ≡ true)
Reach-misused s stats reach is first nothing =
    let here = is_waiting s (Reach-IsOrdered s reach) is first nothing in
    (
      deleted_state s.cancel s.job,
      misused_state s.cancel s.job stats,
      last_error s.job,
      subst (λ x. Steps x (deleted_state s.cancel s.job)) here (destroy_comes s.cancel s.job),
      refl,
      refl,
      pack_goes_on s.cancel s.job stats,
      refl,
      refl,
      last_error_code s.job,
      refl,
    )
