-- ===== src/Bridge/Threads.antt =====
-- The threads that meet in a handle of bridge/src/c_bridge.cpp: one call of pack, any number of calls
-- of cancel, one after the other, one call of destroy, and the job itself. A piece of code under
-- `job_mutex` is one step, except that destroy holds the lock while it waits.
use collapsar.Base.{◌≡◌, ◌≢◌, Bool, true, false, ◌||◌, Option, none, some, if◌then◌else◌}
use collapsar.Core.Status.{Error, Result}
use collapsar.Core.Job.{JobStats}
use collapsar.Engine.Handle.{
  Future, pending, JobHandle, new_job_handle, set_future, request_stop, wait_begin, wait_end,
}

-- Where `collapsar_engine_pack` is: before the submission, before the publication, before `wait`,
-- on the future, after `wait`, before the reset, at its end with what it reports.
pub data PackAt : Type 0 where
  outside made shown blocked over : PackAt
  leaving returned : Error → JobStats → PackAt

-- `collapsar_engine_destroy`: before the lock, before `cancel`, before `wait`, on the future, before
-- the reset and the unlock, before `delete`, at its end.
pub data DestroyAt : Type 0 where
  not_called stopping asking waiting_too resetting deleting gone : DestroyAt

-- `collapsar_engine_cancel`: not called, or with the copy of the pointer that it has read.
pub data CancelAt : Type 0 where
  no_cancel : CancelAt
  copied : Bool → CancelAt

pub record Shared : Type 0 where
  pub pack : PackAt
  pub destroy : DestroyAt
  pub cancel : CancelAt
  -- The handle: whether it is deleted, its lock held by destroy, and its `job` set.
  pub freed : Bool
  pub locked : Bool
  pub published : Bool
  -- The job, and the result that its thread has handed over.
  pub job : JobHandle
  pub answer : Option (Result JobStats)
  -- Whether some thread has used the handle after `delete`.
  pub misused : Bool

-- A flag of the model that no code has: it says that a step has touched the handle after `delete`.
unfoldable pub use_handle : Shared → Shared
use_handle s = record s { misused = s.misused || s.freed }

-- How a `wait` goes on after its first lock.
abbrev pub pack_from : Option Future → PackAt
pack_from none = over
pack_from (some future) = blocked

abbrev pub destroy_from : Option Future → DestroyAt
destroy_from none = resetting
destroy_from (some future) = waiting_too

-- A pack that has not begun or is over.
abbrev pub IsQuiet : PackAt → Type 0
IsQuiet outside = Unit
IsQuiet (returned e stats) = Unit
IsQuiet _ = ⊥

abbrev pub before_calls : Shared
before_calls = record {
  pack = outside;
  destroy = not_called;
  cancel = no_cancel;
  freed = false;
  locked = false;
  published = false;
  job = new_job_handle;
  answer = none;
  misused = false;
}

-- `ordered`: whether destroy is called only when no other call is under way or to come.
pub data Step (ordered : Bool) (s : Shared) : Shared → Type 0 where
  pack_submits :
      s.pack ≡ outside
      → (ordered ≡ true → s.destroy ≡ not_called)
      → Step ordered s
          (record (use_handle s) { job = set_future pending new_job_handle; pack = made })
  pack_publishes :
      s.pack ≡ made
      → s.locked ≡ false
      → Step ordered s (record (use_handle s) { published = true; pack = shown })
  pack_waits :
      s.pack ≡ shown
      → Step ordered s
          (record s { job = (wait_begin s.job).1; pack = pack_from (wait_begin s.job).0 })
  pack_wakes :
      (r : Result JobStats)
      → s.pack ≡ blocked
      → s.answer ≡ some r
      → Step ordered s (record s { job = wait_end r s.job; pack = over })
  pack_reads :
      s.pack ≡ over
      → s.job.resolved ≡ true
      → Step ordered s (record s { pack = leaving s.job.error s.job.stats })
  pack_resets :
      (e : Error) (stats : JobStats)
      → s.pack ≡ leaving e stats
      → s.locked ≡ false
      → Step ordered s (record (use_handle s) { published = false; pack = returned e stats })
  job_answers :
      (r : Result JobStats)
      → s.pack ≢ outside
      → s.answer ≡ none
      → Step ordered s (record s { answer = some r })
  cancel_copies :
      s.cancel ≡ no_cancel
      → (ordered ≡ true → s.destroy ≡ not_called)
      → s.locked ≡ false
      → Step ordered s (record (use_handle s) { cancel = copied s.published })
  cancel_stops :
      (some_job : Bool)
      → s.cancel ≡ copied some_job
      → Step ordered s
          (record s { job = if some_job then request_stop s.job else s.job; cancel = no_cancel })
  destroy_locks :
      s.destroy ≡ not_called
      → (ordered ≡ true → IsQuiet s.pack × (s.cancel ≡ no_cancel))
      → s.locked ≡ false
      → Step ordered s (record (use_handle s) {
        locked = true;
        destroy = if s.published then stopping else resetting;
      })
  destroy_stops :
      s.destroy ≡ stopping
      → Step ordered s (record s { job = request_stop s.job; destroy = asking })
  destroy_waits :
      s.destroy ≡ asking
      → Step ordered s
          (record s { job = (wait_begin s.job).1; destroy = destroy_from (wait_begin s.job).0 })
  destroy_wakes :
      (r : Result JobStats)
      → s.destroy ≡ waiting_too
      → s.answer ≡ some r
      → Step ordered s (record s { job = wait_end r s.job; destroy = resetting })
  destroy_resets :
      s.destroy ≡ resetting
      → Step ordered s (record s { published = false; locked = false; destroy = deleting })
  destroy_deletes :
      s.destroy ≡ deleting → Step ordered s (record s { freed = true; destroy = gone })

pub data Reach (ordered : Bool) : Shared → Type 0 where
  start : Reach ordered before_calls
  later : {s t : Shared} → Reach ordered s → Step ordered s t → Reach ordered t
