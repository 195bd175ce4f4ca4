-- ===== src/Engine/Handle.antt =====
-- `JobHandleImpl`. Each piece of code that runs under `result_mutex_` is one step. `wait` is two of
-- them, and between them the caller blocks on the future without the lock.
use collapsar.Base.{Bool, true, false, Option, none, some, text, if◌then◌else◌}
use collapsar.Core.Status.{Error, Result, ok, err, make_error, no_error, internal}
use collapsar.Core.Job.{JobStats, no_stats, ProgressEvent, no_progress}

-- `std::future<Result<JobStats>>`: without a state, or with one that has a result or not yet.
pub data Future : Type 0 where
  invalid pending : Future
  ready : Result JobStats → Future

pub record JobHandle : Type 0 where
  pub stop_requested : Bool
  pub future : Future
  pub resolved : Bool
  pub stats : JobStats
  pub error : Error
  pub progress : ProgressEvent

unfoldable pub new_job_handle : JobHandle
new_job_handle = record {
  stop_requested = false;
  future = invalid;
  resolved = false;
  stats = no_stats;
  error = no_error;
  progress = no_progress;
}

unfoldable pub request_stop : JobHandle → JobHandle
request_stop h = record h { stop_requested = true }

unfoldable pub set_future : Future → JobHandle → JobHandle
set_future future h = record h { future = future }

unfoldable pub publish_progress : ProgressEvent → JobHandle → JobHandle
publish_progress event h = record h { progress = event }

abbrev resolve_without : JobHandle → JobHandle
resolve_without h = record h {
  error = make_error internal (text "JobHandle has no future");
  resolved = true;
}

-- `future_.valid()` and the move into `local`.
abbrev take_future : Future → JobHandle → Option Future × JobHandle
take_future invalid h = (none, resolve_without h)
take_future pending h = (some pending, record h { future = invalid })
take_future (ready r) h = (some (ready r), record h { future = invalid })

-- `wait` up to the end of its first lock: `none` is a return, `some` the future it blocks on.
unfoldable pub wait_begin : JobHandle → Option Future × JobHandle
wait_begin h = if h.resolved then (none, h) else take_future h.future h

-- The rest of `wait`, with the result of the future.
unfoldable pub wait_end : Result JobStats → JobHandle → JobHandle
wait_end (ok stats) h = record h { stats = stats; resolved = true }
wait_end (err error) h = record h { error = error; resolved = true }

-- `resolve_locked`: the result of a future that is ready, without blocking. Nothing calls it.
abbrev resolve_from : Future → JobHandle → JobHandle
resolve_from invalid h = resolve_without h
resolve_from pending h = h
resolve_from (ready r) h = wait_end r (record h { future = invalid })

unfoldable pub resolve_locked : JobHandle → JobHandle
unfolding wait_end
resolve_locked h = if h.resolved then h else resolve_from h.future h

-- The destructor of the public `JobHandle`, which a moved-from handle has no state for.
unfoldable pub drop_handle : Option JobHandle → Option JobHandle
unfolding request_stop
drop_handle none = none
drop_handle (some h) = some (request_stop h)

abbrev is_ready : Future → Bool
is_ready invalid = false
is_ready pending = false
is_ready (ready r) = true

unfoldable pub is_done : JobHandle → Bool
is_done h = if h.resolved then true else is_ready h.future

abbrev after_begin : Result JobStats → Option Future × JobHandle → JobHandle
after_begin r (none, h) = h
after_begin r (some future, h) = wait_end r h

-- A `wait` that nothing comes between; `r` is what the job answers.
unfoldable pub wait : Result JobStats → JobHandle → JobHandle
unfolding wait_begin wait_end
wait r h = after_begin r (wait_begin h)

-- `error()` and `stats()`: the value, after a `wait` if there is none yet.
unfoldable pub error_of : Result JobStats → JobHandle → Error × JobHandle
unfolding wait
error_of r h =
    if h.resolved then (h.error, h) else (let waited = wait r h in (waited.error, waited))

unfoldable pub stats_of : Result JobStats → JobHandle → JobStats × JobHandle
unfolding wait
stats_of r h =
    if h.resolved then (h.stats, h) else (let waited = wait r h in (waited.stats, waited))

-- The handle of a job that was started.
abbrev pub started : JobHandle
started = set_future pending new_job_handle
