-- ===== src/Bridge/Ordered.antt =====
-- A handle whose destruction waits for the other calls.
use collapsar.Base.{
  ◌≡◌, refl, sym, subst, ◌⊎◌, inl, inr, Bool, true, false, ◌||◌, Option, none, some,
}
use collapsar.Core.Status.{Error, Result, ok, err, no_error}
use collapsar.Core.Job.{JobStats}
use collapsar.Engine.Handle.{invalid, pending, JobHandle, request_stop, wait_begin, wait_end}
use collapsar.Bridge.Threads.{
  PackAt, outside, made, shown, blocked, over, leaving, returned, DestroyAt, not_called, stopping,
  asking, waiting_too, resetting, deleting, gone, CancelAt, no_cancel, copied, Shared, IsQuiet,
}

-- What a caller is told of a job that has answered `r`.
abbrev pub Reports : Result JobStats → Error → JobStats → Type 0
Reports (ok stats) e told = (e ≡ no_error) × (told ≡ stats)
Reports (err reason) e told = e ≡ reason

abbrev pub Answered : Option (Result JobStats) → Error → JobStats → Type 0
Answered none e told = ⊥
Answered (some r) e told = Reports r e told

-- The job and the handle's pointer to it, by where pack is.
abbrev pub JobAt : PackAt → JobHandle → Bool → Option (Result JobStats) → Type 0
JobAt outside h published answer = published ≡ false
JobAt made h published answer =
    (published ≡ false) × (h.resolved ≡ false) × (h.future ≡ pending) × (h.error ≡ no_error)
JobAt shown h published answer =
    (published ≡ true) × (h.resolved ≡ false) × (h.future ≡ pending) × (h.error ≡ no_error)
JobAt blocked h published answer =
    (published ≡ true) × (h.resolved ≡ false) × (h.future ≡ invalid) × (h.error ≡ no_error)
JobAt over h published answer = (published ≡ true) × Answered answer h.error h.stats
JobAt (leaving e stats) h published answer = Answered answer e stats
JobAt (returned e stats) h published answer = (published ≡ false) × Answered answer e stats

-- The other calls, by where destroy is.
abbrev pub HandleAt : DestroyAt → PackAt → CancelAt → Bool → Bool → Type 0
HandleAt not_called p c freed locked = (freed ≡ false) × (locked ≡ false)
HandleAt stopping p c freed locked = ⊥
HandleAt asking p c freed locked = ⊥
HandleAt waiting_too p c freed locked = ⊥
HandleAt _ p c freed locked = IsQuiet p × (c ≡ no_cancel)

-- What every step keeps.
pub record IsOrdered (s : Shared) : Type 0 where
  pub unused : s.misused ≡ false
  pub job_is : JobAt s.pack s.job s.published s.answer
  pub handle_is : HandleAt s.destroy s.pack s.cancel s.freed s.locked

-- Destroy has not begun, or nothing else is under way.
begun_or_not :
    (d : DestroyAt) (p : PackAt) (c : CancelAt) (freed locked : Bool)
    → HandleAt d p c freed locked
    → (d ≡ not_called) ⊎ (IsQuiet p × (c ≡ no_cancel))
begun_or_not not_called p c freed locked h = inl refl
begun_or_not stopping p c freed locked h = elim h [ ]
begun_or_not asking p c freed locked h = elim h [ ]
begun_or_not waiting_too p c freed locked h = elim h [ ]
begun_or_not resetting p c freed locked h = inr h
begun_or_not deleting p c freed locked h = inr h
begun_or_not gone p c freed locked h = inr h

pub IsQuiet-published :
    (p : PackAt) (h : JobHandle) (published : Bool) (answer : Option (Result JobStats))
    → IsQuiet p
    → JobAt p h published answer
    → published ≡ false
IsQuiet-published outside h published answer quiet is = is
IsQuiet-published (returned e stats) h published answer quiet is = is.0
IsQuiet-published made h published answer quiet is = elim quiet [ ]
IsQuiet-published shown h published answer quiet is = elim quiet [ ]
IsQuiet-published blocked h published answer quiet is = elim quiet [ ]
IsQuiet-published over h published answer quiet is = elim quiet [ ]
IsQuiet-published (leaving e stats) h published answer quiet is = elim quiet [ ]

pub JobAt-request_stop :
    (p : PackAt) (h : JobHandle) (published : Bool) (answer : Option (Result JobStats))
    → JobAt p h published answer
    → JobAt p (request_stop h) published answer
unfolding request_stop
JobAt-request_stop outside h published answer is = is
JobAt-request_stop made h published answer is = is
JobAt-request_stop shown h published answer is = is
JobAt-request_stop blocked h published answer is = is
JobAt-request_stop over h published answer is = is
JobAt-request_stop (leaving e stats) h published answer is = is
JobAt-request_stop (returned e stats) h published answer is = is

pub JobAt-some :
    (p : PackAt) (h : JobHandle) (published : Bool) (r : Result JobStats)
    → JobAt p h published none
    → JobAt p h published (some r)
JobAt-some outside h published r is = is
JobAt-some made h published r is = is
JobAt-some shown h published r is = is
JobAt-some blocked h published r is = is
JobAt-some over h published r (_, is) = elim is [ ]
JobAt-some (leaving e stats) h published r is = elim is [ ]
JobAt-some (returned e stats) h published r (_, is) = elim is [ ]

pub wait_begin_pending :
    (h : JobHandle)
    → h.resolved ≡ false
    → h.future ≡ pending
    → wait_begin h ≡ (some pending, record h { future = invalid })
unfolding wait_begin
wait_begin_pending h unresolved is = rw (unresolved, is) refl

pub Reports-wait_end :
    (r : Result JobStats) (h : JobHandle)
    → h.error ≡ no_error
    → Reports r (wait_end r h).error (wait_end r h).stats
unfolding wait_end
Reports-wait_end (ok stats) h is = (is, refl)
Reports-wait_end (err e) h is = refl

module _ (s : Shared) (o : IsOrdered s) where
  pub pack_is : (p : PackAt) → s.pack ≡ p → JobAt p s.job s.published s.answer
  pack_is p is = subst (λ q. JobAt q s.job s.published s.answer) is o.job_is

  pub handle_at : (d : DestroyAt) → s.destroy ≡ d → HandleAt d s.pack s.cancel s.freed s.locked
  handle_at d is = subst (λ e. HandleAt e s.pack s.cancel s.freed s.locked) is o.handle_is

  pub not_called_pack : (p : PackAt) → s.pack ≡ p → ¬ (IsQuiet p) → s.destroy ≡ not_called
  not_called_pack p is busy =
      elim (begun_or_not s.destroy s.pack s.cancel s.freed s.locked o.handle_is) [
        | inl first ↦ first
        | inr (quiet, _) ↦ absurd (busy (subst IsQuiet is quiet))
      ]

  pub not_called_cancel : (some_job : Bool) → s.cancel ≡ copied some_job → s.destroy ≡ not_called
  not_called_cancel some_job is =
      elim (begun_or_not s.destroy s.pack s.cancel s.freed s.locked o.handle_is) [
        | inl first ↦ first
        | inr (_, idle) ↦ cc
      ]

  -- Before destroy nothing else matters to the handle.
  pub goes_on :
      s.destroy ≡ not_called → (p : PackAt) (c : CancelAt) → HandleAt s.destroy p c s.freed s.locked
  goes_on first p c =
      subst (λ d. HandleAt d p c s.freed s.locked) (sym first) (handle_at not_called first)

  pub use_handle_unused : s.destroy ≡ not_called → (s.misused || s.freed) ≡ false
  use_handle_unused first = rw (o.unused, (handle_at not_called first).0) refl
