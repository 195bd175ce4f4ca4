-- ===== src/Bridge/Safe.antt =====
-- Every interleaving of pack, cancel and destroy in which destroy comes last.
use collapsar.Base.{◌≡◌, refl, sym, subst, Bool, true, false, Option, none, some, if◌then◌else◌}
use collapsar.Core.Status.{Error, Result}
use collapsar.Core.Job.{JobStats}
use collapsar.Engine.Handle.{
  Future, JobHandle, new_job_handle, set_future, request_stop, wait_begin, wait_end,
}
use collapsar.Bridge.Threads.{
  PackAt, outside, made, shown, blocked, over, leaving, returned, not_called, stopping, asking,
  waiting_too, resetting, deleting, no_cancel, copied, Shared, use_handle, pack_from, IsQuiet, Step,
  pack_submits, pack_publishes, pack_waits, pack_wakes, pack_reads, pack_resets, job_answers,
  cancel_copies, cancel_stops, destroy_locks, destroy_stops, destroy_waits, destroy_wakes,
  destroy_resets, destroy_deletes, Reach, start, later,
}
use collapsar.Bridge.Ordered.{
  Reports, Answered, JobAt, IsOrdered, IsQuiet-published, JobAt-request_stop, JobAt-some,
  wait_begin_pending, Reports-wait_end, pack_is, handle_at, not_called_pack, not_called_cancel,
  goes_on, use_handle_unused,
}

module _ (s : Shared) (o : IsOrdered s) where
  after_pack_waits :
      s.pack ≡ shown
      → IsOrdered (record s { job = (wait_begin s.job).1; pack = pack_from (wait_begin s.job).0 })
  after_pack_waits is =
      let (there, unresolved, at, plain) = pack_is s o shown is in
      subst
        (λ (w : Option Future × JobHandle).
          IsOrdered (record s { job = w.1; pack = pack_from w.0 }))
        (sym (wait_begin_pending s.job unresolved at))
        (record {
          unused = o.unused;
          job_is = (there, unresolved, refl, plain);
          handle_is = goes_on s o (not_called_pack s o shown is (λ q. q)) blocked s.cancel;
        })

  after_cancel_stops :
      (some_job : Bool)
      → s.cancel ≡ copied some_job
      → IsOrdered
          (record s { job = if some_job then request_stop s.job else s.job; cancel = no_cancel })
  after_cancel_stops true is = record {
    unused = o.unused;
    job_is = JobAt-request_stop s.pack s.job s.published s.answer o.job_is;
    handle_is = goes_on s o (not_called_cancel s o true is) s.pack no_cancel;
  }
  after_cancel_stops false is = record {
    unused = o.unused;
    job_is = o.job_is;
    handle_is = goes_on s o (not_called_cancel s o false is) s.pack no_cancel;
  }

  after_destroy_locks :
      s.destroy ≡ not_called
      → IsQuiet s.pack
      → s.cancel ≡ no_cancel
      → IsOrdered (record (use_handle s) {
        locked = true;
        destroy = if s.published then stopping else resetting;
      })
  unfolding use_handle
  after_destroy_locks first quiet idle =
      let hidden = IsQuiet-published s.pack s.job s.published s.answer quiet o.job_is in
      record {
        unused = use_handle_unused s o first;
        job_is = o.job_is;
        handle_is = rw hidden (quiet, idle);
      }

  after_destroy_resets :
      s.destroy ≡ resetting
      → IsOrdered (record s { published = false; locked = false; destroy = deleting })
  after_destroy_resets is =
      let (quiet, idle) = handle_at s o resetting is in
      record {
        unused = o.unused;
        job_is =
            subst (λ b. JobAt s.pack s.job b s.answer)
              (IsQuiet-published s.pack s.job s.published s.answer quiet o.job_is) o.job_is;
        handle_is = (quiet, idle);
      }

Step-IsOrdered : (s t : Shared) → Step true s t → IsOrdered s → IsOrdered t
unfolding use_handle set_future new_job_handle
Step-IsOrdered s _ (pack_submits is free) o = record {
  unused = use_handle_unused s o (free refl);
  job_is = (pack_is s o outside is, refl, refl, refl);
  handle_is = goes_on s o (free refl) made s.cancel;
}
Step-IsOrdered s _ (pack_publishes is unlocked) o =
    let first = not_called_pack s o made is (λ q. q) in
    let (_, unresolved, at, plain) = pack_is s o made is in
    record {
      unused = use_handle_unused s o first;
      job_is = (refl, unresolved, at, plain);
      handle_is = goes_on s o first shown s.cancel;
    }
Step-IsOrdered s _ (pack_waits is) o = after_pack_waits s o is
Step-IsOrdered s _ (pack_wakes r is said) o =
    let (there, _, _, plain) = pack_is s o blocked is in
    record {
      unused = o.unused;
      job_is = (
        there,
        subst (λ a. Answered a (wait_end r s.job).error (wait_end r s.job).stats) (sym said)
            (Reports-wait_end r s.job plain),
      );
      handle_is = goes_on s o (not_called_pack s o blocked is (λ q. q)) over s.cancel;
    }
Step-IsOrdered s _ (pack_reads is resolved) o = record {
  unused = o.unused;
  job_is = (pack_is s o over is).1;
  handle_is = goes_on s o (not_called_pack s o over is (λ q. q)) _ s.cancel;
}
Step-IsOrdered s _ (pack_resets e stats is unlocked) o =
    let first = not_called_pack s o (leaving e stats) is (λ q. q) in
    record {
      unused = use_handle_unused s o first;
      job_is = (refl, pack_is s o (leaving e stats) is);
      handle_is = goes_on s o first (returned e stats) s.cancel;
    }
Step-IsOrdered s _ (job_answers r begun none_yet) o = record {
  unused = o.unused;
  job_is =
      JobAt-some s.pack s.job s.published r
        (subst (JobAt s.pack s.job s.published) none_yet o.job_is);
  handle_is = o.handle_is;
}
Step-IsOrdered s _ (cancel_copies is free unlocked) o = record {
  unused = use_handle_unused s o (free refl);
  job_is = o.job_is;
  handle_is = goes_on s o (free refl) s.pack (copied s.published);
}
Step-IsOrdered s _ (cancel_stops some_job is) o = after_cancel_stops s o some_job is
Step-IsOrdered s _ (destroy_locks is quiet unlocked) o =
    after_destroy_locks s o is (quiet refl).0 (quiet refl).1
Step-IsOrdered s _ (destroy_stops is) o = absurd (handle_at s o stopping is)
Step-IsOrdered s _ (destroy_waits is) o = absurd (handle_at s o asking is)
Step-IsOrdered s _ (destroy_wakes r is said) o = absurd (handle_at s o waiting_too is)
Step-IsOrdered s _ (destroy_resets is) o = after_destroy_resets s o is
Step-IsOrdered s _ (destroy_deletes is) o = record {
  unused = o.unused;
  job_is = o.job_is;
  handle_is = handle_at s o deleting is;
}

pub Reach-IsOrdered : (s : Shared) → Reach true s → IsOrdered s
Reach-IsOrdered _ start = record { unused = refl; job_is = refl; handle_is = (refl, refl) }
Reach-IsOrdered _ (later {s} {t} reach step) = Step-IsOrdered s t step (Reach-IsOrdered s reach)

-- What a call of pack that is over has reported.
abbrev pub HasReported : PackAt → Option (Result JobStats) → Type 0
HasReported (returned e stats) a = (r : Result JobStats) × (a ≡ some r) × Reports r e stats
HasReported _ a = Unit

told :
    (a : Option (Result JobStats)) (e : Error) (stats : JobStats)
    → Answered a e stats
    → (r : Result JobStats) × (a ≡ some r) × Reports r e stats
told none e stats h = elim h [ ]
told (some r) e stats h = (r, refl, h)

JobAt-HasReported :
    (p : PackAt) (h : JobHandle) (published : Bool) (a : Option (Result JobStats))
    → JobAt p h published a
    → HasReported p a
JobAt-HasReported (returned e stats) h published a (_, is) = told a e stats is
JobAt-HasReported (leaving e stats) h published a is = tt
JobAt-HasReported outside h published a is = tt
JobAt-HasReported made h published a is = tt
JobAt-HasReported shown h published a is = tt
JobAt-HasReported blocked h published a is = tt
JobAt-HasReported over h published a is = tt

-- In every interleaving of one call of pack, calls of cancel, the job and one call of destroy that
-- begins when no other call is under way or to come, the handle is not used after it is deleted,
-- and what pack has reported, if it is over, is what the job has answered.
pub Reach-reports : (s : Shared) → Reach true s → (s.misused ≡ false) × HasReported s.pack s.answer
Reach-reports s reach =
    let o = Reach-IsOrdered s reach in
    (o.unused, JobAt-HasReported s.pack s.job s.published s.answer o.job_is)
