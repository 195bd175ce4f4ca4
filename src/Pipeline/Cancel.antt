-- ===== src/Pipeline/Cancel.antt =====
-- A cancellation while the files are submitted.
use collapsar.Base.{
  ℕ, zero, suc, ◌+◌, ◌<◌, ◌≡◌, subst, true, Bool-cases, inl, inr, List, [], ◌∷◌, arith, length,
  text,
}
use collapsar.Core.Status.{Error, ok, err, make_error, cancelled}
use collapsar.Core.Action.{◌>>◌, ◌>>=◌}
use collapsar.Core.Blocks.{FileEntry}
use collapsar.Codec.Factory.{CodecBundle}
use collapsar.Pipeline.Router.{SizeRouter}
use collapsar.Pipeline.Run.{Env, Drain, begin_output, submit_files, process}

abbrev job_cancelled : Error
job_cancelled = make_error cancelled (text "job cancelled")

module _ (env : Env) (block_bytes : ℕ) (codecs : CodecBundle) (router : SizeRouter) where
  submit_files-cancelled :
      (i k : ℕ) (entries : List FileEntry)
      → k < length entries
      → env.stop.submitting (i + k) ≡ true
      → submit_files env block_bytes codecs router i entries ≡ err job_cancelled
  unfolding submit_files
  submit_files-cancelled i k [] before stops = absurd (omega arith)
  submit_files-cancelled i zero (e ∷ es) before stops =
      rw (subst (λ n. env.stop.submitting n ≡ true) {x = i + 0} {y = i} (omega arith) stops)
  submit_files-cancelled i (suc k) (e ∷ es) before stops =
      elim (Bool-cases (env.stop.submitting i)) [
        | inl now ↦ rw now
        | inr later ↦
            let next =
              subst (λ n. env.stop.submitting n ≡ true) {x = i + suc k} {y = i + 1 + k}
                (omega arith) stops in
            rw (later, submit_files-cancelled (i + 1) k es (omega arith) next)
      ]

  -- If a cancellation is seen before some file is submitted, the job answers Cancelled and leaves
  -- the output as begin made it: no file is written and the output is not finished.
  pub process-cancelled :
      (entries : List FileEntry) (k : ℕ) (d begun : Drain)
      → k < length entries
      → env.stop.submitting k ≡ true
      → begin_output env.disk d ≡ (ok tt, begun)
      → process env block_bytes codecs router entries d ≡ (err job_cancelled, begun)
  unfolding process ◌>>◌ ◌>>=◌
  process-cancelled entries k d begun before stops begins = rw (
    begins,
    submit_files-cancelled 0 k entries before
        (subst (λ n. env.stop.submitting n ≡ true) {x = k} {y = 0 + k} (omega arith) stops),
  )
