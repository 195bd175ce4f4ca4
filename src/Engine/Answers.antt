-- ===== src/Engine/Answers.antt =====
-- What `Engine::run` answers, next to what the pipeline answers.
use collapsar.Base.{◌≡◌, ◌≢◌, ◌⊎◌, inl, inr, refl, ap, ◌∙◌, Bytes, List, [], ◌∷◌}
use collapsar.Core.Status.{code_of, invalid_argument}
use collapsar.Core.Options.{EngineOptions}
use collapsar.Core.Blocks.{FilePath}
use collapsar.Core.Job.{JobRequest}
use collapsar.Codec.Reasons.{BehavesWell}
use collapsar.Pipeline.Run.{Env, World, run}
use collapsar.Pipeline.Reasons.{run_reason}
use collapsar.Engine.Submit.{
  submit_job, run_submitted, engine_run, engine_run-submitted, check_inputs_ok, check_inputs_err,
}

module _ (env : Env) (engine : EngineOptions) (req : JobRequest) (world : World) where
  pub engine_run_some :
      BehavesWell env.cuda
      → req.inputs ≢ []
      → req.output ≢ []
      → engine_run env engine req world ≡ run env engine req world
  unfolding engine_run submit_job
  engine_run_some behaves some_input some_output =
      ap (λ c. run_submitted env engine req c world)
        (check_inputs_ok req.inputs req.output some_input some_output)
      ∙ engine_run-submitted env engine req world (run_reason env behaves engine req world)

  engine_run_empty :
      (req.inputs ≡ []) ⊎ (req.output ≡ [])
      → (code_of (engine_run env engine req world).0 ≡ invalid_argument)
        × ((engine_run env engine req world).1 ≡ world)
  unfolding engine_run submit_job
  engine_run_empty missing =
      let (e, is, code) = check_inputs_err req.inputs req.output missing in
      (
        ap (λ c. code_of (run_submitted env engine req c world).0) is ∙ code,
        ap (λ c. (run_submitted env engine req c world).1) is,
      )

-- Something that the request must name is missing.
abbrev pub IsMissing : JobRequest → Type 0
IsMissing req = (req.inputs ≡ []) ⊎ (req.output ≡ [])

check_request :
    (inputs : List FilePath) (output : Bytes)
    → ((inputs ≢ []) × (output ≢ [])) ⊎ ((inputs ≡ []) ⊎ (output ≡ []))
check_request [] output = inr (inl refl)
check_request (i ∷ inputs) [] = inr (inr refl)
check_request (i ∷ inputs) (c ∷ output) = inl ((λ h. cc), (λ h. cc))

-- If no failure of the GPU codec or of its creation has the code Ok, the engine answers what the
-- pipeline answers and leaves what it leaves when inputs and output are there; when one is missing
-- it answers InvalidArgument, and nothing is touched.
pub engine_run-run :
    (env : Env) (engine : EngineOptions) (req : JobRequest) (world : World)
    → BehavesWell env.cuda
    → ((req.inputs ≢ [])
        × (req.output ≢ [])
        × (engine_run env engine req world ≡ run env engine req world))
      ⊎ (IsMissing req
          × (code_of (engine_run env engine req world).0 ≡ invalid_argument)
          × ((engine_run env engine req world).1 ≡ world))
engine_run-run env engine req world behaves = elim (check_request req.inputs req.output) [
  | inl (inputs, output) ↦
      inl (inputs, output, engine_run_some env engine req world behaves inputs output)
  | inr missing ↦
      let (code, left) = engine_run_empty env engine req world missing in inr (missing, code, left)
]
