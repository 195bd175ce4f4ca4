-- ===== src/Pipeline/GpuJob.antt =====
-- A job with a file on the way to the GPU, when the GPU codec fails on every batch.
use collapsar.Base.{
  ℕ, ◌+◌, ◌<◌, ◌≡◌, refl, ap, sym, subst, true, Bool-cases, inl, inr, some, List, [], ◌∷◌, ◌++◌,
}
use collapsar.Core.Status.{Result, ok, err}
use collapsar.Core.Options.{Level, Format, zip, gzip, zstd, EngineOptions, JobOptions}
use collapsar.Core.Action.{Action, resume, ◌>>=◌, ◌>>◌}
use collapsar.Core.Blocks.{FileEntry, PreparedFile}
use collapsar.Core.Job.{JobRequest}
use collapsar.Codec.Zlib.{Zlib}
use collapsar.Codec.Factory.{
  BatchCodec, CodecBundle, make_codecs, codecs_for, make_gpu_codec, per_stream_bytes, with_gpu,
}
use collapsar.Codec.Device.{Cuda}
use collapsar.Codec.Refused.{RefusesNull}
use collapsar.Codec.NvcompGpu.{Earlier, AlwaysFails, nvcomp_gpu, create-AlwaysFails}
use collapsar.Io.Disk.{Disk}
use collapsar.Io.AsyncReader.{block_count, effective_block_bytes}
use collapsar.Io.FileScanner.{scan}
use collapsar.Pipeline.Router.{gpu, SizeRouter, new_router, route}
use collapsar.Pipeline.Stop.{Stop}
use collapsar.Pipeline.Task.{file_task}
use collapsar.Pipeline.GpuTask.{IsErr, file_task-IsErr}
use collapsar.Pipeline.Writer.{Writer}
use collapsar.Pipeline.Run.{
  Env, World, Drain, enqueue, wait_for, drain_all, submit_files, drain_files, process, run_writer,
  run_codecs, run_entries, run, has_gpu, start_drain,
}

-- A list of tasks of which some fails, or an error.
abbrev SomeFails : List (Result PreparedFile) → Type 0
SomeFails [] = ⊥
SomeFails (ok f ∷ tasks) = SomeFails tasks
SomeFails (err e ∷ tasks) = Unit

abbrev Failing : Result (List (Result PreparedFile)) → Type 0
Failing (ok tasks) = SomeFails tasks
Failing (err e) = Unit

module _ {ℓ} {S A B : Type ℓ} where
  resume-IsErr :
      (k : Action S B) (r : Result A × S) → ((s : S) → IsErr (k s).0) → IsErr (resume (λ _. k) r).0
  resume-IsErr k (ok a, s) fails = fails s
  resume-IsErr k (err e, s) fails = tt

  resume-IsErr_first : (k : Action S B) (r : Result A × S) → IsErr r.0 → IsErr (resume (λ _. k) r).0
  resume-IsErr_first k (ok a, s) h = elim h [ ]
  resume-IsErr_first k (err e, s) h = tt

  seq-IsErr :
      (m : Action S A) (k : Action S B) (s : S) → ((t : S) → IsErr (k t).0) → IsErr ((m >> k) s).0
  unfolding ◌>>◌ ◌>>=◌
  seq-IsErr m k s = resume-IsErr k (m s)

  seq-IsErr_first : (m : Action S A) (k : Action S B) (s : S) → IsErr (m s).0 → IsErr ((m >> k) s).0
  unfolding ◌>>◌ ◌>>=◌
  seq-IsErr_first m k s = resume-IsErr_first k (m s)

enqueue-Failing :
    (task : Result PreparedFile) (rest : Result (List (Result PreparedFile)))
    → IsErr task
    → Failing (enqueue task rest)
enqueue-Failing (ok f) rest h = elim h [ ]
enqueue-Failing (err e) (ok tasks) h = tt
enqueue-Failing (err e) (err e') h = tt

enqueue_behind :
    (task : Result PreparedFile) (rest : Result (List (Result PreparedFile)))
    → Failing rest
    → Failing (enqueue task rest)
enqueue_behind (ok f) (ok tasks) h = h
enqueue_behind (err e) (ok tasks) h = tt
enqueue_behind task (err e) h = tt

drain_files-IsErr :
    (disk : Disk) (router : SizeRouter) (stop : Stop) (i : ℕ) (tasks : List (Result PreparedFile))
    (d : Drain)
    → SomeFails tasks
    → IsErr (drain_files disk router stop i tasks d).0
unfolding drain_files
drain_files-IsErr disk router stop i [] d h = elim h [ ]
drain_files-IsErr disk router stop i (ok f ∷ tasks) d h = elim (Bool-cases (stop.writing i)) [
  | inl now ↦ rw now tt
  | inr later ↦ rw later (
      seq-IsErr (wait_for disk router (ok f)) (drain_files disk router stop (i + 1) tasks) d
        (λ t. drain_files-IsErr disk router stop (i + 1) tasks t h))
]
drain_files-IsErr disk router stop i (err e ∷ tasks) d h = elim (Bool-cases (stop.writing i)) [
  | inl now ↦ rw now tt
  | inr later ↦ rw later (
      seq-IsErr_first (wait_for disk router (err e)) (drain_files disk router stop (i + 1) tasks) d
        tt)
]

drain_all-IsErr :
    (disk : Disk) (router : SizeRouter) (stop : Stop) (tasks : Result (List (Result PreparedFile)))
    (d : Drain)
    → Failing tasks
    → IsErr (drain_all disk router stop tasks d).0
drain_all-IsErr disk router stop (ok tasks) d h = drain_files-IsErr disk router stop 0 tasks d h
drain_all-IsErr disk router stop (err e) d h = tt

module _ (env : Env) (block_bytes : ℕ) (level : Level) (codec : BatchCodec) (router : SizeRouter)
    (entry : FileEntry) (fails : AlwaysFails codec) (to_gpu : route router entry.size_bytes ≡ gpu)
    (some_block : 0 < block_count entry.size_bytes (effective_block_bytes block_bytes)) where
  abbrev on_gpu : CodecBundle
  on_gpu = record { cpu = level; gpu = some codec }

  submit_files-Failing :
      (i : ℕ) (before after : List FileEntry)
      → Failing (submit_files env block_bytes on_gpu router i (before ++ entry ∷ after))
  unfolding submit_files
  submit_files-Failing i [] after = elim (Bool-cases (env.stop.submitting i)) [
    | inl now ↦ rw now tt
    | inr later ↦ rw later (
        enqueue-Failing _ _ (
          subst (λ way. IsErr (file_task env.zlib env.host env.stop block_bytes on_gpu way i entry))
            (sym to_gpu)
            (file_task-IsErr env.zlib env.host env.stop block_bytes i level codec entry fails
              some_block)))
  ]
  submit_files-Failing i (e ∷ before) after = elim (Bool-cases (env.stop.submitting i)) [
    | inl now ↦ rw now tt
    | inr later ↦ rw later (
        enqueue_behind
          (file_task env.zlib env.host env.stop block_bytes on_gpu (route router e.size_bytes) i e)
          (submit_files env block_bytes on_gpu router (i + 1) (before ++ entry ∷ after))
          (submit_files-Failing (i + 1) before after))
  ]

  process-IsErr :
      (before after : List FileEntry) (d : Drain)
      → IsErr (process env block_bytes on_gpu router (before ++ entry ∷ after) d).0
  unfolding process
  process-IsErr before after d = seq-IsErr _ _ d λ begun.
      seq-IsErr_first _ _ begun
        (drain_all-IsErr env.disk router env.stop _ begun (submit_files-Failing 0 before after))

-- Codecs with a GPU codec that always fails, or an error.
abbrev NoneWorks : Result CodecBundle → Type 0
NoneWorks (ok c) = (codec : BatchCodec) × (c.gpu ≡ some codec) × AlwaysFails codec
NoneWorks (err e) = Unit

module _ {D : Type 0} (cuda : Cuda D) (refuses : RefusesNull cuda) (z : Zlib) (earlier : Earlier)
    (d0 : D) (engine : EngineOptions) (gpu_on : engine.enable_gpu ≡ true) where
  with_gpu-NoneWorks :
      (level : Level) (created : Result BatchCodec)
      → ((codec : BatchCodec) → created ≡ ok codec → AlwaysFails codec)
      → NoneWorks (with_gpu level created)
  with_gpu-NoneWorks level (ok codec) each = (codec, refl, each codec refl)
  with_gpu-NoneWorks level (err e) each = tt

  make_gpu_codec-NoneWorks :
      (level : Level) → NoneWorks (make_gpu_codec (nvcomp_gpu cuda z earlier d0) engine level)
  unfolding make_gpu_codec nvcomp_gpu
  make_gpu_codec-NoneWorks level = rw gpu_on (
      with_gpu-NoneWorks level _ (
        create-AlwaysFails cuda z earlier refuses engine.cuda_device engine.gpu_streams
          (per_stream_bytes engine) d0))

  codecs_for-NoneWorks :
      (level : Level) (format : Format)
      → NoneWorks (codecs_for (nvcomp_gpu cuda z earlier d0) engine level format)
  unfolding codecs_for
  codecs_for-NoneWorks level zip = make_gpu_codec-NoneWorks level
  codecs_for-NoneWorks level gzip = make_gpu_codec-NoneWorks level
  codecs_for-NoneWorks level zstd = tt

  make_codecs-NoneWorks :
      (options : JobOptions) → NoneWorks (make_codecs (nvcomp_gpu cuda z earlier d0) engine options)
  unfolding make_codecs
  make_codecs-NoneWorks options = codecs_for-NoneWorks options.level options.format

module _ (env : Env) (req : JobRequest) (before after : List FileEntry) (entry : FileEntry)
    (to_gpu : route (new_router req.options true) entry.size_bytes ≡ gpu)
    (some_block : 0
      < block_count entry.size_bytes (effective_block_bytes req.options.block_bytes)) where
  run_writer-IsErr :
      (codecs : CodecBundle) (codec : BatchCodec) (writer : Result Writer) (world : World)
      → codecs.gpu ≡ some codec
      → AlwaysFails codec
      → IsErr (run_writer env req (before ++ entry ∷ after) codecs writer world).0
  unfolding run_writer has_gpu
  run_writer-IsErr codecs codec (err e) world is fails = tt
  run_writer-IsErr codecs codec (ok writer) world is fails =
      let same : record { cpu = codecs.cpu; gpu = some codec } ≡ codecs =
        ap (λ g. record { cpu = codecs.cpu; gpu = g }) (sym is) in
      subst (λ c. IsErr (run_writer env req (before ++ entry ∷ after) c (ok writer) world).0) same
        (process-IsErr env req.options.block_bytes codecs.cpu codec (new_router req.options true)
          entry fails to_gpu some_block before after (start_drain (before ++ entry ∷ after) writer))

  run_codecs-IsErr :
      (codecs : Result CodecBundle) (world : World)
      → NoneWorks codecs
      → IsErr (run_codecs env req (before ++ entry ∷ after) codecs world).0
  unfolding run_codecs
  run_codecs-IsErr (err e) world h = tt
  run_codecs-IsErr (ok codecs) world (codec, is, fails) =
      run_writer-IsErr codecs codec _ world is fails

module _ (env : Env) (engine : EngineOptions) (req : JobRequest) where
  run_entries-run_codecs :
      (before after : List FileEntry) (entry : FileEntry) (world : World)
      → run_entries env engine req (before ++ entry ∷ after) world
        ≡ run_codecs env req
            (before ++ entry ∷ after)
            (make_codecs env.cuda engine req.options)
            world
  unfolding run_entries
  run_entries-run_codecs [] after entry world = refl
  run_entries-run_codecs (e ∷ before) after entry world = refl

  scanned_fails :
      (r : Result (List FileEntry) × World) (entries : List FileEntry)
      → r.0 ≡ ok entries
      → ((world : World) → IsErr (run_entries env engine req entries world).0)
      → IsErr (resume (run_entries env engine req) r).0
  scanned_fails (ok found, world) entries is fails =
      let same : entries ≡ found = cc in
      subst (λ l. IsErr (run_entries env engine req l world).0) same (fails world)
  scanned_fails (err e, world) entries is fails = cc

-- On a device that refuses a copy of something to a null pointer, with a GPU codec made by create
-- that answers each batch from the state that some earlier batches have left, the pipeline of an
-- engine with the GPU enabled answers an error to every job whose scan succeeds and finds a file
-- that is routed to the GPU and has a block.
pub run-nvcomp_gpu :
    {D : Type 0} (cuda : Cuda D) (z : Zlib) (earlier : Earlier) (d0 : D) (env : Env)
    (engine : EngineOptions) (req : JobRequest) (world : World) (before after : List FileEntry)
    (entry : FileEntry)
    → RefusesNull cuda
    → env.cuda ≡ nvcomp_gpu cuda z earlier d0
    → engine.enable_gpu ≡ true
    → (scan env.fs req.inputs req.options.recurse world.next_id).0 ≡ ok (before ++ entry ∷ after)
    → route (new_router req.options true) entry.size_bytes ≡ gpu
    → 0 < block_count entry.size_bytes (effective_block_bytes req.options.block_bytes)
    → IsErr (run env engine req world).0
unfolding run ◌>>=◌
run-nvcomp_gpu cuda z earlier d0 env engine req world before after entry refuses is gpu_on found
      to_gpu some_block =
    scanned_fails env engine req _ (before ++ entry ∷ after) found (λ w.
      subst (λ r. IsErr r.0) (sym (run_entries-run_codecs env engine req before after entry w))
        (run_codecs-IsErr env req before after entry to_gpu some_block _ w (
          subst (λ g. NoneWorks (make_codecs g engine req.options)) (sym is)
            (make_codecs-NoneWorks cuda refuses z earlier d0 engine gpu_on req.options))))
