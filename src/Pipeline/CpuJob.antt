-- ===== src/Pipeline/CpuJob.antt =====
-- The submit loop of a job that runs on the CPU only.
use collapsar.Base.{ℕ, ◌+◌, ◌≡◌, refl, ap, false, Bytes, Option, List, [], ◌∷◌, map, if◌then◌else◌}
use collapsar.Core.Status.{ok}
use collapsar.Core.Blocks.{FileEntry, PreparedFile}
use collapsar.Codec.Zlib.{Zlib, Inflates}
use collapsar.Codec.Factory.{CodecBundle}
use collapsar.Io.AsyncReader.{effective_block_bytes}
use collapsar.Pipeline.Router.{SizeRouter, cpu, route, route_by}
use collapsar.Pipeline.CpuTask.{CpuServes, IsFileOf, file_task_all}
use collapsar.Pipeline.Run.{Env, submit_files}

-- Every file of the job, from position `i` on, can be served, and has the given contents.
abbrev pub AllServe : Env → ℕ → ℕ → List FileEntry → List Bytes → Type 0
AllServe env block_bytes i [] [] = Unit
AllServe env block_bytes i (e ∷ es) (c ∷ cs) =
    CpuServes env.zlib env.host env.stop (effective_block_bytes block_bytes) i e c
    × AllServe env block_bytes (i + 1) es cs
AllServe env block_bytes i _ _ = ⊥

abbrev pub AreFilesOf :
    Zlib
    → (Bytes → Option (Bytes × Bytes))
    → ℕ
    → List FileEntry
    → List Bytes
    → List PreparedFile
    → Type 0
AreFilesOf z inflate b [] [] [] = Unit
AreFilesOf z inflate b (e ∷ es) (c ∷ cs) (f ∷ fs) =
    IsFileOf z inflate b e c f × AreFilesOf z inflate b es cs fs
AreFilesOf z inflate b _ _ _ = ⊥

route_cpu : (r : SizeRouter) (size : ℕ) → r.gpu_available ≡ false → route r size ≡ cpu
unfolding route
route_cpu r size h = ap (λ b. if b then route_by r.algorithm r.threshold size else cpu) h

module _ (env : Env) (block_bytes : ℕ) (codecs : CodecBundle) (router : SizeRouter)
    (no_gpu : router.gpu_available ≡ false) (free : (k : ℕ) → env.stop.submitting k ≡ false)
    (inflate : Bytes → Option (Bytes × Bytes)) (back : Inflates env.zlib inflate) where
  -- Without a GPU and without a cancellation while files are submitted, and with every file served
  -- (zlib follows its laws, the file is there with the size of its entry, the host has memory for
  -- buffers up to the size of a block, nobody cancels its reads or its blocks, and the block size
  -- is at least 1, below 2^32 and in the range of z_off_t, with zlib's bound of every size up to
  -- it below 2^32, at most 2^64 less the length of the file, and such that the file has fewer than
  -- 2^32 blocks), every task of a job succeeds, and the prepared files stand for the inputs in
  -- their order: entry, CRC, length, the length of the stored bytes modulo 2^64, and stored bytes
  -- of which an inflater gives the first block.
  pub submit_files_lem :
      (i : ℕ) (entries : List FileEntry) (contents : List Bytes)
      → AllServe env block_bytes i entries contents
      → (files : List PreparedFile) × (submit_files env block_bytes codecs router i entries
          ≡ ok (map ok files))
        × AreFilesOf env.zlib inflate (effective_block_bytes block_bytes) entries contents files
  unfolding submit_files
  submit_files_lem i [] [] serve = ([], refl, tt)
  submit_files_lem i [] (c ∷ cs) serve = elim serve [ ]
  submit_files_lem i (e ∷ es) [] serve = elim serve [ ]
  submit_files_lem i (e ∷ es) (c ∷ cs) (serves, rest) =
      let (file, task, is) =
        file_task_all env.zlib env.host env.stop block_bytes i e c codecs serves inflate back in
      let (files, tasks, are) = submit_files_lem (i + 1) es cs rest in
      (file ∷ files, rw (free i, tasks, route_cpu router e.size_bytes no_gpu, task), (is, are))
