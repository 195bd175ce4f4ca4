-- ===== src/Pipeline/GpuTask.antt =====
-- The task of a file on the way to the GPU, when the GPU codec fails on every batch.
use collapsar.Base.{
  ℕ, zero, suc, ◌+◌, ◌<◌, sym, subst, Bool, Bool-cases, inl, inr, some, List, [], ◌∷◌, map,
}
use collapsar.Core.Status.{Result, ok, err}
use collapsar.Core.Options.{Level}
use collapsar.Core.Try.{◌>>=◌}
use collapsar.Core.Blocks.{FileEntry, FileBlock}
use collapsar.Codec.Zlib.{Zlib}
use collapsar.Codec.Factory.{BatchCodec}
use collapsar.Codec.NvcompGpu.{AlwaysFails}
use collapsar.Io.AsyncReader.{
  Host, Slice, block_count, effective_block_bytes, submit, slices_from, read_block,
}
use collapsar.Pipeline.Compress.{drain_blocks, compress_on_gpu, plain_of, blank_of}
use collapsar.Pipeline.Router.{gpu}
use collapsar.Pipeline.Stop.{Stop}
use collapsar.Pipeline.Task.{read_tasks, compress_blocks, file_task}

abbrev pub IsErr {ℓ} : {A : Type ℓ} → Result A → Type 0
IsErr (ok a) = ⊥
IsErr (err e) = Unit

-- The blocks of a file that has any, or an error.
abbrev SomeOrFails : Result (List FileBlock) → Type 0
SomeOrFails (ok []) = ⊥
SomeOrFails (ok (b ∷ bs)) = Unit
SomeOrFails (err e) = Unit

some_more :
    (r : Result FileBlock) (bs : Result (List FileBlock))
    → SomeOrFails (r >>= (λ b. bs >>= (λ l. ok (b ∷ l))))
some_more (ok b) (ok bs) = tt
some_more (ok b) (err e) = tt
some_more (err e) bs = tt

drain_blocks_lem :
    (stopped : ℕ → Bool) (k : ℕ) (future : Result FileBlock) (futures : List (Result FileBlock))
    → SomeOrFails (drain_blocks stopped k (future ∷ futures))
unfolding drain_blocks
drain_blocks_lem stopped k future futures = elim (Bool-cases (stopped k)) [
  | inl now ↦ rw now tt
  | inr later ↦ rw later (some_more future (drain_blocks stopped (k + 1) futures))
]

batch_fails :
    (codec : BatchCodec) (drained : Result (List FileBlock))
    → AlwaysFails codec
    → SomeOrFails drained
    → IsErr (drained >>= (λ bs. codec (map plain_of bs) (map blank_of bs)))
batch_fails codec (ok []) fails h = elim h [ ]
batch_fails codec (ok (b ∷ bs)) fails h =
    let (e, is) = fails (plain_of b) (map plain_of bs) (map blank_of (b ∷ bs)) in
    subst IsErr (sym is) tt
batch_fails codec (err e) fails h = tt

compress_on_gpu-IsErr :
    (stopped : ℕ → Bool) (codec : BatchCodec) (future : Result FileBlock)
    (futures : List (Result FileBlock))
    → AlwaysFails codec
    → IsErr (compress_on_gpu stopped codec (future ∷ futures))
unfolding compress_on_gpu
compress_on_gpu-IsErr stopped codec future futures fails =
    batch_fails codec _ fails (drain_blocks_lem stopped 0 future futures)

bind-IsErr {ℓ κ} :
    {A : Type ℓ} {B : Type κ} (r : Result A) (k : A → Result B) → IsErr r → IsErr (r >>= k)
bind-IsErr (ok a) k h = elim h [ ]
bind-IsErr (err e) k h = tt

module _ (z : Zlib) (host : Host) (stop : Stop) (block_bytes i : ℕ) (level : Level)
    (codec : BatchCodec) (entry : FileEntry) (fails : AlwaysFails codec) where
  slices-IsErr :
      (count : ℕ)
      → 0 < count
      → IsErr (
          compress_on_gpu (stop.draining i) codec (
            map
              (λ (s : Slice). read_block host entry (stop.reading i s.idx) s)
              (slices_from entry.size_bytes (effective_block_bytes block_bytes) count count 0)))
  unfolding slices_from
  slices-IsErr zero positive = elim positive [ ]
  slices-IsErr (suc n) positive = compress_on_gpu-IsErr (stop.draining i) codec _ _ fails

  -- Whatever is read of it, if any read task there is.
  pub file_task-IsErr :
      0 < block_count entry.size_bytes (effective_block_bytes block_bytes)
      → IsErr
          (file_task z host stop block_bytes (record { cpu = level; gpu = some codec }) gpu i entry)
  unfolding file_task compress_blocks read_tasks submit
  file_task-IsErr positive =
      bind-IsErr _ _
        (slices-IsErr (block_count entry.size_bytes (effective_block_bytes block_bytes)) positive)
