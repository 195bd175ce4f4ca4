-- ===== src/Pipeline/TaskReasons.antt =====
-- The errors of a file task.
use collapsar.Base.{ℕ, ◌+◌, refl, Bool, none, some, Option, List, [], ◌∷◌, map, All}
use collapsar.Core.Status.{Result, ok, err}
use collapsar.Core.Try.{◌>>=◌}
use collapsar.Core.Reason.{HasReason, fine, because, if_result}
use collapsar.Core.Options.{Level}
use collapsar.Core.Blocks.{FileEntry, FileBlock, PlainBlock, CompressedBlock}
use collapsar.Codec.Zlib.{Zlib}
use collapsar.Codec.Factory.{BatchCodec, CodecBundle}
use collapsar.Codec.Reasons.{compress_reason, AnswersWell, OptionWell}
use collapsar.Io.AsyncReader.{Host, Slice, read_block}
use collapsar.Io.Reasons.{read_block_reason}
use collapsar.Pipeline.Compress.{
  drain_and_compress, drain_blocks, compress_on_gpu, plain_of, blank_of,
}
use collapsar.Pipeline.Router.{Decision, cpu, gpu}
use collapsar.Pipeline.Stop.{Stop}
use collapsar.Pipeline.Task.{read_tasks, compress_blocks, file_task}

try_reason {ℓ κ} :
    {A : Type ℓ} {B : Type κ} (r : Result A) (k : A → Result B)
    → HasReason r
    → ((a : A) → HasReason (k a))
    → HasReason (r >>= k)
try_reason (ok a) k h each = each a
try_reason (err e) k (because why) each = because why

read_blocks_reason :
    (host : Host) (entry : FileEntry) (stopped : Slice → Bool) (slices : List Slice)
    → All HasReason (map (λ (s : Slice). read_block host entry (stopped s) s) slices)
read_blocks_reason host entry stopped [] = tt
read_blocks_reason host entry stopped (s ∷ slices) =
    (read_block_reason host entry (stopped s) s, read_blocks_reason host entry stopped slices)

drain_and_compress_reason :
    (stopped : ℕ → Bool) (k : ℕ)
    (compress_one : PlainBlock → CompressedBlock → Result CompressedBlock)
    (futures : List (Result FileBlock))
    → ((plain : PlainBlock) (out : CompressedBlock) → HasReason (compress_one plain out))
    → All HasReason futures
    → HasReason (drain_and_compress stopped k compress_one futures)
unfolding drain_and_compress
drain_and_compress_reason stopped k compress_one [] each all = fine
drain_and_compress_reason stopped k compress_one (future ∷ futures) each (h, all) =
    if_result _ _ _ (because refl) (
      try_reason future _ h (λ b.
        try_reason (compress_one (plain_of b) (blank_of b)) _ (each _ _) (λ c.
          try_reason _ _ (drain_and_compress_reason stopped (k + 1) compress_one futures each all)
            (λ _. fine))))

drain_blocks_reason :
    (stopped : ℕ → Bool) (k : ℕ) (futures : List (Result FileBlock))
    → All HasReason futures
    → HasReason (drain_blocks stopped k futures)
unfolding drain_blocks
drain_blocks_reason stopped k [] all = fine
drain_blocks_reason stopped k (future ∷ futures) (h, all) = if_result _ _ _ (because refl) (
    try_reason future _ h
      (λ b. try_reason _ _ (drain_blocks_reason stopped (k + 1) futures all) (λ _. fine)))

compress_on_gpu_reason :
    (stopped : ℕ → Bool) (codec : BatchCodec) (futures : List (Result FileBlock))
    → AnswersWell codec
    → All HasReason futures
    → HasReason (compress_on_gpu stopped codec futures)
unfolding compress_on_gpu
compress_on_gpu_reason stopped codec futures answers all =
    try_reason _ _ (drain_blocks_reason stopped 0 futures all) (λ bs. answers _ _)

module _ (z : Zlib) (stop : Stop) (i : ℕ) where
  on_gpu_reason :
      (level : Level) (codec : Option BatchCodec) (futures : List (Result FileBlock))
      → OptionWell codec
      → All HasReason futures
      → HasReason (compress_blocks z stop i (record { cpu = level; gpu = codec }) gpu futures)
  unfolding compress_blocks
  on_gpu_reason level none futures well all =
      drain_and_compress_reason _ 0 _ futures (compress_reason z level) all
  on_gpu_reason level (some codec) futures well all =
      compress_on_gpu_reason _ codec futures well all

  compress_blocks_reason :
      (codecs : CodecBundle) (way : Decision) (futures : List (Result FileBlock))
      → OptionWell codecs.gpu
      → All HasReason futures
      → HasReason (compress_blocks z stop i codecs way futures)
  unfolding compress_blocks
  compress_blocks_reason codecs cpu futures well all =
      drain_and_compress_reason _ 0 _ futures (compress_reason z codecs.cpu) all
  compress_blocks_reason codecs gpu futures well all =
      on_gpu_reason codecs.cpu codecs.gpu futures well all

pub file_task_reason :
    (z : Zlib) (host : Host) (stop : Stop) (block_bytes i : ℕ) (codecs : CodecBundle)
    (way : Decision) (entry : FileEntry)
    → OptionWell codecs.gpu
    → HasReason (file_task z host stop block_bytes codecs way i entry)
unfolding file_task read_tasks
file_task_reason z host stop block_bytes i codecs way entry well =
    try_reason _ _
      (compress_blocks_reason z stop i codecs way _ well
        (read_blocks_reason host entry (λ s. stop.reading i s.idx) _))
      (λ blocks. fine)
