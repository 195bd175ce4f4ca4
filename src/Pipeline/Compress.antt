-- ===== src/Pipeline/Compress.antt =====
-- The two ways of pipeline.cpp from the read blocks of a file to its compressed blocks.
use collapsar.Base.{ℕ, ◌+◌, Bool, List, [], ◌∷◌, map, text, if◌then◌else◌, take}
use collapsar.Core.Status.{Result, ok, err, make_error, cancelled}
use collapsar.Core.Try.{◌>>=◌}
use collapsar.Core.Blocks.{FileBlock, PlainBlock, CompressedBlock}
use collapsar.Codec.Factory.{BatchCodec}

-- The `PlainBlock` of a read block: a span over its used bytes.
unfoldable pub plain_of : FileBlock → PlainBlock
plain_of b = record {
  file_id = b.file_id;
  block_index = b.block_index;
  is_last = b.is_last;
  logical_offset = b.logical_offset;
  source = take b.used_bytes b.payload;
}

-- The `CompressedBlock` that a codec is to fill in.
unfoldable pub blank_of : FileBlock → CompressedBlock
blank_of b = record {
  file_id = b.file_id;
  block_index = b.block_index;
  is_last = b.is_last;
  logical_offset = b.logical_offset;
  bytes = [];
  crc32 = 0;
  uncompressed = 0;
}

-- `drain_and_compress`, from the future `k` on.
unfoldable pub drain_and_compress :
    (ℕ → Bool)
    → ℕ
    → (PlainBlock → CompressedBlock → Result CompressedBlock)
    → List (Result FileBlock)
    → Result (List CompressedBlock)
unfolding plain_of blank_of
drain_and_compress stopped k compress_one [] = ok []
drain_and_compress stopped k compress_one (future ∷ futures) =
    let rest = drain_and_compress stopped (k + 1) compress_one futures in
    if stopped k then err (make_error cancelled (text "compression cancelled")) else (do
      block ← future
      compressed ← compress_one (plain_of block) (blank_of block)
      blocks ← rest
      ok (compressed ∷ blocks))

-- The loop of the GPU path that collects every block.
unfoldable pub drain_blocks : (ℕ → Bool) → ℕ → List (Result FileBlock) → Result (List FileBlock)
drain_blocks stopped k [] = ok []
drain_blocks stopped k (future ∷ futures) =
    let rest = drain_blocks stopped (k + 1) futures in
    if stopped k
    then err (make_error cancelled (text "gpu job cancelled"))
    else (do block ← future; blocks ← rest; ok (block ∷ blocks))

-- The GPU path: all blocks of the file in one batch.
unfoldable pub compress_on_gpu :
    (ℕ → Bool) → BatchCodec → List (Result FileBlock) → Result (List CompressedBlock)
unfolding drain_blocks plain_of blank_of
compress_on_gpu stopped codec futures = do
  drained ← drain_blocks stopped 0 futures
  codec (map plain_of drained) (map blank_of drained)
