-- ===== src/Pipeline/Assemble.antt =====
-- `assemble` of pipeline.cpp. The sums are 64 bits wide.
use collapsar.Base.{ℕ, ◌+◌, ◌%◌, ◌^◌, List, [], ◌∷◌, ◌==◌, if◌then◌else◌, length}
use collapsar.Core.Blocks.{FileEntry, CompressedBlock, PreparedFile}
use collapsar.Codec.Zlib.{Zlib}
use collapsar.Codec.Crc32.{combine}

pub record Totals : Type 0 where
  pub crc : ℕ
  pub uncompressed : ℕ
  pub compressed : ℕ

unfoldable pub stitch : Zlib → Totals → CompressedBlock → Totals
stitch z t b = record {
  crc = if t.uncompressed == 0 then b.crc32 else combine z t.crc b.crc32 b.uncompressed;
  uncompressed = (t.uncompressed + b.uncompressed) % 2 ^ 64;
  compressed = (t.compressed + length b.bytes) % 2 ^ 64;
}

-- The loop over the blocks.
unfoldable pub stitch_all : Zlib → Totals → List CompressedBlock → Totals
unfolding stitch
stitch_all z t [] = t
stitch_all z t (b ∷ bs) = stitch_all z (stitch z t b) bs

unfoldable pub assemble : Zlib → FileEntry → List CompressedBlock → PreparedFile
unfolding stitch_all
assemble z entry blocks =
    let t = stitch_all z (record { crc = 0; uncompressed = 0; compressed = 0 }) blocks in
    record {
      entry = entry;
      blocks = blocks;
      file_crc32 = t.crc;
      uncompressed = t.uncompressed;
      compressed = t.compressed;
    }
