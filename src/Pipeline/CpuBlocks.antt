-- ===== src/Pipeline/CpuBlocks.antt =====
-- Reading, compressing and describing the blocks of one file on the CPU path.
use collapsar.Base.{
  ℕ, ◌+◌, ◌^◌, ◌<◌, ◌≤◌, ◌≡◌, refl, ap, sym, ◌∙◌, true, false, some, List, [], ◌∷◌, ◌++◌, map,
  Bytes, arith, ◌==◌, length, take, drop, length-drop, length-take_le, Bool-cases, inl, inr, All,
}
use collapsar.Base.Slices.{take_all}
use collapsar.Core.Status.{ok}
use collapsar.Core.Options.{Level}
use collapsar.Core.Blocks.{FileEntry, FileBlock, CompressedBlock}
use collapsar.Codec.Zlib.{Zlib, CrcLaws, DeflateLaws}
use collapsar.Codec.Crc32.{compute}
use collapsar.Codec.Deflate.{compress}
use collapsar.Codec.Streams.{deflated, compress_lem}
use collapsar.Io.AsyncReader.{Host, Slice, allocate, read_range, read_source, read_block}
use collapsar.Io.Tiling.{pieces, IsInside}
use collapsar.Pipeline.Stop.{Stop}
use collapsar.Pipeline.Compress.{blank_of, plain_of, drain_and_compress}
use collapsar.Pipeline.Checksum.{joined, AreBlocksOf}

-- The bytes that a slice stands for, and the block that reading it gives.
abbrev pub cut : Bytes → Slice → Bytes
cut contents s = take s.bytes (drop s.offset contents)

abbrev pub read_of : FileEntry → Bytes → Slice → FileBlock
read_of entry contents s = record {
  file_id = entry.id;
  block_index = s.idx;
  is_last = s.last;
  logical_offset = s.offset;
  payload = cut contents s;
  used_bytes = s.bytes;
}

length-cut :
    (contents : Bytes) (b : ℕ) (s : Slice)
    → IsInside (length contents) b s
    → length (cut contents s) ≡ s.bytes
length-cut contents b s inside =
    length-take_le s.bytes (drop s.offset contents)
      (omega (arith, inside, length-drop s.offset contents))

pub joined-pieces :
    (contents : Bytes) (ss : List Slice) → joined (map (cut contents) ss) ≡ pieces contents ss
joined-pieces contents [] = refl
joined-pieces contents (s ∷ ss) = ap (◌++◌ (cut contents s)) (joined-pieces contents ss)

-- The host gives the file, and memory for buffers of up to `b` bytes, the size of a block.
pub record Gives (host : Host) (b : ℕ) (entry : FileEntry) (contents : Bytes) : Type 0 where
  pub opens : host.open_file entry.source ≡ some contents
  pub allocates : (n : ℕ) → n ≤ b → host.allocates n ≡ true
  pub sized : entry.size_bytes ≡ length contents

module _ (host : Host) (b : ℕ) (entry : FileEntry) (contents : Bytes)
    (gives : Gives host b entry contents) where
  read_source_lem :
      (s : Slice)
      → IsInside (length contents) b s
      → read_source host entry.source s.offset s.bytes ≡ ok (cut contents s)
  unfolding read_source read_range
  read_source_lem s inside = elim (Bool-cases (s.bytes == 0)) [
    | inl empty ↦ let none_left : s.bytes ≡ 0 = ground arith in rw (empty, none_left)
    | inr some_left ↦
        let full : (length (cut contents s) == s.bytes) ≡ true =
          ground (arith, length-cut contents b s inside) in
        rw (some_left, gives.opens, full)
  ]

  read_block_lem :
      (s : Slice)
      → IsInside (length contents) b s
      → read_block host entry false s ≡ ok (read_of entry contents s)
  unfolding read_block allocate
  read_block_lem s inside = elim (Bool-cases (s.bytes == 0)) [
    | inl empty ↦ rw (empty, read_source_lem s inside)
    | inr some_left ↦
        let fits : s.bytes ≤ b = omega (arith, inside) in
        rw (some_left, gives.allocates s.bytes fits, read_source_lem s inside)
  ]

  -- Reading all slices.
  pub read_all_lem :
      (stop : Stop) (i : ℕ) (ss : List Slice)
      → ((k : ℕ) → stop.reading i k ≡ false)
      → All (IsInside (length contents) b) ss
      → map (λ (s : Slice). read_block host entry (stop.reading i s.idx) s) ss
        ≡ map (λ (s : Slice). ok (read_of entry contents s)) ss
  read_all_lem stop i [] free inside = refl
  read_all_lem stop i (s ∷ ss) free (is, iss) =
      rw (free s.idx, read_block_lem s is, read_all_lem stop i ss free iss)

module _ (z : Zlib) (laws : DeflateLaws z) (level : Level) (entry : FileEntry)
    (contents : Bytes) where
  abbrev pub block_at : Slice → CompressedBlock
  block_at s = deflated z level (cut contents s) (blank_of (read_of entry contents s))

  compress_slice :
      (b : ℕ) (s : Slice)
      → ((n : ℕ) → n ≤ b → z.bound n < 2 ^ 32)
      → b < 2 ^ 32
      → IsInside (length contents) b s
      → compress z level (plain_of (read_of entry contents s)) (blank_of (read_of entry contents s))
        ≡ ok (block_at s)
  unfolding plain_of
  compress_slice b s bounded small inside =
      let read = length-cut contents b s inside in
      let whole = take_all (cut contents s) s.bytes (sym read) in
      let long : length (take s.bytes (cut contents s)) ≡ s.bytes = ap length whole ∙ read in
      compress_lem z level (plain_of (read_of entry contents s))
        (blank_of (read_of entry contents s)) laws (omega (arith, inside, long))
        (bounded _ (omega (arith, inside, long)))
      ∙ ap (λ source. ok (deflated z level source (blank_of (read_of entry contents s)))) whole

  pub drain_lem :
      (stop : Stop) (b i k : ℕ) (ss : List Slice)
      → ((k : ℕ) → stop.draining i k ≡ false)
      → ((n : ℕ) → n ≤ b → z.bound n < 2 ^ 32)
      → b < 2 ^ 32
      → All (IsInside (length contents) b) ss
      → drain_and_compress
          (stop.draining i)
          k
          (compress z level)
          (map (λ (s : Slice). ok (read_of entry contents s)) ss)
        ≡ ok (map block_at ss)
  unfolding drain_and_compress
  drain_lem stop b i k [] free bounded small inside = refl
  drain_lem stop b i k (s ∷ ss) free bounded small (is, iss) = rw (
    free k,
    compress_slice b s bounded small is,
    drain_lem stop b i (k + 1) ss free bounded small iss,
  )

  pub AreBlocksOf_lem :
      (b : ℕ)
      → CrcLaws z
      → b ≤ z.off_max
      → (ss : List Slice) → All (IsInside (length contents) b) ss
      → AreBlocksOf z (map (cut contents) ss) (map block_at ss)
  unfolding compute
  AreBlocksOf_lem b crc off [] inside = tt
  AreBlocksOf_lem b crc off (s ∷ ss) (is, iss) = (
    record {
      crc_is = omega (arith, crc.in_range 0 (cut contents s));
      length_is = refl;
      fits_off = omega (arith, off, is, length-cut contents b s is);
    },
    AreBlocksOf_lem b crc off ss iss,
  )
