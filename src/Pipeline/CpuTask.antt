-- ===== src/Pipeline/CpuTask.antt =====
-- The task of one file on the CPU path, from the file to what the writer is handed.
use collapsar.Base.{
  ℕ, ◌+◌, ◌-◌, ◌/◌, ◌%◌, ◌^◌, ◌<◌, ◌≤◌, ◌≡◌, refl, ap, ◌∙◌, false, Option, some, List, map, Bytes,
  arith, length, take, drop, All, [], ◌∷◌,
}
use collapsar.Core.Status.{ok}
use collapsar.Core.Options.{Level}
use collapsar.Core.Blocks.{FileEntry, CompressedBlock, PreparedFile, payloads}
use collapsar.Codec.Zlib.{Zlib, CrcLaws, DeflateLaws, Inflates}
use collapsar.Codec.Factory.{CodecBundle}
use collapsar.Codec.Streams.{inflate-deflated}
use collapsar.Io.AsyncReader.{Host, Slice, submit, effective_block_bytes, read_block}
use collapsar.Io.Tiling.{submit-first, IsInside, submit-IsInside, pieces-submit}
use collapsar.Pipeline.Router.{cpu}
use collapsar.Pipeline.Stop.{Stop}
use collapsar.Pipeline.Compress.{blank_of}
use collapsar.Pipeline.Assemble.{assemble}
use collapsar.Pipeline.Task.{read_tasks, compress_blocks, file_task}
use collapsar.Pipeline.Checksum.{joined, assemble_lem}
use collapsar.Pipeline.CpuBlocks.{
  Gives, cut, read_of, block_at, joined-pieces, read_all_lem, drain_lem, AreBlocksOf_lem,
}

-- A prepared file that stands for an entry with the given contents. Its stored bytes begin with the
-- stream of its first block.
pub record IsFileOf (z : Zlib) (inflate : Bytes → Option (Bytes × Bytes)) (b : ℕ) (e : FileEntry)
    (contents : Bytes) (f : PreparedFile) : Type 0 where
  pub entry_is : f.entry ≡ e
  pub crc_is : f.file_crc32 ≡ z.crc32_z 0 contents
  pub length_is : f.uncompressed ≡ length contents
  pub compressed_is : f.compressed ≡ length (payloads f.blocks) % 2 ^ 64
  pub first_is : (rest : Bytes) × (inflate (payloads f.blocks) ≡ some (take b contents, rest))

-- What a task on the CPU path needs: zlib that works, a file that is there with the size of its
-- entry, memory for a block, no cancellation, and a block size with which neither the count of the
-- blocks nor zlib's 32-bit sizes nor its `z_off_t` overflow.
pub record CpuServes (z : Zlib) (host : Host) (stop : Stop) (b i : ℕ) (entry : FileEntry)
    (contents : Bytes) : Type 0 where
  pub crc_laws : CrcLaws z
  pub deflate_laws : DeflateLaws z
  pub gives : Gives host b entry contents
  pub not_reading : (k : ℕ) → stop.reading i k ≡ false
  pub not_draining : (k : ℕ) → stop.draining i k ≡ false
  pub bounded : (n : ℕ) → n ≤ b → z.bound n < 2 ^ 32
  pub some_bytes : 0 < b
  pub below : b < 2 ^ 32
  pub fits_off : b ≤ z.off_max
  pub no_overflow : length contents + b ≤ 2 ^ 64
  pub few : (length contents + b - 1) / b < 2 ^ 32

-- One stream for each slice of the contents: where the stream of a block begins, an inflater gives
-- the bytes of its slice and leaves the bytes of the later blocks.
abbrev pub AreStreams :
    (Bytes → Option (Bytes × Bytes)) → Bytes → List Slice → List CompressedBlock → Type 0
AreStreams inflate contents [] [] = Unit
AreStreams inflate contents (s ∷ ss) (b ∷ bs) =
    (inflate (payloads (b ∷ bs)) ≡ some (take s.bytes (drop s.offset contents), payloads bs))
    × AreStreams inflate contents ss bs
AreStreams inflate contents [] (b ∷ bs) = ⊥
AreStreams inflate contents (s ∷ ss) [] = ⊥

block_at-AreStreams :
    (z : Zlib) (laws : DeflateLaws z) (level : Level) (entry : FileEntry) (contents : Bytes)
    (inflate : Bytes → Option (Bytes × Bytes))
    → Inflates z inflate
    → (ss : List Slice)
    → AreStreams inflate contents ss (map (block_at z laws level entry contents) ss)
block_at-AreStreams z laws level entry contents inflate back [] = tt
block_at-AreStreams z laws level entry contents inflate back (s ∷ ss) = (
  inflate-deflated z inflate level (cut contents s) (blank_of (read_of entry contents s))
      (payloads (map (block_at z laws level entry contents) ss)) laws back,
  block_at-AreStreams z laws level entry contents inflate back ss,
)

module _ (z : Zlib) (host : Host) (stop : Stop) (block_bytes i : ℕ) (entry : FileEntry)
    (contents : Bytes) (codecs : CodecBundle)
    (serves : CpuServes z host stop (effective_block_bytes block_bytes) i entry contents) where
  abbrev slices : List Slice
  slices = submit (length contents) (effective_block_bytes block_bytes)

  inside : All (IsInside (length contents) (effective_block_bytes block_bytes)) slices
  inside = submit-IsInside (length contents) _ serves.some_bytes serves.no_overflow serves.few

  abbrev stored : List CompressedBlock
  stored = map (block_at z serves.deflate_laws codecs.cpu entry contents) slices

  read_tasks_lem :
      read_tasks host stop block_bytes i entry
      ≡ map (λ (s : Slice). ok (read_of entry contents s)) slices
  unfolding read_tasks
  read_tasks_lem =
      ap
        (λ n.
          map (λ (s : Slice). read_block host entry (stop.reading i s.idx) s)
            (submit n (effective_block_bytes block_bytes)))
        serves.gives.sized
      ∙ read_all_lem host _ entry contents serves.gives stop i slices serves.not_reading inside

  file_task_blocks :
      file_task z host stop block_bytes codecs cpu i entry ≡ ok (assemble z entry stored)
  unfolding file_task compress_blocks
  file_task_blocks = rw (
    read_tasks_lem,
    drain_lem z serves.deflate_laws codecs.cpu entry contents stop _ i 0 slices serves.not_draining
        serves.bounded serves.below inside,
  )

  whole : joined (map (cut contents) slices) ≡ contents
  whole =
      joined-pieces contents slices
      ∙ pieces-submit contents _ serves.some_bytes serves.no_overflow serves.few

  file_task_sums :
      let file = assemble z entry stored in
      (file.file_crc32 ≡ z.crc32_z 0 contents)
      × (file.uncompressed ≡ length contents)
      × (file.compressed ≡ length (payloads stored) % 2 ^ 64)
  file_task_sums =
      let (crc, size, packed) =
        assemble_lem z entry (map (cut contents) slices) stored serves.crc_laws
          (AreBlocksOf_lem z serves.deflate_laws codecs.cpu entry contents _ serves.crc_laws
            serves.fits_off slices inside)
          (omega (arith, ap length whole, serves.no_overflow, serves.some_bytes)) in
      (crc ∙ ap (z.crc32_z 0) whole, size ∙ ap length whole, packed)

  -- The first of the stored blocks is the stream of the first block of the file.
  first_stream :
      (inflate : Bytes → Option (Bytes × Bytes))
      → Inflates z inflate
      → (first : CompressedBlock) × (later : List CompressedBlock) × (stored ≡ first ∷ later)
        × (inflate (payloads stored)
            ≡ some (take (effective_block_bytes block_bytes) contents, payloads later))
  first_stream inflate back =
      let (s, ss, split, first) =
        submit-first contents (effective_block_bytes block_bytes) serves.some_bytes
          serves.no_overflow serves.few in
      let later = map (block_at z serves.deflate_laws codecs.cpu entry contents) ss in
      let cut_off = ap (map (block_at z serves.deflate_laws codecs.cpu entry contents)) split in
      (
        block_at z serves.deflate_laws codecs.cpu entry contents s,
        later,
        cut_off,
        ap (λ all. inflate (payloads all)) cut_off
            ∙ inflate-deflated z inflate codecs.cpu (cut contents s)
                (blank_of (read_of entry contents s)) (payloads later) serves.deflate_laws back
            ∙ ap (λ source. some (source, payloads later)) first,
      )

  pub file_task_all :
      (inflate : Bytes → Option (Bytes × Bytes))
      → Inflates z inflate
      → (file : PreparedFile) × (file_task z host stop block_bytes codecs cpu i entry ≡ ok file)
        × IsFileOf z inflate (effective_block_bytes block_bytes) entry contents file
  unfolding assemble
  file_task_all inflate back =
      let (crc, size, packed) = file_task_sums in
      (
        assemble z entry stored,
        file_task_blocks,
        record {
          entry_is = refl;
          crc_is = crc;
          length_is = size;
          compressed_is = packed;
          first_is =
              let (first, later, split, gives) = first_stream inflate back in
              (payloads later, gives);
        },
      )

  -- A file task on the CPU path succeeds if the file is served (zlib follows its laws, the file is
  -- there with the size of its entry, the host has memory for buffers up to the size of a block,
  -- nobody cancels its reads or its blocks, and the block size is at least 1, below 2^32 and in
  -- the range of z_off_t, with zlib's bound of every size up to it below 2^32, at most 2^64 less
  -- the length of the file, and such that the file has fewer than 2^32 blocks), and what it hands
  -- to the writer is for this entry and has the CRC and the length of the whole file, and the
  -- length of its stored bytes modulo 2^64.
  pub file_task_lem :
      (file : PreparedFile) × (file_task z host stop block_bytes codecs cpu i entry ≡ ok file)
      × (file.entry ≡ entry)
      × (file.file_crc32 ≡ z.crc32_z 0 contents)
      × (file.uncompressed ≡ length contents)
      × (file.compressed ≡ length (payloads file.blocks) % 2 ^ 64)
  unfolding assemble
  file_task_lem =
      let (crc, size, packed) = file_task_sums in
      (assemble z entry stored, file_task_blocks, refl, crc, size, packed)

  -- A file task on the CPU path of a file that is served (zlib follows its laws, the file is there
  -- with the size of its entry, the host has memory for buffers up to the size of a block, nobody
  -- cancels its reads or its blocks, and the block size is at least 1, below 2^32 and in the range
  -- of z_off_t, with zlib's bound of every size up to it below 2^32, at most 2^64 less the length
  -- of the file, and such that the file has fewer than 2^32 blocks) succeeds with one deflate
  -- stream for each of the slices that are read: an inflater that stops at the end of a stream,
  -- begun where the bytes of a block begin, gives the bytes of its slice and leaves the bytes of
  -- the later blocks. So from the beginning it gives the first block of the file and leaves all
  -- stored blocks but the first.
  pub inflate-file_task :
      (inflate : Bytes → Option (Bytes × Bytes))
      → Inflates z inflate
      → (file : PreparedFile) × (file_task z host stop block_bytes codecs cpu i entry ≡ ok file)
        × AreStreams inflate contents
            (submit (length contents) (effective_block_bytes block_bytes))
            file.blocks
        × ((first : CompressedBlock) × (later : List CompressedBlock) × (file.blocks
              ≡ first ∷ later)
            × (inflate (payloads file.blocks)
                ≡ some (take (effective_block_bytes block_bytes) contents, payloads later)))
  unfolding assemble
  inflate-file_task inflate back = (
    assemble z entry stored,
    file_task_blocks,
    block_at-AreStreams z serves.deflate_laws codecs.cpu entry contents inflate back slices,
    first_stream inflate back,
  )
