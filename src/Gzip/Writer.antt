-- ===== src/Gzip/Writer.antt =====
-- `GzipWriter`: its state and its methods. `bytes_written_` is a `uint64_t` and wraps.
use collapsar.Base.{
  ℕ, ◌+◌, ◌%◌, ◌^◌, Bool, true, false, not, ◌&&◌, Bytes, List, [], ◌∷◌, ◌++◌, text, if◌then◌else◌,
  length, replicate,
}
use collapsar.Base.Int.{ℤ, pos, negsuc}
use collapsar.Core.Status.{make_error, invalid_argument, io, format_error}
use collapsar.Core.Action.{Action, done, fail, ◌>>◌}
use collapsar.Core.Blocks.{FilePath, CompressedBlock, PreparedFile}
use collapsar.Io.Stream.{Stream, closed_stream, write, flush, close}
use collapsar.Io.Disk.{Disk, open_stream}
use collapsar.Zip.Bytes.{◌▷◌, put32}

pub record GzipWriter : Type 0 where
  pub output : FilePath
  pub overwrite : Bool
  pub stream : Stream
  pub bytes_written : ℕ
  pub wrote_one : Bool

unfoldable pub new_gzip_writer : FilePath → Bool → GzipWriter
new_gzip_writer output overwrite = record {
  output = output;
  overwrite = overwrite;
  stream = closed_stream;
  bytes_written = 0;
  wrote_one = false;
}

-- `static_cast<std::uint32_t>(t < 0 ? 0 : t)`.
unfoldable pub mtime_seconds : ℤ → ℕ
mtime_seconds (pos t) = t % 2 ^ 32
mtime_seconds (negsuc t) = 0

unfoldable pub begin : Disk → Action GzipWriter (Unit {0})
begin disk w =
    if disk.exists w.output && not w.overwrite
    then fail (make_error invalid_argument (text "Output already exists: " ++ w.output)) w
    else let opened = record w { stream = open_stream disk w.output } in
      if opened.stream.good
      then done tt opened
      else fail (make_error io (text "Failed to open output: " ++ w.output)) opened

unfoldable pub write_bytes : Bytes → Action GzipWriter (Unit {0})
write_bytes bytes w =
    let s = write bytes w.stream in
    if s.good
    then done tt
        (record w { stream = s; bytes_written = (w.bytes_written + length bytes) % 2 ^ 64 })
    else fail (make_error io (text "Short write")) (record w { stream = s })

-- The loop over `file.blocks`.
unfoldable pub write_blocks : List CompressedBlock → Action GzipWriter (Unit {0})
write_blocks [] = done tt
write_blocks (b ∷ bs) = do write_bytes b.bytes; write_blocks bs

-- The 10-byte header of RFC 1952; `put32_le` stores as the ZIP writer's `put32` does.
unfoldable pub header : PreparedFile → Bytes
unfolding put32 mtime_seconds
header file =
    (0x1f ∷ 0x8b ∷ 0x08 ∷ 0x00 ∷ 0 ∷ 0 ∷ 0 ∷ 0 ∷ 0x00 ∷ 0xff ∷ [])
    ▷ put32 4 (mtime_seconds file.entry.mtime)

unfoldable pub trailer : PreparedFile → Bytes
unfolding put32
trailer file = replicate 8 0 ▷ put32 0 file.file_crc32 ▷ put32 4 (file.uncompressed % 2 ^ 32)

unfoldable pub write_file : PreparedFile → Action GzipWriter (Unit {0})
write_file file w =
    if w.wrote_one
    then fail
        (make_error format_error
          (text "Gzip is a single-stream format; combine inputs into a tar first"))
        w
    else (write_bytes (header file) >> (write_blocks file.blocks >> write_bytes (trailer file)))
        (record w { wrote_one = true })

unfoldable pub finish : Action GzipWriter (Unit {0})
finish w =
    let s = flush w.stream in
    if s.good
    then done tt (record w { stream = close s })
    else fail (make_error io (text "Failed to flush " ++ w.output)) (record w { stream = s })

-- The calls of `write_file` that the pipeline makes, one for each file in order.
unfoldable pub write_files : List PreparedFile → Action GzipWriter (Unit {0})
write_files [] = done tt
write_files (f ∷ fs) = do write_file f; write_files fs
