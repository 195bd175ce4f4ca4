-- ===== src/Zip/Writer.antt =====
-- `ZipWriter`: its state and its methods. `bytes_written_` is a `uint64_t` and wraps.
use collapsar.Base.{
  ℕ, ◌+◌, ◌-◌, ◌%◌, ◌^◌, Bool, true, false, not, ◌&&◌, ◌||◌, Bytes, List, [], ◌∷◌, ◌++◌, text, leb,
  if◌then◌else◌, length, replicate,
}
use collapsar.Core.Status.{make_error, invalid_argument, io}
use collapsar.Core.Action.{Action, done, fail, ◌>>◌}
use collapsar.Core.Blocks.{FilePath, CompressedBlock, PreparedFile}
use collapsar.Io.Stream.{Stream, closed_stream, write, flush, close}
use collapsar.Io.Disk.{Disk, open_stream}
use collapsar.Zip.Bytes.{◌▷◌, put16, put32, put64}
use collapsar.Zip.Structures.{
  eocd_signature, zip64_eocd_signature, zip64_eocd_locator_sig, method_deflate, u32_max, u16_max,
  version_zip64,
}
use collapsar.Zip.Entry.{
  CentralEntry, needs_zip64, field32, local_header, local_extra, central_header, central_extra,
}
use collapsar.Zip.DosTime.{dos_time, sanitise_archive_name}

pub record ZipWriter : Type 0 where
  pub output : FilePath
  pub overwrite : Bool
  pub stream : Stream
  pub central : List CentralEntry
  pub bytes_written : ℕ
  pub needs_zip64 : Bool

unfoldable pub new_zip_writer : FilePath → Bool → ZipWriter
new_zip_writer output overwrite = record {
  output = output;
  overwrite = overwrite;
  stream = closed_stream;
  central = [];
  bytes_written = 0;
  needs_zip64 = false;
}

unfoldable pub begin : Disk → Action ZipWriter (Unit {0})
begin disk w =
    if disk.exists w.output && not w.overwrite
    then fail
        (make_error invalid_argument
          (text "Output already exists (pass overwrite=true to replace): " ++ w.output))
        w
    else let opened = record w { stream = open_stream disk w.output } in
      if opened.stream.good
      then done tt opened
      else fail (make_error io (text "Failed to open output: " ++ w.output)) opened

unfoldable pub write_bytes : Bytes → Action ZipWriter (Unit {0})
write_bytes bytes w =
    let s = write bytes w.stream in
    if s.good
    then done tt
        (record w { stream = s; bytes_written = (w.bytes_written + length bytes) % 2 ^ 64 })
    else fail (make_error io (text "Short write to " ++ w.output)) (record w { stream = s })

unfoldable pub write_local_header : CentralEntry → Action ZipWriter (Unit {0})
write_local_header e = do
  let zip64 = needs_zip64 e
  write_bytes (local_header zip64 e)
  write_bytes e.name
  if zip64 then write_bytes (local_extra e) else done tt

-- The loop over `file.blocks`.
unfoldable pub write_blocks : List CompressedBlock → Action ZipWriter (Unit {0})
write_blocks [] = done tt
write_blocks (b ∷ bs) = do write_bytes b.bytes; write_blocks bs

-- The `CentralEntry` of a file whose local header stands at `lfh_offset`.
unfoldable pub entry_for : Disk → PreparedFile → ℕ → CentralEntry
entry_for disk file lfh_offset =
    let (t, d) = dos_time (disk.localtime file.entry.mtime) in
    record {
      name = sanitise_archive_name file.entry.archive_path;
      method = method_deflate;
      crc32 = file.file_crc32;
      compressed = file.compressed;
      uncompressed = file.uncompressed;
      lfh_offset = lfh_offset;
      mod_time = t;
      mod_date = d;
    }

-- `if (entry.needs_zip64()) needs_zip64_ = true; central_.push_back(std::move(entry));`
unfoldable pub record_entry : CentralEntry → Action ZipWriter (Unit {0})
record_entry e w = done tt (record w {
  needs_zip64 = if needs_zip64 e then true else w.needs_zip64;
  central = w.central ++ e ∷ [];
})

unfoldable pub write_file : Disk → PreparedFile → Action ZipWriter (Unit {0})
write_file disk file w =
    let e = entry_for disk file w.bytes_written in
    (write_local_header e >> (write_blocks file.blocks >> record_entry e)) w

-- The length of the Zip64 extra field in the central directory.
unfoldable pub extra_len : CentralEntry → ℕ
extra_len e = if needs_zip64 e then length (central_extra e) else 0

unfoldable pub write_central_entry : CentralEntry → Action ZipWriter (Unit {0})
write_central_entry e = do
  let zip64 = needs_zip64 e
  write_bytes (central_header zip64 (extra_len e) e)
  write_bytes e.name
  if zip64 then write_bytes (central_extra e) else done tt

-- The loop over `central_`.
unfoldable pub write_directory : List CentralEntry → Action ZipWriter (Unit {0})
write_directory [] = done tt
write_directory (e ∷ es) = do write_central_entry e; write_directory es

-- The Zip64 EOCD record.
unfoldable pub zip64_eocd : ℕ → ℕ → ℕ → Bytes
unfolding put16 put32 put64
zip64_eocd count cd_size cd_offset =
    replicate 56 0
    ▷ put32 0 zip64_eocd_signature
    ▷ put64 4 44
    ▷ put16 12 version_zip64
    ▷ put16 14 version_zip64
    ▷ put32 16 0
    ▷ put32 20 0
    ▷ put64 24 count
    ▷ put64 32 count
    ▷ put64 40 cd_size
    ▷ put64 48 cd_offset

-- The Zip64 EOCD locator.
unfoldable pub zip64_locator : ℕ → Bytes
unfolding put32 put64
zip64_locator z64_eocd_offset =
    replicate 20 0
    ▷ put32 0 zip64_eocd_locator_sig
    ▷ put32 4 0
    ▷ put64 8 z64_eocd_offset
    ▷ put32 16 1

-- The classic EOCD.
unfoldable pub classic_eocd : Bool → ℕ → ℕ → ℕ → Bytes
unfolding put16 put32 field32
classic_eocd zip64 count cd_size cd_offset =
    replicate 22 0
    ▷ put32 0 eocd_signature
    ▷ put16 4 0
    ▷ put16 6 0
    ▷ put16 8 (if zip64 then u16_max else count % 2 ^ 16)
    ▷ put16 10 (if zip64 then u16_max else count % 2 ^ 16)
    ▷ put32 12 (field32 zip64 cd_size)
    ▷ put32 16 (field32 zip64 cd_offset)
    ▷ put16 20 0

unfoldable pub archive_is_zip64 : Bool → ℕ → ℕ → ℕ → Bool
archive_is_zip64 seen count cd_size cd_offset =
    seen || leb u16_max count || leb u32_max cd_size || leb u32_max cd_offset

-- What `write_eocd` writes behind the directory that began at `cd_offset`.
unfoldable pub write_trailer : ℕ → Action ZipWriter (Unit {0})
write_trailer cd_offset w =
    let cd_size = (w.bytes_written + 2 ^ 64 - cd_offset) % 2 ^ 64 in
    let count = length w.central in
    let zip64 = archive_is_zip64 w.needs_zip64 count cd_size cd_offset in
    let zip64_records =
      write_bytes (zip64_eocd count cd_size cd_offset)
      >> write_bytes (zip64_locator ((cd_offset + cd_size) % 2 ^ 64)) in
    ((if zip64 then zip64_records else done tt)
        >> write_bytes (classic_eocd zip64 count cd_size cd_offset))
      w

unfoldable pub write_eocd : Action ZipWriter (Unit {0})
write_eocd w = (write_directory w.central >> write_trailer w.bytes_written) w

-- `stream_.flush(); if (!stream_) …; stream_.close();`
unfoldable pub flush_and_close : Action ZipWriter (Unit {0})
flush_and_close w =
    let s = flush w.stream in
    if s.good
    then done tt (record w { stream = close s })
    else fail (make_error io (text "Failed to flush " ++ w.output)) (record w { stream = s })

unfoldable pub finish : Action ZipWriter (Unit {0})
finish = write_eocd >> flush_and_close

-- The calls of `write_file` that the pipeline makes, one for each file in order.
unfoldable pub write_files : Disk → List PreparedFile → Action ZipWriter (Unit {0})
write_files disk [] = done tt
write_files disk (f ∷ fs) = do write_file disk f; write_files disk fs
