-- ===== src/Zip/Finish.antt =====
-- `finish`: the directory and the end records.
use collapsar.Base.{
  ℕ, ◌+◌, ◌-◌, ◌%◌, ◌^◌, ◌<◌, ◌≡◌, ap, subst, ◌∙◌, Bool, true, false, Bytes, ◌++◌, arith,
  if◌then◌else◌, length, append_assoc, length-append,
}
use collapsar.Core.Status.{ok}
use collapsar.Core.Action.{Action, done, ◌>>◌, seq_ok}
use collapsar.Io.Sink.{Writes, Writes-seq, Writes-done}
use collapsar.Io.Stream.{flush_same, close}
use collapsar.Zip.Writer.{
  ZipWriter, write_bytes, write_directory, write_trailer, zip64_eocd, zip64_locator, classic_eocd,
  write_eocd, flush_and_close, finish, archive_is_zip64,
}
use collapsar.Zip.Layout.{directory, trailer}
use collapsar.Zip.Writes.{
  advance, Fits, zip_sink, Writes-write_bytes, Writes-write_directory, advance-advance,
}

-- The end records as `write_eocd` writes them, once the sizes are known.
abbrev end_records : Bool → ℕ → ℕ → ℕ → ℕ → Action ZipWriter (Unit {0})
end_records zip64 count cd_size cd_offset z64_offset =
    (if zip64
      then write_bytes (zip64_eocd count cd_size cd_offset)
        >> write_bytes (zip64_locator z64_offset)
      else done tt)
    >> write_bytes (classic_eocd zip64 count cd_size cd_offset)

Writes-end_records :
    (zip64 : Bool) (count cd_size cd_offset : ℕ)
    → Writes zip_sink
        (end_records zip64 count cd_size cd_offset (cd_offset + cd_size))
        (trailer zip64 count cd_size cd_offset)
Writes-end_records true count cd_size cd_offset =
    subst (Writes zip_sink (end_records true count cd_size cd_offset (cd_offset + cd_size)))
      (append_assoc (zip64_eocd count cd_size cd_offset) (zip64_locator (cd_offset + cd_size)) _)
      (Writes-seq zip_sink _ _ _ _
        (Writes-seq zip_sink _ _ _ _ (Writes-write_bytes _) (Writes-write_bytes _))
        (Writes-write_bytes _))
Writes-end_records false count cd_size cd_offset =
    Writes-seq zip_sink _ _ _ _ (Writes-done zip_sink)
      (Writes-write_bytes (classic_eocd false count cd_size cd_offset))

-- The size of the directory is the distance covered since it began.
write_trailer-end_records :
    (cd_offset cd_size : ℕ) (w : ZipWriter)
    → w.bytes_written ≡ cd_offset + cd_size
    → cd_offset + cd_size < 2 ^ 64
    → let count = length w.central in
      write_trailer cd_offset w
      ≡ end_records
          (archive_is_zip64 w.needs_zip64 count cd_size cd_offset)
          count
          cd_size
          cd_offset
          (cd_offset + cd_size)
          w
unfolding write_trailer
write_trailer-end_records cd_offset cd_size w h small = λ i.
    end_records (archive_is_zip64 w.needs_zip64 (length w.central) (size_is i) cd_offset)
      (length w.central) (size_is i) cd_offset (end_is i) w
  where
    size_is : (w.bytes_written + 2 ^ 64 - cd_offset) % 2 ^ 64 ≡ cd_size
    size_is = omega arith

    end_is :
        (cd_offset + (w.bytes_written + 2 ^ 64 - cd_offset) % 2 ^ 64) % 2 ^ 64 ≡ cd_offset + cd_size
    end_is = omega arith

-- The end records that go behind a directory of the recorded entries.
abbrev pub end_of : ZipWriter → Bytes
end_of w =
    let cd_size = length (directory w.central) in
    let count = length w.central in
    directory w.central
    ++ trailer (archive_is_zip64 w.needs_zip64 count cd_size w.bytes_written) count cd_size
        w.bytes_written

-- `write_eocd` appends the directory of the recorded entries and the end records.
write_eocd_lem :
    (w : ZipWriter)
    → Fits (length (end_of w)) w
    → w.bytes_written + length (end_of w) < 2 ^ 64
    → write_eocd w ≡ (ok tt, advance (end_of w) w)
unfolding write_eocd
write_eocd_lem w ((good, fits), h) small =
    let cd_size = length (directory w.central) in
    let count = length w.central in
    let mid = advance (directory w.central) w in
    let tail =
      trailer (archive_is_zip64 w.needs_zip64 count cd_size w.bytes_written) count cd_size
        w.bytes_written in
    let both = length-append (directory w.central) tail in
    let out = length-append w.stream.contents (directory w.central) in
    seq_ok (write_directory w.central) (write_trailer w.bytes_written) w
      ((Writes-write_directory w.central).at w ((good, omega (arith, both)), h))
    ∙ write_trailer-end_records w.bytes_written cd_size mid (omega (arith, both))
        (omega (arith, both))
    ∙ (Writes-end_records _ _ _ _).at mid ((good, omega (arith, both, out)), omega arith)
    ∙ ap (λ v. (ok tt, v)) (advance-advance (directory w.central) tail w)

flush_and_close_lem :
    (w : ZipWriter)
    → w.stream.good ≡ true
    → w.stream.flushes ≡ true
    → flush_and_close w ≡ (ok tt, record w { stream = record w.stream { is_open = false } })
unfolding flush_and_close close
flush_and_close_lem w good flushes = rw (flush_same w.stream good flushes, good)

-- `finish` on a device with room: all goes out, and the stream is closed.
pub finish_lem :
    (w : ZipWriter)
    → Fits (length (end_of w)) w
    → w.bytes_written + length (end_of w) < 2 ^ 64
    → w.stream.flushes ≡ true
    → let v = advance (end_of w) w in
      finish w ≡ (ok tt, record v { stream = record v.stream { is_open = false } })
unfolding finish
finish_lem w f small flushes =
    seq_ok write_eocd flush_and_close w (write_eocd_lem w f small)
    ∙ flush_and_close_lem (advance (end_of w) w) f.0.0 flushes
