-- ===== src/Gzip/RoundTrip.antt =====
-- What the gzip writer leaves, and the reader on it.
use collapsar.Base.{
  ℕ, ◌+◌, ◌-◌, ◌%◌, ◌^◌, ◌≤◌, ◌<◌, ◌≡◌, refl, ap, sym, ◌∙◌, Bool, true, false, Bytes, List, [], ◌∷◌,
  ◌++◌, arith, some, le→leb, length, take, drop, append-nil, append_assoc, length-append,
}
use collapsar.Base.Slices.{take-append, drop-append}
use collapsar.Core.Status.{ok}
use collapsar.Core.Action.{Action, done, ◌>>◌, seq_ok}
use collapsar.Core.Blocks.{FilePath, CompressedBlock, PreparedFile, payloads}
use collapsar.Io.Stream.{Room, append, write-append, flush_same, close}
use collapsar.Io.Disk.{Disk, CanOpen, open_stream}
use collapsar.Io.Sink.{Sink, Writes, Writes-done, Writes-seq}
use collapsar.Zip.Headers.{le32_lem}
use collapsar.Gzip.Writer.{
  GzipWriter, new_gzip_writer, begin, write_bytes, write_blocks, header, trailer, write_file,
  finish, write_files, mtime_seconds,
}
use collapsar.Zip.Reader.{field}
use collapsar.Base.Int.{ℤ, pos, negsuc}
use collapsar.Gzip.Reader.{read_member}

abbrev advance : Bytes → GzipWriter → GzipWriter
advance bytes w = record w {
  stream = append bytes w.stream;
  bytes_written = (w.bytes_written + length bytes) % 2 ^ 64;
}

abbrev Fits : ℕ → GzipWriter → Type 0
Fits n w = Room n w.stream × (w.bytes_written < 2 ^ 64)

advance-nil : (w : GzipWriter) (n : ℕ) → Fits n w → advance [] w ≡ w
advance-nil w n f = λ i. record w {
  stream = record w.stream { contents = append-nil w.stream.contents i };
  bytes_written = counted i;
}
  where
    counted : (w.bytes_written + 0) % 2 ^ 64 ≡ w.bytes_written
    counted = omega arith

advance-advance :
    (xs ys : Bytes) (w : GzipWriter) → advance ys (advance xs w) ≡ advance (xs ++ ys) w
advance-advance xs ys w = λ i. record w {
  stream = record w.stream { contents = append_assoc w.stream.contents xs ys i };
  bytes_written = counted i;
}
  where
    counted :
        ((w.bytes_written + length xs) % 2 ^ 64 + length ys) % 2 ^ 64
        ≡ (w.bytes_written + length (xs ++ ys)) % 2 ^ 64
    counted = omega (arith, length-append xs ys)

Fits-mono : (m n : ℕ) (w : GzipWriter) → m ≤ n → Fits n w → Fits m w
Fits-mono m n w h ((good, fits), c) = ((good, omega arith), c)

Fits-advance :
    (xs : Bytes) (n : ℕ) (w : GzipWriter) → Fits (length xs + n) w → Fits n (advance xs w)
Fits-advance xs n w ((good, fits), h) =
    ((good, omega (arith, length-append w.stream.contents xs)), omega arith)

abbrev gzip_sink : Sink GzipWriter
gzip_sink = record {
  advance = advance;
  Fits = Fits;
  advance-nil = advance-nil;
  advance-advance = advance-advance;
  Fits-mono = Fits-mono;
  Fits-advance = Fits-advance;
}

Writes-write_bytes : (bytes : Bytes) → Writes gzip_sink (write_bytes bytes) bytes
unfolding write_bytes
Writes-write_bytes bytes = record { at = λ w f. rw (write-append bytes w.stream f.0, f.0.0) }

Writes-write_blocks :
    (blocks : List CompressedBlock) → Writes gzip_sink (write_blocks blocks) (payloads blocks)
unfolding write_blocks
Writes-write_blocks [] = Writes-done gzip_sink
Writes-write_blocks (b ∷ bs) =
    Writes-seq gzip_sink _ _ _ _ (Writes-write_bytes b.bytes) (Writes-write_blocks bs)

-- The member that holds a file.
unfoldable pub member_of : PreparedFile → Bytes
member_of f = header f ++ (payloads f.blocks ++ trailer f)

write_file_lem :
    (f : PreparedFile) (w : GzipWriter)
    → w.wrote_one ≡ false
    → Fits (length (member_of f)) w
    → write_file f w ≡ (ok tt, record (advance (member_of f) w) { wrote_one = true })
unfolding write_file member_of
write_file_lem f w first fits = rw first (
    (Writes-seq gzip_sink _ _ _ _ (Writes-write_bytes (header f)) (
        Writes-seq gzip_sink _ _ _ _ (Writes-write_blocks f.blocks)
          (Writes-write_bytes (trailer f)))).at
      (record w { wrote_one = true }) fits)

-- What the pipeline does with the writer for one file.
unfoldable pub pack_one : Disk → PreparedFile → Action GzipWriter (Unit {0})
pack_one disk f = begin disk >> (write_files (f ∷ []) >> finish)

length-member_of : (f : PreparedFile) → length (member_of f) ≡ 18 + length (payloads f.blocks)
unfolding member_of header trailer
length-member_of f = omega (arith, length-append (payloads f.blocks) (trailer f))

stored_of :
    (f : PreparedFile)
    → take (length (payloads f.blocks)) (drop 10 (member_of f)) ≡ payloads f.blocks
unfolding member_of header
stored_of f = take-append (payloads f.blocks) (trailer f) _ refl

trailer_of : (f : PreparedFile) → drop (10 + length (payloads f.blocks)) (member_of f) ≡ trailer f
unfolding member_of
trailer_of f =
    ap (drop (10 + length (payloads f.blocks)))
      (sym (append_assoc (header f) (payloads f.blocks) (trailer f)))
    ∙ drop-append (header f ++ payloads f.blocks) (trailer f) _
        (unfold header in omega (arith, length-append (header f) (payloads f.blocks)))

mtime_seconds-lt : (t : ℤ) → mtime_seconds t < 2 ^ 32
unfolding mtime_seconds
mtime_seconds-lt (pos t) = omega arith
mtime_seconds-lt (negsuc t) = omega arith

mtime_of : (f : PreparedFile) → field 4 4 (member_of f) ≡ mtime_seconds f.entry.mtime
unfolding member_of header
mtime_of f = le32_lem (mtime_seconds f.entry.mtime) (mtime_seconds-lt f.entry.mtime)

-- Reading a member back gives the time stamp, the compressed bytes, the CRC and the size modulo
-- 2 ^ 32.
member_of-Member :
    (f : PreparedFile)
    → f.file_crc32 < 2 ^ 32
    → read_member (member_of f)
      ≡ some (record {
        mtime = mtime_seconds f.entry.mtime;
        stored = payloads f.blocks;
        crc32 = f.file_crc32;
        isize = f.uncompressed % 2 ^ 32;
      })
unfolding read_member
member_of-Member f h =
    let n = length (payloads f.blocks) in
    let stored_at : length (member_of f) - 18 ≡ n = omega (arith, length-member_of f) in
    let trailer_at : length (member_of f) - 8 ≡ 10 + n = omega (arith, length-member_of f) in
    rw
      (
        stored_at,
        trailer_at,
        stored_of f,
        trailer_of f,
        mtime_of f,
        le→leb 18 (length (member_of f)) (omega (arith, length-member_of f)),
      )
      (unfold member_of header trailer in
        λ i. some (record {
          mtime = mtime_seconds f.entry.mtime;
          stored = payloads f.blocks;
          crc32 = le32_lem f.file_crc32 h i;
          isize = isize_is i;
        }))
  where
    isize_is : field 4 4 (trailer f) ≡ f.uncompressed % 2 ^ 32
    isize_is = unfold trailer in le32_lem (f.uncompressed % 2 ^ 32) (omega arith)

abbrev started : Disk → FilePath → Bool → GzipWriter
started disk output overwrite = record {
  output = output;
  overwrite = overwrite;
  stream = open_stream disk output;
  bytes_written = 0;
  wrote_one = false;
}

abbrev finished : Disk → FilePath → Bool → PreparedFile → GzipWriter
finished disk output overwrite f =
    let w = advance (member_of f) (started disk output overwrite) in
    record w { stream = record w.stream { is_open = false }; wrote_one = true }

module _ (disk : Disk) (output : FilePath) (overwrite : Bool) (f : PreparedFile)
    (can : CanOpen disk output overwrite) (room : length (member_of f) ≤ disk.capacity)
    (flushes : disk.flushes ≡ true) where
  begin-started :
      begin disk (new_gzip_writer output overwrite) ≡ (ok tt, started disk output overwrite)
  unfolding begin new_gzip_writer open_stream
  begin-started = rw (can.0, can.1)

  abbrev wrote : GzipWriter
  wrote = record (advance (member_of f) (started disk output overwrite)) { wrote_one = true }

  write_files-wrote : write_files (f ∷ []) (started disk output overwrite) ≡ (ok tt, wrote)
  unfolding write_files open_stream
  write_files-wrote =
      seq_ok (write_file f) (done tt) (started disk output overwrite)
        (write_file_lem f (started disk output overwrite) refl ((can.1, omega arith), omega arith))

  finish-finished : finish wrote ≡ (ok tt, finished disk output overwrite f)
  unfolding finish close open_stream
  finish-finished = rw (flush_same wrote.stream can.1 flushes, can.1)

  pack_one-finished :
      pack_one disk f (new_gzip_writer output overwrite) ≡ (ok tt, finished disk output overwrite f)
  unfolding pack_one
  pack_one-finished =
      seq_ok (begin disk) _ (new_gzip_writer output overwrite) begin-started
      ∙ seq_ok (write_files (f ∷ [])) finish (started disk output overwrite) write_files-wrote
      ∙ finish-finished

  -- A gzip run over one file with a CRC below 2^32 succeeds if the output may be opened on a
  -- device that flushes and has room, closes the output, and an independent reader of a gzip
  -- member gives back the time stamp, the stored bytes, the CRC and the size modulo 2^32.
  pub read_member-pack_one :
      f.file_crc32 < 2 ^ 32
      → let (result, w) = pack_one disk f (new_gzip_writer output overwrite) in
        (result ≡ ok tt)
        × (w.stream.is_open ≡ false)
        × (read_member w.stream.contents
            ≡ some (record {
              mtime = mtime_seconds f.entry.mtime;
              stored = payloads f.blocks;
              crc32 = f.file_crc32;
              isize = f.uncompressed % 2 ^ 32;
            }))
  read_member-pack_one h =
      rw pack_one-finished (refl, refl, unfold open_stream in member_of-Member f h)
