-- ===== src/Zip/Writes.antt =====
-- Actions of the writer that succeed by appending given bytes, as long as the device has room.
use collapsar.Base.{
  ℕ, ◌+◌, ◌%◌, ◌^◌, ◌≤◌, ◌<◌, ◌≡◌, Bool, true, false, Bytes, List, [], ◌∷◌, ◌++◌, arith,
  if◌then◌else◌, length, append-nil, append_assoc, length-append,
}
use collapsar.Core.Action.{done}
use collapsar.Core.Blocks.{CompressedBlock, payloads}
use collapsar.Io.Stream.{Room, append, write-append}
use collapsar.Io.Sink.{Sink, Writes, Writes-done, Writes-seq}
use collapsar.Zip.Entry.{CentralEntry}
use collapsar.Zip.Writer.{
  ZipWriter, write_bytes, write_local_header, write_blocks, write_central_entry, write_directory,
}
use collapsar.Zip.Directory.{central_record}
use collapsar.Zip.Locate.{local_record}
use collapsar.Zip.Layout.{directory}

-- The writer after the bytes have gone out and have been counted.
abbrev pub advance : Bytes → ZipWriter → ZipWriter
advance bytes w = record w {
  stream = append bytes w.stream;
  bytes_written = (w.bytes_written + length bytes) % 2 ^ 64;
}

-- Room on the device, and a count in the range of its type.
abbrev pub Fits : ℕ → ZipWriter → Type 0
Fits n w = Room n w.stream × (w.bytes_written < 2 ^ 64)

pub advance-nil : (w : ZipWriter) → w.bytes_written < 2 ^ 64 → advance [] w ≡ w
advance-nil w h = λ i. record w {
  stream = record w.stream { contents = append-nil w.stream.contents i };
  bytes_written = counted i;
}
  where
    counted : (w.bytes_written + 0) % 2 ^ 64 ≡ w.bytes_written
    counted = omega arith

pub advance-advance :
    (xs ys : Bytes) (w : ZipWriter) → advance ys (advance xs w) ≡ advance (xs ++ ys) w
advance-advance xs ys w = λ i. record w {
  stream = record w.stream { contents = append_assoc w.stream.contents xs ys i };
  bytes_written = counted i;
}
  where
    counted :
        ((w.bytes_written + length xs) % 2 ^ 64 + length ys) % 2 ^ 64
        ≡ (w.bytes_written + length (xs ++ ys)) % 2 ^ 64
    counted = omega (arith, length-append xs ys)

pub Fits-advance :
    (xs : Bytes) (n : ℕ) (w : ZipWriter) → Fits (length xs + n) w → Fits n (advance xs w)
Fits-advance xs n w ((good, fits), h) =
    ((good, omega (arith, length-append w.stream.contents xs)), omega arith)

pub Fits-mono : (m n : ℕ) (w : ZipWriter) → m ≤ n → Fits n w → Fits m w
Fits-mono m n w h ((good, fits), c) = ((good, omega arith), c)

abbrev pub zip_sink : Sink ZipWriter
zip_sink = record {
  advance = advance;
  Fits = Fits;
  advance-nil = λ w n f. advance-nil w f.1;
  advance-advance = advance-advance;
  Fits-mono = Fits-mono;
  Fits-advance = Fits-advance;
}

pub Writes-write_bytes : (bytes : Bytes) → Writes zip_sink (write_bytes bytes) bytes
unfolding write_bytes
Writes-write_bytes bytes = record { at = λ w f. rw (write-append bytes w.stream f.0, f.0.0) }

pub Writes-write_blocks :
    (blocks : List CompressedBlock) → Writes zip_sink (write_blocks blocks) (payloads blocks)
unfolding write_blocks
Writes-write_blocks [] = Writes-done zip_sink
Writes-write_blocks (b ∷ bs) =
    Writes-seq zip_sink _ _ _ _ (Writes-write_bytes b.bytes) (Writes-write_blocks bs)

Writes-if :
    (b : Bool) (bytes : Bytes)
    → Writes zip_sink (if b then write_bytes bytes else done tt) (if b then bytes else [])
Writes-if true bytes = Writes-write_bytes bytes
Writes-if false bytes = Writes-done zip_sink

ruleset writing = (Writes-write_bytes, Writes-done, Writes-seq, Writes-if)

pub Writes-write_local_header :
    (e : CentralEntry) → Writes zip_sink (write_local_header e) (local_record e)
unfolding write_local_header local_record
Writes-write_local_header e = search writing

pub Writes-write_central_entry :
    (e : CentralEntry) → Writes zip_sink (write_central_entry e) (central_record e)
unfolding write_central_entry central_record
Writes-write_central_entry e = search writing

pub Writes-write_directory :
    (es : List CentralEntry) → Writes zip_sink (write_directory es) (directory es)
unfolding write_directory
Writes-write_directory [] = Writes-done zip_sink
Writes-write_directory (e ∷ es) =
    Writes-seq zip_sink _ _ _ _ (Writes-write_central_entry e) (Writes-write_directory es)
