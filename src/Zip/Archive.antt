-- ===== src/Zip/Archive.antt =====
-- The methods of the writer put together: what a run leaves on the device.
use collapsar.Base.{
  ℕ, ◌+◌, ◌%◌, ◌^◌, ◌≤◌, ◌<◌, ◌≡◌, refl, ap, sym, subst, ◌∙◌, Bool, true, ◌||◌, Bytes, List, [],
  ◌∷◌, ◌++◌, arith, if◌then◌else◌, length, append-nil, append_assoc, length-append,
}
use collapsar.Core.Status.{ok}
use collapsar.Core.Action.{seq_ok}
use collapsar.Core.Blocks.{PreparedFile, payloads}
use collapsar.Io.Sink.{Writes-then}
use collapsar.Io.Disk.{Disk}
use collapsar.Zip.Entry.{CentralEntry, needs_zip64}
use collapsar.Zip.Writer.{
  ZipWriter, write_local_header, write_blocks, entry_for, record_entry, write_file, write_files,
}
use collapsar.Zip.Locate.{local_record}
use collapsar.Zip.Layout.{Item, entries, bodies, any_zip64}
use collapsar.Zip.Writes.{advance, Fits, zip_sink, Writes-write_local_header, Writes-write_blocks}

-- The items of a list of files, the first local header at `offset`.
abbrev pub items_of : Disk → ℕ → List PreparedFile → List Item
items_of disk offset [] = []
items_of disk offset (f ∷ fs) =
    let e = entry_for disk f offset in
    (e, payloads f.blocks)
    ∷ items_of disk (offset + length (local_record e) + length (payloads f.blocks)) fs

-- `needs_zip64_` after the entries.
abbrev pub seen_zip64 : Bool → List CentralEntry → Bool
seen_zip64 seen [] = seen
seen_zip64 seen (e ∷ es) = seen_zip64 (if needs_zip64 e then true else seen) es

-- The writer after the items have gone out.
abbrev pub filed : List Item → ZipWriter → ZipWriter
filed items w = record (advance (bodies items) w) {
  central = w.central ++ entries items;
  needs_zip64 = seen_zip64 w.needs_zip64 (entries items);
}

-- The writer after one file.
abbrev after_file : CentralEntry → Bytes → ZipWriter → ZipWriter
after_file e stored w = record (advance (local_record e ++ stored) w) {
  central = w.central ++ e ∷ [];
  needs_zip64 = if needs_zip64 e then true else w.needs_zip64;
}

abbrev FileWritten : Disk → PreparedFile → ZipWriter → ℕ → Type 0
FileWritten disk f w offset =
    Fits (length (local_record (entry_for disk f offset) ++ payloads f.blocks)) w
    → write_file disk f w ≡ (ok tt, after_file (entry_for disk f offset) (payloads f.blocks) w)

write_file_here :
    (disk : Disk) (f : PreparedFile) (w : ZipWriter) → FileWritten disk f w w.bytes_written
unfolding write_file
write_file_here disk f w fits =
    let e = entry_for disk f w.bytes_written in
    Writes-then zip_sink (write_local_header e) (write_blocks f.blocks) (record_entry e)
      (local_record e) (payloads f.blocks) w (Writes-write_local_header e)
      (Writes-write_blocks f.blocks) fits
    ∙ (unfold record_entry in refl)

-- One file: its local header, its name and its blocks go out, and its entry is recorded.
write_file_at :
    (disk : Disk) (f : PreparedFile) (offset : ℕ) (w : ZipWriter)
    → offset ≡ w.bytes_written
    → FileWritten disk f w offset
write_file_at disk f offset w h = subst (FileWritten disk f w) (sym h) (write_file_here disk f w)

filed-nil : (w : ZipWriter) → w.bytes_written < 2 ^ 64 → w ≡ filed [] w
filed-nil w h = λ i. record w {
  stream = record w.stream { contents = sym (append-nil w.stream.contents) i };
  central = sym (append-nil w.central) i;
  bytes_written = counted i;
}
  where
    counted : w.bytes_written ≡ (w.bytes_written + 0) % 2 ^ 64
    counted = omega arith

-- Room for the files and an unwrapped count.
abbrev pub HasRoom : ℕ → ZipWriter → Type 0
HasRoom n w =
    (w.stream.good ≡ true)
    × (length w.stream.contents + n ≤ w.stream.capacity)
    × (w.bytes_written + n < 2 ^ 64)

filed-cons :
    (e : CentralEntry) (stored : Bytes) (items : List Item) (w : ZipWriter)
    → filed items (after_file e stored w) ≡ filed ((e, stored) ∷ items) w
filed-cons e stored items w = λ i. record w {
  stream = record w.stream { contents = out i };
  central = append_assoc w.central (e ∷ []) (entries items) i;
  bytes_written = counted i;
  needs_zip64 = seen_zip64 w.needs_zip64 (e ∷ entries items);
}
  where
    out :
        (w.stream.contents ++ (local_record e ++ stored)) ++ bodies items
        ≡ w.stream.contents ++ (local_record e ++ (stored ++ bodies items))
    out = simp append_assoc

    counted :
        ((w.bytes_written + length (local_record e ++ stored)) % 2 ^ 64 + length (bodies items))
          % 2 ^ 64
        ≡ (w.bytes_written + length (local_record e ++ (stored ++ bodies items))) % 2 ^ 64
    counted = omega (
      arith,
      length-append (local_record e) stored,
      length-append (local_record e) (stored ++ bodies items),
      length-append stored (bodies items),
    )

-- Files go out one after the other, each entry with the offset of its local header.
pub write_files_lem :
    (disk : Disk) (fs : List PreparedFile) (offset : ℕ) (w : ZipWriter)
    → offset ≡ w.bytes_written
    → HasRoom (length (bodies (items_of disk offset fs))) w
    → write_files disk fs w ≡ (ok tt, filed (items_of disk offset fs) w)
unfolding write_files
write_files_lem disk [] offset w h (good, fits, small) =
    ap (λ v. (ok tt, v)) (filed-nil w (omega arith))
write_files_lem disk (f ∷ fs) offset w h (good, fits, small) =
    let e = entry_for disk f offset in
    let stored = payloads f.blocks in
    let items = items_of disk (offset + length (local_record e) + length stored) fs in
    let one = length-append (local_record e) stored in
    let two = length-append (local_record e) (stored ++ bodies items) in
    let three = length-append stored (bodies items) in
    let four = length-append w.stream.contents (local_record e ++ stored) in
    seq_ok (write_file disk f) (write_files disk fs) w
      (write_file_at disk f offset w h ((good, omega (arith, one, two, three)), omega arith))
    ∙ write_files_lem disk fs (offset + length (local_record e) + length stored)
        (after_file e stored w) (omega (arith, one, two, three))
        (good, omega (arith, one, two, three, four), omega (arith, one, two, three))
    ∙ ap (λ v. (ok tt, v)) (filed-cons e stored items w)

pub seen_zip64-any :
    (es : List CentralEntry) (seen : Bool) → seen_zip64 seen es ≡ seen || any_zip64 es
seen_zip64-any [] seen = ground arith
seen_zip64-any (e ∷ es) seen =
    ground (arith, seen_zip64-any es (if needs_zip64 e then true else seen))
