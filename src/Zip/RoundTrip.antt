-- ===== src/Zip/RoundTrip.antt =====
-- The whole run of the writer, and the reader on what it leaves.
use collapsar.Base.{
  ℕ, ◌+◌, ◌%◌, ◌^◌, ◌≤◌, ◌<◌, ◌≡◌, refl, ap, sym, ◌∙◌, Bool, true, false, Bytes, List, [], ◌∷◌,
  ◌++◌, arith, some, length, length-append, All,
}
use collapsar.Core.Status.{ok}
use collapsar.Core.Action.{Action, ◌>>◌, seq_ok}
use collapsar.Core.Blocks.{FilePath, PreparedFile, payloads}
use collapsar.Io.Disk.{Disk, CanOpen, open_stream}
use collapsar.Zip.DosTime.{sanitise_archive_name}
use collapsar.Zip.DosFields.{dos_time-lt}
use collapsar.Zip.Writer.{
  ZipWriter, new_zip_writer, begin, entry_for, write_files, finish, archive_is_zip64,
}
use collapsar.Zip.Reader.{read_archive}
use collapsar.Zip.Headers.{IsEncodable}
use collapsar.Zip.Directory.{IsUniform}
use collapsar.Zip.Locate.{local_record}
use collapsar.Zip.Layout.{
  Item, entries, bodies, directory, IsPlaced, is_zip64, archive, read_archive-archive,
  length-entries, trailer,
}
use collapsar.Zip.Archive.{items_of, filed, seen_zip64-any, write_files_lem}
use collapsar.Zip.Writes.{advance}
use collapsar.Zip.Finish.{end_of, finish_lem}

-- What the pipeline does with a writer: begin, each file in order, finish.
unfoldable pub pack : Disk → List PreparedFile → Action ZipWriter (Unit {0})
pack disk files = begin disk >> (write_files disk files >> finish)

-- The writer after `begin`.
abbrev fresh : Disk → FilePath → Bool → ZipWriter
fresh disk output overwrite = record {
  output = output;
  overwrite = overwrite;
  stream = open_stream disk output;
  central = [];
  bytes_written = 0;
  needs_zip64 = false;
}

begin-fresh :
    (disk : Disk) (output : FilePath) (overwrite : Bool)
    → CanOpen disk output overwrite
    → begin disk (new_zip_writer output overwrite) ≡ (ok tt, fresh disk output overwrite)
unfolding begin new_zip_writer open_stream
begin-fresh disk output overwrite (new, opens) = rw (new, opens)

module _ (items : List Item) (disk : Disk) (output : FilePath) (overwrite : Bool) where
  abbrev packed : ZipWriter
  packed = filed items (fresh disk output overwrite)

  -- The bodies and what `finish` appends are the archive.
  archive_of_packed : length (bodies items) < 2 ^ 64 → bodies items ++ end_of packed ≡ archive items
  unfolding archive is_zip64
  archive_of_packed small = λ i.
      bodies items
      ++ (directory (entries items)
          ++ trailer
              (archive_is_zip64 (seen_zip64-any (entries items) false i) (length-entries items i)
                (length (directory (entries items))) (offset_is i))
              (length-entries items i) (length (directory (entries items))) (offset_is i))
    where
      offset_is : (0 + length (bodies items)) % 2 ^ 64 ≡ length (bodies items)
      offset_is = omega arith

pub length-archive :
    (items : List Item)
    → length (bodies items) + length (directory (entries items)) ≤ length (archive items)
unfolding archive
length-archive items = omega (
  arith,
  length-append (bodies items) (
      directory (entries items)
      ++ trailer (is_zip64 items) (length items) (length (directory (entries items)))
          (length (bodies items))),
  length-append (directory (entries items)) (
      trailer (is_zip64 items) (length items) (length (directory (entries items)))
        (length (bodies items))),
)

-- The archive of a list of files.
unfoldable pub archive_of : Disk → List PreparedFile → Bytes
archive_of disk files = archive (items_of disk 0 files)

abbrev closed : ZipWriter → ZipWriter
closed w = record w { stream = record w.stream { is_open = false } }

module _ (disk : Disk) (output : FilePath) (overwrite : Bool) (files : List PreparedFile)
    (can : CanOpen disk output overwrite) (room : length (archive_of disk files) ≤ disk.capacity)
    (small : length (archive_of disk files) < 2 ^ 64) (flushes : disk.flushes ≡ true) where
  abbrev items : List Item
  items = items_of disk 0 files

  abbrev last : ZipWriter
  last = packed items disk output overwrite

  small_bodies : length (bodies items) < 2 ^ 64
  unfolding archive_of archive
  small_bodies = omega (arith, length-append (bodies items) _)

  length-last : length (bodies items) + length (end_of last) ≡ length (archive_of disk files)
  unfolding archive_of
  length-last =
      sym (length-append (bodies items) (end_of last))
      ∙ ap length (archive_of_packed items disk output overwrite small_bodies)

  write_files-fresh : write_files disk files (fresh disk output overwrite) ≡ (ok tt, last)
  unfolding open_stream
  write_files-fresh =
      write_files_lem disk files 0 (fresh disk output overwrite) refl
        (can.1, omega (arith, length-last), omega (arith, length-last))

  finish-last : finish last ≡ (ok tt, closed (advance (end_of last) last))
  unfolding open_stream
  finish-last =
      finish_lem last ((can.1, omega (arith, length-last)), omega arith)
        (omega (arith, length-last)) flushes

  pack-last :
      pack disk files (new_zip_writer output overwrite)
      ≡ (ok tt, closed (advance (end_of last) last))
  unfolding pack
  pack-last =
      seq_ok (begin disk) (write_files disk files >> finish) (new_zip_writer output overwrite)
        (begin-fresh disk output overwrite can)
      ∙ seq_ok (write_files disk files) finish (fresh disk output overwrite) write_files-fresh
      ∙ finish-last

  -- A ZIP writer whose output may be opened, on a device that flushes and has room for the
  -- archive, which is below 2^64 bytes, succeeds on all its files, and leaves exactly the archive
  -- of the files in a closed output.
  pub pack-archive_of :
      let (result, w) = pack disk files (new_zip_writer output overwrite) in
      (result ≡ ok tt) × (w.stream.contents ≡ archive_of disk files) × (w.stream.is_open ≡ false)
  unfolding open_stream archive_of
  pack-archive_of =
      rw pack-last (refl, archive_of_packed items disk output overwrite small_bodies, refl)

-- What `assemble` makes of a file: values in the range of their types, the compressed size that of
-- the blocks, and a name that the 16-bit length field can hold.
pub record IsPrepared (f : PreparedFile) : Type 0 where
  pub crc32_fits : f.file_crc32 < 2 ^ 32
  pub uncompressed_fits : f.uncompressed < 2 ^ 64
  pub compressed_is : f.compressed ≡ length (payloads f.blocks)
  pub name_fits : length (sanitise_archive_name f.entry.archive_path) < 2 ^ 16

entry_for-IsEncodable :
    (disk : Disk) (f : PreparedFile) (offset : ℕ)
    → IsPrepared f
    → offset < 2 ^ 64
    → length (payloads f.blocks) < 2 ^ 64
    → IsEncodable (entry_for disk f offset)
unfolding entry_for
entry_for-IsEncodable disk f offset p ho hc =
    let stamp = dos_time-lt (disk.localtime f.entry.mtime) in
    record {
      name_fits = p.name_fits;
      method_fits = omega arith;
      crc32_fits = p.crc32_fits;
      compressed_fits = omega (arith, p.compressed_is);
      uncompressed_fits = p.uncompressed_fits;
      lfh_offset_fits = ho;
      mod_time_fits = stamp.0;
      mod_date_fits = stamp.1;
    }

items_of-IsPlaced :
    (disk : Disk) (files : List PreparedFile) (offset : ℕ)
    → All IsPrepared files
    → All IsUniform (entries (items_of disk offset files))
    → offset + length (bodies (items_of disk offset files)) < 2 ^ 64
    → IsPlaced offset (items_of disk offset files)
items_of-IsPlaced disk [] offset p u small = tt
items_of-IsPlaced disk (f ∷ fs) offset (p, ps) (u, us) small =
    let e = entry_for disk f offset in
    let stored = payloads f.blocks in
    let next = offset + length (local_record e) + length stored in
    let items = items_of disk next fs in
    let one = length-append (local_record e) (stored ++ bodies items) in
    let two = length-append stored (bodies items) in
    (
      (
        unfold entry_for in refl,
        unfold entry_for in p.compressed_is,
        entry_for-IsEncodable disk f offset p (omega arith) (omega (arith, one, two)),
        u,
      ),
      items_of-IsPlaced disk fs next ps us (omega (arith, one, two)),
    )

-- The archive of prepared files (CRC and sizes in range, the compressed size that of the blocks, a
-- name below 2^16 bytes), together below 2^64 bytes, each entry of which has all or none of its
-- sizes and offset at or above 0xFFFFFFFF, is read back by an independent reader of the ZIP
-- format: every file in order, with its name, sizes, CRC, time stamp and stored bytes.
pub read_archive-archive_of :
    (disk : Disk) (files : List PreparedFile)
    → All IsPrepared files
    → All IsUniform (entries (items_of disk 0 files))
    → length (archive_of disk files) < 2 ^ 64
    → read_archive (archive_of disk files) ≡ some (items_of disk 0 files)
unfolding archive_of
read_archive-archive_of disk files p u small =
    let items = items_of disk 0 files in
    let one = length-archive items in
    read_archive-archive items (items_of-IsPlaced disk files 0 p u (omega (arith, one)))
      (omega (arith, one))
