-- ===== src/Pipeline/EndToEnd.antt =====
-- A whole job on the CPU, from the contents of its files to what a reader finds in the archive.
use collapsar.Base.{
  ℕ, ◌+◌, ◌%◌, ◌^◌, ◌<◌, ◌≤◌, ◌≡◌, refl, ap, ◌∙◌, sym, subst, true, false, inl, Bool, Bytes, Option,
  some, List, [], ◌∷◌, ◌++◌, map, arith, length, length-append, take, All,
}
use collapsar.Core.Status.{ok}
use collapsar.Core.Blocks.{FilePath, FileEntry, PreparedFile, payloads}
use collapsar.Core.Job.{JobStats}
use collapsar.Codec.Zlib.{Zlib, Inflates}
use collapsar.Codec.Factory.{CodecBundle}
use collapsar.Io.AsyncReader.{effective_block_bytes}
use collapsar.Io.Disk.{Disk, CanOpen}
use collapsar.Zip.DosTime.{sanitise_archive_name}
use collapsar.Zip.Structures.{u32_max}
use collapsar.Zip.Writer.{ZipWriter, new_zip_writer, entry_for}
use collapsar.Zip.Reader.{read_archive}
use collapsar.Zip.Directory.{IsUniform}
use collapsar.Zip.Locate.{local_record}
use collapsar.Zip.Layout.{Item, bodies}
use collapsar.Zip.Layout as Layout
use collapsar.Zip.Archive.{items_of}
use collapsar.Zip.RoundTrip.{archive_of, IsPrepared, length-archive, read_archive-archive_of}
use collapsar.Pipeline.Router.{SizeRouter}
use collapsar.Pipeline.Writer.{zip_writer}
use collapsar.Pipeline.Run.{Env, Drain, submit_files, process, start_drain}
use collapsar.Pipeline.CpuTask.{IsFileOf}
use collapsar.Pipeline.CpuJob.{AllServe, AreFilesOf, submit_files_lem}
use collapsar.Pipeline.ZipRun.{process-archive_of}

-- What a reader finds of one file: its name, CRC and length, and stored bytes of which an inflater makes
-- the first block.
pub record IsRestored (z : Zlib) (inflate : Bytes → Option (Bytes × Bytes)) (b : ℕ) (e : FileEntry)
    (contents : Bytes) (item : Item) : Type 0 where
  pub name_is : item.0.name ≡ sanitise_archive_name e.archive_path
  pub crc_is : item.0.crc32 ≡ z.crc32_z 0 contents
  pub length_is : item.0.uncompressed ≡ length contents
  pub stored_is : item.0.compressed ≡ length item.1
  pub first_is : (rest : Bytes) × (inflate item.1 ≡ some (take b contents, rest))

abbrev pub AreRestored :
    Zlib → (Bytes → Option (Bytes × Bytes)) → ℕ → List FileEntry → List Bytes → List Item → Type 0
AreRestored z inflate b [] [] [] = Unit
AreRestored z inflate b (e ∷ es) (c ∷ cs) (item ∷ items) =
    IsRestored z inflate b e c item × AreRestored z inflate b es cs items
AreRestored z inflate b _ _ _ = ⊥

-- A file that a 32-bit archive can hold.
pub record IsSmall (e : FileEntry) (contents : Bytes) : Type 0 where
  pub name_fits : length (sanitise_archive_name e.archive_path) < 2 ^ 16
  pub length_fits : length contents < u32_max

abbrev pub AreSmall : List FileEntry → List Bytes → Type 0
AreSmall [] [] = Unit
AreSmall (e ∷ es) (c ∷ cs) = IsSmall e c × AreSmall es cs
AreSmall _ _ = ⊥

AreFilesOf-length :
    (z : Zlib) (inflate : Bytes → Option (Bytes × Bytes)) (b : ℕ) (entries : List FileEntry)
    (contents : List Bytes) (files : List PreparedFile)
    → AreFilesOf z inflate b entries contents files
    → length files ≡ length entries
AreFilesOf-length z inflate b [] [] [] are = refl
AreFilesOf-length z inflate b [] [] (f ∷ fs) are = elim are [ ]
AreFilesOf-length z inflate b [] (c ∷ cs) files are = elim are [ ]
AreFilesOf-length z inflate b (e ∷ es) [] files are = elim are [ ]
AreFilesOf-length z inflate b (e ∷ es) (c ∷ cs) [] are = elim are [ ]
AreFilesOf-length z inflate b (e ∷ es) (c ∷ cs) (f ∷ fs) (is, iss) =
    omega (arith, AreFilesOf-length z inflate b es cs fs iss)

module _ (disk : Disk) (inflate : Bytes → Option (Bytes × Bytes)) where
  file-IsPrepared :
      (z : Zlib) (b : ℕ) (e : FileEntry) (c : Bytes) (f : PreparedFile)
      → z.crc32_z 0 c < 2 ^ 32
      → IsSmall e c
      → IsFileOf z inflate b e c f
      → length (payloads f.blocks) < u32_max
      → IsPrepared f
  file-IsPrepared z b e c f crc small is room = record {
    crc32_fits = omega (arith, is.crc_is, crc);
    uncompressed_fits = omega (arith, is.length_is, small.length_fits);
    compressed_is = omega (arith, is.compressed_is, room);
    name_fits =
        subst (λ (x : FileEntry). length (sanitise_archive_name x.archive_path) < 2 ^ 16)
          (sym is.entry_is) small.name_fits;
  }

  file-IsRestored :
      (z : Zlib) (b offset : ℕ) (e : FileEntry) (c : Bytes) (f : PreparedFile)
      → IsFileOf z inflate b e c f
      → length (payloads f.blocks) < u32_max
      → IsRestored z inflate b e c (entry_for disk f offset, payloads f.blocks)
  unfolding entry_for
  file-IsRestored z b offset e c f is room = record {
    name_is = ap (λ (x : FileEntry). sanitise_archive_name x.archive_path) is.entry_is;
    crc_is = is.crc_is;
    length_is = is.length_is;
    stored_is = omega (arith, is.compressed_is, room);
    first_is = is.first_is;
  }

  entry_is_small :
      (f : PreparedFile) (offset : ℕ)
      → length (payloads f.blocks) < u32_max
      → f.uncompressed < u32_max
      → f.compressed ≡ length (payloads f.blocks)
      → offset < u32_max
      → let e = entry_for disk f offset in
        (e.compressed < u32_max) × (e.uncompressed < u32_max) × (e.lfh_offset < u32_max)
  unfolding entry_for
  entry_is_small f offset fits length_fits stored offset_fits =
      (omega (arith, stored, fits), length_fits, offset_fits)

  -- Everything that the reader's theorem wants of the files, and what it then says of them.
  files-AreRestored :
      (env : Env) (b offset i : ℕ) (entries : List FileEntry) (contents : List Bytes)
      (files : List PreparedFile)
      → AllServe env b i entries contents
      → AreSmall entries contents
      → AreFilesOf env.zlib inflate (effective_block_bytes b) entries contents files
      → offset + length (bodies (items_of disk offset files)) < u32_max
      → All IsPrepared files
        × All IsUniform (Layout.entries (items_of disk offset files))
        × AreRestored env.zlib inflate
            (effective_block_bytes b)
            entries
            contents
            (items_of disk offset files)
  files-AreRestored env b offset i [] [] [] serve small are room = (tt, tt, tt)
  files-AreRestored env b offset i [] [] (f ∷ fs) serve small are room = elim are [ ]
  files-AreRestored env b offset i [] (c ∷ cs) files serve small are room = elim serve [ ]
  files-AreRestored env b offset i (e ∷ es) [] files serve small are room = elim serve [ ]
  files-AreRestored env b offset i (e ∷ es) (c ∷ cs) [] serve small are room = elim are [ ]
  files-AreRestored env b offset i (e ∷ es) (c ∷ cs) (f ∷ fs) (s, ss) (m, ms) (is, iss) room =
      let header = local_record (entry_for disk f offset) in
      let stored = payloads f.blocks in
      let next = offset + length header + length stored in
      let later = bodies (items_of disk next fs) in
      let one = length-append header (stored ++ later) in
      let two = length-append stored later in
      let fits : length stored < u32_max = omega (arith, room, one, two) in
      let (prepared, uniform, restored) =
        files-AreRestored env b next (i + 1) es cs fs ss ms iss (omega (arith, room, one, two)) in
      let here = file-IsRestored env.zlib (effective_block_bytes b) offset e c f is fits in
      (
        (file-IsPrepared env.zlib _ e c f (s.crc_laws.in_range 0 c) m is fits, prepared),
        (
          inl (
              entry_is_small f offset fits (omega (arith, is.length_is, m.length_fits))
                (omega (arith, is.compressed_is, fits)) (omega (arith, room, one, two))),
          uniform,
        ),
        (here, restored),
      )

module _ (env : Env) (block_bytes : ℕ) (codecs : CodecBundle) (router : SizeRouter)
    (entries : List FileEntry) (contents : List Bytes) (output : FilePath) (overwrite : Bool)
    (inflate : Bytes → Option (Bytes × Bytes)) (back : Inflates env.zlib inflate)
    (no_gpu : router.gpu_available ≡ false)
    (not_submitting : (k : ℕ) → env.stop.submitting k ≡ false)
    (not_writing : (k : ℕ) → env.stop.writing k ≡ false)
    (serve : AllServe env block_bytes 0 entries contents) (small : AreSmall entries contents)
    (can : CanOpen env.disk output overwrite) (flushes : env.disk.flushes ≡ true)
    (room : (files : List PreparedFile)
      → submit_files env block_bytes codecs router 0 entries ≡ ok (map ok files)
      → (length (archive_of env.disk files) < u32_max)
        × (length (archive_of env.disk files) ≤ env.disk.capacity)) where
  -- A job without a GPU over files that are served (zlib follows its laws, the file is there with
  -- the size of its entry, the host has memory for buffers up to the size of a block, nobody
  -- cancels its reads or its blocks, and the block size is at least 1, below 2^32 and in the range
  -- of z_off_t, with zlib's bound of every size up to it below 2^32, at most 2^64 less the length
  -- of the file, and such that the file has fewer than 2^32 blocks), whose names in the archive
  -- have fewer than 2^16 bytes and whose contents fewer than 2^32 - 1, and that nobody cancels,
  -- with an output that may be opened on a device that flushes and an archive of the prepared
  -- files that has fewer than 2^32 - 1 bytes and for which the device has room, succeeds and
  -- closes its output; an independent reader of the ZIP format reads back one item for each file,
  -- in order, with its name, CRC, length and stored size, and with stored bytes of which an
  -- inflater gives the first block; the count of files is that of the inputs modulo 2^64.
  pub process-read_archive :
      (stats : JobStats) × (d : Drain) × (w : ZipWriter) × (items : List Item) × (process env
          block_bytes codecs router entries
          (start_drain entries (zip_writer (new_zip_writer output overwrite)))
        ≡ (ok stats, d))
      × (d.writer ≡ zip_writer w)
      × (w.stream.is_open ≡ false)
      × (read_archive w.stream.contents ≡ some items)
      × AreRestored env.zlib inflate (effective_block_bytes block_bytes) entries contents items
      × (stats.files_processed ≡ length entries % 2 ^ 64)
  unfolding archive_of
  process-read_archive =
      let (files, tasks, are) =
        submit_files_lem env block_bytes codecs router no_gpu not_submitting inflate back 0 entries
          contents serve in
      let (fits, holds) = room files tasks in
      let (stats, d, w, done, is_zip, written, closed, totals) =
        process-archive_of env block_bytes codecs router entries output overwrite files tasks
          not_writing can holds (omega (arith, fits)) flushes in
      let items = items_of env.disk 0 files in
      let (prepared, uniform, restored) =
        files-AreRestored env.disk inflate env block_bytes 0 0 entries contents files serve small
          are (omega (arith, fits, length-archive items)) in
      (
        stats,
        d,
        w,
        items,
        done,
        is_zip,
        closed,
        ap read_archive written
            ∙ read_archive-archive_of env.disk files prepared uniform (omega (arith, fits)),
        restored,
        omega (
          arith,
          totals.files_processed_is,
          AreFilesOf-length env.zlib inflate _ entries contents files are,
        ),
      )
