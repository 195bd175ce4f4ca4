-- ===== src/Runs/Members.antt =====
-- A gzip member of one small file.
use collapsar.Base.{◌≡◌, refl, false, some, [], ◌∷◌, arith, length}
use collapsar.Base.Int.{pos}
use collapsar.Core.Status.{ok, code_of, format_error}
use collapsar.Core.Action.{◌>>◌, ◌>>=◌}
use collapsar.Core.Job.{no_stats, no_progress}
use collapsar.Codec.Deflate.{compress}
use collapsar.Codec.Crc32.{compute}
use collapsar.Io.Disk.{open_stream}
use collapsar.Io.Stream.{write}
use collapsar.Io.AsyncReader.{
  submit, slices_from, slice, block_count, effective_block_bytes, read_block, allocate, read_source,
  read_range,
}
use collapsar.Gzip.Writer.{GzipWriter}
use collapsar.Gzip.Writer as GzipMethods
use collapsar.Pipeline.Assemble.{assemble, stitch, stitch_all}
use collapsar.Pipeline.Compress.{drain_and_compress, blank_of, plain_of}
use collapsar.Pipeline.Router.{route}
use collapsar.Pipeline.Task.{file_task, read_tasks, compress_blocks}
use collapsar.Pipeline.Writer.{gzip_writer, begin}
use collapsar.Pipeline.Run.{Drain, begin_output, submit_files, process}
use collapsar.Pipeline.GzipJob.{process-gzip_writer}
use collapsar.Runs.Files.{five_entry, cpu_only}
use collapsar.Runs.Jobs.{env, five_file, cpu_router}
use collapsar.Gzip.Writer.{header, trailer, new_gzip_writer, mtime_seconds}
use collapsar.Gzip.Reader.{read_member}
use collapsar.Gzip.RoundTrip.{member_of, pack_one, read_member-pack_one}
use collapsar.Runs.{empty_disk, prepared}
use collapsar.Core.Blocks.{PreparedFile}

abbrev one_file : PreparedFile
one_file = prepared (b'a' ∷ []) (1 ∷ 2 ∷ [])

length-one_file : length (member_of one_file) ≡ 20
unfolding member_of header trailer
length-one_file = refl

read_member-pack_one_example :
    let (result, w) = pack_one empty_disk one_file (new_gzip_writer (b'o' ∷ []) false) in
    (result ≡ ok tt)
    × (w.stream.is_open ≡ false)
    × (read_member w.stream.contents
        ≡ some
            (record { mtime = mtime_seconds (pos 0); stored = 1 ∷ 2 ∷ []; crc32 = 7; isize = 3 }))
read_member-pack_one_example =
    read_member-pack_one empty_disk (b'o' ∷ []) false one_file (refl, refl)
      (omega (arith, length-one_file)) refl (omega arith)

-- A job over two files.
abbrev gzip_drain : Drain
gzip_drain = record {
  writer = gzip_writer (new_gzip_writer (b'o' ∷ []) false);
  stats = no_stats;
  progress = no_progress;
}

abbrev begun : Drain
begun = (begin_output empty_disk gzip_drain).1

abbrev begun_writer : GzipWriter
begun_writer = (GzipMethods.begin empty_disk (new_gzip_writer (b'o' ∷ []) false)).1

abbrev after_one : GzipWriter
after_one = (GzipMethods.write_file five_file begun_writer).1

both_tasks :
    submit_files env 8 cpu_only cpu_router 0 (five_entry ∷ five_entry ∷ [])
    ≡ ok (ok five_file ∷ ok five_file ∷ [])
unfolding submit_files file_task read_tasks compress_blocks route submit slices_from slice
    block_count effective_block_bytes read_block allocate read_source read_range drain_and_compress
    compress compute plain_of blank_of assemble stitch_all stitch
both_tasks = refl

begun_lem : begin_output empty_disk gzip_drain ≡ (ok tt, begun)
unfolding begin_output begin GzipMethods.begin new_gzip_writer open_stream
begun_lem = refl

begun-writer : begun.writer ≡ gzip_writer begun_writer
unfolding begin_output begin GzipMethods.begin new_gzip_writer open_stream
begun-writer = refl

first_written : GzipMethods.write_file five_file begun_writer ≡ (ok tt, after_one)
unfolding GzipMethods.write_file GzipMethods.begin new_gzip_writer open_stream
    GzipMethods.write_bytes GzipMethods.write_blocks header trailer ◌>>◌ ◌>>=◌ write
first_written = refl

process-gzip_writer_example :
    let (r, left) = process env 8 cpu_only cpu_router (five_entry ∷ five_entry ∷ []) gzip_drain in
    (code_of r ≡ format_error) × (left.writer ≡ gzip_writer after_one)
process-gzip_writer_example =
    process-gzip_writer env cpu_router (λ k. refl) 8 cpu_only (five_entry ∷ five_entry ∷ [])
      gzip_drain begun begun_writer after_one five_file five_file [] both_tasks begun_lem
      begun-writer first_written
