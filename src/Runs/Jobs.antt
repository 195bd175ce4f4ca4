-- ===== src/Runs/Jobs.antt =====
-- Jobs over one file of five bytes.
use collapsar.Base.{◌≤◌, ◌≡◌, refl, true, false, some, [], ◌∷◌, ◌++◌, arith, length, map, ◌↔◌, ◌⊎◌}
use collapsar.Base.Int.{pos}
use collapsar.Core.Status.{ok, err, unsupported}
use collapsar.Core.Options.{balanced, auto}
use collapsar.Core.Blocks.{PreparedFile, CompressedBlock, PlainBlock}
use collapsar.Core.Job.{JobStats, no_stats, no_progress}
use collapsar.Io.FileScanner.{FileSystem}
use collapsar.Zip.Writer.{ZipWriter, new_zip_writer}
use collapsar.Zip.RoundTrip.{archive_of}
use collapsar.Zip.Entry.{needs_zip64, local_header, central_header}
use collapsar.Zip.Layout.{archive, is_zip64}
use collapsar.Zip.Writer.{entry_for, classic_eocd, archive_is_zip64}
use collapsar.Zip.DosTime.{sanitise_archive_name}
use collapsar.Zip.Directory.{central_record}
use collapsar.Zip.Locate.{local_record}
use collapsar.Codec.Deflate.{compress}
use collapsar.Codec.Streams.{inflate-compress}
use collapsar.Pipeline.Router.{SizeRouter, gpu, route, route_iff, IsForced, IsGated}
use collapsar.Pipeline.Assemble.{assemble, stitch, stitch_all}
use collapsar.Pipeline.Compress.{drain_and_compress, blank_of, plain_of}
use collapsar.Pipeline.Task.{file_task, read_tasks, compress_blocks}
use collapsar.Io.AsyncReader.{
  submit, slices_from, slice, block_count, effective_block_bytes, read_block, allocate, read_source,
  read_range,
}
use collapsar.Codec.Crc32.{compute}
use collapsar.Pipeline.Writer.{zip_writer}
use collapsar.Pipeline.Run.{Env, Drain, submit_files, process, start_drain}
use collapsar.Pipeline.Statistics.{AreStatsOf, IsCounter, drain_files-AreStatsOf}
use collapsar.Pipeline.CpuJob.{AreFilesOf, submit_files_lem}
use collapsar.Runs.Files.{five-CpuServes}
use collapsar.Pipeline.Cancel.{process-cancelled}
use collapsar.Pipeline.Writer as Writer
use collapsar.Io.Stream as Stream
use collapsar.Core.Action.{◌>>◌}
use collapsar.Pipeline.Run.{begin_output, drain_files, drain_file, start_file, complete_file}
use collapsar.Zip.Writer as ZipMethods
use collapsar.Io.Disk.{open_stream}
use collapsar.Base.{◌==◌, List, text}
use collapsar.Core.Status.{make_error, cancelled}
use collapsar.Pipeline.ZipRun.{process-archive_of}
use collapsar.Runs.{empty_disk}
use collapsar.Runs.Files.{
  storing, unstore, storing-Inflates, storing-DeflateLaws, one_file_host, never, five_entry,
  five_bytes, cpu_only,
}

abbrev hybrid : SizeRouter
hybrid = record { threshold = 4; algorithm = auto; gpu_available = true }

route_iff_example :
    (route hybrid 5 ≡ gpu) ↔ ((true ≡ true) × (IsForced auto ⊎ (IsGated auto × (4 ≤ 5))))
route_iff_example = route_iff hybrid 5

abbrev pub one_file_fs : FileSystem
one_file_fs = record {
  exists = λ p. true;
  is_regular_file = λ p. true;
  is_directory = λ p. false;
  file_size = λ p. some 5;
  last_write_time = λ p. some (pos 0);
  absolute = λ p. p;
  filename = λ p. p;
  parent_path = λ p. [];
  relative = λ p q. p;
  walk = λ recurse p. ([], false);
  path_lt = λ p q. false;
  no_time = pos 0;
}

abbrev pub env : Env
env = record {
  zlib = storing;
  cuda = record {
    has_cuda = false;
    create = λ d s b. err (record { code = unsupported; message = [] });
  };
  host = one_file_host;
  disk = empty_disk;
  fs = one_file_fs;
  stop = never;
}

abbrev pub stored_block : CompressedBlock
stored_block = record {
  file_id = 1;
  block_index = 0;
  is_last = true;
  logical_offset = 0;
  bytes = 1 ∷ 1 ∷ 1 ∷ 2 ∷ 1 ∷ 3 ∷ 1 ∷ 4 ∷ 1 ∷ 5 ∷ 0 ∷ [];
  crc32 = 15;
  uncompressed = 5;
}

abbrev pub five_file : PreparedFile
five_file = record {
  entry = five_entry;
  blocks = stored_block ∷ [];
  file_crc32 = 15;
  uncompressed = 5;
  compressed = 11;
}

abbrev pub cpu_router : SizeRouter
cpu_router = record hybrid { gpu_available = false }

pub five_tasks :
    submit_files env 8 cpu_only cpu_router 0 (five_entry ∷ []) ≡ ok (map ok (five_file ∷ []))
unfolding submit_files file_task read_tasks compress_blocks route submit slices_from slice
    block_count effective_block_bytes read_block allocate read_source read_range drain_and_compress
    compress compute plain_of blank_of assemble stitch_all stitch
five_tasks = refl

pub length-five_file : length (archive_of empty_disk (five_file ∷ [])) ≡ 111
unfolding archive_of archive is_zip64 archive_is_zip64 local_record local_header entry_for
    needs_zip64 central_record central_header sanitise_archive_name classic_eocd
length-five_file = refl

process-archive_of_example :
    (stats : JobStats) × (d : Drain) × (w : ZipWriter) × (process env 8 cpu_only cpu_router
        (five_entry ∷ [])
        (start_drain (five_entry ∷ []) (zip_writer (new_zip_writer (b'o' ∷ []) false)))
      ≡ (ok stats, d))
    × (d.writer ≡ zip_writer w)
    × (w.stream.contents ≡ archive_of empty_disk (five_file ∷ []))
    × (w.stream.is_open ≡ false)
    × AreStatsOf cpu_router (five_file ∷ []) no_stats stats
process-archive_of_example =
    process-archive_of env 8 cpu_only cpu_router (five_entry ∷ []) (b'o' ∷ []) false
      (five_file ∷ []) five_tasks (λ k. refl) (refl, refl) (omega (arith, length-five_file))
      (omega (arith, length-five_file)) refl

abbrev fresh_drain : Drain
fresh_drain = record {
  writer = zip_writer (new_zip_writer [] false);
  stats = no_stats;
  progress = no_progress;
}

none_counted : IsCounter no_stats
none_counted = record {
  files_fit = omega arith;
  input_fits = omega arith;
  output_fits = omega arith;
  gpu_fits = omega arith;
  cpu_fits = omega arith;
}

abbrev begun_drain : Drain
begun_drain = (begin_output empty_disk fresh_drain).1

abbrev ended_drain : Drain
ended_drain = (drain_files empty_disk cpu_router never 0 (ok five_file ∷ []) begun_drain).1

five_drained :
    drain_files empty_disk cpu_router never 0 (ok five_file ∷ []) begun_drain ≡ (ok tt, ended_drain)
unfolding drain_files drain_file start_file complete_file begin_output Writer.begin
    Writer.write_file ZipMethods.begin ZipMethods.write_file ZipMethods.write_local_header
    ZipMethods.write_blocks ZipMethods.write_bytes ZipMethods.record_entry entry_for ◌>>◌
    Stream.write open_stream local_header sanitise_archive_name needs_zip64 new_zip_writer
five_drained = refl

begun-IsCounter : IsCounter begun_drain.stats
unfolding begin_output
begun-IsCounter = none_counted

drain_files-AreStatsOf_example :
    (files : List PreparedFile) × ((ok five_file ∷ []) ≡ map ok files)
    × AreStatsOf cpu_router files begun_drain.stats ended_drain.stats
drain_files-AreStatsOf_example =
    drain_files-AreStatsOf empty_disk cpu_router never 0 (ok five_file ∷ []) begun_drain ended_drain
      begun-IsCounter five_drained

abbrev five_plain : PlainBlock
five_plain = record {
  file_id = 1;
  block_index = 0;
  is_last = true;
  logical_offset = 0;
  source = five_bytes;
}

inflate-compress_example :
    (b : CompressedBlock) × (compress storing balanced five_plain stored_block ≡ ok b)
    × (unstore (b.bytes ++ (9 ∷ [])) ≡ some (five_bytes, 9 ∷ []))
inflate-compress_example =
    inflate-compress storing unstore balanced five_plain stored_block (9 ∷ []) storing-DeflateLaws
      storing-Inflates (omega arith) (omega arith)

-- Somebody cancels after the first file was submitted.
abbrev cancelled_env : Env
cancelled_env = record env { stop = record never { submitting = λ i. i == 1 } }

begun_drain_lem : begin_output empty_disk fresh_drain ≡ (ok tt, begun_drain)
unfolding begin_output Writer.begin ZipMethods.begin new_zip_writer open_stream
begun_drain_lem = refl

process-cancelled_example :
    process cancelled_env 8 cpu_only cpu_router (five_entry ∷ five_entry ∷ []) fresh_drain
    ≡ (err (make_error cancelled (text "job cancelled")), begun_drain)
process-cancelled_example =
    process-cancelled cancelled_env 8 cpu_only cpu_router (five_entry ∷ five_entry ∷ []) 1
      fresh_drain begun_drain (omega arith) refl begun_drain_lem

submit_files_lem_example :
    (files : List PreparedFile) × (submit_files env 4 cpu_only cpu_router 0 (five_entry ∷ [])
      ≡ ok (map ok files))
    × AreFilesOf storing unstore (effective_block_bytes 4) (five_entry ∷ []) (five_bytes ∷ []) files
submit_files_lem_example =
    submit_files_lem env 4 cpu_only cpu_router refl (λ k. refl) unstore storing-Inflates 0
      (five_entry ∷ []) (five_bytes ∷ []) (five-CpuServes, tt)
