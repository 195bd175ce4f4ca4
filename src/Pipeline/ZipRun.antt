-- ===== src/Pipeline/ZipRun.antt =====
-- `Pipeline::run` from the writer's `begin` to the end, for an archive.
use collapsar.Base.{
  ℕ, ◌^◌, ◌<◌, ◌≤◌, ◌≡◌, refl, ap, ◌∙◌, true, false, Bool, List, map, arith, length,
}
use collapsar.Core.Status.{ok}
use collapsar.Core.Action.{◌>>◌, seq_ok, seq-eq_ok}
use collapsar.Core.Blocks.{FilePath, FileEntry, PreparedFile}
use collapsar.Core.Job.{JobStats, no_stats}
use collapsar.Codec.Factory.{CodecBundle}
use collapsar.Io.Disk.{CanOpen}
use collapsar.Zip.Writer.{ZipWriter, new_zip_writer, write_files}
use collapsar.Zip.Writer as ZipMethods
use collapsar.Zip.RoundTrip.{pack, archive_of, pack-archive_of}
use collapsar.Pipeline.Router.{SizeRouter}
use collapsar.Pipeline.Writer.{zip_writer, on_zip, begin, finish}
use collapsar.Pipeline.Run.{
  Env, Drain, on_writer, begin_output, finish_output, drain_files, submit_files, process,
  start_drain,
}
use collapsar.Pipeline.Drained.{counted, drain_files-write_files}
use collapsar.Pipeline.Statistics.{AreStatsOf, IsCounter, counted-AreStatsOf}

module _ (env : Env) (block_bytes : ℕ) (codecs : CodecBundle) (router : SizeRouter)
    (entries : List FileEntry) (output : FilePath) (overwrite : Bool) (files : List PreparedFile)
    (tasks : submit_files env block_bytes codecs router 0 entries ≡ ok (map ok files))
    (free : (k : ℕ) → env.stop.writing k ≡ false) (can : CanOpen env.disk output overwrite)
    (room : length (archive_of env.disk files) ≤ env.disk.capacity)
    (small : length (archive_of env.disk files) < 2 ^ 64) (flushes : env.disk.flushes ≡ true) where
  abbrev start : Drain
  start = start_drain entries (zip_writer (new_zip_writer output overwrite))

  abbrev packed : ZipWriter
  packed = (pack env.disk files (new_zip_writer output overwrite)).1

  packs :
      ((pack env.disk files (new_zip_writer output overwrite)).0 ≡ ok tt)
      × (packed.stream.contents ≡ archive_of env.disk files)
      × (packed.stream.is_open ≡ false)
  packs = pack-archive_of env.disk output overwrite files can room small flushes

  -- The three steps of the writer.
  steps :
      (w0 w1 : ZipWriter) × (ZipMethods.begin env.disk (new_zip_writer output overwrite)
        ≡ (ok tt, w0))
      × (write_files env.disk files w0 ≡ (ok tt, w1))
      × (ZipMethods.finish w1 ≡ (ok tt, packed))
  unfolding pack
  steps =
      let (_, w0, one, more) =
        seq-eq_ok (ZipMethods.begin env.disk) (write_files env.disk files >> ZipMethods.finish)
          (new_zip_writer output overwrite) (λ i. (packs.0 i, packed)) in
      let (_, w1, two, three) = seq-eq_ok (write_files env.disk files) ZipMethods.finish w0 more in
      (w0, w1, one, two, three)

  process_steps :
      (begun drained ended : Drain)
      → begin_output env.disk start ≡ (ok tt, begun)
      → drain_files env.disk router env.stop 0 (map ok files) begun ≡ (ok tt, drained)
      → finish_output drained ≡ (ok tt, ended)
      → process env block_bytes codecs router entries start ≡ (ok ended.stats, ended)
  unfolding process
  process_steps begun drained ended one two three = rw tasks (
      seq_ok (begin_output env.disk) _ start one
      ∙ seq_ok (drain_files env.disk router env.stop 0 (map ok files)) _ begun two
      ∙ seq_ok finish_output _ drained three)

  none_yet : IsCounter no_stats
  none_yet = record {
    files_fit = omega arith;
    input_fits = omega arith;
    output_fits = omega arith;
    gpu_fits = omega arith;
    cpu_fits = omega arith;
  }

  -- If every file task of a job succeeds, nobody cancels while the files are written, and the
  -- output may be opened on a device that flushes and has room for the archive, which is below
  -- 2^64 bytes, then the job from begin to finish succeeds, leaves exactly the archive of the
  -- prepared files in a closed output, and reports the totals of the files.
  pub process-archive_of :
      (stats : JobStats) × (d : Drain) × (w : ZipWriter) × (process env block_bytes codecs router
          entries start
        ≡ (ok stats, d))
      × (d.writer ≡ zip_writer w)
      × (w.stream.contents ≡ archive_of env.disk files)
      × (w.stream.is_open ≡ false)
      × AreStatsOf router files no_stats stats
  unfolding start_drain begin_output finish_output begin finish
  process-archive_of =
      let (w0, w1, one, two, three) = steps in
      let begun : Drain = record start { writer = zip_writer w0 } in
      let drained : Drain = record (counted router files begun) { writer = zip_writer w1 } in
      let ended : Drain = record drained { writer = zip_writer packed } in
      (
        drained.stats,
        ended,
        packed,
        process_steps begun drained ended (ap (λ r. on_writer (on_zip r) start) one)
            (drain_files-write_files env.disk router env.stop 0 files begun w0 w1 free refl two)
            (ap (λ r. on_writer (on_zip r) drained) three),
        refl,
        packs.1,
        packs.2,
        counted-AreStatsOf router files begun none_yet,
      )
