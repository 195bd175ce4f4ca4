-- ===== src/Pipeline/Drained.antt =====
-- The drain loop of `Pipeline::run` against the archive writer and the totals of its statistics.
use collapsar.Base.{ℕ, ◌+◌, ◌≡◌, refl, ap, ◌∙◌, false, List, [], ◌∷◌, map}
use collapsar.Core.Status.{ok}
use collapsar.Core.Action.{seq_ok, seq-eq_ok}
use collapsar.Core.Blocks.{PreparedFile}
use collapsar.Io.Disk.{Disk}
use collapsar.Zip.Writer.{ZipWriter, write_files}
use collapsar.Zip.Writer as ZipMethods
use collapsar.Pipeline.Router.{SizeRouter}
use collapsar.Pipeline.Stop.{Stop}
use collapsar.Pipeline.Writer.{Writer, zip_writer, on_zip, write_file}
use collapsar.Pipeline.Run.{Drain, after_write, start_file, complete_file, drain_file, drain_files}

-- What the loop has counted after some files; the writer is left as it was.
abbrev pub counted : SizeRouter → List PreparedFile → Drain → Drain
counted router [] d = d
counted router (f ∷ fs) d = counted router fs (complete_file f (start_file router f d))

counted-writer :
    (router : SizeRouter) (files : List PreparedFile) (d : Drain) (w : Writer)
    → record (counted router files (record d { writer = w })) { writer = d.writer }
      ≡ record (counted router files d) { writer = d.writer }
unfolding complete_file start_file
counted-writer router [] d w = refl
counted-writer router (f ∷ fs) d w =
    counted-writer router fs (complete_file f (start_file router f d)) w

drain_step :
    (disk : Disk) (router : SizeRouter) (f : PreparedFile) (d : Drain) (w w' : ZipWriter)
    → d.writer ≡ zip_writer w
    → ZipMethods.write_file disk f w ≡ (ok tt, w')
    → drain_file disk router f d
      ≡ (ok tt, record (complete_file f (start_file router f d)) { writer = zip_writer w' })
unfolding drain_file start_file complete_file write_file
drain_step disk router f d w w' is wrote =
    let started = start_file router f d in
    ap (λ v. after_write f started (write_file disk f v)) is
    ∙ ap (λ r. after_write f started (on_zip r)) wrote

-- Without a cancellation, and with every task a success, the drain loop writes the files in order.
pub drain_files-write_files :
    (disk : Disk) (router : SizeRouter) (stop : Stop) (i : ℕ) (files : List PreparedFile)
    (d : Drain) (w w' : ZipWriter)
    → ((k : ℕ) → stop.writing k ≡ false)
    → d.writer ≡ zip_writer w
    → write_files disk files w ≡ (ok tt, w')
    → drain_files disk router stop i (map ok files) d
      ≡ (ok tt, record (counted router files d) { writer = zip_writer w' })
unfolding drain_files write_files
drain_files-write_files disk router stop i [] d w w' free is wrote =
    λ j. (ok tt, record d { writer = (is ∙ ap (λ r. zip_writer r.1) wrote) j })
drain_files-write_files disk router stop i (f ∷ fs) d w w' free is wrote =
    let (_, v, one, rest) =
      seq-eq_ok (ZipMethods.write_file disk f) (write_files disk fs) w wrote in
    let next = complete_file f (start_file router f d) in
    rw (free i) (
      seq_ok (drain_file disk router f) (drain_files disk router stop (i + 1) (map ok fs)) d
        (drain_step disk router f d w v is one)
      ∙ drain_files-write_files disk router stop (i + 1) fs (record next { writer = zip_writer v })
          v w' free refl rest
      ∙ ap (λ x. (ok tt, record x { writer = zip_writer w' }))
          (counted-writer router fs next (zip_writer v)))
