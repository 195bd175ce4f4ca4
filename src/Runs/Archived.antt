-- ===== src/Runs/Archived.antt =====
-- The job over one file of five bytes, from its contents to its archive.
use collapsar.Base.{
  ◌%◌, ◌^◌, ◌<◌, ◌≤◌, ◌≡◌, refl, subst, false, some, List, [], ◌∷◌, map, arith, length,
}
use collapsar.Core.Status.{ok}
use collapsar.Core.Blocks.{PreparedFile}
use collapsar.Core.Job.{JobStats}
use collapsar.Io.AsyncReader.{effective_block_bytes}
use collapsar.Zip.DosTime.{sanitise_archive_name}
use collapsar.Zip.Structures.{u32_max}
use collapsar.Zip.Writer.{ZipWriter, new_zip_writer}
use collapsar.Zip.Reader.{read_archive}
use collapsar.Zip.Layout.{Item}
use collapsar.Zip.RoundTrip.{archive_of}
use collapsar.Pipeline.Writer.{zip_writer}
use collapsar.Pipeline.Run.{Drain, submit_files, process, start_drain}
use collapsar.Pipeline.EndToEnd.{AreSmall, AreRestored, process-read_archive}
use collapsar.Runs.{empty_disk}
use collapsar.Runs.Files.{
  storing, unstore, storing-Inflates, five_entry, five_bytes, cpu_only, five-CpuServes_8,
}
use collapsar.Runs.Jobs.{env, cpu_router, five_file, five_tasks, length-five_file}

map_ok_inj : (xs ys : List PreparedFile) → map ok xs ≡ map ok ys → xs ≡ ys
map_ok_inj [] [] h = refl
map_ok_inj [] (y ∷ ys) h = cc
map_ok_inj (x ∷ xs) [] h = cc
map_ok_inj (x ∷ xs) (y ∷ ys) h =
    let first : x ≡ y = cc in let rest : map ok xs ≡ map ok ys = cc in cc (map_ok_inj xs ys rest)

five-AreSmall : AreSmall (five_entry ∷ []) (five_bytes ∷ [])
unfolding sanitise_archive_name
five-AreSmall = (record { name_fits = omega arith; length_fits = omega arith }, tt)

five_room :
    (files : List PreparedFile)
    → submit_files env 8 cpu_only cpu_router 0 (five_entry ∷ []) ≡ ok (map ok files)
    → (length (archive_of empty_disk files) < u32_max)
      × (length (archive_of empty_disk files) ≤ 1000)
five_room files tasks =
    subst
      (λ fs.
        (length (archive_of empty_disk fs) < u32_max) × (length (archive_of empty_disk fs) ≤ 1000))
      (map_ok_inj (five_file ∷ []) files (cc five_tasks))
      (omega (arith, length-five_file), omega (arith, length-five_file))

process-read_archive_example :
    (stats : JobStats) × (d : Drain) × (w : ZipWriter) × (items : List Item) × (process env 8
        cpu_only cpu_router
        (five_entry ∷ [])
        (start_drain (five_entry ∷ []) (zip_writer (new_zip_writer (b'o' ∷ []) false)))
      ≡ (ok stats, d))
    × (d.writer ≡ zip_writer w)
    × (w.stream.is_open ≡ false)
    × (read_archive w.stream.contents ≡ some items)
    × AreRestored storing unstore
        (effective_block_bytes 8)
        (five_entry ∷ [])
        (five_bytes ∷ [])
        items
    × (stats.files_processed ≡ 1 % 2 ^ 64)
process-read_archive_example =
    process-read_archive env 8 cpu_only cpu_router (five_entry ∷ []) (five_bytes ∷ []) (b'o' ∷ [])
      false unstore storing-Inflates refl (λ k. refl) (λ k. refl) (five-CpuServes_8, tt)
      five-AreSmall (refl, refl) refl five_room
