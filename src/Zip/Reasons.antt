-- ===== src/Zip/Reasons.antt =====
-- The errors of the ZIP writer.
use collapsar.Base.{refl, Bool, true, false, List, [], ◌∷◌, Bytes, if◌then◌else◌}
use collapsar.Core.Reason.{Ends, succeeds, fails, if_action, seq-Ends}
use collapsar.Core.Action.{done, ◌>>◌}
use collapsar.Core.Blocks.{CompressedBlock, PreparedFile}
use collapsar.Io.Disk.{Disk}
use collapsar.Zip.Entry.{CentralEntry, needs_zip64}
use collapsar.Zip.Writer.{
  ZipWriter, begin, write_bytes, write_local_header, write_blocks, write_file, record_entry,
  write_central_entry, write_directory, write_trailer, write_eocd, flush_and_close, finish,
}

pub begin-Ends : (disk : Disk) (w : ZipWriter) → Ends (begin disk w)
unfolding begin
begin-Ends disk w = if_action _ _ _ (fails refl) (if_action _ _ _ succeeds (fails refl))

write_bytes-Ends : (bytes : Bytes) (w : ZipWriter) → Ends (write_bytes bytes w)
unfolding write_bytes
write_bytes-Ends bytes w = if_action _ _ _ succeeds (fails refl)

write_optional :
    (b : Bool) (bytes : Bytes) (w : ZipWriter) → Ends ((if b then write_bytes bytes else done tt) w)
write_optional true bytes w = write_bytes-Ends bytes w
write_optional false bytes w = succeeds

write_local_header-Ends : (e : CentralEntry) (w : ZipWriter) → Ends (write_local_header e w)
unfolding write_local_header
write_local_header-Ends e =
    seq-Ends _ _ (write_bytes-Ends _)
      (seq-Ends _ _ (write_bytes-Ends e.name) (write_optional (needs_zip64 e) _))

write_blocks-Ends : (blocks : List CompressedBlock) (w : ZipWriter) → Ends (write_blocks blocks w)
unfolding write_blocks
write_blocks-Ends [] w = succeeds
write_blocks-Ends (b ∷ bs) w = seq-Ends _ _ (write_bytes-Ends b.bytes) (write_blocks-Ends bs) w

pub write_file-Ends :
    (disk : Disk) (file : PreparedFile) (w : ZipWriter) → Ends (write_file disk file w)
unfolding write_file record_entry
write_file-Ends disk file w =
    seq-Ends _ _ (write_local_header-Ends _)
      (seq-Ends _ _ (write_blocks-Ends file.blocks) (λ _. succeeds)) w

write_central_entry-Ends : (e : CentralEntry) (w : ZipWriter) → Ends (write_central_entry e w)
unfolding write_central_entry
write_central_entry-Ends e =
    seq-Ends _ _ (write_bytes-Ends _)
      (seq-Ends _ _ (write_bytes-Ends e.name) (write_optional (needs_zip64 e) _))

write_directory-Ends :
    (entries : List CentralEntry) (w : ZipWriter) → Ends (write_directory entries w)
unfolding write_directory
write_directory-Ends [] w = succeeds
write_directory-Ends (e ∷ es) w =
    seq-Ends _ _ (write_central_entry-Ends e) (write_directory-Ends es) w

write_records :
    (b : Bool) (record_bytes locator : Bytes) (w : ZipWriter)
    → Ends ((if b then write_bytes record_bytes >> write_bytes locator else done tt) w)
write_records true record_bytes locator w =
    seq-Ends _ _ (write_bytes-Ends record_bytes) (write_bytes-Ends locator) w
write_records false record_bytes locator w = succeeds

pub finish-Ends : (w : ZipWriter) → Ends (finish w)
unfolding finish write_eocd write_trailer flush_and_close
finish-Ends =
    seq-Ends _ _
      (λ w.
        seq-Ends _ _ (write_directory-Ends w.central)
          (λ v. seq-Ends _ _ (write_records _ _ _) (write_bytes-Ends _) v) w)
      (λ w. if_action _ _ _ succeeds (fails refl))
