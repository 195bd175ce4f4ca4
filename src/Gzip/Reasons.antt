-- ===== src/Gzip/Reasons.antt =====
-- The errors of the gzip writer.
use collapsar.Base.{refl, List, [], ◌∷◌, Bytes}
use collapsar.Core.Reason.{Ends, succeeds, fails, if_action, seq-Ends}
use collapsar.Core.Blocks.{CompressedBlock, PreparedFile}
use collapsar.Io.Disk.{Disk}
use collapsar.Gzip.Writer.{GzipWriter, begin, write_bytes, write_blocks, write_file, finish}

pub begin-Ends : (disk : Disk) (w : GzipWriter) → Ends (begin disk w)
unfolding begin
begin-Ends disk w = if_action _ _ _ (fails refl) (if_action _ _ _ succeeds (fails refl))

write_bytes-Ends : (bytes : Bytes) (w : GzipWriter) → Ends (write_bytes bytes w)
unfolding write_bytes
write_bytes-Ends bytes w = if_action _ _ _ succeeds (fails refl)

write_blocks-Ends : (blocks : List CompressedBlock) (w : GzipWriter) → Ends (write_blocks blocks w)
unfolding write_blocks
write_blocks-Ends [] w = succeeds
write_blocks-Ends (b ∷ bs) w = seq-Ends _ _ (write_bytes-Ends b.bytes) (write_blocks-Ends bs) w

pub write_file-Ends : (file : PreparedFile) (w : GzipWriter) → Ends (write_file file w)
unfolding write_file
write_file-Ends file w = if_action _ _ _ (fails refl) (
    seq-Ends _ _ (write_bytes-Ends _)
      (seq-Ends _ _ (write_blocks-Ends file.blocks) (write_bytes-Ends _)) _)

pub finish-Ends : (w : GzipWriter) → Ends (finish w)
unfolding finish
finish-Ends w = if_action _ _ _ succeeds (fails refl)
