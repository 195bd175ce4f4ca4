-- ===== src/Runs/Scans.antt =====
-- A directory with two files, which a walk meets in the wrong order, and a file beside it.
use mathlib.Core.List.{Perm}
use collapsar.Base.{ℕ, ◌+◌, ◌≡◌, refl, true, false, Bool, some, [], ◌∷◌, ltb, arith}
use collapsar.Base.Int.{pos}
use collapsar.Core.Status.{ok}
use collapsar.Core.Action.{◌>>=◌}
use collapsar.Core.Blocks.{FilePath, FileEntry}
use collapsar.Io.FileScanner.{
  FileSystem, DirectoryEntry, scan, scan_input, scan_directory, scan_steps, scan_file, fetch_id,
  directory_file, archive_path_for, sort_entries, insert_entry,
}
use collapsar.Io.Sorted.{IsSorted, IsAsymmetric}
use collapsar.Io.Walk.{sources_of, regular_files, scan_directory-sort_entries}
use collapsar.Io.Numbers.{ids, upward, scan-upward}
use collapsar.Runs.Jobs.{one_file_fs}

abbrev first_byte : FilePath → ℕ
first_byte [] = 0
first_byte (c ∷ cs) = c

abbrev found : ℕ → Bool → DirectoryEntry
found c is_file = record {
  path = c ∷ [];
  is_regular_file = is_file;
  file_size = some 5;
  last_write_time = some (pos 0);
}

abbrev directory_fs : FileSystem
directory_fs = record one_file_fs {
  is_regular_file = λ p. ltb (first_byte p) b'd';
  is_directory = λ p. true;
  walk = λ recurse p. (found b'b' true ∷ found b'c' false ∷ found b'a' true ∷ [], false);
  path_lt = λ p q. ltb (first_byte p) (first_byte q);
}

directory_fs-IsAsymmetric : IsAsymmetric directory_fs
directory_fs-IsAsymmetric a b before = ground arith

abbrev entry : ℕ → ℕ → FileEntry
entry c id = record {
  id = id;
  source = c ∷ [];
  archive_path = c ∷ [];
  size_bytes = 5;
  mtime = pos 0;
}

walked : scan_directory directory_fs (b'd' ∷ []) true 1 ≡ (ok (entry b'a' 2 ∷ entry b'b' 1 ∷ []), 3)
unfolding scan_directory scan_steps fetch_id directory_file archive_path_for sort_entries
    insert_entry ◌>>=◌
walked = refl

scan_directory-sort_entries_example :
    IsSorted directory_fs (entry b'a' 2 ∷ entry b'b' 1 ∷ [])
    × Perm
        (sources_of (entry b'a' 2 ∷ entry b'b' 1 ∷ []))
        (regular_files directory_fs (directory_fs.walk true (b'd' ∷ [])).0)
scan_directory-sort_entries_example =
    scan_directory-sort_entries directory_fs directory_fs-IsAsymmetric (b'd' ∷ []) true 1 3
      (entry b'a' 2 ∷ entry b'b' 1 ∷ []) walked

scanned :
    scan directory_fs ((b'd' ∷ []) ∷ (b'c' ∷ []) ∷ []) true 1
    ≡ (ok (entry b'a' 2 ∷ entry b'b' 1 ∷ entry b'c' 3 ∷ []), 4)
unfolding scan scan_input scan_file scan_directory scan_steps fetch_id directory_file
    archive_path_for sort_entries insert_entry ◌>>=◌
scanned = refl

scan-upward_example :
    (4 ≡ 1 + 3) × Perm (ids (entry b'a' 2 ∷ entry b'b' 1 ∷ entry b'c' 3 ∷ [])) (upward 1 3)
scan-upward_example =
    scan-upward directory_fs ((b'd' ∷ []) ∷ (b'c' ∷ []) ∷ []) true 1 4
      (entry b'a' 2 ∷ entry b'b' 1 ∷ entry b'c' 3 ∷ []) scanned (omega arith)
