-- ===== src/Io/FileScanner.antt =====
-- core/src/io/file_scanner.cpp. The file system is a parameter: what each `std::filesystem` query
-- answers. A query clears `ec` when it succeeds, so a test of `ec` sees the last query alone.
use collapsar.Base.{
  ℕ, ◌+◌, ◌-◌, ◌%◌, ◌^◌, Bool, true, false, Option, none, some, List, [], ◌∷◌, ◌++◌, text,
  if◌then◌else◌,
}
use collapsar.Base.Int.{ℤ}
use collapsar.Core.Status.{make_error, not_found, invalid_argument, io}
use collapsar.Core.Action.{Action, done, fail, ◌>>=◌}
use collapsar.Core.Blocks.{FilePath, FileEntry}

-- One step of a directory iterator. `none` is a query that fails.
pub record DirectoryEntry : Type 0 where
  pub path : FilePath
  pub is_regular_file : Bool
  pub file_size : Option ℕ
  pub last_write_time : Option ℤ

pub record FileSystem : Type 0 where
  -- False also where the query fails.
  pub exists : FilePath → Bool
  pub is_regular_file : FilePath → Bool
  pub is_directory : FilePath → Bool
  pub file_size : FilePath → Option ℕ
  pub last_write_time : FilePath → Option ℤ
  pub absolute : FilePath → FilePath
  pub filename : FilePath → FilePath
  pub parent_path : FilePath → FilePath
  -- `relative file root`.
  pub relative : FilePath → FilePath → FilePath
  -- What iterating a directory gives, recursively or not, and whether it breaks off with an error.
  pub walk : Bool → FilePath → List DirectoryEntry × Bool
  -- `a < b` of paths.
  pub path_lt : FilePath → FilePath → Bool
  -- What `last_write_time` returns beside an error.
  pub no_time : ℤ

-- `file_size` returns `static_cast<std::uintmax_t>(-1)` beside an error.
abbrev pub size_or_max : Option ℕ → ℕ
size_or_max none = 2 ^ 64 - 1
size_or_max (some n) = n

abbrev pub time_or : ℤ → Option ℤ → ℤ
time_or t none = t
time_or t (some u) = u

-- The name if it is not empty, else another.
abbrev pub or_else : FilePath → FilePath → FilePath
or_else [] q = q
or_else (c ∷ cs) q = c ∷ cs

unfoldable pub archive_path_for : FileSystem → FilePath → FilePath → FilePath
archive_path_for fs root file = or_else (fs.relative file root) (fs.filename file)

-- `g_next_id.fetch_add(1)`; the counter is the state of the actions below.
unfoldable pub fetch_id : Action ℕ ℕ
fetch_id next = done next ((next + 1) % 2 ^ 64)

abbrev pub is_some {ℓ} : {A : Type ℓ} → Option A → Bool
is_some none = false
is_some (some a) = true

-- `handle_entry` of `scan_directory`.
unfoldable pub directory_file : FileSystem → FilePath → DirectoryEntry → ℕ → FileEntry
unfolding archive_path_for
directory_file fs root de id = record {
  id = id;
  source = fs.absolute de.path;
  archive_path = archive_path_for fs (or_else (fs.parent_path root) root) de.path;
  size_bytes = size_or_max de.file_size;
  mtime = time_or fs.no_time de.last_write_time;
}

-- The loop of `scan_directory`; its increment clears what a failing query left in `ec`.
unfoldable pub scan_steps : FileSystem → FilePath → List DirectoryEntry → Action ℕ (List FileEntry)
unfolding fetch_id directory_file
scan_steps fs root [] = done []
scan_steps fs root (de ∷ des) =
    if de.is_regular_file
    then (do
      id ← fetch_id
      rest ← scan_steps fs root des
      done (directory_file fs root de id ∷ rest))
    else scan_steps fs root des

-- The sort by archive path.
unfoldable pub insert_entry : FileSystem → FileEntry → List FileEntry → List FileEntry
insert_entry fs e [] = e ∷ []
insert_entry fs e (x ∷ xs) =
    if fs.path_lt x.archive_path e.archive_path then x ∷ insert_entry fs e xs else e ∷ (x ∷ xs)

unfoldable pub sort_entries : FileSystem → List FileEntry → List FileEntry
unfolding insert_entry
sort_entries fs [] = []
sort_entries fs (x ∷ xs) = insert_entry fs x (sort_entries fs xs)

unfoldable pub scan_directory : FileSystem → FilePath → Bool → Action ℕ (List FileEntry)
unfolding scan_steps sort_entries
scan_directory fs input recurse =
    let (des, broken) = fs.walk recurse input in
    do
      found ← scan_steps fs input des
      (if broken
          then fail (make_error io (text "Directory walk failed for " ++ input))
          else done (sort_entries fs found))

-- The entry of a regular file given as an input.
abbrev pub input_file : FileSystem → FilePath → ℕ → FileEntry
input_file fs input id = record {
  id = id;
  source = fs.absolute input;
  archive_path = fs.filename input;
  size_bytes = size_or_max (fs.file_size input);
  mtime = time_or fs.no_time (fs.last_write_time input);
}

-- Of its three queries only the last shows in `ec`.
unfoldable pub scan_file : FileSystem → FilePath → Action ℕ (List FileEntry)
unfolding fetch_id
scan_file fs input = do
  id ← fetch_id
  (if is_some (fs.last_write_time input)
      then done (input_file fs input id ∷ [])
      else fail (make_error io (text "Failed to stat: " ++ input)))

unfoldable pub scan_input : FileSystem → Bool → FilePath → Action ℕ (List FileEntry)
unfolding scan_file scan_directory
scan_input fs recurse input =
    if fs.exists input
    then (if fs.is_regular_file input
        then scan_file fs input
        else if fs.is_directory input
        then scan_directory fs input recurse
        else fail (make_error invalid_argument (text "Unsupported input type: " ++ input)))
    else fail (make_error not_found (text "Input does not exist: " ++ input))

unfoldable pub scan : FileSystem → List FilePath → Bool → Action ℕ (List FileEntry)
unfolding scan_input
scan fs [] recurse = done []
scan fs (input ∷ inputs) recurse = do
  found ← scan_input fs recurse input
  rest ← scan fs inputs recurse
  done (found ++ rest)
