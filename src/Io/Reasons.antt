-- ===== src/Io/Reasons.antt =====
-- The errors of the scanner and of the read tasks.
use collapsar.Base.{
  ℕ, ◌==◌, refl, Bool, true, false, Option, none, some, List, [], ◌∷◌, ◌++◌, Bytes, text, length,
  take, drop, if◌then◌else◌,
}
use collapsar.Core.Status.{Result, ok, err, make_error, io}
use collapsar.Core.Action.{Action}
use collapsar.Core.Reason.{HasReason, fine, because, Ends, succeeds, fails, if_result, bind-Ends}
use collapsar.Core.Blocks.{FilePath, FileEntry}
use collapsar.Io.FileScanner.{
  FileSystem, DirectoryEntry, fetch_id, scan_steps, scan_directory, scan_file, scan_input, scan,
}
use collapsar.Io.AsyncReader.{
  Host, Slice, allocate, read_range, read_source, read_block, then_fill, fill,
}

module _ {ℓ} {S A : Type ℓ} where
  -- The conditional as a method.
  pub if_method :
      (b : Bool) (m k : Action S A)
      → ((s : S) → Ends (m s))
      → ((s : S) → Ends (k s))
      → (s : S) → Ends ((if b then m else k) s)
  if_method true m k first other = first
  if_method false m k first other = other

module _ (fs : FileSystem) where
  scan_steps-Ends :
      (root : FilePath) (des : List DirectoryEntry) (n : ℕ) → Ends (scan_steps fs root des n)
  unfolding scan_steps fetch_id
  scan_steps-Ends root [] n = succeeds
  scan_steps-Ends root (de ∷ des) n =
      if_method de.is_regular_file _ _
        (bind-Ends _ _ (λ _. succeeds)
          (λ id. bind-Ends _ _ (scan_steps-Ends root des) (λ _ _. succeeds)))
        (scan_steps-Ends root des) n

  scan_directory-Ends :
      (input : FilePath) (recurse : Bool) (n : ℕ) → Ends (scan_directory fs input recurse n)
  unfolding scan_directory
  scan_directory-Ends input recurse =
      bind-Ends _ _ (scan_steps-Ends input (fs.walk recurse input).0)
        (λ found. if_method _ _ _ (λ _. fails refl) (λ _. succeeds))

  scan_file-Ends : (input : FilePath) (n : ℕ) → Ends (scan_file fs input n)
  unfolding scan_file fetch_id
  scan_file-Ends input =
      bind-Ends _ _ (λ _. succeeds) (λ id. if_method _ _ _ (λ _. succeeds) (λ _. fails refl))

  scan_input-Ends :
      (recurse : Bool) (input : FilePath) (n : ℕ) → Ends (scan_input fs recurse input n)
  unfolding scan_input
  scan_input-Ends recurse input =
      if_method _ _ _
        (if_method _ _ _ (scan_file-Ends input)
          (if_method _ _ _ (scan_directory-Ends input recurse) (λ _. fails refl)))
        (λ _. fails refl)

  pub scan-Ends :
      (inputs : List FilePath) (recurse : Bool) (n : ℕ) → Ends (scan fs inputs recurse n)
  unfolding scan
  scan-Ends [] recurse n = succeeds
  scan-Ends (input ∷ inputs) recurse n =
      bind-Ends _ _ (scan_input-Ends recurse input)
        (λ found. bind-Ends _ _ (scan-Ends inputs recurse) (λ _ _. succeeds)) n

module _ (host : Host) where
  allocate_reason : (bytes : ℕ) → HasReason (allocate host bytes)
  unfolding allocate
  allocate_reason bytes = if_result (bytes == 0) _ _ fine (
      if_result (host.allocates bytes) _ _ fine
        (if_result host.has_cuda _ _ (because refl) (because refl)))

  read_range_reason :
      (source : FilePath) (contents : Bytes) (offset bytes : ℕ)
      → HasReason (read_range source contents offset bytes)
  unfolding read_range
  read_range_reason source contents offset bytes =
      if_result (length (take bytes (drop offset contents)) == bytes) _ _ fine (because refl)

  opened_reason :
      (source : FilePath) (offset bytes : ℕ) (file : Option Bytes)
      → HasReason (elim file [
        | none ↦ err (make_error io (text "Failed to open " ++ source))
        | some contents ↦ read_range source contents offset bytes
      ])
  opened_reason source offset bytes none = because refl
  opened_reason source offset bytes (some contents) = read_range_reason source contents offset bytes

  read_source_reason :
      (source : FilePath) (offset bytes : ℕ) → HasReason (read_source host source offset bytes)
  unfolding read_source
  read_source_reason source offset bytes =
      if_result (bytes == 0) _ _ fine (opened_reason source offset bytes (host.open_file source))

  fill_reason :
      (entry : FileEntry) (s : Slice) (r : Result Bytes) → HasReason r → HasReason (fill entry s r)
  fill_reason entry s (ok payload) h = fine
  fill_reason entry s (err e) (because why) = because why

  then_fill_reason :
      (entry : FileEntry) (s : Slice) (r : Result ℕ)
      → HasReason r
      → HasReason (then_fill host entry s r)
  then_fill_reason entry s (ok size) h =
      fill_reason entry s _ (read_source_reason entry.source s.offset s.bytes)
  then_fill_reason entry s (err e) (because why) = because why

  pub read_block_reason :
      (entry : FileEntry) (stopped : Bool) (s : Slice) → HasReason (read_block host entry stopped s)
  unfolding read_block
  read_block_reason entry stopped s =
      if_result stopped _ _ (because refl)
        (then_fill_reason entry s (allocate host s.bytes) (allocate_reason s.bytes))
