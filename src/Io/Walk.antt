-- ===== src/Io/Walk.antt =====
-- What the scan of a directory finds.
use mathlib.Core.List.{Perm}
use mathlib.Core.List.Perm
use collapsar.Base.{
  ℕ, ◌≡◌, refl, ap, subst, inl, inr, Bool, Bool-cases, List, [], ◌∷◌, map, if◌then◌else◌,
}
use collapsar.Core.Status.{Result, ok}
use collapsar.Core.Triple.{After, bind-After}
use collapsar.Core.Blocks.{FilePath, FileEntry}
use collapsar.Io.FileScanner.{
  FileSystem, DirectoryEntry, fetch_id, directory_file, scan_steps, sort_entries, scan_directory,
}
use collapsar.Io.Sorted.{IsSorted, IsAsymmetric, sort_entries-Perm, sort_entries-IsSorted}

abbrev pub sources_of : List FileEntry → List FilePath
sources_of = map (λ e. e.source)

module _ (fs : FileSystem) where
  -- The regular files of a walk, in its order.
  abbrev pub regular_files : List DirectoryEntry → List FilePath
  regular_files [] = []
  regular_files (de ∷ des) =
      if de.is_regular_file then fs.absolute de.path ∷ regular_files des else regular_files des

  abbrev Finds : List FilePath → Result (List FileEntry) × ℕ → Type 0
  Finds paths = After (λ entries after. sources_of entries ≡ paths) (λ after. Unit)

  scan_steps-Finds :
      (root : FilePath) (des : List DirectoryEntry) (next : ℕ)
      → Finds (regular_files des) (scan_steps fs root des next)
  unfolding scan_steps fetch_id directory_file
  scan_steps-Finds root [] next = refl
  scan_steps-Finds root (de ∷ des) next = elim (Bool-cases de.is_regular_file) [
    | inl file ↦
        rw (scan_steps, file)
          (bind-After (λ id t. Unit {0}) _ _ _ _ next tt
            (λ id t _.
              bind-After (λ entries after. sources_of entries ≡ regular_files des) _ _ _ _ t
                (scan_steps-Finds root des t)
                (λ rest after same. ap (◌∷◌ (fs.absolute de.path)) same)))
    | inr other ↦ rw (scan_steps, other) (scan_steps-Finds root des next)
  ]

  scan_directory-Sorts :
      IsAsymmetric fs
      → (input : FilePath) (recurse : Bool) (next : ℕ)
      → After
          (λ entries after.
            IsSorted fs entries
            × Perm (sources_of entries) (regular_files (fs.walk recurse input).0))
          (λ after. Unit)
          (scan_directory fs input recurse next)
  unfolding scan_directory
  scan_directory-Sorts asym input recurse next =
      bind-After (λ entries after. sources_of entries ≡ regular_files (fs.walk recurse input).0) _ _
        _ _ next (scan_steps-Finds input (fs.walk recurse input).0 next)
        (λ found after same. elim (Bool-cases (fs.walk recurse input).1) [
          | inl broken ↦ rw broken tt
          | inr whole ↦ rw whole (
            sort_entries-IsSorted fs asym found,
            subst (Perm (sources_of (sort_entries fs found))) same
                (Perm.map (λ e. e.source) (sort_entries-Perm fs found)),
          )
        ])

  -- If no path is before one that is before it, the scan of a directory that succeeds finds
  -- exactly the regular files of the walk, each as often, and orders them by their archive paths.
  pub scan_directory-sort_entries :
      IsAsymmetric fs
      → (input : FilePath) (recurse : Bool) (next after : ℕ) (entries : List FileEntry)
      → scan_directory fs input recurse next ≡ (ok entries, after)
      → IsSorted fs entries × Perm (sources_of entries) (regular_files (fs.walk recurse input).0)
  scan_directory-sort_entries asym input recurse next after entries is =
      subst
        (After
          (λ entries after.
            IsSorted fs entries
            × Perm (sources_of entries) (regular_files (fs.walk recurse input).0))
          (λ after. Unit))
        is (scan_directory-Sorts asym input recurse next)
