-- ===== src/Io/Sorted.antt =====
-- The sort of `scan`.
use mathlib.Core.List.{Perm}
use mathlib.Core.List.Perm
use collapsar.Base.{
  suc, length, ◌≡◌, refl, ap, ◌∙◌, inl, inr, true, false, Bool-cases, List, [], ◌∷◌,
}
use collapsar.Core.Blocks.{FilePath, FileEntry}
use collapsar.Io.FileScanner.{FileSystem, insert_entry, sort_entries}

module _ (fs : FileSystem) where
  -- `e` may stand in front of the list.
  abbrev MayPrecede : FileEntry → List FileEntry → Type 0
  MayPrecede e [] = Unit
  MayPrecede e (x ∷ xs) = fs.path_lt x.archive_path e.archive_path ≡ false

  abbrev pub IsSorted : List FileEntry → Type 0
  IsSorted [] = Unit
  IsSorted (x ∷ xs) = MayPrecede x xs × IsSorted xs

  -- No path is before one that is before it.
  abbrev pub IsAsymmetric : Type 0
  IsAsymmetric = (a b : FilePath) → fs.path_lt a b ≡ true → fs.path_lt b a ≡ false

  insert_entry-Perm :
      (e : FileEntry) (entries : List FileEntry) → Perm (insert_entry fs e entries) (e ∷ entries)
  unfolding insert_entry
  insert_entry-Perm e [] = Perm.refl (e ∷ [])
  insert_entry-Perm e (x ∷ xs) = elim (Bool-cases (fs.path_lt x.archive_path e.archive_path)) [
    | inl before ↦ rw before (Perm.trans (Perm.cons x (insert_entry-Perm e xs)) (Perm.swap e x xs))
    | inr here ↦ rw here (Perm.refl (e ∷ x ∷ xs))
  ]

  pub sort_entries-Perm : (entries : List FileEntry) → Perm (sort_entries fs entries) entries
  unfolding sort_entries
  sort_entries-Perm [] = Perm.refl []
  sort_entries-Perm (x ∷ xs) =
      Perm.trans (insert_entry-Perm x (sort_entries fs xs)) (Perm.cons x (sort_entries-Perm xs))

  insert_entry-MayPrecede :
      (e x : FileEntry) (xs : List FileEntry)
      → fs.path_lt e.archive_path x.archive_path ≡ false
      → MayPrecede x xs
      → MayPrecede x (insert_entry fs e xs)
  unfolding insert_entry
  insert_entry-MayPrecede e x [] after may = after
  insert_entry-MayPrecede e x (y ∷ ys) after may =
      elim (Bool-cases (fs.path_lt y.archive_path e.archive_path)) [
        | inl before ↦ rw before may
        | inr here ↦ rw here after
      ]

  insert_entry-IsSorted :
      IsAsymmetric
      → (e : FileEntry) (entries : List FileEntry) → IsSorted entries
      → IsSorted (insert_entry fs e entries)
  unfolding insert_entry
  insert_entry-IsSorted asym e [] sorted = (tt, tt)
  insert_entry-IsSorted asym e (x ∷ xs) (first, sorted) =
      elim (Bool-cases (fs.path_lt x.archive_path e.archive_path)) [
        | inl before ↦ rw before (
          insert_entry-MayPrecede e x xs (asym x.archive_path e.archive_path before) first,
          insert_entry-IsSorted asym e xs sorted,
        )
        | inr here ↦ rw here (here, (first, sorted))
      ]

  pub sort_entries-IsSorted :
      IsAsymmetric → (entries : List FileEntry) → IsSorted (sort_entries fs entries)
  unfolding sort_entries
  sort_entries-IsSorted asym [] = tt
  sort_entries-IsSorted asym (x ∷ xs) =
      insert_entry-IsSorted asym x (sort_entries fs xs) (sort_entries-IsSorted asym xs)

  length-insert_entry :
      (e : FileEntry) (entries : List FileEntry)
      → length (insert_entry fs e entries) ≡ suc (length entries)
  unfolding insert_entry
  length-insert_entry e [] = refl
  length-insert_entry e (x ∷ xs) = elim (Bool-cases (fs.path_lt x.archive_path e.archive_path)) [
    | inl before ↦ rw before (ap suc (length-insert_entry e xs))
    | inr here ↦ rw here refl
  ]

  pub length-sort_entries :
      (entries : List FileEntry) → length (sort_entries fs entries) ≡ length entries
  unfolding sort_entries
  length-sort_entries [] = refl
  length-sort_entries (x ∷ xs) =
      length-insert_entry x (sort_entries fs xs) ∙ ap suc (length-sort_entries xs)
