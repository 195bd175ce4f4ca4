-- ===== src/Zip/Layout.antt =====
-- A whole archive as bytes, and the reader on it.
use collapsar.Base.{
  ℕ, suc, ◌+◌, ◌^◌, ◌≤◌, ◌<◌, ◌≡◌, refl, ap, sym, ◌∙◌, Bool, true, false, ◌||◌, Bytes, List, [],
  ◌∷◌, ◌++◌, some, arith, if◌then◌else◌, length, drop, Bool-cases, inl, inr, subst, append_assoc,
  length-append,
}
use collapsar.Base.Slices.{drop-append}
use collapsar.Zip.Entry.{CentralEntry, needs_zip64, central_header}
use collapsar.Zip.Writer.{archive_is_zip64, zip64_eocd, zip64_locator, classic_eocd}
use collapsar.Zip.Reader.{
  read_data, read_all, read_central, read_directory, find_directory, read_archive,
}
use collapsar.Zip.Headers.{IsEncodable}
use collapsar.Zip.Directory.{IsUniform, central_record, read_central-central_record}
use collapsar.Zip.Locate.{
  local_record, read_data-local_record, find_directory-classic, find_directory-zip64,
}

-- An entry with its stored bytes.
abbrev pub Item : Type 0
Item = CentralEntry × Bytes

abbrev pub entries : List Item → List CentralEntry
entries [] = []
entries ((e, stored) ∷ items) = e ∷ entries items

-- Local headers and stored bytes, one item after the other.
abbrev pub bodies : List Item → Bytes
bodies [] = []
bodies ((e, stored) ∷ items) = local_record e ++ (stored ++ bodies items)

abbrev pub directory : List CentralEntry → Bytes
directory [] = []
directory (e ∷ es) = central_record e ++ directory es

-- The end records behind a body and a directory of these lengths.
abbrev pub trailer : Bool → ℕ → ℕ → ℕ → Bytes
trailer zip64 count cd_size cd_offset =
    if zip64
    then zip64_eocd count cd_size cd_offset
      ++ (zip64_locator (cd_offset + cd_size) ++ classic_eocd true count cd_size cd_offset)
    else classic_eocd false count cd_size cd_offset

abbrev pub any_zip64 : List CentralEntry → Bool
any_zip64 [] = false
any_zip64 (e ∷ es) = needs_zip64 e || any_zip64 es

unfoldable pub is_zip64 : List Item → Bool
is_zip64 items =
    archive_is_zip64 (any_zip64 (entries items)) (length items) (length (directory (entries items)))
      (length (bodies items))

unfoldable pub archive : List Item → Bytes
archive items =
    bodies items
    ++ (directory (entries items)
        ++ trailer (is_zip64 items) (length items) (length (directory (entries items)))
            (length (bodies items)))

-- Each item stands at the offset that its entry names, with as many bytes as its entry says.
abbrev pub IsPlaced : ℕ → List Item → Type 0
IsPlaced offset [] = Unit {0}
IsPlaced offset ((e, stored) ∷ items) =
    ((e.lfh_offset ≡ offset) × (e.compressed ≡ length stored) × IsEncodable e × IsUniform e)
    × IsPlaced (offset + length (local_record e) + length stored) items

module _ (e : CentralEntry) (stored : Bytes) (items : List Item) (before after : Bytes) where
  abbrev whole : Bytes
  whole = before ++ ((local_record e ++ (stored ++ bodies items)) ++ after)

  whole-here : whole ≡ before ++ (local_record e ++ (stored ++ (bodies items ++ after)))
  whole-here = simp append_assoc

  whole-there : whole ≡ (before ++ (local_record e ++ stored)) ++ (bodies items ++ after)
  whole-there = simp append_assoc

  read_all_step :
      read_data whole e ≡ some stored
      → read_all whole (entries items) ≡ some items
      → read_all whole (e ∷ entries items) ≡ some ((e, stored) ∷ items)
  unfolding read_all
  read_all_step here there = rw (here, there, read_all)

length-local_record_stored :
    (e : CentralEntry) (stored before : Bytes)
    → length before + length (local_record e) + length stored
      ≡ length (before ++ (local_record e ++ stored))
length-local_record_stored e stored before =
    omega (
      arith,
      length-append before (local_record e ++ stored),
      length-append (local_record e) stored,
    )

-- Every item of a body is found, wherever the body stands.
read_all-bodies :
    (items : List Item) (before after : Bytes)
    → IsPlaced (length before) items
    → read_all (before ++ (bodies items ++ after)) (entries items) ≡ some items
read_all-bodies [] before after p = unfold read_all in refl
read_all-bodies ((e, stored) ∷ items) before after ((ho, hc, v, u), p) =
    read_all_step e stored items before after
      (rw (whole-here e stored items before after)
        (read_data-local_record e before stored (bodies items ++ after) v.name_fits ho hc))
      (rw (whole-there e stored items before after) (
        read_all-bodies items (before ++ (local_record e ++ stored)) after
          (subst (λ n. IsPlaced n items) (length-local_record_stored e stored before) p)))

read_directory_step :
    (e : CentralEntry) (es : List CentralEntry) (bytes rest : Bytes)
    → read_central bytes ≡ some (e, rest)
    → read_directory (length es) rest ≡ some es
    → read_directory (length (e ∷ es)) bytes ≡ some (e ∷ es)
unfolding read_directory
read_directory_step e es bytes rest h k = rw (h, k, read_directory)

read_directory-directory :
    (items : List Item) (offset : ℕ) (rest : Bytes)
    → IsPlaced offset items
    → read_directory (length (entries items)) (directory (entries items) ++ rest)
      ≡ some (entries items)
read_directory-directory [] offset rest p = unfold read_directory in refl
read_directory-directory ((e, stored) ∷ items) offset rest ((ho, hc, v, u), p) =
    read_directory_step e (entries items) _ (directory (entries items) ++ rest)
      (rw append_assoc (read_central-central_record e (directory (entries items) ++ rest) v u))
      (read_directory-directory items _ rest p)

pub length-entries : (items : List Item) → length (entries items) ≡ length items
length-entries [] = refl
length-entries ((e, stored) ∷ items) = ap suc (length-entries items)

-- Every directory entry takes room, so their number is bounded by the directory's length.
length-directory : (items : List Item) → length items ≤ length (directory (entries items))
unfolding central_record central_header
length-directory [] = omega arith
length-directory ((e, stored) ∷ items) =
    omega
      (arith, length-append (central_record e) (directory (entries items)), length-directory items)

module _ (items : List Item)
    (h : length (bodies items) + length (directory (entries items)) < 2 ^ 64) where
  abbrev n_bodies : ℕ
  n_bodies = length (bodies items)

  abbrev n_directory : ℕ
  n_directory = length (directory (entries items))

  find_zip64 :
      find_directory (
        bodies items
        ++ (directory (entries items) ++ trailer true (length items) n_directory n_bodies))
      ≡ some (length items, n_bodies)
  find_zip64 =
      ap find_directory (
        sym (append_assoc (bodies items) (directory (entries items)) _)
        ∙ ap
            (λ k.
              (bodies items ++ directory (entries items))
              ++ (zip64_eocd (length items) n_directory n_bodies
                  ++ (zip64_locator k ++ classic_eocd true (length items) n_directory n_bodies)))
            (sym (length-append (bodies items) (directory (entries items)))))
      ∙ find_directory-zip64 (bodies items ++ directory (entries items)) (length items) n_directory
          n_bodies (omega (arith, length-append (bodies items) (directory (entries items))))
          (omega (arith, length-directory items)) (omega arith)

  find_classic :
      is_zip64 items ≡ false
      → find_directory (
          bodies items
          ++ (directory (entries items) ++ trailer false (length items) n_directory n_bodies))
        ≡ some (length items, n_bodies)
  unfolding is_zip64 archive_is_zip64
  find_classic small =
      ap find_directory (sym (append_assoc (bodies items) (directory (entries items)) _))
      ∙ find_directory-classic (bodies items ++ directory (entries items)) (length items)
          n_directory n_bodies (ground arith) (ground arith) (ground arith)

  find_directory-archive : find_directory (archive items) ≡ some (length items, n_bodies)
  unfolding archive
  find_directory-archive = elim (Bool-cases (is_zip64 items)) [
    | inl big ↦ rw big find_zip64
    | inr small ↦ rw small (find_classic small)
  ]

directory-archive :
    (items : List Item)
    → IsPlaced 0 items
    → read_directory (length items) (drop (length (bodies items)) (archive items))
      ≡ some (entries items)
unfolding archive
directory-archive items p =
    rw (drop-append (bodies items) _ (length (bodies items)) refl)
      (rw (← length-entries items) (read_directory-directory items 0 _ p))

-- The reader finds every item of a well-formed archive below 2^64 bytes, in order, with its bytes.
pub read_archive-archive :
    (items : List Item)
    → IsPlaced 0 items
    → length (bodies items) + length (directory (entries items)) < 2 ^ 64
    → read_archive (archive items) ≡ some items
unfolding read_archive
read_archive-archive items p h =
    rw (find_directory-archive items h, directory-archive items p, read_archive)
      (unfold archive read_archive in read_all-bodies items [] _ p)
