-- ===== src/Zip/Reader.antt =====
-- An independent ZIP reader after APPNOTE.TXT (4.3.7, 4.3.12, 4.3.14 to 4.3.16, 4.5.3): the format
-- that the writer is held to. It knows nothing of the writer but the record `CentralEntry`, in
-- which it lists what it finds.
use collapsar.Base.{
  ℕ, zero, suc, ◌+◌, ◌-◌, ◌*◌, ◌&&◌, ◌||◌, Option, none, some, Bytes, List, [], ◌∷◌, leb, ◌==◌,
  if◌then◌else◌, length, take, drop,
}
use collapsar.Zip.Structures.{
  lfh_signature, cdh_signature, eocd_signature, zip64_eocd_signature, zip64_eocd_locator_sig,
  extra_id_zip64, u32_max, u16_max,
}
use collapsar.Zip.Entry.{CentralEntry}

-- The little-endian number in the first `n` bytes.
abbrev pub number : ℕ → Bytes → ℕ
number zero bytes = 0
number (suc n) [] = 0
number (suc n) (b ∷ bytes) = b + 256 * number n bytes

-- The `n`-byte field at an offset.
abbrev pub field : ℕ → ℕ → Bytes → ℕ
field n offset bytes = number n (drop offset bytes)

-- A field of the Zip64 extra: there exactly if the 32-bit field holds the sentinel.
unfoldable pub extended : ℕ → Bytes → Option (ℕ × Bytes)
extended raw bytes =
    if raw == u32_max
    then (if leb 8 (length bytes) then some (number 8 bytes, drop 8 bytes) else none)
    else some (raw, bytes)

-- The data of the first extra field, if that is the Zip64 one.
unfoldable pub zip64_data : Bytes → Option Bytes
zip64_data extra =
    if leb 4 (length extra) && number 2 extra == extra_id_zip64
    then some (take (field 2 2 extra) (drop 4 extra))
    else none

-- The sizes and the offset: as they stand, or completed from the Zip64 extra field in the order
-- uncompressed, compressed, offset.
unfoldable pub resolve : ℕ → ℕ → ℕ → Option Bytes → Option (ℕ × ℕ × ℕ)
resolve usize csize offset none = some (usize, csize, offset)
resolve usize csize offset (some bytes) = elim (extended usize bytes) [
  | none ↦ none
  | some (u, bytes₁) ↦ elim (extended csize bytes₁) [
    | none ↦ none
    | some (c, bytes₂) ↦ elim (extended offset bytes₂) [
      | none ↦ none
      | some (o, bytes₃) ↦ some (u, c, o)
    ]
  ]
]

-- The fixed part of a central directory header.
pub record Fixed : Type 0 where
  pub signature : ℕ
  pub method : ℕ
  pub mod_time : ℕ
  pub mod_date : ℕ
  pub crc32 : ℕ
  pub csize : ℕ
  pub usize : ℕ
  pub name_len : ℕ
  pub extra_len : ℕ
  pub comment_len : ℕ
  pub offset : ℕ

unfoldable pub fixed : Bytes → Fixed
fixed h = record {
  signature = field 4 0 h;
  method = field 2 10 h;
  mod_time = field 2 12 h;
  mod_date = field 2 14 h;
  crc32 = field 4 16 h;
  csize = field 4 20 h;
  usize = field 4 24 h;
  name_len = field 2 28 h;
  extra_len = field 2 30 h;
  comment_len = field 2 32 h;
  offset = field 4 42 h;
}

-- The entry, if the sizes and the offset are there, and what follows its header.
unfoldable pub listed : Fixed → Bytes → Bytes → Option (ℕ × ℕ × ℕ) → Option (CentralEntry × Bytes)
listed f name rest none = none
listed f name rest (some (u, c, o)) = some (
  record {
    name = name;
    method = f.method;
    crc32 = f.crc32;
    compressed = c;
    uncompressed = u;
    lfh_offset = o;
    mod_time = f.mod_time;
    mod_date = f.mod_date;
  },
  rest,
)

-- One central directory header after its fixed part.
unfoldable pub read_variable : Fixed → Bytes → Option (CentralEntry × Bytes)
read_variable f bytes =
    let name = take f.name_len bytes in
    let after_name = drop f.name_len bytes in
    let extra = take f.extra_len after_name in
    let rest = drop f.comment_len (drop f.extra_len after_name) in
    listed f name rest (resolve f.usize f.csize f.offset (zip64_data extra))

unfoldable pub read_central : Bytes → Option (CentralEntry × Bytes)
read_central bytes =
    let f = fixed bytes in
    if f.signature == cdh_signature then read_variable f (drop 46 bytes) else none

-- So many central directory headers, one after the other.
unfoldable pub read_directory : ℕ → Bytes → Option (List CentralEntry)
read_directory zero bytes = some []
read_directory (suc n) bytes = elim (read_central bytes) [
  | none ↦ none
  | some (e, rest) ↦ elim (read_directory n rest) [ none ↦ none | some es ↦ some (e ∷ es) ]
]

-- The stored bytes of an entry: behind the local header at its offset.
unfoldable pub read_data : Bytes → CentralEntry → Option Bytes
read_data archive e =
    let h = drop e.lfh_offset archive in
    if field 4 0 h == lfh_signature
    then some (take e.compressed (drop (field 2 26 h + field 2 28 h) (drop 30 h)))
    else none

-- Where the central directory is: count, offset.
unfoldable pub zip64_directory : Bytes → Option (ℕ × ℕ)
zip64_directory archive =
    let locator = drop (length archive - 42) archive in
    let record64 = drop (field 8 8 locator) archive in
    if field 4 0 locator == zip64_eocd_locator_sig && field 4 0 record64 == zip64_eocd_signature
    then some (field 8 32 record64, field 8 48 record64)
    else none

-- The end record is looked for where it stands when the archive has no comment.
unfoldable pub find_directory : Bytes → Option (ℕ × ℕ)
find_directory archive =
    let eocd = drop (length archive - 22) archive in
    if field 4 0 eocd == eocd_signature
    then (if field 2 10 eocd == u16_max || field 4 12 eocd == u32_max || field 4 16 eocd == u32_max
        then zip64_directory archive
        else some (field 2 10 eocd, field 4 16 eocd))
    else none

-- Each entry with its stored bytes.
unfoldable pub read_all : Bytes → List CentralEntry → Option (List (CentralEntry × Bytes))
read_all archive [] = some []
read_all archive (e ∷ es) = elim (read_data archive e) [
  | none ↦ none
  | some data_bytes ↦ elim (read_all archive es) [
    | none ↦ none
    | some rest ↦ some ((e, data_bytes) ∷ rest)
  ]
]

unfoldable pub read_archive : Bytes → Option (List (CentralEntry × Bytes))
read_archive archive = elim (find_directory archive) [
  | none ↦ none
  | some (count, offset) ↦ elim (read_directory count (drop offset archive)) [
    | none ↦ none
    | some entries ↦ read_all archive entries
  ]
]
