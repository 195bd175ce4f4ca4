-- ===== src/Core/Blocks.antt =====
-- What moves between the stages: FileEntry (core/src/io/file_scanner.hpp), FileBlock
-- (core/src/io/async_reader.hpp), PlainBlock and CompressedBlock (core/src/codec/i_codec.hpp),
-- PreparedFile (core/src/format/i_writer.hpp). A file time is the `time_t` it converts to.
use collapsar.Base.{ℕ, ◌++◌, Bool, List, [], ◌∷◌, Bytes}
use collapsar.Base.Int.{ℤ}

abbrev pub FilePath : Type 0
FilePath = Bytes

pub record FileEntry : Type 0 where
  pub id : ℕ
  pub source : FilePath
  pub archive_path : FilePath
  pub size_bytes : ℕ
  pub mtime : ℤ

-- `payload` holds the `used_bytes` bytes that were read.
pub record FileBlock : Type 0 where
  pub file_id : ℕ
  pub block_index : ℕ
  pub is_last : Bool
  pub logical_offset : ℕ
  pub payload : Bytes
  pub used_bytes : ℕ

pub record PlainBlock : Type 0 where
  pub file_id : ℕ
  pub block_index : ℕ
  pub is_last : Bool
  pub logical_offset : ℕ
  pub source : Bytes

pub record CompressedBlock : Type 0 where
  pub file_id : ℕ
  pub block_index : ℕ
  pub is_last : Bool
  pub logical_offset : ℕ
  pub bytes : Bytes
  pub crc32 : ℕ
  pub uncompressed : ℕ

pub record PreparedFile : Type 0 where
  pub entry : FileEntry
  pub blocks : List CompressedBlock
  pub file_crc32 : ℕ
  pub uncompressed : ℕ
  pub compressed : ℕ

-- The compressed bytes of the blocks, one after the other.
abbrev pub payloads : List CompressedBlock → Bytes
payloads [] = []
payloads (b ∷ bs) = b.bytes ++ payloads bs
