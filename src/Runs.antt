-- ===== src/Runs.antt =====
-- Small inputs on which the theorems about the other modules are applied.
mod Archives
mod Members
mod Files
mod Jobs
mod Archived
mod Engines
mod Scans
mod Events
mod Buffers
mod Commands
mod Pools
mod Devices
mod Bridges
mod Schedules
mod Races
use collapsar.Base.{true, false, Bytes, List, [], ◌∷◌}
use collapsar.Base.Int.{pos}
use collapsar.Core.Blocks.{FileEntry, CompressedBlock, PreparedFile}
use collapsar.Io.Disk.{Disk}
use collapsar.Zip.DosTime.{zip_epoch}
use collapsar.Zip.Entry.{CentralEntry}

abbrev pub empty_disk : Disk
empty_disk = record {
  exists = λ p. false;
  parent_path = λ p. [];
  openable = λ d p. true;
  capacity = 1000;
  flushes = true;
  localtime = λ t. zip_epoch;
}

abbrev pub entry_named : Bytes → FileEntry
entry_named name = record {
  id = 1;
  source = name;
  archive_path = name;
  size_bytes = 3;
  mtime = pos 0;
}

abbrev pub block : Bytes → CompressedBlock
block bytes = record {
  file_id = 1;
  block_index = 0;
  is_last = true;
  logical_offset = 0;
  bytes = bytes;
  crc32 = 7;
  uncompressed = 3;
}

abbrev pub prepared : Bytes → Bytes → PreparedFile
prepared name bytes = record {
  entry = entry_named name;
  blocks = block bytes ∷ [];
  file_crc32 = 7;
  uncompressed = 3;
  compressed = 2;
}

abbrev pub two_files : List PreparedFile
two_files = prepared (b'a' ∷ []) (1 ∷ 2 ∷ []) ∷ prepared (b'/' ∷ b'b' ∷ []) (3 ∷ 4 ∷ []) ∷ []

-- A directory entry of a small file, and one of a compressible file of 5 GiB.
abbrev pub small_entry : CentralEntry
small_entry = record {
  name = b'a' ∷ [];
  method = 8;
  crc32 = 7;
  compressed = 2;
  uncompressed = 3;
  lfh_offset = 0;
  mod_time = 0;
  mod_date = 33;
}

abbrev pub large_entry : CentralEntry
large_entry = record small_entry { compressed = 9; uncompressed = 5368709120 }
