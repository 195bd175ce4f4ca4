-- ===== src/Gzip/Reader.antt =====
-- An independent reader of a gzip member with no optional fields, after RFC 1952 section 2.3.
use collapsar.Base.{
  ℕ, ◌-◌, ◌&&◌, Option, none, some, Bytes, leb, ◌==◌, if◌then◌else◌, length, take, drop,
}
use collapsar.Zip.Reader.{field}

pub record Member : Type 0 where
  pub mtime : ℕ
  pub stored : Bytes
  pub crc32 : ℕ
  pub isize : ℕ

unfoldable pub read_member : Bytes → Option Member
read_member bytes =
    let n = length bytes in
    if leb 18 n && field 2 0 bytes == 0x8b1f && field 1 2 bytes == 8 && field 1 3 bytes == 0
    then some (record {
      mtime = field 4 4 bytes;
      stored = take (n - 18) (drop 10 bytes);
      crc32 = field 4 0 (drop (n - 8) bytes);
      isize = field 4 4 (drop (n - 8) bytes);
    })
    else none
