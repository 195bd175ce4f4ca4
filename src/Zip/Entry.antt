-- ===== src/Zip/Entry.antt =====
-- `CentralEntry` and the headers that are built from it: the buffers that `write_local_header` and
-- `write_central_entry` fill.
use collapsar.Base.{
  ℕ, ◌+◌, ◌-◌, ◌%◌, ◌^◌, ◌≡◌, refl, Bool, ◌||◌, Bytes, [], ◌∷◌, leb, if◌then◌else◌, length,
  replicate, take,
}
use collapsar.Zip.Bytes.{◌▷◌, put16, put32, put64}
use collapsar.Zip.Structures.{
  lfh_signature, cdh_signature, extra_id_zip64, u32_max, version_deflate, version_zip64,
}

pub record CentralEntry : Type 0 where
  pub name : Bytes
  pub method : ℕ
  pub crc32 : ℕ
  pub compressed : ℕ
  pub uncompressed : ℕ
  pub lfh_offset : ℕ
  pub mod_time : ℕ
  pub mod_date : ℕ

unfoldable pub needs_zip64 : CentralEntry → Bool
needs_zip64 e = leb u32_max e.compressed || leb u32_max e.uncompressed || leb u32_max e.lfh_offset

unfoldable pub version_of : Bool → ℕ
version_of zip64 = if zip64 then version_zip64 else version_deflate

-- A 32-bit field: the sentinel, or the value as a `uint32_t`.
unfoldable pub field32 : Bool → ℕ → ℕ
field32 zip64 v = if zip64 then u32_max else v % 2 ^ 32

-- `hdr` of `write_local_header`, for a flag `zip64`.
unfoldable pub local_header : Bool → CentralEntry → Bytes
unfolding put16 put32 version_of field32
local_header zip64 e =
    replicate 30 0
    ▷ put32 0 lfh_signature
    ▷ put16 4 (version_of zip64)
    ▷ put16 6 0
    ▷ put16 8 e.method
    ▷ put16 10 e.mod_time
    ▷ put16 12 e.mod_date
    ▷ put32 14 e.crc32
    ▷ put32 18 (field32 zip64 e.compressed)
    ▷ put32 22 (field32 zip64 e.uncompressed)
    ▷ put16 26 (length e.name % 2 ^ 16)
    ▷ put16 28 (if zip64 then 20 else 0)

-- `extra` of `write_local_header`.
unfoldable pub local_extra : CentralEntry → Bytes
unfolding put16 put64
local_extra e =
    replicate 20 0
    ▷ put16 0 extra_id_zip64
    ▷ put16 2 16
    ▷ put64 4 e.uncompressed
    ▷ put64 12 e.compressed

-- One `if (v >= U32_MAX) { put64(&extra[cursor], v); cursor += 8; }`.
unfoldable pub put_overflow : ℕ → Bytes × ℕ → Bytes × ℕ
unfolding put64
put_overflow v (extra, cursor) =
    if leb u32_max v then (put64 cursor v extra, cursor + 8) else (extra, cursor)

-- `extra` and `cursor` of `write_central_entry` after the three tests.
unfoldable pub overflow_fields : CentralEntry → Bytes × ℕ
unfolding put_overflow
overflow_fields e =
    put_overflow e.lfh_offset
      (put_overflow e.compressed (put_overflow e.uncompressed (replicate 28 0, 4)))

-- The first `extra_len` bytes of `extra`.
unfoldable pub central_extra : CentralEntry → Bytes
unfolding put16 overflow_fields
central_extra e =
    let (extra, cursor) = overflow_fields e in
    take cursor (extra ▷ put16 0 extra_id_zip64 ▷ put16 2 ((cursor - 4) % 2 ^ 16))

-- `hdr` of `write_central_entry`.
unfoldable pub central_header : Bool → ℕ → CentralEntry → Bytes
unfolding put16 put32 version_of field32
central_header zip64 extra_len e =
    replicate 46 0
    ▷ put32 0 cdh_signature
    ▷ put16 4 (version_of zip64)
    ▷ put16 6 (version_of zip64)
    ▷ put16 8 0
    ▷ put16 10 e.method
    ▷ put16 12 e.mod_time
    ▷ put16 14 e.mod_date
    ▷ put32 16 e.crc32
    ▷ put32 20 (field32 zip64 e.compressed)
    ▷ put32 24 (field32 zip64 e.uncompressed)
    ▷ put16 28 (length e.name % 2 ^ 16)
    ▷ put16 30 (extra_len % 2 ^ 16)
    ▷ put16 32 0
    ▷ put16 34 0
    ▷ put16 36 0
    ▷ put32 38 0
    ▷ put32 42 (field32 zip64 e.lfh_offset)

sample : CentralEntry
sample = record {
  name = b'a' ∷ [];
  method = 8;
  crc32 = 0x01020304;
  compressed = 5;
  uncompressed = 0x1_0000_0000;
  lfh_offset = 7;
  mod_time = 0;
  mod_date = 33;
}

central_extra-sample : central_extra sample ≡ 1 ∷ 0 ∷ 8 ∷ 0 ∷ 0 ∷ 0 ∷ 0 ∷ 0 ∷ 1 ∷ 0 ∷ 0 ∷ 0 ∷ []
unfolding central_extra sample
central_extra-sample = refl
