-- ===== src/Zip/Headers.antt =====
-- What the reader finds in the headers that the writer fills.
use collapsar.Base.{ℕ, ◌+◌, ◌*◌, ◌/◌, ◌%◌, ◌^◌, ◌<◌, ◌≡◌, Bool, Bytes, ◌++◌, arith, length}
use collapsar.Zip.Structures.{cdh_signature}
use collapsar.Zip.Entry.{CentralEntry, field32, central_header}
use collapsar.Zip.Reader.{Fixed, fixed}

-- The widths of the fields: each value fits the type it has in the source, and the name's length
-- fits the 16 bits that the format has for it.
pub record IsEncodable (e : CentralEntry) : Type 0 where
  pub name_fits : length e.name < 2 ^ 16
  pub method_fits : e.method < 2 ^ 16
  pub crc32_fits : e.crc32 < 2 ^ 32
  pub compressed_fits : e.compressed < 2 ^ 64
  pub uncompressed_fits : e.uncompressed < 2 ^ 64
  pub lfh_offset_fits : e.lfh_offset < 2 ^ 64
  pub mod_time_fits : e.mod_time < 2 ^ 16
  pub mod_date_fits : e.mod_date < 2 ^ 16

abbrev pub le16 : ℕ → ℕ
le16 v = v % 256 + 256 * (v / 2 ^ 8 % 256 + 256 * 0)

abbrev pub le32 : ℕ → ℕ
le32 v =
    v % 256
    + 256 * (v / 2 ^ 8 % 256 + 256 * (v / 2 ^ 16 % 256 + 256 * (v / 2 ^ 24 % 256 + 256 * 0)))

le16_lem : (v : ℕ) → v < 2 ^ 16 → le16 v ≡ v
le16_lem v h = omega arith

pub le32_lem : (v : ℕ) → v < 2 ^ 32 → le32 v ≡ v
le32_lem v h = omega arith

pub le16_mod : (v : ℕ) → v < 2 ^ 16 → le16 (v % 2 ^ 16) ≡ v
le16_mod v h = omega arith

-- The value of eight bytes stored by `put64`.
abbrev pub le64 : ℕ → ℕ
le64 v =
    v / 2 ^ 0 % 256
    + 256
      * (v / 2 ^ 8 % 256
          + 256
            * (v / 2 ^ 16 % 256
                + 256
                  * (v / 2 ^ 24 % 256
                      + 256
                        * (v / 2 ^ 32 % 256
                            + 256
                              * (v / 2 ^ 40 % 256
                                  + 256
                                    * (v / 2 ^ 48 % 256 + 256 * (v / 2 ^ 56 % 256 + 256 * 0)))))))

pub le64_lem : (v : ℕ) → v < 2 ^ 64 → le64 v ≡ v
le64_lem v h = omega arith

pub field32-lt : (z : Bool) (v : ℕ) → field32 z v < 2 ^ 32
unfolding field32
field32-lt z v = ground arith

abbrev pub fixed_of : Bool → ℕ → CentralEntry → Fixed
fixed_of zip64 n e = record {
  signature = cdh_signature;
  method = e.method;
  mod_time = e.mod_time;
  mod_date = e.mod_date;
  crc32 = e.crc32;
  csize = field32 zip64 e.compressed;
  usize = field32 zip64 e.uncompressed;
  name_len = length e.name;
  extra_len = n;
  comment_len = 0;
  offset = field32 zip64 e.lfh_offset;
}

pub fixed-central_header :
    (z : Bool) (n : ℕ) (e : CentralEntry) (rest : Bytes)
    → IsEncodable e
    → n < 2 ^ 16
    → fixed (central_header z n e ++ rest) ≡ fixed_of z n e
unfolding fixed central_header
fixed-central_header z n e rest v h = λ i. record {
  signature = cdh_signature;
  method = le16_lem e.method v.method_fits i;
  mod_time = le16_lem e.mod_time v.mod_time_fits i;
  mod_date = le16_lem e.mod_date v.mod_date_fits i;
  crc32 = le32_lem e.crc32 v.crc32_fits i;
  csize = le32_lem (field32 z e.compressed) (field32-lt z e.compressed) i;
  usize = le32_lem (field32 z e.uncompressed) (field32-lt z e.uncompressed) i;
  name_len = le16_mod (length e.name) v.name_fits i;
  extra_len = le16_mod n h i;
  comment_len = 0;
  offset = le32_lem (field32 z e.lfh_offset) (field32-lt z e.lfh_offset) i;
}
