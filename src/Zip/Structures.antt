-- ===== src/Zip/Structures.antt =====
-- core/src/format/zip_structures.hpp.
use collapsar.Base.{ℕ}

abbrev pub lfh_signature : ℕ
lfh_signature = 0x04034b50

abbrev pub cdh_signature : ℕ
cdh_signature = 0x02014b50

abbrev pub eocd_signature : ℕ
eocd_signature = 0x06054b50

abbrev pub zip64_eocd_signature : ℕ
zip64_eocd_signature = 0x06064b50

abbrev pub zip64_eocd_locator_sig : ℕ
zip64_eocd_locator_sig = 0x07064b50

abbrev pub method_deflate : ℕ
method_deflate = 8

abbrev pub extra_id_zip64 : ℕ
extra_id_zip64 = 0x0001

abbrev pub u32_max : ℕ
u32_max = 0xffff_ffff

abbrev pub u16_max : ℕ
u16_max = 0xffff

abbrev pub version_deflate : ℕ
version_deflate = 20

abbrev pub version_zip64 : ℕ
version_zip64 = 45
