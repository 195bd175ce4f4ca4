-- ===== src/Codec/Crc32.antt =====
-- core/src/codec/crc32.hpp and crc32.cpp.
use collapsar.Base.{ℕ, ◌+◌, ◌-◌, ◌*◌, ◌%◌, ◌^◌, Bytes, [], ◌∷◌, leb, if◌then◌else◌}
use collapsar.Base.Int.{ℤ, pos, negsuc}
use collapsar.Codec.Zlib.{Zlib}

-- `value_`.
pub record Crc32 : Type 0 where
  pub value : ℕ

abbrev pub new_crc32 : Crc32
new_crc32 = record { value = 0 }

unfoldable pub update : Zlib → Crc32 → Bytes → Crc32
update z c [] = c
update z c (b ∷ bytes) = record { value = z.crc32_z c.value (b ∷ bytes) % 2 ^ 32 }

unfoldable pub compute : Zlib → Bytes → ℕ
compute z bytes = z.crc32_z 0 bytes % 2 ^ 32

-- `static_cast<z_off_t>(len)`: what is above the greatest value wraps around to the negative ones.
abbrev pub to_off : Zlib → ℕ → ℤ
to_off z len =
    let wrapped = len % (2 * z.off_max + 2) in
    if leb wrapped z.off_max then pos wrapped else negsuc (2 * z.off_max + 1 - wrapped)

unfoldable pub combine : Zlib → ℕ → ℕ → ℕ → ℕ
combine z crc1 crc2 len2 = z.crc32_combine crc1 crc2 (to_off z len2) % 2 ^ 32
