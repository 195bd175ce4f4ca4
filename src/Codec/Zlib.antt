-- ===== src/Codec/Zlib.antt =====
-- The zlib calls of the program, which are not part of the repository: parameters, with the
-- documented behaviour that the program relies on.
use collapsar.Base.{ℕ, ◌+◌, ◌^◌, ◌<◌, ◌≤◌, ◌≡◌, Option, some, Bool, true, Bytes, [], ◌++◌, length}
use collapsar.Base.Int.{ℤ, pos, negsuc, ◌≤ℤ◌}

pub record Zlib : Type 0 where
  -- `crc32_z(crc, data, size)`.
  pub crc32_z : ℕ → Bytes → ℕ
  -- The greatest values of `z_off_t`, which is signed, and of `uLong`, which is not. How wide they
  -- are depends on the platform.
  pub off_max : ℕ
  pub ulong_max : ℕ
  -- `crc32_combine(crc1, crc2, len2)`, with a signed length.
  pub crc32_combine : ℕ → ℕ → ℤ → ℕ
  -- Whether `deflateInit2` returns `Z_OK` at a level.
  pub init_ok : ℤ → Bool
  -- `deflateBound` for a source of so many bytes.
  pub bound : ℕ → ℕ
  -- `deflate(Z_FINISH)` at a level on the bytes of `avail_in`, with `avail_out` bytes of room: the
  -- return code and the bytes put out.
  pub deflate : ℤ → Bytes → ℕ → ℕ × Bytes

-- `Z_STREAM_END`.
abbrev pub z_stream_end : ℕ
z_stream_end = 1

-- The CRC of a concatenation can be combined from the CRCs of its parts, if the length of the second
-- is a `z_off_t`; that of nothing is 0; a CRC is a 32-bit value.
pub record CrcLaws (z : Zlib) : Type 0 where
  pub combines :
      (a b : Bytes)
      → length b ≤ z.off_max
      → z.crc32_combine (z.crc32_z 0 a) (z.crc32_z 0 b) (pos (length b)) ≡ z.crc32_z 0 (a ++ b)
  pub of_nothing : z.crc32_z 0 [] ≡ 0
  pub in_range : (crc : ℕ) (a : Bytes) → z.crc32_z crc a < 2 ^ 32
  pub combined_in_range : (a b : ℕ) (n : ℤ) → z.crc32_combine a b n < 2 ^ 32

-- An inflater takes one raw deflate stream off the front of its input: a finished stream decodes to
-- its source, and what follows the final block is left over (RFC 1951, 3.2.3).
pub record Inflates (z : Zlib) (inflate : Bytes → Option (Bytes × Bytes)) : Type 0 where
  pub finished :
      (level : ℤ) (source : Bytes) (room : ℕ) (out rest : Bytes)
      → z.deflate level source room ≡ (z_stream_end, out)
      → inflate (out ++ rest) ≡ some (source, rest)

-- The levels that zlib knows: `Z_DEFAULT_COMPRESSION`, and 0 to 9.
abbrev pub IsLevel : ℤ → Type 0
IsLevel level = (negsuc 0 ≤ℤ level) × (level ≤ℤ pos 9)

-- `uLong`, the C type `unsigned long`, has at least 32 bits; `deflateInit2` has the memory that it
-- asks for, and `deflate(Z_FINISH)` with at least `deflateBound` bytes of room ends the stream in one
-- call.
pub record DeflateLaws (z : Zlib) : Type 0 where
  pub ulong_wide : 2 ^ 32 ≤ z.ulong_max + 1
  pub starts : (level : ℤ) → IsLevel level → z.init_ok level ≡ true
  pub finishes :
      (level : ℤ) (source : Bytes) (room : ℕ)
      → IsLevel level
      → z.bound (length source) ≤ room
      → (z.deflate level source room).0 ≡ z_stream_end
