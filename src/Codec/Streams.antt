-- ===== src/Codec/Streams.antt =====
-- What `ZlibDeflateCodec::compress` makes of one block, and of a file of several blocks.
use collapsar.Base.{ℕ, ◌+◌, ◌%◌, ◌^◌, ◌<◌, ◌≡◌, refl, Option, some, Bytes, arith, ◌++◌, length}
use collapsar.Base.Slices.{take_all}
use collapsar.Codec.Widths.{mod_of_lt}
use collapsar.Core.Status.{ok}
use collapsar.Core.Options.{Level, fast, balanced, best}
use collapsar.Core.Blocks.{PlainBlock, CompressedBlock}
use collapsar.Codec.Zlib.{Zlib, DeflateLaws, IsLevel, Inflates}
use collapsar.Codec.Crc32.{compute}
use collapsar.Codec.Deflate.{level_to_zlib, compress}

-- The block that a source is compressed to.
abbrev pub deflated : Zlib → Level → Bytes → CompressedBlock → CompressedBlock
deflated z level source out = record out {
  bytes = (z.deflate (level_to_zlib level) source (z.bound (length source))).1;
  uncompressed = length source;
  crc32 = compute z source;
}

level_to_zlib-IsLevel : (level : Level) → IsLevel (level_to_zlib level)
unfolding level_to_zlib
level_to_zlib-IsLevel fast = (omega arith, omega arith)
level_to_zlib-IsLevel balanced = (omega arith, omega arith)
level_to_zlib-IsLevel best = (omega arith, omega arith)

small_mod : (n : ℕ) → n < 2 ^ 32 → n % 2 ^ 32 ≡ n
small_mod n h = omega arith

-- A source below 4 GiB, with a bound below 4 GiB, is compressed in one call.
pub compress_lem :
    (z : Zlib) (level : Level) (plain : PlainBlock) (out : CompressedBlock)
    → DeflateLaws z
    → length plain.source < 2 ^ 32
    → z.bound (length plain.source) < 2 ^ 32
    → compress z level plain out ≡ ok (deflated z level plain.source out)
unfolding compress
compress_lem z level plain out laws small bounded = rw (
  small_mod (length plain.source) small,
  mod_of_lt (length plain.source) (z.ulong_max + 1) (omega (arith, small, laws.ulong_wide)),
  small_mod (z.bound (length plain.source)) bounded,
  take_all plain.source (length plain.source) refl,
  laws.starts (level_to_zlib level) (level_to_zlib-IsLevel level),
  laws.finishes (level_to_zlib level) plain.source (z.bound (length plain.source))
      (level_to_zlib-IsLevel level) (omega arith),
)

-- An inflater takes the stream of one block off the front of what is stored.
pub inflate-deflated :
    (z : Zlib) (inflate : Bytes → Option (Bytes × Bytes)) (level : Level) (source : Bytes)
    (out : CompressedBlock) (rest : Bytes)
    → DeflateLaws z
    → Inflates z inflate
    → inflate ((deflated z level source out).bytes ++ rest) ≡ some (source, rest)
inflate-deflated z inflate level source out rest laws back =
    let room = z.bound (length source) in
    let ends =
      laws.finishes (level_to_zlib level) source room (level_to_zlib-IsLevel level) (omega arith) in
    back.finished (level_to_zlib level) source room _ rest
      (λ i. (ends i, (z.deflate (level_to_zlib level) source room).1))

-- With zlib that works, compression of a block below 4 GiB whose bound is below 4 GiB succeeds,
-- and an inflater gives back the source and leaves what stands behind the block.
pub inflate-compress :
    (z : Zlib) (inflate : Bytes → Option (Bytes × Bytes)) (level : Level) (plain : PlainBlock)
    (out : CompressedBlock) (rest : Bytes)
    → DeflateLaws z
    → Inflates z inflate
    → length plain.source < 2 ^ 32
    → z.bound (length plain.source) < 2 ^ 32
    → (b : CompressedBlock) × (compress z level plain out ≡ ok b)
      × (inflate (b.bytes ++ rest) ≡ some (plain.source, rest))
inflate-compress z inflate level plain out rest laws back small bounded = (
  deflated z level plain.source out,
  compress_lem z level plain out laws small bounded,
  inflate-deflated z inflate level plain.source out rest laws back,
)
