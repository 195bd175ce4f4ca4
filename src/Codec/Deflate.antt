-- ===== src/Codec/Deflate.antt =====
-- core/src/codec/zlib_deflate_codec.cpp.
use collapsar.Base.{◌+◌, ◌%◌, ◌^◌, ◌++◌, text, decimal, ◌==◌, if◌then◌else◌, length, take}
use collapsar.Base.Int.{ℤ, pos, negsuc}
use collapsar.Core.Status.{Result, ok, err, make_error, codec_error}
use collapsar.Core.Options.{Level, fast, balanced, best}
use collapsar.Core.Blocks.{PlainBlock, CompressedBlock}
use collapsar.Codec.Zlib.{Zlib, z_stream_end}
use collapsar.Codec.Crc32.{compute}

-- `Z_BEST_SPEED`, `Z_DEFAULT_COMPRESSION` and `Z_BEST_COMPRESSION`.
unfoldable pub level_to_zlib : Level → ℤ
level_to_zlib fast = pos 1
level_to_zlib balanced = negsuc 0
level_to_zlib best = pos 9

-- `ZlibDeflateCodec::compress`. `deflateBound` takes the size as a `uLong`; `avail_in` and `avail_out`
-- are 32 bits wide. A return code is printed
-- as the number that it is; what `out` holds after an error is never read.
unfoldable pub compress : Zlib → Level → PlainBlock → CompressedBlock → Result CompressedBlock
compress z level plain out =
    let size = length plain.source in
    let (rc, bytes) =
      z.deflate (level_to_zlib level) (take (size % 2 ^ 32) plain.source)
        (z.bound (size % (z.ulong_max + 1)) % 2 ^ 32) in
    if z.init_ok (level_to_zlib level)
    then (if rc == z_stream_end
        then ok (record out { bytes = bytes; uncompressed = size; crc32 = compute z plain.source })
        else err (
            make_error codec_error
              (text "deflate did not finish (rc=" ++ (decimal rc ++ text ")"))))
    else err (make_error codec_error (text "deflateInit2 failed"))
