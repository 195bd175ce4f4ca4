-- ===== src/Codec/Factory.antt =====
-- core/src/codec/codec_factory.cpp. Whether the build has CUDA, and what creating the nvCOMP codec
-- answers, are parameters.
use collapsar.Base.{ℕ, ◌*◌, ◌/◌, ◌%◌, ◌^◌, Bool, Option, none, some, text, if◌then◌else◌}
use Prim.Native.Nat.{max}
use collapsar.Base.Int.{ℤ}
use collapsar.Core.Status.{Result, ok, err, make_error, unsupported}
use collapsar.Core.Options.{Level, Format, zip, gzip, zstd, EngineOptions, JobOptions}
use collapsar.Core.Blocks.{PlainBlock, CompressedBlock}
use mathlib.Core.List.{List}

-- `IBatchCodec::compress_batch`: the blocks that are to be filled in come back filled in.
abbrev pub BatchCodec : Type 0
BatchCodec = List PlainBlock → List CompressedBlock → Result (List CompressedBlock)

-- The build and the GPU: `NvcompDeflateCodec::create(device, streams, per_stream_bytes)`.
pub record Gpu : Type 0 where
  pub has_cuda : Bool
  pub create : ℤ → ℕ → ℕ → Result BatchCodec

pub record CodecBundle : Type 0 where
  pub cpu : Level
  pub gpu : Option BatchCodec

unfoldable pub per_stream_bytes : EngineOptions → ℕ
per_stream_bytes engine =
    engine.gpu_memory_budget_mib * 1024 * 1024 % 2 ^ 64 / max engine.gpu_streams 1

-- `bundle.gpu = …` of a successful `create`.
abbrev pub with_gpu : Level → Result BatchCodec → Result CodecBundle
with_gpu level (ok codec) = ok (record { cpu = level; gpu = some codec })
with_gpu level (err e) = err e

-- The rest of `make_codecs`, for the formats that have a CPU codec.
unfoldable pub make_gpu_codec : Gpu → EngineOptions → Level → Result CodecBundle
unfolding per_stream_bytes
make_gpu_codec gpu engine level =
    if engine.enable_gpu
    then (if gpu.has_cuda
        then with_gpu level
            (gpu.create engine.cuda_device engine.gpu_streams (per_stream_bytes engine))
        else ok (record { cpu = level; gpu = none }))
    else ok (record { cpu = level; gpu = none })

unfoldable pub codecs_for : Gpu → EngineOptions → Level → Format → Result CodecBundle
unfolding make_gpu_codec
codecs_for gpu engine level zip = make_gpu_codec gpu engine level
codecs_for gpu engine level gzip = make_gpu_codec gpu engine level
codecs_for gpu engine level zstd =
    err (make_error unsupported (text "Zstd format not yet implemented (CPU path)"))

unfoldable pub make_codecs : Gpu → EngineOptions → JobOptions → Result CodecBundle
unfolding codecs_for
make_codecs gpu engine job = codecs_for gpu engine job.level job.format
