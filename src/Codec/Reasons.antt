-- ===== src/Codec/Reasons.antt =====
-- The errors of the codecs and of the factory.
use collapsar.Base.{ℕ, ◌≡◌, refl, Bool, true, false, Option, none, some, List, if◌then◌else◌}
use collapsar.Base.Int.{ℤ}
use collapsar.Core.Status.{Result, ok, err, is_ok}
use collapsar.Core.Reason.{HasReason, fine, because, if_result}
use collapsar.Core.Options.{Level, Format, zip, gzip, zstd, EngineOptions, JobOptions}
use collapsar.Core.Blocks.{PlainBlock, CompressedBlock}
use collapsar.Codec.Zlib.{Zlib}
use collapsar.Codec.Deflate.{compress}
use collapsar.Codec.Factory.{
  BatchCodec, Gpu, CodecBundle, with_gpu, per_stream_bytes, make_gpu_codec, codecs_for, make_codecs,
}

pub compress_reason :
    (z : Zlib) (level : Level) (plain : PlainBlock) (out : CompressedBlock)
    → HasReason (compress z level plain out)
unfolding compress
compress_reason z level plain out =
    if_result _ _ _ (if_result _ _ _ fine (because refl)) (because refl)

-- A GPU codec whose failures do not have the code Ok.
abbrev pub AnswersWell : BatchCodec → Type 0
AnswersWell codec =
    (blocks : List PlainBlock) (out : List CompressedBlock) → HasReason (codec blocks out)

abbrev pub MadeWell : Result BatchCodec → Type 0
MadeWell (ok codec) = AnswersWell codec
MadeWell (err e) = is_ok e.code ≡ false

abbrev pub BehavesWell : Gpu → Type 0
BehavesWell cuda = (device : ℤ) (streams bytes : ℕ) → MadeWell (cuda.create device streams bytes)

-- What the factory hands to a job.
abbrev pub OptionWell : Option BatchCodec → Type 0
OptionWell none = Unit
OptionWell (some codec) = AnswersWell codec

abbrev pub BundleWell : Result CodecBundle → Type 0
BundleWell (ok codecs) = OptionWell codecs.gpu
BundleWell (err e) = is_ok e.code ≡ false

with_gpu_well : (level : Level) (r : Result BatchCodec) → MadeWell r → BundleWell (with_gpu level r)
with_gpu_well level (ok codec) h = h
with_gpu_well level (err e) why = why

if_well :
    (b : Bool) (x y : Result CodecBundle)
    → BundleWell x
    → BundleWell y
    → BundleWell (if b then x else y)
if_well true x y h k = h
if_well false x y h k = k

module _ (cuda : Gpu) (behaves : BehavesWell cuda) (engine : EngineOptions) where
  make_gpu_codec_well : (level : Level) → BundleWell (make_gpu_codec cuda engine level)
  unfolding make_gpu_codec
  make_gpu_codec_well level =
      let created = cuda.create engine.cuda_device engine.gpu_streams (per_stream_bytes engine) in
      if_well engine.enable_gpu
        (if cuda.has_cuda then with_gpu level created else ok (record { cpu = level; gpu = none }))
        (ok (record { cpu = level; gpu = none }))
        (if_well cuda.has_cuda (with_gpu level created) (ok (record { cpu = level; gpu = none }))
          (with_gpu_well level created (behaves _ _ _)) tt)
        tt

  codecs_for_well :
      (level : Level) (format : Format) → BundleWell (codecs_for cuda engine level format)
  unfolding codecs_for
  codecs_for_well level zip = make_gpu_codec_well level
  codecs_for_well level gzip = make_gpu_codec_well level
  codecs_for_well level zstd = refl

  pub make_codecs_well : (options : JobOptions) → BundleWell (make_codecs cuda engine options)
  unfolding make_codecs
  make_codecs_well options = codecs_for_well options.level options.format
