-- ===== src/Codec/NvcompGpu.antt =====
-- core/src/codec/nvcomp_deflate_codec.hpp: the codec of Codec/Batches as the factory makes it and a job
-- uses it. A batch is answered from the state that the batches before it have left.
use collapsar.Base.{ℕ, ◌≡◌, refl, ap, sym, ◌∙◌, true, List, [], ◌∷◌}
use collapsar.Base.Int.{ℤ}
use collapsar.Core.Status.{Error, Result, ok, err}
use collapsar.Core.Blocks.{PlainBlock, CompressedBlock}
use collapsar.Codec.Zlib.{Zlib}
use collapsar.Codec.Factory.{BatchCodec, Gpu}
use collapsar.Codec.Device.{Cuda}
use collapsar.Codec.Nvcomp.{NvcompCodec, Session}
use collapsar.Codec.Batches.{create_codec, compress_batch}
use collapsar.Codec.Refused.{RefusesNull}
use collapsar.Codec.Never.{run_batches, run_batches-compress_batch}

-- The batches that came before one.
abbrev pub Earlier : Type 0
Earlier = List PlainBlock → List (List PlainBlock × List CompressedBlock)

-- A codec that answers an error to every batch that is not empty.
abbrev pub AlwaysFails : BatchCodec → Type 0
AlwaysFails codec =
    (b : PlainBlock) (bs : List PlainBlock) (out : List CompressedBlock)
    → (e : Error) × (codec (b ∷ bs) out ≡ err e)

module _ {D : Type 0} (cuda : Cuda D) (z : Zlib) (earlier : Earlier) where
  abbrev filled_in : Result (Unit {0}) × Session D → Result (List CompressedBlock)
  filled_in (ok _, s) = ok s.out
  filled_in (err e, s) = err e

  unfoldable pub batch_codec : NvcompCodec → D → BatchCodec
  unfolding compress_batch run_batches
  batch_codec codec d blocks out =
      let s =
        run_batches cuda z (earlier blocks)
          (record { codec = codec; device_state = d; out = [] }) in
      filled_in (compress_batch cuda z blocks (record s { out = out }))

  abbrev made : Result NvcompCodec × D → Result BatchCodec
  made (ok codec, d) = ok (batch_codec codec d)
  made (err e, d) = err e

  -- A build with CUDA, and `create` on a device in the state `d`.
  unfoldable pub nvcomp_gpu : D → Gpu
  unfolding create_codec batch_codec
  nvcomp_gpu d = record {
    has_cuda = true;
    create = λ device stream_count per_stream_bytes.
        made (create_codec cuda device stream_count per_stream_bytes d);
  }

  filled_in_err :
      (r : Result (Unit {0}) × Session D) (e : Error) → r.0 ≡ err e → filled_in r ≡ err e
  filled_in_err (ok _, s) e is = cc
  filled_in_err (err e', s) e is = cc

  module _ (refuses : RefusesNull cuda) where
    made-AlwaysFails :
        (device : ℤ) (stream_count per_stream_bytes : ℕ) (d : D) (r : Result NvcompCodec × D)
        (codec : BatchCodec)
        → create_codec cuda device stream_count per_stream_bytes d ≡ r
        → made r ≡ ok codec
        → AlwaysFails codec
    unfolding batch_codec
    made-AlwaysFails device stream_count per_stream_bytes d (ok c, d') codec created is b bs out =
        let (e, fails) =
          run_batches-compress_batch cuda refuses z device stream_count per_stream_bytes d d' c
            (earlier (b ∷ bs)) b bs [] out created in
        let same : batch_codec c d' ≡ codec = cc in
        (e, ap (λ (k : BatchCodec). k (b ∷ bs) out) (sym same) ∙ filled_in_err _ e fails)
    made-AlwaysFails device stream_count per_stream_bytes d (err e, d') codec created is b bs out =
        cc

    pub create-AlwaysFails :
        (device : ℤ) (stream_count per_stream_bytes : ℕ) (d : D) (codec : BatchCodec)
        → (nvcomp_gpu d).create device stream_count per_stream_bytes ≡ ok codec
        → AlwaysFails codec
    unfolding nvcomp_gpu
    create-AlwaysFails device stream_count per_stream_bytes d codec is =
        made-AlwaysFails device stream_count per_stream_bytes d _ codec refl is
