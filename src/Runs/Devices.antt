-- ===== src/Runs/Devices.antt =====
-- A device on which everything succeeds but a copy to a null pointer. Its state counts the allocations.
use collapsar.Base.{ℕ, suc, ◌+◌, ◌==◌, ◌<◌, ◌≡◌, refl, [], ◌∷◌, length, arith, if◌then◌else◌, true}
use collapsar.Base.Int.{pos}
use collapsar.Core.Status.{ok}
use collapsar.Core.Blocks.{PlainBlock}
use collapsar.Codec.Device.{Cuda, new_slot, ensure_capacity}
use collapsar.Codec.Nvcomp.{NvcompCodec, offsets_from, total_from, ensure_buffer}
use collapsar.Codec.Batches.{create_codec, prepare_slots, prepare_slot}
use collapsar.Codec.Refused.{RefusesNull}
use collapsar.Codec.Staging.{AreAt, staged, offsets_from-total_from}
use collapsar.Core.Action.{◌>>=◌, ◌>>◌}
use collapsar.Codec.Device.{cuda_value}
use collapsar.Core.Options.{EngineOptions, default_engine_options, default_job_options, gpu_deflate}
use collapsar.Core.Job.{JobRequest}
use collapsar.Codec.NvcompGpu.{Earlier, nvcomp_gpu}
use collapsar.Io.AsyncReader.{block_count, effective_block_bytes}
use collapsar.Io.FileScanner.{scan}
use collapsar.Pipeline.Router.{new_router, route}
use collapsar.Pipeline.Run.{Env, run}
use collapsar.Pipeline.GpuTask.{IsErr}
use collapsar.Pipeline.GpuJob.{run-nvcomp_gpu}
use collapsar.Runs.Jobs.{env, one_file_fs}
use collapsar.Runs.Engines.{empty_world}
use collapsar.Runs.Files.{storing, five_bytes, five_entry}

abbrev counting : Cuda ℕ
counting = record {
  set_device = λ i d. (0, d);
  stream_create = λ d. ((0, d), suc d);
  event_create = λ d. ((0, d), suc d);
  stream_destroy = λ s d. d;
  event_destroy = λ e d. d;
  event_synchronize = λ e d. (0, d);
  event_record = λ e s d. (0, d);
  stream_synchronize = λ s d. (0, d);
  malloc = λ n d. ((0, d), suc d);
  free = λ p d. d;
  copy_in = λ p bytes s d. (0, d);
  copy_in_array = λ p values s d. (if p == 0 then 1 else 0, d);
  copy_out = λ p n s d. ((0, []), d);
  copy_out_array = λ p n s d. ((0, []), d);
  max_output_chunk_size = λ n. (0, n + 8);
  temp_size = λ n m. (0, 64);
  compress_async = λ launch d. (0, d);
  cuda_message = λ rc. [];
  nvcomp_message = λ rc. [];
}

counting-RefusesNull : RefusesNull counting
counting-RefusesNull x xs stream d = (0, refl)

abbrev plain : PlainBlock
plain = record {
  file_id = 1;
  block_index = 0;
  is_last = true;
  logical_offset = 0;
  source = five_bytes;
}

abbrev fresh_codec : NvcompCodec
fresh_codec = record {
  device = pos 0;
  slots =
      record new_slot {
        stream = 1;
        done_event = 2;
        d_input = record { ptr = 3; capacity = 16 };
        d_output = record { ptr = 4; capacity = 32 };
      }
      ∷ [];
  next_slot = 0;
}

created_fresh : create_codec counting (pos 0) 1 16 1 ≡ (ok fresh_codec, 5)
unfolding create_codec prepare_slots prepare_slot cuda_value ensure_buffer ensure_capacity ◌>>=◌
    ◌>>◌
created_fresh = refl

offsets_from-total_from_example :
    AreAt
      (staged (plain ∷ plain ∷ []))
      (total_from 0 (plain ∷ plain ∷ []))
      (offsets_from 0 (plain ∷ plain ∷ []))
      (plain ∷ plain ∷ [])
    × (total_from 0 (plain ∷ plain ∷ []) ≡ length (staged (plain ∷ plain ∷ [])))
offsets_from-total_from_example = offsets_from-total_from (plain ∷ plain ∷ []) (omega arith)

-- A job that sends its file to such a device.
abbrev no_history : Earlier
no_history = λ blocks. []

abbrev gpu_env : Env
gpu_env = record env { cuda = nvcomp_gpu counting storing no_history 1 }

abbrev gpu_request : JobRequest
gpu_request = record {
  inputs = (b'a' ∷ []) ∷ [];
  output = b'o' ∷ [];
  options = record default_job_options { algorithm = gpu_deflate };
}

abbrev gpu_engine : EngineOptions
gpu_engine = record (default_engine_options 8) { enable_gpu = true }

scanned : (scan one_file_fs ((b'a' ∷ []) ∷ []) true 1).0 ≡ ok (five_entry ∷ [])
unfolding scan ◌>>=◌
scanned = refl

some_block : 0 < block_count 5 (effective_block_bytes gpu_request.options.block_bytes)
unfolding block_count effective_block_bytes
some_block = omega arith

run-nvcomp_gpu_example : IsErr (run gpu_env gpu_engine gpu_request empty_world).0
unfolding route new_router
run-nvcomp_gpu_example =
    run-nvcomp_gpu counting storing no_history 1 gpu_env gpu_engine gpu_request empty_world [] []
      five_entry counting-RefusesNull refl refl scanned refl some_block
