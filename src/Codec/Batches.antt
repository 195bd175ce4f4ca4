-- ===== src/Codec/Batches.antt =====
-- `create`, `compress_batch` and the destructor of core/src/codec/nvcomp_deflate_codec.cu.
use collapsar.Base.{
  ℕ, zero, suc, ◌+◌, ◌*◌, ◌%◌, ◌^◌, ◌==◌, List, [], ◌∷◌, length, text, if◌then◌else◌,
}
use collapsar.Base.Int.{ℤ}
use collapsar.Core.Status.{Result, ok, err, make_error, cuda_error, invalid_argument}
use collapsar.Core.Blocks.{PlainBlock}
use collapsar.Core.Action.{Action, done, fail, ◌>>=◌, ◌>>◌}
use collapsar.Codec.Zlib.{Zlib}
use collapsar.Codec.Device.{Cuda, StreamSlot, new_slot, Frame, check_status, cuda_value}
use collapsar.Codec.Nvcomp.{
  NvcompCodec, Session, modify_at, ensure_buffer, ensure_input, ensure_output, run_batch,
}

-- `slots[i]`; the index is always in range.
abbrev pub slot_at : ℕ → List StreamSlot → StreamSlot
slot_at i [] = new_slot
slot_at zero (s ∷ ss) = s
slot_at (suc i) (s ∷ ss) = slot_at i ss

module _ {D : Type 0} (cuda : Cuda D) where
  abbrev modify_slot : (StreamSlot → StreamSlot) → Action (Frame D) (Unit {0})
  modify_slot g f = (ok tt, record f { slot = g f.slot })

  unfoldable pub prepare_slot : ℕ → Action (Frame D) (Unit {0})
  unfolding cuda_value ensure_buffer
  prepare_slot bytes =
      (cuda_value cuda cuda.stream_create >>= λ s. modify_slot (λ slot. record slot { stream = s }))
      >> ((cuda_value cuda cuda.event_create >>= λ e.
            modify_slot (λ slot. record slot { done_event = e }))
          >> (ensure_input cuda bytes >> ensure_output cuda (bytes * 2 % 2 ^ 64)))

  abbrev pub with_slots : StreamSlot → Result (List StreamSlot) × D → Result (List StreamSlot) × D
  with_slots s (ok slots, d) = (ok (s ∷ slots), d)
  with_slots s (err e, d) = (err e, d)

  abbrev pub next_slots :
      Result (Unit {0}) × Frame D → Result (List StreamSlot) × D → Result (List StreamSlot) × D
  next_slots (ok _, f) rest = with_slots f.slot rest
  next_slots (err e, f) rest = (err e, f.device)

  unfoldable pub prepare_slots : ℕ → ℕ → D → Result (List StreamSlot) × D
  unfolding prepare_slot
  prepare_slots zero bytes d = (ok [], d)
  prepare_slots (suc n) bytes d =
      let slot = prepare_slot bytes (record { slot = new_slot; device = d; out = [] }) in
      next_slots slot (prepare_slots n bytes slot.1.device)

  abbrev pub codec_of : ℤ → Result (List StreamSlot) × D → Result NvcompCodec × D
  codec_of device (ok slots, d) = (ok (record { device = device; slots = slots; next_slot = 0 }), d)
  codec_of device (err e, d) = (err e, d)

  abbrev pub on_device : Result (Unit {0}) → D → Result NvcompCodec × D → Result NvcompCodec × D
  on_device (ok _) d created = created
  on_device (err e) d created = (err e, d)

  unfoldable pub create_codec : ℤ → ℕ → ℕ → D → Result NvcompCodec × D
  unfolding prepare_slots
  create_codec device stream_count per_stream_bytes d =
      let streams = if stream_count == 0 then 3 else stream_count in
      let bytes = if per_stream_bytes == 0 then 64 * 1024 * 1024 else per_stream_bytes in
      let (rc, chosen) = cuda.set_device device d in
      on_device (check_status cuda_error cuda.cuda_message rc) chosen
        (codec_of device (prepare_slots streams bytes chosen))

  -- The slot and the blocks are written back whether the batch succeeds or not.
  abbrev pub after_batch :
      ℕ → NvcompCodec → Result (Unit {0}) × Frame D → Result (Unit {0}) × Session D
  after_batch i codec (r, f) = (
    r,
    record {
      codec = record codec {
        slots = modify_at i (λ _. f.slot) codec.slots;
        next_slot = (i + 1) % length codec.slots;
      };
      device_state = f.device;
      out = f.out;
    },
  )

  unfoldable pub use_slot : Zlib → List PlainBlock → Action (Session D) (Unit {0})
  unfolding run_batch
  use_slot z blocks s =
      let i = s.codec.next_slot in
      after_batch i s.codec (
        run_batch cuda z blocks
          (record { slot = slot_at i s.codec.slots; device = s.device_state; out = s.out }))

  unfoldable pub select_device : Action (Session D) (Unit {0})
  select_device s =
      let (rc, d) = cuda.set_device s.codec.device s.device_state in
      (check_status cuda_error cuda.cuda_message rc, record s { device_state = d })

  -- A batch that is not empty.
  abbrev pub run_blocks : Zlib → List PlainBlock → Action (Session D) (Unit {0})
  run_blocks z [] = done tt
  run_blocks z (b ∷ bs) = select_device >> use_slot z (b ∷ bs)

  unfoldable pub compress_batch : Zlib → List PlainBlock → Action (Session D) (Unit {0})
  unfolding use_slot select_device
  compress_batch z blocks s =
      if length blocks == length s.out
      then run_blocks z blocks s
      else fail (make_error invalid_argument (text "compress_batch size mismatch")) s

  -- The destructor.
  abbrev free_ptr : ℕ → D → D
  free_ptr ptr d = if ptr == 0 then d else cuda.free ptr d

  unfoldable pub release_slot : StreamSlot → D → D
  release_slot s d =
      let d1 = free_ptr s.d_temp.ptr (free_ptr s.d_output.ptr (free_ptr s.d_input.ptr d)) in
      let d2 = free_ptr s.d_out_ptrs (free_ptr s.d_in_sizes (free_ptr s.d_in_ptrs d1)) in
      let d3 = free_ptr s.d_statuses (free_ptr s.d_out_sizes_inout d2) in
      let d4 = if s.done_event == 0 then d3 else cuda.event_destroy s.done_event d3 in
      if s.stream == 0 then d4 else cuda.stream_destroy s.stream d4

  abbrev release_slots : List StreamSlot → D → D
  release_slots [] d = d
  release_slots (s ∷ ss) d = release_slots ss (release_slot s d)

  unfoldable pub destroy_codec : NvcompCodec → D → D
  unfolding release_slot
  destroy_codec codec d = release_slots codec.slots (cuda.set_device codec.device d).1
