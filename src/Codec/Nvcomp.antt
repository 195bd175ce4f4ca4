-- ===== src/Codec/Nvcomp.antt =====
-- `NvcompDeflateCodec` of core/src/codec/nvcomp_deflate_codec.cu over the device of Codec/Device.
use Prim.Native.Nat.{max}
use collapsar.Base.{
  ℕ, zero, suc, ◌+◌, ◌*◌, ◌%◌, ◌^◌, Bytes, List, [], ◌∷◌, ◌++◌, length, take, replicate,
}
use collapsar.Base.Int.{ℤ}
use collapsar.Core.Status.{ok, cuda_error}
use collapsar.Core.Blocks.{PlainBlock, CompressedBlock}
use collapsar.Core.Action.{Action, done, ◌>>=◌, ◌>>◌}
use collapsar.Codec.Zlib.{Zlib}
use collapsar.Codec.Crc32.{compute}
use collapsar.Codec.Device.{
  Launch, Cuda, Buffer, StreamSlot, Frame, check_status, cuda_try, cuda_value, nvcomp_value,
  nvcomp_try, ensure_capacity,
}

-- `NvcompDeflateCodec::Impl`
pub record NvcompCodec : Type 0 where
  pub device : ℤ
  pub slots : List StreamSlot
  pub next_slot : ℕ

-- What a call of the codec changes.
pub record Session (D : Type 0) : Type 0 where
  pub codec : NvcompCodec
  pub device_state : D
  pub out : List CompressedBlock

abbrev pub sizeof_pointer : ℕ
sizeof_pointer = 8

abbrev pub sizeof_size : ℕ
sizeof_size = 8

abbrev pub sizeof_status : ℕ
sizeof_status = 4

-- The sizes of the chunks, and where each begins in the input buffer.
unfoldable pub offsets_from : ℕ → List PlainBlock → List ℕ
offsets_from total [] = []
offsets_from total (b ∷ bs) = total ∷ offsets_from ((total + length b.source) % 2 ^ 64) bs

unfoldable pub total_from : ℕ → List PlainBlock → ℕ
total_from total [] = total
total_from total (b ∷ bs) = total_from ((total + length b.source) % 2 ^ 64) bs

abbrev pub sizes_of : List PlainBlock → List ℕ
sizes_of [] = []
sizes_of (b ∷ bs) = length b.source ∷ sizes_of bs

abbrev pub max_chunk_from : ℕ → List PlainBlock → ℕ
max_chunk_from m [] = m
max_chunk_from m (b ∷ bs) = max_chunk_from (max m (length b.source)) bs

unfoldable pub out_ptrs_from : ℕ → ℕ → ℕ → ℕ → List ℕ
out_ptrs_from base max_out_chunk i zero = []
out_ptrs_from base max_out_chunk i (suc n) =
    (base + i * max_out_chunk % 2 ^ 64) ∷ out_ptrs_from base max_out_chunk (suc i) n

abbrev pub shifted : ℕ → List ℕ → List ℕ
shifted base [] = []
shifted base (o ∷ os) = (base + o) ∷ shifted base os

abbrev pub modify_at : {A : Type 0} → ℕ → (A → A) → List A → List A
modify_at i f [] = []
modify_at zero f (x ∷ xs) = f x ∷ xs
modify_at (suc i) f (x ∷ xs) = x ∷ modify_at i f xs

-- `bytes.resize(n)`
abbrev pub resize : ℕ → Bytes → Bytes
resize n bytes = take n (bytes ++ replicate n 0)

module _ {D : Type 0} (cuda : Cuda D) where
  abbrev pub with_slot : {A : Type 0} → (StreamSlot → Action (Frame D) A) → Action (Frame D) A
  with_slot k f = k f.slot f

  unfoldable pub ensure_buffer :
      (StreamSlot → Buffer) → (Buffer → StreamSlot → StreamSlot) → ℕ → Action (Frame D) (Unit {0})
  unfolding ensure_capacity
  ensure_buffer get put needed f =
      let (rc, b, d) = ensure_capacity cuda needed (get f.slot) f.device in
      (check_status cuda_error cuda.cuda_message rc, record f { slot = put b f.slot; device = d })

  abbrev pub ensure_input : ℕ → Action (Frame D) (Unit {0})
  ensure_input = ensure_buffer (λ s. s.d_input) (λ b s. record s { d_input = b })

  abbrev pub ensure_output : ℕ → Action (Frame D) (Unit {0})
  ensure_output = ensure_buffer (λ s. s.d_output) (λ b s. record s { d_output = b })

  abbrev pub ensure_temp : ℕ → Action (Frame D) (Unit {0})
  ensure_temp = ensure_buffer (λ s. s.d_temp) (λ b s. record s { d_temp = b })

  abbrev pub with_meta : StreamSlot → ℕ → Buffer
  with_meta s ptr = record { ptr = ptr; capacity = s.d_meta_capacity }

  abbrev pub ensure_in_ptrs : ℕ → Action (Frame D) (Unit {0})
  ensure_in_ptrs n =
      ensure_buffer (λ s. with_meta s s.d_in_ptrs)
        (λ b s. record s { d_in_ptrs = b.ptr; d_meta_capacity = b.capacity })
        (n * sizeof_pointer % 2 ^ 64)

  -- The other four start from a copy of the capacity, and what becomes of the copy is dropped.
  abbrev pub ensure_in_sizes : ℕ → Action (Frame D) (Unit {0})
  ensure_in_sizes n =
      ensure_buffer (λ s. with_meta s s.d_in_sizes) (λ b s. record s { d_in_sizes = b.ptr })
        (n * sizeof_size % 2 ^ 64)

  abbrev pub ensure_out_ptrs : ℕ → Action (Frame D) (Unit {0})
  ensure_out_ptrs n =
      ensure_buffer (λ s. with_meta s s.d_out_ptrs) (λ b s. record s { d_out_ptrs = b.ptr })
        (n * sizeof_pointer % 2 ^ 64)

  abbrev pub ensure_out_sizes : ℕ → Action (Frame D) (Unit {0})
  ensure_out_sizes n =
      ensure_buffer (λ s. with_meta s s.d_out_sizes_inout)
        (λ b s. record s { d_out_sizes_inout = b.ptr }) (n * sizeof_size % 2 ^ 64)

  abbrev pub ensure_statuses : ℕ → Action (Frame D) (Unit {0})
  ensure_statuses n =
      ensure_buffer (λ s. with_meta s s.d_statuses) (λ b s. record s { d_statuses = b.ptr })
        (n * sizeof_status % 2 ^ 64)

  unfoldable pub ensure_metadata : ℕ → Action (Frame D) (Unit {0})
  unfolding ensure_buffer
  ensure_metadata n =
      ensure_in_ptrs n
      >> (ensure_in_sizes n >> (ensure_out_ptrs n >> (ensure_out_sizes n >> ensure_statuses n)))

  -- The copies of the chunks into the input buffer.
  unfoldable pub copy_chunks : ℕ → List PlainBlock → List ℕ → Action (Frame D) (Unit {0})
  unfolding cuda_try
  copy_chunks base [] offsets = done tt
  copy_chunks base (b ∷ bs) [] = done tt
  copy_chunks base (b ∷ bs) (o ∷ offsets) =
      let rest = copy_chunks base bs offsets in
      with_slot (λ s. cuda_try cuda (cuda.copy_in (base + o) b.source s.stream)) >> rest

  abbrev pub copy_array : (StreamSlot → ℕ) → List ℕ → Action (Frame D) (Unit {0})
  copy_array field values =
      with_slot (λ s. cuda_try cuda (cuda.copy_in_array (field s) values s.stream))

  unfoldable pub copy_metadata : List PlainBlock → ℕ → Action (Frame D) (Unit {0})
  unfolding cuda_try offsets_from out_ptrs_from
  copy_metadata blocks max_out_chunk =
      with_slot (λ s. copy_array (λ s. s.d_in_ptrs) (shifted s.d_input.ptr (offsets_from 0 blocks)))
      >> (copy_array (λ s. s.d_in_sizes) (sizes_of blocks)
          >> (with_slot (λ s.
                copy_array (λ s. s.d_out_ptrs)
                  (out_ptrs_from s.d_output.ptr max_out_chunk 0 (length blocks)))
              >> copy_array (λ s. s.d_out_sizes_inout) (replicate (length blocks) max_out_chunk)))

  abbrev modify_out : ℕ → (CompressedBlock → CompressedBlock) → Action (Frame D) (Unit {0})
  modify_out i g f = (ok tt, record f { out = modify_at i g f.out })

  -- The copies of the payloads to the caller's blocks.
  unfoldable pub copy_payloads :
      Zlib → ℕ → List PlainBlock → List ℕ → List ℕ → Action (Frame D) (Unit {0})
  unfolding cuda_value compute
  copy_payloads z i (b ∷ bs) (p ∷ ptrs) (n ∷ sizes) =
      let rest = copy_payloads z (i + 1) bs ptrs sizes in
      modify_out i (λ c. record c { bytes = resize n c.bytes })
      >> (with_slot (λ s. cuda_value cuda (cuda.copy_out p n s.stream)) >>= λ bytes.
          modify_out i (λ c. record c {
            bytes = bytes;
            uncompressed = length b.source;
            crc32 = compute z b.source;
          })
          >> rest)
  copy_payloads z i _ _ _ = done tt

  abbrev launch_of : StreamSlot → ℕ → ℕ → ℕ → Launch
  launch_of s max_chunk n temp_bytes = record {
    in_ptrs = s.d_in_ptrs;
    in_sizes = s.d_in_sizes;
    max_chunk = max_chunk;
    batch_size = n;
    temp = s.d_temp.ptr;
    temp_bytes = temp_bytes;
    out_ptrs = s.d_out_ptrs;
    out_sizes = s.d_out_sizes_inout;
    stream = s.stream;
  }

  -- From the kernel to the end of the batch.
  unfoldable pub run_kernel : Zlib → List PlainBlock → ℕ → ℕ → Action (Frame D) (Unit {0})
  unfolding cuda_try cuda_value nvcomp_try copy_payloads out_ptrs_from
  run_kernel z blocks max_out_chunk temp_bytes =
      let n = length blocks in
      with_slot (λ s.
        nvcomp_try cuda (cuda.compress_async (launch_of s (max_chunk_from 0 blocks) n temp_bytes)))
      >> (with_slot (λ s. cuda_value cuda (cuda.copy_out_array s.d_out_sizes_inout n s.stream))
          >>= λ sizes.
              with_slot (λ s. cuda_try cuda (cuda.stream_synchronize s.stream))
              >> (with_slot (λ s.
                    copy_payloads z 0 blocks (out_ptrs_from s.d_output.ptr max_out_chunk 0 n) sizes)
                  >> (with_slot (λ s. cuda_try cuda (cuda.event_record s.done_event s.stream))
                      >> with_slot (λ s. cuda_try cuda (cuda.stream_synchronize s.stream)))))

  -- What is done with the slot of a batch.
  unfoldable pub run_batch : Zlib → List PlainBlock → Action (Frame D) (Unit {0})
  unfolding cuda_try nvcomp_value ensure_buffer ensure_metadata copy_chunks copy_metadata run_kernel
      total_from offsets_from
  run_batch z blocks =
      let n = length blocks in
      let longest = max_chunk_from 0 blocks in
      with_slot (λ s. cuda_try cuda (cuda.event_synchronize s.done_event))
      >> (nvcomp_value cuda (cuda.max_output_chunk_size longest) >>= λ max_out_chunk.
          ensure_input (total_from 0 blocks)
          >> (ensure_output (max_out_chunk * n % 2 ^ 64)
              >> (nvcomp_value cuda (cuda.temp_size n longest) >>= λ temp_bytes.
                  ensure_temp temp_bytes
                  >> (ensure_metadata n
                      >> (with_slot (λ s. copy_chunks s.d_input.ptr blocks (offsets_from 0 blocks))
                          >> (copy_metadata blocks max_out_chunk
                              >> run_kernel z blocks max_out_chunk temp_bytes))))))
