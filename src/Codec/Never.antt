-- ===== src/Codec/Never.antt =====
-- The life of a codec: created, then used for one batch after the other.
use collapsar.Base.{
  ℕ, zero, suc, ◌==◌, ◌≡◌, refl, subst, inl, inr, Bool-cases, List, [], ◌∷◌, length, All,
}
use collapsar.Base.Int.{ℤ}
use collapsar.Core.Status.{Error, Result, ok, err}
use collapsar.Core.Blocks.{PlainBlock, CompressedBlock}
use collapsar.Core.Triple.{After, bind-Triple, seq-Triple}
use collapsar.Codec.Zlib.{Zlib}
use collapsar.Codec.Device.{Cuda, StreamSlot, Frame}
use collapsar.Codec.Nvcomp.{NvcompCodec, Session}
use collapsar.Codec.Batches.{
  prepare_slot, prepare_slots, with_slots, next_slots, codec_of, on_device, create_codec,
  compress_batch,
}
use collapsar.Codec.Unallocated.{IsUnset, Keeps, cuda_value-Keeps, ensure_buffer-Keeps}
use collapsar.Codec.Refused.{RefusesNull, AreUnset, compress_batch_fails}

module _ {D : Type 0} (cuda : Cuda D) where
  -- A sequence of batches, each with the blocks that it is to fill in.
  unfoldable pub run_batches :
      Zlib → List (List PlainBlock × List CompressedBlock) → Session D → Session D
  unfolding compress_batch
  run_batches z [] s = s
  run_batches z ((blocks, out) ∷ batches) s =
      run_batches z batches (compress_batch cuda z blocks (record s { out = out })).1

  prepare_slot-Keeps : (bytes : ℕ) → Keeps cuda (prepare_slot cuda bytes)
  unfolding prepare_slot
  prepare_slot-Keeps bytes =
      seq-Triple
        (bind-Triple (cuda_value-Keeps cuda cuda.stream_create) (λ s. record { holds = λ f h. h }))
        (seq-Triple
          (bind-Triple (cuda_value-Keeps cuda cuda.event_create) (λ e. record { holds = λ f h. h }))
          (seq-Triple
            (ensure_buffer-Keeps cuda (λ s. s.d_input) (λ b s. record s { d_input = b }) _
              (λ b s h. h))
            (ensure_buffer-Keeps cuda (λ s. s.d_output) (λ b s. record s { d_output = b }) _
              (λ b s h. h))))

  abbrev SlotsUnset : Result (List StreamSlot) × D → Type 0
  SlotsUnset (ok slots, d) = All IsUnset slots
  SlotsUnset (err e, d) = Unit

  with_slots_keeps :
      (s : StreamSlot) (rest : Result (List StreamSlot) × D)
      → IsUnset s
      → SlotsUnset rest
      → SlotsUnset (with_slots cuda s rest)
  with_slots_keeps s (ok slots, d) is all = (is, all)
  with_slots_keeps s (err e, d) is all = tt

  next_slots_keeps :
      (slot : Result (Unit {0}) × Frame D) (rest : Result (List StreamSlot) × D)
      → After (λ _ f. IsUnset f.slot) (λ f. IsUnset f.slot) slot
      → SlotsUnset rest
      → SlotsUnset (next_slots cuda slot rest)
  next_slots_keeps (ok _, f) rest is all = with_slots_keeps f.slot rest is all
  next_slots_keeps (err e, f) rest is all = tt

  prepare_slots_unset : (n bytes : ℕ) (d : D) → SlotsUnset (prepare_slots cuda n bytes d)
  unfolding prepare_slots
  prepare_slots_unset zero bytes d = tt
  prepare_slots_unset (suc n) bytes d =
      next_slots_keeps _ _ ((prepare_slot-Keeps bytes).holds _ (refl, refl, refl))
        (prepare_slots_unset n bytes _)

  codec_of-IsUnset :
      (device : ℤ) (slots : Result (List StreamSlot) × D) (codec : NvcompCodec) (d : D)
      → SlotsUnset slots
      → codec_of cuda device slots ≡ (ok codec, d)
      → All IsUnset codec.slots
  codec_of-IsUnset device (ok slots, d') codec d all is =
      let made : record { device = device; slots = slots; next_slot = 0 } ≡ codec = cc in
      subst (λ c. All IsUnset c.slots) made all
  codec_of-IsUnset device (err e, d') codec d all is = cc

  on_device-IsUnset :
      (chosen : Result (Unit {0})) (d' : D) (created : Result NvcompCodec × D) (codec : NvcompCodec)
      (d : D)
      → (created ≡ (ok codec, d) → All IsUnset codec.slots)
      → on_device cuda chosen d' created ≡ (ok codec, d)
      → All IsUnset codec.slots
  on_device-IsUnset (ok _) d' created codec d then_so is = then_so is
  on_device-IsUnset (err e) d' created codec d then_so is = cc

  create_codec-IsUnset :
      (device : ℤ) (stream_count per_stream_bytes : ℕ) (d0 d : D) (codec : NvcompCodec)
      → create_codec cuda device stream_count per_stream_bytes d0 ≡ (ok codec, d)
      → All IsUnset codec.slots
  unfolding create_codec
  create_codec-IsUnset device stream_count per_stream_bytes d0 d codec is =
      on_device-IsUnset _ _ _ codec d
        (codec_of-IsUnset device _ codec d (prepare_slots_unset _ _ _)) is

module _ {D : Type 0} (cuda : Cuda D) (refuses : RefusesNull cuda) (z : Zlib) where
  any-After :
      (r : Result (Unit {0}) × Session D)
      → After (λ _ _. ⊥) (AreUnset cuda refuses) r
      → AreUnset cuda refuses r.1
  any-After (ok _, s) h = elim h [ ]
  any-After (err e, s) h = h

  compress_batch_keeps :
      (blocks : List PlainBlock) (s : Session D)
      → AreUnset cuda refuses s
      → AreUnset cuda refuses (compress_batch cuda z blocks s).1
  compress_batch_keeps (b ∷ bs) s all =
      any-After (compress_batch cuda z (b ∷ bs) s)
        ((compress_batch_fails cuda refuses z b bs).holds s all)
  compress_batch_keeps [] s all = elim (Bool-cases (0 == length s.out)) [
    | inl same ↦ unfold compress_batch in rw same all
    | inr other ↦ unfold compress_batch in rw other all
  ]

  run_batches_keeps :
      (batches : List (List PlainBlock × List CompressedBlock)) (s : Session D)
      → AreUnset cuda refuses s
      → AreUnset cuda refuses (run_batches cuda z batches s)
  unfolding run_batches
  run_batches_keeps [] s all = all
  run_batches_keeps ((blocks, out) ∷ batches) s all =
      run_batches_keeps batches _ (compress_batch_keeps blocks (record s { out = out }) all)

  failure_of :
      (r : Result (Unit {0}) × Session D)
      → After (λ _ _. ⊥) (AreUnset cuda refuses) r
      → (e : Error) × (r.0 ≡ err e)
  failure_of (ok _, s) h = elim h [ ]
  failure_of (err e, s) h = (e, refl)

  -- On a device that refuses a copy of something to a null pointer, a codec that create made
  -- answers an error to every batch that is not empty, whatever batches it was given before.
  pub run_batches-compress_batch :
      (device : ℤ) (stream_count per_stream_bytes : ℕ) (d0 d : D) (codec : NvcompCodec)
      (batches : List (List PlainBlock × List CompressedBlock)) (b : PlainBlock)
      (bs : List PlainBlock) (start out : List CompressedBlock)
      → create_codec cuda device stream_count per_stream_bytes d0 ≡ (ok codec, d)
      → let s =
          run_batches cuda z batches (record { codec = codec; device_state = d; out = start }) in
        (e : Error) × ((compress_batch cuda z (b ∷ bs) (record s { out = out })).0 ≡ err e)
  run_batches-compress_batch device stream_count per_stream_bytes d0 d codec batches b bs start out
        made =
      let all = create_codec-IsUnset cuda device stream_count per_stream_bytes d0 d codec made in
      let kept =
        run_batches_keeps batches (record { codec = codec; device_state = d; out = start }) all in
      failure_of _ ((compress_batch_fails cuda refuses z b bs).holds _ kept)
