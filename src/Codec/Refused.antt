-- ===== src/Codec/Refused.antt =====
-- What the metadata arrays mean for a batch: the copy of the sizes goes to a null pointer.
use collapsar.Base.{
  ℕ, zero, suc, ◌==◌, ◌≡◌, refl, ap, ◌∙◌, inl, inr, Bool-cases, List, [], ◌∷◌, length, All,
}
use collapsar.Core.Status.{Result, ok, err, cuda_error}
use collapsar.Core.Blocks.{PlainBlock}
use collapsar.Core.Action.{Action}
use collapsar.Core.Triple.{After, Triple, bind-Triple, seq-Triple}
use collapsar.Codec.Zlib.{Zlib}
use collapsar.Codec.Device.{Cuda, StreamSlot, Frame, check_status, cuda_try}
use collapsar.Codec.Nvcomp.{
  NvcompCodec, Session, modify_at, offsets_from, sizes_of, copy_chunks, copy_array, copy_metadata,
  run_batch,
}
use collapsar.Codec.Batches.{slot_at, after_batch, use_slot, select_device, compress_batch}
use collapsar.Codec.Unallocated.{
  IsUnset, Unset, Keeps, cuda_try-Keeps, nvcomp_value-Keeps, ensure_buffer-Keeps, with_slot_keeps,
  ensure_metadata-Keeps,
}

-- A copy of something to a null pointer is refused.
abbrev pub RefusesNull : {D : Type 0} → Cuda D → Type 0
RefusesNull {D} cuda =
    (x : ℕ) (xs : List ℕ) (stream : ℕ) (d : D)
    → (rc : ℕ) × ((cuda.copy_in_array 0 (x ∷ xs) stream d).0 ≡ suc rc)

module _ {D : Type 0} (cuda : Cuda D) (refuses : RefusesNull cuda) where
  -- Cannot succeed.
  abbrev Fails : {A : Type 0} → Action (Frame D) A → Type 0
  Fails m = Triple (Unset cuda) m (λ _ _. ⊥) (Unset cuda)

  copy_chunks-Keeps :
      (base : ℕ) (blocks : List PlainBlock) (offsets : List ℕ)
      → Keeps cuda (copy_chunks cuda base blocks offsets)
  unfolding copy_chunks
  copy_chunks-Keeps base [] offsets = record { holds = λ f h. h }
  copy_chunks-Keeps base (b ∷ bs) [] = record { holds = λ f h. h }
  copy_chunks-Keeps base (b ∷ bs) (o ∷ offsets) =
      seq-Triple (with_slot_keeps cuda (λ s. cuda_try-Keeps cuda _))
        (copy_chunks-Keeps base bs offsets)

  refused_copy :
      (f : Frame D) (answer : ℕ × D) (rc : ℕ)
      → answer.0 ≡ suc rc
      → Unset cuda f
      → After
          (λ _ _. ⊥)
          (Unset cuda)
          (check_status cuda_error cuda.cuda_message answer.0, record f { device = answer.1 })
  refused_copy f (zero, d) rc is h = cc
  refused_copy f (suc n, d) rc is h = h

  copy_sizes-Fails :
      (b : PlainBlock) (bs : List PlainBlock)
      → Fails (copy_array cuda (λ s. s.d_in_sizes) (sizes_of (b ∷ bs)))
  unfolding cuda_try
  copy_sizes-Fails b bs = record {
    holds = λ f h.
        let (rc, is) = refuses (length b.source) (sizes_of bs) f.slot.stream f.device in
        refused_copy f
          (cuda.copy_in_array f.slot.d_in_sizes (sizes_of (b ∷ bs)) f.slot.stream f.device) rc
          (ap (λ p. (cuda.copy_in_array p (sizes_of (b ∷ bs)) f.slot.stream f.device).0) h.0 ∙ is)
          h;
  }

  -- What comes after a failure does not matter.
  unreached : {A : Type 0} {m : Action (Frame D) A} → Triple (λ f. ⊥) m (λ _ _. ⊥) (Unset cuda)
  unreached = record { holds = λ f h. elim h [ ] }

  copy_array-Keeps :
      (field : StreamSlot → ℕ) (values : List ℕ) → Keeps cuda (copy_array cuda field values)
  copy_array-Keeps field values =
      with_slot_keeps cuda (λ s. cuda_try-Keeps cuda (cuda.copy_in_array (field s) values s.stream))

  copy_metadata-Fails :
      (b : PlainBlock) (bs : List PlainBlock) (max_out_chunk : ℕ)
      → Fails (copy_metadata cuda (b ∷ bs) max_out_chunk)
  unfolding copy_metadata
  copy_metadata-Fails b bs max_out_chunk =
      seq-Triple (with_slot_keeps cuda (λ s. copy_array-Keeps (λ s. s.d_in_ptrs) _))
        (seq-Triple (copy_sizes-Fails b bs) unreached)

  run_batch-Fails :
      (z : Zlib) (b : PlainBlock) (bs : List PlainBlock) → Fails (run_batch cuda z (b ∷ bs))
  unfolding run_batch
  run_batch-Fails z b bs = seq-Triple (with_slot_keeps cuda (λ s. cuda_try-Keeps cuda _)) (
      bind-Triple (nvcomp_value-Keeps cuda _) (λ max_out_chunk.
        seq-Triple
          (ensure_buffer-Keeps cuda (λ s. s.d_input) (λ b s. record s { d_input = b }) _
            (λ b s h. h))
          (seq-Triple
            (ensure_buffer-Keeps cuda (λ s. s.d_output) (λ b s. record s { d_output = b }) _
              (λ b s h. h))
            (bind-Triple (nvcomp_value-Keeps cuda _) (λ temp_bytes.
              seq-Triple
                (ensure_buffer-Keeps cuda (λ s. s.d_temp) (λ b s. record s { d_temp = b }) _
                  (λ b s h. h))
                (seq-Triple (ensure_metadata-Keeps cuda _) (
                  seq-Triple
                    (with_slot_keeps cuda
                      (λ s. copy_chunks-Keeps s.d_input.ptr (b ∷ bs) (offsets_from 0 (b ∷ bs))))
                    (seq-Triple (copy_metadata-Fails b bs max_out_chunk) unreached))))))))

  abbrev pub AreUnset : Session D → Type 0
  AreUnset s = All IsUnset s.codec.slots

  slot_at-IsUnset :
      (i : ℕ) (slots : List StreamSlot) → All IsUnset slots → IsUnset (slot_at i slots)
  slot_at-IsUnset i [] all = (refl, refl, refl)
  slot_at-IsUnset zero (s ∷ ss) (is, all) = is
  slot_at-IsUnset (suc i) (s ∷ ss) (is, all) = slot_at-IsUnset i ss all

  modify_at-IsUnset :
      (i : ℕ) (slot : StreamSlot) (slots : List StreamSlot)
      → IsUnset slot
      → All IsUnset slots
      → All IsUnset (modify_at i (λ _. slot) slots)
  modify_at-IsUnset i slot [] is all = tt
  modify_at-IsUnset zero slot (s ∷ ss) is (_, all) = (is, all)
  modify_at-IsUnset (suc i) slot (s ∷ ss) is (first, all) =
      (first, modify_at-IsUnset i slot ss is all)

  failure-After :
      (i : ℕ) (codec : NvcompCodec) (answer : Result (Unit {0}) × Frame D)
      → All IsUnset codec.slots
      → After (λ _ _. ⊥) (Unset cuda) answer
      → After (λ _ _. ⊥) AreUnset (after_batch cuda i codec answer)
  failure-After i codec (ok _, f) all is = elim is [ ]
  failure-After i codec (err e, f) all is = modify_at-IsUnset i f.slot codec.slots is all

  selected :
      (s : Session D) (answer : ℕ × D)
      → AreUnset s
      → After
          (λ _. AreUnset)
          AreUnset
          (check_status cuda_error cuda.cuda_message answer.0, record s { device_state = answer.1 })
  selected s (zero, d) all = all
  selected s (suc n, d) all = all

  use_slot_fails :
      (z : Zlib) (b : PlainBlock) (bs : List PlainBlock)
      → Triple AreUnset (use_slot cuda z (b ∷ bs)) (λ _ _. ⊥) AreUnset
  unfolding use_slot
  use_slot_fails z b bs = record {
    holds = λ s all.
        failure-After s.codec.next_slot s.codec _ all
          ((run_batch-Fails z b bs).holds _ (slot_at-IsUnset s.codec.next_slot s.codec.slots all));
  }

  select_device_keeps : Triple AreUnset (select_device cuda) (λ _. AreUnset) AreUnset
  unfolding select_device
  select_device_keeps = record {
    holds = λ s all. selected s (cuda.set_device s.codec.device s.device_state) all;
  }

  pub compress_batch_fails :
      (z : Zlib) (b : PlainBlock) (bs : List PlainBlock)
      → Triple AreUnset (compress_batch cuda z (b ∷ bs)) (λ _ _. ⊥) AreUnset
  unfolding compress_batch
  compress_batch_fails z b bs = record {
    holds = λ s all. elim (Bool-cases (length (b ∷ bs) == length s.out)) [
      | inl same ↦ rw same ((seq-Triple select_device_keeps (use_slot_fails z b bs)).holds s all)
      | inr other ↦ rw other all
    ];
  }
