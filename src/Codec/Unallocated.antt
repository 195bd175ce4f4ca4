-- ===== src/Codec/Unallocated.antt =====
-- The metadata arrays of a slot share one capacity, which counts the bytes of the first of them.
use collapsar.Base.{
  ℕ, zero, suc, ◌*◌, ◌%◌, ◌^◌, ◌≤◌, ◌≡◌, refl, ap, sym, subst, inl, inr, Bool-cases, leb, leb→le,
  le→leb, List, arith,
}
use collapsar.Core.Status.{ok, cuda_error}
use collapsar.Core.Action.{Action}
use collapsar.Core.Triple.{After, Triple, seq-Triple}
use collapsar.Codec.Device.{
  Cuda, Buffer, StreamSlot, Frame, check_status, check_value, cuda_try, cuda_value, nvcomp_value,
  ensure_capacity, allocated,
}
use collapsar.Codec.Nvcomp.{with_slot, with_meta, ensure_buffer, ensure_in_ptrs, ensure_metadata}

-- Three arrays that the kernel is handed were never allocated.
abbrev pub IsUnset : StreamSlot → Type 0
IsUnset s = (s.d_in_sizes ≡ 0) × (s.d_out_ptrs ≡ 0) × (s.d_out_sizes_inout ≡ 0)

module _ {D : Type 0} (cuda : Cuda D) where
  abbrev pub Unset : Frame D → Type 0
  Unset f = IsUnset f.slot

  abbrev pub Keeps : {A : Type 0} → Action (Frame D) A → Type 0
  Keeps m = Triple Unset m (λ _. Unset) Unset

  pub check_status-After :
      (P : Frame D → Type 0) (f : Frame D) (message : ℕ → List ℕ) (rc : ℕ)
      → P f
      → After (λ _. P) P (check_status cuda_error message rc, f)
  check_status-After P f message zero h = h
  check_status-After P f message (suc n) h = h

  check_value-After :
      {A : Type 0} (f : Frame D) (c : _) (message : ℕ → List ℕ) (answer : ℕ × A)
      → Unset f
      → After (λ _. Unset) Unset (check_value c message answer, f)
  check_value-After f c message (zero, a) h = h
  check_value-After f c message (suc n, a) h = h

  pub cuda_try-Keeps : (call : D → ℕ × D) → Keeps (cuda_try cuda call)
  unfolding cuda_try
  cuda_try-Keeps call = record {
    holds = λ f h. check_status-After Unset _ cuda.cuda_message (call f.device).0 h;
  }

  pub cuda_value-Keeps : {A : Type 0} (call : D → (ℕ × A) × D) → Keeps (cuda_value cuda call)
  unfolding cuda_value
  cuda_value-Keeps call = record {
    holds = λ f h. check_value-After _ _ cuda.cuda_message (call f.device).0 h;
  }

  pub nvcomp_value-Keeps : {A : Type 0} (answer : ℕ × A) → Keeps (nvcomp_value cuda answer)
  unfolding nvcomp_value
  nvcomp_value-Keeps answer = record {
    holds = λ f h. check_value-After f _ cuda.nvcomp_message answer h;
  }

  pub ensure_buffer-Keeps :
      (get : StreamSlot → Buffer) (put : Buffer → StreamSlot → StreamSlot) (needed : ℕ)
      → ((b : Buffer) (s : StreamSlot) → IsUnset s → IsUnset (put b s))
      → Keeps (ensure_buffer cuda get put needed)
  unfolding ensure_buffer
  ensure_buffer-Keeps get put needed apart = record {
    holds = λ f h. check_status-After Unset _ cuda.cuda_message _ (apart _ f.slot h);
  }

  pub with_slot_keeps :
      {A : Type 0} {Q : A → Frame D → Type 0} {P R : Frame D → Type 0}
      {k : StreamSlot → Action (Frame D) A}
      → ((s : StreamSlot) → Triple P (k s) Q R)
      → Triple P (with_slot cuda k) Q R
  with_slot_keeps each = record { holds = λ f h. (each f.slot).holds f h }

  -- A success leaves a buffer that is large enough.
  abbrev Suffices : ℕ → ℕ × Buffer × D → Type 0
  Suffices needed (zero, b, d) = needed ≤ b.capacity
  Suffices needed (suc n, b, d) = Unit

  allocated-Suffices :
      (needed : ℕ) (answer : (ℕ × ℕ) × D) → Suffices needed (allocated cuda needed answer)
  allocated-Suffices needed ((zero, fresh), d) = omega arith
  allocated-Suffices needed ((suc n, fresh), d) = tt

  ensure_capacity-Suffices :
      (needed : ℕ) (b : Buffer) (d : D) → Suffices needed (ensure_capacity cuda needed b d)
  unfolding ensure_capacity
  ensure_capacity-Suffices needed b d = elim (Bool-cases (leb needed b.capacity)) [
    | inl fits ↦ rw fits (leb→le needed b.capacity fits)
    | inr grows ↦ rw grows (allocated-Suffices needed _)
  ]

  -- A buffer that is large enough is left as it is.
  ensure_buffer_enough :
      (get : StreamSlot → Buffer) (put : Buffer → StreamSlot → StreamSlot) (needed : ℕ)
      (f : Frame D)
      → put (get f.slot) f.slot ≡ f.slot
      → needed ≤ (get f.slot).capacity
      → ensure_buffer cuda get put needed f ≡ (ok tt, f)
  unfolding ensure_buffer ensure_capacity
  ensure_buffer_enough get put needed f same enough =
      rw (le→leb needed (get f.slot).capacity enough)
        (ap (λ s. (ok tt, record f { slot = s })) same)

  -- The first array is large enough for the sizes of the others.
  abbrev HasRoom : ℕ → Frame D → Type 0
  HasRoom n f = IsUnset f.slot × (n * 8 % 2 ^ 64 ≤ f.slot.d_meta_capacity)

  in_ptrs-After :
      (n : ℕ) (f : Frame D) (answer : ℕ × Buffer × D)
      → Unset f
      → Suffices (n * 8 % 2 ^ 64) answer
      → After
          (λ _. HasRoom n)
          Unset
          (let (rc, b, d) = answer in
            (
              check_status cuda_error cuda.cuda_message rc,
              record f {
                slot = record f.slot { d_in_ptrs = b.ptr; d_meta_capacity = b.capacity };
                device = d;
              },
            ))
  in_ptrs-After n f (zero, b, d) h enough = (h, enough)
  in_ptrs-After n f (suc m, b, d) h enough = h

  ensure_in_ptrs_room : (n : ℕ) → Triple Unset (ensure_in_ptrs cuda n) (λ _. HasRoom n) Unset
  unfolding ensure_buffer
  ensure_in_ptrs_room n = record {
    holds = λ f h. in_ptrs-After n f _ h (ensure_capacity-Suffices _ _ _);
  }

  -- A call for an array that finds room enough in the shared capacity changes nothing.
  idle_keeps :
      (n : ℕ) (get : StreamSlot → ℕ) (put : Buffer → StreamSlot → StreamSlot)
      → ((s : StreamSlot) → put (with_meta cuda s (get s)) s ≡ s)
      → Triple
          (HasRoom n)
          (ensure_buffer cuda (λ s. with_meta cuda s (get s)) put (n * 8 % 2 ^ 64))
          (λ _. HasRoom n)
          Unset
  idle_keeps n get put same = record {
    holds = λ f h.
        subst (After (λ _. HasRoom n) Unset)
          (sym (ensure_buffer_enough _ put _ f (same f.slot) h.1)) h;
  }

  forget_room :
      (n : ℕ) {m : Action (Frame D) (Unit {0})} → Keeps m → Triple (HasRoom n) m (λ _. Unset) Unset
  forget_room n keeps = record { holds = λ f h. keeps.holds f h.0 }

  pub ensure_metadata-Keeps : (n : ℕ) → Keeps (ensure_metadata cuda n)
  unfolding ensure_metadata
  ensure_metadata-Keeps n = seq-Triple (ensure_in_ptrs_room n) (
      seq-Triple
        (idle_keeps n (λ s. s.d_in_sizes) (λ b s. record s { d_in_sizes = b.ptr }) (λ s. refl))
        (seq-Triple
          (idle_keeps n (λ s. s.d_out_ptrs) (λ b s. record s { d_out_ptrs = b.ptr }) (λ s. refl))
          (seq-Triple
            (idle_keeps n (λ s. s.d_out_sizes_inout) (λ b s. record s { d_out_sizes_inout = b.ptr })
              (λ s. refl))
            (forget_room n (
              ensure_buffer-Keeps (λ s. with_meta cuda s s.d_statuses)
                (λ b s. record s { d_statuses = b.ptr }) _ (λ b s h. h))))))
