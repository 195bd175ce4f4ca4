-- ===== src/Io/Owners.antt =====
-- Any sequence of operations on pinned buffers.
use mathlib.Core.List.{Perm, perm_middle}
use mathlib.Core.List.Perm
use collapsar.Base.{
  ℕ, ◌==◌, ◌≡◌, ◌≢◌, refl, ap, sym, subst, ◌∙◌, inl, inr, Bool-cases, List, [], ◌∷◌, ◌++◌,
  append_assoc, if◌then◌else◌,
}
use collapsar.Io.PinnedBuffer.{
  PinnedBuffer, empty_buffer, allocated_buffer, release, move_construct, move_assign,
}

-- The buffers that exist, and the addresses that were allocated and freed so far.
pub record Memory : Type 0 where
  pub buffers : List PinnedBuffer
  pub allocated : List ℕ
  pub freed : List ℕ

abbrev pub owned_by : PinnedBuffer → List ℕ
owned_by b = if b.ptr == 0 then [] else b.ptr ∷ []

abbrev pub owned : List PinnedBuffer → List ℕ
owned [] = []
owned (b ∷ bs) = owned_by b ++ owned bs

abbrev pub no_memory : Memory
no_memory = record { buffers = []; allocated = []; freed = [] }

-- A buffer is allocated (no address is 0), moved into a new one, assigned to another, or destroyed.
pub data Operation (m : Memory) : Memory → Type 0 where
  allocates :
      (address bytes : ℕ)
      → address ≢ 0
      → Operation m (record m {
        buffers = allocated_buffer address bytes ∷ m.buffers;
        allocated = owned_by (allocated_buffer address bytes) ++ m.allocated;
      })
  constructs :
      (before after : List PinnedBuffer) (b : PinnedBuffer)
      → m.buffers ≡ before ++ b ∷ after
      → Operation m (
          let (taken, left) = move_construct b in
          record m { buffers = taken ∷ (before ++ left ∷ after) })
  assigns :
      (before middle after : List PinnedBuffer) (this other : PinnedBuffer)
      → m.buffers ≡ before ++ this ∷ (middle ++ other ∷ after)
      → Operation m (
          let (gone, taken, left) = move_assign this other in
          record m {
            buffers = before ++ taken ∷ (middle ++ left ∷ after);
            freed = gone ++ m.freed;
          })
  assigns_back :
      (before middle after : List PinnedBuffer) (other this : PinnedBuffer)
      → m.buffers ≡ before ++ other ∷ (middle ++ this ∷ after)
      → Operation m (
          let (gone, taken, left) = move_assign this other in
          record m {
            buffers = before ++ left ∷ (middle ++ taken ∷ after);
            freed = gone ++ m.freed;
          })
  destroys :
      (before after : List PinnedBuffer) (b : PinnedBuffer)
      → m.buffers ≡ before ++ b ∷ after
      → Operation m (record m { buffers = before ++ after; freed = (release b).0 ++ m.freed })

pub data Lives : Memory → Type 0 where
  begins : Lives no_memory
  goes_on : {m n : Memory} → Lives m → Operation m n → Lives n

-- Every address that was allocated is freed or owned, and each just once.
abbrev pub IsOwned : Memory → Type 0
IsOwned m = Perm m.allocated (m.freed ++ owned m.buffers)

owned-append :
    (before after : List PinnedBuffer) → owned (before ++ after) ≡ owned before ++ owned after
owned-append [] after = refl
owned-append (b ∷ before) after =
    ap (λ l. owned_by b ++ l) (owned-append before after)
    ∙ sym (append_assoc (owned_by b) (owned before) (owned after))

-- What is freed is what is no longer owned.
release-owned_by : (b : PinnedBuffer) → (release b).0 ≡ owned_by b
unfolding release
release-owned_by b = elim (Bool-cases (b.ptr == 0)) [
  | inl null ↦ rw null refl
  | inr some_address ↦ rw some_address refl
]

swap_front : (xs ys zs : List ℕ) → Perm (xs ++ (ys ++ zs)) (ys ++ (xs ++ zs))
swap_front [] ys zs = Perm.refl (ys ++ zs)
swap_front (x ∷ xs) ys zs =
    Perm.trans (Perm.cons x (swap_front xs ys zs)) (Perm.symm (perm_middle ys (xs ++ zs)))

-- The addresses of one buffer may be counted first.
owned-front :
    (before after : List PinnedBuffer) (b : PinnedBuffer)
    → Perm (owned (before ++ b ∷ after)) (owned_by b ++ owned (before ++ after))
owned-front before after b =
    subst (λ l. Perm l (owned_by b ++ owned (before ++ after)))
      (sym (owned-append before (b ∷ after)))
      (subst (λ l. Perm (owned before ++ (owned_by b ++ owned after)) (owned_by b ++ l))
        (sym (owned-append before after)) (swap_front (owned before) (owned_by b) (owned after)))

without_empty :
    (before after : List PinnedBuffer)
    → Perm (owned (before ++ empty_buffer ∷ after)) (owned (before ++ after))
without_empty before after = owned-front before after empty_buffer

second-front :
    (before middle after : List PinnedBuffer) (b : PinnedBuffer)
    → Perm
        (owned (before ++ (middle ++ b ∷ after)))
        (owned_by b ++ owned (before ++ (middle ++ after)))
second-front before middle after b =
    subst (λ l. Perm (owned l) (owned_by b ++ owned (before ++ (middle ++ after))))
      (append_assoc before middle (b ∷ after))
      (subst (λ l. Perm (owned ((before ++ middle) ++ b ∷ after)) (owned_by b ++ owned l))
        (append_assoc before middle after) (owned-front (before ++ middle) after b))

both-front :
    (before middle after : List PinnedBuffer) (a b : PinnedBuffer)
    → Perm
        (owned (before ++ a ∷ (middle ++ b ∷ after)))
        (owned_by a ++ (owned_by b ++ owned (before ++ (middle ++ after))))
both-front before middle after a b =
    Perm.trans (owned-front before (middle ++ b ∷ after) a)
      (Perm.append_left (owned_by a) (second-front before middle after b))

-- What is freed leaves what is owned.
freeing :
    (allocated freed gone before after rest : List ℕ)
    → Perm allocated (freed ++ before)
    → Perm before (gone ++ rest)
    → Perm after rest
    → Perm allocated ((gone ++ freed) ++ after)
freeing allocated freed gone before after rest held old new = Perm.trans held (
    Perm.trans (Perm.append_left freed (Perm.trans old (Perm.append_left gone (Perm.symm new)))) (
      subst (Perm (freed ++ (gone ++ after))) (sym (append_assoc gone freed after))
        (swap_front freed gone after)))

-- `freeing` for what a release frees.
releasing :
    (m : Memory) (this : PinnedBuffer) (buffers : List PinnedBuffer) (before : List ℕ)
    (rest : List ℕ)
    → Perm m.allocated (m.freed ++ before)
    → Perm before (owned_by this ++ rest)
    → Perm (owned buffers) rest
    → Perm m.allocated (((release this).0 ++ m.freed) ++ owned buffers)
releasing m this buffers before rest held old new =
    subst (λ gone. Perm m.allocated ((gone ++ m.freed) ++ owned buffers))
      (sym (release-owned_by this))
      (freeing m.allocated m.freed (owned_by this) before (owned buffers) rest held old new)

held_at :
    (m : Memory) (buffers : List PinnedBuffer)
    → m.buffers ≡ buffers
    → IsOwned m
    → Perm m.allocated (m.freed ++ owned buffers)
held_at m buffers at held = subst (λ l. Perm m.allocated (m.freed ++ owned l)) at held

Operation-IsOwned : (m n : Memory) → Operation m n → IsOwned m → IsOwned n
unfolding move_construct move_assign
Operation-IsOwned m _ (allocates address bytes some_address) held =
    let new = owned_by (allocated_buffer address bytes) in
    Perm.trans (Perm.append_left new held) (swap_front new m.freed (owned m.buffers))
Operation-IsOwned m _ (constructs before after b at) held = Perm.trans (held_at m _ at held) (
    Perm.append_left m.freed (
      Perm.trans (owned-front before after b)
        (Perm.append_left (owned_by b) (Perm.symm (without_empty before after)))))
Operation-IsOwned m _ (assigns before middle after this other at) held =
    releasing m this (before ++ other ∷ (middle ++ empty_buffer ∷ after)) _
      (owned_by other ++ owned (before ++ (middle ++ after))) (held_at m _ at held)
      (both-front before middle after this other)
      (both-front before middle after other empty_buffer)
Operation-IsOwned m _ (assigns_back before middle after other this at) held =
    releasing m this (before ++ empty_buffer ∷ (middle ++ other ∷ after)) _
      (owned_by other ++ owned (before ++ (middle ++ after))) (held_at m _ at held)
      (Perm.trans (both-front before middle after other this)
        (swap_front (owned_by other) (owned_by this) (owned (before ++ (middle ++ after)))))
      (both-front before middle after empty_buffer other)
Operation-IsOwned m _ (destroys before after b at) held =
    releasing m b (before ++ after) _ (owned (before ++ after)) (held_at m _ at held)
      (owned-front before after b) (Perm.refl (owned (before ++ after)))

-- After any sequence of allocations, moves into new buffers, moves between buffers and
-- destructions of pinned buffers, the addresses that were allocated are those freed and those that
-- a buffer owns, each as often: nothing is freed twice or lost, and no two buffers own one
-- allocation.
pub Lives-IsOwned : (m : Memory) → Lives m → Perm m.allocated (m.freed ++ owned m.buffers)
Lives-IsOwned _ begins = Perm.refl []
Lives-IsOwned _ (goes_on {m} {n} lives operation) =
    Operation-IsOwned m n operation (Lives-IsOwned m lives)
