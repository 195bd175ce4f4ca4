-- ===== src/Runs/Buffers.antt =====
-- Two buffers, one of which is assigned to the other, and a third that takes it over and goes.
use mathlib.Core.List.{Perm}
use collapsar.Base.{refl, [], ◌∷◌, ◌++◌}
use collapsar.Io.PinnedBuffer.{empty_buffer, allocated_buffer, release, move_construct, move_assign}
use collapsar.Io.Owners.{
  Memory, owned, Lives, begins, goes_on, allocates, constructs, assigns, destroys, Lives-IsOwned,
}

abbrev used : Memory
used = record {
  buffers = empty_buffer ∷ empty_buffer ∷ [];
  allocated = 9 ∷ 8 ∷ [];
  freed = 8 ∷ 9 ∷ [];
}

used-Lives : Lives used
unfolding allocated_buffer release move_construct move_assign
used-Lives =
    goes_on
      (goes_on
        (goes_on (goes_on (goes_on begins (allocates 8 5 (λ e. cc))) (allocates 9 6 (λ e. cc)))
          (assigns [] [] [] (record { ptr = 9; size = 6 }) (record { ptr = 8; size = 5 }) refl))
        (constructs [] (empty_buffer ∷ []) (record { ptr = 8; size = 5 }) refl))
      (destroys [] (empty_buffer ∷ empty_buffer ∷ []) (record { ptr = 8; size = 5 }) refl)

Lives-IsOwned_example : Perm used.allocated (used.freed ++ owned used.buffers)
Lives-IsOwned_example = Lives-IsOwned used used-Lives
