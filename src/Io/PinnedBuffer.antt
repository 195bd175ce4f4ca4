-- ===== src/Io/PinnedBuffer.antt =====
-- Who owns the memory of core/src/io/pinned_buffer.cpp: a pointer is an address, 0 for `nullptr`. Each
-- operation answers what it frees beside the buffers that it leaves. `allocate` in AsyncReader has the
-- errors of an allocation.
use collapsar.Base.{ℕ, ◌==◌, List, [], ◌∷◌, if◌then◌else◌}

pub record PinnedBuffer : Type 0 where
  pub ptr : ℕ
  pub size : ℕ

abbrev pub empty_buffer : PinnedBuffer
empty_buffer = record { ptr = 0; size = 0 }

-- A successful `allocate` of `bytes`, where the allocator gives the address.
unfoldable pub allocated_buffer : ℕ → ℕ → PinnedBuffer
allocated_buffer address bytes =
    if bytes == 0 then empty_buffer else record { ptr = address; size = bytes }

unfoldable pub release : PinnedBuffer → List ℕ × PinnedBuffer
release b = if b.ptr == 0 then ([], b) else (b.ptr ∷ [], empty_buffer)

-- The move constructor: the new buffer, and what is left of the other.
unfoldable pub move_construct : PinnedBuffer → PinnedBuffer × PinnedBuffer
move_construct other = (record { ptr = other.ptr; size = other.size }, empty_buffer)

-- The move assignment from another buffer; one from itself does nothing.
unfoldable pub move_assign : PinnedBuffer → PinnedBuffer → List ℕ × PinnedBuffer × PinnedBuffer
unfolding release move_construct
move_assign this other = let (taken, left) = move_construct other in ((release this).0, taken, left)
