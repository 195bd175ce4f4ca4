-- ===== src/Io/AsyncReader.antt =====
-- core/src/io/async_reader.cpp and pinned_buffer.cpp. A file is not changed while a job reads it.
use collapsar.Base.{
  ℕ, zero, suc, ◌+◌, ◌-◌, ◌*◌, ◌/◌, ◌%◌, ◌^◌, min, Bool, Option, none, some, Bytes, List, [], ◌∷◌,
  ◌++◌, text, decimal, ◌==◌, if◌then◌else◌, length, take, drop,
}
use collapsar.Core.Status.{Result, ok, err, make_error, cancelled, io, out_of_memory, cuda_error}
use collapsar.Core.Blocks.{FilePath, FileEntry, FileBlock}

-- The host: the contents of the files that open, and the sizes that can be allocated.
pub record Host : Type 0 where
  pub open_file : FilePath → Option Bytes
  pub allocates : ℕ → Bool
  -- Whether the build has CUDA; a failing `cudaHostAlloc` is reported with this message.
  pub has_cuda : Bool
  pub cuda_message : Bytes

-- `AsyncReader::AsyncReader`: a block size of 0 stands for 1 MiB.
unfoldable pub effective_block_bytes : ℕ → ℕ
effective_block_bytes block_bytes = if block_bytes == 0 then 1 * 1024 * 1024 else block_bytes

-- `block_count`: 64-bit arithmetic, and a cast to 32 bits.
unfoldable pub block_count : ℕ → ℕ → ℕ
block_count total block_bytes =
    if total == 0 then 1 else (total + block_bytes + 2 ^ 64 - 1) % 2 ^ 64 / block_bytes % 2 ^ 32

-- What a task of `submit` captures.
pub record Slice : Type 0 where
  pub idx : ℕ
  pub offset : ℕ
  pub bytes : ℕ
  pub last : Bool

unfoldable pub slice : ℕ → ℕ → ℕ → ℕ → Slice
slice total block_bytes count idx =
    let offset = idx * block_bytes % 2 ^ 64 in
    record {
      idx = idx;
      offset = offset;
      bytes = min block_bytes ((total + 2 ^ 64 - offset) % 2 ^ 64);
      last = idx + 1 == count;
    }

-- The loop of `submit` from `idx` on, with `rounds` rounds left.
unfoldable pub slices_from : ℕ → ℕ → ℕ → ℕ → ℕ → List Slice
unfolding slice
slices_from total block_bytes count zero idx = []
slices_from total block_bytes count (suc rounds) idx =
    slice total block_bytes count idx ∷ slices_from total block_bytes count rounds (idx + 1)

-- The tasks that `submit` enqueues, in source order.
unfoldable pub submit : ℕ → ℕ → List Slice
unfolding slices_from block_count
submit total block_bytes =
    let count = block_count total block_bytes in slices_from total block_bytes count count 0

-- `PinnedBuffer::allocate`: no allocation for no bytes.
unfoldable pub allocate : Host → ℕ → Result ℕ
allocate host bytes =
    if bytes == 0
    then ok 0
    else if host.allocates bytes
    then ok bytes
    else if host.has_cuda
    then err (make_error cuda_error host.cuda_message)
    else err (
        make_error out_of_memory
          (text "Failed to allocate " ++ (decimal bytes ++ text " bytes for pinned buffer")))

-- `seekg`, `read` and the test on `gcount`.
unfoldable pub read_range : FilePath → Bytes → ℕ → ℕ → Result Bytes
read_range source contents offset bytes =
    let got = take bytes (drop offset contents) in
    if length got == bytes
    then ok got
    else err (
        make_error io (
          text "Short read on "
          ++ (source
              ++ (text " (got "
                  ++ (decimal (length got) ++ (text " of " ++ (decimal bytes ++ text ")")))))))

-- The part of the task under `if (bytes > 0)`.
unfoldable pub read_source : Host → FilePath → ℕ → ℕ → Result Bytes
unfolding read_range
read_source host source offset bytes = if bytes == 0 then ok [] else elim (host.open_file source) [
  | none ↦ err (make_error io (text "Failed to open " ++ source))
  | some contents ↦ read_range source contents offset bytes
]

abbrev block_of : FileEntry → Slice → Bytes → FileBlock
block_of entry s payload = record {
  file_id = entry.id;
  block_index = s.idx;
  is_last = s.last;
  logical_offset = s.offset;
  payload = payload;
  used_bytes = s.bytes;
}

abbrev pub fill : FileEntry → Slice → Result Bytes → Result FileBlock
fill entry s (ok payload) = ok (block_of entry s payload)
fill entry s (err e) = err e

abbrev pub then_fill : Host → FileEntry → Slice → Result ℕ → Result FileBlock
then_fill host entry s (ok size) = fill entry s (read_source host entry.source s.offset s.bytes)
then_fill host entry s (err e) = err e

-- One task; `stopped` is what `stop_requested()` answers when it runs.
unfoldable pub read_block : Host → FileEntry → Bool → Slice → Result FileBlock
unfolding allocate read_source
read_block host entry stopped s =
    if stopped
    then err (make_error cancelled (text "reader cancelled"))
    else then_fill host entry s (allocate host s.bytes)
