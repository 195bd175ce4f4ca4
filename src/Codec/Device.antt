-- ===== src/Codec/Device.antt =====
-- The device side of core/src/codec/nvcomp_deflate_codec.cu: what the CUDA runtime and nvCOMP offer (a
-- parameter, over a state `D` of the device), the error macros of core/src/util/cuda_check.hpp, and the
-- buffers. A pointer is an address, 0 for `nullptr`; a status is a number, 0 for success.
use collapsar.Base.{ℕ, zero, suc, ◌==◌, Bytes, List, leb, if◌then◌else◌}
use collapsar.Base.Int.{ℤ}
use collapsar.Core.Status.{StatusCode, Result, ok, err, make_error, cuda_error, nvcomp_error}
use collapsar.Core.Blocks.{CompressedBlock}
use collapsar.Core.Action.{Action}

-- The arguments of `nvcompBatchedDeflateCompressAsync`, less the options, which never change.
pub record Launch : Type 0 where
  pub in_ptrs : ℕ
  pub in_sizes : ℕ
  pub max_chunk : ℕ
  pub batch_size : ℕ
  pub temp : ℕ
  pub temp_bytes : ℕ
  pub out_ptrs : ℕ
  pub out_sizes : ℕ
  pub stream : ℕ

-- A call answers a status, or a status and a value. Work on one stream runs in its order, so a copy
-- from the device holds what the work before it left.
pub record Cuda (D : Type 0) : Type 0 where
  pub set_device : ℤ → D → ℕ × D
  pub stream_create : D → (ℕ × ℕ) × D
  pub event_create : D → (ℕ × ℕ) × D
  pub stream_destroy : ℕ → D → D
  pub event_destroy : ℕ → D → D
  pub event_synchronize : ℕ → D → ℕ × D
  pub event_record : ℕ → ℕ → D → ℕ × D
  pub stream_synchronize : ℕ → D → ℕ × D
  pub malloc : ℕ → D → (ℕ × ℕ) × D
  pub free : ℕ → D → D
  pub copy_in : ℕ → Bytes → ℕ → D → ℕ × D
  pub copy_in_array : ℕ → List ℕ → ℕ → D → ℕ × D
  pub copy_out : ℕ → ℕ → ℕ → D → (ℕ × Bytes) × D
  pub copy_out_array : ℕ → ℕ → ℕ → D → (ℕ × List ℕ) × D
  pub max_output_chunk_size : ℕ → ℕ × ℕ
  pub temp_size : ℕ → ℕ → ℕ × ℕ
  pub compress_async : Launch → D → ℕ × D
  pub cuda_message : ℕ → Bytes
  pub nvcomp_message : ℕ → Bytes

pub record Buffer : Type 0 where
  pub ptr : ℕ
  pub capacity : ℕ

abbrev pub no_buffer : Buffer
no_buffer = record { ptr = 0; capacity = 0 }

pub record StreamSlot : Type 0 where
  pub stream : ℕ
  pub done_event : ℕ
  pub d_input : Buffer
  pub d_output : Buffer
  pub d_temp : Buffer
  pub d_in_ptrs : ℕ
  pub d_in_sizes : ℕ
  pub d_out_ptrs : ℕ
  pub d_out_sizes_inout : ℕ
  pub d_statuses : ℕ
  pub d_meta_capacity : ℕ

abbrev pub new_slot : StreamSlot
new_slot = record {
  stream = 0;
  done_event = 0;
  d_input = no_buffer;
  d_output = no_buffer;
  d_temp = no_buffer;
  d_in_ptrs = 0;
  d_in_sizes = 0;
  d_out_ptrs = 0;
  d_out_sizes_inout = 0;
  d_statuses = 0;
  d_meta_capacity = 0;
}

-- What a batch changes: its slot, the device, and the blocks that are filled in.
pub record Frame (D : Type 0) : Type 0 where
  pub slot : StreamSlot
  pub device : D
  pub out : List CompressedBlock

-- `from_cuda` and `from_nvcomp` under the macros; the text of the call and its place are left out.
abbrev pub check_status : StatusCode → (ℕ → Bytes) → ℕ → Result (Unit {0})
check_status code message zero = ok tt
check_status code message (suc n) = err (make_error code (message (suc n)))

abbrev pub check_value : {A : Type 0} → StatusCode → (ℕ → Bytes) → ℕ × A → Result A
check_value code message (zero, a) = ok a
check_value code message (suc n, a) = err (make_error code (message (suc n)))

module _ {D : Type 0} (cuda : Cuda D) where
  unfoldable pub cuda_try : (D → ℕ × D) → Action (Frame D) (Unit {0})
  cuda_try call f =
      let (rc, d) = call f.device in
      (check_status cuda_error cuda.cuda_message rc, record f { device = d })

  unfoldable pub cuda_value : {A : Type 0} → (D → (ℕ × A) × D) → Action (Frame D) A
  cuda_value call f =
      let (answer, d) = call f.device in
      (check_value cuda_error cuda.cuda_message answer, record f { device = d })

  unfoldable pub nvcomp_value : {A : Type 0} → ℕ × A → Action (Frame D) A
  nvcomp_value answer f = (check_value nvcomp_error cuda.nvcomp_message answer, f)

  unfoldable pub nvcomp_try : (D → ℕ × D) → Action (Frame D) (Unit {0})
  nvcomp_try call f =
      let (rc, d) = call f.device in
      (check_status nvcomp_error cuda.nvcomp_message rc, record f { device = d })

  abbrev pub allocated : ℕ → (ℕ × ℕ) × D → ℕ × Buffer × D
  allocated needed ((zero, fresh), d) = (0, record { ptr = fresh; capacity = needed }, d)
  allocated needed ((suc n, fresh), d) = (suc n, no_buffer, d)

  unfoldable pub ensure_capacity : ℕ → Buffer → D → ℕ × Buffer × D
  ensure_capacity needed b d =
      if leb needed b.capacity
      then (0, b, d)
      else allocated needed (cuda.malloc needed (if b.ptr == 0 then d else cuda.free b.ptr d))
