-- ===== src/Core/Capabilities.antt =====
-- core/include/collapsar/capabilities.hpp and core/src/capabilities.cpp. What the CUDA runtime answers is
-- a parameter: `none` is a call that fails.
use collapsar.Base.{
  ℕ, zero, suc, ◌+◌, Bool, true, false, Option, none, some, Bytes, List, [], ◌∷◌, ◌++◌, text,
  if◌then◌else◌,
}
use collapsar.Core.Options.{Algorithm, cpu_deflate, gpu_deflate, gpu_gdeflate}

pub record Capabilities : Type 0 where
  pub has_cuda : Bool
  pub cuda_device_count : ℕ
  pub cuda_device_names : List Bytes
  pub supported : List Algorithm

pub record CudaRuntime : Type 0 where
  pub built_with_cuda : Bool
  pub get_device_count : Option ℕ
  pub get_device_name : ℕ → Option Bytes

abbrev name_or_unknown : Option Bytes → Bytes
name_or_unknown none = text "unknown"
name_or_unknown (some name) = name

-- The names of `n` devices, from device `i` on.
unfoldable pub device_names : CudaRuntime → ℕ → ℕ → List Bytes
device_names cuda i zero = []
device_names cuda i (suc n) = name_or_unknown (cuda.get_device_name i) ∷ device_names cuda (i + 1) n

abbrev pub no_cuda : Capabilities
no_cuda = record {
  has_cuda = false;
  cuda_device_count = 0;
  cuda_device_names = [];
  supported = cpu_deflate ∷ [];
}

unfoldable pub with_devices : CudaRuntime → Option ℕ → Capabilities
unfolding device_names
with_devices cuda none = no_cuda
with_devices cuda (some zero) = no_cuda
with_devices cuda (some (suc n)) = record {
  has_cuda = true;
  cuda_device_count = suc n;
  cuda_device_names = device_names cuda 0 (suc n);
  supported = no_cuda.supported ++ gpu_deflate ∷ gpu_gdeflate ∷ [];
}

unfoldable pub probe_capabilities : CudaRuntime → Capabilities
unfolding with_devices
probe_capabilities cuda =
    if cuda.built_with_cuda then with_devices cuda cuda.get_device_count else no_cuda
