-- ===== src/Core/Options.antt =====
-- core/include/collapsar/format.hpp and options.hpp. Sizes are `std::size_t` values, below 2 ^ 64.
use collapsar.Base.Int.{ℤ, pos}
use collapsar.Base.{ℕ, ◌*◌, Bool, true, false, Bytes, text}

pub data Format : Type 0 where
  zip gzip zstd : Format

pub data Algorithm : Type 0 where
  auto cpu_deflate gpu_deflate gpu_gdeflate cpu_zstd gpu_zstd : Algorithm

pub data Level : Type 0 where
  fast balanced best : Level

unfoldable pub extension_for : Format → Bytes
extension_for zip = text ".zip"
extension_for gzip = text ".gz"
extension_for zstd = text ".zst"

unfoldable pub is_archive : Format → Bool
is_archive zip = true
is_archive gzip = false
is_archive zstd = false

pub record EngineOptions : Type 0 where
  pub io_threads : ℕ
  pub cpu_codec_threads : ℕ
  pub enable_gpu : Bool
  pub cuda_device : ℤ
  pub gpu_streams : ℕ
  pub gpu_memory_budget_mib : ℕ

-- The defaults; `hardware_concurrency` is what the standard library reports.
abbrev pub default_engine_options : ℕ → EngineOptions
default_engine_options hardware_concurrency = record {
  io_threads = 4;
  cpu_codec_threads = hardware_concurrency;
  enable_gpu = true;
  cuda_device = pos 0;
  gpu_streams = 3;
  gpu_memory_budget_mib = 1024;
}

pub record JobOptions : Type 0 where
  pub format : Format
  pub algorithm : Algorithm
  pub level : Level
  pub gpu_threshold_bytes : ℕ
  pub gpu_batch_bytes : ℕ
  pub block_bytes : ℕ
  pub recurse : Bool
  pub overwrite : Bool

abbrev pub default_job_options : JobOptions
default_job_options = record {
  format = zip;
  algorithm = auto;
  level = balanced;
  gpu_threshold_bytes = 1 * 1024 * 1024;
  gpu_batch_bytes = 256 * 1024 * 1024;
  block_bytes = 8 * 1024 * 1024;
  recurse = true;
  overwrite = false;
}
