-- ===== src/Bridge/Values.antt =====
-- The numbers of the C interface and what they become. A C string is its bytes with the terminator,
-- and `none` is a null pointer; whether `malloc` succeeds for a size is a parameter.
use collapsar.Base.{
  ℕ, zero, suc, ◌+◌, ◌*◌, ◌≡◌, refl, Bool, true, false, Option, none, some, Bytes, List, [], ◌∷◌,
  ◌++◌, length, get_elem?, if◌then◌else◌,
}
use collapsar.Base.Int.{ℤ, pos, negsuc}
use collapsar.Core.Status.{
  StatusCode, ok_status, cancelled, invalid_argument, not_found, permission_denied, io,
  out_of_memory, cuda_error, nvcomp_error, codec_error, format_error, unsupported, internal,
}
use collapsar.Core.Options.{
  Format, zip, gzip, zstd, Algorithm, auto, cpu_deflate, gpu_deflate, gpu_gdeflate, cpu_zstd,
  gpu_zstd, Level, fast, balanced, best, EngineOptions, default_engine_options, JobOptions,
  default_job_options,
}

unfoldable pub dup_cstring : (ℕ → Bool) → Bytes → Option Bytes
dup_cstring malloc s = if malloc (length s + 1) then some (s ++ 0 ∷ []) else none

-- `static_cast` to an enumeration, whose enumerators have the values 0, 1, …; `none` is a value without
-- a name.
abbrev pub enumerator : {A : Type 0} → List A → ℤ → Option A
enumerator names (pos n) = get_elem? names n
enumerator names (negsuc n) = none

unfoldable pub to_native_format : ℤ → Option Format
to_native_format = enumerator (zip ∷ gzip ∷ zstd ∷ [])

unfoldable pub to_native_algorithm : ℤ → Option Algorithm
to_native_algorithm =
    enumerator (auto ∷ cpu_deflate ∷ gpu_deflate ∷ gpu_gdeflate ∷ cpu_zstd ∷ gpu_zstd ∷ [])

unfoldable pub to_native_level : ℤ → Option Level
to_native_level = enumerator (fast ∷ balanced ∷ best ∷ [])

-- `COLLAPSAR_FORMAT_…`, `COLLAPSAR_ALGO_…`, `COLLAPSAR_LEVEL_…`
abbrev pub format_value : Format → ℤ
format_value zip = pos 0
format_value gzip = pos 1
format_value zstd = pos 2

abbrev pub algorithm_value : Algorithm → ℤ
algorithm_value auto = pos 0
algorithm_value cpu_deflate = pos 1
algorithm_value gpu_deflate = pos 2
algorithm_value gpu_gdeflate = pos 3
algorithm_value cpu_zstd = pos 4
algorithm_value gpu_zstd = pos 5

abbrev pub level_value : Level → ℤ
level_value fast = pos 0
level_value balanced = pos 1
level_value best = pos 2

-- `COLLAPSAR_OK`, …: the values of the status codes of the C interface.
abbrev pub status_value : StatusCode → ℕ
status_value ok_status = 0
status_value cancelled = 1
status_value invalid_argument = 2
status_value not_found = 3
status_value permission_denied = 4
status_value io = 5
status_value out_of_memory = 6
status_value cuda_error = 7
status_value nvcomp_error = 8
status_value codec_error = 9
status_value format_error = 10
status_value unsupported = 11
status_value internal = 12

-- `collapsar_job_options_t`
pub record CJobOptions : Type 0 where
  pub format : ℤ
  pub algorithm : ℤ
  pub level : ℤ
  pub gpu_threshold_bytes : ℕ
  pub gpu_batch_bytes : ℕ
  pub block_bytes : ℕ
  pub recurse : ℤ
  pub overwrite : ℤ

abbrev pub job_options_default : CJobOptions
job_options_default = record {
  format = pos 0;
  algorithm = pos 0;
  level = pos 1;
  gpu_threshold_bytes = 1 * 1024 * 1024;
  gpu_batch_bytes = 256 * 1024 * 1024;
  block_bytes = 8 * 1024 * 1024;
  recurse = pos 1;
  overwrite = pos 0;
}

-- `v != 0`
abbrev pub is_set : ℤ → Bool
is_set (pos zero) = false
is_set (pos (suc n)) = true
is_set (negsuc n) = true

abbrev named_options :
    CJobOptions → Option Format → Option Algorithm → Option Level → Option JobOptions
named_options o (some format) (some algorithm) (some level) = some (record {
  format = format;
  algorithm = algorithm;
  level = level;
  gpu_threshold_bytes = o.gpu_threshold_bytes;
  gpu_batch_bytes = o.gpu_batch_bytes;
  block_bytes = o.block_bytes;
  recurse = is_set o.recurse;
  overwrite = is_set o.overwrite;
})
named_options o _ _ _ = none

unfoldable pub native_options : CJobOptions → Option JobOptions
unfolding to_native_format to_native_algorithm to_native_level
native_options o =
    named_options o (to_native_format o.format) (to_native_algorithm o.algorithm)
      (to_native_level o.level)

-- Without options the request keeps the defaults of `JobOptions`.
abbrev pub options_of : Option CJobOptions → Option JobOptions
options_of none = some default_job_options
options_of (some o) = native_options o

abbrev positive_or : ℤ → ℕ → ℕ
positive_or (pos zero) n = n
positive_or (pos (suc m)) n = suc m
positive_or (negsuc m) n = n

-- The options of `collapsar_engine_create`.
unfoldable pub create_options : ℕ → ℤ → ℤ → ℤ → ℤ → EngineOptions
create_options hardware_concurrency cuda_device enable_gpu io_threads cpu_threads =
    let options = default_engine_options hardware_concurrency in
    record options {
      cuda_device = cuda_device;
      enable_gpu = is_set enable_gpu;
      io_threads = positive_or io_threads options.io_threads;
      cpu_codec_threads = positive_or cpu_threads options.cpu_codec_threads;
    }

-- How a caller writes options down.
abbrev c_bool : Bool → ℤ
c_bool true = pos 1
c_bool false = pos 0

abbrev pub c_options : JobOptions → CJobOptions
c_options o = record {
  format = format_value o.format;
  algorithm = algorithm_value o.algorithm;
  level = level_value o.level;
  gpu_threshold_bytes = o.gpu_threshold_bytes;
  gpu_batch_bytes = o.gpu_batch_bytes;
  block_bytes = o.block_bytes;
  recurse = c_bool o.recurse;
  overwrite = c_bool o.overwrite;
}

to_native_format-format_value : (f : Format) → to_native_format (format_value f) ≡ some f
unfolding to_native_format
to_native_format-format_value zip = refl
to_native_format-format_value gzip = refl
to_native_format-format_value zstd = refl

to_native_algorithm-algorithm_value :
    (a : Algorithm) → to_native_algorithm (algorithm_value a) ≡ some a
unfolding to_native_algorithm
to_native_algorithm-algorithm_value auto = refl
to_native_algorithm-algorithm_value cpu_deflate = refl
to_native_algorithm-algorithm_value gpu_deflate = refl
to_native_algorithm-algorithm_value gpu_gdeflate = refl
to_native_algorithm-algorithm_value cpu_zstd = refl
to_native_algorithm-algorithm_value gpu_zstd = refl

to_native_level-level_value : (l : Level) → to_native_level (level_value l) ≡ some l
unfolding to_native_level
to_native_level-level_value fast = refl
to_native_level-level_value balanced = refl
to_native_level-level_value best = refl

is_set-c_bool : (b : Bool) → is_set (c_bool b) ≡ b
is_set-c_bool true = refl
is_set-c_bool false = refl

-- Options written down in the numbers of the C interface become the same native options, and the
-- defaults of the C interface are those of the engine.
pub native_options-c_options :
    (o : JobOptions)
    → (options_of (some (c_options o)) ≡ some o)
      × (options_of (some job_options_default) ≡ options_of none)
unfolding native_options to_native_format to_native_algorithm to_native_level
native_options-c_options o = (
  rw
      (
        to_native_format-format_value o.format,
        to_native_algorithm-algorithm_value o.algorithm,
        to_native_level-level_value o.level,
        is_set-c_bool o.recurse,
        is_set-c_bool o.overwrite,
      )
      refl,
  refl,
)
