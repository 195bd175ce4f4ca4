-- ===== src/Core/Job.antt =====
-- core/include/collapsar/job.hpp and progress.hpp. The throughput of an event is a floating-point
-- number and is left out, and so is the elapsed time of the statistics.
use collapsar.Base.{ℕ, List, []}
use collapsar.Core.Options.{JobOptions}
use collapsar.Core.Blocks.{FilePath}

pub record JobRequest : Type 0 where
  pub inputs : List FilePath
  pub output : FilePath
  pub options : JobOptions

pub record JobStats : Type 0 where
  pub files_processed : ℕ
  pub files_skipped : ℕ
  pub input_bytes : ℕ
  pub output_bytes : ℕ
  pub cpu_blocks : ℕ
  pub gpu_blocks : ℕ

abbrev pub no_stats : JobStats
no_stats = record {
  files_processed = 0;
  files_skipped = 0;
  input_bytes = 0;
  output_bytes = 0;
  cpu_blocks = 0;
  gpu_blocks = 0;
}

pub record ProgressEvent : Type 0 where
  pub total_files : ℕ
  pub total_bytes : ℕ
  pub processed_files : ℕ
  pub processed_bytes : ℕ
  pub output_bytes : ℕ
  pub current_file : FilePath

abbrev pub no_progress : ProgressEvent
no_progress = record {
  total_files = 0;
  total_bytes = 0;
  processed_files = 0;
  processed_bytes = 0;
  output_bytes = 0;
  current_file = [];
}
