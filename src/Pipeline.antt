-- ===== src/Pipeline.antt =====
-- core/src/pipeline.
pub mod Router
pub mod Stop
pub mod Compress
pub mod Assemble
pub mod Task
pub mod Writer
pub mod Run
pub mod Checksum
pub mod CpuBlocks
pub mod CpuTask
pub mod Drained
pub mod Statistics
pub mod ZipRun
pub mod Cancel
pub mod CpuJob
pub mod EndToEnd
pub mod GpuTask
pub mod GpuJob
pub mod Progress
pub mod Events
pub mod Schedule
pub mod Settling
pub mod Orderly
pub mod Deadlock
pub mod Idle
pub mod Outlived
pub mod Order
pub mod TaskReasons
pub mod Reasons
pub mod GzipJob
