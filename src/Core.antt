-- ===== src/Core.antt =====
-- The public types: core/include/collapsar/error.hpp, result.hpp, format.hpp, options.hpp, job.hpp,
-- progress.hpp, capabilities.hpp, and the records that move between the stages.
pub mod Status
pub mod Options
pub mod Blocks
pub mod Action
pub mod Try
pub mod Job
pub mod Triple
pub mod Capabilities
pub mod Reason
