-- ===== src/Engine.antt =====
-- core/src/job_handle.cpp and engine.cpp.
pub mod Handle
pub mod Submit
pub mod Create
pub mod Answers
pub mod Callback
