-- ===== src/Util.antt =====
-- core/src/util.
pub mod BoundedQueue
pub mod Fifo
pub mod ThreadPool
pub mod Tasks
pub mod Accepted
pub mod Shutdown
pub mod Standing
pub mod Log
