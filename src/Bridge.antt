-- ===== src/Bridge.antt =====
-- bridge/src/c_bridge.h and c_bridge.cpp.
pub mod Values
pub mod Names
pub mod Pack
pub mod Threads
pub mod Ordered
pub mod Safe
pub mod Freed
pub mod Agree
pub mod Events
