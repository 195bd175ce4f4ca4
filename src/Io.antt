-- ===== src/Io.antt =====
-- core/src/io, and the standard library's output stream and file system as the program uses them.
pub mod Stream
pub mod Disk
pub mod Sink
pub mod AsyncReader
pub mod Tiling
pub mod FileScanner
pub mod Sorted
pub mod Numbers
pub mod Walk
pub mod PinnedBuffer
pub mod Owners
pub mod Reasons
