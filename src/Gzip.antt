-- ===== src/Gzip.antt =====
-- The gzip writer: core/src/format/gzip_writer.hpp and gzip_writer.cpp.
pub mod Writer
pub mod Reader
pub mod RoundTrip
pub mod Reasons
