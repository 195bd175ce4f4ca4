-- ===== src/Zip.antt =====
-- The ZIP writer: core/src/format/zip_structures.hpp, zip_writer.hpp and zip_writer.cpp.
pub mod Bytes
pub mod Structures
pub mod Entry
pub mod DosTime
pub mod DosFields
pub mod Writer
pub mod Reader
pub mod Headers
pub mod Directory
pub mod Locate
pub mod Layout
pub mod Writes
pub mod Archive
pub mod Finish
pub mod RoundTrip
pub mod Reasons
