-- ===== src/Codec.antt =====
-- core/src/codec: checksums and the deflate codecs.
pub mod Zlib
pub mod Crc32
pub mod Deflate
pub mod Widths
pub mod Factory
pub mod Streams
pub mod Device
pub mod Nvcomp
pub mod Batches
pub mod Unallocated
pub mod Refused
pub mod Never
pub mod NvcompGpu
pub mod Staging
pub mod Reasons
