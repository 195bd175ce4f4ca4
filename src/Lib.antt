-- ===== src/Lib.antt =====
-- Collapsar: the compression engine in core/, from the inputs of a job to the bytes of its
-- archive, with the command line in cli/ and the C interface in bridge/ in front of it.
--
-- A job scans its inputs, splits each file into blocks that an I/O pool reads, compresses the
-- blocks of a file in one task on the CPU (zlib) or in one batch on the GPU (nvCOMP), assembles
-- CRC and sizes, and hands the files in input order to a writer for ZIP or gzip. The parts are:
--
--   Core      core/include/collapsar: status codes and results (error.hpp, result.hpp), formats
--             and options, job and progress records, the records that move between the stages.
--             `Action` is a method that changes an object and may fail: the state comes back
--             beside an error.
--   Io        core/src/io: AsyncReader (`submit` gives the slices of a file, `read_block` is the
--             task of one), FileScanner (`scan`; Numbers and Walk are about what it finds),
--             PinnedBuffer (who owns its memory, in Owners), and the devices below them. `Stream`
--             is an output stream with a capacity: a write that does not fit sets it bad, as
--             `std::ofstream` does.
--   Codec     core/src/codec: CRC-32, the deflate codec, `make_codecs`; Streams is about what
--             the deflate codec stores, and Widths about the casts to zlib's types. Device,
--             Nvcomp and Batches are nvcomp_deflate_codec.cu over the CUDA runtime and nvCOMP;
--             Unallocated, Refused, Never and Staging are about its metadata arrays and its
--             input buffer; NvcompGpu is the codec as a job uses it. Reasons, here and in Io,
--             Zip, Gzip and Pipeline, has the codes of the errors.
--   Zip       core/src/format/zip_writer.cpp byte for byte in Entry, DosTime and Writer; Reader
--             is an independent reader of the ZIP format, written from its specification.
--   Gzip      core/src/format/gzip_writer.cpp in Writer, and a reader of a member after RFC 1952.
--   Pipeline  core/src/pipeline: Router is size_router.hpp, and the others are pipeline.cpp: Task
--             is the task of a file, Assemble its CRC and sizes, Run is `Pipeline::run`, Progress
--             its coalescer, and Events what the drain loop tells it. Schedule is the job on its
--             two pools as a step relation; Orderly, Deadlock, Order, Idle, Settling and Outlived
--             are about it; GpuTask and GpuJob are about a GPU codec that fails.
--   Engine    core/src/job_handle.cpp in Handle, each section under the lock as a step, and
--             engine.cpp in Submit and Answers; Callback is its progress callback, and Create has
--             the state of an engine.
--   Util      core/src/util: BoundedQueue and all interleavings of its calls (Fifo); ThreadPool
--             with its workers, Tasks the interleavings of workers, submissions and `stop` as a
--             step relation, Accepted, Shutdown and Standing what holds of them; Log.
--   Cli       cli/main.cpp: Sizes is `parse_size`, Args is `parse_pack`, Commands `cmd_pack` and
--             `main`; Render writes arguments out, for the round trip in ReadBack.
--   Bridge    bridge/src/c_bridge.cpp: Values has the numbers of the C interface, Names the
--             buffer of device names, Events the progress callback, Pack the calls on a handle,
--             and Agree compares them with the engine. Threads is the interleavings of pack,
--             cancel, destroy and the job on one handle; Ordered, Safe and Freed are about them.
--   Base      shared helpers. Runs: small inputs on which the theorems are applied.
--
-- State is passed explicitly. In `Pipeline::run` a future is its result, since the result of a
-- task does not depend on when a pool runs it; when it runs is the subject of Pipeline/Schedule,
-- where a task is the futures that it waits for and the job returns early only where its code
-- does. A cancellation is a record that says what `stop_requested()` answers at each place that
-- asks. All loops are structural, over the files, the blocks or the count of blocks, but
-- `decimal`, whose 20 digits are enough for 64 bits. Integers keep their width: sums of sizes are
-- taken modulo 2^64, fields of a header modulo 2^16 or 2^32, zlib's `avail_in` modulo 2^32, and
-- its `z_off_t` and `uLong` modulo their widths, which are parameters since they depend on the
-- platform.
--
-- Parameters: zlib (`Zlib`, with the documented laws `CrcLaws`, `DeflateLaws` and `Inflates`), the
-- CUDA runtime and nvCOMP (`Cuda`, with `RefusesNull`; `CudaRuntime` for the capabilities),
-- `malloc`, the file system, the host's memory and the output device. The pipeline takes the GPU
-- codec as a parameter (`Gpu`) too.
--
-- Not modelled: elapsed time and throughput, what the command line prints, several calls of pack on
-- one handle at the same time, and the desktop application.
pub mod Base
pub mod Core
pub mod Io
pub mod Zip
pub mod Gzip
pub mod Codec
pub mod Pipeline
pub mod Engine
pub mod Util
pub mod Cli
pub mod Bridge
pub mod Runs
