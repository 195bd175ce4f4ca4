-- ===== src/Pipeline/Task.antt =====
-- The task of one file: read, compress, assemble. `gpu_mutex` only keeps two tasks from being in the
-- GPU codec at once, and shows nowhere in a task's result.
use collapsar.Base.{ℕ, none, some, List, map}
use collapsar.Core.Status.{Result, ok}
use collapsar.Core.Try.{◌>>=◌}
use collapsar.Core.Blocks.{FileEntry, FileBlock, CompressedBlock, PreparedFile}
use collapsar.Codec.Zlib.{Zlib}
use collapsar.Codec.Deflate.{compress}
use collapsar.Codec.Factory.{CodecBundle}
use collapsar.Io.AsyncReader.{Host, Slice, effective_block_bytes, submit, read_block}
use collapsar.Pipeline.Router.{Decision, cpu, gpu}
use collapsar.Pipeline.Stop.{Stop}
use collapsar.Pipeline.Compress.{drain_and_compress, compress_on_gpu}
use collapsar.Pipeline.Assemble.{assemble}

-- The reader's tasks for one file, in source order; `i` is the position of the file.
unfoldable pub read_tasks : Host → Stop → ℕ → ℕ → FileEntry → List (Result FileBlock)
read_tasks host stop block_bytes i entry =
    map (λ (s : Slice). read_block host entry (stop.reading i s.idx) s)
      (submit entry.size_bytes (effective_block_bytes block_bytes))

-- The codec by the route. A route to the GPU is taken only if there is a GPU codec.
unfoldable pub compress_blocks :
    Zlib
    → Stop
    → ℕ
    → CodecBundle
    → Decision
    → List (Result FileBlock)
    → Result (List CompressedBlock)
compress_blocks z stop i codecs cpu futures =
    drain_and_compress (stop.draining i) 0 (compress z codecs.cpu) futures
compress_blocks z stop i codecs gpu futures = elim codecs.gpu [
  | none ↦ drain_and_compress (stop.draining i) 0 (compress z codecs.cpu) futures
  | some codec ↦ compress_on_gpu (stop.draining i) codec futures
]

unfoldable pub file_task :
    Zlib → Host → Stop → ℕ → CodecBundle → Decision → ℕ → FileEntry → Result PreparedFile
unfolding read_tasks compress_blocks
file_task z host stop block_bytes codecs decision i entry = do
  blocks ← compress_blocks z stop i codecs decision (read_tasks host stop block_bytes i entry)
  ok (assemble z entry blocks)
