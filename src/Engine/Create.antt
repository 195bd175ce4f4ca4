-- ===== src/Engine/Create.antt =====
-- `Engine::Impl`: the options, the capabilities and the two pools, each with a worker at least.
use Prim.Native.Nat.{max}
use collapsar.Core.Options.{EngineOptions}
use collapsar.Core.Capabilities.{Capabilities, CudaRuntime, probe_capabilities}
use collapsar.Util.ThreadPool.{ThreadPool, new_pool}

pub record Engine {ℓ} (Task : Type ℓ) : Type ℓ where
  pub options : EngineOptions
  pub capabilities : Capabilities
  pub cpu_pool : ThreadPool Task
  pub io_pool : ThreadPool Task

unfoldable pub create_engine {ℓ} : {Task : Type ℓ} → CudaRuntime → EngineOptions → Engine Task
unfolding probe_capabilities new_pool
create_engine cuda options = record {
  options = options;
  capabilities = probe_capabilities cuda;
  cpu_pool = new_pool (max options.cpu_codec_threads 1);
  io_pool = new_pool (max options.io_threads 1);
}
