-- ===== src/Runs/Bridges.antt =====
-- Calls over the C interface.
use collapsar.Base.{
  ◌≡◌, ◌<◌, refl, true, Option, none, some, Bytes, List, [], ◌∷◌, length, All, arith,
}
use collapsar.Core.Options.{JobOptions, default_job_options, default_engine_options, gzip, best}
use collapsar.Core.Capabilities.{CudaRuntime, device_names}
use collapsar.Engine.Submit.{engine_run}
use collapsar.Bridge.Names.{c_probe_capabilities, read_names, read_names-c_probe_capabilities}
use collapsar.Bridge.Pack.{EngineHandle, CJobResult, engine_pack, request_of}
use collapsar.Bridge.Agree.{Says, engine_pack-engine_run}
use collapsar.Runs.Jobs.{env}
use collapsar.Runs.Engines.{empty_world}

abbrev some_options : JobOptions
some_options = record default_job_options { format = gzip; level = best; overwrite = true }

abbrev two_devices : CudaRuntime
two_devices = record {
  built_with_cuda = true;
  get_device_count = some 2;
  get_device_name = λ i. some (b'G' ∷ (b'0' ∷ []));
}

names_plain : All (All (λ c. 0 < c)) (device_names two_devices 0 2)
unfolding device_names
names_plain = ((omega arith, (omega arith, tt)), ((omega arith, (omega arith, tt)), tt))

read_names-c_probe_capabilities_example :
    let caps = c_probe_capabilities (λ n. true) two_devices in
    (caps.has_cuda ≡ 1)
    × ((buffer : Bytes) × (caps.cuda_device_names ≡ some buffer)
        × (length buffer ≡ caps.cuda_device_names_size)
        × (read_names caps.cuda_device_count buffer ≡ some (device_names two_devices 0 2, [])))
read_names-c_probe_capabilities_example =
    read_names-c_probe_capabilities (λ n. true) two_devices 1 refl refl refl names_plain

abbrev handle : EngineHandle
handle = record { engine = default_engine_options 8; job = none }

abbrev some_inputs : Option (List (Option Bytes))
some_inputs = some (none ∷ some (b'a' ∷ []) ∷ [])

engine_pack-engine_run_example :
    (result : CJobResult) × (engine_pack
        (λ n. true)
        env
        (some handle)
        some_inputs
        (some (b'o' ∷ []))
        none
        empty_world
      ≡ some (
        result,
        (engine_run env handle.engine
            (request_of some_inputs (b'o' ∷ []) default_job_options)
            empty_world).1,
      ))
    × Says result
        (engine_run env handle.engine
          (request_of some_inputs (b'o' ∷ []) default_job_options)
          empty_world).0
engine_pack-engine_run_example =
    engine_pack-engine_run (λ n. true) env handle some_inputs (b'o' ∷ []) none default_job_options
      empty_world refl
