-- ===== src/Gpu/Sharing/Scan.antt =====
-- `SharedGPUValidator` of python/ai_how/src/ai_how/resource_management/shared_gpu_validator.py.
use ai_hyperscaler_on_workst.Common.{codes}
use ai_hyperscaler_on_workst.Common.Dict.{Dict}
use ai_hyperscaler_on_workst.Common.Exec.{Result, ok}
use ai_hyperscaler_on_workst.Common.Fallible.{◌>>=◌}
use ai_hyperscaler_on_workst.Config.{ClusterConfig, ConfigError}
use ai_hyperscaler_on_workst.Gpu.Sharing.{Usage, extract_any, addresses_of, shared_of}

-- `detect_shared_gpus` of resource_management/shared_gpu_validator.py.
unfoldable pub detect_shared_gpus : Dict ClusterConfig → Result ConfigError Usage
detect_shared_gpus clusters = do
  hpc_gpus ← addresses_of extract_any clusters (codes "hpc")
  cloud_gpus ← addresses_of extract_any clusters (codes "cloud")
  ok (shared_of hpc_gpus cloud_gpus)
