-- ===== src/Gpu/Sharing/Typed.antt =====
-- `SharedGPUValidator` of python/ai_how/src/ai_how/validators/shared_gpu_validator.py.
use ai_hyperscaler_on_workst.Common.{ℕ, [], ◌∷◌, codes, length, ◌==◌}
use ai_hyperscaler_on_workst.Common.Dict.{Dict}
use ai_hyperscaler_on_workst.Common.Exec.{Result, ok}
use ai_hyperscaler_on_workst.Common.Fallible.{◌>>=◌}
use ai_hyperscaler_on_workst.Config.{ClusterConfig, ConfigError}
use ai_hyperscaler_on_workst.Gpu.Sharing.{
  Usage, extract_typed, record_uses, select, addresses_of, shared_of,
}

-- `detect_shared_gpus` of validators/shared_gpu_validator.py.
unfoldable pub detect_shared_gpus : Dict ClusterConfig → Result ConfigError Usage
detect_shared_gpus clusters = do
  hpc_gpus ← addresses_of (λ c. extract_typed c (codes "hpc")) clusters (codes "hpc")
  cloud_gpus ← addresses_of (λ c. extract_typed c (codes "cloud")) clusters (codes "cloud")
  ok (shared_of hpc_gpus cloud_gpus)

-- The loop of `get_gpu_summary` over all clusters.
pub all_gpus_from : Usage → Dict ClusterConfig → Result ConfigError Usage
all_gpus_from usage [] = ok usage
all_gpus_from usage ((cluster_name, cluster_config) ∷ clusters) = do
  gpus ← extract_typed cluster_config cluster_name
  all_gpus_from (record_uses cluster_name usage gpus) clusters

pub record GpuSummary : Type 0 where
  pub total_gpus : ℕ
  pub shared_gpus : Usage
  pub shared_gpu_count : ℕ
  pub exclusive_gpus : Usage
  pub exclusive_gpu_count : ℕ
  pub all_gpus : Usage

unfoldable pub get_gpu_summary : Dict ClusterConfig → Result ConfigError GpuSummary
get_gpu_summary clusters = do
  shared ← detect_shared_gpus clusters
  every ← all_gpus_from [] clusters
  let exclusive = select (λ users. length users == 1) every
  ok (record {
    total_gpus = length every;
    shared_gpus = shared;
    shared_gpu_count = length shared;
    exclusive_gpus = exclusive;
    exclusive_gpu_count = length exclusive;
    all_gpus = every;
  })
