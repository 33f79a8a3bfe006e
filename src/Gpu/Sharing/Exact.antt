-- ===== src/Gpu/Sharing/Exact.antt =====
-- What the two validators report, and the configurations that they cannot read.
use ai_hyperscaler_on_workst.Common.{
  ◌≡◌, ◌≢◌, refl, none, some, List, Text, codes, text_eq, length, ltb, arith, if◌then◌else◌,
}
use ai_hyperscaler_on_workst.Common.Dict
use ai_hyperscaler_on_workst.Common.Dict.{Dict}
use ai_hyperscaler_on_workst.Common.Exec.{Result, ok, err}
use ai_hyperscaler_on_workst.Common.Fallible.{◌>>=◌}
use ai_hyperscaler_on_workst.Config.{NodeConfig, ClusterConfig, listed, ConfigError}
use ai_hyperscaler_on_workst.Gpu.Sharing.{
  Addresses, Usage, extract_any, extract_typed, addresses_of, shared_of, all_workers,
  cpu_and_gpu_workers,
}
use ai_hyperscaler_on_workst.Gpu.Sharing.Scan
use ai_hyperscaler_on_workst.Gpu.Sharing.Typed
use ai_hyperscaler_on_workst.Gpu.Sharing.Usage.{clusters_of, get-shared_of}

-- The table `usage` has exactly the addresses that the two lists together hold more than once, each
-- with the clusters that list it.
pub record IsReport (hpc_gpus cloud_gpus : List Text) (usage : Usage) : Type 0 where
  pub at :
      (a : Text)
      → Dict.get usage a ≡ (
          let clusters = clusters_of hpc_gpus cloud_gpus a in
          if ltb 1 (length clusters) then some clusters else none)

module _ (hpc cloud : Addresses) where
  -- The addresses of the two clusters, read one after the other, and then compared.
  abbrev compared : Result ConfigError Usage
  compared = do hpc_gpus ← hpc; cloud_gpus ← cloud; ok (shared_of hpc_gpus cloud_gpus)

compared-IsReport :
    (hpc cloud : Addresses) (usage : Usage)
    → compared hpc cloud ≡ ok usage
    → (hpc_gpus : List Text) × (cloud_gpus : List Text) × (hpc ≡ ok hpc_gpus)
      × (cloud ≡ ok cloud_gpus)
      × IsReport hpc_gpus cloud_gpus usage
compared-IsReport (ok hs) (ok cs) usage h =
    (hs, cs, refl, refl, record { at = λ a. ground (arith, get-shared_of hs cs a) })
compared-IsReport (err e) cloud usage h = absurd (ground arith)
compared-IsReport (ok hs) (err e) usage h = absurd (ground arith)

compared-err :
    (hpc cloud : Addresses) (usage : Usage)
    → ((gpus : List Text) → cloud ≢ ok gpus)
    → compared hpc cloud ≢ ok usage
compared-err hpc cloud usage h = λ e. let r = compared-IsReport hpc cloud usage e in h r.1 r.3

cloud-listed :
    (extract : ClusterConfig → Addresses) (clusters : Dict ClusterConfig) (c : ClusterConfig)
    → Dict.get clusters (codes "cloud") ≡ some c
    → ((gpus : List Text) → extract c ≢ ok gpus)
    → (gpus : List Text) → addresses_of extract clusters (codes "cloud") ≢ ok gpus
unfolding addresses_of
cloud-listed extract clusters c h fails gpus = λ e. fails gpus (ground arith)

extract_any-listed :
    (c : ClusterConfig) (nodes : List NodeConfig)
    → c.worker_nodes ≡ some (listed nodes)
    → (gpus : List Text) → extract_any c ≢ ok gpus
unfolding extract_any all_workers
extract_any-listed c nodes h gpus = λ e. ground arith

extract_typed-listed :
    (c : ClusterConfig) (nodes : List NodeConfig)
    → c.worker_nodes ≡ some (listed nodes)
    → (gpus : List Text) → extract_typed c (codes "cloud") ≢ ok gpus
unfolding extract_typed cpu_and_gpu_workers text_eq
extract_typed-listed c nodes h gpus = λ e. ground arith

-- A configuration whose cloud cluster has its workers in a list, the shape that the cloud manager
-- reads, is read by neither validator: neither of them returns a table.
pub detect_shared_gpus-listed :
    (clusters : Dict ClusterConfig) (c : ClusterConfig) (nodes : List NodeConfig) (usage : Usage)
    → Dict.get clusters (codes "cloud") ≡ some c
    → c.worker_nodes ≡ some (listed nodes)
    → (Scan.detect_shared_gpus clusters ≢ ok usage) × (Typed.detect_shared_gpus clusters ≢ ok usage)
unfolding Scan.detect_shared_gpus Typed.detect_shared_gpus
detect_shared_gpus-listed clusters c nodes usage h listed_workers = (
  compared-err (addresses_of extract_any clusters (codes "hpc"))
      (addresses_of extract_any clusters (codes "cloud")) usage
      (cloud-listed extract_any clusters c h (extract_any-listed c nodes listed_workers)),
  compared-err (addresses_of (λ c. extract_typed c (codes "hpc")) clusters (codes "hpc"))
      (addresses_of (λ c. extract_typed c (codes "cloud")) clusters (codes "cloud")) usage
      (cloud-listed (λ c. extract_typed c (codes "cloud")) clusters c h
        (extract_typed-listed c nodes listed_workers)),
)
