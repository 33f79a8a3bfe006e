-- ===== src/Gpu/Sharing/Tests.antt =====
-- Runs of the two validators of shared GPUs.
use ai_hyperscaler_on_workst.Common.{
  ◌≡◌, ◌≢◌, refl, Option, none, some, List, [], ◌∷◌, true, Text, codes,
}
use ai_hyperscaler_on_workst.Common.Dict
use ai_hyperscaler_on_workst.Common.Dict.{Dict}
use ai_hyperscaler_on_workst.Common.Exec.{ok}
use ai_hyperscaler_on_workst.Config.{NodeConfig, ClusterConfig, Workers, listed, keyed}
use ai_hyperscaler_on_workst.Config.Nodes.{is_gpu_device}
use ai_hyperscaler_on_workst.Gpu.Sharing.{Usage, running_validators}
use ai_hyperscaler_on_workst.Gpu.Sharing.Scan
use ai_hyperscaler_on_workst.Gpu.Sharing.Typed
use ai_hyperscaler_on_workst.Gpu.Sharing.Exact.{detect_shared_gpus-listed}

abbrev gpu : Text
gpu = codes "0000:01:00.0"

abbrev with_gpu : NodeConfig
with_gpu = record {
  cpu_cores = none;
  memory_gb = none;
  disk_gb = none;
  ip_address = none;
  ip = none;
  auto_start = none;
  pcie_passthrough = some (record {
    enabled = some true;
    devices = some (record { pci_address = some gpu; device_type = some (codes "gpu") } ∷ []);
  });
}

abbrev cluster : Option (List NodeConfig) → Option Workers → ClusterConfig
cluster compute workers = record {
  name = none;
  base_image_path = none;
  network = none;
  controller = none;
  control_plane = none;
  compute_nodes = compute;
  worker_nodes = workers;
}

-- The same GPU in both clusters.
abbrev both : Dict ClusterConfig
both =
    (codes "hpc", cluster (some (with_gpu ∷ [])) none)
    ∷ (codes "cloud", cluster none (some (keyed ((codes "gpu", with_gpu ∷ []) ∷ []))))
    ∷ []

abbrev report : Usage
report = (gpu, codes "hpc" ∷ codes "cloud" ∷ []) ∷ []

program : Unit {0}
unfolding running_validators Scan.detect_shared_gpus Typed.detect_shared_gpus is_gpu_device Dict.get
    Dict.put
program = tt

abbrev in_list : ClusterConfig
in_list = cluster none (some (listed (with_gpu ∷ [])))

finds_cloud : Dict.get ((codes "cloud", in_list) ∷ []) (codes "cloud") ≡ some in_list
unfolding program
finds_cloud = refl

detect_shared_gpus-listed_example :
    (Scan.detect_shared_gpus ((codes "cloud", in_list) ∷ []) ≢ ok report)
    × (Typed.detect_shared_gpus ((codes "cloud", in_list) ∷ []) ≢ ok report)
detect_shared_gpus-listed_example =
    detect_shared_gpus-listed ((codes "cloud", in_list) ∷ []) in_list (with_gpu ∷ []) report
      finds_cloud refl
