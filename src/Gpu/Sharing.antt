-- ===== src/Gpu/Sharing.antt =====
-- GPUs that several clusters use: python/ai_how/src/ai_how/resource_management/
-- shared_gpu_validator.py (its class is in `Scan`) and validators/shared_gpu_validator.py (in
-- `Typed`).
pub mod Usage
pub mod Scan
pub mod Typed
pub mod Listed
pub mod Exact
mod Tests
use ai_hyperscaler_on_workst.Common.{
  ℕ, Option, none, some, List, [], ◌∷◌, ◌++◌, Bool, true, false, Text, codes, text_eq, not, length,
  ltb, keep, if◌then◌else◌, ◌==◌,
}
use ai_hyperscaler_on_workst.Common.Dict
use ai_hyperscaler_on_workst.Common.Dict.{Dict}
use ai_hyperscaler_on_workst.Common.Exec.{Result, ok, err}
use ai_hyperscaler_on_workst.Common.Fallible.{◌>>=◌, for_each}
use ai_hyperscaler_on_workst.Config.{
  PcieDevice, PcieConfig, NodeConfig, Workers, listed, keyed, ClusterConfig, ConfigError, key_error,
  attribute_error,
}
use ai_hyperscaler_on_workst.Config.Nodes.{or_default, no_pcie, is_gpu_device}

abbrev pub Addresses : Type 0
Addresses = Result ConfigError (List Text)

-- `device["pci_address"]`
device_address : PcieDevice → Result ConfigError Text
device_address device = elim device.pci_address [ none ↦ err key_error | some a ↦ ok a ]

get_gpu_devices : PcieConfig → Addresses
unfolding device_address
get_gpu_devices pcie_config =
    if not (or_default pcie_config.enabled false)
    then ok []
    else for_each device_address (keep is_gpu_device (or_default pcie_config.devices []))

node_addresses : NodeConfig → Addresses
unfolding get_gpu_devices
node_addresses node = get_gpu_devices (or_default node.pcie_passthrough no_pcie)

nodes_addresses : List NodeConfig → Addresses
nodes_addresses [] = ok []
nodes_addresses (node ∷ nodes) = do
  first ← node_addresses node
  rest ← nodes_addresses nodes
  ok (first ++ rest)

-- The node under a key that may be absent.
optional_node : Option NodeConfig → Addresses
optional_node none = ok []
optional_node (some node) = node_addresses node

-- `for _worker_type, nodes in workers.items(): for node in nodes: ...`
groups_addresses : Dict (List NodeConfig) → Addresses
groups_addresses [] = ok []
groups_addresses ((worker_type, nodes) ∷ groups) = do
  first ← nodes_addresses nodes
  rest ← groups_addresses groups
  ok (first ++ rest)

-- `.items()` on a list raises.
pub all_workers : Option Workers → Addresses
all_workers none = ok []
all_workers (some (listed nodes)) = err attribute_error
all_workers (some (keyed groups)) = groups_addresses groups

-- `.get("cpu", [])` on a list raises.
pub cpu_and_gpu_workers : Option Workers → Addresses
cpu_and_gpu_workers none = ok []
cpu_and_gpu_workers (some (listed nodes)) = err attribute_error
cpu_and_gpu_workers (some (keyed groups)) = do
  cpu ← nodes_addresses (or_default (Dict.get groups (codes "cpu")) [])
  gpu ← nodes_addresses (or_default (Dict.get groups (codes "gpu")) [])
  ok (cpu ++ gpu)

-- `_extract_gpu_addresses` of resource_management/shared_gpu_validator.py.
pub extract_any : ClusterConfig → Addresses
extract_any cluster_config = do
  controller ← optional_node cluster_config.controller
  compute ← nodes_addresses (or_default cluster_config.compute_nodes [])
  workers ← all_workers cluster_config.worker_nodes
  ok (controller ++ (compute ++ workers))

-- `_extract_gpu_addresses` of validators/shared_gpu_validator.py.
pub extract_typed : ClusterConfig → (cluster_type : Text) → Addresses
extract_typed cluster_config cluster_type =
    if text_eq cluster_type (codes "hpc")
    then (do
      controller ← optional_node cluster_config.controller
      compute ← nodes_addresses (or_default cluster_config.compute_nodes [])
      ok (controller ++ compute))
    else if text_eq cluster_type (codes "cloud")
    then (do
      control_plane ← optional_node cluster_config.control_plane
      workers ← cpu_and_gpu_workers cluster_config.worker_nodes
      ok (control_plane ++ workers))
    else ok []

abbrev pub Usage : Type 0
Usage = Dict (List Text)

-- `gpu_usage.setdefault(gpu_addr, []).append(cluster)`
pub record_use : Text → Usage → Text → Usage
record_use cluster usage gpu_addr =
    Dict.put usage gpu_addr (or_default (Dict.get usage gpu_addr) [] ++ cluster ∷ [])

pub record_uses : Text → Usage → List Text → Usage
record_uses cluster usage [] = usage
record_uses cluster usage (a ∷ gpus) = record_uses cluster (record_use cluster usage a) gpus

-- `{addr: clusters for addr, clusters in usage.items() if ...}`
pub select : (List Text → Bool) → Usage → Usage
select p [] = []
select p ((addr, clusters) ∷ usage) =
    let rest = select p usage in if p clusters then (addr, clusters) ∷ rest else rest

-- The addresses under a cluster's name, if the configuration has it.
pub addresses_of : (ClusterConfig → Addresses) → Dict ClusterConfig → Text → Addresses
addresses_of extract clusters cluster = elim (Dict.get clusters cluster) [
  | none ↦ ok []
  | some cluster_config ↦ extract cluster_config
]

pub shared_of : (hpc_gpus cloud_gpus : List Text) → Usage
shared_of hpc_gpus cloud_gpus =
    select (λ clusters. ltb 1 (length clusters))
      (record_uses (codes "cloud") (record_uses (codes "hpc") [] hpc_gpus) cloud_gpus)

-- Opens the extraction of the addresses, for runs.
unfoldable pub running_validators : Unit {0}
unfolding extract_any extract_typed all_workers cpu_and_gpu_workers groups_addresses optional_node
    nodes_addresses node_addresses get_gpu_devices device_address record_use record_uses select
    addresses_of shared_of is_gpu_device Dict.get Dict.put text_eq
running_validators = tt
