-- ===== src/Models.antt =====
-- python/ai_how/src/ai_how/state/models.py: the records of the cluster state. A naive `datetime` is
-- the number of microseconds since its epoch, and a `float`, which this code only stores, is its
-- 64-bit pattern. The clock reading of `datetime.now()` is an argument.
pub mod Vms
use ai_hyperscaler_on_workst.Common.{
  ℕ, zero, suc, Option, none, List, [], ◌∷◌, Bool, false, Text, codes,
}
use ai_hyperscaler_on_workst.Common.Dict.{Dict}

pub data VmState : Type 0 where
  undefined running blocked paused shutdown shutoff crashed pmsuspended error : VmState

-- `VMState.from_libvirt_state`, for the codes that libvirt defines and any other number.
unfoldable pub from_libvirt_state : ℕ → VmState
from_libvirt_state zero = undefined
from_libvirt_state (suc zero) = running
from_libvirt_state (suc (suc zero)) = blocked
from_libvirt_state (suc (suc (suc zero))) = paused
from_libvirt_state (suc (suc (suc (suc zero)))) = shutdown
from_libvirt_state (suc (suc (suc (suc (suc zero))))) = shutoff
from_libvirt_state (suc (suc (suc (suc (suc (suc zero)))))) = crashed
from_libvirt_state (suc (suc (suc (suc (suc (suc (suc zero))))))) = pmsuspended
from_libvirt_state (suc (suc (suc (suc (suc (suc (suc (suc n)))))))) = error

pub record VolumeInfo : Type 0 where
  pub name : Text
  pub path : Text
  pub size_gb : ℕ
  pub allocated_gb : ℕ
  pub format : Text
  pub created_at : ℕ
  pub backing_file : Option Text

pub record StoragePoolInfo : Type 0 where
  pub name : Text
  pub path : Text
  pub type : Text
  pub capacity_gb : ℕ
  pub allocation_gb : ℕ
  pub available_gb : ℕ
  pub volumes : List VolumeInfo
  pub created_at : ℕ
  pub uuid : Option Text

pub record NetworkConfig : Type 0 where
  pub subnet : Text
  pub bridge : Text
  pub dns_mode : Text
  pub dns_servers : List Text
  pub static_leases : Dict Text

-- The defaults of the dataclass.
unfoldable pub network_config_of : Text → Text → NetworkConfig
network_config_of subnet bridge = record {
  subnet = subnet;
  bridge = bridge;
  dns_mode = codes "isolated";
  dns_servers = codes "8.8.8.8" ∷ codes "1.1.1.1" ∷ [];
  static_leases = [];
}

pub record VmInfo : Type 0 where
  pub name : Text
  pub domain_uuid : Text
  pub state : VmState
  pub cpu_cores : ℕ
  pub memory_gb : ℕ
  pub volume_path : Text
  pub vm_type : Text
  pub ip_address : Option Text
  pub gpu_assigned : Option Text
  pub created_at : Option ℕ
  pub last_modified : Option ℕ

-- `VMInfo.update_state`
unfoldable pub update_state : ℕ → VmState → VmInfo → VmInfo
update_state now new_state vm = record vm { state = new_state; last_modified = Option.some now }

pub record ClusterState : Type 0 where
  pub cluster_name : Text
  pub cluster_type : Text
  pub controller : Option VmInfo
  pub compute_nodes : List VmInfo
  pub worker_nodes : List VmInfo
  pub network_config : Option NetworkConfig
  pub storage_pool : Option StoragePoolInfo
  pub config_file_path : Option Text
  pub state_file_version : Text
  pub created_at : Option ℕ
  pub last_modified : Option ℕ

-- `ClusterState(cluster_name=..., cluster_type=...)` with the other fields at their defaults.
unfoldable pub new_cluster_state : ℕ → Text → Text → ClusterState
new_cluster_state now cluster_name cluster_type = record {
  cluster_name = cluster_name;
  cluster_type = cluster_type;
  controller = none;
  compute_nodes = [];
  worker_nodes = [];
  network_config = none;
  storage_pool = none;
  config_file_path = none;
  state_file_version = codes "2.0";
  created_at = Option.some now;
  last_modified = Option.some now;
}
