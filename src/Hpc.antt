-- ===== src/Hpc.antt =====
-- python/ai_how/src/ai_how/vm_management/hpc_manager.py: `HPCClusterManager`, over the methods of the managers
-- that it calls.
pub mod Leases
pub mod Stop
pub mod Destroy
pub mod Check
pub mod Start
mod Tests
use ai_hyperscaler_on_workst.Common.{ℕ, Option, List, Bool, Text}
use ai_hyperscaler_on_workst.Problem.{Problem, Act}
use ai_hyperscaler_on_workst.Models.{VmState, ClusterState}

-- A method that raises leaves the state that it made. The lifecycle manager destroys VMs without their
-- storage and stops them without force; the pool is destroyed by force.
pub record Managers (Host : Type 0) : Type 0 where
  -- `vm_lifecycle`
  pub vm_exists : Text → Act Host Bool
  pub get_vm_state : Text → Act Host VmState
  pub stop_vm : Text → Act Host Bool
  pub destroy_vm : Text → Act Host Bool
  pub list_vms : Act Host (List Text)
  -- `volume_manager` and `network_manager`
  pub destroy_vm_volume : (cluster_name vm_name : Text) → Act Host Bool
  pub destroy_cluster_pool : Text → Act Host Bool
  pub destroy_cluster_network : Text → Act Host Bool
  -- `state_manager`
  pub get_state : Act Host (Option ClusterState)
  pub save_state : ClusterState → Act Host Unit
  pub clear_state : Act Host Unit
  -- `datetime.now()`
  pub now : Act Host ℕ
