-- ===== src/Hpc/Destroy.antt =====
-- `destroy_cluster`.
use ai_hyperscaler_on_workst.Common.{
  ℕ, Option, none, some, List, [], ◌∷◌, ◌++◌, Bool, true, false, Text, codes, starts_with, keep,
  map, if◌then◌else◌,
}
use ai_hyperscaler_on_workst.Common.Exec.{
  Exec, Result, ok, err, pure, raise, try_except, ◌>>=◌, ◌>>◌,
}
use ai_hyperscaler_on_workst.Problem.{
  Problem, lifecycle_error, volume_error, network_error, hpc_error, Act, all_to,
}
use ai_hyperscaler_on_workst.Models.{VmInfo, ClusterState}
use ai_hyperscaler_on_workst.Models.Vms.{get_all_vms}
use ai_hyperscaler_on_workst.Hpc.{Managers}
pub mod Laws
pub mod View

-- Handlers that log an error of a class and go on.
abbrev pub log_volume : {Host : Type 0} → Problem → Act Host Unit
log_volume volume_error h = (ok tt, h)
log_volume e h = (err e, h)

abbrev pub log_network : {Host : Type 0} → Problem → Act Host Unit
log_network network_error h = (ok tt, h)
log_network e h = (err e, h)

abbrev pub log_vm : {Host : Type 0} → Problem → Act Host Unit
log_vm lifecycle_error h = (ok tt, h)
log_vm volume_error h = (ok tt, h)
log_vm e h = (err e, h)

abbrev pub vm_names : List VmInfo → List Text
vm_names = map (λ vm. vm.name)

module _ {Host : Type 0} (m : Managers Host) where
  open m use {
    vm_exists, destroy_vm, list_vms, destroy_vm_volume, destroy_cluster_pool,
    destroy_cluster_network, get_state, clear_state,
  }

  unfoldable pub discover_cluster_vms : Text → Act Host (List Text)
  discover_cluster_vms cluster_name =
      try_except
        (do
          all_vms ← list_vms
          pure (keep (λ vm_name. starts_with vm_name (cluster_name ++ codes "-")) all_vms))
        (λ e. pure [])

  -- One round of the loop over the VMs.
  unfoldable pub destroy_cluster_vm : (cluster_name vm_name : Text) → Act Host Unit
  destroy_cluster_vm cluster_name vm_name =
      try_except
        (do
          present ← vm_exists vm_name
          if present then destroy_vm vm_name >> pure tt else pure tt
          try_except (destroy_vm_volume cluster_name vm_name >> pure tt) log_volume)
        log_vm

  unfoldable pub destroy_cluster_vms : Text → List Text → Act Host Unit
  destroy_cluster_vms cluster_name [] = pure tt
  destroy_cluster_vms cluster_name (vm_name ∷ names) = do
    destroy_cluster_vm cluster_name vm_name
    destroy_cluster_vms cluster_name names

  -- The VMs, the pool and the network.
  unfoldable pub tear_down : Text → List Text → Act Host Unit
  unfolding destroy_cluster_vms
  tear_down cluster_name names = do
    destroy_cluster_vms cluster_name names
    try_except (destroy_cluster_pool cluster_name >> pure tt) log_volume
    try_except (destroy_cluster_network cluster_name >> pure tt) log_network

  -- What follows the discovery where there is no state.
  unfoldable pub destroy_discovered : Text → List Text → Act Host Bool
  unfolding tear_down
  destroy_discovered cluster_name [] = pure true
  destroy_discovered cluster_name (vm_name ∷ names) =
      tear_down cluster_name (vm_name ∷ names) >> pure true

  unfoldable pub destroy_cluster : Text → Act Host Bool
  unfolding tear_down discover_cluster_vms destroy_discovered
  destroy_cluster cluster_name =
      try_except
        (do
          cluster_state ← get_state
          elim cluster_state [
            | none ↦ do
              names ← discover_cluster_vms cluster_name
              destroy_discovered cluster_name names
            | some s ↦ do tear_down cluster_name (vm_names (get_all_vms s)); clear_state; pure true
          ])
        (all_to hpc_error)
