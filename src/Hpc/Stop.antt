-- ===== src/Hpc/Stop.antt =====
-- `stop_cluster` and `status_cluster`.
use ai_hyperscaler_on_workst.Common.{
  Option, none, some, List, [], ◌∷◌, Bool, true, false, Text, if◌then◌else◌,
}
use ai_hyperscaler_on_workst.Common.Exec.{ok, err, pure, try_except, ◌>>=◌, ◌>>◌}
use ai_hyperscaler_on_workst.Problem.{Problem, lifecycle_error, hpc_error, Act, all_to}
use ai_hyperscaler_on_workst.Models.{VmState, running, shutoff, VmInfo, ClusterState, update_state}
use ai_hyperscaler_on_workst.Models.Vms.{get_all_vms, ClusterStatus, get_cluster_status}
use ai_hyperscaler_on_workst.Hpc.{Managers}

abbrev pub is_running : VmState → Bool
is_running running = true
is_running s = false

-- `except VMLifecycleError`, with what the method goes on with.
abbrev pub on_lifecycle_error : {Host A : Type 0} → A → Problem → Act Host A
on_lifecycle_error a lifecycle_error h = (ok a, h)
on_lifecycle_error a e h = (err e, h)

pub data StatusReport : Type 0 where
  not_configured failed : StatusReport
  reported : ClusterStatus → List (Text × Option VmState) → StatusReport

module _ {Host : Type 0} (m : Managers Host) where
  open m use {get_vm_state, stop_vm, get_state, save_state, now}

  -- One round of the loop of `_execute_cluster_stop`: the VM as it is recorded after it.
  unfoldable pub stop_recorded_vm : VmInfo → Act Host VmInfo
  stop_recorded_vm vm =
      try_except
        (do
          current ← get_vm_state vm.name
          if is_running current
              then (do stop_vm vm.name; time ← now; pure (update_state time shutoff vm))
              else pure vm)
        (on_lifecycle_error vm)

  unfoldable pub stop_recorded_vms : List VmInfo → Act Host (List VmInfo)
  stop_recorded_vms [] = pure []
  stop_recorded_vms (vm ∷ vms) = do
    stopped ← stop_recorded_vm vm
    rest ← stop_recorded_vms vms
    pure (stopped ∷ rest)

  unfoldable pub stop_controller : Option VmInfo → Act Host (Option VmInfo)
  stop_controller none = pure none
  stop_controller (some vm) = do stopped ← stop_recorded_vm vm; pure (some stopped)

  -- The VMs of the state are changed in place, in the order of `get_all_vms`.
  unfoldable pub stop_all : ClusterState → Act Host ClusterState
  unfolding stop_controller stop_recorded_vms
  stop_all s = do
    controller ← stop_controller s.controller
    compute_nodes ← stop_recorded_vms s.compute_nodes
    worker_nodes ← stop_recorded_vms s.worker_nodes
    pure (record s {
      controller = controller;
      compute_nodes = compute_nodes;
      worker_nodes = worker_nodes;
    })

  unfoldable pub stop_cluster : Act Host Bool
  unfolding stop_all
  stop_cluster =
      try_except
        (do
          cluster_state ← get_state
          elim cluster_state [
            | none ↦ pure true
            | some s ↦ do stopped ← stop_all s; save_state stopped; pure true
          ])
        (all_to hpc_error)

  -- The state of each VM; `none` is the entry "undefined" after an error.
  unfoldable pub vm_statuses : List VmInfo → Act Host (List (Text × Option VmState))
  vm_statuses [] = pure []
  vm_statuses (vm ∷ vms) = do
    current ←
        try_except (do current ← get_vm_state vm.name; pure (some current))
          (on_lifecycle_error none)
    rest ← vm_statuses vms
    pure ((vm.name, current) ∷ rest)

  unfoldable pub status_cluster : Act Host StatusReport
  unfolding vm_statuses
  status_cluster =
      try_except
        (do
          cluster_state ← get_state
          elim cluster_state [
            | none ↦ pure not_configured
            | some s ↦ do
              statuses ← vm_statuses (get_all_vms s)
              pure (reported (get_cluster_status s) statuses)
          ])
        (λ e. pure failed)
