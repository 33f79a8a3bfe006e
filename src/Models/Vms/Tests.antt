-- ===== src/Models/Vms/Tests.antt =====
-- Runs of the methods of `ClusterState`.
use ai_hyperscaler_on_workst.Common.{
  ◌≡◌, ◌≢◌, ◌≤◌, ◌↔◌, refl, none, some, [], ◌∷◌, true, Text, codes, text_eq, text_eq_iff, arith,
  if◌then◌else◌, All,
}
use ai_hyperscaler_on_workst.Models.{VmState, running, shutoff, VmInfo, ClusterState}
use ai_hyperscaler_on_workst.Models.Vms.{
  get_all_vms, get_vm_by_name, add_vm, remove_vm, get_cluster_status, running_state, all_running,
  stopped, not_initialized,
}
use ai_hyperscaler_on_workst.Models.Vms.Count.{IsUnique}
use ai_hyperscaler_on_workst.Models.Vms.Add.{add_vm-get, add_vm-IsUnique, add_vm_drops_controller}
use ai_hyperscaler_on_workst.Models.Vms.Remove.{remove_vm-get}
use ai_hyperscaler_on_workst.Models.Vms.Summary.{get_cluster_status-exact}

abbrev vm_of : (name : Text) → VmState → VmInfo
vm_of name state = record {
  name = name;
  domain_uuid = codes "u";
  state = state;
  cpu_cores = 4;
  memory_gb = 8;
  volume_path = codes "/v";
  vm_type = codes "compute";
  ip_address = none;
  gpu_assigned = none;
  created_at = none;
  last_modified = none;
}

abbrev controller : VmInfo
controller = vm_of (codes "controller") running

abbrev node : VmInfo
node = vm_of (codes "node") shutoff

abbrev cluster : ClusterState
cluster = record {
  cluster_name = codes "c";
  cluster_type = codes "hpc";
  controller = some controller;
  compute_nodes = node ∷ [];
  worker_nodes = [];
  network_config = none;
  storage_pool = none;
  config_file_path = none;
  state_file_version = codes "2.0";
  created_at = none;
  last_modified = none;
}

abbrev third : VmInfo
third = vm_of (codes "third") running

abbrev controller2 : VmInfo
controller2 = vm_of (codes "controller-2") running

program : Unit {0}
unfolding running_state
program = tt

distinct_names : ◌≢◌ {A = Text} (codes "controller") (codes "node")
distinct_names = λ e. ground arith

cluster-IsUnique : IsUnique cluster
unfolding get_all_vms
cluster-IsUnique name =
    ground (
      arith,
      text_eq_iff (codes "controller") name,
      text_eq_iff (codes "node") name,
      distinct_names,
    )

third_added : (add_vm 7 cluster third).1 ≡ true
unfolding program
third_added = refl

add_vm-get_example : get_vm_by_name (add_vm 7 cluster third).0 (codes "third") ≡ (
    if text_eq (codes "third") (codes "third")
    then some third
    else get_vm_by_name cluster (codes "third"))
unfolding program
add_vm-get_example = add_vm-get 7 cluster third (codes "third") refl third_added

add_vm-IsUnique_example : IsUnique (add_vm 7 cluster third).0
add_vm-IsUnique_example = add_vm-IsUnique 7 cluster third cluster-IsUnique

controller2_absent : get_vm_by_name cluster (codes "controller-2") ≡ none
unfolding program
controller2_absent = refl

add_vm_drops_controller_example :
    ((add_vm 7 cluster controller2).1 ≡ true)
    × (get_vm_by_name (add_vm 7 cluster controller2).0 (codes "controller") ≡ none)
unfolding program
add_vm_drops_controller_example =
    add_vm_drops_controller 7 cluster controller2 controller cluster-IsUnique refl refl
      controller2_absent

remove_vm-get_example :
    get_vm_by_name (remove_vm 7 cluster (codes "node")).0 (codes "controller") ≡ (
      if text_eq (codes "node") (codes "controller")
      then none
      else get_vm_by_name cluster (codes "controller"))
remove_vm-get_example = remove_vm-get 7 cluster (codes "node") (codes "controller") cluster-IsUnique

get_cluster_status-exact_example :
    ((get_cluster_status cluster).status ≡ not_initialized ↔ get_all_vms cluster ≡ [])
    × ((get_cluster_status cluster).status ≡ all_running
        ↔ (get_all_vms cluster ≢ []) × All (λ vm. vm.state ≡ running) (get_all_vms cluster))
    × ((get_cluster_status cluster).status ≡ stopped
        ↔ (get_all_vms cluster ≢ []) × All (λ vm. vm.state ≢ running) (get_all_vms cluster))
    × ((get_cluster_status cluster).running_vms ≤ (get_cluster_status cluster).total_vms)
get_cluster_status-exact_example = get_cluster_status-exact cluster
