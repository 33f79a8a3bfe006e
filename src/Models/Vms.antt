-- ===== src/Models/Vms.antt =====
-- python/ai_how/src/ai_how/state/models.py: the methods of `ClusterState`.
pub mod Count
mod Tests
pub mod Add
pub mod Remove
pub mod Update
pub mod Summary
use ai_hyperscaler_on_workst.Common.{
  ℕ, ◌≡◌, ◌++◌, Option, none, some, List, [], ◌∷◌, Bool, true, false, Text, codes, text_eq,
  contains, lower, find, keep, length, ◌==◌, ltb, ◌&&◌, if◌then◌else◌,
}
use ai_hyperscaler_on_workst.Models.{VmState, running, VmInfo, ClusterState, update_state}

abbrev pub named : Text → VmInfo → Bool
named name vm = text_eq vm.name name

abbrev pub to_list {ℓ} : {A : Type ℓ} → Option A → List A
to_list none = []
to_list (some a) = a ∷ []

unfoldable pub get_all_vms : ClusterState → List VmInfo
get_all_vms s = to_list s.controller ++ (s.compute_nodes ++ s.worker_nodes)

unfoldable pub get_vm_by_name : ClusterState → Text → Option VmInfo
get_vm_by_name s name = find (named name) (get_all_vms s)

-- The branches of `add_vm` below its guard.
pub place_vm : ClusterState → VmInfo → ClusterState
place_vm s vm =
    if contains (lower vm.name) (codes "controller")
    then record s { controller = some vm }
    else if contains (lower vm.name) (codes "compute")
    then record s { compute_nodes = s.compute_nodes ++ vm ∷ [] }
    else if contains (lower vm.name) (codes "worker")
    then record s { worker_nodes = s.worker_nodes ++ vm ∷ [] }
    else if text_eq s.cluster_type (codes "hpc")
    then record s { compute_nodes = s.compute_nodes ++ vm ∷ [] }
    else record s { worker_nodes = s.worker_nodes ++ vm ∷ [] }

-- The new state, and whether the VM was added.
unfoldable pub add_vm : ℕ → ClusterState → VmInfo → ClusterState × Bool
add_vm now s vm = elim (get_vm_by_name s vm.name) [
  | some old ↦ (s, false)
  | none ↦ let placed = place_vm s vm in (record placed { last_modified = some now }, true)
]

-- `for i, vm in enumerate(nodes): if vm.name == name: del nodes[i]; return`
pub delete_named : Text → List VmInfo → Option (List VmInfo)
delete_named name [] = none
delete_named name (vm ∷ vms) =
    let rest = delete_named name vms in
    if named name vm then some vms else elim rest [ none ↦ none | some vms' ↦ some (vm ∷ vms') ]

-- The new state, or `none` where `remove_vm` returns `False` and changes nothing.
pub removed : ClusterState → Text → Option ClusterState
removed s name = elim (find (named name) (to_list s.controller)) [
  | some vm ↦ some (record s { controller = none })
  | none ↦ elim (delete_named name s.compute_nodes) [
    | some nodes ↦ some (record s { compute_nodes = nodes })
    | none ↦ elim (delete_named name s.worker_nodes) [
      | some nodes ↦ some (record s { worker_nodes = nodes })
      | none ↦ none
    ]
  ]
]

unfoldable pub remove_vm : ℕ → ClusterState → Text → ClusterState × Bool
remove_vm now s name = elim (removed s name) [
  | some s' ↦ (record s' { last_modified = some now }, true)
  | none ↦ (s, false)
]

-- Assignment to fields of the object that `find` returned, in place.
pub update_named : (VmInfo → VmInfo) → Text → List VmInfo → List VmInfo
update_named f name [] = []
update_named f name (vm ∷ vms) = if named name vm then f vm ∷ vms else vm ∷ update_named f name vms

-- Fields of the VM that `get_vm_by_name` finds are assigned: the first in its order.
unfoldable pub modify_vm : (VmInfo → VmInfo) → ClusterState → Text → ClusterState
modify_vm f s name = elim (find (named name) (to_list s.controller)) [
  | some vm ↦ record s { controller = some (f vm) }
  | none ↦ elim (find (named name) s.compute_nodes) [
    | some vm ↦ record s { compute_nodes = update_named f name s.compute_nodes }
    | none ↦ record s { worker_nodes = update_named f name s.worker_nodes }
  ]
]

unfoldable pub update_vm_state : ℕ → ClusterState → Text → VmState → ClusterState × Bool
update_vm_state now s name new_state = elim (get_vm_by_name s name) [
  | none ↦ (s, false)
  | some vm ↦
      let updated = modify_vm (update_state now new_state) s name in
      (record updated { last_modified = some now }, true)
]

pub data Status : Type 0 where
  not_initialized all_running partial stopped : Status

pub record ClusterStatus : Type 0 where
  pub status : Status
  pub cluster_name : Text
  pub cluster_type : Text
  pub total_vms : ℕ
  pub running_vms : ℕ
  -- `none` is "not_created".
  pub controller_status : Option VmState
  pub compute_nodes : ℕ
  pub worker_nodes : ℕ
  pub last_modified : Option ℕ

is_running : VmInfo → Bool
is_running vm = elim vm.state [ running ↦ true | _ ↦ false ]

unfoldable pub running_vms : List VmInfo → List VmInfo
unfolding is_running
running_vms = keep is_running

overall_status : (total running : ℕ) → Status
overall_status total up =
    if total == 0
    then not_initialized
    else if (up == total) && ltb 0 total
    then all_running
    else if ltb 0 up
    then partial
    else stopped

unfoldable pub get_cluster_status : ClusterState → ClusterStatus
unfolding get_all_vms running_vms overall_status
get_cluster_status s = record {
  status = overall_status (length (get_all_vms s)) (length (running_vms (get_all_vms s)));
  cluster_name = s.cluster_name;
  cluster_type = s.cluster_type;
  total_vms = length (get_all_vms s);
  running_vms = length (running_vms (get_all_vms s));
  controller_status = elim s.controller [ none ↦ none | some vm ↦ some vm.state ];
  compute_nodes = length s.compute_nodes;
  worker_nodes = length s.worker_nodes;
  last_modified = s.last_modified;
}

-- Opens the methods, for runs.
unfoldable pub running_state : Unit {0}
unfolding get_all_vms get_vm_by_name place_vm add_vm delete_named removed remove_vm update_named
    modify_vm update_vm_state update_state get_cluster_status text_eq contains lower
running_state = tt
