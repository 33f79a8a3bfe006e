-- ===== src/Models/Vms/Add.antt =====
-- What `ClusterState.add_vm` does to the VMs that can be looked up.
use ai_hyperscaler_on_workst.Common.{
  ℕ, ◌+◌, ◌≤◌, ◌≡◌, refl, inl, inr, Option, none, some, [], ◌∷◌, ◌++◌, true, false, Text, codes,
  text_eq, text_eq_iff, text_eq_refl, contains, lower, find, find-append, or_else, arith,
  if◌then◌else◌, Bool, Bool-cases,
}
use ai_hyperscaler_on_workst.Models.{VmInfo, ClusterState}
use ai_hyperscaler_on_workst.Models.Vms.{
  named, to_list, get_all_vms, get_vm_by_name, place_vm, add_vm,
}
use ai_hyperscaler_on_workst.Models.Vms.Count.{
  count, count-append, find-count, count-find, IsUnique,
}

abbrev pub is_controller_name : Text → Bool
is_controller_name name = contains (lower name) (codes "controller")

pub get_vm_by_name-parts :
    (s : ClusterState) (name : Text)
    → get_vm_by_name s name
      ≡ or_else
          (find (named name) (to_list s.controller))
          (or_else (find (named name) s.compute_nodes) (find (named name) s.worker_nodes))
unfolding get_vm_by_name get_all_vms
get_vm_by_name-parts s name = ground (
  arith,
  find-append (named name) (to_list s.controller) (s.compute_nodes ++ s.worker_nodes),
  find-append (named name) s.compute_nodes s.worker_nodes,
)

pub count-parts :
    (s : ClusterState) (name : Text)
    → count name (get_all_vms s)
      ≡ count name (to_list s.controller) + (count name s.compute_nodes + count name s.worker_nodes)
unfolding get_all_vms
count-parts s name = omega (
  arith,
  count-append name (to_list s.controller) (s.compute_nodes ++ s.worker_nodes),
  count-append name s.compute_nodes s.worker_nodes,
)

place_vm-get :
    (s : ClusterState) (vm : VmInfo) (j : Text)
    → is_controller_name vm.name ≡ false
    → get_vm_by_name s vm.name ≡ none
    → get_vm_by_name (place_vm s vm) j ≡ (if text_eq vm.name j then some vm else get_vm_by_name s j)
unfolding place_vm
place_vm-get s vm j no_controller absent = ground (
  arith,
  get_vm_by_name-parts s j,
  get_vm_by_name-parts s vm.name,
  get_vm_by_name-parts (place_vm s vm) j,
  find-append (named j) s.compute_nodes (vm ∷ []),
  find-append (named j) s.worker_nodes (vm ∷ []),
  text_eq_iff vm.name j,
)

pub get_vm_by_name-touch :
    (s : ClusterState) (t : Option ℕ) (j : Text)
    → get_vm_by_name (record s { last_modified = t }) j ≡ get_vm_by_name s j
unfolding get_vm_by_name get_all_vms
get_vm_by_name-touch s t j = ground arith

-- Adding a VM whose name does not make it the controller: it is found under its name afterwards,
-- and every other name is found as before.
pub add_vm-get :
    (now : ℕ) (s : ClusterState) (vm : VmInfo) (j : Text)
    → is_controller_name vm.name ≡ false
    → (add_vm now s vm).1 ≡ true
    → get_vm_by_name (add_vm now s vm).0 j
      ≡ (if text_eq vm.name j then some vm else get_vm_by_name s j)
unfolding add_vm
add_vm-get now s vm j h added =
    ground (arith, get_vm_by_name-touch (place_vm s vm) (some now) j, place_vm-get s vm j h)

place_vm-count :
    (s : ClusterState) (vm : VmInfo) (j : Text)
    → is_controller_name vm.name ≡ false
    → count j (get_all_vms (place_vm s vm))
      ≡ count j (get_all_vms s) + (if text_eq vm.name j then 1 else 0)
unfolding place_vm
place_vm-count s vm j h = ground (
  arith,
  count-parts s j,
  count-parts (place_vm s vm) j,
  count-append j s.compute_nodes (vm ∷ []),
  count-append j s.worker_nodes (vm ∷ []),
)

pub get_vm_by_name-count :
    (s : ClusterState) (name : Text) → get_vm_by_name s name ≡ none → count name (get_all_vms s) ≡ 0
unfolding get_vm_by_name
get_vm_by_name-count s name h = find-count name (get_all_vms s) h

place_controller-count :
    (s : ClusterState) (vm : VmInfo) (j : Text)
    → is_controller_name vm.name ≡ true
    → count j (get_all_vms (place_vm s vm))
      ≤ count j (get_all_vms s) + (if text_eq vm.name j then 1 else 0)
unfolding place_vm
place_controller-count s vm j h = ground (arith, count-parts s j, count-parts (place_vm s vm) j)

place_vm-le :
    (s : ClusterState) (vm : VmInfo) (j : Text)
    → count j (get_all_vms (place_vm s vm))
      ≤ count j (get_all_vms s) + (if text_eq vm.name j then 1 else 0)
place_vm-le s vm j = elim (Bool-cases (is_controller_name vm.name)) [
  | inl h ↦ place_controller-count s vm j h
  | inr h ↦ omega (arith, place_vm-count s vm j h)
]

pub get_all_vms-touch :
    (s : ClusterState) (t : Option ℕ) → get_all_vms (record s { last_modified = t }) ≡ get_all_vms s
unfolding get_all_vms
get_all_vms-touch s t = refl

-- Names stay unique under `add_vm`, whether it adds the VM or not.
pub add_vm-IsUnique :
    (now : ℕ) (s : ClusterState) (vm : VmInfo) → IsUnique s → IsUnique (add_vm now s vm).0
unfolding add_vm
add_vm-IsUnique now s vm unique j = ground (
  arith,
  get_all_vms-touch (place_vm s vm) (some now),
  place_vm-le s vm j,
  unique j,
  get_vm_by_name-count s vm.name,
  text_eq_iff vm.name j,
)

place_controller-get :
    (s : ClusterState) (vm old : VmInfo)
    → IsUnique s
    → s.controller ≡ some old
    → is_controller_name vm.name ≡ true
    → get_vm_by_name s vm.name ≡ none
    → get_vm_by_name (place_vm s vm) old.name ≡ none
unfolding place_vm
place_controller-get s vm old unique h is_controller absent = ground (
  arith,
  unique old.name,
  count-parts s old.name,
  count-find old.name s.compute_nodes,
  count-find old.name s.worker_nodes,
  get_vm_by_name-parts s vm.name,
  get_vm_by_name-parts (place_vm s vm) old.name,
  text_eq_iff vm.name old.name,
  text_eq_iff old.name vm.name,
  text_eq_refl old.name,
)

-- A VM whose name holds "controller" takes the controller's place: where the old controller has
-- another name, no lookup finds it any more, although `add_vm` reports success.
pub add_vm_drops_controller :
    (now : ℕ) (s : ClusterState) (vm old : VmInfo)
    → IsUnique s
    → s.controller ≡ some old
    → is_controller_name vm.name ≡ true
    → get_vm_by_name s vm.name ≡ none
    → ((add_vm now s vm).1 ≡ true) × (get_vm_by_name (add_vm now s vm).0 old.name ≡ none)
unfolding add_vm
add_vm_drops_controller now s vm old unique h is_controller absent = (
  ground arith,
  ground (
    arith,
    get_vm_by_name-touch (place_vm s vm) (some now) old.name,
    place_controller-get s vm old unique h is_controller absent,
  ),
)
