-- ===== src/Models/Vms/Remove.antt =====
-- What `ClusterState.remove_vm` does to the VMs that can be looked up.
use ai_hyperscaler_on_workst.Common.{
  ℕ, ◌+◌, ◌≡◌, inl, inr, none, some, false, Text, text_eq, text_eq_iff, find, arith, if◌then◌else◌,
  Option-cases, ◌↔◌, Bool-cases, List, text_eq_refl, ◌<◌,
}
use ai_hyperscaler_on_workst.Models.{VmInfo, ClusterState}
use ai_hyperscaler_on_workst.Models.Vms.{
  named, to_list, get_all_vms, get_vm_by_name, delete_named, removed, remove_vm,
}
use ai_hyperscaler_on_workst.Models.Vms.Count.{
  count, count-find, delete_named-none, find-delete_named, count-delete_named, IsUnique,
}
use ai_hyperscaler_on_workst.Models.Vms.Add.{
  get_vm_by_name-parts, count-parts, get_vm_by_name-touch, get_all_vms-touch, get_vm_by_name-count,
}

-- `removed` fails exactly where the name is not found.
removed-none :
    (s : ClusterState) (name : Text) → removed s name ≡ none → get_vm_by_name s name ≡ none
unfolding removed
removed-none s name h = ground (
  arith,
  get_vm_by_name-parts s name,
  delete_named-none name s.compute_nodes,
  delete_named-none name s.worker_nodes,
)

-- Where the removed VM stood: in the controller's place, or in one of the two lists.
data Removed (s : ClusterState) (name : Text) (left : ClusterState) : Type 0 where
  from_controller :
      (vm : VmInfo)
      → s.controller ≡ some vm
      → vm.name ≡ name
      → left ≡ record s { controller = none }
      → Removed s name left
  from_compute :
      (nodes : List VmInfo)
      → find (named name) (to_list s.controller) ≡ none
      → delete_named name s.compute_nodes ≡ some nodes
      → left ≡ record s { compute_nodes = nodes }
      → Removed s name left
  from_worker :
      (nodes : List VmInfo)
      → find (named name) (to_list s.controller) ≡ none
      → find (named name) s.compute_nodes ≡ none
      → delete_named name s.worker_nodes ≡ some nodes
      → left ≡ record s { worker_nodes = nodes }
      → Removed s name left

removed-worker :
    (s left : ClusterState) (name : Text)
    → find (named name) (to_list s.controller) ≡ none
    → delete_named name s.compute_nodes ≡ none
    → removed s name ≡ some left
    → Removed s name left
unfolding removed
removed-worker s left name hc hn h = elim (Option-cases (delete_named name s.worker_nodes)) [
  | inl e ↦ absurd (ground arith)
  | inr (nodes, e) ↦
      from_worker nodes hc (delete_named-none name s.compute_nodes hn) e (ground arith)
]

removed-nodes :
    (s left : ClusterState) (name : Text)
    → find (named name) (to_list s.controller) ≡ none
    → removed s name ≡ some left
    → Removed s name left
unfolding removed
removed-nodes s left name hc h = elim (Option-cases (delete_named name s.compute_nodes)) [
  | inl e ↦ removed-worker s left name hc e h
  | inr (nodes, e) ↦ from_compute nodes hc e (ground arith)
]

removed-Removed :
    (s left : ClusterState) (name : Text) → removed s name ≡ some left → Removed s name left
unfolding removed
removed-Removed s left name h = elim (Option-cases s.controller) [
  | inl e ↦ removed-nodes s left name (ground arith) h
  | inr (vm, e) ↦ elim (Bool-cases (text_eq vm.name name)) [
    | inl same ↦ from_controller vm e ((text_eq_iff vm.name name).0 same) (ground arith)
    | inr other ↦ removed-nodes s left name (ground arith) h
  ]
]

Removed-count :
    (s left : ClusterState) (name j : Text)
    → Removed s name left
    → count j (get_all_vms left) + (if text_eq name j then 1 else 0) ≡ count j (get_all_vms s)
Removed-count s left name j (from_controller vm e same shape) =
    ground (arith, count-parts s j, count-parts left j)
Removed-count s left name j (from_compute nodes hc e shape) =
    ground (
      arith,
      count-parts s j,
      count-parts left j,
      count-delete_named name s.compute_nodes nodes j e,
    )
Removed-count s left name j (from_worker nodes hc hn e shape) =
    ground
      (arith, count-parts s j, count-parts left j, count-delete_named name s.worker_nodes nodes j e)

Removed-get :
    (s left : ClusterState) (name j : Text)
    → Removed s name left
    → text_eq name j ≡ false
    → get_vm_by_name left j ≡ get_vm_by_name s j
Removed-get s left name j (from_controller vm e same shape) ne =
    ground (arith, get_vm_by_name-parts s j, get_vm_by_name-parts left j, text_eq_iff name j)
Removed-get s left name j (from_compute nodes hc e shape) ne = ground (
  arith,
  get_vm_by_name-parts s j,
  get_vm_by_name-parts left j,
  find-delete_named name s.compute_nodes nodes j e ne,
)
Removed-get s left name j (from_worker nodes hc hn e shape) ne = ground (
  arith,
  get_vm_by_name-parts s j,
  get_vm_by_name-parts left j,
  find-delete_named name s.worker_nodes nodes j e ne,
)

get_vm_by_name-absent :
    (s : ClusterState) (name : Text) → count name (get_all_vms s) ≡ 0 → get_vm_by_name s name ≡ none
unfolding get_vm_by_name
get_vm_by_name-absent s name h = count-find name (get_all_vms s) h

get_vm_by_name-some :
    (s : ClusterState) (name : Text) (vm : VmInfo)
    → get_vm_by_name s name ≡ some vm
    → 0 < count name (get_all_vms s)
get_vm_by_name-some s name vm h = ground (arith, get_vm_by_name-absent s name)

-- In a cluster with unique names: `remove_vm` succeeds exactly where the name is found, and then the
-- name is not found any more, and every other name is found as before.
pub remove_vm-get :
    (now : ℕ) (s : ClusterState) (name j : Text)
    → IsUnique s
    → get_vm_by_name (remove_vm now s name).0 j
      ≡ (if text_eq name j then none else get_vm_by_name s j)
unfolding remove_vm
remove_vm-get now s name j unique = elim (Option-cases (removed s name)) [
  | inl e ↦ ground (arith, removed-none s name e, text_eq_iff name j)
  | inr (left, e) ↦
      let r = removed-Removed s left name e in
      ground (
        arith,
        Removed-count s left name j r,
        Removed-get s left name j r,
        get_vm_by_name-absent left j,
        get_vm_by_name-touch left (some now) j,
        unique j,
      )
]

-- `remove_vm` reports success exactly where the name is found.
pub remove_vm-found :
    (now : ℕ) (s : ClusterState) (name : Text)
    → ((remove_vm now s name).1 ≡ false) ↔ (get_vm_by_name s name ≡ none)
unfolding remove_vm
remove_vm-found now s name = elim (Option-cases (removed s name)) [
  | inl e ↦ (λ _. removed-none s name e, λ _. ground arith)
  | inr (left, e) ↦ (
    λ h. ground arith,
    λ h. ground (
      arith,
      Removed-count s left name name (removed-Removed s left name e),
      text_eq_refl name,
      get_vm_by_name-count s name h,
    ),
  )
]

-- Names stay unique under `remove_vm`.
pub remove_vm-IsUnique :
    (now : ℕ) (s : ClusterState) (name : Text) → IsUnique s → IsUnique (remove_vm now s name).0
unfolding remove_vm
remove_vm-IsUnique now s name unique j = elim (Option-cases (removed s name)) [
  | inl e ↦ ground (arith, unique j)
  | inr (left, e) ↦ ground (
    arith,
    Removed-count s left name j (removed-Removed s left name e),
    get_all_vms-touch left (some now),
    unique j,
  )
]
