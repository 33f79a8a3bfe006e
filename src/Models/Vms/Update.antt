-- ===== src/Models/Vms/Update.antt =====
-- What assigning to the fields of a VM of the cluster does (`ClusterState.update_vm_state`, and the
-- managers' writes through `get_vm_by_name`).
use mathlib.Core.Option
use ai_hyperscaler_on_workst.Common.{
  ℕ, ◌≡◌, refl, inl, inr, some, false, Text, text_eq, text_eq_iff, arith, if◌then◌else◌,
  Option-cases,
}
use ai_hyperscaler_on_workst.Models.{VmState, VmInfo, ClusterState, update_state}
use ai_hyperscaler_on_workst.Models.Vms.{get_all_vms, get_vm_by_name, modify_vm, update_vm_state}
use ai_hyperscaler_on_workst.Models.Vms.Count.{
  count, count-update_named, find-update_named_self, find-update_named_ne, IsUnique,
}
use ai_hyperscaler_on_workst.Models.Vms.Add.{
  get_vm_by_name-parts, count-parts, get_vm_by_name-touch, get_all_vms-touch,
}

module _ (f : VmInfo → VmInfo) (keeps : (vm : VmInfo) → (f vm).name ≡ vm.name) (s : ClusterState)
    (name : Text) where
  modify_vm-count :
      (j : Text) → count j (get_all_vms (modify_vm f s name)) ≡ count j (get_all_vms s)
  unfolding modify_vm
  modify_vm-count j = elim (Option-cases s.controller) [
    | inl e ↦ ground (
      arith,
      count-parts s j,
      count-parts (modify_vm f s name) j,
      count-update_named f keeps name j s.compute_nodes,
      count-update_named f keeps name j s.worker_nodes,
    )
    | inr (vm, e) ↦ ground (
      arith,
      keeps vm,
      count-parts s j,
      count-parts (modify_vm f s name) j,
      count-update_named f keeps name j s.compute_nodes,
      count-update_named f keeps name j s.worker_nodes,
    )
  ]

  modify_vm-get_ne :
      (j : Text)
      → text_eq name j ≡ false
      → get_vm_by_name (modify_vm f s name) j ≡ get_vm_by_name s j
  unfolding modify_vm
  modify_vm-get_ne j ne = elim (Option-cases s.controller) [
    | inl e ↦ ground (
      arith,
      get_vm_by_name-parts s j,
      get_vm_by_name-parts (modify_vm f s name) j,
      find-update_named_ne f keeps name j s.compute_nodes ne,
      find-update_named_ne f keeps name j s.worker_nodes ne,
    )
    | inr (vm, e) ↦ ground (
      arith,
      keeps vm,
      text_eq_iff vm.name name,
      text_eq_iff vm.name j,
      text_eq_iff name j,
      get_vm_by_name-parts s j,
      get_vm_by_name-parts (modify_vm f s name) j,
      find-update_named_ne f keeps name j s.compute_nodes ne,
      find-update_named_ne f keeps name j s.worker_nodes ne,
    )
  ]

  modify_vm-get_self :
      (vm : VmInfo)
      → get_vm_by_name s name ≡ some vm
      → get_vm_by_name (modify_vm f s name) name ≡ some (f vm)
  unfolding modify_vm
  modify_vm-get_self vm h = elim (Option-cases s.controller) [
    | inl e ↦ ground (
      arith,
      get_vm_by_name-parts s name,
      get_vm_by_name-parts (modify_vm f s name) name,
      find-update_named_self f keeps name s.compute_nodes vm,
      find-update_named_self f keeps name s.worker_nodes vm,
    )
    | inr (v, e) ↦ ground (
      arith,
      keeps v,
      get_vm_by_name-parts s name,
      get_vm_by_name-parts (modify_vm f s name) name,
      find-update_named_self f keeps name s.compute_nodes vm,
      find-update_named_self f keeps name s.worker_nodes vm,
    )
  ]

  -- The VM that the name finds is changed by `f`; every other lookup is as before.
  pub modify_vm-get :
      (j : Text) (vm : VmInfo)
      → get_vm_by_name s name ≡ some vm
      → get_vm_by_name (modify_vm f s name) j
        ≡ (if text_eq name j then some (f vm) else get_vm_by_name s j)
  modify_vm-get j vm h =
      ground (arith, modify_vm-get_self vm h, modify_vm-get_ne j, text_eq_iff name j)

  pub modify_vm-IsUnique : IsUnique s → IsUnique (modify_vm f s name)
  modify_vm-IsUnique unique j = omega (arith, modify_vm-count j, unique j)

keeps_name :
    (now : ℕ) (new_state : VmState) (vm : VmInfo) → (update_state now new_state vm).name ≡ vm.name
unfolding update_state
keeps_name now new_state vm = refl

-- After `update_vm_state` the named VM, if there is one, has the new state and the time of the
-- change; every other VM is found as before, and so is every VM if the name is not found.
pub update_vm_state-get :
    (now : ℕ) (s : ClusterState) (name j : Text) (new_state : VmState)
    → get_vm_by_name (update_vm_state now s name new_state).0 j ≡ (
        if text_eq name j
        then Option.map (update_state now new_state) (get_vm_by_name s j)
        else get_vm_by_name s j)
unfolding update_vm_state
update_vm_state-get now s name j new_state = elim (Option-cases (get_vm_by_name s name)) [
  | inl e ↦ ground (arith, text_eq_iff name j)
  | inr (vm, e) ↦ ground (
    arith,
    text_eq_iff name j,
    get_vm_by_name-touch (modify_vm (update_state now new_state) s name) (some now) j,
    modify_vm-get (update_state now new_state) (keeps_name now new_state) s name j vm e,
  )
]

-- Names stay unique under `update_vm_state`.
pub update_vm_state-IsUnique :
    (now : ℕ) (s : ClusterState) (name : Text) (new_state : VmState)
    → IsUnique s
    → IsUnique (update_vm_state now s name new_state).0
unfolding update_vm_state
update_vm_state-IsUnique now s name new_state unique j = ground (
  arith,
  unique j,
  get_all_vms-touch (modify_vm (update_state now new_state) s name) (some now),
  modify_vm-IsUnique (update_state now new_state) (keeps_name now new_state) s name unique j,
)
