-- ===== src/State/Manager/Placing.antt =====
-- What `add_vm` of the manager does to the VMs that can be looked up.
use ai_hyperscaler_on_workst.Common.{
  ℕ, ◌≡◌, refl, none, some, [], ◌∷◌, false, Text, codes, text_eq, text_eq_iff, find, find-append,
  arith, if◌then◌else◌,
}
use ai_hyperscaler_on_workst.Common.Exec.{ok}
use ai_hyperscaler_on_workst.Models.{VmInfo, ClusterState}
use ai_hyperscaler_on_workst.Models.Vms.{named, to_list, get_vm_by_name}
use ai_hyperscaler_on_workst.Models.Vms.Count.{find-replaced}
use ai_hyperscaler_on_workst.Models.Vms.Add.{get_vm_by_name-parts}
use ai_hyperscaler_on_workst.State.Codec.{Formats}
use ai_hyperscaler_on_workst.State.Persistence.{all_work}
use ai_hyperscaler_on_workst.State.Manager.{Manager, placed_vm, add_vm, get_vm, change}
use ai_hyperscaler_on_workst.State.Manager.Calls.{get_state-cached}

placed_vm-get :
    (s : ClusterState) (vm : VmInfo) (j : Text)
    → text_eq vm.vm_type (codes "controller") ≡ false
    → find (named vm.name) (to_list s.controller) ≡ none
    → get_vm_by_name (placed_vm s vm) j
      ≡ (if text_eq vm.name j then some vm else get_vm_by_name s j)
unfolding placed_vm
placed_vm-get s vm j not_controller other = ground (
  arith,
  get_vm_by_name-parts s j,
  get_vm_by_name-parts s vm.name,
  get_vm_by_name-parts (placed_vm s vm) j,
  find-replaced vm j s.compute_nodes,
  find-replaced vm j s.worker_nodes,
  find-append (named j) s.compute_nodes (vm ∷ []),
  find-append (named j) s.worker_nodes (vm ∷ []),
  text_eq_iff vm.name j,
)

get_vm-cached :
    (f : Formats) (now : ℕ) (j : Text) (s : ClusterState) (m : Manager)
    → m.cached ≡ some s
    → (get_vm f all_work now j m).0 ≡ ok (get_vm_by_name s j)
unfolding get_vm
get_vm-cached f now j s m e = ground (arith, get_state-cached f now m s e)

add_vm-cached :
    (f : Formats) (now : ℕ) (vm : VmInfo) (s : ClusterState) (m : Manager)
    → m.cached ≡ some s
    → add_vm f all_work now vm m ≡ change (placed_vm s vm) m
unfolding add_vm
add_vm-cached f now vm s m e = ground (arith, get_state-cached f now m s e)

-- A VM that is no controller, under a name that is not the controller's: after `add_vm` the manager
-- finds it under its name, whether the name was known or not, and every other name as before.
pub add_vm-get_vm :
    (f : Formats) (now later : ℕ) (vm : VmInfo) (j : Text) (s : ClusterState) (m : Manager)
    → m.cached ≡ some s
    → text_eq vm.vm_type (codes "controller") ≡ false
    → find (named vm.name) (to_list s.controller) ≡ none
    → ((add_vm f all_work now vm m).0 ≡ ok tt)
      × ((get_vm f all_work later j (add_vm f all_work now vm m).1).0
          ≡ ok (if text_eq vm.name j then some vm else get_vm_by_name s j))
add_vm-get_vm f now later vm j s m e not_controller other = rw (add_vm-cached f now vm s m e) (
  refl,
  rw⁻¹ (placed_vm-get s vm j not_controller other)
      (get_vm-cached f later j (placed_vm s vm) (change (placed_vm s vm) m).1 refl),
)
