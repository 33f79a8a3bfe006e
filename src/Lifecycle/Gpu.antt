-- ===== src/Lifecycle/Gpu.antt =====
-- python/ai_how/src/ai_how/vm_management/vm_lifecycle.py: starting, stopping and restarting a VM
-- together with the allocation of its GPU.
pub mod Laws
mod Tests
use ai_hyperscaler_on_workst.Common.{
  ℕ, Option, none, some, Bool, true, false, not, Text, if◌then◌else◌,
}
use ai_hyperscaler_on_workst.Common.Exec.{
  Exec, Result, ok, err, pure, raise, gets, modify, try_except, ◌>>=◌, ◌>>◌,
}
use ai_hyperscaler_on_workst.Libvirt.{
  Libvirt, Failure, connection_error, libvirt_error, lifecycle_error, other_error, Client, pause,
}
use ai_hyperscaler_on_workst.Models.{VmInfo, ClusterState}
use ai_hyperscaler_on_workst.Models.Vms.{get_vm_by_name}
use ai_hyperscaler_on_workst.Gpu.Address.{extract_pci_address}
use ai_hyperscaler_on_workst.Gpu.Allocator.{
  StateFile, Write, allocate_gpu, release_gpu, is_gpu_available,
}
use ai_hyperscaler_on_workst.Gpu.Allocator as Allocator
use ai_hyperscaler_on_workst.Lifecycle.{start_vm, stop_vm}

-- What the manager was constructed with: the outcome of `state_manager.get_state()`, which is
-- `ok none` where there is no state manager, and whether there is a GPU allocator. `now` is the time
-- that the allocator writes, and `allocating`, `releasing` and `cleaning` say how its writes end: that of
-- the allocation, of the release after a stop, and of the release in the clean-up.
pub record Manager : Type 0 where
  pub cluster : Result Failure (Option ClusterState)
  pub has_allocator : Bool
  pub now : Text
  pub allocating : Write
  pub releasing : Write
  pub cleaning : Write

module _ (lv : Libvirt) where
  -- The client and the file of the GPU allocator.
  pub record World : Type 0 where
    pub client : Client lv
    pub gpus : StateFile

  abbrev pub Operation : Type 0 → Type 0
  Operation A = Exec Failure World A

  abbrev pub on_client : {A : Type 0} → Exec Failure (Client lv) A → Operation A
  on_client m w = let (r, c) = m w.client in (r, record w { client = c })

  -- Whatever the allocator raises is no `VMLifecycleError`.
  abbrev pub on_gpus : {A : Type 0} → Allocator.Action A → Operation A
  on_gpus m w =
      let (r, f) = m w.gpus in
      elim r [
        | ok a ↦ (ok a, record w { gpus = f })
        | err e ↦ (err other_error, record w { gpus = f })
      ]

  abbrev pub all_errors_to_lifecycle : {A : Type 0} → Failure → Operation A
  all_errors_to_lifecycle e = raise lifecycle_error

-- `_get_vm_info`, where the state manager does not raise.
pub get_vm_info : Option ClusterState → Text → Option VmInfo
get_vm_info none vm_name = none
get_vm_info (some cluster_state) vm_name = get_vm_by_name cluster_state vm_name

-- The address in `vm_info.gpu_assigned`; a text that is empty has none.
pub assigned_address : Option VmInfo → Option Text
assigned_address none = none
assigned_address (some vm_info) = elim vm_info.gpu_assigned [
  | none ↦ none
  | some gpu_assigned ↦ extract_pci_address gpu_assigned
]

-- The GPU that starting or stopping a VM concerns: none without an allocator.
pub managed_gpu : Manager → Option ClusterState → Text → Option Text
managed_gpu m tracked vm_name =
    if m.has_allocator then assigned_address (get_vm_info tracked vm_name) else none

module _ (lv : Libvirt) (m : Manager) where
  pub release_if : Write → Option Text → Operation lv Unit
  release_if io none = pure tt
  release_if io (some pci_address) = do
    released ← on_gpus lv (release_gpu io m.now pci_address)
    pure tt

  unfoldable pub stop_vm_with_gpu_release : Text → (force : Bool) → Operation lv Bool
  stop_vm_with_gpu_release vm_name force =
      try_except
        (elim m.cluster [
          | err e ↦ raise e
          | ok tracked ↦ do
            success ← on_client lv (stop_vm lv vm_name force 30)
            release_if m.releasing (if success then managed_gpu m tracked vm_name else none)
            pure success
        ])
        (all_errors_to_lifecycle lv)

  -- The check and the allocation before the start.
  pub claim_gpu : Text → Option Text → Operation lv Unit
  claim_gpu vm_name none = pure tt
  claim_gpu vm_name (some pci_address) = do
    available ← on_gpus lv (is_gpu_available pci_address vm_name)
    if not available then raise lifecycle_error else pure tt
    allocated ← on_gpus lv (allocate_gpu m.allocating m.now pci_address vm_name)
    pure tt

  -- `except VMLifecycleError: raise`, and the clean-up under `except Exception`.
  pub clean_up : Option Text → Failure → Operation lv Bool
  clean_up gpu lifecycle_error = raise lifecycle_error
  clean_up gpu e = release_if m.cleaning gpu >> raise lifecycle_error

  unfoldable pub start_vm_with_gpu_allocation : Text → (wait_for_boot : Bool) → Operation lv Bool
  start_vm_with_gpu_allocation vm_name wait_for_boot = elim m.cluster [
    | err e ↦ clean_up none e
    | ok tracked ↦
        let gpu = managed_gpu m tracked vm_name in
        try_except (do claim_gpu vm_name gpu; on_client lv (start_vm lv vm_name wait_for_boot 60))
          (clean_up gpu)
  ]

  unfoldable pub restart_vm : Text → (wait_for_boot : Bool) → Operation lv Bool
  restart_vm vm_name wait_for_boot =
      try_except
        (do
          stopped ← stop_vm_with_gpu_release vm_name false
          on_client lv (pause lv 2)
          started ← start_vm_with_gpu_allocation vm_name wait_for_boot
          pure true)
        (all_errors_to_lifecycle lv)
