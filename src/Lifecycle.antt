-- ===== src/Lifecycle.antt =====
-- python/ai_how/src/ai_how/vm_management/vm_lifecycle.py: `VMLifecycleManager`, its operations on
-- the hypervisor. Those that also manage GPUs are in `Gpu`.
pub mod Wait
mod Tests
pub mod Gpu
use ai_hyperscaler_on_workst.Common.{
  ℕ, zero, suc, ◌+◌, ◌*◌, Option, none, some, List, [], ◌∷◌, Bool, true, false, not, Text, ltb,
  ◌==◌, ◌||◌, ◌&&◌, if◌then◌else◌,
}
use ai_hyperscaler_on_workst.Common.Exec.{
  Exec, Result, ok, err, pure, raise, gets, modify, try_except, ◌>>=◌, ◌>>◌,
}
use ai_hyperscaler_on_workst.Libvirt.{
  running_client, second, Libvirt, Failure, connection_error, libvirt_error, lifecycle_error,
  other_error, Client, Action, call, pause, checked, domain_exists, get_domain, get_domain_state,
  define_domain,
}
use ai_hyperscaler_on_workst.Models.{VmState, undefined, from_libvirt_state}

-- VIR_DOMAIN_RUNNING
abbrev pub is_running_code : ℕ → Bool
is_running_code state = state == 1

-- VIR_DOMAIN_SHUTDOWN or VIR_DOMAIN_SHUTOFF
abbrev pub is_stopped_code : ℕ → Bool
is_stopped_code state = (state == 4) || (state == 5)

module _ (lv : Libvirt) where
  open lv use {time, create, shutdown, destroy, undefine, file_disks, remove_file}

  -- `except LibvirtConnectionError as e: raise VMLifecycleError(...)`
  abbrev pub connection_to_lifecycle : {A : Type 0} → Failure → Action lv A
  connection_to_lifecycle connection_error = raise lifecycle_error
  connection_to_lifecycle e = raise e

  -- The same, followed by `except Exception as e: raise VMLifecycleError(...)`.
  abbrev pub all_to_lifecycle : {A : Type 0} → Failure → Action lv A
  all_to_lifecycle e = raise lifecycle_error

  unfoldable pub create_vm : (vm_name xml_config : Text) → Action lv Text
  create_vm vm_name xml_config =
      try_except
        (do
          exists ← domain_exists lv vm_name
          if exists then raise lifecycle_error else define_domain lv xml_config)
        connection_to_lifecycle

  -- One round of a wait loop: whether the state of the domain ends the wait. An error of the
  -- connection counts as `on_error`.
  pub poll : Text → (ℕ → Bool) → Bool → Action lv Bool
  poll vm_name ends on_error =
      try_except (do state ← get_domain_state lv vm_name; pure (ends state))
        (λ e. elim e [ connection_error ↦ pure on_error | other ↦ raise other ])

  -- `while time.time() - start_time < timeout: ...; time.sleep(2)`, with the deadline
  -- `start_time + timeout` and the rounds that are left.
  pub wait_until : (rounds deadline : ℕ) → Text → (ℕ → Bool) → Bool → Action lv Bool
  wait_until zero deadline vm_name ends on_error = pure false
  wait_until (suc rounds) deadline vm_name ends on_error =
      let again = wait_until rounds deadline vm_name ends on_error in
      do
        now ← call lv time
        if ltb now deadline
            then (do
              done ← poll vm_name ends on_error
              if done then pure true else (pause lv 2 >> again))
            else pure false

  unfoldable pub wait_for_vm_boot : Text → (timeout : ℕ) → Action lv Bool
  wait_for_vm_boot vm_name timeout = do
    start_time ← call lv time
    wait_until (timeout + 1) (start_time + timeout * second) vm_name is_running_code false

  unfoldable pub wait_for_vm_shutdown : Text → (timeout : ℕ) → Action lv Bool
  wait_for_vm_shutdown vm_name timeout = do
    start_time ← call lv time
    wait_until (timeout + 1) (start_time + timeout * second) vm_name is_stopped_code true

  unfoldable pub start_vm : Text → (wait_for_boot : Bool) → (boot_timeout : ℕ) → Action lv Bool
  start_vm vm_name wait_for_boot boot_timeout =
      try_except
        (do
          get_domain lv vm_name
          state ← get_domain_state lv vm_name
          if is_running_code state then pure true else (do
            checked lv (create vm_name)
            if wait_for_boot then wait_for_vm_boot vm_name boot_timeout else pure true))
        all_to_lifecycle

  -- Wait for the graceful shutdown, and force the stop if it times out.
  abbrev pub shut_down_or_destroy : Text → (shutdown_timeout : ℕ) → Action lv Unit
  shut_down_or_destroy vm_name shutdown_timeout = do
    checked lv (shutdown vm_name)
    stopped ← wait_for_vm_shutdown vm_name shutdown_timeout
    if stopped then pure tt else checked lv (destroy vm_name)

  unfoldable pub stop_vm : Text → (force : Bool) → (shutdown_timeout : ℕ) → Action lv Bool
  stop_vm vm_name force shutdown_timeout =
      try_except
        (do
          get_domain lv vm_name
          state ← get_domain_state lv vm_name
          if is_stopped_code state then pure true else (do
            if force
                then checked lv (destroy vm_name)
                else shut_down_or_destroy vm_name shutdown_timeout
            pure true))
        all_to_lifecycle

  remove_storage_files : List Text → Action lv Unit
  remove_storage_files [] = pure tt
  remove_storage_files (path ∷ paths) =
      let rest = remove_storage_files paths in
      do modify (λ c. record c { host = remove_file path c.host }); rest

  -- `_get_domain_storage_paths`: no paths where reading them fails.
  storage_paths : Text → Action lv (List Text)
  storage_paths vm_name = do
    disks ← call lv (file_disks vm_name)
    elim disks [ none ↦ pure [] | some paths ↦ pure paths ]

  unfoldable pub destroy_vm : Text → (remove_storage : Bool) → Action lv Bool
  unfolding remove_storage_files storage_paths
  destroy_vm vm_name remove_storage =
      try_except
        (do
          get_domain lv vm_name
          state ← get_domain_state lv vm_name
          if is_running_code state then (stop_vm vm_name true 30 >>= λ _. pure tt) else pure tt
          paths ← (if remove_storage then storage_paths vm_name else pure [])
          checked lv (undefine vm_name)
          remove_storage_files paths
          pure true)
        all_to_lifecycle

  unfoldable pub get_vm_state : Text → Action lv VmState
  get_vm_state vm_name =
      try_except
        (do
          exists ← domain_exists lv vm_name
          if not exists
              then pure undefined
              else (do state ← get_domain_state lv vm_name; pure (from_libvirt_state state)))
        connection_to_lifecycle

-- Opens the operations on the hypervisor, for runs.
unfoldable pub running_lifecycle : Unit {0}
unfolding create_vm start_vm stop_vm destroy_vm get_vm_state wait_for_vm_boot wait_for_vm_shutdown
    wait_until poll running_client from_libvirt_state
running_lifecycle = tt
