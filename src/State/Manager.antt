-- ===== src/State/Manager.antt =====
-- python/ai_how/src/ai_how/state/manager.py: `ClusterStateManager`, which caches the state and knows
-- whether the cached state has unsaved changes. `get_state` hands out the cached object itself, so a
-- method that changes it changes the cache. An operation reads the clock once here.
pub mod Calls
pub mod Synced
pub mod Requests
pub mod Failures
pub mod Placing
use ai_hyperscaler_on_workst.Common.{
  ℕ, Option, none, some, List, [], ◌∷◌, ◌++◌, Bool, true, false, Text, codes, text_eq,
  if◌then◌else◌, ◌&&◌, is_some,
}
use ai_hyperscaler_on_workst.Common.Exec.{
  Exec, Result, ok, err, pure, raise, gets, modify, ◌>>=◌, ◌>>◌,
}
use ai_hyperscaler_on_workst.Models.{VmState, VmInfo, NetworkConfig, ClusterState, update_state}
use ai_hyperscaler_on_workst.Models.Vms.{
  get_vm_by_name, removed, update_named, modify_vm, ClusterStatus, get_cluster_status,
}
use ai_hyperscaler_on_workst.State.Codec.{Formats}
use ai_hyperscaler_on_workst.State.Persistence.{Disk, Works}
use ai_hyperscaler_on_workst.State.Persistence as Files

pub record Manager : Type 0 where
  pub cached : Option ClusterState
  pub dirty : Bool
  pub disk : Disk

pub data StateManagerError : Type 0 where
  state_manager_error : StateManagerError

abbrev pub Action : Type 0 → Type 0
Action A = Exec StateManagerError Manager A

-- A call of the file manager; `except StatePersistenceError as e: raise StateManagerError(...)`.
abbrev pub on_files : {A : Type 0} → Files.Action A → Action A
on_files m s =
    let (r, d) = m s.disk in
    elim r [
      | ok a ↦ (ok a, record s { disk = d })
      | err e ↦ (err state_manager_error, record s { disk = d })
    ]

abbrev pub set_cached : Option ClusterState → Action Unit
set_cached state = modify (λ m. record m { cached = state })

abbrev pub set_dirty : Bool → Action Unit
set_dirty b = modify (λ m. record m { dirty = b })

-- The cached object is changed, and the change is not saved yet.
abbrev pub change : ClusterState → Action Unit
change state = modify (λ m. record m { cached = some state; dirty = true })

-- `add_vm` below its guard: a controller takes the controller's place, a VM of a known name replaces
-- the first VM of that name in each list, and a new VM goes to the list of its type.
unfoldable pub placed_vm : ClusterState → VmInfo → ClusterState
placed_vm state vm_info =
    if text_eq vm_info.vm_type (codes "controller")
    then record state { controller = some vm_info }
    else if is_some (get_vm_by_name state vm_info.name)
    then record state {
      compute_nodes = update_named (λ _. vm_info) vm_info.name state.compute_nodes;
      worker_nodes = update_named (λ _. vm_info) vm_info.name state.worker_nodes;
    }
    else if text_eq vm_info.vm_type (codes "compute")
    then record state { compute_nodes = state.compute_nodes ++ vm_info ∷ [] }
    else if text_eq vm_info.vm_type (codes "worker")
    then record state { worker_nodes = state.worker_nodes ++ vm_info ∷ [] }
    else record state { compute_nodes = state.compute_nodes ++ vm_info ∷ [] }

-- A state that was saved just now.
abbrev pub touched : ℕ → ClusterState → ClusterState
touched now state = record state { last_modified = some now }

-- The state that `ensure_state` creates.
abbrev pub created_state : (now : ℕ) (path cluster_name cluster_type : Text) → ClusterState
created_state now path cluster_name cluster_type = record {
  cluster_name = cluster_name;
  cluster_type = cluster_type;
  controller = none;
  compute_nodes = [];
  worker_nodes = [];
  network_config = none;
  storage_pool = none;
  config_file_path = some path;
  state_file_version = codes "2.0";
  created_at = some now;
  last_modified = some now;
}

module _ (f : Formats) (works : Works) (now : ℕ) where
  unfoldable pub get_state : Action (Option ClusterState)
  get_state = do
    cached ← gets (λ m. m.cached)
    elim cached [
      | some state ↦ pure (some state)
      | none ↦ do loaded ← on_files (Files.load f now); set_cached loaded; pure loaded
    ]

  -- `save_state` once the cached state is known.
  pub save_cached : Option ClusterState → Action Unit
  save_cached none = raise state_manager_error
  save_cached (some state) = do
    set_cached (some (touched now state))
    on_files (Files.save f works (touched now state))
    set_dirty false

  unfoldable pub save_state : Option ClusterState → Action Unit
  unfolding save_cached
  save_state (some state) = set_cached (some state) >> save_cached (some state)
  save_state none = do cached ← gets (λ m. m.cached); save_cached cached

  unfoldable pub ensure_state : (path cluster_name cluster_type : Text) → Action ClusterState
  unfolding get_state
  ensure_state path cluster_name cluster_type = do
    state ← get_state
    elim state [
      | some s ↦ pure s
      | none ↦ do
        change (created_state now path cluster_name cluster_type)
        pure (created_state now path cluster_name cluster_type)
    ]

  unfoldable pub clear_state : Action Unit
  clear_state = do on_files (Files.remove works); set_cached none; set_dirty false

  unfoldable pub backup_state : Text → Action Text
  backup_state backup_suffix = on_files (Files.backup works backup_suffix)

  unfoldable pub add_vm : VmInfo → Action Unit
  unfolding get_state placed_vm
  add_vm vm_info = do
    state ← get_state
    elim state [ none ↦ raise state_manager_error | some s ↦ change (placed_vm s vm_info) ]

  unfoldable pub remove_vm : Text → Action Bool
  unfolding get_state
  remove_vm vm_name = do
    state ← get_state
    elim state [
      | none ↦ pure false
      | some s ↦ elim (removed s vm_name) [
        | none ↦ pure false
        | some left ↦ change left >> pure true
      ]
    ]

  unfoldable pub get_vm : Text → Action (Option VmInfo)
  unfolding get_state
  get_vm vm_name = do
    state ← get_state
    elim state [ none ↦ pure none | some s ↦ pure (get_vm_by_name s vm_name) ]

  -- Fields of the VM that `get_vm` finds are assigned; the answer is whether it was found.
  pub change_vm : Text → (VmInfo → VmInfo) → Action Bool
  change_vm vm_name g = do
    state ← get_state
    elim state [
      | none ↦ pure false
      | some s ↦
          if is_some (get_vm_by_name s vm_name)
          then change (modify_vm g s vm_name) >> pure true
          else pure false
    ]

  unfoldable pub update_vm_state : Text → VmState → Action Bool
  unfolding change_vm get_state
  update_vm_state vm_name new_state = change_vm vm_name (update_state now new_state)

  unfoldable pub allocate_vm_ip : (vm_name ip_address : Text) → Action Unit
  unfolding change_vm get_state
  allocate_vm_ip vm_name ip_address = do
    found ← change_vm vm_name (λ vm. record vm { ip_address = some ip_address })
    pure tt

  unfoldable pub release_vm_ip : Text → Action Unit
  unfolding change_vm get_state
  release_vm_ip vm_name = do
    found ← change_vm vm_name (λ vm. record vm { ip_address = none })
    pure tt

  unfoldable pub update_network_config : NetworkConfig → Action Unit
  unfolding get_state
  update_network_config network_config = do
    state ← get_state
    elim state [
      | none ↦ raise state_manager_error
      | some s ↦ change (record s { network_config = some network_config })
    ]

  -- The network information itself is dropped.
  unfoldable pub update_network_info : Action Unit
  unfolding get_state
  update_network_info = do
    state ← get_state
    elim state [ none ↦ raise state_manager_error | some s ↦ set_dirty true ]

  -- `none` is "not_configured".
  unfoldable pub manager_status : Action (Option ClusterStatus)
  unfolding get_state
  manager_status = do
    state ← get_state
    elim state [ none ↦ pure none | some s ↦ pure (some (get_cluster_status s)) ]

  unfoldable pub auto_save_if_dirty : Action Bool
  unfolding save_state
  auto_save_if_dirty = do
    m ← gets (λ m. m)
    if m.dirty && is_some m.cached then save_state none >> pure true else pure false
