-- ===== src/Hpc/Start.antt =====
-- `start_cluster`. The record of the cluster is passed along; what an exception leaves in it is not looked at.
use ai_hyperscaler_on_workst.Common.{
  ℕ, ◌+◌, Option, none, some, List, [], ◌∷◌, ◌++◌, Bool, true, false, Text, codes, not,
  if◌then◌else◌,
}
use ai_hyperscaler_on_workst.Common.Exec.{
  Exec, Result, ok, err, pure, raise, try_except, ◌>>=◌, ◌>>◌,
}
use ai_hyperscaler_on_workst.Problem.{
  Problem, lifecycle_error, volume_error, network_error, hpc_error, Act, returns,
}
use ai_hyperscaler_on_workst.Config.{PcieConfig, NodeConfig, NetworkSettings, ClusterConfig}
use ai_hyperscaler_on_workst.Config.Nodes.{
  or_default, check_single_vm_auto_start, should_auto_start_vm,
}
use ai_hyperscaler_on_workst.Models.{
  VmState, running, shutoff, VmInfo, ClusterState, update_state, network_config_of,
}
use ai_hyperscaler_on_workst.Models.Vms.{get_vm_by_name, add_vm}
use ai_hyperscaler_on_workst.Rollback.{Undo, add_rollback_action, execute_rollback}
use ai_hyperscaler_on_workst.Network.{Ip, nonempty, get_or_else}
use ai_hyperscaler_on_workst.Hpc.{Managers}
use ai_hyperscaler_on_workst.Hpc.Leases.{Leases, pad_two, prepare_static_dhcp_leases}
use ai_hyperscaler_on_workst.Hpc.Check.{Checks, validate_cluster_config, check_prerequisites}
use ai_hyperscaler_on_workst.Hpc.Stop.{is_running}
pub mod Laws
pub mod Failure

-- What the start calls beside `Managers`: the methods of the other managers, the rendering of a template, the
-- name of a GPU that the mapper gives, and the texts of numbers and of MAC addresses.
pub record Starters (Host : Type 0) : Type 0 where
  pub create_cluster_network : Text → NetworkSettings → Leases → Act Host Text
  pub start_network : Text → Act Host Bool
  pub create_cluster_pool : (cluster_name base_image : Text) → Act Host Text
  pub create_vm_volume : (cluster_name vm_name : Text) (size_gb : ℕ) → Act Host Text
  pub allocate_ip_address : (cluster_name vm_name : Text) → Act Host Text
  pub release_ip_address : (cluster_name vm_name : Text) → Act Host Bool
  pub render :
      (template vm_name : Text) → NodeConfig → (volume_path ip_address : Text) → Act Host Text
  pub create_vm : (vm_name xml : Text) → Act Host Text
  pub start_vm : Text → Act Host Bool
  pub ensure_state : (cluster_name cluster_type : Text) → Act Host ClusterState
  pub gpu_info : PcieConfig → Option Text
  pub show : ℕ → Text
  pub mac_of : Text → Text

-- The manager with its rollback stack, and the outside world.
pub record Run (Host : Type 0) : Type 0 where
  pub rollback_stack : List (Undo Host)
  pub host : Host

abbrev pub undo_of : {Host A : Type 0} → Act Host A → Undo Host
undo_of act h = let (r, h') = act h in (returns r, h')

-- Handlers that turn some classes into `HPCManagerError`.
abbrev pub volume_to_hpc : {Host A : Type 0} → Problem → Act Host A
volume_to_hpc volume_error h = (err hpc_error, h)
volume_to_hpc e h = (err e, h)

abbrev pub network_to_hpc : {Host A : Type 0} → Problem → Act Host A
network_to_hpc network_error h = (err hpc_error, h)
network_to_hpc e h = (err e, h)

abbrev pub lifecycle_to_hpc : {Host A : Type 0} → Problem → Act Host A
lifecycle_to_hpc lifecycle_error h = (err hpc_error, h)
lifecycle_to_hpc e h = (err e, h)

abbrev pub infrastructure_to_hpc : {Host A : Type 0} → Problem → Act Host A
infrastructure_to_hpc volume_error h = (err hpc_error, h)
infrastructure_to_hpc network_error h = (err hpc_error, h)
infrastructure_to_hpc e h = (err e, h)

module _ {Host : Type 0} where
  -- A call of another manager, and a rollback action that is registered.
  unfoldable pub on_host : {A : Type 0} → Act Host A → Act (Run Host) A
  on_host act r = let (a, h) = act r.host in (a, record r { host = h })

  unfoldable pub register : Undo Host → Act (Run Host) Unit
  register undo r = (ok tt, record r { rollback_stack = add_rollback_action undo r.rollback_stack })

  unfoldable pub roll_back : Act (Run Host) Unit
  roll_back r =
      let (stack, h) = execute_rollback r.rollback_stack r.host in
      (ok tt, record { rollback_stack = stack; host = h })

module _ {Host : Type 0} (m : Managers Host) (st : Starters Host) where
  -- What follows the creation of the network in `_create_cluster_infrastructure`.
  unfoldable pub after_network : (cluster_name base_image : Text) → Act (Run Host) Unit
  unfolding register on_host
  after_network cluster_name base_image = do
    register (undo_of (m.destroy_cluster_network cluster_name))
    on_host (st.start_network cluster_name)
    on_host (st.create_cluster_pool cluster_name base_image)
    register (undo_of (m.destroy_cluster_pool cluster_name))

  unfoldable pub create_cluster_infrastructure :
      (cluster_name base_image : Text) → NetworkSettings → ClusterConfig → Act (Run Host) Unit
  unfolding after_network on_host
  create_cluster_infrastructure cluster_name base_image network c =
      try_except
        (do
          on_host (
              st.create_cluster_network cluster_name network
                (prepare_static_dhcp_leases st.show st.mac_of cluster_name c))
          after_network cluster_name base_image)
        infrastructure_to_hpc

  -- The static address, or one that the network manager allocates.
  unfoldable pub choose_ip : (cluster_name vm_name : Text) → Option Text → Act (Run Host) Text
  unfolding register on_host
  choose_ip cluster_name vm_name static_ip = elim (nonempty static_ip) [
    | some ip ↦ pure ip
    | none ↦
        try_except
          (do
            ip ← on_host (st.allocate_ip_address cluster_name vm_name)
            register (undo_of (st.release_ip_address cluster_name vm_name))
            pure ip)
          network_to_hpc
  ]

  -- The volume, the address, the XML and the domain of a VM, each with its rollback action.
  unfoldable pub build_vm :
      (cluster_name vm_name template : Text)
      → NodeConfig
      → (static_ip gpu_assigned : Option Text) (vm_type : Text) → Act (Run Host) VmInfo
  unfolding register on_host choose_ip
  build_vm cluster_name vm_name template node static_ip gpu_assigned vm_type = do
    volume_path ←
        try_except
          (do
            path ← on_host (st.create_vm_volume cluster_name vm_name (or_default node.disk_gb 0))
            register (undo_of (m.destroy_vm_volume cluster_name vm_name))
            pure path)
          volume_to_hpc
    ip ← choose_ip cluster_name vm_name static_ip
    xml ← on_host (st.render template vm_name node volume_path ip)
    domain_uuid ←
        try_except
          (do
            uuid ← on_host (st.create_vm vm_name xml)
            register (undo_of (m.destroy_vm vm_name))
            pure uuid)
          lifecycle_to_hpc
    created ← on_host m.now
    modified ← on_host m.now
    pure (record {
      name = vm_name;
      domain_uuid = domain_uuid;
      state = shutoff;
      cpu_cores = or_default node.cpu_cores 0;
      memory_gb = or_default node.memory_gb 0;
      volume_path = volume_path;
      vm_type = vm_type;
      ip_address = some ip;
      gpu_assigned = gpu_assigned;
      created_at = some created;
      last_modified = some modified;
    })

  unfoldable pub start_vm_if_needed : VmInfo → Act (Run Host) VmInfo
  unfolding on_host
  start_vm_if_needed vm =
      try_except
        (do
          current ← on_host (m.get_vm_state vm.name)
          if not (is_running current)
              then (do
                on_host (st.start_vm vm.name)
                time ← on_host m.now
                pure (update_state time running vm))
              else pure vm)
        lifecycle_to_hpc

  unfoldable pub start_if : Bool → VmInfo → Act (Run Host) VmInfo
  unfolding start_vm_if_needed
  start_if auto_start vm = if auto_start then start_vm_if_needed vm else pure vm

  -- `_create_and_start_controller_vm`, from the controller of the state.
  unfoldable pub controller_vm :
      (cluster_name : Text) → NodeConfig → Option VmInfo → Act (Run Host) VmInfo
  unfolding build_vm start_if
  controller_vm cluster_name controller (some vm) =
      start_if (check_single_vm_auto_start controller) vm
  controller_vm cluster_name controller none = do
    vm ←
        build_vm cluster_name (cluster_name ++ codes "-controller") (codes "controller.xml.j2")
          controller controller.ip_address none (codes "controller")
    start_if (check_single_vm_auto_start controller) vm

  -- `_create_compute_nodes`, with the index of the next node.
  unfoldable pub create_compute_nodes :
      (cluster_name : Text) (i : ℕ) → List NodeConfig → ClusterState → Act (Run Host) ClusterState
  unfolding build_vm on_host
  create_compute_nodes cluster_name i [] s = pure s
  create_compute_nodes cluster_name i (node ∷ nodes) s =
      let vm_name = cluster_name ++ (codes "-compute-" ++ pad_two (st.show (i + 1))) in
      elim (get_vm_by_name s vm_name) [
        | some vm ↦ create_compute_nodes cluster_name (i + 1) nodes s
        | none ↦ do
          vm ←
              build_vm cluster_name vm_name (codes "compute_node.xml.j2") node node.ip
                (elim node.pcie_passthrough [ none ↦ none | some pcie ↦ st.gpu_info pcie ])
                (codes "compute")
          time ← on_host m.now
          create_compute_nodes cluster_name (i + 1) nodes (add_vm time s vm).0
      ]

  -- The loop of `_create_and_start_compute_nodes`, by the position in the state.
  unfoldable pub start_compute_nodes :
      (i : ℕ) → List NodeConfig → List VmInfo → Act (Run Host) (List VmInfo)
  unfolding start_if
  start_compute_nodes i configs [] = pure []
  start_compute_nodes i configs (vm ∷ vms) = do
    started ← start_if (should_auto_start_vm i configs) vm
    rest ← start_compute_nodes (i + 1) configs vms
    pure (started ∷ rest)

  -- Steps 3 to 7, once the infrastructure is there.
  unfoldable pub start_vms :
      (cluster_name : Text)
      → NetworkSettings
      → (controller : NodeConfig) (compute_nodes : List NodeConfig) → Act (Run Host) Bool
  unfolding controller_vm create_compute_nodes start_compute_nodes on_host
  start_vms cluster_name network controller compute_nodes = do
    s ← on_host (st.ensure_state cluster_name (codes "hpc"))
    let network_config =
        network_config_of (get_or_else network.subnet []) (get_or_else network.bridge [])
    vm ← controller_vm cluster_name controller s.controller
    s' ←
        create_compute_nodes cluster_name 0 compute_nodes
          (record s { network_config = some network_config; controller = some vm })
    nodes ← start_compute_nodes 0 compute_nodes s'.compute_nodes
    on_host (m.save_state (record s' { compute_nodes = nodes }))
    pure true

  module _ (ch : Checks Host) (ip : Ip) where
    -- Of a configuration that has passed the checks; the others are refused by them.
    unfoldable pub start_parts :
        (cluster_name base_image : Text)
        → NetworkSettings
        → (controller : NodeConfig) (compute_nodes : List NodeConfig) → ClusterConfig
        → Act (Run Host) Bool
    unfolding create_cluster_infrastructure start_vms on_host
    start_parts cluster_name base_image network controller compute_nodes c = do
      on_host (check_prerequisites ch ip controller compute_nodes)
      create_cluster_infrastructure cluster_name base_image network c
      start_vms cluster_name network controller compute_nodes

    unfoldable pub attempt_start : Text → ClusterConfig → Act (Run Host) Bool
    unfolding start_parts on_host
    attempt_start cluster_name c = do
      on_host (validate_cluster_config ch ip c)
      elim c.base_image_path [
        | none ↦ raise hpc_error
        | some base_image ↦ elim c.network [
          | none ↦ raise hpc_error
          | some network ↦ elim c.controller [
            | none ↦ raise hpc_error
            | some controller ↦
                start_parts cluster_name base_image network controller
                  (or_default c.compute_nodes []) c
          ]
        ]
      ]

    unfoldable pub start_cluster : Text → ClusterConfig → Act (Run Host) Bool
    unfolding attempt_start roll_back
    start_cluster cluster_name c =
        try_except (attempt_start cluster_name c) (λ e. roll_back >> raise hpc_error)
