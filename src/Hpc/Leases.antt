-- ===== src/Hpc/Leases.antt =====
-- `_prepare_static_dhcp_leases`.
use ai_hyperscaler_on_workst.Common.{
  ℕ, zero, suc, ◌+◌, ◌/◌, ◌%◌, Option, none, some, List, [], ◌∷◌, ◌++◌, Bool, true, false, Text,
  codes, ltb, if◌then◌else◌,
}
use ai_hyperscaler_on_workst.Common.Dict
use ai_hyperscaler_on_workst.Common.Dict.{Dict}
use ai_hyperscaler_on_workst.Config.{NodeConfig, Workers, listed, keyed, ClusterConfig}
use ai_hyperscaler_on_workst.Config.Nodes.{or_default, has_gpu_passthrough}
pub mod Laws

-- `f"{n:02d}"` over the decimal digits of a number.
abbrev pub pad_two : Text → Text
pad_two [] = codes "00"
pad_two (c ∷ []) = b'0' ∷ c ∷ []
pad_two (c ∷ d ∷ s) = c ∷ d ∷ s

-- The two mappings that are built together: the address and the MAC address of each VM.
pub record Leases : Type 0 where
  pub static_leases : Dict Text
  pub vm_macs : Dict Text

-- A dictionary of workers is passed over.
abbrev pub listed_workers : Option Workers → List NodeConfig
listed_workers none = []
listed_workers (some (listed workers)) = workers
listed_workers (some (keyed workers)) = []

-- `show` gives the decimal digits of a number, `mac_of` is `generate_mac_address`.
module _ (show : ℕ → Text) (mac_of : Text → Text) where
  unfoldable pub add_lease : Leases → (vm_name ip : Text) → Leases
  add_lease l vm_name ip = record {
    static_leases = Dict.put l.static_leases vm_name ip;
    vm_macs = Dict.put l.vm_macs vm_name (mac_of vm_name);
  }

  -- A key of the configuration that may be absent or have no "ip_address".
  unfoldable pub add_controller : (vm_name : Text) → Option NodeConfig → Leases → Leases
  unfolding add_lease
  add_controller vm_name none l = l
  add_controller vm_name (some config) l = elim config.ip_address [
    | none ↦ l
    | some ip ↦ add_lease l vm_name ip
  ]

  -- The loop over the compute nodes, with the index of the next one.
  unfoldable pub add_compute : (cluster_name : Text) (i : ℕ) → List NodeConfig → Leases → Leases
  unfolding add_lease
  add_compute cluster_name i [] l = l
  add_compute cluster_name i (node ∷ nodes) l =
      add_compute cluster_name (i + 1) nodes (elim node.ip [
        | none ↦ l
        | some ip ↦ add_lease l (cluster_name ++ (codes "-compute-" ++ pad_two (show (i + 1)))) ip
      ])

  -- The loop over the workers, with the two counters: a worker without an address is not counted.
  unfoldable pub add_workers :
      (cluster_name : Text) (cpu_counter gpu_counter : ℕ) → List NodeConfig → Leases → Leases
  unfolding add_lease
  add_workers cluster_name cpu_counter gpu_counter [] l = l
  add_workers cluster_name cpu_counter gpu_counter (worker ∷ workers) l =
      let named_gpu = cluster_name ++ (codes "-gpu-worker-" ++ pad_two (show (gpu_counter + 1))) in
      let named_cpu = cluster_name ++ (codes "-cpu-worker-" ++ pad_two (show (cpu_counter + 1))) in
      elim worker.ip [
        | none ↦ add_workers cluster_name cpu_counter gpu_counter workers l
        | some ip ↦ elim (has_gpu_passthrough worker) [
          | true ↦
              add_workers cluster_name cpu_counter (gpu_counter + 1) workers
                (add_lease l named_gpu ip)
          | false ↦
              add_workers cluster_name (cpu_counter + 1) gpu_counter workers
                (add_lease l named_cpu ip)
        ]
      ]

  unfoldable pub prepare_static_dhcp_leases : (cluster_name : Text) → ClusterConfig → Leases
  unfolding add_controller add_compute add_workers
  prepare_static_dhcp_leases cluster_name c =
      let empty : Leases = record { static_leases = []; vm_macs = [] } in
      let with_controller =
        add_controller (cluster_name ++ codes "-controller") c.controller empty in
      let with_control_plane =
        add_controller (cluster_name ++ codes "-control-plane") c.control_plane with_controller in
      let with_compute =
        add_compute cluster_name 0 (or_default c.compute_nodes []) with_control_plane in
      add_workers cluster_name 0 0 (listed_workers c.worker_nodes) with_compute
