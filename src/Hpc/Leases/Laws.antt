-- ===== src/Hpc/Leases/Laws.antt =====
-- The two mappings of `_prepare_static_dhcp_leases`.
use ai_hyperscaler_on_workst.Common.{
  ℕ, ◌+◌, ◌≡◌, inl, inr, arith, Option, none, some, List, [], ◌∷◌, ◌++◌, Text, codes, text_eq_iff,
  Bool-cases, Option-cases, if◌then◌else◌, is_some,
}
use ai_hyperscaler_on_workst.Common.Dict
use ai_hyperscaler_on_workst.Common.Dict.{Dict}
use ai_hyperscaler_on_workst.Config.{NodeConfig, ClusterConfig}
use ai_hyperscaler_on_workst.Config.Nodes.{or_default, has_gpu_passthrough}
use ai_hyperscaler_on_workst.Hpc.Leases.{
  pad_two, Leases, add_lease, add_controller, add_compute, add_workers, listed_workers,
  prepare_static_dhcp_leases,
}

module _ (show : ℕ → Text) (mac_of : Text → Text) where
  -- A VM has a MAC address in the second mapping exactly where it has an address in the first.
  pub record IsPaired (l : Leases) : Type 0 where
    pub at :
        (vm_name : Text)
        → Dict.get l.vm_macs vm_name
          ≡ (if is_some (Dict.get l.static_leases vm_name) then some (mac_of vm_name) else none)

  add_lease-IsPaired :
      (l : Leases) (vm_name ip : Text) → IsPaired l → IsPaired (add_lease show mac_of l vm_name ip)
  unfolding add_lease
  add_lease-IsPaired l vm_name ip p = record {
    at = λ other. ground (
      arith,
      Dict.get-put l.vm_macs vm_name other (mac_of vm_name),
      Dict.get-put l.static_leases vm_name other ip,
      text_eq_iff vm_name other,
      p.at other,
    );
  }

  add_controller-IsPaired :
      (vm_name : Text) (c : Option NodeConfig) (l : Leases)
      → IsPaired l
      → IsPaired (add_controller show mac_of vm_name c l)
  unfolding add_controller
  add_controller-IsPaired vm_name none l p = p
  add_controller-IsPaired vm_name (some config) l p = elim (Option-cases config.ip_address) [
    | inl absent ↦ rw absent p
    | inr (ip, e) ↦ rw e (add_lease-IsPaired l vm_name ip p)
  ]

  optional-IsPaired :
      (ip : Option Text) (vm_name : Text) (l : Leases)
      → IsPaired l
      → IsPaired (elim ip [ none ↦ l | some a ↦ add_lease show mac_of l vm_name a ])
  optional-IsPaired none vm_name l p = p
  optional-IsPaired (some a) vm_name l p = add_lease-IsPaired l vm_name a p

  add_compute-IsPaired :
      (cluster_name : Text) (i : ℕ) (nodes : List NodeConfig) (l : Leases)
      → IsPaired l
      → IsPaired (add_compute show mac_of cluster_name i nodes l)
  unfolding add_compute
  add_compute-IsPaired cluster_name i [] l p = p
  add_compute-IsPaired cluster_name i (node ∷ nodes) l p =
      add_compute-IsPaired cluster_name (i + 1) nodes _ (
        optional-IsPaired node.ip (cluster_name ++ (codes "-compute-" ++ pad_two (show (i + 1)))) l
          p)

  add_workers-IsPaired :
      (cluster_name : Text) (cpu gpu : ℕ) (workers : List NodeConfig) (l : Leases)
      → IsPaired l
      → IsPaired (add_workers show mac_of cluster_name cpu gpu workers l)
  unfolding add_workers
  add_workers-IsPaired cluster_name cpu gpu [] l p = p
  add_workers-IsPaired cluster_name cpu gpu (worker ∷ workers) l p = elim (Option-cases worker.ip) [
    | inl absent ↦ rw absent (add_workers-IsPaired cluster_name cpu gpu workers l p)
    | inr (ip, e) ↦ rw e (elim (Bool-cases (has_gpu_passthrough worker)) [
      | inl has ↦
          rw has (
            add_workers-IsPaired cluster_name cpu (gpu + 1) workers _ (add_lease-IsPaired l _ ip p))
      | inr lacks ↦
          rw lacks (
            add_workers-IsPaired cluster_name (cpu + 1) gpu workers _ (add_lease-IsPaired l _ ip p))
    ])
  ]

-- For any configuration, the static leases and the MAC addresses name the same VMs, and each MAC address is the one
-- that is generated from the VM's name.
pub prepare_static_dhcp_leases-IsPaired :
    (show : ℕ → Text) (mac_of : Text → Text) (cluster_name : Text) (c : ClusterConfig)
    → IsPaired show mac_of (prepare_static_dhcp_leases show mac_of cluster_name c)
unfolding prepare_static_dhcp_leases
prepare_static_dhcp_leases-IsPaired show mac_of cluster_name c =
    add_workers-IsPaired show mac_of cluster_name 0 0 (listed_workers c.worker_nodes) _ (
      add_compute-IsPaired show mac_of cluster_name 0 (or_default c.compute_nodes []) _ (
        add_controller-IsPaired show mac_of (cluster_name ++ codes "-control-plane") c.control_plane
          _
          (add_controller-IsPaired show mac_of (cluster_name ++ codes "-controller") c.controller _
            (record { at = λ vm_name. ground (arith, Dict.get-empty {V = Text} vm_name) }))))
