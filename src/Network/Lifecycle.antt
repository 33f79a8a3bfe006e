-- ===== src/Network/Lifecycle.antt =====
-- Creating, starting, stopping and destroying the network of a cluster.
use ai_hyperscaler_on_workst.Common.{
  Option, none, some, List, [], ◌∷◌, ◌++◌, Bool, true, false, Text, codes, text_eq, if◌then◌else◌,
  not,
}
use ai_hyperscaler_on_workst.Common.Dict.{Dict}
use ai_hyperscaler_on_workst.Common.Exec.{
  Exec, Result, ok, err, pure, raise, gets, try_except, ◌>>=◌, ◌>>◌,
}
use ai_hyperscaler_on_workst.Config.{NetworkSettings}
use ai_hyperscaler_on_workst.Problem.{
  Problem, network_error, Act, all_to, libvirt_to, false_if_libvirt,
}
use ai_hyperscaler_on_workst.Network.{Ip, get_or_else}
use ai_hyperscaler_on_workst.Network.Outside.{Outside}
use ai_hyperscaler_on_workst.Network.Plan.{Plan, plan_network}
use ai_hyperscaler_on_workst.Network.Dns.{
  configure_host_dns_integration, remove_host_dns_integration,
}
pub mod View
pub mod Laws
pub mod Changes

abbrev pub network_name : Text → Text
network_name cluster_name = cluster_name ++ codes "-network"

module _ {Host : Type 0} (out : Outside Host) where
  open out use {connect, lookup, is_active, define, create, set_autostart, destroy, undefine}

  unfoldable pub network_exists : Text → Act Host Bool
  network_exists name = try_except (do connect; lookup name; pure true) false_if_libvirt

  -- The effect of `configure_dns_mode`: only one mode changes the host.
  unfoldable pub configure_dns_mode : Text → NetworkSettings → Act Host Unit
  configure_dns_mode cluster_name c =
      if text_eq (get_or_else c.dns_mode (codes "isolated")) (codes "shared_dns")
      then configure_host_dns_integration out cluster_name c
      else pure tt

  -- The calls of libvirt that make the network.
  pub make_network : Text → Plan → Act Host Unit
  make_network name plan =
      try_except (do connect; define name plan; create name; set_autostart name)
        (libvirt_to network_error)

  unfoldable pub create_cluster_network :
      Ip
      → (cluster_name : Text) → NetworkSettings
      → (static_leases vm_macs : Dict Text) → Act Host Text
  unfolding network_exists make_network configure_dns_mode
  create_cluster_network ip cluster_name c static_leases vm_macs =
      try_except
        (do
          present ← network_exists (network_name cluster_name)
          if present then pure (network_name cluster_name) else (do
            configure_dns_mode cluster_name c
            elim (plan_network ip cluster_name c static_leases vm_macs) [
              | err e ↦ raise e
              | ok plan ↦ do
                make_network (network_name cluster_name) plan
                pure (network_name cluster_name)
            ]))
        (all_to network_error)

  unfoldable pub destroy_cluster_network : Text → Act Host Bool
  unfolding network_exists
  destroy_cluster_network cluster_name =
      try_except
        (do
          present ← network_exists (network_name cluster_name)
          if not present then remove_host_dns_integration out cluster_name >> pure true else (do
            connect
            lookup (network_name cluster_name)
            active ← is_active (network_name cluster_name)
            if active then destroy (network_name cluster_name) else pure tt
            undefine (network_name cluster_name)
            remove_host_dns_integration out cluster_name
            pure true))
        (all_to network_error)

  unfoldable pub start_network : Text → Act Host Bool
  unfolding network_exists
  start_network cluster_name =
      try_except
        (do
          present ← network_exists (network_name cluster_name)
          if not present then raise network_error else (do
            connect
            lookup (network_name cluster_name)
            active ← is_active (network_name cluster_name)
            if active then pure tt else create (network_name cluster_name)
            pure true))
        (libvirt_to network_error)

  unfoldable pub stop_network : Text → Act Host Bool
  unfolding network_exists
  stop_network cluster_name =
      try_except
        (do
          present ← network_exists (network_name cluster_name)
          if not present then pure true else (do
            connect
            lookup (network_name cluster_name)
            active ← is_active (network_name cluster_name)
            if active then destroy (network_name cluster_name) else pure tt
            pure true))
        (libvirt_to network_error)
