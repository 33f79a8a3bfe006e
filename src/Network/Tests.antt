-- ===== src/Network/Tests.antt =====
-- Runs of the network manager.
use ai_hyperscaler_on_workst.Common.{
  ℕ, ◌≡◌, ◌≢◌, ◌⊎◌, refl, Option, none, some, [], ◌∷◌, Bool, true, false, codes, ◌++◌, text_eq,
}
use ai_hyperscaler_on_workst.Common.Exec.{ok, err}
use ai_hyperscaler_on_workst.Common.Ensures.{Ensures}
use ai_hyperscaler_on_workst.Problem.{libvirt_error, network_error, other_error}
use ai_hyperscaler_on_workst.Config.{NetworkSettings}
use ai_hyperscaler_on_workst.Network.{IpNetwork}
use ai_hyperscaler_on_workst.Network.Validate.{validate_network_config}
use ai_hyperscaler_on_workst.Network.Validate.Exact.{Accepts, validate_network_config-Accepts}
use ai_hyperscaler_on_workst.Network.Plan.{Plan}
use ai_hyperscaler_on_workst.Network.Dns.{
  config_file, attempt_restart, restart_dnsmasq_service, back_up, rollback_dns_configuration,
  remove_host_dns_integration, write_configuration, configure_host_dns_integration,
}
use ai_hyperscaler_on_workst.Network.Dns.Rollback.{set_file}
use ai_hyperscaler_on_workst.Network.Dns.Rollback.Exact.{
  configured, rolled_back, configure_host_dns_integration-restores,
}
use ai_hyperscaler_on_workst.Network.Dns.Rollback.Others.{others}
use ai_hyperscaler_on_workst.Network.Outside.{Outside}
use ai_hyperscaler_on_workst.Network.Lifecycle.{
  network_name, network_exists, create_cluster_network, destroy_cluster_network, start_network,
  stop_network,
}
use ai_hyperscaler_on_workst.Network.Lifecycle.Laws.{At, Started, Stopped, start_stop_network-lem}
use ai_hyperscaler_on_workst.Network.Lifecycle.Changes.{
  Created, LeftBehind, Destroyed, HalfDestroyed, create_destroy_network-lem,
  destroy_cluster_network-needs_root,
}
use ai_hyperscaler_on_workst.Network.Addresses.{
  NetworkInfo, info_of, get_network_info, allocate_ip_address, allocated_from, put_address,
}
use ai_hyperscaler_on_workst.Network.Addresses.Free.{
  address_result, FirstFree, allocate_ip_address-FirstFree,
}
use ai_hyperscaler_on_workst.Network.Addresses.Leases.{allocate_ip_address-avoids_leases}
use ai_hyperscaler_on_workst.Network.Toy.{
  ToyHost, toy_ip, toy, toy_description, toy_lease, toy_networks, toy_files, bare, with_network,
}

abbrev settings : NetworkSettings
settings = record {
  subnet = some (100 ∷ 16 ∷ []);
  network_range = none;
  bridge = none;
  bridge_name = some (codes "br0");
  gateway_ip = none;
  dhcp_start = none;
  dhcp_end = none;
  dns_servers = none;
  dns_mode = none;
  address = none;
}

abbrev network : IpNetwork
network = record { network_address = 100; num_addresses = 16 }

validate_network_config-Accepts_example :
    (Accepts toy_ip settings × (validate_network_config toy_ip settings ≡ ok true))
    ⊎ ((¬ Accepts toy_ip settings) × (validate_network_config toy_ip settings ≡ err network_error))
validate_network_config-Accepts_example = validate_network_config-Accepts toy_ip settings

configure_host_dns_integration-restores_example :
    Ensures
      (λ done h'.
        ((◌≡◌ {A = Bool} false true) ⊎ (h'.1 ≡ configured (codes "c") settings bare.1))
        × (others (codes "c") h'.1 ≡ others (codes "c") bare.1))
      (λ e h'.
        ((◌≡◌ {A = Bool} false true) ⊎ (h'.1 ≡ rolled_back (codes "c") bare.1))
        × ((e ≡ network_error) × (others (codes "c") h'.1 ≡ others (codes "c") bare.1)))
      (configure_host_dns_integration (toy true false) (codes "c") settings)
      bare
configure_host_dns_integration-restores_example =
    configure_host_dns_integration-restores (toy_files true false) (λ h. refl) (codes "c") settings
      bare

-- Where the old configuration cannot be copied to its backup and dnsmasq cannot be restarted, the
-- rollback removes the old configuration.
abbrev without_copies : Outside ToyHost
without_copies = record (toy true false) { copy = λ source target h. (err other_error, h) }

abbrev with_configuration : ToyHost
with_configuration = (bare.0, set_file (config_file (codes "c")) (some (codes "old")) bare.1)

configuration_lost :
    (configure_host_dns_integration without_copies (codes "c") settings with_configuration).1.1
      (config_file (codes "c"))
    ≡ none
unfolding configure_host_dns_integration write_configuration text_eq rollback_dns_configuration
    restart_dnsmasq_service attempt_restart back_up
configuration_lost = refl

start_stop_network-lem_example :
    Ensures
      (Started (toy_networks true true) (network_name (codes "c")) with_network.0)
      (At (toy_networks true true) with_network.0)
      (start_network (toy true true) (codes "c"))
      with_network
    × Ensures
        (Stopped (toy_networks true true) (network_name (codes "c")) with_network.0)
        (At (toy_networks true true) with_network.0)
        (stop_network (toy true true) (codes "c"))
        with_network
start_stop_network-lem_example =
    start_stop_network-lem (toy_networks true true) (codes "c") with_network

create_destroy_network-lem_example :
    Ensures
      (Created (toy_networks true true) (network_name (codes "c")) bare.0)
      (λ e h'.
        (e ≡ network_error)
        × LeftBehind (toy_networks true true) (network_name (codes "c")) bare.0 h')
      (create_cluster_network (toy true true) toy_ip (codes "c") settings [] [])
      bare
    × Ensures
        (Destroyed (toy_networks true true) (network_name (codes "c")) bare.0)
        (λ e h'.
          (e ≡ network_error)
          × HalfDestroyed (toy_networks true true) (network_name (codes "c")) bare.0 h')
        (destroy_cluster_network (toy true true) (codes "c"))
        bare
create_destroy_network-lem_example =
    create_destroy_network-lem (toy_networks true true) toy_ip (codes "c") settings [] [] bare

destroy_cluster_network-needs_root_example :
    (destroy_cluster_network (toy false true) (codes "c") with_network).0 ≡ err network_error
destroy_cluster_network-needs_root_example =
    destroy_cluster_network-needs_root (toy false true) (codes "c") (λ h. refl) with_network

abbrev info : NetworkInfo
info =
    info_of toy_ip (network_name (codes "c")) true toy_description
      (allocated_from [] (toy_lease ∷ []))

read : get_network_info (toy true true) toy_ip (codes "c") with_network ≡ (ok info, with_network)
unfolding get_network_info
read = refl

info-parsed :
    toy_ip.parse_network info.network_range
    ≡ some (record { network_address = 101; num_addresses = 16 })
unfolding info_of text_eq
info-parsed = refl

info-allocated : info.allocated_ips ≡ allocated_from [] ([] ++ (toy_lease ∷ []))
unfolding info_of
info-allocated = refl

allocate_ip_address-FirstFree_example :
    (found : Option ℕ) × (allocate_ip_address
        (toy true true)
        toy_ip
        (codes "c")
        (codes "b")
        with_network
      ≡ (address_result toy_ip found, with_network))
    × FirstFree toy_ip info
        (toy_ip.hosts (record { network_address = 101; num_addresses = 16 }))
        found
allocate_ip_address-FirstFree_example =
    allocate_ip_address-FirstFree (toy true true) toy_ip (codes "c") (codes "b") with_network
      with_network info (record { network_address = 101; num_addresses = 16 }) read info-parsed

-- The first host has a lease, so the second is given.
second_host :
    (allocate_ip_address (toy true true) toy_ip (codes "c") (codes "b") with_network).0
    ≡ ok (103 ∷ [])
unfolding allocate_ip_address text_eq allocated_from put_address
second_host = refl

-- Where the leases cannot be read, the address of a lease is given.
abbrev without_leases : Outside ToyHost
without_leases = record (toy true true) { dhcp_leases = λ name h. (err libvirt_error, h) }

leased_given :
    (allocate_ip_address without_leases toy_ip (codes "c") (codes "b") with_network).0
    ≡ ok (102 ∷ [])
unfolding allocate_ip_address text_eq allocated_from put_address
leased_given = refl

-- A lookup that fails for another reason: the network is left, and its destruction is reported.
abbrev without_lookups : Outside ToyHost
without_lookups = record (toy true true) { lookup = λ name h. (err libvirt_error, h) }

network_kept : (destroy_cluster_network without_lookups (codes "c") with_network).0 ≡ ok true
unfolding destroy_cluster_network network_exists remove_host_dns_integration
network_kept = refl

allocate_ip_address-avoids_leases_example :
    (allocate_ip_address (toy true true) toy_ip (codes "c") (codes "b") with_network).0
    ≢ ok (102 ∷ [])
allocate_ip_address-avoids_leases_example =
    allocate_ip_address-avoids_leases (toy true true) toy_ip (codes "c") (codes "b") with_network
      with_network info (record { network_address = 101; num_addresses = 16 }) [] [] toy_lease
      (102 ∷ []) read info-parsed info-allocated refl tt
