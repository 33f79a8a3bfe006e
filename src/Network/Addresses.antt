-- ===== src/Network/Addresses.antt =====
-- The addresses of VMs in the network of a cluster: `get_dhcp_leases`, `get_network_info` and the
-- methods that choose, release and list addresses.
use ai_hyperscaler_on_workst.Common.{
  ℕ, Option, none, some, List, [], ◌∷◌, Bool, true, false, Text, codes, text_eq, any, ◌&&◌, ◌||◌,
  not, if◌then◌else◌, find,
}
use ai_hyperscaler_on_workst.Common.Exec.{
  Exec, Result, ok, err, pure, raise, try_except, ◌>>=◌, ◌>>◌,
}
use ai_hyperscaler_on_workst.Problem.{Problem, network_error, Act, all_to, libvirt_to}
use ai_hyperscaler_on_workst.Network.{Ip, IpNetwork, get_or_else}
use ai_hyperscaler_on_workst.Network.Outside.{Outside, Description, IpElement, Lease}
use ai_hyperscaler_on_workst.Network.Lifecycle.{network_name, network_exists}
pub mod Free
pub mod Leases

-- `allocated_ips`: a lease always has both keys, with `None` where libvirt gives no value, so that
-- `None` is a key of the dictionary too.
abbrev pub Addresses : Type 0
Addresses = List (Option Text × Option Text)

abbrev pub same_key : Option Text → Option Text → Bool
same_key none none = true
same_key none (some b) = false
same_key (some a) none = false
same_key (some a) (some b) = text_eq a b

unfoldable pub put_address : Addresses → (hostname ip : Option Text) → Addresses
put_address [] hostname ip = (hostname, ip) ∷ []
put_address ((key, old) ∷ rest) hostname ip =
    if same_key key hostname then (key, ip) ∷ rest else (key, old) ∷ put_address rest hostname ip

unfoldable pub allocated_from : Addresses → List Lease → Addresses
allocated_from seen [] = seen
allocated_from seen (lease ∷ leases) =
    allocated_from (put_address seen lease.hostname lease.ip) leases

-- `ip_str in allocated_ips`, of the set of the values.
abbrev pub is_allocated : Addresses → Text → Bool
is_allocated addresses a =
    any (λ entry. elim entry.1 [ none ↦ false | some ip ↦ text_eq ip a ]) addresses

-- The addresses of the forwarders that have one.
pub forwarder_addresses : List (Option Text) → List Text
forwarder_addresses [] = []
forwarder_addresses (none ∷ rest) = forwarder_addresses rest
forwarder_addresses (some [] ∷ rest) = forwarder_addresses rest
forwarder_addresses (some (c ∷ t) ∷ rest) = (c ∷ t) ∷ forwarder_addresses rest

abbrev pub unknown : Text
unknown = codes "unknown"

-- The network of the `ip` element, or "unknown".
abbrev pub range_of : Ip → (gateway_ip netmask : Text) → Text
range_of ip gateway_ip netmask =
    if not (text_eq gateway_ip unknown) && not (text_eq netmask unknown)
    then get_or_else (ip.interface_network gateway_ip netmask) unknown
    else unknown

pub record NetworkInfo : Type 0 where
  pub name : Text
  pub bridge_name : Text
  pub network_range : Text
  pub gateway_ip : Text
  pub dhcp_start : Text
  pub dhcp_end : Text
  pub dns_servers : List Text
  pub is_active : Bool
  pub allocated_ips : Addresses
  pub uuid : Text

abbrev pub address_of : Option IpElement → Text
address_of none = unknown
address_of (some e) = e.address

abbrev pub netmask_of : Option IpElement → Text
netmask_of none = unknown
netmask_of (some e) = e.netmask

abbrev pub dhcp_range_of : Option IpElement → Text × Text
dhcp_range_of none = (unknown, unknown)
dhcp_range_of (some e) = elim e.range [ none ↦ (unknown, unknown) | some range ↦ range ]

unfoldable pub info_of :
    Ip → (name : Text) → (is_active : Bool) → Description → Addresses → NetworkInfo
unfolding forwarder_addresses
info_of ip name is_active d allocated_ips = record {
  name = name;
  bridge_name = get_or_else d.bridge unknown;
  network_range = range_of ip (address_of d.ip) (netmask_of d.ip);
  gateway_ip = address_of d.ip;
  dhcp_start = (dhcp_range_of d.ip).0;
  dhcp_end = (dhcp_range_of d.ip).1;
  dns_servers = forwarder_addresses d.forwarders;
  is_active = is_active;
  allocated_ips = allocated_ips;
  uuid = d.uuid;
}

-- `ip_str not in allocated_ips and ip_str != gateway_ip`
abbrev pub is_free : Ip → NetworkInfo → ℕ → Bool
is_free ip info a =
    not (is_allocated info.allocated_ips (ip.show_address a))
    && not (text_eq (ip.show_address a) info.gateway_ip)

-- The loop of `allocate_ip_address` over the hosts of the network.
unfoldable pub choose_address : Ip → NetworkInfo → Result Problem Text
choose_address ip info = elim (ip.parse_network info.network_range) [
  | none ↦ err network_error
  | some network ↦ elim (find (is_free ip info) (ip.hosts network)) [
    | none ↦ err network_error
    | some a ↦ ok (ip.show_address a)
  ]
]

module _ {Host : Type 0} (out : Outside Host) where
  open out use {connect, lookup, describe, dhcp_leases}

  unfoldable pub get_dhcp_leases : Text → Act Host (List Lease)
  unfolding network_exists
  get_dhcp_leases cluster_name =
      try_except
        (do
          present ← network_exists out (network_name cluster_name)
          if not present then raise network_error else (do
            connect
            lookup (network_name cluster_name)
            leases ← dhcp_leases (network_name cluster_name)
            pure (elim leases [ none ↦ [] | some found ↦ found ])))
        (libvirt_to network_error)

  -- The addresses of the leases; what `get_dhcp_leases` raises is swallowed.
  unfoldable pub addresses_in_use : Text → Act Host Addresses
  unfolding get_dhcp_leases
  addresses_in_use cluster_name =
      try_except (do leases ← get_dhcp_leases cluster_name; pure (allocated_from [] leases))
        (λ e. pure [])

  unfoldable pub get_network_info : Ip → Text → Act Host NetworkInfo
  unfolding network_exists addresses_in_use info_of
  get_network_info ip cluster_name =
      try_except
        (do
          present ← network_exists out (network_name cluster_name)
          if not present then raise network_error else (do
            connect
            lookup (network_name cluster_name)
            is_active ← out.is_active (network_name cluster_name)
            description ← describe (network_name cluster_name)
            allocated_ips ← addresses_in_use cluster_name
            pure (info_of ip (network_name cluster_name) is_active description allocated_ips)))
        (all_to network_error)

  unfoldable pub allocate_ip_address : Ip → (cluster_name vm_name : Text) → Act Host Text
  unfolding get_network_info choose_address
  allocate_ip_address ip cluster_name vm_name =
      try_except
        (do
          info ← get_network_info ip cluster_name
          elim (choose_address ip info) [ err e ↦ raise e | ok a ↦ pure a ])
        (all_to network_error)

  -- Nothing is recorded.
  pub release_ip_address : (cluster_name vm_name : Text) → Act Host Bool
  release_ip_address cluster_name vm_name = pure true

  unfoldable pub list_cluster_ips : Ip → Text → Act Host Addresses
  unfolding get_network_info
  list_cluster_ips ip cluster_name =
      try_except (do info ← get_network_info ip cluster_name; pure info.allocated_ips)
        (all_to network_error)
