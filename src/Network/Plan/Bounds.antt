-- ===== src/Network/Plan/Bounds.antt =====
-- The default addresses of a new network.
use ai_hyperscaler_on_workst.Common.{ℕ, ◌+◌, ◌-◌, ◌≤◌, ◌<◌, ◌≡◌, ◌↔◌, Text, codes, ◌++◌}
use ai_hyperscaler_on_workst.Common.Dict.{Dict}
use ai_hyperscaler_on_workst.Config.{NetworkSettings}
use ai_hyperscaler_on_workst.Network.{
  Ip, IpNetwork, broadcast_address, network_range_of, nonempty, get_or_else,
}
use ai_hyperscaler_on_workst.Network.Plan.{Plan, dns_servers_of}

-- The addresses that a plan gives, in the order of the network.
pub record IsLaidOut (ip : Ip) (network : IpNetwork) (plan : Plan) (gateway start last : ℕ)
    : Type 0 where
  pub gateway_shown : plan.gateway_ip ≡ ip.show_address gateway
  pub start_shown : plan.dhcp_start ≡ ip.show_address start
  pub last_shown : plan.dhcp_end ≡ ip.show_address last
  pub gateway_inside : network.network_address < gateway
  pub start_after : gateway < start
  pub last_inside : last < broadcast_address network
  pub range_nonempty : (start ≤ last) ↔ (12 ≤ network.num_addresses)

-- The plan with the default addresses.
abbrev default_plan :
    Ip
    → IpNetwork
    → (cluster_name : Text) → NetworkSettings
    → (static_leases vm_macs : Dict Text) → Plan
default_plan ip network cluster_name c static_leases vm_macs = record {
  cluster_name = cluster_name;
  bridge_name =
      get_or_else (nonempty c.bridge) (get_or_else c.bridge_name (codes "br-" ++ cluster_name));
  gateway_ip = ip.show_address (network.network_address + 1);
  netmask = ip.netmask network;
  dhcp_start = ip.show_address (network.network_address + 10);
  dhcp_end = ip.show_address (broadcast_address network - 1);
  dns_servers = dns_servers_of c;
  static_leases = static_leases;
  vm_macs = vm_macs;
  network_range = network_range_of c;
}
