-- ===== src/Network/Plan.antt =====
-- The parameters of a new network: the first half of `create_cluster_network`, and the DNS servers that
-- `configure_dns_mode` chooses.
use ai_hyperscaler_on_workst.Common.{
  ℕ, ◌+◌, ◌-◌, ◌^◌, Option, none, some, List, [], ◌∷◌, ◌++◌, Bool, true, false, Text, codes,
  text_eq, ltb, ◌==◌, ◌||◌, if◌then◌else◌,
}
use ai_hyperscaler_on_workst.Common.Dict.{Dict}
use ai_hyperscaler_on_workst.Common.Exec.{Result, ok, err}
use ai_hyperscaler_on_workst.Common.Fallible.{◌>>=◌, ◌>>◌}
use ai_hyperscaler_on_workst.Config.{NetworkSettings}
use ai_hyperscaler_on_workst.Problem.{Problem, network_error}
use ai_hyperscaler_on_workst.Network.{
  Ip, IpNetwork, broadcast_address, nonempty, get_or_else, network_range_of,
}
pub mod Bounds

-- The variables of the template.
pub record Plan : Type 0 where
  pub cluster_name : Text
  pub bridge_name : Text
  pub gateway_ip : Text
  pub netmask : Text
  pub dhcp_start : Text
  pub dhcp_end : Text
  pub dns_servers : List Text
  pub static_leases : Dict Text
  pub vm_macs : Dict Text
  pub network_range : Text

abbrev pub libvirt_bridge_ip : Text
libvirt_bridge_ip = codes "192.168.122.1"

-- `text.split(":")[0]`
unfoldable pub before_colon : Text → Text
before_colon [] = []
before_colon (c ∷ s) = let rest = before_colon s in if c == b':' then [] else c ∷ rest

unfoldable pub dns_servers_of : NetworkSettings → List Text
unfolding before_colon
dns_servers_of c =
    let dns_mode = get_or_else c.dns_mode (codes "isolated") in
    let gateway_ip = get_or_else c.gateway_ip (codes "192.168.100.1") in
    let configured : List Text = elim c.dns_servers [
      | none ↦ gateway_ip ∷ codes "8.8.8.8" ∷ codes "1.1.1.1" ∷ []
      | some servers ↦ servers
    ] in
    if text_eq dns_mode (codes "isolated")
    then configured
    else if text_eq dns_mode (codes "shared_dns") || text_eq dns_mode (codes "routed")
    then gateway_ip ∷ libvirt_bridge_ip ∷ []
    else if text_eq dns_mode (codes "service_discovery")
    then gateway_ip ∷ before_colon (get_or_else c.address (libvirt_bridge_ip ++ codes ":8600")) ∷ []
    else configured

-- `address + n` and `address - 1`, which raise outside the 32 bits.
unfoldable pub address_plus : ℕ → ℕ → Result Problem ℕ
address_plus a n = if ltb (a + n) (2 ^ 32) then ok (a + n) else err network_error

unfoldable pub address_minus_one : ℕ → Result Problem ℕ
address_minus_one a = if a == 0 then err network_error else ok (a - 1)

module _ (ip : Ip) where
  -- The defaults are computed whether or not they are used.
  unfoldable pub plan_network :
      (cluster_name : Text)
      → NetworkSettings
      → (static_leases vm_macs : Dict Text) → Result Problem Plan
  unfolding address_plus address_minus_one
  plan_network cluster_name c static_leases vm_macs = elim (ip.parse_network (network_range_of c)) [
    | none ↦ err network_error
    | some network ↦ do
      first ← address_plus network.network_address 1
      start ← address_plus network.network_address 10
      last ← address_minus_one (broadcast_address network)
      ok (record {
        cluster_name = cluster_name;
        bridge_name =
            get_or_else (nonempty c.bridge)
              (get_or_else c.bridge_name (codes "br-" ++ cluster_name));
        gateway_ip = get_or_else c.gateway_ip (ip.show_address first);
        netmask = ip.netmask network;
        dhcp_start = get_or_else c.dhcp_start (ip.show_address start);
        dhcp_end = get_or_else c.dhcp_end (ip.show_address last);
        dns_servers = dns_servers_of c;
        static_leases = static_leases;
        vm_macs = vm_macs;
        network_range = network_range_of c;
      })
  ]
