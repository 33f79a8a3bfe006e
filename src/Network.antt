-- ===== src/Network.antt =====
-- python/ai_how/src/ai_how/vm_management/network_manager.py: `NetworkManager`. An IPv4 address is its
-- number; `ipaddress` is used as a record of its conversions.
pub mod Validate
pub mod Plan
pub mod Outside
pub mod Dns
pub mod Lifecycle
pub mod Addresses
mod Toy
mod Tests
use ai_hyperscaler_on_workst.Common.{
  ℕ, ◌+◌, ◌-◌, ◌≤◌, ◌<◌, Option, none, some, List, [], ◌∷◌, ◌++◌, Bool, true, false, Text, codes,
  text_eq, ltb, leb, ◌==◌, ◌&&◌, ◌||◌, not, if◌then◌else◌, any,
}
use ai_hyperscaler_on_workst.Config.{NetworkSettings}

-- A block of addresses, with the host bits cleared.
pub record IpNetwork : Type 0 where
  pub network_address : ℕ
  pub num_addresses : ℕ

-- `IPv4Network(text, strict=False)`, `IPv4Address(text)`, `str` of an address and of a netmask, and
-- `network.hosts()`.
pub record Ip : Type 0 where
  pub parse_network : Text → Option IpNetwork
  pub parse_address : Text → Option ℕ
  pub show_address : ℕ → Text
  pub netmask : IpNetwork → Text
  pub hosts : IpNetwork → List ℕ
  -- `str(IPv4Interface(f"{address}/{netmask}").network)`
  pub interface_network : (address netmask : Text) → Option Text

abbrev pub broadcast_address : IpNetwork → ℕ
broadcast_address n = n.network_address + n.num_addresses - 1

-- `address in network`
abbrev pub is_in : ℕ → IpNetwork → Bool
is_in a n = leb n.network_address a && leb a (broadcast_address n)

-- `d.get(key) or other`: an empty text does not count.
abbrev pub nonempty : Option Text → Option Text
nonempty none = none
nonempty (some []) = none
nonempty (some (c ∷ t)) = some (c ∷ t)

abbrev pub get_or_else : Option Text → Text → Text
get_or_else none other = other
get_or_else (some t) other = t

-- `network_config.get("subnet") or network_config.get("network_range", "192.168.100.0/24")`
abbrev pub network_range_of : NetworkSettings → Text
network_range_of c =
    get_or_else (nonempty c.subnet) (get_or_else c.network_range (codes "192.168.100.0/24"))
