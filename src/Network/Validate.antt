-- ===== src/Network/Validate.antt =====
-- `NetworkManager.validate_network_config`.
use ai_hyperscaler_on_workst.Common.{
  ℕ, Option, none, some, List, [], ◌∷◌, Bool, true, false, Text, codes, ltb, leb, ◌==◌, ◌&&◌, ◌||◌,
  not, if◌then◌else◌, is_some,
}
use ai_hyperscaler_on_workst.Common.Exec.{Result, ok, err}
use ai_hyperscaler_on_workst.Common.Fallible.{◌>>=◌, ◌>>◌}
use ai_hyperscaler_on_workst.Config.{NetworkSettings}
use ai_hyperscaler_on_workst.Problem.{Problem, network_error}
use ai_hyperscaler_on_workst.Network.{Ip, IpNetwork, nonempty, get_or_else, network_range_of, is_in}
pub mod Exact

-- `[a-zA-Z0-9._-]`
unfoldable pub is_bridge_char : ℕ → Bool
is_bridge_char c =
    (leb b'a' c && leb c b'z')
    || (leb b'A' c && leb c b'Z')
    || (leb b'0' c && leb c b'9')
    || (c == b'.')
    || (c == b'_')
    || (c == b'-')

-- `re.match(r"^[a-zA-Z0-9._-]+$", name)` after at least one character: `$` also stands before a
-- newline at the end.
unfoldable pub rest_matches : Text → Bool
rest_matches [] = true
rest_matches (c ∷ s) =
    let rest = rest_matches s in
    if is_bridge_char c then rest else (c == 10) && elim s [ [] ↦ true | _ ∷ _ ↦ false ]

pub bridge_matches : Text → Bool
bridge_matches [] = false
bridge_matches (c ∷ s) = is_bridge_char c && rest_matches s

abbrev pub check : Bool → Result Problem Unit
check true = ok tt
check false = err network_error

abbrev pub bridge_of : NetworkSettings → Text
bridge_of c = get_or_else (nonempty c.bridge) (get_or_else c.bridge_name [])

abbrev pub valid_bridge : Text → Bool
valid_bridge [] = true
valid_bridge (c ∷ s) = bridge_matches (c ∷ s)

module _ (ip : Ip) where
  abbrev pub is_address : Text → Bool
  is_address t = is_some (ip.parse_address t)

  -- A value that is missing or empty is not looked at.
  abbrev pub optional_address : Option Text → Bool
  optional_address v = elim (nonempty v) [ none ↦ true | some t ↦ is_address t ]

  pub all_addresses : List Text → Bool
  all_addresses [] = true
  all_addresses (t ∷ ts) = let rest = all_addresses ts in is_address t && rest

  abbrev pub optional_addresses : Option (List Text) → Bool
  optional_addresses none = true
  optional_addresses (some ts) = all_addresses ts

  abbrev pub gateway_in : IpNetwork → Option Text → Bool
  gateway_in network v = elim (nonempty v) [
    | none ↦ true
    | some t ↦ elim (ip.parse_address t) [ none ↦ false | some a ↦ is_in a network ]
  ]

  unfoldable pub validate_network_config : NetworkSettings → Result Problem Bool
  unfolding bridge_matches
  validate_network_config c = elim (ip.parse_network (network_range_of c)) [
    | none ↦ err network_error
    | some network ↦ do
      check (valid_bridge (bridge_of c))
      check (optional_address c.gateway_ip)
      check (optional_address c.dhcp_start)
      check (optional_address c.dhcp_end)
      check (optional_addresses c.dns_servers)
      check (gateway_in network c.gateway_ip)
      ok true
  ]
