-- ===== src/Network/Validate/Exact.antt =====
-- `validate_network_config` against a description of the configurations that it accepts.
use ai_hyperscaler_on_workst.Common.{
  ℕ, ◌≤◌, ◌≡◌, ◌⊎◌, ◌↔◌, inl, inr, arith, Option, none, some, List, [], ◌∷◌, Bool, true, Text,
  Bool-cases, if◌then◌else◌, ◌&&◌, Option-cases, All,
}
use ai_hyperscaler_on_workst.Common.Exec.{ok, err}
use ai_hyperscaler_on_workst.Config.{NetworkSettings}
use ai_hyperscaler_on_workst.Problem.{network_error}
use ai_hyperscaler_on_workst.Network.{Ip, IpNetwork, broadcast_address, network_range_of}
use ai_hyperscaler_on_workst.Network.Validate.{
  is_bridge_char, rest_matches, bridge_matches, is_address, optional_address, all_addresses,
  optional_addresses, gateway_in, bridge_of, valid_bridge, validate_network_config,
}

-- A letter, a digit, a dot, an underscore or a dash.
abbrev IsBridgeChar : ℕ → Type 0
IsBridgeChar c =
    ((b'a' ≤ c) × (c ≤ b'z'))
    ⊎ ((b'A' ≤ c) × (c ≤ b'Z'))
    ⊎ ((b'0' ≤ c) × (c ≤ b'9'))
    ⊎ (c ≡ b'.')
    ⊎ (c ≡ b'_')
    ⊎ (c ≡ b'-')

-- Such characters, after which one newline may follow.
abbrev BridgeRest : Text → Type 0
BridgeRest [] = Unit
BridgeRest (c ∷ s) = (IsBridgeChar c × BridgeRest s) ⊎ ((c ≡ 10) × (s ≡ []))

abbrev IsBridgeName : Text → Type 0
IsBridgeName [] = Unit
IsBridgeName (c ∷ s) = IsBridgeChar c × BridgeRest s

is_bridge_char_iff : (c : ℕ) → (is_bridge_char c ≡ true) ↔ IsBridgeChar c
unfolding is_bridge_char
is_bridge_char_iff c = ground arith

rest_matches_iff : (s : Text) → (rest_matches s ≡ true) ↔ BridgeRest s
unfolding rest_matches
rest_matches_iff [] = ground arith
rest_matches_iff (c ∷ []) = ground (arith, is_bridge_char_iff c)
rest_matches_iff (c ∷ d ∷ s) = ground (arith, is_bridge_char_iff c, rest_matches_iff (d ∷ s))

valid_bridge_iff : (s : Text) → (valid_bridge s ≡ true) ↔ IsBridgeName s
unfolding bridge_matches
valid_bridge_iff [] = ground arith
valid_bridge_iff (c ∷ s) = ground (arith, is_bridge_char_iff c, rest_matches_iff s)

module _ (ip : Ip) where
  abbrev IsAddress : Text → Type 0
  IsAddress t = (a : ℕ) × (ip.parse_address t ≡ some a)

  -- A value that is missing or empty is not looked at.
  abbrev IsOptionalAddress : Option Text → Type 0
  IsOptionalAddress none = Unit
  IsOptionalAddress (some []) = Unit
  IsOptionalAddress (some (c ∷ t)) = IsAddress (c ∷ t)

  abbrev AreOptionalAddresses : Option (List Text) → Type 0
  AreOptionalAddresses none = Unit
  AreOptionalAddresses (some ts) = All IsAddress ts

  abbrev IsGatewayIn : IpNetwork → Option Text → Type 0
  IsGatewayIn network none = Unit
  IsGatewayIn network (some []) = Unit
  IsGatewayIn network (some (c ∷ t)) =
      (a : ℕ) × (ip.parse_address (c ∷ t) ≡ some a)
      × (network.network_address ≤ a)
      × (a ≤ broadcast_address network)

  is_address_iff : (t : Text) → (is_address ip t ≡ true) ↔ IsAddress t
  is_address_iff t = elim (Option-cases (ip.parse_address t)) [
    | inl missing ↦ (λ h. ground arith, λ (a, e). ground arith)
    | inr (a, found) ↦ (λ h. (a, found), λ h. ground arith)
  ]

  optional_address_iff : (v : Option Text) → (optional_address ip v ≡ true) ↔ IsOptionalAddress v
  optional_address_iff none = ground arith
  optional_address_iff (some []) = ground arith
  optional_address_iff (some (c ∷ t)) = is_address_iff (c ∷ t)

  all_addresses_iff : (ts : List Text) → (all_addresses ip ts ≡ true) ↔ All IsAddress ts
  unfolding all_addresses
  all_addresses_iff [] = ground arith
  all_addresses_iff (t ∷ ts) = (
    λ h. ((is_address_iff t).0 (ground arith), (all_addresses_iff ts).0 (ground arith)),
    λ h. ground (arith, (is_address_iff t).1 h.0, (all_addresses_iff ts).1 h.1),
  )

  optional_addresses_iff :
      (v : Option (List Text)) → (optional_addresses ip v ≡ true) ↔ AreOptionalAddresses v
  optional_addresses_iff none = ground arith
  optional_addresses_iff (some ts) = all_addresses_iff ts

  gateway_in_iff :
      (network : IpNetwork) (v : Option Text)
      → (gateway_in ip network v ≡ true) ↔ IsGatewayIn network v
  gateway_in_iff network none = ground arith
  gateway_in_iff network (some []) = ground arith
  gateway_in_iff network (some (c ∷ t)) = elim (Option-cases (ip.parse_address (c ∷ t))) [
    | inl missing ↦ (λ h. ground arith, λ h. ground (arith, h.1))
    | inr (a, found) ↦
        (λ h. (a, found, ground arith, ground arith), λ (b, e, low, high). ground arith)
  ]

  -- What the method accepts; the Boolean tests in the same order.
  abbrev IsAccepted : NetworkSettings → IpNetwork → Type 0
  IsAccepted c network =
      IsBridgeName (bridge_of c)
      × IsOptionalAddress c.gateway_ip
      × IsOptionalAddress c.dhcp_start
      × IsOptionalAddress c.dhcp_end
      × AreOptionalAddresses c.dns_servers
      × IsGatewayIn network c.gateway_ip

  abbrev passes : NetworkSettings → IpNetwork → Bool
  passes c network =
      valid_bridge (bridge_of c)
      && optional_address ip c.gateway_ip
      && optional_address ip c.dhcp_start
      && optional_address ip c.dhcp_end
      && optional_addresses ip c.dns_servers
      && gateway_in ip network c.gateway_ip

  passes-IsAccepted :
      (c : NetworkSettings) (network : IpNetwork) → passes c network ≡ true → IsAccepted c network
  passes-IsAccepted c network h = (
    (valid_bridge_iff (bridge_of c)).0 (ground arith),
    (optional_address_iff c.gateway_ip).0 (ground arith),
    (optional_address_iff c.dhcp_start).0 (ground arith),
    (optional_address_iff c.dhcp_end).0 (ground arith),
    (optional_addresses_iff c.dns_servers).0 (ground arith),
    (gateway_in_iff network c.gateway_ip).0 (ground arith),
  )

  IsAccepted-passes :
      (c : NetworkSettings) (network : IpNetwork) → IsAccepted c network → passes c network ≡ true
  IsAccepted-passes c network h = ground (
    arith,
    (valid_bridge_iff (bridge_of c)).1 h.0,
    (optional_address_iff c.gateway_ip).1 h.1,
    (optional_address_iff c.dhcp_start).1 h.2,
    (optional_address_iff c.dhcp_end).1 h.3,
    (optional_addresses_iff c.dns_servers).1 h.4,
    (gateway_in_iff network c.gateway_ip).1 h.5,
  )

  validate-passes :
      (c : NetworkSettings) (network : IpNetwork)
      → ip.parse_network (network_range_of c) ≡ some network
      → validate_network_config ip c ≡ (if passes c network then ok true else err network_error)
  unfolding validate_network_config
  validate-passes c network parsed = ground arith

  -- The configuration names a network, and is accepted for it.
  abbrev pub Accepts : NetworkSettings → Type 0
  Accepts c =
      (network : IpNetwork) × (ip.parse_network (network_range_of c) ≡ some network)
      × IsAccepted c network

  decided :
      (c : NetworkSettings) (network : IpNetwork)
      → ip.parse_network (network_range_of c) ≡ some network
      → (Accepts c × (validate_network_config ip c ≡ ok true))
        ⊎ ((¬ Accepts c) × (validate_network_config ip c ≡ err network_error))
  decided c network parsed = elim (Bool-cases (passes c network)) [
    | inl pass ↦ inl (
      (network, parsed, passes-IsAccepted c network pass),
      ground (arith, validate-passes c network),
    )
    | inr fail ↦ inr (
      λ (other, same, accepted).
          let equal : other ≡ network = ground arith in
          ground (arith, IsAccepted-passes c network (rw (← equal) accepted)),
      ground (arith, validate-passes c network),
    )
  ]

  unparsed :
      (c : NetworkSettings)
      → ip.parse_network (network_range_of c) ≡ none
      → validate_network_config ip c ≡ err network_error
  unfolding validate_network_config
  unparsed c missing = ground arith

-- `validate_network_config` returns `True` exactly for the configurations whose range is a network,
-- whose bridge is absent or of letters, digits, dots, underscores and dashes with one newline
-- allowed at the end, whose addresses, where present and not empty, are IPv4 addresses, and whose
-- gateway lies between the first and the last address of the network; for every other configuration
-- it raises `NetworkManagerError`.
pub validate_network_config-Accepts :
    (ip : Ip) (c : NetworkSettings)
    → (Accepts ip c × (validate_network_config ip c ≡ ok true))
      ⊎ ((¬ Accepts ip c) × (validate_network_config ip c ≡ err network_error))
validate_network_config-Accepts ip c = elim (Option-cases (ip.parse_network (network_range_of c))) [
  | inl missing ↦ inr (λ (network, parsed, accepted). ground arith, unparsed ip c missing)
  | inr (network, parsed) ↦ decided ip c network parsed
]
