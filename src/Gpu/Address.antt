-- ===== src/Gpu/Address.antt =====
-- python/ai_how/src/ai_how/utils/gpu_utils.py: `GPUAddressParser`. The regular expression
-- `[0-9a-fA-F]{4}:[0-9a-fA-F]{2}:[0-9a-fA-F]{2}\.[0-7]` has one match of twelve characters at most
-- at each position.
pub mod Laws
mod Tests
use ai_hyperscaler_on_workst.Common.{
  ℕ, ◌+◌, ◌/◌, ◌%◌, Option, none, some, [], ◌∷◌, ◌++◌, Bool, false, Text, leb, ltb, ◌==◌, ◌&&◌,
  ◌||◌, if◌then◌else◌, not, ◌-◌,
}
use ai_hyperscaler_on_workst.Common.Int.{ℤ, pos, negsuc, within}
use ai_hyperscaler_on_workst.Common.Exec.{Result, ok, err}

is_hex : ℕ → Bool
is_hex c = (leb b'0' c && leb c b'9') || (leb b'a' c && leb c b'f') || (leb b'A' c && leb c b'F')

is_function_digit : ℕ → Bool
is_function_digit c = leb b'0' c && leb c b'7'

-- The twelve characters form an address.
pub is_address : (a b c d e f g h i j k l : ℕ) → Bool
is_address a b c d e f g h i j k l =
    is_hex a
    && is_hex b
    && is_hex c
    && is_hex d
    && (e == b':')
    && is_hex f
    && is_hex g
    && (h == b':')
    && is_hex i
    && is_hex j
    && (k == b'.')
    && is_function_digit l

-- The pattern's match at the beginning of the text.
pub match_prefix : Text → Option Text
match_prefix (a ∷ b ∷ c ∷ d ∷ e ∷ f ∷ g ∷ h ∷ i ∷ j ∷ k ∷ l ∷ rest) =
    if is_address a b c d e f g h i j k l
    then some (a ∷ b ∷ c ∷ d ∷ e ∷ f ∷ g ∷ h ∷ i ∷ j ∷ k ∷ l ∷ [])
    else none
match_prefix _ = none

-- `PCI_ADDRESS_PATTERN.search`: the leftmost match.
pub extract_pci_address : Text → Option Text
extract_pci_address [] = none
extract_pci_address (c ∷ s) = elim (match_prefix (c ∷ s)) [
  | some found ↦ some found
  | none ↦ extract_pci_address s
]

-- `PCI_ADDRESS_PATTERN.fullmatch`
pub is_valid_pci_address : Text → Bool
is_valid_pci_address (a ∷ b ∷ c ∷ d ∷ e ∷ f ∷ g ∷ h ∷ i ∷ j ∷ k ∷ l ∷ []) =
    is_address a b c d e f g h i j k l
is_valid_pci_address _ = false

pub data InvalidPart : Type 0 where
  domain_part bus_part device_part function_part : InvalidPart

hex_digit : ℕ → ℕ
hex_digit d = if ltb d 10 then b'0' + d else b'a' + (d - 10)

pub magnitude : ℤ → ℕ
magnitude (pos n) = n
magnitude (negsuc n) = n + 1

-- The f-string `{domain:04x}:{bus:02x}:{device:02x}.{function}` at numbers within the bounds.
pub render : (domain bus device function : ℕ) → Text
render domain bus device function =
    hex_digit (domain / 4096)
    ∷ hex_digit (domain / 256 % 16)
    ∷ hex_digit (domain / 16 % 16)
    ∷ hex_digit (domain % 16)
    ∷ b':'
    ∷ hex_digit (bus / 16)
    ∷ hex_digit (bus % 16)
    ∷ b':'
    ∷ hex_digit (device / 16)
    ∷ hex_digit (device % 16)
    ∷ b'.'
    ∷ (b'0' + function)
    ∷ []

pub format_pci_address : (domain bus device function : ℤ) → Result InvalidPart Text
format_pci_address domain bus device function =
    if not (within domain 0xFFFF)
    then err domain_part
    else if not (within bus 0xFF)
    then err bus_part
    else if not (within device 0x1F)
    then err device_part
    else if not (within function 7)
    then err function_part
    else ok (render (magnitude domain) (magnitude bus) (magnitude device) (magnitude function))

-- Opens the parser, for runs.
unfoldable pub running_parser : Unit {0}
unfolding extract_pci_address is_valid_pci_address format_pci_address match_prefix is_address is_hex
    is_function_digit render magnitude hex_digit
running_parser = tt
