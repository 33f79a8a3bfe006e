-- ===== src/Gpu/Address/Laws.antt =====
-- Printing, recognising and finding PCI addresses.
use ai_hyperscaler_on_workst.Common.{
  ℕ, ◌/◌, ◌%◌, ◌<◌, ◌≤◌, ◌≡◌, ◌≢◌, refl, none, some, [], ◌∷◌, ◌++◌, true, false, Text, arith, inl,
  inr, Option-cases, ap, sym, ◌∙◌,
}
use ai_hyperscaler_on_workst.Common.Int.{ℤ, pos}
use ai_hyperscaler_on_workst.Common.Exec.{ok}
use ai_hyperscaler_on_workst.Gpu.Address.{
  is_hex, is_function_digit, is_address, match_prefix, extract_pci_address, is_valid_pci_address,
  hex_digit, magnitude, render, format_pci_address,
}

hex_digit-is_hex : (d : ℕ) → d < 16 → is_hex (hex_digit d) ≡ true
unfolding hex_digit is_hex
hex_digit-is_hex d h = ground arith

hex_digit-injective : (d e : ℕ) → d < 16 → e < 16 → hex_digit d ≡ hex_digit e → d ≡ e
unfolding hex_digit
hex_digit-injective d e hd he h = ground arith

record InBounds (domain bus device function : ℕ) : Type 0 where
  domain_bound : domain ≤ 0xFFFF
  bus_bound : bus ≤ 0xFF
  device_bound : device ≤ 0x1F
  function_bound : function ≤ 7

extract-cons :
    (c : ℕ) (s found : Text)
    → match_prefix (c ∷ s) ≡ some found
    → extract_pci_address (c ∷ s) ≡ some found
unfolding extract_pci_address
extract-cons c s found h = ground arith

module _ (domain bus device function : ℕ) (b : InBounds domain bus device function) where
  render-match :
      (rest : Text)
      → match_prefix (render domain bus device function ++ rest)
        ≡ some (render domain bus device function)
  unfolding match_prefix render is_address is_function_digit
  render-match rest = ground (
    arith,
    hex_digit-is_hex (domain / 4096),
    hex_digit-is_hex (domain / 256 % 16),
    hex_digit-is_hex (domain / 16 % 16),
    hex_digit-is_hex (domain % 16),
    hex_digit-is_hex (bus / 16),
    hex_digit-is_hex (bus % 16),
    hex_digit-is_hex (device / 16),
    hex_digit-is_hex (device % 16),
  )

  render-extract :
      (rest : Text)
      → extract_pci_address (render domain bus device function ++ rest)
        ≡ some (render domain bus device function)
  unfolding render
  render-extract rest = extract-cons _ _ _ (render-match rest)

  render-valid : is_valid_pci_address (render domain bus device function) ≡ true
  unfolding is_valid_pci_address is_address is_function_digit render
  render-valid = ground (
    arith,
    hex_digit-is_hex (domain / 4096),
    hex_digit-is_hex (domain / 256 % 16),
    hex_digit-is_hex (domain / 16 % 16),
    hex_digit-is_hex (domain % 16),
    hex_digit-is_hex (bus / 16),
    hex_digit-is_hex (bus % 16),
    hex_digit-is_hex (device / 16),
    hex_digit-is_hex (device % 16),
  )

record Printed (domain bus device function : ℤ) (a : Text) : Type 0 where
  d : ℕ
  b : ℕ
  v : ℕ
  f : ℕ
  domain_eq : domain ≡ pos d
  bus_eq : bus ≡ pos b
  device_eq : device ≡ pos v
  function_eq : function ≡ pos f
  bounds : InBounds d b v f
  text_eq : a ≡ render d b v f

format_pci_address-Printed :
    (domain bus device function : ℤ) (a : Text)
    → format_pci_address domain bus device function ≡ ok a
    → Printed domain bus device function a
unfolding format_pci_address magnitude
format_pci_address-Printed (pos d) (pos b) (pos v) (pos f) a h = record {
  d = d;
  b = b;
  v = v;
  f = f;
  domain_eq = refl;
  bus_eq = refl;
  device_eq = refl;
  function_eq = refl;
  bounds = ground arith;
  text_eq = ground arith;
}
format_pci_address-Printed domain bus device function a h = absurd (ground arith)

-- An address that is printed is recognised as valid, and is found again at the head of any text.
pub format_pci_address-round_trip :
    (domain bus device function : ℤ) (a rest : Text)
    → format_pci_address domain bus device function ≡ ok a
    → (is_valid_pci_address a ≡ true) × (extract_pci_address (a ++ rest) ≡ some a)
format_pci_address-round_trip domain bus device function a rest h =
    let p = format_pci_address-Printed domain bus device function a h in
    ground (
      arith,
      p.text_eq,
      render-valid p.d p.b p.v p.f p.bounds,
      render-extract p.d p.b p.v p.f p.bounds rest,
    )

match_prefix_sound :
    (s found : Text)
    → match_prefix s ≡ some found
    → (is_valid_pci_address found ≡ true) × ((post : Text) × (s ≡ found ++ post))
unfolding match_prefix is_valid_pci_address
match_prefix_sound (a ∷ b ∷ c ∷ d ∷ e ∷ f ∷ g ∷ h ∷ i ∷ j ∷ k ∷ l ∷ rest) found q =
    (ground arith, (rest, ground arith))
match_prefix_sound _ found q = absurd (ground arith)

-- What is found in a text is a valid address that stands in it.
pub extract_pci_address_sound :
    (s found : Text)
    → extract_pci_address s ≡ some found
    → (is_valid_pci_address found ≡ true)
      × ((pre : Text) × (post : Text) × (s ≡ pre ++ (found ++ post)))
unfolding extract_pci_address
extract_pci_address_sound [] found h = absurd (ground arith)
extract_pci_address_sound (c ∷ s) found h = elim (Option-cases (match_prefix (c ∷ s))) [
  | inl e ↦
      let (valid, place) = extract_pci_address_sound s found (ground arith) in
      (valid, (c ∷ place.0, place.1, ap (λ t. c ∷ t) place.2))
  | inr (m, e) ↦
      let (valid, place) = match_prefix_sound (c ∷ s) found (ground arith) in
      (valid, ([], place.0, place.1))
]

valid-match : (a post : Text) → is_valid_pci_address a ≡ true → match_prefix (a ++ post) ≡ some a
unfolding match_prefix is_valid_pci_address
valid-match (a ∷ b ∷ c ∷ d ∷ e ∷ f ∷ g ∷ h ∷ i ∷ j ∷ k ∷ l ∷ []) post valid = ground arith
valid-match _ post valid = absurd (ground arith)

not_valid_nil : is_valid_pci_address [] ≡ false
unfolding is_valid_pci_address
not_valid_nil = refl

render-injective :
    (d b v f d' b' v' f' : ℕ)
    → InBounds d b v f
    → InBounds d' b' v' f'
    → render d b v f ≡ render d' b' v' f'
    → (d ≡ d') × (b ≡ b') × (v ≡ v') × (f ≡ f')
unfolding render
render-injective d b v f d' b' v' f' hb hb' e = ground (
  arith,
  hex_digit-injective (d / 4096) (d' / 4096),
  hex_digit-injective (d / 256 % 16) (d' / 256 % 16),
  hex_digit-injective (d / 16 % 16) (d' / 16 % 16),
  hex_digit-injective (d % 16) (d' % 16),
  hex_digit-injective (b / 16) (b' / 16),
  hex_digit-injective (b % 16) (b' % 16),
  hex_digit-injective (v / 16) (v' / 16),
  hex_digit-injective (v % 16) (v' % 16),
)

-- A text with a valid address in it is never passed over.
pub extract_pci_address_complete :
    (pre a post : Text)
    → is_valid_pci_address a ≡ true
    → extract_pci_address (pre ++ (a ++ post)) ≢ none
unfolding extract_pci_address
extract_pci_address_complete [] [] post valid = λ e. ground (arith, not_valid_nil)
extract_pci_address_complete [] (c ∷ a) post valid =
    λ e. ground (arith, valid-match (c ∷ a) post valid)
extract_pci_address_complete (c ∷ pre) a post valid =
    λ e. ground (arith, extract_pci_address_complete pre a post valid)

-- Different devices have different addresses.
pub format_pci_address-injective :
    (domain bus device function domain' bus' device' function' : ℤ) (a : Text)
    → format_pci_address domain bus device function ≡ ok a
    → format_pci_address domain' bus' device' function' ≡ ok a
    → (domain ≡ domain') × (bus ≡ bus') × (device ≡ device') × (function ≡ function')
format_pci_address-injective domain bus device function domain' bus' device' function' a h h' =
    let p = format_pci_address-Printed domain bus device function a h in
    let q = format_pci_address-Printed domain' bus' device' function' a h' in
    let e =
      render-injective p.d p.b p.v p.f q.d q.b q.v q.f p.bounds q.bounds
        (sym p.text_eq ∙ q.text_eq) in
    (
      ground (arith, e, p.domain_eq, q.domain_eq),
      ground (arith, e, p.bus_eq, q.bus_eq),
      ground (arith, e, p.device_eq, q.device_eq),
      ground (arith, e, p.function_eq, q.function_eq),
    )
