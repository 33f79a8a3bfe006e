-- ===== src/Gpu/Address/Tests.antt =====
-- Runs of the address parser.
use ai_hyperscaler_on_workst.Common.{◌≡◌, ◌≢◌, refl, none, some, ◌++◌, true, Text, codes}
use ai_hyperscaler_on_workst.Common.Int.{pos}
use ai_hyperscaler_on_workst.Common.Exec.{ok}
use ai_hyperscaler_on_workst.Gpu.Address.{
  extract_pci_address, is_valid_pci_address, format_pci_address, running_parser,
}
use ai_hyperscaler_on_workst.Gpu.Address.Laws.{
  format_pci_address-round_trip, extract_pci_address_complete,
}

abbrev address : Text
address = codes "0000:0a:1f.7"

program : Unit {0}
unfolding running_parser
program = tt

printed : format_pci_address (pos 0) (pos 10) (pos 31) (pos 7) ≡ ok address
unfolding program
printed = refl

found : extract_pci_address (codes "gpu 0000:0a:1f.7 (RTX)") ≡ some address
unfolding program
found = refl

valid : is_valid_pci_address address ≡ true
unfolding program
valid = refl

format_pci_address-round_trip_example :
    (is_valid_pci_address address ≡ true)
    × (extract_pci_address (address ++ codes " (RTX)") ≡ some address)
format_pci_address-round_trip_example =
    format_pci_address-round_trip (pos 0) (pos 10) (pos 31) (pos 7) address (codes " (RTX)") printed

extract_pci_address_complete_example :
    extract_pci_address (codes "gpu " ++ (address ++ codes " (RTX)")) ≢ none
extract_pci_address_complete_example =
    extract_pci_address_complete (codes "gpu ") address (codes " (RTX)") valid
