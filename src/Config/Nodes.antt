-- ===== src/Config/Nodes.antt =====
-- python/ai_how/src/ai_how/utils/vm_utils.py (`has_gpu_passthrough`) and utils/vm_config_utils.py
-- (`AutoStartResolver`).
pub mod Laws
mod Tests
use ai_hyperscaler_on_workst.Common.{
  ℕ, zero, suc, ◌+◌, Option, none, some, List, [], ◌∷◌, Bool, true, false, Text, codes, text_eq,
  not, any, length, leb, get_elem?, if◌then◌else◌,
}
use ai_hyperscaler_on_workst.Config.{PcieDevice, PcieConfig, NodeConfig}

-- `d.get(key, default)`
abbrev pub or_default {ℓ} : {A : Type ℓ} → Option A → A → A
or_default none d = d
or_default (some a) d = a

-- `device.get("device_type") == "gpu"`
unfoldable pub is_gpu_device : PcieDevice → Bool
is_gpu_device device = elim device.device_type [ none ↦ false | some t ↦ text_eq t (codes "gpu") ]

abbrev pub no_pcie : PcieConfig
no_pcie = record { enabled = none; devices = none }

unfoldable pub has_gpu_passthrough : NodeConfig → Bool
has_gpu_passthrough config =
    let pcie_config = or_default config.pcie_passthrough no_pcie in
    if not (or_default pcie_config.enabled false)
    then false
    else any is_gpu_device (or_default pcie_config.devices [])

unfoldable pub check_single_vm_auto_start : NodeConfig → Bool
check_single_vm_auto_start vm_config = or_default vm_config.auto_start true

unfoldable pub should_auto_start_vm : ℕ → List NodeConfig → Bool
unfolding check_single_vm_auto_start
should_auto_start_vm vm_index config_list = elim (get_elem? config_list vm_index) [
  | none ↦ true
  | some vm_config ↦ check_single_vm_auto_start vm_config
]

-- The indices from `i` on whose entry has `auto_start: false`; the set is the list in order.
no_start_from : ℕ → List NodeConfig → List ℕ
no_start_from i [] = []
no_start_from i (cfg ∷ cfgs) =
    let rest = no_start_from (i + 1) cfgs in
    if or_default cfg.auto_start true then rest else i ∷ rest

unfoldable pub get_no_start_indices : List NodeConfig → List ℕ
unfolding no_start_from
get_no_start_indices config_list = no_start_from 0 config_list
