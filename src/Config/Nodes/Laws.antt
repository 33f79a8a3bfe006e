-- ===== src/Config/Nodes/Laws.antt =====
-- The two ways in which `AutoStartResolver` answers.
use ai_hyperscaler_on_workst.Common.{
  ℕ, zero, suc, ◌+◌, ◌≡◌, refl, List, [], ◌∷◌, Bool, false, not, any, ◌==◌, arith, ◌<◌,
}
use ai_hyperscaler_on_workst.Config.{NodeConfig}
use ai_hyperscaler_on_workst.Config.Nodes.{
  check_single_vm_auto_start, should_auto_start_vm, no_start_from, get_no_start_indices,
}

abbrev pub is_listed : ℕ → List ℕ → Bool
is_listed i indices = any (λ j. j == i) indices

before : (i k : ℕ) (cfgs : List NodeConfig) → i < k → is_listed i (no_start_from k cfgs) ≡ false
unfolding no_start_from
before i k [] h = refl
before i k (cfg ∷ cfgs) h = ground (arith, before i (k + 1) cfgs)

from :
    (k d : ℕ) (cfgs : List NodeConfig)
    → is_listed (k + d) (no_start_from k cfgs) ≡ not (should_auto_start_vm d cfgs)
unfolding no_start_from should_auto_start_vm check_single_vm_auto_start
from k d [] = refl
from k zero (cfg ∷ cfgs) = ground (arith, before k (k + 1) cfgs)
from k (suc d) (cfg ∷ cfgs) = ground (arith, from (k + 1) d cfgs)

-- An index is among the indices of `get_no_start_indices` exactly where `should_auto_start_vm` says
-- that the VM at that index is not started automatically; an index beyond the list is started.
pub get_no_start_indices-should_auto_start_vm :
    (vm_index : ℕ) (config_list : List NodeConfig)
    → is_listed vm_index (get_no_start_indices config_list)
      ≡ not (should_auto_start_vm vm_index config_list)
unfolding get_no_start_indices
get_no_start_indices-should_auto_start_vm vm_index config_list =
    ground (arith, from 0 vm_index config_list)
