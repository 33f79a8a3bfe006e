-- ===== src/Config/Nodes/Tests.antt =====
-- A run of `AutoStartResolver`.
use ai_hyperscaler_on_workst.Common.{◌≡◌, none, some, [], ◌∷◌, false, not}
use ai_hyperscaler_on_workst.Config.{NodeConfig}
use ai_hyperscaler_on_workst.Config.Nodes.{should_auto_start_vm, get_no_start_indices}
use ai_hyperscaler_on_workst.Config.Nodes.Laws.{
  is_listed, get_no_start_indices-should_auto_start_vm,
}

abbrev node : NodeConfig
node = record {
  cpu_cores = none;
  memory_gb = none;
  disk_gb = none;
  ip_address = none;
  ip = none;
  auto_start = some false;
  pcie_passthrough = none;
}

get_no_start_indices-should_auto_start_vm_example :
    is_listed 0 (get_no_start_indices (node ∷ [])) ≡ not (should_auto_start_vm 0 (node ∷ []))
get_no_start_indices-should_auto_start_vm_example =
    get_no_start_indices-should_auto_start_vm 0 (node ∷ [])
