-- ===== src/State/Codec/Cluster.antt =====
-- `to_dict` and `from_dict` of `ClusterState`.
use ai_hyperscaler_on_workst.Common.{
  ℕ, Option, none, some, List, [], ◌∷◌, Bool, Text, codes, text_eq, ◌||◌,
}
use ai_hyperscaler_on_workst.Common.Exec.{ok, err}
use ai_hyperscaler_on_workst.Common.Fallible.{◌>>=◌, ◌>>◌}
use ai_hyperscaler_on_workst.Models.{VmInfo, StoragePoolInfo, NetworkConfig, ClusterState}
use ai_hyperscaler_on_workst.State.Json.{
  Value, null, text, list, object, Values, end, item, Fields, no_entry, field, value_at, true_at,
}
use ai_hyperscaler_on_workst.State.Codec.{
  Formats, refused, Decoded, require, as_text, as_optional_text, check, optional_text, default_text,
}
use ai_hyperscaler_on_workst.State.Codec.Storage.{
  pool_to_dict, pool_from_dict, network_to_dict, network_from_dict,
}
use ai_hyperscaler_on_workst.State.Codec.Vms.{vm_to_dict, vm_from_dict, date_value}

-- The clusters that `from_dict` accepts.
unfoldable pub is_valid_type : Text → Bool
is_valid_type cluster_type =
    text_eq cluster_type (codes "hpc") || text_eq cluster_type (codes "cloud")

-- A network configuration under a key, if it is true as a condition.
abbrev pub as_network : Option Value → Decoded (Option NetworkConfig)
as_network none = ok none
as_network (some (object fields)) = do network ← network_from_dict fields; ok (some network)
as_network (some _) = err refused

abbrev pub optional_network : Option NetworkConfig → Value
optional_network none = null
optional_network (some n) = object (network_to_dict n)

module _ (f : Formats) where
  abbrev pub vm_values : List VmInfo → Values
  vm_values [] = end
  vm_values (vm ∷ vms) = item (object (vm_to_dict f vm)) (vm_values vms)

  abbrev pub optional_vm : Option VmInfo → Value
  optional_vm none = null
  optional_vm (some vm) = object (vm_to_dict f vm)

  abbrev pub optional_pool : Option StoragePoolInfo → Value
  optional_pool none = null
  optional_pool (some p) = object (pool_to_dict f p)

  unfoldable pub cluster_to_dict : ClusterState → Fields
  cluster_to_dict s = field (codes "cluster_name") (text s.cluster_name) (
      field (codes "cluster_type") (text s.cluster_type) (
        field (codes "controller") (optional_vm s.controller) (
          field (codes "compute_nodes") (list (vm_values s.compute_nodes)) (
            field (codes "worker_nodes") (list (vm_values s.worker_nodes)) (
              field (codes "network_config") (optional_network s.network_config) (
                field (codes "storage_pool") (optional_pool s.storage_pool) (
                  field (codes "config_file_path") (optional_text s.config_file_path) (
                    field (codes "state_file_version") (text s.state_file_version) (
                      field (codes "created_at") (date_value f s.created_at) (
                        field (codes "last_modified") (date_value f s.last_modified)
                          no_entry))))))))))

  module _ (now : ℕ) where
    abbrev pub vms_of : Values → Decoded (List VmInfo)
    vms_of end = ok []
    vms_of (item v vs) = do vm ← vm_from_dict f now v; vms ← vms_of vs; ok (vm ∷ vms)

    -- The parts of the document under keys that count only where they are true as a condition.
    abbrev pub as_controller : Option Value → Decoded (Option VmInfo)
    as_controller none = ok none
    as_controller (some (object fields)) = do vm ← vm_from_dict f now (object fields); ok (some vm)
    as_controller (some _) = err refused

    abbrev pub as_vms : Option Value → Decoded (List VmInfo)
    as_vms none = ok []
    as_vms (some (list vs)) = vms_of vs
    as_vms (some _) = err refused

    abbrev pub as_pool : Option Value → Decoded (Option StoragePoolInfo)
    as_pool none = ok none
    as_pool (some (object fields)) = do pool ← pool_from_dict f now fields; ok (some pool)
    as_pool (some _) = err refused

    abbrev pub as_time : Option Value → Decoded (Option ℕ)
    as_time none = ok (some now)
    as_time (some (text t)) = do time ← require (f.fromisoformat t); ok (some time)
    as_time (some _) = err refused

    unfoldable pub cluster_from_dict : Fields → Decoded ClusterState
    unfolding value_at true_at is_valid_type
    cluster_from_dict fields = do
      cluster_name ← as_text (value_at fields (codes "cluster_name"))
      cluster_type ← as_text (value_at fields (codes "cluster_type"))
      check (is_valid_type cluster_type)
      controller ← as_controller (true_at fields (codes "controller"))
      compute_nodes ← as_vms (true_at fields (codes "compute_nodes"))
      worker_nodes ← as_vms (true_at fields (codes "worker_nodes"))
      network_config ← as_network (true_at fields (codes "network_config"))
      storage_pool ← as_pool (true_at fields (codes "storage_pool"))
      created_at ← as_time (true_at fields (codes "created_at"))
      last_modified ← as_time (true_at fields (codes "last_modified"))
      config_file_path ← as_optional_text (value_at fields (codes "config_file_path"))
      state_file_version ← default_text (codes "2.0") (value_at fields (codes "state_file_version"))
      ok (record {
        cluster_name = cluster_name;
        cluster_type = cluster_type;
        controller = controller;
        compute_nodes = compute_nodes;
        worker_nodes = worker_nodes;
        network_config = network_config;
        storage_pool = storage_pool;
        config_file_path = config_file_path;
        state_file_version = state_file_version;
        created_at = created_at;
        last_modified = last_modified;
      })
