-- ===== src/State/Codec/Vms.antt =====
-- `to_dict` and `from_dict` of `VMInfo`.
use ai_hyperscaler_on_workst.Common.{
  ℕ, Option, none, some, [], ◌∷◌, true, false, Text, codes, if◌then◌else◌, is_some,
}
use ai_hyperscaler_on_workst.Common.Int.{pos}
use ai_hyperscaler_on_workst.Common.Exec.{ok, err}
use ai_hyperscaler_on_workst.Common.Fallible.{◌>>=◌, ◌>>◌}
use ai_hyperscaler_on_workst.Models.{VmState, VmInfo}
use ai_hyperscaler_on_workst.State.Json.{
  Value, null, boolean, integer, text, object, Fields, no_entry, field, value_at, without,
  only_keys,
}
use ai_hyperscaler_on_workst.State.Codec.{
  Formats, refused, Decoded, require, state_value, state_among, vm_states, as_text,
  as_optional_text, as_natural, check, optional_text, default_text,
}

-- `data["volume_path"] = data.pop("disk_path")` for documents of an older version.
unfoldable pub rename_disk_path : Fields → Fields
unfolding value_at without
rename_disk_path fields = elim (value_at fields (codes "disk_path")) [
  | none ↦ fields
  | some path ↦
      if is_some (value_at fields (codes "volume_path"))
      then fields
      else field (codes "volume_path") path (without fields (codes "disk_path"))
]

-- A Boolean stood for "a GPU" in an older version.
abbrev pub as_gpu : Option Value → Decoded (Option Text)
as_gpu (some (boolean true)) = ok (some (codes "GPU"))
as_gpu (some (boolean false)) = ok none
as_gpu v = as_optional_text v

abbrev pub as_state : Option Value → Decoded VmState
as_state (some (text t)) = require (state_among vm_states t)
as_state _ = err refused

module _ (f : Formats) where
  abbrev pub date_value : Option ℕ → Value
  date_value none = null
  date_value (some t) = text (f.isoformat t)

  unfoldable pub vm_to_dict : VmInfo → Fields
  unfolding state_value
  vm_to_dict v = field (codes "name") (text v.name) (
      field (codes "domain_uuid") (text v.domain_uuid) (
        field (codes "state") (text (state_value v.state)) (
          field (codes "cpu_cores") (integer (pos v.cpu_cores)) (
            field (codes "memory_gb") (integer (pos v.memory_gb)) (
              field (codes "volume_path") (text v.volume_path) (
                field (codes "vm_type") (text v.vm_type) (
                  field (codes "ip_address") (optional_text v.ip_address) (
                    field (codes "gpu_assigned") (optional_text v.gpu_assigned) (
                      field (codes "created_at") (date_value v.created_at) (
                        field (codes "last_modified") (date_value v.last_modified)
                          no_entry))))))))))

  -- `Path(data["volume_path"])`
  abbrev pub as_path : Option Value → Decoded Text
  as_path (some (text t)) = ok (f.path_text t)
  as_path _ = err refused

  -- A timestamp that `__post_init__` sets where it is missing or null. An empty text stays as it is.
  abbrev pub as_timestamp : (now : ℕ) → Option Value → Decoded (Option ℕ)
  as_timestamp now none = ok (some now)
  as_timestamp now (some null) = ok (some now)
  as_timestamp now (some (text [])) = err refused
  as_timestamp now (some (text (c ∷ t))) = do
    time ← require (f.fromisoformat (c ∷ t))
    ok (some time)
  as_timestamp now (some _) = err refused

  -- The code after the two conversions of older versions.
  unfoldable pub vm_of_fields : (now : ℕ) → Fields → Decoded VmInfo
  unfolding value_at only_keys state_among
  vm_of_fields now fields = do
    check (
        only_keys
          (codes "name"
            ∷ codes "domain_uuid"
            ∷ codes "state"
            ∷ codes "cpu_cores"
            ∷ codes "memory_gb"
            ∷ codes "volume_path"
            ∷ codes "vm_type"
            ∷ codes "ip_address"
            ∷ codes "gpu_assigned"
            ∷ codes "created_at"
            ∷ codes "last_modified"
            ∷ [])
          fields)
    name ← as_text (value_at fields (codes "name"))
    domain_uuid ← as_text (value_at fields (codes "domain_uuid"))
    cpu_cores ← as_natural (value_at fields (codes "cpu_cores"))
    memory_gb ← as_natural (value_at fields (codes "memory_gb"))
    volume_path ← as_path (value_at fields (codes "volume_path"))
    created_at ← as_timestamp now (value_at fields (codes "created_at"))
    last_modified ← as_timestamp now (value_at fields (codes "last_modified"))
    state ← as_state (value_at fields (codes "state"))
    vm_type ← default_text (codes "compute") (value_at fields (codes "vm_type"))
    ip_address ← as_optional_text (value_at fields (codes "ip_address"))
    gpu_assigned ← as_gpu (value_at fields (codes "gpu_assigned"))
    ok (record {
      name = name;
      domain_uuid = domain_uuid;
      state = state;
      cpu_cores = cpu_cores;
      memory_gb = memory_gb;
      volume_path = volume_path;
      vm_type = vm_type;
      ip_address = ip_address;
      gpu_assigned = gpu_assigned;
      created_at = created_at;
      last_modified = last_modified;
    })

  unfoldable pub vm_from_dict : (now : ℕ) → Value → Decoded VmInfo
  unfolding rename_disk_path vm_of_fields
  vm_from_dict now (object fields) = vm_of_fields now (rename_disk_path fields)
  vm_from_dict now _ = err refused
