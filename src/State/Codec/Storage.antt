-- ===== src/State/Codec/Storage.antt =====
-- `to_dict` and `from_dict` of `VolumeInfo`, `StoragePoolInfo` and `NetworkConfig`.
use ai_hyperscaler_on_workst.Common.{ℕ, Option, none, some, List, [], ◌∷◌, Text, codes}
use ai_hyperscaler_on_workst.Common.Exec.{ok, err}
use ai_hyperscaler_on_workst.Common.Fallible.{◌>>=◌, ◌>>◌}
use ai_hyperscaler_on_workst.Models.{VolumeInfo, StoragePoolInfo, NetworkConfig}
use ai_hyperscaler_on_workst.State.Json.{
  Value, float, text, list, object, Values, end, item, Fields, no_entry, field, value_at, only_keys,
}
use ai_hyperscaler_on_workst.State.Codec.{
  Formats, refused, Decoded, require, as_text, as_optional_text, as_float, texts_of, leases_of,
  check, optional_text, texts, leases, default_text,
}

module _ (f : Formats) where
  unfoldable pub volume_to_dict : VolumeInfo → Fields
  volume_to_dict v = field (codes "name") (text v.name) (
      field (codes "path") (text v.path) (
        field (codes "size_gb") (float v.size_gb) (
          field (codes "allocated_gb") (float v.allocated_gb) (
            field (codes "format") (text v.format) (
              field (codes "created_at") (text (f.isoformat v.created_at))
                (field (codes "backing_file") (optional_text v.backing_file) no_entry))))))

  -- A timestamp in ISO format.
  abbrev pub as_date : Option Value → Decoded ℕ
  as_date (some (text t)) = require (f.fromisoformat t)
  as_date _ = err refused

  unfoldable pub volume_from_dict : Value → Decoded VolumeInfo
  unfolding value_at only_keys
  volume_from_dict (object fields) = do
    check (
        only_keys
          (codes "name"
            ∷ codes "path"
            ∷ codes "size_gb"
            ∷ codes "allocated_gb"
            ∷ codes "format"
            ∷ codes "created_at"
            ∷ codes "backing_file"
            ∷ [])
          fields)
    name ← as_text (value_at fields (codes "name"))
    path ← as_text (value_at fields (codes "path"))
    size_gb ← as_float (value_at fields (codes "size_gb"))
    allocated_gb ← as_float (value_at fields (codes "allocated_gb"))
    format ← as_text (value_at fields (codes "format"))
    created_at ← as_date (value_at fields (codes "created_at"))
    backing_file ← as_optional_text (value_at fields (codes "backing_file"))
    ok (record {
      name = name;
      path = path;
      size_gb = size_gb;
      allocated_gb = allocated_gb;
      format = format;
      created_at = created_at;
      backing_file = backing_file;
    })
  volume_from_dict _ = err refused

  abbrev pub volume_values : List VolumeInfo → Values
  volume_values [] = end
  volume_values (v ∷ vs) = item (object (volume_to_dict v)) (volume_values vs)

  abbrev pub volumes_of : Values → Decoded (List VolumeInfo)
  volumes_of end = ok []
  volumes_of (item v vs) = do
    volume ← volume_from_dict v
    volumes ← volumes_of vs
    ok (volume ∷ volumes)

  unfoldable pub pool_to_dict : StoragePoolInfo → Fields
  pool_to_dict p = field (codes "name") (text p.name) (
      field (codes "path") (text p.path) (
        field (codes "type") (text p.type) (
          field (codes "capacity_gb") (float p.capacity_gb) (
            field (codes "allocation_gb") (float p.allocation_gb) (
              field (codes "available_gb") (float p.available_gb) (
                field (codes "volumes") (list (volume_values p.volumes)) (
                  field (codes "created_at") (text (f.isoformat p.created_at))
                    (field (codes "uuid") (optional_text p.uuid) no_entry))))))))

  -- The volumes under a key that may be missing.
  abbrev pub as_volumes : Option Value → Decoded (List VolumeInfo)
  as_volumes none = ok []
  as_volumes (some (list vs)) = volumes_of vs
  as_volumes _ = err refused

  -- A timestamp that is the present where the key is missing.
  abbrev pub as_date_or : ℕ → Option Value → Decoded ℕ
  as_date_or now none = ok now
  as_date_or now v = as_date v

  unfoldable pub pool_from_dict : (now : ℕ) → Fields → Decoded StoragePoolInfo
  unfolding value_at only_keys
  pool_from_dict now fields = do
    check (
        only_keys
          (codes "name"
            ∷ codes "path"
            ∷ codes "type"
            ∷ codes "capacity_gb"
            ∷ codes "allocation_gb"
            ∷ codes "available_gb"
            ∷ codes "volumes"
            ∷ codes "created_at"
            ∷ codes "uuid"
            ∷ [])
          fields)
    name ← as_text (value_at fields (codes "name"))
    path ← as_text (value_at fields (codes "path"))
    type ← as_text (value_at fields (codes "type"))
    capacity_gb ← as_float (value_at fields (codes "capacity_gb"))
    allocation_gb ← as_float (value_at fields (codes "allocation_gb"))
    available_gb ← as_float (value_at fields (codes "available_gb"))
    volumes ← as_volumes (value_at fields (codes "volumes"))
    created_at ← as_date_or now (value_at fields (codes "created_at"))
    uuid ← as_optional_text (value_at fields (codes "uuid"))
    ok (record {
      name = name;
      path = path;
      type = type;
      capacity_gb = capacity_gb;
      allocation_gb = allocation_gb;
      available_gb = available_gb;
      volumes = volumes;
      created_at = created_at;
      uuid = uuid;
    })

unfoldable pub network_to_dict : NetworkConfig → Fields
network_to_dict n = field (codes "subnet") (text n.subnet) (
    field (codes "bridge") (text n.bridge) (
      field (codes "dns_mode") (text n.dns_mode) (
        field (codes "dns_servers") (list (texts n.dns_servers))
          (field (codes "static_leases") (object (leases n.static_leases)) no_entry))))

-- The fields that have a default.
abbrev pub as_servers : Option Value → Decoded (List Text)
as_servers none = ok (codes "8.8.8.8" ∷ codes "1.1.1.1" ∷ [])
as_servers (some (list vs)) = texts_of vs
as_servers _ = err refused

abbrev pub as_leases : Option Value → Decoded (List (Text × Text))
as_leases none = ok []
as_leases (some (object fields)) = leases_of fields
as_leases _ = err refused

unfoldable pub network_from_dict : Fields → Decoded NetworkConfig
unfolding value_at only_keys
network_from_dict fields = do
  check (
      only_keys
        (codes "subnet"
          ∷ codes "bridge"
          ∷ codes "dns_mode"
          ∷ codes "dns_servers"
          ∷ codes "static_leases"
          ∷ [])
        fields)
  subnet ← as_text (value_at fields (codes "subnet"))
  bridge ← as_text (value_at fields (codes "bridge"))
  dns_mode ← default_text (codes "isolated") (value_at fields (codes "dns_mode"))
  dns_servers ← as_servers (value_at fields (codes "dns_servers"))
  static_leases ← as_leases (value_at fields (codes "static_leases"))
  ok (record {
    subnet = subnet;
    bridge = bridge;
    dns_mode = dns_mode;
    dns_servers = dns_servers;
    static_leases = static_leases;
  })
