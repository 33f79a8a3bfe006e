-- ===== src/Volume/Info.antt =====
-- What the volume manager reports of pools and volumes.
use ai_hyperscaler_on_workst.Common.{
  ℕ, ◌*◌, ◌^◌, Option, none, some, List, [], ◌∷◌, Bool, false, Text, not, leb, length,
  if◌then◌else◌,
}
use ai_hyperscaler_on_workst.Common.Exec.{ok, err, pure, raise, try_except, ◌>>=◌, ◌>>◌}
use ai_hyperscaler_on_workst.Problem.{Problem, libvirt_error, volume_error, Act, all_to}
use ai_hyperscaler_on_workst.Volume.{
  Storage, VolumeStats, PoolStats, ImageInfo, pool_name, volume_name, pool_exists,
}
use ai_hyperscaler_on_workst.Volume.Vms.{none_if_libvirt}

-- `details` are those of `qemu-img`, where they could be read.
pub record VolumeReport : Type 0 where
  pub name : Text
  pub path : Text
  pub stats : VolumeStats
  pub details : Option ImageInfo

pub record PoolReport : Type 0 where
  pub name : Text
  pub path : Option Text
  pub stats : PoolStats
  pub uuid : Text
  pub volume_count : ℕ

pub record VolumeEntry : Type 0 where
  pub name : Text
  pub path : Text
  pub capacity : ℕ
  pub allocation : ℕ

-- `except libvirt.libvirtError` around the count of the volumes.
abbrev pub zero_if_libvirt : {Host : Type 0} → Problem → Act Host ℕ
zero_if_libvirt libvirt_error h = (ok 0, h)
zero_if_libvirt e h = (err e, h)

module _ {Host : Type 0} (st : Storage Host) where
  open st use {connect, lookup_pool, lookup_volume, volume_path, volume_info}

  unfoldable pub get_volume_info : (cluster_name vm_name : Text) → Act Host VolumeReport
  unfolding pool_exists
  get_volume_info cluster_name vm_name =
      try_except
        (do
          present ← pool_exists st (pool_name cluster_name)
          if not present then raise volume_error else (do
            connect
            lookup_pool (pool_name cluster_name)
            lookup_volume (pool_name cluster_name) (volume_name vm_name)
            stats ← volume_info (pool_name cluster_name) (volume_name vm_name)
            path ← volume_path (pool_name cluster_name) (volume_name vm_name)
            details ← try_except (do d ← st.image_info path; pure (some d)) (λ e. pure none)
            pure (record {
              name = volume_name vm_name;
              path = path;
              stats = stats;
              details = details;
            })))
        (all_to volume_error)

  -- One round of the loop of `list_cluster_volumes`.
  unfoldable pub volume_entry : (pool volume : Text) → Act Host (Option VolumeEntry)
  volume_entry pool volume =
      try_except
        (do
          lookup_volume pool volume
          stats ← volume_info pool volume
          path ← volume_path pool volume
          pure (
              some (record {
                name = volume;
                path = path;
                capacity = stats.capacity;
                allocation = stats.allocation;
              })))
        none_if_libvirt

  unfoldable pub volume_entries : (pool : Text) → List Text → Act Host (List VolumeEntry)
  unfolding volume_entry
  volume_entries pool [] = pure []
  volume_entries pool (volume ∷ volumes) = do
    entry ← volume_entry pool volume
    entries ← volume_entries pool volumes
    pure (elim entry [ none ↦ entries | some e ↦ e ∷ entries ])

  unfoldable pub list_cluster_volumes : Text → Act Host (List VolumeEntry)
  unfolding pool_exists volume_entries
  list_cluster_volumes cluster_name =
      try_except
        (do
          present ← pool_exists st (pool_name cluster_name)
          if not present then pure [] else (do
            connect
            lookup_pool (pool_name cluster_name)
            volume_names ← st.list_volumes (pool_name cluster_name)
            volume_entries (pool_name cluster_name) volume_names))
        (all_to volume_error)

  unfoldable pub get_pool_info : Text → Act Host PoolReport
  unfolding pool_exists
  get_pool_info cluster_name =
      try_except
        (do
          present ← pool_exists st (pool_name cluster_name)
          if not present then raise volume_error else (do
            connect
            lookup_pool (pool_name cluster_name)
            stats ← st.pool_info (pool_name cluster_name)
            path ← st.pool_path (pool_name cluster_name)
            uuid ← st.pool_uuid (pool_name cluster_name)
            volume_count ←
                try_except
                  (do
                    volume_names ← st.list_volumes (pool_name cluster_name)
                    pure (length volume_names))
                  zero_if_libvirt
            pure (record {
              name = pool_name cluster_name;
              path = path;
              stats = stats;
              uuid = uuid;
              volume_count = volume_count;
            })))
        (all_to volume_error)

  unfoldable pub validate_pool_space : (cluster_name : Text) (required_space_gb : ℕ) → Act Host Bool
  unfolding get_pool_info
  validate_pool_space cluster_name required_space_gb =
      try_except
        (do
          pool_info ← get_pool_info cluster_name
          pure (leb (required_space_gb * 2 ^ 30) pool_info.stats.available))
        (λ e. pure false)
