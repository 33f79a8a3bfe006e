-- ===== src/Volume/Pools.antt =====
-- Creating the pool of a cluster with its base volume, and destroying it.
use ai_hyperscaler_on_workst.Common.{
  ℕ, ◌+◌, Option, none, some, List, [], ◌∷◌, ◌++◌, Bool, true, false, Text, codes, not,
  if◌then◌else◌,
}
use ai_hyperscaler_on_workst.Common.Int.{ℤ, pos, negsuc}
use ai_hyperscaler_on_workst.Common.Exec.{
  Exec, Result, ok, err, pure, raise, try_except, ◌>>=◌, ◌>>◌,
}
use ai_hyperscaler_on_workst.Problem.{Problem, libvirt_error, volume_error, Act, all_to, libvirt_to}
use ai_hyperscaler_on_workst.Volume.{
  Storage, VolumeXml, ImageInfo, pool_name, base_volume_name, join_path, pool_exists,
  volume_exists_in_pool,
}
pub mod Views
pub mod Create
pub mod Laws
pub mod Forced

-- `d.get(key, default)`
abbrev pub get_or {ℓ} : {A : Type ℓ} → Option A → A → A
get_or none other = other
get_or (some a) other = a

-- A loop whose body logs a `libvirtError` and goes on.
abbrev pub log_libvirt : {Host : Type 0} → Problem → Act Host Unit
log_libvirt libvirt_error h = (ok tt, h)
log_libvirt e h = (err e, h)

module _ {Host : Type 0} (st : Storage Host) where
  open st use {connect, lookup_pool}

  -- The loop over the pieces of the image: `stream.send` may take less than it is given.
  unfoldable pub send_chunks : List (List ℕ) → (total_sent : ℕ) → Act Host ℕ
  send_chunks [] total_sent = pure total_sent
  send_chunks (chunk ∷ chunks) total_sent = do
    bytes_sent ← st.send chunk
    elim bytes_sent [ negsuc n ↦ raise volume_error | pos n ↦ send_chunks chunks (total_sent + n) ]

  -- What follows once the stream is open.
  unfoldable pub upload_through_stream : (pool volume source_path : Text) → Act Host Unit
  unfolding send_chunks
  upload_through_stream pool volume source_path = do
    stats ← st.volume_info pool volume
    st.start_upload pool volume stats.capacity
    chunks ← st.read_chunks source_path
    send_chunks chunks 0
    st.finish

  unfoldable pub upload_volume_data : (pool volume source_path : Text) → Act Host Unit
  unfolding upload_through_stream
  upload_volume_data pool volume source_path = do
    opened ← try_except (st.new_stream >> pure true) (λ e. pure false)
    if opened
        then try_except (upload_through_stream pool volume source_path)
            (λ e. try_except st.abort (λ f. pure tt) >> raise volume_error)
        else raise volume_error

  unfoldable pub create_base_volume_from_image :
      (pool volume source_image_path : Text) → Act Host Unit
  unfolding upload_volume_data
  create_base_volume_from_image pool volume source_image_path =
      try_except
        (do
          connect
          lookup_pool pool
          image_info ← st.image_info source_image_path
          st.create_volume pool (record {
            name = volume;
            capacity = get_or image_info.virtual_size 0;
            format = get_or image_info.format (codes "qcow2");
            backing = none;
          })
          st.volume_path pool volume
          upload_volume_data pool volume source_image_path)
        (all_to volume_error)

  -- The calls of libvirt that make the pool.
  unfoldable pub make_pool : (name path : Text) → Act Host Text
  make_pool name path =
      try_except
        (do
          connect
          st.define_pool name path
          st.build_pool name
          st.create_pool name
          st.set_autostart name
          st.pool_uuid name)
        (libvirt_to volume_error)

  unfoldable pub create_cluster_pool :
      (cluster_name pool_path base_image_path : Text) → Act Host Text
  unfolding pool_exists make_pool volume_exists_in_pool create_base_volume_from_image
  create_cluster_pool cluster_name pool_path base_image_path =
      try_except
        (do
          present ← pool_exists st (pool_name cluster_name)
          if present then pure (pool_name cluster_name) else (do
            make_pool (pool_name cluster_name) (join_path pool_path cluster_name)
            has_base ←
                volume_exists_in_pool st (pool_name cluster_name) (base_volume_name cluster_name)
            if has_base
                then pure tt
                else create_base_volume_from_image (pool_name cluster_name)
                    (base_volume_name cluster_name) base_image_path
            pure (pool_name cluster_name)))
        (all_to volume_error)

  -- The loop over the volumes; one that cannot be deleted is left.
  unfoldable pub destroy_volumes : (pool : Text) → List Text → Act Host Unit
  destroy_volumes pool [] = pure tt
  destroy_volumes pool (volume ∷ volumes) = do
    try_except (do st.lookup_volume pool volume; st.delete_volume pool volume) log_libvirt
    destroy_volumes pool volumes

  unfoldable pub destroy_cluster_pool : (cluster_name : Text) (force : Bool) → Act Host Bool
  unfolding pool_exists destroy_volumes
  destroy_cluster_pool cluster_name force =
      try_except
        (do
          present ← pool_exists st (pool_name cluster_name)
          if not present then pure true else (do
            connect
            lookup_pool (pool_name cluster_name)
            if force
                then try_except
                    (do
                      volume_names ← st.list_volumes (pool_name cluster_name)
                      destroy_volumes (pool_name cluster_name) volume_names)
                    log_libvirt
                else pure tt
            active ← st.pool_active (pool_name cluster_name)
            if active then st.destroy_pool (pool_name cluster_name) else pure tt
            st.undefine_pool (pool_name cluster_name)
            pure true))
        (all_to volume_error)
