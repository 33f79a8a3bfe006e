-- ===== src/Volume/Vms.antt =====
-- The volumes of VMs in the pool of a cluster.
use ai_hyperscaler_on_workst.Common.{
  ℕ, Option, none, some, List, [], ◌∷◌, ◌++◌, Bool, true, false, Text, codes, not, if◌then◌else◌,
}
use ai_hyperscaler_on_workst.Common.Exec.{
  Exec, Result, ok, err, pure, raise, gets, try_except, ◌>>=◌, ◌>>◌,
}
use ai_hyperscaler_on_workst.Problem.{Problem, libvirt_error, volume_error, Act, all_to, libvirt_to}
use ai_hyperscaler_on_workst.Volume.{
  Storage, pool_name, base_volume_name, volume_name, join_path, cow_volume,
  is_libvirt_not_found_error, pool_exists,
}
pub mod Views
pub mod Create
pub mod Laws

-- `except libvirt.libvirtError: pass`, of a body that may have an answer.
abbrev pub none_if_libvirt : {Host A : Type 0} → Problem → Act Host (Option A)
none_if_libvirt libvirt_error h = (ok none, h)
none_if_libvirt e h = (err e, h)

module _ {Host : Type 0} (st : Storage Host) where
  open st use {connect, lookup_pool, lookup_volume, volume_path}

  unfoldable pub get_pool_path : Text → Act Host Text
  get_pool_path pool = do
    path ← st.pool_path pool
    elim path [ none ↦ raise volume_error | some found ↦ pure found ]

  unfoldable pub existing_path : (pool volume : Text) → Act Host (Option Text)
  existing_path pool volume =
      try_except (do lookup_volume pool volume; path ← volume_path pool volume; pure (some path))
        none_if_libvirt

  unfoldable pub create_vm_volume : (cluster_name vm_name : Text) (size_gb : ℕ) → Act Host Text
  unfolding pool_exists get_pool_path existing_path
  create_vm_volume cluster_name vm_name size_gb =
      try_except
        (do
          present ← pool_exists st (pool_name cluster_name)
          if not present then raise volume_error else (do
            connect
            lookup_pool (pool_name cluster_name)
            pool_path ← get_pool_path (pool_name cluster_name)
            existing ← existing_path (pool_name cluster_name) (volume_name vm_name)
            elim existing [
              | some path ↦ pure path
              | none ↦
                  try_except
                    (do
                      st.create_volume (pool_name cluster_name) (
                          cow_volume (volume_name vm_name) size_gb
                            (join_path pool_path (base_volume_name cluster_name)))
                      volume_path (pool_name cluster_name) (volume_name vm_name))
                    (libvirt_to volume_error)
            ]))
        (all_to volume_error)

  -- The handler of `destroy_vm_volume`.
  unfoldable pub true_if_not_found : Problem → Act Host Bool
  true_if_not_found libvirt_error = do
    e ← gets st.last_error
    if is_libvirt_not_found_error e st.no_storage_vol (codes "not found" ∷ [])
        then pure true
        else raise libvirt_error
  true_if_not_found e = raise e

  unfoldable pub destroy_vm_volume : (cluster_name vm_name : Text) → Act Host Bool
  unfolding pool_exists true_if_not_found
  destroy_vm_volume cluster_name vm_name =
      try_except
        (do
          present ← pool_exists st (pool_name cluster_name)
          if not present then pure true else (do
            connect
            lookup_pool (pool_name cluster_name)
            try_except
                (do
                  lookup_volume (pool_name cluster_name) (volume_name vm_name)
                  volume_path (pool_name cluster_name) (volume_name vm_name)
                  st.delete_volume (pool_name cluster_name) (volume_name vm_name)
                  pure true)
                true_if_not_found))
        (all_to volume_error)

  unfoldable pub resize_vm_volume : (cluster_name vm_name : Text) (new_size_gb : ℕ) → Act Host Bool
  unfolding pool_exists
  resize_vm_volume cluster_name vm_name new_size_gb =
      try_except
        (do
          present ← pool_exists st (pool_name cluster_name)
          if not present then raise volume_error else (do
            connect
            lookup_pool (pool_name cluster_name)
            lookup_volume (pool_name cluster_name) (volume_name vm_name)
            path ← volume_path (pool_name cluster_name) (volume_name vm_name)
            st.resize_image path new_size_gb
            pure true))
        (all_to volume_error)
