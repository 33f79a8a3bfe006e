-- ===== src/Volume.antt =====
-- python/ai_how/src/ai_how/vm_management/volume_manager.py: `VolumeManager`, over the storage calls of
-- libvirt, `qemu-img` and the files of images. Sizes stay in bytes: a quotient by 1024**3 is exact.
pub mod View
pub mod Pools
pub mod Vms
pub mod Info
mod Toy
mod Shelf
mod Tests
use ai_hyperscaler_on_workst.Common.{
  ℕ, ◌*◌, ◌≡◌, Option, none, some, List, [], ◌∷◌, ◌++◌, Bool, true, false, Text, codes, ◌==◌, ◌||◌,
  any, contains, lower, if◌then◌else◌,
}
use ai_hyperscaler_on_workst.Common.Int.{ℤ}
use ai_hyperscaler_on_workst.Common.Exec.{Exec, Result, ok, err, pure, try_except, ◌>>=◌, ◌>>◌}
use ai_hyperscaler_on_workst.Problem.{Problem, Act, false_if_libvirt}

-- A `libvirtError`: its code, where it has one, and its text.
pub record LibvirtError : Type 0 where
  pub code : Option ℕ
  pub message : Text

-- The XML of a new volume.
pub record VolumeXml : Type 0 where
  pub name : Text
  pub capacity : ℕ
  pub format : Text
  pub backing : Option Text

-- What `volume.info()`, `pool.info()` and `qemu-img info` answer.
pub record VolumeStats : Type 0 where
  pub kind : ℕ
  pub capacity : ℕ
  pub allocation : ℕ

pub record PoolStats : Type 0 where
  pub status : ℕ
  pub capacity : ℕ
  pub allocation : ℕ
  pub available : ℕ

pub record ImageInfo : Type 0 where
  pub virtual_size : Option ℕ
  pub actual_size : Option ℕ
  pub format : Option Text
  pub backing_file : Option Text

-- A call that raises leaves the state that it made. Pools and volumes are named as they were looked up.
pub record Storage (Host : Type 0) : Type 0 where
  -- `get_connection`
  pub connect : Act Host Unit
  pub lookup_pool : Text → Act Host Unit
  pub define_pool : (name path : Text) → Act Host Unit
  pub build_pool : Text → Act Host Unit
  pub create_pool : Text → Act Host Unit
  pub set_autostart : Text → Act Host Unit
  pub pool_active : Text → Act Host Bool
  pub destroy_pool : Text → Act Host Unit
  pub undefine_pool : Text → Act Host Unit
  -- the text of `.//target/path` of the XML of the pool, where it is there and not empty
  pub pool_path : Text → Act Host (Option Text)
  pub pool_info : Text → Act Host PoolStats
  pub pool_uuid : Text → Act Host Text
  pub list_volumes : Text → Act Host (List Text)
  pub lookup_volume : (pool volume : Text) → Act Host Unit
  pub volume_path : (pool volume : Text) → Act Host Text
  pub volume_info : (pool volume : Text) → Act Host VolumeStats
  pub create_volume : (pool : Text) → VolumeXml → Act Host Unit
  pub delete_volume : (pool volume : Text) → Act Host Unit
  -- the `libvirtError` that was raised last, and `VIR_ERR_NO_STORAGE_VOL`
  pub last_error : Host → LibvirtError
  pub no_storage_vol : ℕ
  -- `qemu-img info` and `qemu-img resize`, which raise where the command fails
  pub image_info : (path : Text) → Act Host ImageInfo
  pub resize_image : (path : Text) (size_gb : ℕ) → Act Host Unit
  -- the pieces of 1 MiB of a file, as its reads give them
  pub read_chunks : (path : Text) → Act Host (List (List ℕ))
  -- the stream of an upload: `newStream`, `upload`, `send`, `finish` and `abort`
  pub new_stream : Act Host Unit
  pub start_upload : (pool volume : Text) (capacity : ℕ) → Act Host Unit
  pub send : List ℕ → Act Host ℤ
  pub finish : Act Host Unit
  pub abort : Act Host Unit

abbrev pub pool_name : Text → Text
pool_name cluster_name = cluster_name ++ codes "-pool"

abbrev pub base_volume_name : Text → Text
base_volume_name cluster_name = cluster_name ++ codes "-base.qcow2"

abbrev pub volume_name : Text → Text
volume_name vm_name = vm_name ++ codes ".qcow2"

-- `path / name`
abbrev pub join_path : Text → Text → Text
join_path path name = path ++ (codes "/" ++ name)

-- `_generate_volume_xml`
abbrev pub cow_volume : (volume_name : Text) (size_gb : ℕ) (base_volume_path : Text) → VolumeXml
cow_volume volume_name size_gb base_volume_path = record {
  name = volume_name;
  capacity = size_gb * 1024 * 1024 * 1024;
  format = codes "qcow2";
  backing = some base_volume_path;
}

abbrev is_code : Option ℕ → ℕ → Bool
is_code none expected = false
is_code (some code) expected = code == expected

pub is_libvirt_not_found_error : LibvirtError → ℕ → List Text → Bool
is_libvirt_not_found_error e expected_error_code fallback_patterns =
    is_code e.code expected_error_code
    || any (λ pattern_text. contains (lower e.message) (lower pattern_text)) fallback_patterns

module _ {Host : Type 0} (st : Storage Host) where
  open st use {connect, lookup_pool, lookup_volume}

  unfoldable pub pool_exists : Text → Act Host Bool
  pool_exists name = try_except (do connect; lookup_pool name; pure true) false_if_libvirt

  unfoldable pub volume_exists_in_pool : (pool_name volume_name : Text) → Act Host Bool
  volume_exists_in_pool pool_name volume_name =
      try_except (do connect; lookup_pool pool_name; lookup_volume pool_name volume_name; pure true)
        false_if_libvirt
