-- ===== src/Volume/Toy.antt =====
-- A host that is its pools, for runs.
use ai_hyperscaler_on_workst.Common.{
  ◌≡◌, ◌⊎◌, inl, inr, refl, none, some, [], ◌∷◌, Bool, true, false, codes, if◌then◌else◌, is_some,
}
use ai_hyperscaler_on_workst.Common.Int.{pos}
use ai_hyperscaler_on_workst.Common.Exec.{ok, err}
use ai_hyperscaler_on_workst.Common.Ensures.{Post}
use ai_hyperscaler_on_workst.Problem.{libvirt_error}
use ai_hyperscaler_on_workst.Volume.{Storage, is_libvirt_not_found_error}
use ai_hyperscaler_on_workst.Volume.View.{
  View, no_volumes, volumes_of, set_pool, has_volume, put_volume, Pools,
}
use ai_hyperscaler_on_workst.Volume.Vms.Laws.{HasCodes}

abbrev pub toy : Storage View
toy = record {
  connect = λ h. (ok tt, h);
  lookup_pool = λ pool h. if is_some (h pool) then (ok tt, h) else (err libvirt_error, h);
  define_pool = λ pool path h. (ok tt, set_pool pool (some (volumes_of (h pool))) h);
  build_pool = λ pool h. (ok tt, h);
  create_pool = λ pool h. (ok tt, set_pool pool (some (volumes_of (h pool))) h);
  set_autostart = λ pool h. (ok tt, h);
  pool_active = λ pool h. (ok true, h);
  destroy_pool = λ pool h. (ok tt, h);
  undefine_pool = λ pool h. (ok tt, set_pool pool none h);
  pool_path = λ pool h. (ok (some []), h);
  pool_info =
      λ pool h. (ok (record { status = 2; capacity = 0; allocation = 0; available = 0 }), h);
  pool_uuid = λ pool h. (ok [], h);
  list_volumes = λ pool h. (ok [], h);
  lookup_volume =
      λ pool volume h. if has_volume h pool volume then (ok tt, h) else (err libvirt_error, h);
  volume_path = λ pool volume h. (ok volume, h);
  volume_info = λ pool volume h. (ok (record { kind = 0; capacity = 0; allocation = 0 }), h);
  create_volume = λ pool xml h. (ok tt, put_volume pool xml.name true h);
  delete_volume = λ pool volume h. (ok tt, put_volume pool volume false h);
  last_error = λ h. record { code = some 50; message = [] };
  no_storage_vol = 50;
  image_info = λ path h. (
    ok (record { virtual_size = none; actual_size = none; format = none; backing_file = none }),
    h,
  );
  resize_image = λ path size h. (ok tt, h);
  read_chunks = λ path h. (ok ((1 ∷ []) ∷ []), h);
  new_stream = λ h. (ok tt, h);
  start_upload = λ pool volume capacity h. (ok tt, h);
  send = λ chunk h. (ok (pos 1), h);
  finish = λ h. (ok tt, h);
  abort = λ h. (ok tt, h);
}

pub answered :
    (b : Bool) (h : View)
    → Post
        (λ done h'. (b ≡ true) × (h' ≡ h))
        (λ e h'. (e ≡ libvirt_error) × ((◌≡◌ {A = Bool} false true) ⊎ (b ≡ false)) × (h' ≡ h))
        (if b then (ok tt, h) else (err libvirt_error, h))
answered true h = (refl, refl)
answered false h = (refl, inr refl, refl)

pub answered_code :
    (b : Bool) (h : View)
    → Post
        (λ done h'. h' ≡ h)
        (λ e h'.
          ((b ≡ false)
            ⊎ (is_libvirt_not_found_error
                  (record { code = some 50; message = [] })
                  50
                  (codes "not found" ∷ [])
                ≡ false))
          × (h' ≡ h))
        (if b then (ok tt, h) else (err libvirt_error, h))
answered_code true h = refl
answered_code false h = (inl refl, refl)

abbrev pub toy_pools : Pools toy
toy_pools = record {
  view = λ h. h;
  lookup_may_fail = false;
  connect_lem = λ h. record { at = refl };
  lookup_pool_lem = λ pool h. record { at = answered (is_some (h pool)) h };
  define_lem = λ pool path h. record { at = refl };
  build_lem = λ pool h. record { at = refl };
  create_lem = λ pool h. record { at = (volumes_of (h pool), refl) };
  autostart_lem = λ pool h. record { at = refl };
  uuid_lem = λ pool h. record { at = refl };
  active_lem = λ pool h. record { at = refl };
  path_lem = λ pool h. record { at = refl };
  destroy_lem = λ pool h. record { at = refl };
  undefine_lem = λ pool h. record { at = refl };
  list_lem = λ pool h. record { at = refl };
  lookup_lem = λ pool volume h. record { at = answered (has_volume h pool volume) h };
  volume_path_lem = λ pool volume h. record { at = refl };
  volume_info_lem = λ pool volume h. record { at = refl };
  create_volume_lem = λ pool xml h. record { at = refl };
  delete_volume_lem = λ pool volume h. record { at = refl };
  image_info_lem = λ path h. record { at = refl };
  read_lem = λ path h. record { at = refl };
  new_stream_lem = λ h. record { at = refl };
  start_upload_lem = λ pool volume capacity h. record { at = refl };
  send_lem = λ chunk h. record { at = refl };
  finish_lem = λ h. record { at = refl };
  abort_lem = λ h. record { at = refl };
}

abbrev pub toy_codes : HasCodes toy_pools
toy_codes = record {
  lookup_code = λ pool volume h. record { at = answered_code (has_volume h pool volume) h };
  path_code = λ pool volume h. record { at = refl };
  delete_code = λ pool volume h. record { at = refl };
}

-- No pool, and an empty pool of the cluster "c".
abbrev pub bare : View
bare pool = none

abbrev pub with_pool : View
with_pool pool = some no_volumes
