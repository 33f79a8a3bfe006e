-- ===== src/Volume/Shelf.antt =====
-- A host with one pool and at most one volume, for runs of the forced destruction of a pool.
use mathlib.Core.Path.{fun_ext}
use ai_hyperscaler_on_workst.Common.{
  ◌≡◌, ◌⊎◌, inl, inr, refl, sym, arith, none, some, [], ◌∷◌, Bool, true, false, Text, codes,
  text_eq, text_eq_iff, ◌&&◌, not, if◌then◌else◌,
}
use ai_hyperscaler_on_workst.Common.Int.{pos}
use ai_hyperscaler_on_workst.Common.Exec.{ok, err}
use ai_hyperscaler_on_workst.Common.Ensures.{Post, Ensures}
use ai_hyperscaler_on_workst.Problem.{libvirt_error}
use ai_hyperscaler_on_workst.Volume.{Storage, pool_name, pool_exists}
use ai_hyperscaler_on_workst.Volume.View.{Volumes, set_volume}
use ai_hyperscaler_on_workst.Volume.Pools.{destroy_cluster_pool}
use ai_hyperscaler_on_workst.Volume.Pools.Forced.{
  Among, HasVolumes, NoVolumes, destroy_cluster_pool-NoVolumes,
}

abbrev one : Text
one = codes "a"

-- Whether the volume is there.
abbrev shelf : Storage Bool
shelf = record {
  connect = λ h. (ok tt, h);
  lookup_pool = λ pool h. (ok tt, h);
  define_pool = λ pool path h. (ok tt, h);
  build_pool = λ pool h. (ok tt, h);
  create_pool = λ pool h. (ok tt, h);
  set_autostart = λ pool h. (ok tt, h);
  pool_active = λ pool h. (ok true, h);
  destroy_pool = λ pool h. (ok tt, h);
  undefine_pool = λ pool h. (ok tt, h);
  pool_path = λ pool h. (ok (some []), h);
  pool_info =
      λ pool h. (ok (record { status = 2; capacity = 0; allocation = 0; available = 0 }), h);
  pool_uuid = λ pool h. (ok [], h);
  list_volumes = λ pool h. (ok (if h then one ∷ [] else []), h);
  lookup_volume =
      λ pool volume h. if h && text_eq one volume then (ok tt, h) else (err libvirt_error, h);
  volume_path = λ pool volume h. (ok volume, h);
  volume_info = λ pool volume h. (ok (record { kind = 0; capacity = 0; allocation = 0 }), h);
  create_volume = λ pool xml h. (ok tt, h);
  delete_volume = λ pool volume h. (ok tt, h && not (text_eq one volume));
  last_error = λ h. record { code = some 50; message = [] };
  no_storage_vol = 50;
  image_info = λ path h. (
    ok (record { virtual_size = none; actual_size = none; format = none; backing_file = none }),
    h,
  );
  resize_image = λ path size h. (ok tt, h);
  read_chunks = λ path h. (ok ((1 ∷ []) ∷ []), h);
  new_stream = λ h. (ok tt, h);
  start_upload = λ pool volume capacity h. (ok tt, h);
  send = λ chunk h. (ok (pos 1), h);
  finish = λ h. (ok tt, h);
  abort = λ h. (ok tt, h);
}

abbrev shown : Bool → Volumes
shown h v = h && text_eq one v

listed : (h : Bool) (v : Text) → shown h v ≡ true → Among (if h then one ∷ [] else []) v
listed true v e = inl (sym ((text_eq_iff one v).0 e))
listed false v e = absurd (ground arith)

looked :
    (b h : Bool)
    → Post
        (λ done h'. shown h' ≡ shown h)
        (λ e h'. ((◌≡◌ {A = Bool} false true) ⊎ (b ≡ false)) × (shown h' ≡ shown h))
        (if b then (ok tt, h) else (err libvirt_error, h))
looked true h = refl
looked false h = (inr refl, refl)

deleted :
    (volume : Text) (h : Bool)
    → shown (h && not (text_eq one volume)) ≡ set_volume volume false (shown h)
deleted volume h =
    fun_ext λ v. ground (arith, text_eq_iff one volume, text_eq_iff one v, text_eq_iff volume v)

abbrev volumes : HasVolumes shelf (pool_name (codes "c"))
volumes = record {
  volumes = shown;
  may_fail = false;
  active_lem = record { at = λ h. record { at = refl } };
  destroy_lem = record { at = λ h. record { at = refl } };
  undefine_lem = record { at = λ h. record { at = refl } };
  list_lem = λ h. record { at = listed h };
  lookup_lem = λ volume h. record { at = looked (shown h volume) h };
  delete_lem = λ volume h. record { at = deleted volume h };
}

pool-seen : (pool_exists shelf (pool_name (codes "c")) true).0 ≡ ok true
unfolding pool_exists
pool-seen = refl

destroy_cluster_pool-NoVolumes_example :
    Ensures
      (λ b h'. (◌≡◌ {A = Bool} false true) ⊎ NoVolumes volumes h')
      (λ e h'. Unit {0})
      (destroy_cluster_pool shelf (codes "c") true)
      true
destroy_cluster_pool-NoVolumes_example =
    destroy_cluster_pool-NoVolumes (codes "c") volumes true pool-seen
