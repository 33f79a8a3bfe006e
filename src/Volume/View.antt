-- ===== src/Volume/View.antt =====
-- The pools with the names of their volumes, and what libvirt documents of its storage calls: each does its
-- work or raises and changes nothing in the view.
use ai_hyperscaler_on_workst.Common.{
  ℕ, ◌≡◌, ◌⊎◌, inl, inr, sym, ap, ◌∙◌, arith, Option, none, some, List, Bool, true, false, Text,
  text_eq, if◌then◌else◌, is_some,
}
use ai_hyperscaler_on_workst.Common.Exec.{pure, ◌>>◌}
use ai_hyperscaler_on_workst.Common.Ensures.{
  Ensures, Ensures-weaken, Ensures-pure, Ensures-raise, Ensures-try, Ensures-bind,
}
use ai_hyperscaler_on_workst.Problem.{
  Problem, libvirt_error, connection_error, Act, false_if_libvirt,
}
use ai_hyperscaler_on_workst.Volume.{Storage, VolumeXml, pool_exists, volume_exists_in_pool}

-- The volumes of a pool.
abbrev pub Volumes : Type 0
Volumes = Text → Bool

abbrev pub View : Type 0
View = Text → Option Volumes

abbrev pub no_volumes : Volumes
no_volumes volume = false

abbrev pub set_pool : Text → Option Volumes → View → View
set_pool pool p v other = if text_eq pool other then p else v other

abbrev pub set_volume : Text → Bool → Volumes → Volumes
set_volume volume b p other = if text_eq volume other then b else p other

-- Whether a pool is there and has a volume.
abbrev pub has_volume : View → (pool volume : Text) → Bool
has_volume v pool volume = elim (v pool) [ none ↦ false | some p ↦ p volume ]

abbrev pub put_volume : (pool volume : Text) → Bool → View → View
put_volume pool volume b v = elim (v pool) [
  | none ↦ v
  | some p ↦ set_pool pool (some (set_volume volume b p)) v
]

-- The volumes that a definition leaves a pool.
abbrev pub volumes_of : Option Volumes → Volumes
volumes_of none = no_volumes
volumes_of (some p) = p

-- A lookup raises `libvirtError` for what is missing; whether it also does for another reason, such as a pool that
-- is not active or a lost connection to the daemon, is `lookup_may_fail`.
pub record Pools {Host : Type 0} (st : Storage Host) : Type 0 where
  pub view : Host → View
  pub lookup_may_fail : Bool
  pub connect_lem :
      (h : Host)
      → Ensures
          (λ done h'. view h' ≡ view h)
          (λ e h'. (e ≡ connection_error) × (view h' ≡ view h))
          st.connect
          h
  pub lookup_pool_lem :
      (pool : Text) (h : Host)
      → Ensures
          (λ done h'. (is_some (view h pool) ≡ true) × (view h' ≡ view h))
          (λ e h'.
            (e ≡ libvirt_error)
            × ((lookup_may_fail ≡ true) ⊎ (is_some (view h pool) ≡ false))
            × (view h' ≡ view h))
          (st.lookup_pool pool)
          h
  pub define_lem :
      (pool path : Text) (h : Host)
      → Ensures
          (λ done h'. view h' ≡ set_pool pool (some (volumes_of (view h pool))) (view h))
          (λ e h'. view h' ≡ view h)
          (st.define_pool pool path)
          h
  pub build_lem :
      (pool : Text) (h : Host)
      → Ensures (λ done h'. view h' ≡ view h) (λ e h'. view h' ≡ view h) (st.build_pool pool) h
  -- a pool that is started finds the volumes of its directory
  pub create_lem :
      (pool : Text) (h : Host)
      → Ensures
          (λ done h'. (found : Volumes) × (view h' ≡ set_pool pool (some found) (view h)))
          (λ e h'. view h' ≡ view h)
          (st.create_pool pool)
          h
  pub autostart_lem :
      (pool : Text) (h : Host)
      → Ensures (λ done h'. view h' ≡ view h) (λ e h'. view h' ≡ view h) (st.set_autostart pool) h
  pub uuid_lem :
      (pool : Text) (h : Host)
      → Ensures (λ u h'. view h' ≡ view h) (λ e h'. view h' ≡ view h) (st.pool_uuid pool) h
  pub active_lem :
      (pool : Text) (h : Host)
      → Ensures (λ b h'. view h' ≡ view h) (λ e h'. view h' ≡ view h) (st.pool_active pool) h
  pub path_lem :
      (pool : Text) (h : Host)
      → Ensures (λ p h'. view h' ≡ view h) (λ e h'. view h' ≡ view h) (st.pool_path pool) h
  pub destroy_lem :
      (pool : Text) (h : Host)
      → Ensures (λ done h'. view h' ≡ view h) (λ e h'. view h' ≡ view h) (st.destroy_pool pool) h
  pub undefine_lem :
      (pool : Text) (h : Host)
      → Ensures
          (λ done h'. view h' ≡ set_pool pool none (view h))
          (λ e h'. view h' ≡ view h)
          (st.undefine_pool pool)
          h
  pub list_lem :
      (pool : Text) (h : Host)
      → Ensures (λ l h'. view h' ≡ view h) (λ e h'. view h' ≡ view h) (st.list_volumes pool) h
  pub lookup_lem :
      (pool volume : Text) (h : Host)
      → Ensures
          (λ done h'. (has_volume (view h) pool volume ≡ true) × (view h' ≡ view h))
          (λ e h'.
            (e ≡ libvirt_error)
            × ((lookup_may_fail ≡ true) ⊎ (has_volume (view h) pool volume ≡ false))
            × (view h' ≡ view h))
          (st.lookup_volume pool volume)
          h
  pub volume_path_lem :
      (pool volume : Text) (h : Host)
      → Ensures (λ p h'. view h' ≡ view h) (λ e h'. view h' ≡ view h) (st.volume_path pool volume) h
  pub volume_info_lem :
      (pool volume : Text) (h : Host)
      → Ensures (λ s h'. view h' ≡ view h) (λ e h'. view h' ≡ view h) (st.volume_info pool volume) h
  pub create_volume_lem :
      (pool : Text) (xml : VolumeXml) (h : Host)
      → Ensures
          (λ done h'. view h' ≡ put_volume pool xml.name true (view h))
          (λ e h'. view h' ≡ view h)
          (st.create_volume pool xml)
          h
  pub delete_volume_lem :
      (pool volume : Text) (h : Host)
      → Ensures
          (λ done h'. view h' ≡ put_volume pool volume false (view h))
          (λ e h'. view h' ≡ view h)
          (st.delete_volume pool volume)
          h
  pub image_info_lem :
      (path : Text) (h : Host)
      → Ensures (λ i h'. view h' ≡ view h) (λ e h'. view h' ≡ view h) (st.image_info path) h
  pub read_lem :
      (path : Text) (h : Host)
      → Ensures (λ c h'. view h' ≡ view h) (λ e h'. view h' ≡ view h) (st.read_chunks path) h
  pub new_stream_lem :
      (h : Host) → Ensures (λ done h'. view h' ≡ view h) (λ e h'. view h' ≡ view h) st.new_stream h
  pub start_upload_lem :
      (pool volume : Text) (capacity : ℕ) (h : Host)
      → Ensures
          (λ done h'. view h' ≡ view h)
          (λ e h'. view h' ≡ view h)
          (st.start_upload pool volume capacity)
          h
  pub send_lem :
      (chunk : List ℕ) (h : Host)
      → Ensures (λ n h'. view h' ≡ view h) (λ e h'. view h' ≡ view h) (st.send chunk) h
  pub finish_lem :
      (h : Host) → Ensures (λ done h'. view h' ≡ view h) (λ e h'. view h' ≡ view h) st.finish h
  pub abort_lem :
      (h : Host) → Ensures (λ done h'. view h' ≡ view h) (λ e h'. view h' ≡ view h) st.abort h

module _ {Host : Type 0} {st : Storage Host} (ps : Pools st) where
  open ps use {view}

  -- The view is a given one, after a result or an exception.
  abbrev pub At : {A : Type 0} → View → A → Host → Type 0
  At v a h = view h ≡ v

  -- What the answers of `_pool_exists` and `_volume_exists_in_pool` say: they swallow every `libvirtError`.
  abbrev pub Unseen : Bool → Type 0
  Unseen there = (ps.lookup_may_fail ≡ true) ⊎ (there ≡ false)

  abbrev pub Answers : (there answer : Bool) → Type 0
  Answers there true = there ≡ true
  Answers there false = Unseen there

  pub Answers-true : (there b : Bool) → Answers there b → b ≡ true → there ≡ true
  Answers-true there true answer e = answer
  Answers-true there false answer e = absurd (ground arith)

  pub Answers-false : (there b : Bool) → Answers there b → b ≡ false → Unseen there
  Answers-false there true answer e = absurd (ground arith)
  Answers-false there false answer e = answer

  pub Unseen-at : {there also : Bool} → also ≡ there → Unseen there → Unseen also
  Unseen-at e (inl fails) = inl fails
  Unseen-at e (inr gone) = inr (e ∙ gone)

  abbrev Missing : View → Bool → Problem → Host → Type 0
  Missing v there e h =
      ((e ≡ connection_error) ⊎ ((e ≡ libvirt_error) × Unseen there)) × (view h ≡ v)

  only_connection :
      {other : Bool} (v : View) {there : Bool} (e : Problem) (h : Host)
      → there ≡ true
      → Missing v there e h
      → (e ≡ connection_error) ⊎ ((e ≡ libvirt_error) × Unseen other)
  only_connection v e h there (inl refused, same) = inl refused
  only_connection v e h there (inr (lost, inl fails), same) = inr (lost, inl fails)
  only_connection v e h there (inr (lost, inr gone), same) = absurd (ground (arith, there, gone))

  Answers-Missing :
      (v : View) (there : Bool) (e : Problem) (h : Host)
      → Missing v there e h
      → Ensures
          (λ b h'. Answers there b × (view h' ≡ v))
          (At {A = Problem} v)
          (false_if_libvirt e)
          h
  Answers-Missing v there e h (inl refused, same) =
      rw refused (Ensures-raise connection_error h same)
  Answers-Missing v there e h (inr (lost, unseen), same) =
      rw lost (Ensures-pure {E = Problem} false h (unseen, same))

  module _ {B : Type 0} {R : B → Host → Type 0} {Q : Problem → Host → Type 0} (v : View)
      (pool : Text) where
    -- What follows a connection and the lookup of a pool.
    pub after_lookup :
        (rest : Act Host B) (h : Host)
        → view h ≡ v
        → ((e : Problem) (h' : Host) → Missing v (is_some (v pool)) e h' → Q e h')
        → ((h' : Host) → is_some (v pool) ≡ true → view h' ≡ v → Ensures R Q rest h')
        → Ensures R Q (do st.connect; st.lookup_pool pool; rest) h
    after_lookup rest h same failed continue =
        Ensures-bind st.connect _ h
          (Ensures-weaken st.connect h (ps.connect_lem h) (λ a h' e. e)
            (λ p h' e. failed p h' (inl e.0, e.1 ∙ same)))
          λ a h1 e1.
            Ensures-bind (st.lookup_pool pool) _ h1
              (Ensures-weaken (st.lookup_pool pool) h1 (ps.lookup_pool_lem pool h1) (λ a h' e. e)
                (λ p h' e. failed p h' (
                  inr (e.0, Unseen-at (ap (λ (u : View). is_some (u pool)) (sym (e1 ∙ same))) e.1),
                  e.2 ∙ e1 ∙ same,
                )))
              λ b h2 e2. continue h2 (ground (arith, e1, same)) (e2.1 ∙ e1 ∙ same)

    pub after_volume :
        (volume : Text) (rest : Act Host B) (h : Host)
        → view h ≡ v
        → ((e : Problem) (h' : Host)
            → e ≡ libvirt_error
            → Unseen (has_volume v pool volume)
            → view h' ≡ v
            → Q e h')
        → ((h' : Host) → has_volume v pool volume ≡ true → view h' ≡ v → Ensures R Q rest h')
        → Ensures R Q (st.lookup_volume pool volume >> rest) h
    after_volume volume rest h same failed continue =
        Ensures-bind (st.lookup_volume pool volume) _ h
          (Ensures-weaken (st.lookup_volume pool volume) h (ps.lookup_lem pool volume h)
            (λ a h' e. e)
            (λ p h' e.
              failed p h' e.0
                (Unseen-at (ap (λ (w : View). has_volume w pool volume) (sym same)) e.1)
                (e.2 ∙ same)))
          λ a h1 e1.
            continue h1 (ap (λ (w : View). has_volume w pool volume) (sym same) ∙ e1.0)
              (e1.1 ∙ same)

  pub pool_exists-lem :
      (v : View) (pool : Text) (h : Host)
      → view h ≡ v
      → Ensures
          (λ b h'. Answers (is_some (v pool)) b × (view h' ≡ v))
          (At v)
          (pool_exists st pool)
          h
  unfolding pool_exists
  pool_exists-lem v pool h same =
      Ensures-try {Q = Missing v (is_some (v pool))} (do st.connect; st.lookup_pool pool; pure true)
        false_if_libvirt h
        (after_lookup v pool (pure true) h same (λ e h' missing. missing)
          λ h' there e. Ensures-pure true h' (there, e))
        (λ p h' m. Answers-Missing v (is_some (v pool)) p h' m)

  -- Of a pool that is there.
  pub volume_exists-lem :
      (v : View) (pool volume : Text) (h : Host)
      → view h ≡ v
      → is_some (v pool) ≡ true
      → Ensures
          (λ b h'. Answers (has_volume v pool volume) b × (view h' ≡ v))
          (At v)
          (volume_exists_in_pool st pool volume)
          h
  unfolding volume_exists_in_pool
  volume_exists-lem v pool volume h same there =
      Ensures-try {Q = Missing v (has_volume v pool volume)}
        (do st.connect; st.lookup_pool pool; st.lookup_volume pool volume; pure true)
        false_if_libvirt h
        (after_lookup v pool _ h same
          (λ e h' missing. (only_connection v e h' there missing, missing.1))
          λ h1 there' e1.
            after_volume v pool volume (pure true) h1 e1
              (λ e h' lost gone e'. (inr (lost, gone), e'))
              λ h2 has e2. Ensures-pure true h2 (has, e2))
        (λ p h' m. Answers-Missing v (has_volume v pool volume) p h' m)
