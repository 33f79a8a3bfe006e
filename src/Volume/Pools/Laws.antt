-- ===== src/Volume/Pools/Laws.antt =====
-- `destroy_cluster_pool` on the pools and their volumes, beside `create_cluster_pool`.
use mathlib.Core.Path.{fun_ext}
use ai_hyperscaler_on_workst.Common.{
  ◌≡◌, ◌⊎◌, inl, inr, refl, sym, ap, ◌∙◌, arith, none, some, List, [], ◌∷◌, Bool, true, false, Text,
  text_eq_iff, Option-cases, not, is_some, if◌then◌else◌,
}
use ai_hyperscaler_on_workst.Common.Exec.{pure, try_except, ◌>>=◌, ◌>>◌}
use ai_hyperscaler_on_workst.Common.Ensures.{
  Ensures, Ensures-weaken, Ensures-pure, Ensures-raise, Ensures-try, Ensures-if, Ensures-bind,
}
use ai_hyperscaler_on_workst.Problem.{Problem, libvirt_error, volume_error, all_to}
use ai_hyperscaler_on_workst.Volume.{Storage, pool_name, base_volume_name, pool_exists}
use ai_hyperscaler_on_workst.Volume.View.{
  Volumes, View, set_pool, set_volume, has_volume, Pools, Unseen, Answers-false, after_lookup,
  after_volume, pool_exists-lem,
}
use ai_hyperscaler_on_workst.Volume.Pools.{
  log_libvirt, create_cluster_pool, destroy_volumes, destroy_cluster_pool,
}
use ai_hyperscaler_on_workst.Volume.Pools.Views.{
  set_pool-twice, put_volume-within, has_volume-at, set_pool-absent,
}
use ai_hyperscaler_on_workst.Volume.Pools.Create.{PoolLeft, PoolCreated, create_cluster_pool-lem}

-- A pool has no volume that it does not have in a view.
abbrev pub NoMore : (pool : Text) → View → Volumes → Type 0
NoMore pool v p = (volume : Text) → has_volume v pool volume ≡ false → p volume ≡ false

NoMore-set :
    (pool volume : Text) (v : View) (p : Volumes)
    → NoMore pool v p
    → NoMore pool v (set_volume volume false p)
NoMore-set pool volume v p fewer other lacks = ground (arith, fewer other lacks)

module _ {Host : Type 0} {st : Storage Host} (ps : Pools st) where
  open ps use {view}

  -- A view that differs in one pool at most, which is there with no more volumes than before.
  abbrev Within : {A : Type 0} → (pool : Text) → View → A → Host → Type 0
  Within pool v a h = (p : Volumes) × NoMore pool v p × (view h ≡ set_pool pool (some p) v)

  goes_on :
      (pool : Text) (v : View) (e : Problem) (h : Host)
      → Within pool v e h
      → Ensures (Within {A = Unit} pool v) (Within {A = Problem} pool v) (log_libvirt e) h
  goes_on pool v libvirt_error h w = Ensures-pure {E = Problem} tt h w
  goes_on pool v e h w = Ensures-raise e h w

  destroy_volumes-lem :
      (pool : Text) (v : View) (volumes : List Text) (h : Host)
      → Within pool v tt h
      → Ensures (Within pool v) (Within pool v) (destroy_volumes st pool volumes) h
  unfolding destroy_volumes
  destroy_volumes-lem pool v [] h w = Ensures-pure tt h w
  destroy_volumes-lem pool v (volume ∷ volumes) h (p, fewer, same) =
      Ensures-bind
        (try_except (do st.lookup_volume pool volume; st.delete_volume pool volume) log_libvirt) _ h
        (Ensures-try {Q = Within {A = Problem} pool v}
          (do st.lookup_volume pool volume; st.delete_volume pool volume) log_libvirt h
          (after_volume ps (set_pool pool (some p) v) pool volume (st.delete_volume pool volume) h
            same (λ e h' lost gone e'. (p, fewer, e'))
            λ h1 has e1.
              Ensures-weaken (st.delete_volume pool volume) h1 (ps.delete_volume_lem pool volume h1)
                (λ a h' e. (
                  set_volume volume false p,
                  NoMore-set pool volume v p fewer,
                  e ∙ put_volume-within pool volume false v p (view h1) e1,
                ))
                (λ q h' e. (p, fewer, e ∙ e1)))
          (λ e h' w. goes_on pool v e h' w))
        λ a h1 w1. destroy_volumes-lem pool v volumes h1 w1

  forced-lem :
      (pool : Text) (v : View) (h : Host)
      → Within pool v tt h
      → Ensures
          (Within pool v)
          (Within pool v)
          (try_except
            (do volume_names ← st.list_volumes pool; destroy_volumes st pool volume_names)
            log_libvirt)
          h
  forced-lem pool v h (p, fewer, same) =
      Ensures-try {Q = Within {A = Problem} pool v} _ log_libvirt h
        (Ensures-bind (st.list_volumes pool) _ h
          (Ensures-weaken (st.list_volumes pool) h (ps.list_lem pool h) (λ l h' e. e ∙ same)
            (λ q h' e. (p, fewer, e ∙ same)))
          λ volumes h1 e1. destroy_volumes-lem pool v volumes h1 (p, fewer, e1))
        (λ e h' w. goes_on pool v e h' w)

  present-pool :
      (pool : Text) (v : View)
      → is_some (v pool) ≡ true
      → (p : Volumes) × NoMore pool v p × (v ≡ set_pool pool (some p) v)
  present-pool pool v there = elim (Option-cases (v pool)) [
    | inl absent ↦ absurd (ground (arith, absent, there))
    | inr (p, e) ↦ (
      p,
      λ volume lacks. sym (has_volume-at pool volume v p e) ∙ lacks,
      fun_ext λ other. ground (arith, text_eq_iff pool other, e),
    )
  ]

  -- After a destruction that raises, and after one that returns: nothing differs where no pool was seen.
  abbrev pub HalfDestroyed : (pool : Text) → View → Host → Type 0
  HalfDestroyed pool v h = (view h ≡ v) ⊎ Within pool v tt h

  abbrev pub Destroyed : (pool : Text) → View → Bool → Host → Type 0
  Destroyed pool v b h =
      (b ≡ true) × ((view h ≡ set_pool pool none v) ⊎ ((ps.lookup_may_fail ≡ true) × (view h ≡ v)))

  Destroyed-Unseen :
      (pool : Text) (v : View) (h : Host)
      → Unseen ps (is_some (v pool))
      → view h ≡ v
      → Destroyed pool v true h
  Destroyed-Unseen pool v h (inl fails) same = (refl, inr (fails, same))
  Destroyed-Unseen pool v h (inr gone) same = (refl, inl (same ∙ set_pool-absent pool v gone))

  -- The end of a destruction, from where the volumes are deleted.
  undefined-lem :
      (pool : Text) (v : View) (h : Host)
      → Within pool v tt h
      → Ensures
          (Destroyed pool v)
          (λ e h'. HalfDestroyed pool v h')
          (do
            active ← st.pool_active pool
            if active then st.destroy_pool pool else pure tt
            st.undefine_pool pool
            pure true)
          h
  undefined-lem pool v h (q, fewer, same) =
      Ensures-bind (st.pool_active pool) _ h
        (Ensures-weaken (st.pool_active pool) h (ps.active_lem pool h) (λ b h' f. f ∙ same)
          (λ r h' f. inr (q, fewer, f ∙ same)))
        λ active h4 e4.
          Ensures-bind _ _ h4
            (Ensures-if active _ _ h4
              (λ running.
                Ensures-weaken (st.destroy_pool pool) h4 (ps.destroy_lem pool h4) (λ b h' f. f ∙ e4)
                  (λ r h' f. inr (q, fewer, f ∙ e4)))
              (λ idle. Ensures-pure tt h4 e4))
            λ b h5 e5.
              Ensures-bind (st.undefine_pool pool) _ h5
                (Ensures-weaken (st.undefine_pool pool) h5 (ps.undefine_lem pool h5)
                  (λ c h' f. f ∙ ap (set_pool pool none) e5 ∙ set_pool-twice pool (some q) none v)
                  (λ r h' f. inr (q, fewer, f ∙ e5)))
                λ c h6 e6. Ensures-pure true h6 (refl, inl e6)

  destroy-lem :
      (cluster_name : Text) (force : Bool) (h : Host)
      → Ensures
          (Destroyed (pool_name cluster_name) (view h))
          (λ e h'. (e ≡ volume_error) × HalfDestroyed (pool_name cluster_name) (view h) h')
          (destroy_cluster_pool st cluster_name force)
          h
  unfolding destroy_cluster_pool
  destroy-lem cluster_name force h =
      let pool = pool_name cluster_name in
      let v = view h in
      Ensures-try {Q = λ e h'. HalfDestroyed pool v h'} _ (all_to volume_error) h
        (Ensures-bind (pool_exists st pool) _ h
          (Ensures-weaken (pool_exists st pool) h (pool_exists-lem ps v pool h refl) (λ b h' e. e)
            (λ p h' e. inl e))
          λ present h1 e1.
            Ensures-if (not present) _ _ h1
              (λ missing. Ensures-pure true h1 (
                Destroyed-Unseen pool v h1
                  (Answers-false ps (is_some (v pool)) present e1.0 (ground arith)) e1.1))
              λ found.
                after_lookup ps v pool _ h1 e1.1 (λ e h' m. inl m.1)
                  λ h2 there e2.
                    let (p, fewer, e) = present-pool pool v there in
                    Ensures-bind {P = Within {A = Unit} pool v} _ _ h2
                      (Ensures-if force _ _ h2
                        (λ yes_force.
                          Ensures-weaken _ h2 (forced-lem pool v h2 (p, fewer, e2 ∙ e))
                            (λ a h' w. w) (λ q h' w. inr w))
                        (λ no_force. Ensures-pure tt h2 (p, fewer, e2 ∙ e)))
                      λ a h3 w3. undefined-lem pool v h3 w3)
        λ e h' left. Ensures-raise volume_error h' (refl, left)

-- Where libvirt's storage calls do their work or raise: `create_cluster_pool` returns the pool's name, and the pool was
-- there and nothing changed (whatever volumes it has), or it was not seen and is now there with the base
-- volume; `destroy_cluster_pool` returns `True`, and the pool is absent. Where they raise, it is
-- `VolumeManagerError`; a failed creation leaves a pool that was not seen as it was or there, and a
-- failed destruction leaves the pool with no volume that it did not have. No other pool changes,
-- failures included. Only an absent pool is not seen, unless a lookup may fail for another reason; then
-- `destroy_cluster_pool` may also return `True` with nothing changed.
pub cluster_pool-lem :
    {Host : Type 0} {st : Storage Host} (ps : Pools st)
    (cluster_name pool_path base_image_path : Text) (force : Bool) (h : Host)
    → Ensures
        (PoolCreated ps (pool_name cluster_name) (base_volume_name cluster_name) (ps.view h))
        (λ e h'. (e ≡ volume_error) × PoolLeft ps (pool_name cluster_name) (ps.view h) h')
        (create_cluster_pool st cluster_name pool_path base_image_path)
        h
      × Ensures
          (Destroyed ps (pool_name cluster_name) (ps.view h))
          (λ e h'. (e ≡ volume_error) × HalfDestroyed ps (pool_name cluster_name) (ps.view h) h')
          (destroy_cluster_pool st cluster_name force)
          h
cluster_pool-lem ps cluster_name pool_path base_image_path force h = (
  create_cluster_pool-lem ps cluster_name pool_path base_image_path h,
  destroy-lem ps cluster_name force h,
)
