-- ===== src/Volume/Pools/Forced.antt =====
-- What the forced destruction of a pool leaves in the directory of the pool.
use ai_hyperscaler_on_workst.Common.{
  ◌≡◌, ◌⊎◌, inl, inr, refl, sym, ap, ◌∙◌, arith, List, [], ◌∷◌, Bool, true, false, Text, Bool-cases,
  not, if◌then◌else◌,
}
use ai_hyperscaler_on_workst.Common.Exec.{Result, ok, err, pure, try_except, ◌>>=◌, ◌>>◌}
use ai_hyperscaler_on_workst.Common.Ensures.{
  Post, Ensures, Ensures-any, Ensures-weaken, Ensures-pure, Ensures-raise, Ensures-try, Ensures-if,
  Ensures-bind,
}
use ai_hyperscaler_on_workst.Common.Keeps.{Keeps}
use ai_hyperscaler_on_workst.Problem.{
  Problem, libvirt_error, connection_error, lifecycle_error, network_error, volume_error,
  state_error, hpc_error, other_error, Act, all_to,
}
use ai_hyperscaler_on_workst.Volume.{Storage, pool_name, pool_exists}
use ai_hyperscaler_on_workst.Volume.View.{Volumes, set_volume}
use ai_hyperscaler_on_workst.Volume.Pools.Views.{set_volume-at}
use ai_hyperscaler_on_workst.Volume.Pools.{log_libvirt, destroy_volumes, destroy_cluster_pool}

-- A volume stands in a list of names.
abbrev pub Among : List Text → Text → Type 0
Among [] v = ⊥
Among (volume ∷ volumes) v = (v ≡ volume) ⊎ Among volumes v

-- The volumes in the directory of a pool, which are there whether or not the pool is defined. A listing has them all,
-- and a lookup raises for one that is missing; `may_fail` says whether a listing, a lookup or a deletion
-- may raise for another reason. The other calls of a destruction touch no volume.
pub record HasVolumes {Host : Type 0} (st : Storage Host) (pool : Text) : Type 0 where
  pub volumes : Host → Volumes
  pub may_fail : Bool
  pub active_lem : Keeps volumes (st.pool_active pool)
  pub destroy_lem : Keeps volumes (st.destroy_pool pool)
  pub undefine_lem : Keeps volumes (st.undefine_pool pool)
  pub list_lem :
      (h : Host)
      → Ensures
          (λ names h'. (v : Text) → volumes h' v ≡ true → Among names v)
          (λ e h'. may_fail ≡ true)
          (st.list_volumes pool)
          h
  pub lookup_lem :
      (volume : Text) (h : Host)
      → Ensures
          (λ done h'. volumes h' ≡ volumes h)
          (λ e h'. ((may_fail ≡ true) ⊎ (volumes h volume ≡ false)) × (volumes h' ≡ volumes h))
          (st.lookup_volume pool volume)
          h
  pub delete_lem :
      (volume : Text) (h : Host)
      → Ensures
          (λ done h'. volumes h' ≡ set_volume volume false (volumes h))
          (λ e h'. may_fail ≡ true)
          (st.delete_volume pool volume)
          h

unset : (volume v : Text) (p : Volumes) → set_volume volume false p v ≡ true → p v ≡ true
unset volume v p h = ground arith

abbrev is_libvirt : Problem → Bool
is_libvirt libvirt_error = true
is_libvirt _ = false

-- The handler raises what is no `libvirtError` again.
log_libvirt-lem :
    {Host : Type 0} (P : Host → Type 0) (e : Problem) (h : Host)
    → (is_libvirt e ≡ true → P h)
    → Ensures {A = Unit} (λ a h'. P h') (λ e' h'. is_libvirt e' ≡ false) (log_libvirt e) h
log_libvirt-lem P libvirt_error h f = Ensures-pure {E = Problem} tt h (f refl)
log_libvirt-lem P connection_error h f = Ensures-raise connection_error h refl
log_libvirt-lem P lifecycle_error h f = Ensures-raise lifecycle_error h refl
log_libvirt-lem P network_error h f = Ensures-raise network_error h refl
log_libvirt-lem P volume_error h f = Ensures-raise volume_error h refl
log_libvirt-lem P state_error h f = Ensures-raise state_error h refl
log_libvirt-lem P hpc_error h f = Ensures-raise hpc_error h refl
log_libvirt-lem P other_error h f = Ensures-raise other_error h refl

found :
    {A : Type 0} {Host : Type 0} (x : Result Problem A × Host) (a : A)
    → x.0 ≡ ok a
    → Post (λ b h. b ≡ a) (λ e h. Unit {0}) x
found (ok b, h) a e = ground arith
found (err p, h) a e = tt

module _ {Host : Type 0} {st : Storage Host} {pool : Text} (vs : HasVolumes st pool) where
  open vs use {volumes, may_fail}

  -- Every volume that is left is still to be deleted.
  abbrev Covered : {A : Type 0} → List Text → A → Host → Type 0
  Covered names a h = (v : Text) → volumes h v ≡ true → Among names v

  abbrev pub NoVolumes : Host → Type 0
  NoVolumes h = (v : Text) → volumes h v ≡ false

  abbrev Anything : Problem → Host → Type 0
  Anything e h = Unit {0}

  Covered-none : (h : Host) → Covered [] tt h → NoVolumes h
  Covered-none h c v = elim (Bool-cases (volumes h v)) [
    | inl there ↦ absurd (c v there)
    | inr gone ↦ gone
  ]

  Covered-rest :
      (volume : Text) (names : List Text) (h h' : Host)
      → Covered (volume ∷ names) tt h
      → volumes h' volume ≡ false
      → ((v : Text) → volumes h' v ≡ true → volumes h v ≡ true)
      → Covered names tt h'
  Covered-rest volume names h h' c gone fewer v there = elim (c v (fewer v there)) [
    | inl same ↦ absurd (ground (arith, ap (volumes h') same))
    | inr later ↦ later
  ]

  module _ (reliable : may_fail ≡ false) where
    never : {P : Type 0} → may_fail ≡ true → P
    never fails = absurd (ground (arith, reliable))

    was_missing :
        (volume : Text) (h : Host)
        → (may_fail ≡ true) ⊎ (volumes h volume ≡ false)
        → volumes h volume ≡ false
    was_missing volume h (inl fails) = never fails
    was_missing volume h (inr missing) = missing

    one-lem :
        (volume : Text) (names : List Text) (h : Host)
        → Covered (volume ∷ names) tt h
        → Ensures
            (Covered names)
            (λ e h'. is_libvirt e ≡ false)
            (try_except (do st.lookup_volume pool volume; st.delete_volume pool volume) log_libvirt)
            h
    one-lem volume names h c =
        Ensures-try {Q = Covered {A = Problem} names} _ log_libvirt h
          (Ensures-bind (st.lookup_volume pool volume) _ h
            (Ensures-weaken (st.lookup_volume pool volume) h (vs.lookup_lem volume h) (λ a h' e. e)
              (λ p h' e.
                Covered-rest volume names h h' c
                  (ap (λ (w : Volumes). w volume) e.1 ∙ was_missing volume h e.0)
                  (λ v there. sym (ap (λ (w : Volumes). w v) e.1) ∙ there)))
            λ a h1 e1.
              Ensures-weaken (st.delete_volume pool volume) h1 (vs.delete_lem volume h1)
                (λ b h' e.
                  Covered-rest volume names h h' c
                    (ap (λ (w : Volumes). w volume) e ∙ set_volume-at volume false (volumes h1))
                    (λ v there.
                      sym (ap (λ (w : Volumes). w v) e1)
                      ∙ unset volume v (volumes h1) (sym (ap (λ (w : Volumes). w v) e) ∙ there)))
                (λ p h' fails. never fails))
          (λ e h' covered. log_libvirt-lem (λ h''. Covered names tt h'') e h' (λ logged. covered))

    destroy_volumes-lem :
        (names : List Text) (h : Host)
        → Covered names tt h
        → Ensures
            (λ a h'. NoVolumes h')
            (λ e h'. is_libvirt e ≡ false)
            (destroy_volumes st pool names)
            h
    unfolding destroy_volumes
    destroy_volumes-lem [] h c = Ensures-pure tt h (Covered-none h c)
    destroy_volumes-lem (volume ∷ names) h c =
        Ensures-bind _ _ h (one-lem volume names h c) λ a h1 c1. destroy_volumes-lem names h1 c1

    -- A call that touches no volume, after the volumes are gone.
    quiet :
        {A : Type 0} (m : Act Host A) (h : Host)
        → Keeps volumes m
        → NoVolumes h
        → Ensures (λ a h'. NoVolumes h') Anything m h
    quiet m h k gone =
        Ensures-weaken m h (k.at h) (λ a h' e v. ap (λ (w : Volumes). w v) e ∙ gone v)
          (λ p h' e. tt)

    forced-lem :
        (h : Host)
        → Ensures
            (λ a h'. NoVolumes h')
            Anything
            (try_except
              (do names ← st.list_volumes pool; destroy_volumes st pool names)
              log_libvirt)
            h
    forced-lem h =
        Ensures-try {Q = λ e h'. is_libvirt e ≡ false} _ log_libvirt h
          (Ensures-bind (st.list_volumes pool) _ h
            (Ensures-weaken (st.list_volumes pool) h (vs.list_lem h) (λ names h' c. c)
              (λ p h' fails. never fails))
            λ names h1 c. destroy_volumes-lem names h1 c)
          (λ e h' other.
            Ensures-weaken (log_libvirt e) h'
              (log_libvirt-lem NoVolumes e h' (λ logged. ground (arith, other)))
              (λ a h'' gone. gone) (λ p h'' t. tt))

    undefined-lem :
        (h : Host)
        → NoVolumes h
        → Ensures
            (λ b h'. NoVolumes h')
            Anything
            (do
              active ← st.pool_active pool
              if active then st.destroy_pool pool else pure tt
              st.undefine_pool pool
              pure true)
            h
    undefined-lem h gone =
        Ensures-bind (st.pool_active pool) _ h (quiet (st.pool_active pool) h vs.active_lem gone)
          λ active h1 gone1.
            Ensures-bind _ _ h1
              (Ensures-if active _ _ h1
                (λ running. quiet (st.destroy_pool pool) h1 vs.destroy_lem gone1)
                (λ idle. Ensures-pure tt h1 gone1))
              λ a h2 gone2.
                Ensures-bind (st.undefine_pool pool) _ h2
                  (quiet (st.undefine_pool pool) h2 vs.undefine_lem gone2)
                  λ b h3 gone3. Ensures-pure true h3 gone3

module _ {Host : Type 0} {st : Storage Host} (cluster_name : Text)
    (vs : HasVolumes st (pool_name cluster_name)) where
  reliable-lem :
      (h : Host)
      → vs.may_fail ≡ false
      → (pool_exists st (pool_name cluster_name) h).0 ≡ ok true
      → Ensures
          (λ b h'. NoVolumes vs h')
          (Anything vs)
          (destroy_cluster_pool st cluster_name true)
          h
  unfolding destroy_cluster_pool
  reliable-lem h reliable seen =
      let pool = pool_name cluster_name in
      Ensures-try {Q = Anything vs} _ (all_to volume_error) h
        (Ensures-bind {P = λ b h'. b ≡ true} (pool_exists st pool) _ h
          (record { at = found (pool_exists st pool h) true seen })
          λ present h1 there.
            Ensures-if (not present) _ _ h1 (λ missing. absurd (ground (arith, there)))
              λ known. Ensures-bind st.connect _ h1 (Ensures-any _ h1) λ a h2 t2.
                Ensures-bind (st.lookup_pool pool) _ h2 (Ensures-any _ h2) λ b h3 t3.
                  Ensures-bind _ _ h3 (forced-lem vs reliable h3)
                    λ c h4 gone. undefined-lem vs reliable h4 gone)
        (λ e h' t. Ensures-raise volume_error h' tt)

-- Where the pool is seen, a forced `destroy_cluster_pool` that returns has deleted every volume in the pool's
-- directory, unless a listing, a lookup or a deletion may raise for another reason than that a volume is
-- missing.
pub destroy_cluster_pool-NoVolumes :
    {Host : Type 0} {st : Storage Host} (cluster_name : Text)
    (vs : HasVolumes st (pool_name cluster_name)) (h : Host)
    → (pool_exists st (pool_name cluster_name) h).0 ≡ ok true
    → Ensures
        (λ b h'. (vs.may_fail ≡ true) ⊎ NoVolumes vs h')
        (λ e h'. Unit {0})
        (destroy_cluster_pool st cluster_name true)
        h
destroy_cluster_pool-NoVolumes {Host} {st} cluster_name vs h seen = elim (Bool-cases vs.may_fail) [
  | inl fails ↦
      Ensures-weaken (destroy_cluster_pool st cluster_name true) h (Ensures-any _ h)
        (λ b h' t. inl fails) (λ e h' t. tt)
  | inr reliable ↦
      Ensures-weaken (destroy_cluster_pool st cluster_name true) h
        (reliable-lem cluster_name vs h reliable seen) (λ b h' gone. inr gone) (λ e h' t. tt)
]
