-- ===== src/Volume/Vms/Laws.antt =====
-- `destroy_vm_volume` on the volumes of the pool, beside `create_vm_volume`.
use ai_hyperscaler_on_workst.Common.{
  ℕ, ◌≡◌, ◌≢◌, ◌⊎◌, inl, inr, refl, sym, ap, ◌∙◌, arith, [], ◌∷◌, Bool, true, false, Text, codes,
  not, is_some,
}
use ai_hyperscaler_on_workst.Common.Exec.{pure, raise}
use ai_hyperscaler_on_workst.Common.Ensures.{
  Ensures, Ensures-weaken, Ensures-pure, Ensures-raise, Ensures-try, Ensures-if, Ensures-bind,
  Ensures-gets,
}
use ai_hyperscaler_on_workst.Problem.{Problem, libvirt_error, volume_error, all_to}
use ai_hyperscaler_on_workst.Volume.{
  Storage, LibvirtError, pool_name, volume_name, is_libvirt_not_found_error, pool_exists,
}
use ai_hyperscaler_on_workst.Volume.View.{
  View, has_volume, put_volume, Pools, Unseen, Answers-false, after_lookup, pool_exists-lem,
}
use ai_hyperscaler_on_workst.Volume.Vms.{create_vm_volume, true_if_not_found, destroy_vm_volume}
use ai_hyperscaler_on_workst.Volume.Vms.Views.{put_volume_self, not_there}
use ai_hyperscaler_on_workst.Volume.Vms.Create.{VolumeLeft, create_vm_volume-lem}

-- The error that the code looks for is raised only by the lookup of a missing volume.
pub record HasCodes {Host : Type 0} {st : Storage Host} (ps : Pools st) : Type 0 where
  pub lookup_code :
      (pool volume : Text) (h : Host)
      → Ensures
          (λ done h'. ps.view h' ≡ ps.view h)
          (λ e h'.
            ((has_volume (ps.view h) pool volume ≡ false)
              ⊎ (is_libvirt_not_found_error
                    (st.last_error h')
                    st.no_storage_vol
                    (codes "not found" ∷ [])
                  ≡ false))
            × (ps.view h' ≡ ps.view h))
          (st.lookup_volume pool volume)
          h
  pub path_code :
      (pool volume : Text) (h : Host)
      → Ensures
          (λ p h'. ps.view h' ≡ ps.view h)
          (λ e h'.
            (is_libvirt_not_found_error
                (st.last_error h')
                st.no_storage_vol
                (codes "not found" ∷ [])
              ≡ false)
            × (ps.view h' ≡ ps.view h))
          (st.volume_path pool volume)
          h
  pub delete_code :
      (pool volume : Text) (h : Host)
      → Ensures
          (λ done h'. ps.view h' ≡ put_volume pool volume false (ps.view h))
          (λ e h'.
            (is_libvirt_not_found_error
                (st.last_error h')
                st.no_storage_vol
                (codes "not found" ∷ [])
              ≡ false)
            × (ps.view h' ≡ ps.view h))
          (st.delete_volume pool volume)
          h

true-ne-false : true ≢ false
true-ne-false e = cc

module _ {Host : Type 0} {st : Storage Host} {ps : Pools st} (cs : HasCodes ps) where
  open ps use {view}

  abbrev not_found : Host → Bool
  not_found h =
      is_libvirt_not_found_error (st.last_error h) st.no_storage_vol (codes "not found" ∷ [])

  -- What the deletion leaves when it raises.
  abbrev Undeleted : (pool volume : Text) → View → Problem → Host → Type 0
  Undeleted pool volume v e h =
      ((has_volume v pool volume ≡ false) ⊎ (not_found h ≡ false)) × (view h ≡ v)

  -- The answer of a deletion, which sees no pool where the lookup of the pool fails.
  abbrev pub Deleted : (pool volume : Text) → View → Bool → Host → Type 0
  Deleted pool volume v b h =
      (b ≡ true)
      × ((view h ≡ put_volume pool volume false v) ⊎ ((ps.lookup_may_fail ≡ true) × (view h ≡ v)))

  Deleted-Unseen :
      (pool volume : Text) (v : View) (h : Host)
      → Unseen ps (is_some (v pool))
      → view h ≡ v
      → Deleted pool volume v true h
  Deleted-Unseen pool volume v h (inl fails) same = (refl, inr (fails, same))
  Deleted-Unseen pool volume v h (inr gone) same =
      (refl, inl (same ∙ sym (put_volume_self pool volume false v (not_there pool volume v gone))))

  has_same :
      (pool volume : Text) (v : View) (h h' : Host)
      → view h ≡ v
      → (has_volume (view h) pool volume ≡ false) ⊎ (not_found h' ≡ false)
      → (has_volume v pool volume ≡ false) ⊎ (not_found h' ≡ false)
  has_same pool volume v h h' e (inl lacks) =
      inl (ap (λ (w : View). has_volume w pool volume) (sym e) ∙ lacks)
  has_same pool volume v h h' e (inr other) = inr other

  clash :
      (le : LibvirtError) (h : Host)
      → le ≡ st.last_error h
      → not_found h ≡ false
      → is_libvirt_not_found_error le st.no_storage_vol (codes "not found" ∷ []) ≡ true
      → ⊥
  clash le h known other found = true-ne-false (
      sym found
      ∙ ap
          (λ (e : LibvirtError).
            is_libvirt_not_found_error e st.no_storage_vol (codes "not found" ∷ []))
          known
      ∙ other)

  handled-lem :
      (pool volume : Text) (v : View) (e : Problem) (h : Host)
      → Undeleted pool volume v e h
      → Ensures (Deleted pool volume v) (λ e' h'. view h' ≡ v) (true_if_not_found st e) h
  unfolding true_if_not_found
  handled-lem pool volume v libvirt_error h (inl gone, same) =
      Ensures-gets st.last_error _ h (λ le known.
        Ensures-if (is_libvirt_not_found_error le st.no_storage_vol (codes "not found" ∷ []))
          (pure true) (raise libvirt_error) h
          (λ found.
            Ensures-pure true h (refl, inl (same ∙ sym (put_volume_self pool volume false v gone))))
          (λ other. Ensures-raise libvirt_error h same))
  handled-lem pool volume v libvirt_error h (inr other, same) =
      Ensures-gets st.last_error _ h (λ le known.
        Ensures-if (is_libvirt_not_found_error le st.no_storage_vol (codes "not found" ∷ []))
          (pure true) (raise libvirt_error) h (λ found. absurd (clash le h known other found))
          (λ unknown. Ensures-raise libvirt_error h same))
  handled-lem pool volume v e h (u, same) = Ensures-raise e h same

  destroy-lem :
      (cluster_name vm_name : Text) (h : Host)
      → Ensures
          (Deleted (pool_name cluster_name) (volume_name vm_name) (view h))
          (λ e h'. (e ≡ volume_error) × (view h' ≡ view h))
          (destroy_vm_volume st cluster_name vm_name)
          h
  unfolding destroy_vm_volume
  destroy-lem cluster_name vm_name h =
      let pool = pool_name cluster_name in
      let volume = volume_name vm_name in
      let v = view h in
      Ensures-try {Q = λ e h'. view h' ≡ v} _ (all_to volume_error) h
        (Ensures-bind (pool_exists st pool) _ h (pool_exists-lem ps v pool h refl) λ present h1 e1.
          Ensures-if (not present) _ _ h1
            (λ missing. Ensures-pure true h1 (
              Deleted-Unseen pool volume v h1
                (Answers-false ps (is_some (v pool)) present e1.0 (ground arith)) e1.1))
            λ found.
              after_lookup ps v pool _ h1 e1.1 (λ e h' m. m.1)
                λ h2 there e2.
                  Ensures-try {Q = λ e h'. Undeleted pool volume v e h'} _ (true_if_not_found st) h2
                    (Ensures-bind (st.lookup_volume pool volume) _ h2
                      (Ensures-weaken (st.lookup_volume pool volume) h2
                        (cs.lookup_code pool volume h2) (λ a h' e. e ∙ e2)
                        (λ p h' e. (has_same pool volume v h2 h' e2 e.0, e.1 ∙ e2)))
                      λ a h3 e3.
                        Ensures-bind (st.volume_path pool volume) _ h3
                          (Ensures-weaken (st.volume_path pool volume) h3
                            (cs.path_code pool volume h3) (λ b h' e. e ∙ e3)
                            (λ p h' e. (inr e.0, e.1 ∙ e3)))
                          λ path h4 e4.
                            Ensures-bind (st.delete_volume pool volume) _ h4
                              (Ensures-weaken (st.delete_volume pool volume) h4
                                (cs.delete_code pool volume h4)
                                (λ b h' e. e ∙ ap (put_volume pool volume false) e4)
                                (λ p h' e. (inr e.0, e.1 ∙ e4)))
                              λ b h5 e5. Ensures-pure true h5 (refl, inl e5))
                    (λ e h' u. handled-lem pool volume v e h' u))
        λ e h' same. Ensures-raise volume_error h' (refl, same)

-- Where libvirt's storage calls do their work or raise, and only the lookup of a missing volume raises the error that the
-- code looks for: `create_vm_volume` returns only with the pool there and the VM's volume in it, and
-- `destroy_vm_volume` returns `True` only with the volume gone, unless the lookup of the pool may fail for
-- another reason than that it is absent, when it may also return `True` with nothing changed. No other
-- volume or pool changes. Where they raise, it is `VolumeManagerError`: a failed destruction changes
-- nothing, and a failed creation at most leaves the volume there.
pub vm_volume-lem :
    {Host : Type 0} {st : Storage Host} (ps : Pools st) (cs : HasCodes ps)
    (cluster_name vm_name : Text) (size_gb : ℕ) (h : Host)
    → Ensures
        (λ path h'.
          (is_some (ps.view h (pool_name cluster_name)) ≡ true)
          × (ps.view h'
              ≡ put_volume (pool_name cluster_name) (volume_name vm_name) true (ps.view h)))
        (λ e h'.
          (e ≡ volume_error)
          × VolumeLeft ps (pool_name cluster_name) (volume_name vm_name) (ps.view h) h')
        (create_vm_volume st cluster_name vm_name size_gb)
        h
      × Ensures
          (Deleted cs (pool_name cluster_name) (volume_name vm_name) (ps.view h))
          (λ e h'. (e ≡ volume_error) × (ps.view h' ≡ ps.view h))
          (destroy_vm_volume st cluster_name vm_name)
          h
vm_volume-lem ps cs cluster_name vm_name size_gb h =
    (create_vm_volume-lem ps cluster_name vm_name size_gb h, destroy-lem cs cluster_name vm_name h)
