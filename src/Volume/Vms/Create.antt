-- ===== src/Volume/Vms/Create.antt =====
-- `create_vm_volume` on the volumes of the pool.
use ai_hyperscaler_on_workst.Common.{
  ℕ, ◌≡◌, ◌⊎◌, inl, inr, refl, sym, ap, ◌∙◌, Option, none, some, true, Text, not, is_some,
}
use ai_hyperscaler_on_workst.Common.Exec.{pure, raise, try_except, ◌>>◌}
use ai_hyperscaler_on_workst.Common.Ensures.{
  Ensures, Ensures-weaken, Ensures-pure, Ensures-raise, Ensures-try, Ensures-if, Ensures-bind,
}
use ai_hyperscaler_on_workst.Problem.{Problem, libvirt_error, volume_error, libvirt_to, all_to}
use ai_hyperscaler_on_workst.Volume.{
  Storage, pool_name, base_volume_name, volume_name, join_path, cow_volume, pool_exists,
}
use ai_hyperscaler_on_workst.Volume.View.{
  View, has_volume, put_volume, Pools, At, after_lookup, after_volume, pool_exists-lem,
}
use ai_hyperscaler_on_workst.Volume.Vms.{
  none_if_libvirt, get_pool_path, existing_path, create_vm_volume,
}
use ai_hyperscaler_on_workst.Volume.Vms.Views.{put_volume_self}

module _ {Host : Type 0} {st : Storage Host} (ps : Pools st) where
  open ps use {view}

  converted :
      {A : Type 0} {R : A → Host → Type 0} {Q : Problem → Host → Type 0} (e : Problem) (h : Host)
      → ((other : Problem) → Q other h)
      → Ensures R Q (libvirt_to {A = A} volume_error e) h
  converted libvirt_error h f = Ensures-raise volume_error h (f volume_error)
  converted e h f = Ensures-raise e h (f e)

  none-lem :
      {A : Type 0} {R : Option A → Host → Type 0} {Q : Problem → Host → Type 0} (e : Problem)
      (h : Host)
      → (e ≡ libvirt_error → R none h)
      → Q e h
      → Ensures R Q (none_if_libvirt {A = A} e) h
  none-lem libvirt_error h f g = Ensures-pure none h (f refl)
  none-lem e h f g = Ensures-raise e h g

  some-lem :
      (v : View) (path : Option Text) (h : Host)
      → view h ≡ v
      → Ensures {A = Text}
          (At ps v)
          (At ps v)
          (elim path [ none ↦ raise volume_error | some found ↦ pure found ])
          h
  some-lem v none h same = Ensures-raise volume_error h same
  some-lem v (some path) h same = Ensures-pure path h same

  path-lem :
      (v : View) (pool : Text) (h : Host)
      → view h ≡ v
      → Ensures (At ps v) (At ps v) (get_pool_path st pool) h
  unfolding get_pool_path
  path-lem v pool h same =
      Ensures-bind (st.pool_path pool) _ h
        (Ensures-weaken (st.pool_path pool) h (ps.path_lem pool h) (λ a h' e. e ∙ same)
          (λ p h' e. e ∙ same))
        λ path h1 e1. some-lem v path h1 e1

  -- An answer names a volume that is there; where there is none, the volume may only have lost its path.
  abbrev Found : (pool volume : Text) → View → Option Text → Host → Type 0
  Found pool volume v none h = view h ≡ v
  Found pool volume v (some path) h = (has_volume v pool volume ≡ true) × (view h ≡ v)

  existing-lem :
      (v : View) (pool volume : Text) (h : Host)
      → view h ≡ v
      → Ensures (Found pool volume v) (At ps v) (existing_path st pool volume) h
  unfolding existing_path
  existing-lem v pool volume h same =
      Ensures-try {Q = At ps {A = Problem} v} _ none_if_libvirt h
        (after_volume ps v pool volume _ h same (λ e h' lost gone e'. e')
          λ h1 has e1.
            Ensures-bind (st.volume_path pool volume) _ h1
              (Ensures-weaken (st.volume_path pool volume) h1 (ps.volume_path_lem pool volume h1)
                (λ a h' e. e ∙ e1) (λ p h' e. e ∙ e1))
              λ path h2 e2. Ensures-pure (some path) h2 (has, e2))
        (λ e h' same'. none-lem e h' (λ lost. same') same')

  abbrev pub VolumeLeft : (pool volume : Text) → View → Host → Type 0
  VolumeLeft pool volume v h = (view h ≡ v) ⊎ (view h ≡ put_volume pool volume true v)

  made-lem :
      (v : View) (pool volume base_path : Text) (size_gb : ℕ) (existing : Option Text) (h : Host)
      → Found pool volume v existing h
      → Ensures
          (λ path h'. view h' ≡ put_volume pool volume true v)
          (λ e h'. VolumeLeft pool volume v h')
          (elim existing [
            | some path ↦ pure path
            | none ↦
                try_except
                  (do
                    st.create_volume pool (cow_volume volume size_gb base_path)
                    st.volume_path pool volume)
                  (libvirt_to volume_error)
          ])
          h
  made-lem v pool volume base_path size_gb (some path) h (has, same) =
      Ensures-pure path h (same ∙ sym (put_volume_self pool volume true v has))
  made-lem v pool volume base_path size_gb none h same =
      let xml = cow_volume volume size_gb base_path in
      Ensures-try {Q = λ e h'. VolumeLeft pool volume v h'} _ (libvirt_to volume_error) h
        (Ensures-bind (st.create_volume pool xml) _ h
          (Ensures-weaken (st.create_volume pool xml) h (ps.create_volume_lem pool xml h)
            (λ a h' e. e ∙ ap (put_volume pool volume true) same) (λ p h' e. inl (e ∙ same)))
          λ a h1 e1.
            Ensures-weaken (st.volume_path pool volume) h1 (ps.volume_path_lem pool volume h1)
              (λ b h' e. e ∙ e1) (λ p h' e. inr (e ∙ e1)))
        (λ e h' left. converted e h' (λ other. left))

  pub create_vm_volume-lem :
      (cluster_name vm_name : Text) (size_gb : ℕ) (h : Host)
      → Ensures
          (λ path h'.
            (is_some (view h (pool_name cluster_name)) ≡ true)
            × (view h' ≡ put_volume (pool_name cluster_name) (volume_name vm_name) true (view h)))
          (λ e h'.
            (e ≡ volume_error)
            × VolumeLeft (pool_name cluster_name) (volume_name vm_name) (view h) h')
          (create_vm_volume st cluster_name vm_name size_gb)
          h
  unfolding create_vm_volume
  create_vm_volume-lem cluster_name vm_name size_gb h =
      let pool = pool_name cluster_name in
      let volume = volume_name vm_name in
      let v = view h in
      Ensures-try {Q = λ e h'. VolumeLeft pool volume v h'} _ (all_to volume_error) h
        (Ensures-bind (pool_exists st pool) _ h
          (Ensures-weaken (pool_exists st pool) h (pool_exists-lem ps v pool h refl) (λ b h' e. e)
            (λ p h' e. inl e))
          λ present h1 e1.
            Ensures-if (not present) _ _ h1 (λ missing. Ensures-raise volume_error h1 (inl e1.1))
              λ found.
                after_lookup ps v pool _ h1 e1.1 (λ e h' m. inl m.1)
                  λ h2 there e2.
                    Ensures-bind (get_pool_path st pool) _ h2
                      (Ensures-weaken (get_pool_path st pool) h2 (path-lem v pool h2 e2)
                        (λ a h' e. e) (λ p h' e. inl e))
                      λ pool_path h3 e3.
                        Ensures-bind (existing_path st pool volume) _ h3
                          (Ensures-weaken (existing_path st pool volume) h3
                            (existing-lem v pool volume h3 e3) (λ a h' e. e) (λ p h' e. inl e))
                          λ existing h4 f.
                            Ensures-weaken _ h4
                              (made-lem v pool volume
                                (join_path pool_path (base_volume_name cluster_name)) size_gb
                                existing h4 f)
                              (λ a h' e. (there, e)) (λ p h' e. e))
        λ e h' left. Ensures-raise volume_error h' (refl, left)
