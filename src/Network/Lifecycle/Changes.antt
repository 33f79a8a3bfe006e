-- ===== src/Network/Lifecycle/Changes.antt =====
-- Creating and destroying the network of a cluster, on the status of the networks.
use ai_hyperscaler_on_workst.Common.{
  ◌≡◌, ◌⊎◌, inl, inr, refl, sym, ap, ◌∙◌, arith, Bool, true, false, Text, not,
}
use ai_hyperscaler_on_workst.Common.Dict.{Dict}
use ai_hyperscaler_on_workst.Common.Exec.{Result, ok, err, pure, raise, ◌>>◌}
use ai_hyperscaler_on_workst.Common.Ensures.{
  Post, Ensures, Ensures-any, Ensures-weaken, Ensures-pure, Ensures-raise, Ensures-try, Ensures-if,
  Ensures-bind,
}
use ai_hyperscaler_on_workst.Common.Keeps.{kept}
use ai_hyperscaler_on_workst.Problem.{Problem, network_error, libvirt_to, all_to}
use ai_hyperscaler_on_workst.Config.{NetworkSettings}
use ai_hyperscaler_on_workst.Network.{Ip}
use ai_hyperscaler_on_workst.Network.Outside.{Outside}
use ai_hyperscaler_on_workst.Network.Plan.{Plan, plan_network}
use ai_hyperscaler_on_workst.Network.Dns.{remove_host_dns_integration}
use ai_hyperscaler_on_workst.Network.Lifecycle.{
  network_name, network_exists, configure_dns_mode, make_network, create_cluster_network,
  destroy_cluster_network,
}
use ai_hyperscaler_on_workst.Network.Lifecycle.View.{
  Status, absent, inactive, active, is_present, defined, View, set_status, set_status_self,
  set_status-twice, set_status-at, Networks, configure_dns_mode-Keeps, remove_host-Keeps,
}
use ai_hyperscaler_on_workst.Network.Lifecycle.Laws.{
  Unseen, Answers-true, Answers-false, stopped, network_exists-lem, after_look, deactivate,
  converted,
}

not_present-absent : (s : Status) → is_present s ≡ false → s ≡ absent
not_present-absent absent h = refl
not_present-absent inactive h = ground arith
not_present-absent active h = ground arith

present-stopped : (s : Status) → is_present s ≡ true → stopped s ≡ inactive
present-stopped absent h = ground arith
present-stopped inactive h = refl
present-stopped active h = refl

module _ {Host : Type 0} {out : Outside Host} (nets : Networks out) where
  open nets use {view}

  -- What a creation that raises may leave of a network that was absent, and a destruction.
  abbrev pub LeftBehind : Text → View → Host → Type 0
  LeftBehind name v h =
      (view h ≡ v)
      ⊎ (Unseen nets v name
          × ((view h ≡ set_status name (defined (v name)) v) ⊎ (view h ≡ set_status name active v)))

  abbrev pub HalfDestroyed : Text → View → Host → Type 0
  HalfDestroyed name v h =
      (view h ≡ v)
      ⊎ (view h ≡ set_status name (stopped (v name)) v)
      ⊎ (view h ≡ set_status name absent v)

  abbrev pub Created : Text → View → Text → Host → Type 0
  Created name v answer h =
      (answer ≡ name)
      × (((is_present (v name) ≡ true) × (view h ≡ v))
          ⊎ (Unseen nets v name × (view h ≡ set_status name active v)))

  abbrev pub Destroyed : Text → View → Bool → Host → Type 0
  Destroyed name v b h =
      (b ≡ true)
      × ((view h ≡ set_status name absent v) ⊎ ((nets.lookup_may_fail ≡ true) × (view h ≡ v)))

  make_network-lem :
      (v : View) (name : Text) (plan : Plan) (h : Host)
      → view h ≡ v
      → Unseen nets v name
      → Ensures
          (λ done h'. view h' ≡ set_status name active v)
          (λ e h'. LeftBehind name v h')
          (make_network out name plan)
          h
  unfolding make_network
  make_network-lem v name plan h same missing =
      Ensures-try {Q = λ e h'. LeftBehind name v h'} _ (libvirt_to network_error) h
        (Ensures-bind out.connect _ h
          (Ensures-weaken out.connect h (nets.connect_lem h) (λ a h' e. e ∙ same)
            (λ p h' e. inl (e.1 ∙ same)))
          λ a h1 e1.
            Ensures-bind (out.define name plan) _ h1
              (Ensures-weaken (out.define name plan) h1 (nets.define_lem name plan h1)
                (λ a' h' e. e ∙ ap (λ (w : View). set_status name (defined (w name)) w) e1)
                (λ p h' e. inl (e ∙ e1)))
              λ b h2 e2.
                Ensures-bind (out.create name) _ h2
                  (Ensures-weaken (out.create name) h2 (nets.create_lem name h2)
                    (λ a' h' e.
                      e
                      ∙ ap (set_status name active) e2
                      ∙ set_status-twice name (defined (v name)) active v)
                    (λ p h' e. inr (missing, inl (e ∙ e2))))
                  λ c h3 e3.
                    Ensures-weaken (out.set_autostart name) h3 (nets.autostart_lem name h3)
                      (λ a' h' e. e ∙ e3) (λ p h' e. inr (missing, inr (e ∙ e3))))
        λ e h' left. converted nets e h' (λ other. left)

  with_plan :
      (v : View) (name : Text) (planned : Result Problem Plan) (h : Host)
      → view h ≡ v
      → Unseen nets v name
      → Ensures
          (Created name v)
          (λ e h'. LeftBehind name v h')
          (elim planned [ err e ↦ raise e | ok plan ↦ do make_network out name plan; pure name ])
          h
  with_plan v name (err e) h same missing = Ensures-raise e h (inl same)
  with_plan v name (ok plan) h same missing =
      Ensures-bind (make_network out name plan) _ h (make_network-lem v name plan h same missing)
        λ a h' e. Ensures-pure name h' (refl, inr (missing, e))

  create-lem :
      (ip : Ip) (cluster_name : Text) (c : NetworkSettings) (static_leases vm_macs : Dict Text)
      (h : Host)
      → Ensures
          (Created (network_name cluster_name) (view h))
          (λ e h'. (e ≡ network_error) × LeftBehind (network_name cluster_name) (view h) h')
          (create_cluster_network out ip cluster_name c static_leases vm_macs)
          h
  unfolding create_cluster_network
  create-lem ip cluster_name c static_leases vm_macs h =
      let name = network_name cluster_name in
      Ensures-try {Q = λ e h'. LeftBehind name (view h) h'} _ (all_to network_error) h
        (Ensures-bind (network_exists out name) _ h
          (Ensures-weaken (network_exists out name) h (network_exists-lem nets (view h) name h refl)
            (λ b h' e. e) (λ p h' e. inl e))
          λ present h1 e1.
            Ensures-if present _ _ h1
              (λ found.
                Ensures-pure name h1
                  (refl, inl (Answers-true nets (view h) name present e1.0 found, e1.1)))
              λ missing.
                Ensures-bind (configure_dns_mode out cluster_name c) _ h1
                  (Ensures-weaken (configure_dns_mode out cluster_name c) h1
                    (kept view (view h) _ h1 (configure_dns_mode-Keeps nets cluster_name c) e1.1)
                    (λ a h' e. e) (λ p h' e. inl e))
                  λ done h2 e2.
                    with_plan (view h) name (plan_network ip cluster_name c static_leases vm_macs)
                      h2 e2 (Answers-false nets (view h) name present e1.0 missing))
        λ e h' left. Ensures-raise network_error h' (refl, left)

  after_removal :
      {Q : Problem → Host → Type 0} (cluster_name : Text) (v w : View) (h : Host)
      → view h ≡ w
      → ((h' : Host) → view h' ≡ w → Destroyed (network_name cluster_name) v true h')
      → ((h' : Host) → view h' ≡ w → (e : Problem) → Q e h')
      → Ensures
          (Destroyed (network_name cluster_name) v)
          Q
          (remove_host_dns_integration out cluster_name >> pure true)
          h
  after_removal cluster_name v w h same done f =
      Ensures-bind (remove_host_dns_integration out cluster_name) _ h
        (Ensures-weaken _ h (kept view _ _ h (remove_host-Keeps nets cluster_name) same)
          (λ a h' e. e) (λ p h' e. f h' e p))
        λ a h' e. Ensures-pure true h' (done h' e)

  Destroyed-Unseen :
      (name : Text) (v : View) (h : Host)
      → Unseen nets v name
      → view h ≡ v
      → Destroyed name v true h
  Destroyed-Unseen name v h (inl fails) same = (refl, inr (fails, same))
  Destroyed-Unseen name v h (inr gone) same =
      (refl, inl (same ∙ sym (set_status_self name absent v (not_present-absent (v name) gone))))

  now_inactive :
      (name : Text) (v : View) (h : Host)
      → is_present (v name) ≡ true
      → view h ≡ set_status name (stopped (v name)) v
      → view h name ≡ inactive
  now_inactive name v h found e =
      ap (λ (w : View). w name) e
      ∙ set_status-at name (stopped (v name)) v
      ∙ present-stopped (v name) found

  destroy-lem :
      (cluster_name : Text) (h : Host)
      → Ensures
          (Destroyed (network_name cluster_name) (view h))
          (λ e h'. (e ≡ network_error) × HalfDestroyed (network_name cluster_name) (view h) h')
          (destroy_cluster_network out cluster_name)
          h
  unfolding destroy_cluster_network
  destroy-lem cluster_name h =
      let name = network_name cluster_name in
      let v = view h in
      Ensures-try {Q = λ e h'. HalfDestroyed name v h'} _ (all_to network_error) h
        (Ensures-bind (network_exists out name) _ h
          (Ensures-weaken (network_exists out name) h (network_exists-lem nets v name h refl)
            (λ b h' e. e) (λ p h' e. inl e))
          λ present h1 e1.
            Ensures-if (not present) _ _ h1
              (λ missing.
                after_removal cluster_name v v h1 e1.1
                  (λ h' same.
                    Destroyed-Unseen name v h'
                      (Answers-false nets v name present e1.0 (ground arith)) same)
                  (λ h' same e. inl same))
              λ found.
                after_look nets v name _ h1 e1.1 (λ e h' same. inl same)
                  λ h2 e2.
                    Ensures-bind _ _ h2
                      (Ensures-weaken _ h2 (deactivate nets v name h2 e2) (λ a h' e. e)
                        (λ p h' e. inl e))
                      λ done h3 e3.
                        Ensures-bind (out.undefine name) _ h3
                          (Ensures-weaken (out.undefine name) h3
                            (nets.undefine_lem name h3 (
                              now_inactive name v h3
                                (Answers-true nets v name present e1.0 (ground arith)) e3))
                            (λ a h' e.
                              e
                              ∙ ap (set_status name absent) e3
                              ∙ set_status-twice name (stopped (v name)) absent v)
                            (λ p h' e. inr (inl (e ∙ e3))))
                          λ a h4 e4.
                            after_removal cluster_name v (set_status name absent v) h4 e4
                              (λ h' same. (refl, inl same)) (λ h' same e. inr (inr same)))
        λ e h' left. Ensures-raise network_error h' (refl, left)

-- Where libvirt's calls do their work or raise and change no status: `create_cluster_network` returns the network's
-- name, and the network was there and no status changed, or it was not seen and is active;
-- `destroy_cluster_network` returns `True`, and the network is absent. Where they raise, it is
-- `NetworkManagerError`; a failed creation leaves a network that was not seen as it was, defined, or
-- active, a failed destruction leaves the network as it was, stopped, or absent. No other network
-- changes. Only an absent network is not seen, unless a lookup may fail for another reason; then
-- `destroy_cluster_network` may also return `True` with no status changed.
pub create_destroy_network-lem :
    {Host : Type 0} {out : Outside Host} (nets : Networks out) (ip : Ip) (cluster_name : Text)
    (c : NetworkSettings) (static_leases vm_macs : Dict Text) (h : Host)
    → Ensures
        (Created nets (network_name cluster_name) (nets.view h))
        (λ e h'. (e ≡ network_error) × LeftBehind nets (network_name cluster_name) (nets.view h) h')
        (create_cluster_network out ip cluster_name c static_leases vm_macs)
        h
      × Ensures
          (Destroyed nets (network_name cluster_name) (nets.view h))
          (λ e h'.
            (e ≡ network_error) × HalfDestroyed nets (network_name cluster_name) (nets.view h) h')
          (destroy_cluster_network out cluster_name)
          h
create_destroy_network-lem nets ip cluster_name c static_leases vm_macs h =
    (create-lem nets ip cluster_name c static_leases vm_macs h, destroy-lem nets cluster_name h)

module _ {Host : Type 0} (out : Outside Host) (cluster_name : Text)
    (no_root : (h : Host) → out.is_root h ≡ false) where
  remove_host-refused :
      (h : Host) → remove_host_dns_integration out cluster_name h ≡ (err network_error, h)
  unfolding remove_host_dns_integration
  remove_host-refused h = ground (arith, no_root h)

  abbrev Never : {A : Type 0} → A → Host → Type 0
  Never a h = ⊥

  removal-Never :
      (h : Host)
      → Ensures Never
          (λ e h'. Unit {0})
          (remove_host_dns_integration out cluster_name >> pure true)
          h
  removal-Never h = record { at = rw (remove_host-refused h) tt }

  destroy-Never :
      (h : Host)
      → Ensures Never (λ e h'. e ≡ network_error) (destroy_cluster_network out cluster_name) h
  unfolding destroy_cluster_network
  destroy-Never h =
      let name = network_name cluster_name in
      Ensures-try {Q = λ e h'. Unit {0}} _ (all_to network_error) h
        (Ensures-bind (network_exists out name) _ h (Ensures-any _ h) λ present h1 t1.
          Ensures-if (not present) _ _ h1 (λ missing. removal-Never h1)
            λ found. Ensures-bind out.connect _ h1 (Ensures-any _ h1) λ a h2 t2.
              Ensures-bind (out.lookup name) _ h2 (Ensures-any _ h2) λ b h3 t3.
                Ensures-bind (out.is_active name) _ h3 (Ensures-any _ h3) λ running h4 t4.
                  Ensures-bind _ _ h4 (Ensures-any _ h4) λ c h5 t5.
                    Ensures-bind (out.undefine name) _ h5 (Ensures-any _ h5)
                      λ d h6 t6. removal-Never h6)
        λ e h' t. Ensures-raise network_error h' refl

  Never-ok :
      {A : Type 0} (x : Result Problem A × Host)
      → Post Never (λ e h'. e ≡ network_error) x
      → x.0 ≡ err network_error
  Never-ok (ok a, h) never = absurd never
  Never-ok (err e, h) same = ap err same

-- Without root privileges `destroy_cluster_network` always raises `NetworkManagerError`, whatever the
-- network's DNS mode is.
pub destroy_cluster_network-needs_root :
    {Host : Type 0} (out : Outside Host) (cluster_name : Text)
    → ((h : Host) → out.is_root h ≡ false)
    → (h : Host) → (destroy_cluster_network out cluster_name h).0 ≡ err network_error
destroy_cluster_network-needs_root out cluster_name no_root h =
    Never-ok out cluster_name no_root (destroy_cluster_network out cluster_name h)
      (destroy-Never out cluster_name no_root h).at
