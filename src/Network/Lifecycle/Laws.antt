-- ===== src/Network/Lifecycle/Laws.antt =====
-- The methods of `NetworkManager` on the status of the networks.
use ai_hyperscaler_on_workst.Common.{
  ◌≡◌, ◌⊎◌, inl, inr, refl, sym, ap, ◌∙◌, arith, Bool, true, false, Text, not, if◌then◌else◌,
}
use ai_hyperscaler_on_workst.Common.Exec.{pure, ◌>>=◌, ◌>>◌}
use ai_hyperscaler_on_workst.Common.Ensures.{
  Ensures, Ensures-weaken, Ensures-pure, Ensures-raise, Ensures-try, Ensures-if, Ensures-bind,
}
use ai_hyperscaler_on_workst.Problem.{
  Problem, libvirt_error, connection_error, network_error, Act, libvirt_to, false_if_libvirt,
}
use ai_hyperscaler_on_workst.Network.Outside.{Outside}
use ai_hyperscaler_on_workst.Network.Lifecycle.{
  network_name, network_exists, start_network, stop_network,
}
use ai_hyperscaler_on_workst.Network.Lifecycle.View.{
  Status, absent, inactive, active, is_present, is_running, View, set_status, set_status_self,
  Networks,
}

-- The status after a stop.
abbrev pub stopped : Status → Status
stopped absent = absent
stopped inactive = inactive
stopped active = inactive

module _ {Host : Type 0} {out : Outside Host} (nets : Networks out) where
  open nets use {view}

  -- The view is a given one, after a result or an exception.
  abbrev pub At : {A : Type 0} → View → A → Host → Type 0
  At v a h = view h ≡ v

  -- What the answer of `_network_exists` says: it swallows every `libvirtError` of the lookup.
  abbrev pub Unseen : View → Text → Type 0
  Unseen v name = (nets.lookup_may_fail ≡ true) ⊎ (is_present (v name) ≡ false)

  abbrev pub Answers : View → Text → Bool → Type 0
  Answers v name true = is_present (v name) ≡ true
  Answers v name false = Unseen v name

  pub Answers-true :
      (v : View) (name : Text) (b : Bool) → Answers v name b → b ≡ true → is_present (v name) ≡ true
  Answers-true v name true answer e = answer
  Answers-true v name false answer e = absurd (ground arith)

  pub Answers-false :
      (v : View) (name : Text) (b : Bool) → Answers v name b → b ≡ false → Unseen v name
  Answers-false v name true answer e = absurd (ground arith)
  Answers-false v name false answer e = answer

  pub Unseen-at : (v w : View) (name : Text) → v ≡ w → Unseen v name → Unseen w name
  Unseen-at v w name e (inl fails) = inl fails
  Unseen-at v w name e (inr gone) = inr (ap (λ (u : View). is_present (u name)) (sym e) ∙ gone)

  abbrev Missing : View → Text → Problem → Host → Type 0
  Missing v name e h =
      ((e ≡ connection_error) ⊎ ((e ≡ libvirt_error) × Unseen v name)) × (view h ≡ v)

  Answers-Missing :
      (v : View) (name : Text) (e : Problem) (h : Host)
      → Missing v name e h
      → Ensures
          (λ b h'. Answers v name b × (view h' ≡ v))
          (At {A = Problem} v)
          (false_if_libvirt e)
          h
  Answers-Missing v name e h (inl lost, same) = rw lost (Ensures-raise connection_error h same)
  Answers-Missing v name e h (inr (lost, unseen), same) =
      rw lost (Ensures-pure {E = Problem} false h (unseen, same))

  pub network_exists-lem :
      (v : View) (name : Text) (h : Host)
      → view h ≡ v
      → Ensures (λ b h'. Answers v name b × (view h' ≡ v)) (At v) (network_exists out name) h
  unfolding network_exists
  network_exists-lem v name h same =
      Ensures-try {Q = Missing v name} (do out.connect; out.lookup name; pure true) false_if_libvirt
        h
        (Ensures-bind out.connect _ h
          (Ensures-weaken out.connect h (nets.connect_lem h) (λ a h' e. e)
            (λ p h' e. (inl e.0, e.1 ∙ same)))
          λ a h1 e1.
            Ensures-bind (out.lookup name) _ h1
              (Ensures-weaken (out.lookup name) h1 (nets.lookup_lem name h1) (λ a h' e. e)
                (λ p h' e.
                  (inr (e.0, Unseen-at (view h1) v name (e1 ∙ same) e.1), e.2 ∙ e1 ∙ same)))
              λ b h2 e2. Ensures-pure true h2 (ground (arith, e1, same), e2.1 ∙ e1 ∙ same))
        (λ p h' m. Answers-Missing v name p h' m)

  now_running :
      (name : Text) (v : View) (h : Host) (b : Bool)
      → b ≡ is_running (view h name)
      → view h ≡ v
      → b ≡ is_running (v name)
  now_running name v h b e same = ground (arith, e, same)

  -- What follows a connection, a lookup and the question whether the network runs.
  pub after_look :
      {B : Type 0} {R : B → Host → Type 0} {Q : Problem → Host → Type 0} (v : View) (name : Text)
      (rest : Bool → Act Host B) (h : Host)
      → view h ≡ v
      → ((e : Problem) (h' : Host) → view h' ≡ v → Q e h')
      → ((h' : Host) → view h' ≡ v → Ensures R Q (rest (is_running (v name))) h')
      → Ensures R Q (do out.connect; out.lookup name; running ← out.is_active name; rest running) h
  after_look v name rest h same failed continue =
      Ensures-bind out.connect _ h
        (Ensures-weaken out.connect h (nets.connect_lem h) (λ a h' e. e)
          (λ p h' e. failed p h' (e.1 ∙ same)))
        λ a h1 e1.
          Ensures-bind (out.lookup name) _ h1
            (Ensures-weaken (out.lookup name) h1 (nets.lookup_lem name h1)
              (λ a h' e. e.1 ∙ e1 ∙ same) (λ p h' e. failed p h' (e.2 ∙ e1 ∙ same)))
            λ b h2 e2.
              Ensures-bind (out.is_active name) rest h2
                (Ensures-weaken (out.is_active name) h2 (nets.is_active_lem name h2) (λ a h' e. e)
                  (λ p h' e. failed p h' (e ∙ e2)))
                λ b h3 e3. rw (now_running name v h2 b e3.0 e2) (continue h3 (e3.1 ∙ e2))

  pub converted :
      {A : Type 0} {R : A → Host → Type 0} {Q : Problem → Host → Type 0} (e : Problem) (h : Host)
      → ((other : Problem) → Q other h)
      → Ensures R Q (libvirt_to {A = A} network_error e) h
  converted libvirt_error h f = Ensures-raise network_error h (f network_error)
  converted e h f = Ensures-raise e h (f e)

  running-active : (s : Status) → is_running s ≡ true → s ≡ active
  running-active absent h = ground arith
  running-active inactive h = ground arith
  running-active active h = refl

  idle-stopped : (s : Status) → is_running s ≡ false → s ≡ stopped s
  idle-stopped absent h = refl
  idle-stopped inactive h = refl
  idle-stopped active h = ground arith

  pub absent-stopped : (s : Status) → is_present s ≡ false → s ≡ stopped s
  absent-stopped absent h = refl
  absent-stopped inactive h = refl
  absent-stopped active h = ground arith

  running-stopped : (s : Status) → is_running s ≡ true → stopped s ≡ inactive
  running-stopped s h = rw (running-active s h) refl

  activate :
      (v : View) (name : Text) (h : Host)
      → view h ≡ v
      → Ensures
          (λ done h'. view h' ≡ set_status name active v)
          (At v)
          (if is_running (v name) then pure tt else out.create name)
          h
  activate v name h same =
      Ensures-if (is_running (v name)) _ _ h
        (λ running.
          Ensures-pure tt h
            (same ∙ sym (set_status_self name active v (running-active (v name) running))))
        λ idle.
          Ensures-weaken (out.create name) h (nets.create_lem name h)
            (λ a h' e. e ∙ ap (set_status name active) same) (λ p h' e. e ∙ same)

  pub deactivate :
      (v : View) (name : Text) (h : Host)
      → view h ≡ v
      → Ensures
          (λ done h'. view h' ≡ set_status name (stopped (v name)) v)
          (At v)
          (if is_running (v name) then out.destroy name else pure tt)
          h
  deactivate v name h same =
      Ensures-if (is_running (v name)) _ _ h
        (λ running.
          Ensures-weaken (out.destroy name) h (nets.destroy_lem name h)
            (λ a h' e.
              e
              ∙ ap (set_status name inactive) same
              ∙ ap (λ (s : Status). set_status name s v) (sym (running-stopped (v name) running)))
            (λ p h' e. e ∙ same))
        λ idle.
          Ensures-pure tt h
            (same ∙ sym (set_status_self name (stopped (v name)) v (idle-stopped (v name) idle)))

  -- The status after a start that returns, and after a stop.
  abbrev pub Started : Text → View → Bool → Host → Type 0
  Started name v b h =
      (b ≡ true) × (is_present (v name) ≡ true) × (view h ≡ set_status name active v)

  -- A stop that saw no network may have left one.
  abbrev pub Stopped : Text → View → Bool → Host → Type 0
  Stopped name v b h =
      (b ≡ true)
      × ((view h ≡ set_status name (stopped (v name)) v)
          ⊎ ((nets.lookup_may_fail ≡ true) × (view h ≡ v)))

  Stopped-Unseen :
      (v : View) (name : Text) (h : Host) → Unseen v name → view h ≡ v → Stopped name v true h
  Stopped-Unseen v name h (inl fails) same = (refl, inr (fails, same))
  Stopped-Unseen v name h (inr gone) same = (
    refl,
    inl (same ∙ sym (set_status_self name (stopped (v name)) v (absent-stopped (v name) gone))),
  )

  start_network-lem :
      (cluster_name : Text) (h : Host)
      → Ensures
          (Started (network_name cluster_name) (view h))
          (At (view h))
          (start_network out cluster_name)
          h
  unfolding start_network
  start_network-lem cluster_name h =
      let name = network_name cluster_name in
      Ensures-try {Q = At (view h)} _ (libvirt_to network_error) h
        (Ensures-bind (network_exists out name) _ h (network_exists-lem (view h) name h refl)
          λ present h1 e1.
            Ensures-if (not present) _ _ h1 (λ missing. Ensures-raise network_error h1 e1.1)
              λ found.
                after_look (view h) name _ h1 e1.1 (λ e h' same. same)
                  λ h2 e2. Ensures-bind _ _ h2 (activate (view h) name h2 e2) λ done h3 e3.
                    Ensures-pure true h3
                      (refl, Answers-true (view h) name present e1.0 (ground arith), e3))
        λ e h' same. converted e h' (λ other. same)

  stop_network-lem :
      (cluster_name : Text) (h : Host)
      → Ensures
          (Stopped (network_name cluster_name) (view h))
          (At (view h))
          (stop_network out cluster_name)
          h
  unfolding stop_network
  stop_network-lem cluster_name h =
      let name = network_name cluster_name in
      Ensures-try {Q = At (view h)} _ (libvirt_to network_error) h
        (Ensures-bind (network_exists out name) _ h (network_exists-lem (view h) name h refl)
          λ present h1 e1.
            Ensures-if (not present) _ _ h1
              (λ missing. Ensures-pure true h1 (
                Stopped-Unseen (view h) name h1
                  (Answers-false (view h) name present e1.0 (ground arith)) e1.1))
              λ found.
                after_look (view h) name _ h1 e1.1 (λ e h' same. same)
                  λ h2 e2.
                    Ensures-bind _ _ h2 (deactivate (view h) name h2 e2)
                      λ done h3 e3. Ensures-pure true h3 (refl, inl e3))
        λ e h' same. converted e h' (λ other. same)

-- Where libvirt's calls do their work or raise and change no status: `start_network` returns `True` only for a
-- network that is there, which is then active. `stop_network` returns `True` and leaves the network
-- inactive, or absent where it was; where a lookup may fail for another reason than that the network is
-- absent, it may also return `True` and leave the network as it was. No other network changes, and
-- where either raises, none does.
pub start_stop_network-lem :
    {Host : Type 0} {out : Outside Host} (nets : Networks out) (cluster_name : Text) (h : Host)
    → Ensures
        (Started nets (network_name cluster_name) (nets.view h))
        (At nets (nets.view h))
        (start_network out cluster_name)
        h
      × Ensures
          (Stopped nets (network_name cluster_name) (nets.view h))
          (At nets (nets.view h))
          (stop_network out cluster_name)
          h
start_stop_network-lem nets cluster_name h =
    (start_network-lem nets cluster_name h, stop_network-lem nets cluster_name h)
