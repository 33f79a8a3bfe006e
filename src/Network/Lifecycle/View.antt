-- ===== src/Network/Lifecycle/View.antt =====
-- The status of each network, and what libvirt documents of its calls on networks: each does its work
-- or raises and changes no status.
use mathlib.Core.Path.{fun_ext}
use ai_hyperscaler_on_workst.Common.{
  ◌≡◌, ◌⊎◌, inl, inr, refl, sym, ap, ◌∙◌, arith, Bool, true, false, Text, text_eq, text_eq_iff,
  Bool-cases, if◌then◌else◌,
}
use ai_hyperscaler_on_workst.Common.Ensures.{Ensures}
use ai_hyperscaler_on_workst.Common.Keeps.{
  Keeps, Keeps-pure, Keeps-raise, Keeps-bind, Keeps-gets, Keeps-if, Keeps-try,
}
use ai_hyperscaler_on_workst.Problem.{libvirt_error, connection_error}
use ai_hyperscaler_on_workst.Network.Outside.{Outside, Restart}
use ai_hyperscaler_on_workst.Config.{NetworkSettings}
use ai_hyperscaler_on_workst.Network.Plan.{Plan}
use ai_hyperscaler_on_workst.Network.Dns.{
  attempt_restart, restart_dnsmasq_service, back_up, rollback_dns_configuration,
  write_configuration, configure_host_dns_integration, remove_host_dns_integration,
}
use ai_hyperscaler_on_workst.Network.Lifecycle.{configure_dns_mode}

pub data Status : Type 0 where
  absent inactive active : Status

abbrev pub is_present : Status → Bool
is_present absent = false
is_present inactive = true
is_present active = true

abbrev pub is_running : Status → Bool
is_running absent = false
is_running inactive = false
is_running active = true

abbrev pub View : Type 0
View = Text → Status

abbrev pub set_status : Text → Status → View → View
set_status name s v other = if text_eq name other then s else v other

pub set_status_self : (name : Text) (s : Status) (v : View) → v name ≡ s → set_status name s v ≡ v
set_status_self name s v e = fun_ext λ other. elim (Bool-cases (text_eq name other)) [
  | inl same ↦ rw same (sym e ∙ ap v ((text_eq_iff name other).0 same))
  | inr differs ↦ rw differs refl
]

pub set_status-twice :
    (name : Text) (s t : Status) (v : View)
    → set_status name t (set_status name s v) ≡ set_status name t v
set_status-twice name s t v = fun_ext λ other. ground arith

pub set_status-at : (name : Text) (s : Status) (v : View) → set_status name s v name ≡ s
set_status-at name s v = ground (arith, text_eq_iff name name)

-- The status after a definition: one that is there keeps its status.
abbrev pub defined : Status → Status
defined absent = inactive
defined inactive = inactive
defined active = active

-- A lookup raises `libvirtError` for an absent network; whether it also does for another reason, such as
-- a lost connection to the daemon, is `lookup_may_fail`. Files and the service of dnsmasq are no part of the view.
pub record Networks {Host : Type 0} (out : Outside Host) : Type 0 where
  pub view : Host → View
  pub lookup_may_fail : Bool
  pub connect_lem :
      (h : Host)
      → Ensures
          (λ done h'. view h' ≡ view h)
          (λ e h'. (e ≡ connection_error) × (view h' ≡ view h))
          out.connect
          h
  pub lookup_lem :
      (name : Text) (h : Host)
      → Ensures
          (λ done h'. (is_present (view h name) ≡ true) × (view h' ≡ view h))
          (λ e h'.
            (e ≡ libvirt_error)
            × ((lookup_may_fail ≡ true) ⊎ (is_present (view h name) ≡ false))
            × (view h' ≡ view h))
          (out.lookup name)
          h
  pub is_active_lem :
      (name : Text) (h : Host)
      → Ensures
          (λ b h'. (b ≡ is_running (view h name)) × (view h' ≡ view h))
          (λ e h'. view h' ≡ view h)
          (out.is_active name)
          h
  pub define_lem :
      (name : Text) (plan : Plan) (h : Host)
      → Ensures
          (λ done h'. view h' ≡ set_status name (defined (view h name)) (view h))
          (λ e h'. view h' ≡ view h)
          (out.define name plan)
          h
  pub create_lem :
      (name : Text) (h : Host)
      → Ensures
          (λ done h'. view h' ≡ set_status name active (view h))
          (λ e h'. view h' ≡ view h)
          (out.create name)
          h
  pub destroy_lem :
      (name : Text) (h : Host)
      → Ensures
          (λ done h'. view h' ≡ set_status name inactive (view h))
          (λ e h'. view h' ≡ view h)
          (out.destroy name)
          h
  pub undefine_lem :
      (name : Text) (h : Host)
      → view h name ≡ inactive
      → Ensures
          (λ done h'. view h' ≡ set_status name absent (view h))
          (λ e h'. view h' ≡ view h)
          (out.undefine name)
          h
  pub autostart_lem :
      (name : Text) (h : Host)
      → Ensures (λ done h'. view h' ≡ view h) (λ e h'. view h' ≡ view h) (out.set_autostart name) h
  pub write_lem :
      (path content : Text) (h : Host)
      → Ensures (λ done h'. view h' ≡ view h) (λ e h'. view h' ≡ view h) (out.write path content) h
  pub copy_lem :
      (source target : Text) (h : Host)
      → Ensures (λ done h'. view h' ≡ view h) (λ e h'. view h' ≡ view h) (out.copy source target) h
  pub remove_lem :
      (path : Text) (h : Host)
      → Ensures (λ done h'. view h' ≡ view h) (λ e h'. view h' ≡ view h) (out.remove path) h
  pub restart_lem :
      (command : Restart) (h : Host)
      → Ensures (λ done h'. view h' ≡ view h) (λ e h'. view h' ≡ view h) (out.restart command) h

module _ {Host : Type 0} {out : Outside Host} (nets : Networks out) where
  open nets use {view}

  pub Keeps-copy : (source target : Text) → Keeps view (out.copy source target)
  Keeps-copy source target = record { at = nets.copy_lem source target }

  pub Keeps-write : (path content : Text) → Keeps view (out.write path content)
  Keeps-write path content = record { at = nets.write_lem path content }

  pub Keeps-remove : (path : Text) → Keeps view (out.remove path)
  Keeps-remove path = record { at = nets.remove_lem path }

  pub Keeps-restart : (command : Restart) → Keeps view (out.restart command)
  Keeps-restart command = record { at = nets.restart_lem command }

  ruleset network_rules = (
    Keeps-pure, Keeps-raise, Keeps-bind, Keeps-gets, Keeps-if, Keeps-try, Keeps-copy, Keeps-write,
    Keeps-remove, Keeps-restart,
  )

  attempt_restart-Keeps : (command : Restart) → Keeps view (attempt_restart out command)
  unfolding attempt_restart
  attempt_restart-Keeps command = search network_rules

  pub restart-Keeps : Keeps view (restart_dnsmasq_service out)
  unfolding restart_dnsmasq_service
  restart-Keeps = search (network_rules, attempt_restart-Keeps) depth 12

  rollback-Keeps : (cluster_name : Text) → Keeps view (rollback_dns_configuration out cluster_name)
  unfolding rollback_dns_configuration
  rollback-Keeps cluster_name = search (network_rules, restart-Keeps) depth 12

  back_up-Keeps : (source target : Text) → Keeps view (back_up out source target)
  unfolding back_up
  back_up-Keeps source target = search network_rules

  write_configuration-Keeps :
      (cluster_name content : Text) → Keeps view (write_configuration out cluster_name content)
  unfolding write_configuration
  write_configuration-Keeps cluster_name content =
      search (network_rules, back_up-Keeps, restart-Keeps)

  configure-Keeps :
      (cluster_name : Text) (c : NetworkSettings)
      → Keeps view (configure_host_dns_integration out cluster_name c)
  unfolding configure_host_dns_integration
  configure-Keeps cluster_name c = search (network_rules, write_configuration-Keeps, rollback-Keeps)

  pub configure_dns_mode-Keeps :
      (cluster_name : Text) (c : NetworkSettings)
      → Keeps view (configure_dns_mode out cluster_name c)
  unfolding configure_dns_mode
  configure_dns_mode-Keeps cluster_name c = search (network_rules, configure-Keeps)

  pub remove_host-Keeps :
      (cluster_name : Text) → Keeps view (remove_host_dns_integration out cluster_name)
  unfolding remove_host_dns_integration
  remove_host-Keeps cluster_name = search (network_rules, restart-Keeps) depth 12
