-- ===== src/Network/Dns/Rollback/Others.antt =====
-- The files that `_configure_host_dns_integration` has nothing to do with.
use mathlib.Core.Path.{fun_ext}
use ai_hyperscaler_on_workst.Common.{
  ◌≡◌, refl, ap, ◌∙◌, arith, Option, none, some, Text, codes, ◌++◌, text_eq, ◌||◌, not,
  if◌then◌else◌,
}
use ai_hyperscaler_on_workst.Common.Exec.{pure, raise, try_except, ◌>>◌}
use ai_hyperscaler_on_workst.Common.Ensures.{
  Ensures, Ensures-any, Ensures-both, Ensures-pure, Ensures-weaken, Ensures-raise, Ensures-try,
  Ensures-if, Ensures-bind, Ensures-gets,
}
use ai_hyperscaler_on_workst.Common.Keeps.{
  Keeps, Keeps-pure, Keeps-raise, Keeps-bind, Keeps-gets, Keeps-if, Keeps-try,
}
use ai_hyperscaler_on_workst.Problem.{network_error, Act}
use ai_hyperscaler_on_workst.Config.{NetworkSettings}
use ai_hyperscaler_on_workst.Network.{get_or_else}
use ai_hyperscaler_on_workst.Network.Outside.{Outside, Restart}
use ai_hyperscaler_on_workst.Network.Dns.{
  config_file, backup_file, generate_dnsmasq_config, attempt_restart, restart_dnsmasq_service,
  back_up, rollback_dns_configuration, write_configuration, configure_host_dns_integration,
}
use ai_hyperscaler_on_workst.Network.Dns.Rollback.{Files, set_file, HasFiles}

-- The content that a successful configuration writes.
abbrev pub new_configuration : Text → NetworkSettings → Text
new_configuration cluster_name c =
    generate_dnsmasq_config cluster_name (cluster_name ++ codes ".local")
      (get_or_else c.gateway_ip (codes "192.168.100.1"))

-- The files without the configuration of the cluster and its backup.
abbrev pub others : (cluster_name : Text) → Files → Files
others cluster_name v other =
    if text_eq (config_file cluster_name) other || text_eq (backup_file cluster_name) other
    then none
    else v other

others-config :
    (cluster_name : Text) (content : Option Text) (v : Files)
    → others cluster_name (set_file (config_file cluster_name) content v) ≡ others cluster_name v
others-config cluster_name content v = fun_ext λ other. ground arith

others-backup :
    (cluster_name : Text) (content : Option Text) (v : Files)
    → others cluster_name (set_file (backup_file cluster_name) content v) ≡ others cluster_name v
others-backup cluster_name content v = fun_ext λ other. ground arith

module _ {Host : Type 0} {out : Outside Host} (fs : HasFiles out) (cluster_name : Text) where
  abbrev view : Host → Files
  view h = others cluster_name (fs.files h)

  abbrev config : Text
  config = config_file cluster_name

  abbrev backup : Text
  backup = backup_file cluster_name

  same-config :
      (content : Option Text) (h h' : Host)
      → fs.files h' ≡ set_file config content (fs.files h)
      → view h' ≡ view h
  same-config content h h' e =
      ap (others cluster_name) e ∙ others-config cluster_name content (fs.files h)

  same-backup :
      (content : Option Text) (h h' : Host)
      → fs.files h' ≡ set_file backup content (fs.files h)
      → view h' ≡ view h
  same-backup content h h' e =
      ap (others cluster_name) e ∙ others-backup cluster_name content (fs.files h)

  copy-Keeps-backup : (source : Text) → Keeps view (out.copy source backup)
  copy-Keeps-backup source = record {
    at = λ h.
        Ensures-weaken (out.copy source backup) h (fs.copy_lem source backup h)
          (λ a h' e. same-backup (fs.files h source) h h' e)
          (λ p h' (f, left, e). same-backup left h h' e);
  }

  copy-Keeps-config : (source : Text) → Keeps view (out.copy source config)
  copy-Keeps-config source = record {
    at = λ h.
        Ensures-weaken (out.copy source config) h (fs.copy_lem source config h)
          (λ a h' e. same-config (fs.files h source) h h' e)
          (λ p h' (f, left, e). same-config left h h' e);
  }

  write-Keeps : (content : Text) → Keeps view (out.write config content)
  write-Keeps content = record {
    at = λ h.
        Ensures-weaken (out.write config content) h (fs.write_lem config content h)
          (λ a h' e. same-config (some content) h h' e) (λ p h' (left, e). same-config left h h' e);
  }

  remove-Keeps-config : Keeps view (out.remove config)
  remove-Keeps-config = record {
    at = λ h.
        Ensures-weaken (out.remove config) h (fs.remove_lem config h)
          (λ a h' e. same-config none h h' e) (λ p h' e. ap (others cluster_name) e.1);
  }

  remove-Keeps-backup : Keeps view (out.remove backup)
  remove-Keeps-backup = record {
    at = λ h.
        Ensures-weaken (out.remove backup) h (fs.remove_lem backup h)
          (λ a h' e. same-backup none h h' e) (λ p h' e. ap (others cluster_name) e.1);
  }

  restart-Keeps : (command : Restart) → Keeps view (out.restart command)
  restart-Keeps command = record {
    at = λ h.
        Ensures-weaken (out.restart command) h (fs.restart_lem command h)
          (λ a h' e. ap (others cluster_name) e) (λ p h' e. ap (others cluster_name) e);
  }

  ruleset file_rules = (
    Keeps-pure, Keeps-raise, Keeps-bind, Keeps-gets, Keeps-if, Keeps-try, copy-Keeps-backup,
    copy-Keeps-config, write-Keeps, remove-Keeps-config, remove-Keeps-backup, restart-Keeps,
  )

  attempt-Keeps : (command : Restart) → Keeps view (attempt_restart out command)
  unfolding attempt_restart
  attempt-Keeps command = search file_rules

  service-Keeps : Keeps view (restart_dnsmasq_service out)
  unfolding restart_dnsmasq_service
  service-Keeps = search (file_rules, attempt-Keeps) depth 12

  rollback-Keeps : Keeps view (rollback_dns_configuration out cluster_name)
  unfolding rollback_dns_configuration
  rollback-Keeps = search (file_rules, service-Keeps) depth 12

  back_up-Keeps : Keeps view (back_up out config backup)
  unfolding back_up
  back_up-Keeps = search file_rules

  write_configuration-Keeps :
      (content : Text) → Keeps view (write_configuration out cluster_name content)
  unfolding write_configuration
  write_configuration-Keeps content = search (file_rules, back_up-Keeps, service-Keeps)

  swallowed :
      (m : Act Host Unit) (h : Host)
      → Ensures (λ done h'. Unit {0}) (λ e h'. ⊥) (try_except m (λ e. pure tt)) h
  swallowed m h = Ensures-try m (λ e. pure tt) h (Ensures-any m h) (λ e h' t. Ensures-pure tt h' t)

  rollback-returns :
      (h : Host)
      → Ensures (λ done h'. Unit {0}) (λ e h'. ⊥) (rollback_dns_configuration out cluster_name) h
  unfolding rollback_dns_configuration
  rollback-returns h = swallowed _ h

  pub configure-others :
      (c : NetworkSettings) (h : Host)
      → Ensures
          (λ done h'. view h' ≡ view h)
          (λ e h'. (e ≡ network_error) × (view h' ≡ view h))
          (configure_host_dns_integration out cluster_name c)
          h
  unfolding configure_host_dns_integration
  configure-others c h = Ensures-gets out.is_root _ h (λ privileged known.
      Ensures-if (not privileged) (raise network_error) _ h
        (λ refused. Ensures-raise network_error h (refl, refl))
        λ granted.
          Ensures-try {Q = λ e h'. view h' ≡ view h}
            (write_configuration out cluster_name (new_configuration cluster_name c))
            (λ e. rollback_dns_configuration out cluster_name >> raise network_error) h
            ((write_configuration-Keeps (new_configuration cluster_name c)).at h)
            λ e h1 e1.
              Ensures-bind (rollback_dns_configuration out cluster_name) _ h1
                (Ensures-weaken (rollback_dns_configuration out cluster_name) h1
                  (Ensures-both (rollback_dns_configuration out cluster_name) h1
                    (rollback-Keeps.at h1) (rollback-returns h1))
                  (λ a h' f. f.0 ∙ e1) (λ p h' f. absurd f.1))
                λ a h2 e2. Ensures-raise network_error h2 (refl, e2))
