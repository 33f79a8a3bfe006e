-- ===== src/Network/Dns.antt =====
-- The integration of a cluster's domain into the host's dnsmasq.
use ai_hyperscaler_on_workst.Common.{
  Option, none, some, List, [], ◌∷◌, ◌++◌, Bool, true, false, Text, codes, if◌then◌else◌, not,
}
use ai_hyperscaler_on_workst.Common.Exec.{
  Exec, Result, ok, err, pure, raise, gets, try_except, ◌>>=◌, ◌>>◌,
}
use ai_hyperscaler_on_workst.Config.{NetworkSettings}
use ai_hyperscaler_on_workst.Problem.{Problem, network_error, Act, all_to}
use ai_hyperscaler_on_workst.Network.{get_or_else}
use ai_hyperscaler_on_workst.Network.Outside.{Outside, Restart, systemctl, service}
pub mod Rollback

abbrev pub config_file : Text → Text
config_file cluster_name = codes "/etc/dnsmasq.d/" ++ (cluster_name ++ codes ".conf")

abbrev pub backup_file : Text → Text
backup_file cluster_name = config_file cluster_name ++ codes ".backup"

-- The lines of the file, each of which ends with a newline.
abbrev lines : List Text → Text
lines [] = []
lines (line ∷ rest) = line ++ (10 ∷ lines rest)

unfoldable pub generate_dnsmasq_config : (cluster_name domain gateway_ip : Text) → Text
generate_dnsmasq_config cluster_name domain gateway_ip = lines (
    (codes "# AI-HOW DNS configuration for cluster: " ++ cluster_name)
    ∷ codes "# Generated automatically - do not edit manually"
    ∷ (codes "# Domain: " ++ domain)
    ∷ (codes "# Gateway: " ++ gateway_ip)
    ∷ []
    ∷ codes "# Forward DNS queries for cluster domain to cluster gateway"
    ∷ (codes "server=/" ++ (domain ++ (codes "/" ++ gateway_ip)))
    ∷ []
    ∷ codes "# Add cluster domain to local search domains"
    ∷ (codes "domain=" ++ domain)
    ∷ []
    ∷ codes "# Cache DNS responses for better performance"
    ∷ codes "cache-size=1000"
    ∷ []
    ∷ codes "# Prevent upstream queries for local domains"
    ∷ (codes "local=/" ++ (domain ++ codes "/"))
    ∷ [])

module _ {Host : Type 0} (out : Outside Host) where
  -- One command of `_restart_dnsmasq_service`: an exception counts as no success.
  unfoldable pub attempt_restart : Restart → Act Host Bool
  attempt_restart command = try_except (out.restart command) (λ e. pure false)

  unfoldable pub restart_dnsmasq_service : Act Host Unit
  unfolding attempt_restart
  restart_dnsmasq_service = do
    root ← gets out.is_root
    if not root then raise network_error else (do
      restarted ← attempt_restart systemctl
      if restarted then pure tt else (do
        restarted_again ← attempt_restart service
        if restarted_again then pure tt else raise network_error))

  -- `_backup_file`, which swallows what it raises.
  unfoldable pub back_up : (source target : Text) → Act Host Unit
  back_up source target = try_except (out.copy source target) (λ e. pure tt)

  -- `_rollback_dns_configuration`, which swallows what it raises.
  unfoldable pub rollback_dns_configuration : Text → Act Host Unit
  unfolding restart_dnsmasq_service
  rollback_dns_configuration cluster_name =
      try_except
        (do
          saved ← gets (out.exists (backup_file cluster_name))
          written ← gets (out.exists (config_file cluster_name))
          if saved
              then out.copy (backup_file cluster_name) (config_file cluster_name)
                >> out.remove (backup_file cluster_name)
              else (if written then out.remove (config_file cluster_name) else pure tt)
          try_except restart_dnsmasq_service (λ e. pure tt))
        (λ e. pure tt)

  -- The three steps that the rollback undoes.
  unfoldable pub write_configuration : (cluster_name content : Text) → Act Host Unit
  write_configuration cluster_name content = do
    present ← gets (out.exists (config_file cluster_name))
    if present then back_up (config_file cluster_name) (backup_file cluster_name) else pure tt
    out.write (config_file cluster_name) content
    restart_dnsmasq_service

  unfoldable pub configure_host_dns_integration : Text → NetworkSettings → Act Host Unit
  unfolding generate_dnsmasq_config write_configuration
  configure_host_dns_integration cluster_name c = do
    root ← gets out.is_root
    if not root
        then raise network_error
        else (let domain = cluster_name ++ codes ".local" in
            let gateway_ip = get_or_else c.gateway_ip (codes "192.168.100.1") in
            try_except
              (write_configuration cluster_name
                (generate_dnsmasq_config cluster_name domain gateway_ip))
              (λ e. rollback_dns_configuration cluster_name >> raise network_error))

  unfoldable pub remove_host_dns_integration : Text → Act Host Bool
  unfolding restart_dnsmasq_service
  remove_host_dns_integration cluster_name = do
    root ← gets out.is_root
    if not root
        then raise network_error
        else try_except
            (do
              present ← gets (out.exists (config_file cluster_name))
              if not present then pure true else (do
                out.remove (config_file cluster_name)
                try_except restart_dnsmasq_service (λ e. pure tt)
                pure true))
            (all_to network_error)
