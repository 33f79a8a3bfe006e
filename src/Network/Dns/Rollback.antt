-- ===== src/Network/Dns/Rollback.antt =====
-- The files under `/etc/dnsmasq.d` before and after `_configure_host_dns_integration`.
pub mod Exact
pub mod Others
use mathlib.Core.Path.{fun_ext}
use ai_hyperscaler_on_workst.Common.{
  ℕ, ◌+◌, ◌≡◌, ◌≢◌, ◌⊎◌, inl, inr, refl, sym, ap, ◌∙◌, arith, Option, none, some, List, [], ◌∷◌,
  ◌++◌, Bool, true, false, Text, codes, text_eq, text_eq_iff, Bool-cases, Option-cases, not,
  if◌then◌else◌, is_some, or_else, length, length-append,
}
use ai_hyperscaler_on_workst.Common.Exec.{
  Exec, Result, ok, err, pure, raise, gets, try_except, ◌>>=◌, ◌>>◌,
}
use ai_hyperscaler_on_workst.Common.Ensures.{
  Ensures, Ensures-any, Ensures-weaken, Ensures-pure, Ensures-raise, Ensures-try, Ensures-if,
  Ensures-bind, Ensures-gets,
}
use ai_hyperscaler_on_workst.Problem.{Problem, network_error, Act}
use ai_hyperscaler_on_workst.Config.{NetworkSettings}
use ai_hyperscaler_on_workst.Network.{get_or_else}
use ai_hyperscaler_on_workst.Network.Outside.{Outside, Restart}
use ai_hyperscaler_on_workst.Network.Dns.{
  config_file, backup_file, generate_dnsmasq_config, attempt_restart, restart_dnsmasq_service,
  back_up, rollback_dns_configuration, write_configuration, configure_host_dns_integration,
}

abbrev pub Files : Type 0
Files = Text → Option Text

abbrev pub set_file : Text → Option Text → Files → Files
set_file path content files other = if text_eq path other then content else files other

-- A write or a copy that raises may leave anything in its file, a removal that raises leaves the file, and the
-- restart of the service touches no file. `may_fail` says whether a copy or a removal of a file that is
-- there may raise.
pub record HasFiles {Host : Type 0} (out : Outside Host) : Type 0 where
  pub files : Host → Files
  pub may_fail : Bool
  pub exists_lem : (path : Text) (h : Host) → out.exists path h ≡ is_some (files h path)
  pub copy_lem :
      (source target : Text) (h : Host)
      → Ensures
          (λ done h'. files h' ≡ set_file target (files h source) (files h))
          (λ e h'.
            ((may_fail ≡ true) ⊎ (is_some (files h source) ≡ false))
            × (left : Option Text) × (files h' ≡ set_file target left (files h)))
          (out.copy source target)
          h
  pub remove_lem :
      (path : Text) (h : Host)
      → Ensures
          (λ done h'. files h' ≡ set_file path none (files h))
          (λ e h'. ((may_fail ≡ true) ⊎ (is_some (files h path) ≡ false)) × (files h' ≡ files h))
          (out.remove path)
          h
  pub write_lem :
      (path content : Text) (h : Host)
      → Ensures
          (λ done h'. files h' ≡ set_file path (some content) (files h))
          (λ e h'. (left : Option Text) × (files h' ≡ set_file path left (files h)))
          (out.write path content)
          h
  pub restart_lem :
      (command : Restart) (h : Host)
      → Ensures (λ done h'. files h' ≡ files h) (λ e h'. files h' ≡ files h) (out.restart command) h

length-suffix : (s t : Text) → s ++ t ≡ s → length t ≡ 0
length-suffix s t e = omega (arith, length-append s t, ap length e)

pub config-ne-backup :
    (cluster_name : Text) → text_eq (config_file cluster_name) (backup_file cluster_name) ≡ false
config-ne-backup cluster_name = ground (
  arith,
  text_eq_iff (config_file cluster_name) (backup_file cluster_name),
  λ (e : config_file cluster_name ≡ backup_file cluster_name).
      length-suffix (config_file cluster_name) (codes ".backup") (sym e),
)

-- The files once the configuration is saved: with a backup, if there was a configuration.
abbrev pub saved_files : (config backup : Text) → Files → Files
saved_files config backup v = set_file backup (or_else (v config) (v backup)) v

-- The files after the rollback: the old configuration again or, where there was none, the old backup.
abbrev pub restored_files : (config backup : Text) → Files → Files
restored_files config backup v =
    set_file backup none (set_file config (or_else (v config) (v backup)) v)

module _ (config backup : Text) (v : Files) (differ : text_eq config backup ≡ false) where
  pub saved-present :
      is_some (v config) ≡ true → set_file backup (v config) v ≡ saved_files config backup v
  saved-present present = fun_ext λ other. ground (arith, Option-cases (v config))

  pub saved-absent : is_some (v config) ≡ false → v ≡ saved_files config backup v
  saved-absent absent =
      fun_ext λ other. ground (arith, Option-cases (v config), text_eq_iff backup other)

  module _ (left : Option Text) where
    abbrev pub changed : Files
    changed = set_file config left (saved_files config backup v)

    changed-backup : changed backup ≡ or_else (v config) (v backup)
    changed-backup = ground (arith, text_eq_iff backup backup)

    pub restored-saved :
        set_file backup none (set_file config (changed backup) changed)
        ≡ restored_files config backup v
    restored-saved = fun_ext λ other. ground (arith, changed-backup)

    pub restored-removed :
        is_some (changed backup) ≡ false
        → set_file config none changed ≡ restored_files config backup v
    restored-removed none_saved =
        fun_ext
          λ other. ground (arith, changed-backup, Option-cases (or_else (v config) (v backup)))

    pub restored-unwritten :
        is_some (changed backup) ≡ false
        → is_some (changed config) ≡ false
        → changed ≡ restored_files config backup v
    restored-unwritten none_saved none_written = fun_ext λ other. ground (
      arith,
      changed-backup,
      text_eq_iff config config,
      Option-cases (or_else (v config) (v backup)),
      Option-cases left,
    )
