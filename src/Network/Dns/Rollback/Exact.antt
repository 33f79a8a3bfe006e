-- ===== src/Network/Dns/Rollback/Exact.antt =====
-- `_configure_host_dns_integration` and its rollback, on the files.
use ai_hyperscaler_on_workst.Common.{
  ◌≡◌, ◌⊎◌, inl, inr, Bool-cases, refl, sym, ap, ◌∙◌, arith, Option, none, some, Bool, true, false,
  Text, text_eq, not, if◌then◌else◌, is_some,
}
use ai_hyperscaler_on_workst.Common.Exec.{pure, raise, ◌>>◌}
use ai_hyperscaler_on_workst.Common.Ensures.{
  Ensures, Ensures-any, Ensures-both, Ensures-weaken, Ensures-pure, Ensures-raise, Ensures-try,
  Ensures-if, Ensures-bind, Ensures-gets,
}
use ai_hyperscaler_on_workst.Problem.{Problem, network_error}
use ai_hyperscaler_on_workst.Config.{NetworkSettings}
use ai_hyperscaler_on_workst.Network.Outside.{Outside, Restart, systemctl, service}
use ai_hyperscaler_on_workst.Network.Dns.{
  config_file, backup_file, attempt_restart, restart_dnsmasq_service, back_up,
  rollback_dns_configuration, write_configuration, configure_host_dns_integration,
}
use ai_hyperscaler_on_workst.Network.Dns.Rollback.{
  Files, set_file, HasFiles, config-ne-backup, saved_files, restored_files, saved-present,
  saved-absent, changed, restored-saved, restored-removed, restored-unwritten,
}
use ai_hyperscaler_on_workst.Network.Dns.Rollback.Others.{
  new_configuration, others, configure-others,
}

module _ {Host : Type 0} {out : Outside Host} (fs : HasFiles out)
    (root : (h : Host) → out.is_root h ≡ true) (reliable : fs.may_fail ≡ false) where
  open fs use {files}

  only_missing :
      (path : Text) (h : Host)
      → is_some (files h path) ≡ true
      → (fs.may_fail ≡ true) ⊎ (is_some (files h path) ≡ false)
      → ⊥
  only_missing path h there (inl fails) = ground (arith, reliable)
  only_missing path h there (inr missing) = ground arith

  copy-lem :
      (source target : Text) (h : Host)
      → is_some (files h source) ≡ true
      → Ensures
          (λ done h'. files h' ≡ set_file target (files h source) (files h))
          (λ e h'. ⊥)
          (out.copy source target)
          h
  copy-lem source target h there =
      Ensures-weaken (out.copy source target) h (fs.copy_lem source target h) (λ a h' e. e)
        (λ p h' e. only_missing source h there e.0)

  remove-lem :
      (path : Text) (h : Host)
      → is_some (files h path) ≡ true
      → Ensures (λ done h'. files h' ≡ set_file path none (files h)) (λ e h'. ⊥) (out.remove path) h
  remove-lem path h there =
      Ensures-weaken (out.remove path) h (fs.remove_lem path h) (λ a h' e. e)
        (λ p h' e. only_missing path h there e.0)

  -- The files are given ones, after a result or an exception.
  abbrev pub FilesAre : {A : Type 0} → Files → A → Host → Type 0
  FilesAre v a h = files h ≡ v

  attempt-lem :
      (v : Files) (command : Restart) (h : Host)
      → files h ≡ v
      → Ensures (FilesAre v) (FilesAre v) (attempt_restart out command) h
  unfolding attempt_restart
  attempt-lem v command h same =
      Ensures-try (out.restart command) (λ e. pure false) h
        (Ensures-weaken (out.restart command) h (fs.restart_lem command h) (λ a h' e. e ∙ same)
          (λ p h' e. e ∙ same))
        (λ p h' e. Ensures-pure false h' e)

  restart-lem :
      (v : Files) (h : Host)
      → files h ≡ v
      → Ensures (FilesAre v) (FilesAre v) (restart_dnsmasq_service out) h
  unfolding restart_dnsmasq_service
  restart-lem v h same = Ensures-gets out.is_root _ h (λ privileged known.
      Ensures-if (not privileged) _ _ h (λ e. Ensures-raise network_error h same)
        λ e.
          Ensures-bind (attempt_restart out systemctl) _ h (attempt-lem v systemctl h same)
            λ a h1 e1.
              Ensures-if a _ _ h1 (λ t. Ensures-pure tt h1 e1)
                λ t.
                  Ensures-bind (attempt_restart out service) _ h1 (attempt-lem v service h1 e1)
                    λ b h2 e2.
                      Ensures-if b _ _ h2 (λ u. Ensures-pure tt h2 e2)
                        (λ u. Ensures-raise network_error h2 e2))

  unseen :
      (path : Text) (w : Files) (h : Host) (present : Bool)
      → present ≡ out.exists path h
      → files h ≡ w
      → present ≡ false
      → is_some (w path) ≡ false
  unseen path w h present known same absent =
      ap (λ (u : Files). is_some (u path)) (sym same)
      ∙ sym (fs.exists_lem path h)
      ∙ sym known
      ∙ absent

  module _ (cluster_name : Text) (v : Files) where
    abbrev config : Text
    config = config_file cluster_name

    abbrev backup : Text
    backup = backup_file cluster_name

    abbrev differ : text_eq config backup ≡ false
    differ = config-ne-backup cluster_name

    -- What the new configuration file may hold when a step fails.
    abbrev Changed : Problem → Host → Type 0
    Changed e h = (left : Option Text) × (files h ≡ changed config backup v differ left)

    still-there :
        (h h1 : Host)
        → is_some (files h backup) ≡ true
        → files h1 ≡ set_file config (files h backup) (files h)
        → is_some (files h1 backup) ≡ true
    still-there h h1 there e = rw e (rw differ there)

    save-lem :
        (present : Bool) (h : Host)
        → present ≡ out.exists config h
        → files h ≡ v
        → Ensures
            (FilesAre (saved_files config backup v))
            (λ e h'. ⊥)
            (if present then back_up out config backup else pure tt)
            h
    unfolding back_up
    save-lem present h known same =
        Ensures-if present _ _ h
          (λ there.
            let found : is_some (v config) ≡ true = ground (arith, fs.exists_lem config h, same) in
            Ensures-try (out.copy config backup) (λ e. pure tt) h
              (Ensures-weaken (out.copy config backup) h
                (copy-lem config backup h (ground (arith, fs.exists_lem config h)))
                (λ a h' e.
                  e
                  ∙ ap (λ (w : Files). set_file backup (w config) w) same
                  ∙ saved-present config backup v differ found)
                (λ p h' e. e))
              (λ p h' e. absurd e))
          λ missing. Ensures-pure tt h (
            same
            ∙ saved-absent config backup v differ (ground (arith, fs.exists_lem config h, same)))

    write-lem :
        (content : Text) (h : Host)
        → files h ≡ v
        → Ensures
            (FilesAre (set_file config (some content) (saved_files config backup v)))
            Changed
            (write_configuration out cluster_name content)
            h
    unfolding write_configuration
    write-lem content h same =
        let saved = saved_files config backup v in
        Ensures-gets (out.exists config) _ h (λ present known.
          Ensures-bind _ _ h
            (Ensures-weaken _ h (save-lem present h known same) (λ a h' e. e) (λ p h' e. absurd e))
            λ a h1 e1.
              Ensures-bind (out.write config content) _ h1
                (Ensures-weaken (out.write config content) h1 (fs.write_lem config content h1)
                  (λ b h' e. e ∙ ap (set_file config (some content)) e1)
                  (λ p h' (left, e). (left, e ∙ ap (set_file config left) e1)))
                λ b h2 e2.
                  Ensures-weaken (restart_dnsmasq_service out) h2 (restart-lem _ h2 e2)
                    (λ c h' e. e) (λ p h' e. (some content, e)))

    undo-lem :
        (left : Option Text) (saved written : Bool) (h : Host)
        → saved ≡ out.exists backup h
        → written ≡ out.exists config h
        → files h ≡ changed config backup v differ left
        → Ensures
            (FilesAre (restored_files config backup v))
            (λ e h'. ⊥)
            (if saved
              then (out.copy backup config >> out.remove backup)
              else (if written then out.remove config else pure tt))
            h
    undo-lem left saved written h saved_known written_known same =
        let w = changed config backup v differ left in
        Ensures-if saved _ _ h
          (λ there.
            let has_backup : is_some (files h backup) ≡ true =
              ground (arith, fs.exists_lem backup h) in
            Ensures-bind (out.copy backup config) _ h (copy-lem backup config h has_backup)
              λ a h1 e1.
                Ensures-weaken (out.remove backup) h1
                  (remove-lem backup h1 (still-there h h1 has_backup e1))
                  (λ b h' e.
                    e
                    ∙ ap (set_file backup none)
                        (e1 ∙ ap (λ (u : Files). set_file config (u backup) u) same)
                    ∙ restored-saved config backup v differ left)
                  (λ p h' e. e))
          λ gone.
            let no_backup : is_some (w backup) ≡ false =
              unseen backup w h saved saved_known same gone in
            Ensures-if written _ _ h
              (λ there.
                Ensures-weaken (out.remove config) h
                  (remove-lem config h (ground (arith, fs.exists_lem config h)))
                  (λ b h' e.
                    e
                    ∙ ap (set_file config none) same
                    ∙ restored-removed config backup v differ left no_backup)
                  (λ p h' e. e))
              λ absent. Ensures-pure tt h (
                same
                ∙ restored-unwritten config backup v differ left no_backup
                    (unseen config w h written written_known same absent))

    rollback-lem :
        (left : Option Text) (h : Host)
        → files h ≡ changed config backup v differ left
        → Ensures
            (FilesAre (restored_files config backup v))
            (λ e h'. ⊥)
            (rollback_dns_configuration out cluster_name)
            h
    unfolding rollback_dns_configuration
    rollback-lem left h same =
        let w = changed config backup v differ left in
        Ensures-try {Q = λ e h'. ⊥} _ (λ e. pure tt) h
          (Ensures-gets (out.exists backup) _ h (λ saved saved_known.
            Ensures-gets (out.exists config) _ h (λ written written_known.
              Ensures-bind _ _ h (undo-lem left saved written h saved_known written_known same)
                λ a h1 e1.
                  Ensures-try {Q = FilesAre (restored_files config backup v)}
                    (restart_dnsmasq_service out) (λ e. pure tt) h1
                    (Ensures-weaken _ h1 (restart-lem _ h1 e1) (λ b h' e. e) (λ p h' e. e))
                    (λ p h' e. Ensures-pure tt h' e))))
          (λ p h' e. absurd e)

-- The files after a configuration that succeeds, and after one that raises.
abbrev pub configured : (cluster_name : Text) → NetworkSettings → Files → Files
configured cluster_name c v =
    set_file (config_file cluster_name) (some (new_configuration cluster_name c))
      (saved_files (config_file cluster_name) (backup_file cluster_name) v)

abbrev pub rolled_back : (cluster_name : Text) → Files → Files
rolled_back cluster_name v = restored_files (config_file cluster_name) (backup_file cluster_name) v

configure-lem :
    {Host : Type 0} {out : Outside Host} (fs : HasFiles out)
    → ((h : Host) → out.is_root h ≡ true)
    → fs.may_fail ≡ false
    → (cluster_name : Text) (c : NetworkSettings) (h : Host)
    → Ensures
        (λ done h'. fs.files h' ≡ configured cluster_name c (fs.files h))
        (λ e h'. fs.files h' ≡ rolled_back cluster_name (fs.files h))
        (configure_host_dns_integration out cluster_name c)
        h
unfolding configure_host_dns_integration
configure-lem {Host} {out} fs root reliable cluster_name c h =
    let v = fs.files h in
    Ensures-gets out.is_root _ h (λ privileged known.
      Ensures-if (not privileged) (raise network_error) _ h
        (λ refused. absurd (ground (arith, root h)))
        λ granted.
          Ensures-try {Q = Changed fs root reliable cluster_name v}
            (write_configuration out cluster_name (new_configuration cluster_name c))
            (λ e. rollback_dns_configuration out cluster_name >> raise network_error) h
            (write-lem fs root reliable cluster_name v (new_configuration cluster_name c) h refl)
            λ e h1 (left, changed_files).
              Ensures-bind (rollback_dns_configuration out cluster_name) _ h1
                (Ensures-weaken _ h1
                  (rollback-lem fs root reliable cluster_name v left h1 changed_files) (λ a h' f. f)
                  (λ p h' f. absurd f))
                λ a h2 e2. Ensures-raise network_error h2 e2)

-- Unless a copy or a removal of a file may fail.
configure-cases :
    {Host : Type 0} {out : Outside Host} (fs : HasFiles out)
    → ((h : Host) → out.is_root h ≡ true)
    → (cluster_name : Text) (c : NetworkSettings) (h : Host)
    → Ensures
        (λ done h'. (fs.may_fail ≡ true) ⊎ (fs.files h' ≡ configured cluster_name c (fs.files h)))
        (λ e h'. (fs.may_fail ≡ true) ⊎ (fs.files h' ≡ rolled_back cluster_name (fs.files h)))
        (configure_host_dns_integration out cluster_name c)
        h
configure-cases {Host} {out} fs root cluster_name c h = elim (Bool-cases fs.may_fail) [
  | inl fails ↦
      Ensures-weaken (configure_host_dns_integration out cluster_name c) h (Ensures-any _ h)
        (λ a h' t. inl fails) (λ e h' t. inl fails)
  | inr reliable ↦
      Ensures-weaken (configure_host_dns_integration out cluster_name c) h
        (configure-lem fs root reliable cluster_name c h) (λ a h' e. inr e) (λ e h' f. inr f)
]

-- For root: a configuration that succeeds leaves the new file, and the old one as its backup (an old backup, if
-- there was no file); one that raises, `NetworkManagerError`, leaves the old file and no backup or, where
-- there was no file, the old backup in its place: both unless a copy or a removal of a file that is
-- there may fail. No file but these two changes, whatever fails. The restart of dnsmasq touches no file.
pub configure_host_dns_integration-restores :
    {Host : Type 0} {out : Outside Host} (fs : HasFiles out)
    → ((h : Host) → out.is_root h ≡ true)
    → (cluster_name : Text) (c : NetworkSettings) (h : Host)
    → Ensures
        (λ done h'.
          ((fs.may_fail ≡ true) ⊎ (fs.files h' ≡ configured cluster_name c (fs.files h)))
          × (others cluster_name (fs.files h') ≡ others cluster_name (fs.files h)))
        (λ e h'.
          ((fs.may_fail ≡ true) ⊎ (fs.files h' ≡ rolled_back cluster_name (fs.files h)))
          × ((e ≡ network_error)
              × (others cluster_name (fs.files h') ≡ others cluster_name (fs.files h))))
        (configure_host_dns_integration out cluster_name c)
        h
configure_host_dns_integration-restores {Host} {out} fs root cluster_name c h =
    Ensures-both (configure_host_dns_integration out cluster_name c) h
      (configure-cases fs root cluster_name c h) (configure-others fs cluster_name c h)
