-- ===== src/State/Manager/Synced.antt =====
-- Managers that are not dirty, and what is in their file: one lemma per method.
use ai_hyperscaler_on_workst.Common.{
  ℕ, ◌≡◌, ◌⊎◌, inl, inr, refl, sym, ◌∙◌, ap, Option-cases, Option, none, some, Bool, true, false,
  Text, arith, if◌then◌else◌, is_some, ◌&&◌,
}
use ai_hyperscaler_on_workst.Common.Exec.{Result, ok, err, and_then, pure, ◌>>=◌, ◌>>◌}
use ai_hyperscaler_on_workst.Models.{VmInfo, NetworkConfig, ClusterState}
use ai_hyperscaler_on_workst.Models.Vms.{get_vm_by_name, removed}
use ai_hyperscaler_on_workst.State.Json.{object}
use ai_hyperscaler_on_workst.State.Codec.{Formats}
use ai_hyperscaler_on_workst.State.Codec.Cluster.{cluster_to_dict}
use ai_hyperscaler_on_workst.State.Persistence.{PersistenceError, Disk, all_work, document, load}
use ai_hyperscaler_on_workst.State.Manager.{
  created_state, Manager, Action, StateManagerError, state_manager_error, change, get_state,
  save_cached, save_state, ensure_state, clear_state, backup_state, add_vm, remove_vm, change_vm,
  update_network_config, update_network_info, auto_save_if_dirty,
}
use ai_hyperscaler_on_workst.State.Manager.Calls.{
  load-file, get_state-cached, get_state-loaded, get_state-failed, save_cached-works, save_nothing,
  save_cache, clear_state-cached, backup_state-keeps,
}

module _ (f : Formats) where
  -- The state is in the file: as its document, or as what `load` returns at some time.
  abbrev pub IsSaved : ClusterState → Disk → Type 0
  IsSaved s d =
      (d.state_file ≡ some (document (object (cluster_to_dict f s))))
      ⊎ ((now : ℕ) × ((load f now d).0 ≡ ok (some s)))

  abbrev pub IsSynced : Manager → Type 0
  IsSynced m = m.dirty ≡ false → (s : ClusterState) → m.cached ≡ some s → IsSaved s m.disk

  pub IsSaved-file :
      (s : ClusterState) (d d' : Disk) → d.state_file ≡ d'.state_file → IsSaved s d → IsSaved s d'
  IsSaved-file s d d' e (inl h) = inl (sym e ∙ h)
  IsSaved-file s d d' e (inr (now, h)) = inr (now, sym (load-file f now d d' e) ∙ h)

  abbrev pub Preserves : {A : Type 0} → Action A → Type 0
  Preserves act = (m : Manager) → IsSynced m → IsSynced (act m).1

  pub and_then-IsSynced :
      {A B : Type 0} (r : Result StateManagerError A) (k : A → Action B) (m : Manager)
      → IsSynced m
      → ((a : A) → Preserves (k a))
      → IsSynced (and_then r k m).1
  and_then-IsSynced (ok a) k m h hk = hk a m h
  and_then-IsSynced (err e) k m h hk = h

  pub bind-IsSynced :
      {A B : Type 0} (act : Action A) (k : A → Action B)
      → Preserves act
      → ((a : A) → Preserves (k a))
      → Preserves (act >>= k)
  bind-IsSynced act k hact hk m h = and_then-IsSynced (act m).0 k (act m).1 (hact m h) hk

  pub change-IsSynced : (s : ClusterState) → Preserves (change s)
  change-IsSynced s m h = λ clean. absurd (ground arith)

  pub loaded-IsSynced :
      (now : ℕ) (m : Manager) (r : Result PersistenceError (Option ClusterState))
      → m.cached ≡ none
      → (load f now m.disk).0 ≡ r
      → IsSynced m
      → IsSynced (get_state f all_work now m).1
  loaded-IsSynced now m (ok loaded) none_cached e h =
      rw (get_state-loaded f now m loaded none_cached e)
        (λ clean s same. inr (now, e ∙ ap (λ x. ok x) same))
  loaded-IsSynced now m (err fault) none_cached e h =
      rw (get_state-failed f now m fault none_cached e) h

  pub get_state-IsSynced : (now : ℕ) → Preserves (get_state f all_work now)
  get_state-IsSynced now m h = elim (Option-cases m.cached) [
    | inl e ↦ loaded-IsSynced now m (load f now m.disk).0 e refl h
    | inr (s, e) ↦ rw (get_state-cached f now m s e) h
  ]

  pub option-IsSynced :
      {A B : Type 0} (o : Option A) (none_case : Action B) (some_case : A → Action B)
      → Preserves none_case
      → ((a : A) → Preserves (some_case a))
      → Preserves (elim o [ none ↦ none_case | some a ↦ some_case a ])
  option-IsSynced none none_case some_case hn hs = hn
  option-IsSynced (some a) none_case some_case hn hs = hs a

  pub if-IsSynced :
      {B : Type 0} (b : Bool) (then_case else_case : Action B)
      → Preserves then_case
      → Preserves else_case
      → Preserves (if b then then_case else else_case)
  if-IsSynced true then_case else_case ht he = ht
  if-IsSynced false then_case else_case ht he = he

  -- A method that gets the state and goes on from it.
  pub after_get :
      {B : Type 0} (now : ℕ) (none_case : Action B) (some_case : ClusterState → Action B)
      → Preserves none_case
      → ((s : ClusterState) → Preserves (some_case s))
      → Preserves (
          get_state f all_work now >>= λ state. elim state [
            | none ↦ none_case
            | some s ↦ some_case s
          ])
  after_get now none_case some_case hn hs =
      bind-IsSynced (get_state f all_work now) _ (get_state-IsSynced now)
        (λ state. option-IsSynced state none_case some_case hn hs)

  pub unchanged : {B : Type 0} (r : Result StateManagerError B) → Preserves (λ m. (r, m))
  unchanged r m h = h

  pub change_and : {B : Type 0} (s : ClusterState) (b : B) → Preserves (change s >> pure b)
  change_and s b m h = λ clean. absurd (ground arith)

  pub ensure_state-IsSynced :
      (now : ℕ) (path name type : Text) → Preserves (ensure_state f all_work now path name type)
  unfolding ensure_state
  ensure_state-IsSynced now path name type =
      after_get now _ _
        (change_and (created_state now path name type) (created_state now path name type))
        (λ s. unchanged (ok s))

  pub add_vm-IsSynced : (now : ℕ) (vm : VmInfo) → Preserves (add_vm f all_work now vm)
  unfolding add_vm
  add_vm-IsSynced now vm =
      after_get now _ _ (unchanged {B = Unit {0}} (err state_manager_error))
        (λ s. change-IsSynced _)

  pub remove_vm-IsSynced : (now : ℕ) (name : Text) → Preserves (remove_vm f all_work now name)
  unfolding remove_vm
  remove_vm-IsSynced now name = after_get now _ _ (unchanged (ok false)) (λ s.
      option-IsSynced (removed s name) _ _ (unchanged (ok false)) (λ left. change_and left true))

  pub change_vm-IsSynced :
      (now : ℕ) (name : Text) (g : VmInfo → VmInfo) → Preserves (change_vm f all_work now name g)
  unfolding change_vm
  change_vm-IsSynced now name g = after_get now _ _ (unchanged (ok false)) (λ s.
      if-IsSynced (is_some (get_vm_by_name s name)) _ _ (change_and _ true) (unchanged (ok false)))

  pub update_network_config-IsSynced :
      (now : ℕ) (n : NetworkConfig) → Preserves (update_network_config f all_work now n)
  unfolding update_network_config
  update_network_config-IsSynced now n =
      after_get now _ _ (unchanged {B = Unit {0}} (err state_manager_error))
        (λ s. change-IsSynced _)

  pub saved_manager-IsSynced :
      (now : ℕ) (s : ClusterState) (m : Manager)
      → IsSynced (save_cached f all_work now (some s) m).1
  saved_manager-IsSynced now s m =
      rw (save_cached-works f now s m) (λ clean t same. inl (ground arith))

  pub save_state-IsSynced :
      (now : ℕ) (state : Option ClusterState) → Preserves (save_state f all_work now state)
  unfolding save_state
  save_state-IsSynced now (some s) m h = saved_manager-IsSynced now s (record m { cached = some s })
  save_state-IsSynced now none m h = elim (Option-cases m.cached) [
    | inl e ↦ rw (save_nothing f now m e) h
    | inr (s, e) ↦ rw (save_cache f now m s e) (saved_manager-IsSynced now s m)
  ]

  pub clear_state-IsSynced : (now : ℕ) → Preserves (clear_state f all_work now)
  clear_state-IsSynced now m h = λ clean s same. absurd (ground (arith, clear_state-cached f now m))

  pub backup_state-IsSynced :
      (now : ℕ) (suffix : Text) → Preserves (backup_state f all_work now suffix)
  backup_state-IsSynced now suffix m h =
      let (clean_same, cached_same, file_same) = backup_state-keeps f now suffix m in
      λ clean s same.
        IsSaved-file s m.disk (backup_state f all_work now suffix m).1.disk (sym file_same)
          (h (sym clean_same ∙ clean) s (sym cached_same ∙ same))

  pub auto_save_if_dirty-IsSynced : (now : ℕ) → Preserves (auto_save_if_dirty f all_work now)
  unfolding auto_save_if_dirty
  auto_save_if_dirty-IsSynced now m h =
      if-IsSynced (m.dirty && is_some m.cached) _ _
        (bind-IsSynced (save_state f all_work now none) _ (save_state-IsSynced now none)
          (λ _. unchanged (ok true)))
        (unchanged (ok false)) m h

  pub update_network_info-IsSynced : (now : ℕ) → Preserves (update_network_info f all_work now)
  unfolding update_network_info
  update_network_info-IsSynced now =
      after_get now _ _ (unchanged {B = Unit {0}} (err state_manager_error))
        (λ s m h clean. absurd (ground arith))
