-- ===== src/State/Manager/Requests.antt =====
-- Sequences of requests to the manager.
use ai_hyperscaler_on_workst.Common.{
  ℕ, ◌≡◌, inl, inr, ap, Option, none, some, List, [], ◌∷◌, false, Text, arith,
}
use ai_hyperscaler_on_workst.Common.Exec.{ok}
use ai_hyperscaler_on_workst.Models.{VmState, VmInfo, NetworkConfig, ClusterState}
use ai_hyperscaler_on_workst.State.Codec.{Formats}
use ai_hyperscaler_on_workst.State.Codec.Cluster.{cluster_to_dict}
use ai_hyperscaler_on_workst.State.Codec.RoundTrip.{ReadsBack, IsLoadable, from_dict-to_dict}
use ai_hyperscaler_on_workst.State.Persistence.{Disk, all_work, load}
use ai_hyperscaler_on_workst.State.Atomic.{load-document}
use ai_hyperscaler_on_workst.State.Manager.{
  Manager, get_state, save_state, ensure_state, clear_state, backup_state, add_vm, remove_vm,
  change_vm, update_vm_state, allocate_vm_ip, release_vm_ip, update_network_config,
  update_network_info, auto_save_if_dirty,
}
use ai_hyperscaler_on_workst.State.Manager.Synced.{
  IsSynced, bind-IsSynced, get_state-IsSynced, unchanged, ensure_state-IsSynced, add_vm-IsSynced,
  remove_vm-IsSynced, change_vm-IsSynced, update_network_config-IsSynced, save_state-IsSynced,
  clear_state-IsSynced, backup_state-IsSynced, auto_save_if_dirty-IsSynced,
  update_network_info-IsSynced,
}

-- What the managers of clusters ask for. The methods that only read get the state.
pub data Request : Type 0 where
  get : Request
  save_given : Option ClusterState → Request
  ensure : (path cluster_name cluster_type : Text) → Request
  clear auto_save network_info : Request
  backup_as : Text → Request
  add : VmInfo → Request
  remove_named : Text → Request
  set_state : Text → VmState → Request
  allocate_ip : (vm_name ip_address : Text) → Request
  release_ip : Text → Request
  set_network : NetworkConfig → Request

module _ (f : Formats) where
  abbrev pub perform : (now : ℕ) → Request → Manager → Manager
  perform now get m = (get_state f all_work now m).1
  perform now (save_given state) m = (save_state f all_work now state m).1
  perform now (ensure path name type) m = (ensure_state f all_work now path name type m).1
  perform now clear m = (clear_state f all_work now m).1
  perform now auto_save m = (auto_save_if_dirty f all_work now m).1
  perform now network_info m = (update_network_info f all_work now m).1
  perform now (backup_as suffix) m = (backup_state f all_work now suffix m).1
  perform now (add vm) m = (add_vm f all_work now vm m).1
  perform now (remove_named name) m = (remove_vm f all_work now name m).1
  perform now (set_state name state) m = (update_vm_state f all_work now name state m).1
  perform now (allocate_ip name ip) m = (allocate_vm_ip f all_work now name ip m).1
  perform now (release_ip name) m = (release_vm_ip f all_work now name m).1
  perform now (set_network n) m = (update_network_config f all_work now n m).1

  -- Requests with the times at which they are made.
  abbrev pub perform_all : List (ℕ × Request) → Manager → Manager
  perform_all [] m = m
  perform_all ((now, r) ∷ requests) m = perform_all requests (perform now r m)

  perform-IsSynced :
      (now : ℕ) (r : Request) (m : Manager) → IsSynced f m → IsSynced f (perform now r m)
  unfolding update_vm_state allocate_vm_ip release_vm_ip
  perform-IsSynced now get m h = get_state-IsSynced f now m h
  perform-IsSynced now (save_given state) m h = save_state-IsSynced f now state m h
  perform-IsSynced now (ensure path name type) m h = ensure_state-IsSynced f now path name type m h
  perform-IsSynced now clear m h = clear_state-IsSynced f now m h
  perform-IsSynced now auto_save m h = auto_save_if_dirty-IsSynced f now m h
  perform-IsSynced now network_info m h = update_network_info-IsSynced f now m h
  perform-IsSynced now (backup_as suffix) m h = backup_state-IsSynced f now suffix m h
  perform-IsSynced now (add vm) m h = add_vm-IsSynced f now vm m h
  perform-IsSynced now (remove_named name) m h = remove_vm-IsSynced f now name m h
  perform-IsSynced now (set_state name state) m h = change_vm-IsSynced f now name _ m h
  perform-IsSynced now (allocate_ip name ip) m h =
      bind-IsSynced f (change_vm f all_work now name _) _ (change_vm-IsSynced f now name _)
        (λ found. unchanged f (ok tt)) m h
  perform-IsSynced now (release_ip name) m h =
      bind-IsSynced f (change_vm f all_work now name _) _ (change_vm-IsSynced f now name _)
        (λ found. unchanged f (ok tt)) m h
  perform-IsSynced now (set_network n) m h = update_network_config-IsSynced f now n m h

  perform_all-IsSynced :
      (requests : List (ℕ × Request)) (m : Manager)
      → IsSynced f m
      → IsSynced f (perform_all requests m)
  perform_all-IsSynced [] m h = h
  perform_all-IsSynced ((now, r) ∷ requests) m h =
      perform_all-IsSynced requests (perform now r m) (perform-IsSynced now r m h)

-- A manager as it is constructed.
abbrev pub new_manager : Disk → Manager
new_manager d = record { cached = none; dirty = false; disk = d }

-- Whatever is asked of a new manager while the disk works, as long as it ends up without unsaved
-- changes: a cached state that can be loaded at all is what `load` returns from the disk at some time.
pub clean_means_saved :
    (f : Formats)
    → ReadsBack f
    → (requests : List (ℕ × Request)) (d : Disk) (s : ClusterState)
    → (perform_all f requests (new_manager d)).dirty ≡ false
    → (perform_all f requests (new_manager d)).cached ≡ some s
    → IsLoadable f s
    → (now : ℕ) × ((load f now (perform_all f requests (new_manager d)).disk).0 ≡ ok (some s))
clean_means_saved f h requests d s clean same c =
    let m = perform_all f requests (new_manager d) in
    elim (perform_all-IsSynced f requests (new_manager d) (λ _ t e. absurd (ground arith)) clean s
      same) [
        | inl e ↦ (
          0,
          ap (λ r. r.0)
              (load-document f 0 s m.disk (cluster_to_dict f s) e (from_dict-to_dict f h 0 s c)),
        )
        | inr loaded ↦ loaded
      ]
