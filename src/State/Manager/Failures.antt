-- ===== src/State/Manager/Failures.antt =====
-- Saves that fail, and states that cannot be loaded again.
use ai_hyperscaler_on_workst.Common.{
  ℕ, ◌≡◌, refl, none, some, [], ◌∷◌, true, false, Text, text_eq, arith,
}
use ai_hyperscaler_on_workst.Common.Exec.{ok, err}
use ai_hyperscaler_on_workst.Models.{ClusterState}
use ai_hyperscaler_on_workst.State.Json.{object}
use ai_hyperscaler_on_workst.State.Codec.{Formats, refused}
use ai_hyperscaler_on_workst.State.Codec.Cluster.{is_valid_type, cluster_to_dict, cluster_from_dict}
use ai_hyperscaler_on_workst.State.Persistence.{
  Disk, Works, all_work, document, persistence_error, load, save, deserialize_state,
}
use ai_hyperscaler_on_workst.State.Atomic.{save_atomic}
use ai_hyperscaler_on_workst.State.Manager.{
  Manager, state_manager_error, touched, created_state, save_cached, save_state, ensure_state,
  auto_save_if_dirty,
}
use ai_hyperscaler_on_workst.State.Manager.Calls.{save_cached-works}
use ai_hyperscaler_on_workst.State.Manager.Requests.{ensure, auto_save, perform_all, new_manager}

save_cached-fails :
    (f : Formats) (works : Works) (now : ℕ) (s : ClusterState) (m : Manager)
    → (save f works (touched now s) m.disk).0 ≡ err persistence_error
    → save_cached f works now (some s) m ≡ (
      err state_manager_error,
      record m { cached = some (touched now s); disk = (save f works (touched now s) m.disk).1 },
    )
unfolding save_cached
save_cached-fails f works now s m h = ground arith

auto_save-clean :
    (f : Formats) (works : Works) (now : ℕ) (m : Manager)
    → m.dirty ≡ false
    → auto_save_if_dirty f works now m ≡ (ok false, m)
unfolding auto_save_if_dirty
auto_save-clean f works now m h = ground arith

-- Where a manager without unsaved changes is given a new state to save, and the file cannot be written:
-- the error is raised, the file is as before, the cache holds the new state, and still nothing counts as
-- unsaved, so that `auto_save_if_dirty` does nothing.
pub save_failed_is_clean :
    (f : Formats) (works works' : Works) (now later : ℕ) (s : ClusterState) (m : Manager)
    → m.dirty ≡ false
    → (save f works (touched now s) m.disk).0 ≡ err persistence_error
    → ((save_state f works now (some s) m).0 ≡ err state_manager_error)
      × ((save_state f works now (some s) m).1.disk.state_file ≡ m.disk.state_file)
      × ((save_state f works now (some s) m).1.cached ≡ some (touched now s))
      × (auto_save_if_dirty f works' later (save_state f works now (some s) m).1
          ≡ (ok false, (save_state f works now (some s) m).1))
unfolding save_state
save_failed_is_clean f works works' now later s m clean h =
    rw (save_cached-fails f works now s (record m { cached = some s }) h) (
      refl,
      ground (arith, save_atomic f works (touched now s) m.disk),
      refl,
      auto_save-clean f works' later
          (record m {
            cached = some (touched now s);
            disk = (save f works (touched now s) m.disk).1;
          })
          clean,
    )

abbrev pub empty_disk : Disk
empty_disk = record { state_file = none; temp_file = none; backups = [] }

invalid_type-refused :
    (f : Formats) (now : ℕ) (s : ClusterState)
    → is_valid_type s.cluster_type ≡ false
    → cluster_from_dict f now (cluster_to_dict f s) ≡ err refused
unfolding cluster_from_dict cluster_to_dict text_eq
invalid_type-refused f now s h = rw h refl

load-refused :
    (f : Formats) (now : ℕ) (s : ClusterState) (d : Disk)
    → d.state_file ≡ some (document (object (cluster_to_dict f s)))
    → is_valid_type s.cluster_type ≡ false
    → (load f now d).0 ≡ err persistence_error
unfolding load deserialize_state
load-refused f now s d e h = ground (arith, invalid_type-refused f now s h)

ensured :
    (f : Formats) (now : ℕ) (path name type : Text)
    → (ensure_state f all_work now path name type (new_manager empty_disk)).1
      ≡ record (new_manager empty_disk) {
        cached = some (created_state now path name type);
        dirty = true;
      }
unfolding ensure_state load
ensured f now path name type = refl

auto_saved :
    (f : Formats) (now : ℕ) (s : ClusterState) (m : Manager)
    → m.cached ≡ some s
    → m.dirty ≡ true
    → (auto_save_if_dirty f all_work now m).1.disk.state_file
      ≡ some (document (object (cluster_to_dict f (touched now s))))
unfolding auto_save_if_dirty
auto_saved f now s m e dirty = ground (arith, save_cached-works f now s m)

-- A cluster of another type than "hpc" and "cloud" can be created and saved, and then its file cannot
-- be loaded.
pub ensure_state_unloadable :
    (f : Formats) (path name type : Text) (now later last : ℕ)
    → is_valid_type type ≡ false
    → (load f last
        (perform_all f
          ((now, ensure path name type) ∷ (later, auto_save) ∷ [])
          (new_manager empty_disk)).disk).0
      ≡ err persistence_error
ensure_state_unloadable f path name type now later last h =
    let m = record (new_manager empty_disk) {
      cached = some (created_state now path name type);
      dirty = true;
    } in
    rw (ensured f now path name type) (
      load-refused f last (touched later (created_state now path name type))
        (auto_save_if_dirty f all_work later m).1.disk
        (auto_saved f later (created_state now path name type) m refl refl) h)
