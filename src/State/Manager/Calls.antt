-- ===== src/State/Manager/Calls.antt =====
-- What the calls of the file manager do to the manager, while the disk works.
use ai_hyperscaler_on_workst.Common.{ℕ, ◌≡◌, refl, Option, none, some, false, Text, arith}
use ai_hyperscaler_on_workst.Common.Exec.{ok, err}
use ai_hyperscaler_on_workst.Models.{ClusterState}
use ai_hyperscaler_on_workst.State.Json.{object}
use ai_hyperscaler_on_workst.State.Codec.{Formats}
use ai_hyperscaler_on_workst.State.Codec.Cluster.{cluster_to_dict}
use ai_hyperscaler_on_workst.State.Persistence.{
  PersistenceError, Disk, all_work, document, load, save, remove, backup,
}
use ai_hyperscaler_on_workst.State.Manager.{
  touched, Manager, state_manager_error, get_state, save_cached, save_state, clear_state,
  backup_state,
}

pub load-disk : (f : Formats) (now : ℕ) (d : Disk) → (load f now d).1 ≡ d
unfolding load
load-disk f now d = ground arith

pub load-file :
    (f : Formats) (now : ℕ) (d d' : Disk)
    → d.state_file ≡ d'.state_file
    → (load f now d).0 ≡ (load f now d').0
unfolding load
load-file f now d d' e = ground arith

pub get_state-cached :
    (f : Formats) (now : ℕ) (m : Manager) (s : ClusterState)
    → m.cached ≡ some s
    → get_state f all_work now m ≡ (ok (some s), m)
unfolding get_state
get_state-cached f now m s e = ground arith

pub get_state-loaded :
    (f : Formats) (now : ℕ) (m : Manager) (loaded : Option ClusterState)
    → m.cached ≡ none
    → (load f now m.disk).0 ≡ ok loaded
    → get_state f all_work now m ≡ (ok loaded, record m { cached = loaded })
unfolding get_state
get_state-loaded f now m loaded e h = ground (arith, load-disk f now m.disk)

pub get_state-failed :
    (f : Formats) (now : ℕ) (m : Manager) (e : PersistenceError)
    → m.cached ≡ none
    → (load f now m.disk).0 ≡ err e
    → get_state f all_work now m ≡ (err state_manager_error, m)
unfolding get_state
get_state-failed f now m e none_cached h = ground (arith, load-disk f now m.disk)

pub save_cached-works :
    (f : Formats) (now : ℕ) (s : ClusterState) (m : Manager)
    → save_cached f all_work now (some s) m ≡ (
      ok tt,
      record m {
        cached = some (touched now s);
        dirty = false;
        disk = record m.disk {
          state_file = some (document (object (cluster_to_dict f (touched now s))));
          temp_file = none;
        };
      },
    )
unfolding save_cached save
save_cached-works f now s m = refl

pub save_nothing :
    (f : Formats) (now : ℕ) (m : Manager)
    → m.cached ≡ none
    → save_state f all_work now none m ≡ (err state_manager_error, m)
unfolding save_state save_cached
save_nothing f now m e = ground arith

pub save_cache :
    (f : Formats) (now : ℕ) (m : Manager) (s : ClusterState)
    → m.cached ≡ some s
    → save_state f all_work now none m ≡ save_cached f all_work now (some s) m
unfolding save_state
save_cache f now m s e = ground arith

pub clear_state-cached :
    (f : Formats) (now : ℕ) (m : Manager) → (clear_state f all_work now m).1.cached ≡ none
unfolding clear_state remove
clear_state-cached f now m = ground arith

pub backup_state-keeps :
    (f : Formats) (now : ℕ) (suffix : Text) (m : Manager)
    → ((backup_state f all_work now suffix m).1.dirty ≡ m.dirty)
      × ((backup_state f all_work now suffix m).1.cached ≡ m.cached)
      × ((backup_state f all_work now suffix m).1.disk.state_file ≡ m.disk.state_file)
unfolding backup_state backup
backup_state-keeps f now suffix m = ground arith
