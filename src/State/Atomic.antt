-- ===== src/State/Atomic.antt =====
-- `StateFileManager.save`, and `load` after it.
use ai_hyperscaler_on_workst.Common.{ℕ, ◌≡◌, ◌⊎◌, refl, none, some, false, arith}
use ai_hyperscaler_on_workst.Common.Exec.{ok, err}
use ai_hyperscaler_on_workst.Models.{ClusterState}
use ai_hyperscaler_on_workst.State.Json.{Fields, object}
use ai_hyperscaler_on_workst.State.Codec.{Formats}
use ai_hyperscaler_on_workst.State.Codec.Cluster.{cluster_to_dict, cluster_from_dict}
use ai_hyperscaler_on_workst.State.Codec.RoundTrip.{ReadsBack, IsLoadable, from_dict-to_dict}
use ai_hyperscaler_on_workst.State.Persistence.{
  Works, all_work, Disk, document, persistence_error, load, save, deserialize_state,
}

-- Whichever calls of the operating system fail, `save` either succeeds, and the state file holds the
-- document of the state and no temporary file is left; or it fails, the state file is as it was, and a
-- temporary file is left only where it cannot be removed.
pub save_atomic :
    (f : Formats) (works : Works) (s : ClusterState) (d : Disk)
    → (((save f works s d).0 ≡ ok tt)
        × ((save f works s d).1.state_file ≡ some (document (object (cluster_to_dict f s))))
        × ((save f works s d).1.temp_file ≡ none))
      ⊎ (((save f works s d).0 ≡ err persistence_error)
          × ((save f works s d).1.state_file ≡ d.state_file)
          × (((save f works s d).1.temp_file ≡ none) ⊎ (works.unlink_temp ≡ false)))
unfolding save
save_atomic f works s d = ground arith

pub save-works :
    (f : Formats) (s : ClusterState) (d : Disk)
    → save f all_work s d ≡ (
      ok tt,
      record d { state_file = some (document (object (cluster_to_dict f s))); temp_file = none },
    )
unfolding save
save-works f s d = refl

pub load-document :
    (f : Formats) (now : ℕ) (s : ClusterState) (d : Disk) (fields : Fields)
    → d.state_file ≡ some (document (object fields))
    → cluster_from_dict f now fields ≡ ok s
    → load f now d ≡ (ok (some s), d)
unfolding load deserialize_state
load-document f now s d fields e h = ground arith

-- A state with its times, with normal paths and of a valid type is loaded as it was saved, by a later
-- `load` at any time.
pub load-save :
    (f : Formats)
    → ReadsBack f
    → (now : ℕ) (s : ClusterState) (d : Disk) → IsLoadable f s
    → (load f now (save f all_work s d).1).0 ≡ ok (some s)
load-save f h now s d c = rw (save-works f s d) (
    rw
      (load-document f now s
        (record d { state_file = some (document (object (cluster_to_dict f s))); temp_file = none })
        (cluster_to_dict f s) refl (from_dict-to_dict f h now s c))
      refl)
