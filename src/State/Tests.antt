-- ===== src/State/Tests.antt =====
-- Runs of the state manager.
use ai_hyperscaler_on_workst.Common.{
  ℕ, zero, suc, ◌≡◌, ◌⊎◌, refl, Option, none, some, List, [], ◌∷◌, false, Text, codes, text_eq,
  arith,
}
use ai_hyperscaler_on_workst.Common.Exec.{ok, err}
use ai_hyperscaler_on_workst.Models.{VmInfo, shutoff, ClusterState}
use ai_hyperscaler_on_workst.State.Json.{object}
use ai_hyperscaler_on_workst.State.Codec.{Formats}
use ai_hyperscaler_on_workst.State.Codec.Cluster.{is_valid_type, cluster_to_dict, cluster_from_dict}
use ai_hyperscaler_on_workst.State.Codec.RoundTrip.{ReadsBack, IsLoadable, from_dict-to_dict}
use ai_hyperscaler_on_workst.State.Persistence.{
  Works, all_work, document, persistence_error, load, save,
}
use ai_hyperscaler_on_workst.State.Atomic.{save_atomic}
use ai_hyperscaler_on_workst.State.Manager.{
  Manager, state_manager_error, touched, save_state, auto_save_if_dirty, ensure_state, get_state,
}
use ai_hyperscaler_on_workst.State.Manager.Requests.{
  Request, ensure, auto_save, perform_all, new_manager, clean_means_saved,
}
use ai_hyperscaler_on_workst.State.Manager.Failures.{
  empty_disk, save_failed_is_clean, ensure_state_unloadable,
}

-- Times as tallies, and every path in normal form.
abbrev tally : ℕ → Text
tally zero = []
tally (suc n) = 1 ∷ tally n

abbrev count_marks : Text → ℕ
count_marks [] = 0
count_marks (c ∷ t) = suc (count_marks t)

count_marks-tally : (n : ℕ) → count_marks (tally n) ≡ n
count_marks-tally zero = refl
count_marks-tally (suc n) = omega (arith, count_marks-tally n)

abbrev parse : Text → Option ℕ
parse [] = none
parse (c ∷ t) = some (count_marks t)

abbrev formats : Formats
formats = record { isoformat = λ n. 0 ∷ tally n; fromisoformat = parse; path_text = λ t. t }

formats-ReadsBack : ReadsBack formats
formats-ReadsBack = record {
  parses = λ t. rw (count_marks-tally t) refl;
  head = λ t. 0;
  tail = tally;
  nonempty = λ t. refl;
}

abbrev vm : VmInfo
vm = record {
  name = codes "node";
  domain_uuid = codes "u";
  state = shutoff;
  cpu_cores = 4;
  memory_gb = 8;
  volume_path = codes "/v";
  vm_type = codes "compute";
  ip_address = none;
  gpu_assigned = some (codes "GPU");
  created_at = some 3;
  last_modified = some 4;
}

abbrev cluster : (type : Text) → List VmInfo → ClusterState
cluster type nodes = record {
  cluster_name = codes "c";
  cluster_type = type;
  controller = none;
  compute_nodes = nodes;
  worker_nodes = [];
  network_config = none;
  storage_pool = none;
  config_file_path = some (codes "/s");
  state_file_version = codes "2.0";
  created_at = some 1;
  last_modified = some 2;
}

abbrev state : ClusterState
state = cluster (codes "hpc") (vm ∷ [])

state-IsLoadable : IsLoadable formats state
unfolding text_eq is_valid_type
state-IsLoadable = record {
  created = 1;
  modified = 2;
  created_eq = refl;
  modified_eq = refl;
  valid_type = refl;
  controller = tt;
  compute_nodes = (
    record { created = 3; modified = 4; created_eq = refl; modified_eq = refl; normal = refl },
    tt,
  );
  worker_nodes = tt;
}

from_dict-to_dict_example : cluster_from_dict formats 9 (cluster_to_dict formats state) ≡ ok state
from_dict-to_dict_example = from_dict-to_dict formats formats-ReadsBack 9 state state-IsLoadable

abbrev full_disk : Works
full_disk = record all_work { write_temp = false }

save_atomic_example :
    (((save formats all_work state empty_disk).0 ≡ ok tt)
      × ((save formats all_work state empty_disk).1.state_file
          ≡ some (document (object (cluster_to_dict formats state))))
      × ((save formats all_work state empty_disk).1.temp_file ≡ none))
    ⊎ (((save formats all_work state empty_disk).0 ≡ err persistence_error)
        × ((save formats all_work state empty_disk).1.state_file ≡ empty_disk.state_file)
        × (((save formats all_work state empty_disk).1.temp_file ≡ none)
            ⊎ (all_work.unlink_temp ≡ false)))
save_atomic_example = save_atomic formats all_work state empty_disk

abbrev holding : Manager
holding = record { cached = some state; dirty = false; disk = empty_disk }

-- A cluster is created and saved.
abbrev requests : List (ℕ × Request)
requests = (1, ensure (codes "/s") (codes "c") (codes "hpc")) ∷ (2, auto_save) ∷ []

abbrev saved : ClusterState
saved = cluster (codes "hpc") []

saved-IsLoadable : IsLoadable formats saved
unfolding text_eq is_valid_type
saved-IsLoadable = record {
  created = 1;
  modified = 2;
  created_eq = refl;
  modified_eq = refl;
  valid_type = refl;
  controller = tt;
  compute_nodes = tt;
  worker_nodes = tt;
}

program : Unit {0}
unfolding ensure_state auto_save_if_dirty save_state get_state load save
program = tt

ends_clean : (perform_all formats requests (new_manager empty_disk)).dirty ≡ false
unfolding program
ends_clean = refl

ends_with : (perform_all formats requests (new_manager empty_disk)).cached ≡ some saved
unfolding program
ends_with = refl

clean_means_saved_example :
    (now : ℕ) × ((load formats now (perform_all formats requests (new_manager empty_disk)).disk).0
      ≡ ok (some saved))
clean_means_saved_example =
    clean_means_saved formats formats-ReadsBack requests empty_disk saved ends_clean ends_with
      saved-IsLoadable

save_fails : (save formats full_disk (touched 5 state) empty_disk).0 ≡ err persistence_error
unfolding program
save_fails = refl

save_failed_is_clean_example :
    ((save_state formats full_disk 5 (some state) (new_manager empty_disk)).0
      ≡ err state_manager_error)
    × ((save_state formats full_disk 5 (some state) (new_manager empty_disk)).1.disk.state_file
        ≡ none)
    × ((save_state formats full_disk 5 (some state) (new_manager empty_disk)).1.cached
        ≡ some (touched 5 state))
    × (auto_save_if_dirty formats all_work 6
          (save_state formats full_disk 5 (some state) (new_manager empty_disk)).1
        ≡ (ok false, (save_state formats full_disk 5 (some state) (new_manager empty_disk)).1))
save_failed_is_clean_example =
    save_failed_is_clean formats full_disk all_work 5 6 state (new_manager empty_disk) refl
      save_fails

ensure_state_unloadable_example :
    (load formats 9
      (perform_all formats
        ((1, ensure (codes "/s") (codes "c") (codes "test")) ∷ (2, auto_save) ∷ [])
        (new_manager empty_disk)).disk).0
    ≡ err persistence_error
unfolding text_eq is_valid_type
ensure_state_unloadable_example =
    ensure_state_unloadable formats (codes "/s") (codes "c") (codes "test") 1 2 9 refl
