-- ===== src/Models/Vms/Summary.antt =====
-- What `ClusterState.get_cluster_status` reports.
use ai_hyperscaler_on_workst.Common.{ℕ, ◌≤◌, ◌≡◌, ◌≢◌, refl, List, [], ◌∷◌, arith, length, All, ◌↔◌}
use ai_hyperscaler_on_workst.Models.{running, VmInfo, ClusterState}
use ai_hyperscaler_on_workst.Models.Vms.{
  get_all_vms, not_initialized, all_running, stopped, running_vms, overall_status,
  get_cluster_status,
}

running_vms-le : (vms : List VmInfo) → length (running_vms vms) ≤ length vms
unfolding running_vms
running_vms-le [] = omega arith
running_vms-le (vm ∷ vms) = ground (arith, running_vms-le vms)

-- All are running exactly where none is dropped from the list of running VMs.
running_vms-All :
    (vms : List VmInfo) → length (running_vms vms) ≡ length vms → All (λ vm. vm.state ≡ running) vms
unfolding running_vms
running_vms-All [] h = tt
running_vms-All (vm ∷ vms) h =
    (ground (arith, running_vms-le vms), running_vms-All vms (ground (arith, running_vms-le vms)))

All-running_vms :
    (vms : List VmInfo) → All (λ vm. vm.state ≡ running) vms → length (running_vms vms) ≡ length vms
unfolding running_vms
All-running_vms [] h = refl
All-running_vms (vm ∷ vms) h = ground (arith, All-running_vms vms)

none_of_empty :
    (vms : List VmInfo) → length (running_vms vms) ≡ 0 → All (λ vm. vm.state ≢ running) vms
unfolding running_vms
none_of_empty [] h = tt
none_of_empty (vm ∷ vms) h = (λ e. ground arith, none_of_empty vms (ground arith))

empty_of_none :
    (vms : List VmInfo) → All (λ vm. vm.state ≢ running) vms → length (running_vms vms) ≡ 0
unfolding running_vms
empty_of_none [] h = refl
empty_of_none (vm ∷ vms) h = ground (arith, empty_of_none vms h.1, h.0)

nil_of_length : (vms : List VmInfo) → length vms ≡ 0 → vms ≡ []
nil_of_length [] h = refl
nil_of_length (vm ∷ vms) h = absurd (omega arith)

length_of_nil : (vms : List VmInfo) → vms ≡ [] → length vms ≡ 0
length_of_nil vms e = ground arith

overall_status-cases :
    (total up : ℕ)
    → up ≤ total
    → ((overall_status total up ≡ not_initialized) ↔ (total ≡ 0))
      × ((overall_status total up ≡ all_running) ↔ ((total ≢ 0) × (up ≡ total)))
      × ((overall_status total up ≡ stopped) ↔ ((total ≢ 0) × (up ≡ 0)))
unfolding overall_status
overall_status-cases total up h = (
  (λ e. ground arith, λ e. ground arith),
  (λ e. ground arith, λ e. ground arith),
  (λ e. ground arith, λ e. ground arith),
)

-- The reported status is "not_initialized" exactly where there is no VM, "running" exactly where
-- there are VMs and all of them run, and "stopped" exactly where there are VMs and none of them
-- runs; in every other case it is "partial". The count of running VMs is at most the total.
pub get_cluster_status-exact :
    (s : ClusterState)
    → ((get_cluster_status s).status ≡ not_initialized ↔ get_all_vms s ≡ [])
      × ((get_cluster_status s).status ≡ all_running
          ↔ (get_all_vms s ≢ []) × All (λ vm. vm.state ≡ running) (get_all_vms s))
      × ((get_cluster_status s).status ≡ stopped
          ↔ (get_all_vms s ≢ []) × All (λ vm. vm.state ≢ running) (get_all_vms s))
      × ((get_cluster_status s).running_vms ≤ (get_cluster_status s).total_vms)
unfolding get_cluster_status
get_cluster_status-exact s =
    let vms = get_all_vms s in
    let (empty, full, idle) =
      overall_status-cases (length vms) (length (running_vms vms)) (running_vms-le vms) in
    (
      (λ e. nil_of_length vms (empty.0 e), λ e. empty.1 (length_of_nil vms e)),
      (
        λ e. (λ n. (full.0 e).0 (length_of_nil vms n), running_vms-All vms (full.0 e).1),
        λ h. full.1 (λ n. h.0 (nil_of_length vms n), All-running_vms vms h.1),
      ),
      (
        λ e. (λ n. (idle.0 e).0 (length_of_nil vms n), none_of_empty vms (idle.0 e).1),
        λ h. idle.1 (λ n. h.0 (nil_of_length vms n), empty_of_none vms h.1),
      ),
      running_vms-le vms,
    )
