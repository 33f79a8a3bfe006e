-- ===== src/System.antt =====
-- python/ai_how/src/ai_how/system_manager.py: `ClusterOperationExecutor` and `SystemClusterManager`.
-- The managers of the two clusters are an interface here; the steps of an operation are in its order.
pub mod Laws
mod Tests
use ai_hyperscaler_on_workst.Common.{
  ℕ, zero, suc, ◌+◌, ◌*◌, Option, none, some, Bool, true, false, Text, codes, text_eq, ltb, not,
  ◌&&◌, ◌||◌, if◌then◌else◌,
}
use ai_hyperscaler_on_workst.Libvirt.{second}

-- What the system manager reaches. An operation of a cluster manager, its construction included,
-- answers `none` where it raises, and `some false` where it returns `False`. A status is the value
-- under "status".
pub record Clusters : Type 1 where
  pub Host : Type 0
  pub start_hpc : Host → Option Bool × Host
  pub stop_hpc : Host → Option Bool × Host
  pub destroy_hpc : Host → Option Bool × Host
  pub status_hpc : Host → Option Text × Host
  pub start_cloud : Host → Option Bool × Host
  pub stop_cloud : Host → Option Bool × Host
  pub destroy_cloud : Host → Option Bool × Host
  pub status_cloud : Host → Option Text × Host
  -- `time.time()` in microseconds, and `time.sleep` for a number of seconds
  pub time : Host → ℕ × Host
  pub sleep : ℕ → Host → Host
  -- the removal of global-state.json; its errors are swallowed
  pub remove_global_state : Host → Host

-- `execute_operation`: an exception counts as a failure.
abbrev pub succeeded : Option Bool → Bool
succeeded none = false
succeeded (some b) = b

abbrev pub is_running : Option Text → Bool
is_running none = false
is_running (some status) = text_eq status (codes "running")

-- `get_status`: an exception counts as the status "error".
abbrev pub status_text : Option Text → Text
status_text none = codes "error"
status_text (some status) = status

pub data SystemStatus : Type 0 where
  error running stopped mixed : SystemStatus

unfoldable pub determine_system_status : (hpc_state cloud_state : Text) → SystemStatus
determine_system_status hpc_state cloud_state =
    if text_eq hpc_state (codes "error") || text_eq cloud_state (codes "error")
    then error
    else if text_eq hpc_state (codes "running") && text_eq cloud_state (codes "running")
    then running
    else if text_eq hpc_state (codes "stopped") && text_eq cloud_state (codes "stopped")
    then stopped
    else mixed

module _ (cl : Clusters) where
  open cl use {
    Host, start_hpc, stop_hpc, destroy_hpc, status_hpc, start_cloud, stop_cloud, destroy_cloud,
    status_cloud, time, sleep, remove_global_state,
  }

  -- `_wait_for_cluster_ready("hpc", timeout)` with the deadline and the rounds that are left.
  pub wait_ready : (rounds deadline : ℕ) → Host → Bool × Host
  wait_ready zero deadline h = (false, h)
  wait_ready (suc rounds) deadline h =
      let again = wait_ready rounds deadline in
      let (now, h1) = time h in
      let (status, h2) = status_hpc h1 in
      if ltb now deadline
      then (if is_running status then (true, h2) else again (sleep 5 h2))
      else (false, h1)

  unfoldable pub wait_for_cluster_ready : (timeout : ℕ) → Host → Bool × Host
  unfolding wait_ready
  wait_for_cluster_ready timeout h =
      let (start_time, h1) = time h in wait_ready (timeout + 1) (start_time + timeout * second) h1

  -- The two statuses are read, the second one unless the first raises; the answer is only logged.
  unfoldable pub validate_system_health : Host → Host
  validate_system_health h =
      let (hpc_status, h1) = status_hpc h in
      elim hpc_status [ none ↦ h1 | some status ↦ (status_cloud h1).1 ]

  unfoldable pub start_all_clusters : Host → Bool × Host
  start_all_clusters h =
      let (hpc, h1) = start_hpc h in
      if not (succeeded hpc)
      then (false, h1)
      else let h2 = (wait_for_cluster_ready 300 h1).1 in
        let (cloud, h3) = start_cloud h2 in
        if not (succeeded cloud)
        then (false, (stop_hpc h3).1)
        else (true, validate_system_health h3)

  unfoldable pub stop_all_clusters : Host → Bool × Host
  stop_all_clusters h =
      let (cloud, h1) = stop_cloud h in let (hpc, h2) = stop_hpc h1 in (succeeded hpc, h2)

  unfoldable pub destroy_all_clusters : Host → Bool × Host
  unfolding stop_all_clusters
  destroy_all_clusters h =
      let (all_stopped, h1) = stop_all_clusters h in
      let (cloud, h2) = destroy_cloud h1 in
      let (hpc, h3) = destroy_hpc h2 in
      if not (succeeded hpc) then (false, h3) else (true, remove_global_state h3)

  -- The status of the whole system, without the two reports and the shared resources beside it.
  unfoldable pub get_system_status : Host → SystemStatus × Host
  get_system_status h =
      let (hpc, h1) = status_hpc h in
      let (cloud, h2) = status_cloud h1 in
      (determine_system_status (status_text hpc) (status_text cloud), h2)
