-- ===== src/System/Laws.antt =====
-- The start of the system, its wait loop, and its status.
use native.Mathlib.Numerals.{add-one}
use ai_hyperscaler_on_workst.Common.{
  ℕ, zero, suc, ◌+◌, ◌*◌, ◌≤◌, ◌<◌, ◌≡◌, ◌≢◌, ◌⊎◌, ◌↔◌, inl, inr, refl, Option, none, some, Bool,
  true, false, Text, codes, text_eq, text_eq_iff, arith, Bool-cases,
}
use ai_hyperscaler_on_workst.Libvirt.{second}
use ai_hyperscaler_on_workst.System.{
  Clusters, succeeded, is_running, status_text, error, running, determine_system_status, wait_ready,
  wait_for_cluster_ready, get_system_status,
}

-- What the system manager relies on: a cluster is up after a start that succeeds, and the HPC cluster is down after a
-- stop that succeeds (one that raises or returns `False` may leave anything); the start of the cloud
-- cluster, and what only reads, leave the other cluster as it is.
pub record Honest (cl : Clusters) : Type 0 where
  pub hpc_up : cl.Host → Bool
  pub cloud_up : cl.Host → Bool
  pub start_hpc_up :
      (h : cl.Host) → succeeded (cl.start_hpc h).0 ≡ true → hpc_up (cl.start_hpc h).1 ≡ true
  pub start_cloud_up :
      (h : cl.Host) → succeeded (cl.start_cloud h).0 ≡ true → cloud_up (cl.start_cloud h).1 ≡ true
  pub start_cloud_keeps : (h : cl.Host) → hpc_up (cl.start_cloud h).1 ≡ hpc_up h
  pub stop_hpc_down :
      (h : cl.Host) → succeeded (cl.stop_hpc h).0 ≡ true → hpc_up (cl.stop_hpc h).1 ≡ false
  pub time_keeps : (h : cl.Host) → hpc_up (cl.time h).1 ≡ hpc_up h
  pub sleep_keeps : (n : ℕ) (h : cl.Host) → hpc_up (cl.sleep n h) ≡ hpc_up h
  pub status_hpc_keeps :
      (h : cl.Host)
      → (hpc_up (cl.status_hpc h).1 ≡ hpc_up h) × (cloud_up (cl.status_hpc h).1 ≡ cloud_up h)
  pub status_cloud_keeps :
      (h : cl.Host)
      → (hpc_up (cl.status_cloud h).1 ≡ hpc_up h) × (cloud_up (cl.status_cloud h).1 ≡ cloud_up h)

module _ (cl : Clusters) (honest : Honest cl) where
  open honest use {hpc_up, cloud_up}

  -- The state when the start of the cloud cluster has ended.
  abbrev pub after_cloud : cl.Host → cl.Host
  after_cloud h = (cl.start_cloud (wait_for_cluster_ready cl 300 (cl.start_hpc h).1).1).1

-- The clock never goes back, a reading is the clock's value, and `sleep` takes its time.
pub record Forward (cl : Clusters) : Type 0 where
  pub clock : cl.Host → ℕ
  pub reads : (h : cl.Host) → (cl.time h).0 ≡ clock (cl.time h).1
  pub time_grows : (h : cl.Host) → clock h ≤ clock (cl.time h).1
  pub sleep_grows : (n : ℕ) (h : cl.Host) → clock h + n * second ≤ clock (cl.sleep n h)
  pub status_grows : (h : cl.Host) → clock h ≤ clock (cl.status_hpc h).1

module _ (cl : Clusters) (fw : Forward cl) where
  open fw use {clock}

  wait_ready-stable :
      (rounds more deadline : ℕ) (h : cl.Host)
      → deadline ≤ clock h + rounds * (5 * second)
      → rounds ≤ more
      → wait_ready cl (suc rounds) deadline h ≡ wait_ready cl (suc more) deadline h
  unfolding wait_ready
  wait_ready-stable zero more deadline h enough le = ground (arith, fw.reads h, fw.time_grows h)
  wait_ready-stable (suc rounds) zero deadline h enough le = absurd (omega arith)
  wait_ready-stable (suc rounds) (suc more) deadline h enough le =
      let h2 = (cl.status_hpc (cl.time h).1).1 in
      ground (
        arith,
        fw.time_grows h,
        fw.status_grows (cl.time h).1,
        fw.sleep_grows 5 h2,
        wait_ready-stable rounds more deadline (cl.sleep 5 h2),
      )

  -- Where the clock does not go back and `sleep` takes its time, the wait for the HPC cluster ends by
  -- its own test within `timeout + 1` rounds: more rounds give the same answer and the same state.
  pub wait_for_cluster_ready_ends :
      (timeout rounds : ℕ) (h : cl.Host)
      → timeout < rounds
      → wait_for_cluster_ready cl timeout h
        ≡ wait_ready cl rounds ((cl.time h).0 + timeout * second) (cl.time h).1
  unfolding wait_for_cluster_ready
  wait_for_cluster_ready_ends timeout zero h lt = absurd (omega arith)
  wait_for_cluster_ready_ends timeout (suc rounds) h lt = rw add-one (
      wait_ready-stable timeout rounds ((cl.time h).0 + timeout * second) (cl.time h).1
        (omega (arith, fw.reads h)) (omega arith))

is_running-status_text :
    (o : Option Text) → is_running o ≡ text_eq (status_text o) (codes "running")
unfolding text_eq
is_running-status_text none = refl
is_running-status_text (some status) = refl

distinct : ◌≢◌ {A = Text} (codes "error") (codes "running")
distinct = λ e. ground arith

determine-running :
    (a b : Text)
    → (determine_system_status a b ≡ running)
      ↔ ((text_eq a (codes "running") ≡ true) × (text_eq b (codes "running") ≡ true))
unfolding determine_system_status
determine-running a b = (
  λ e. (ground arith, ground arith),
  λ e. ground (
    arith,
    distinct,
    text_eq_iff a (codes "error"),
    text_eq_iff b (codes "error"),
    text_eq_iff a (codes "running"),
    text_eq_iff b (codes "running"),
  ),
)

determine-error :
    (a b : Text)
    → (determine_system_status a b ≡ error) ↔ ((a ≡ codes "error") ⊎ (b ≡ codes "error"))
unfolding determine_system_status
determine-error a b = (
  λ e. elim (Bool-cases (text_eq a (codes "error"))) [
    | inl same ↦ inl ((text_eq_iff a (codes "error")).0 same)
    | inr other ↦ inr ((text_eq_iff b (codes "error")).0 (ground arith))
  ],
  λ e. elim e [
    | inl same ↦ ground (arith, text_eq_iff a (codes "error"))
    | inr same ↦ ground (arith, text_eq_iff b (codes "error"))
  ],
)

-- The system is "running" exactly where both clusters report "running", and it is in "error" exactly
-- where a cluster reports "error" or its status cannot be read.
pub get_system_status-exact :
    (cl : Clusters) (h : cl.Host)
    → ((get_system_status cl h).0 ≡ running
        ↔ (is_running (cl.status_hpc h).0 ≡ true)
          × (is_running (cl.status_cloud (cl.status_hpc h).1).0 ≡ true))
      × ((get_system_status cl h).0 ≡ error
          ↔ (status_text (cl.status_hpc h).0 ≡ codes "error")
            ⊎ (status_text (cl.status_cloud (cl.status_hpc h).1).0 ≡ codes "error"))
unfolding get_system_status
get_system_status-exact cl h =
    let hpc = (cl.status_hpc h).0 in
    let cloud = (cl.status_cloud (cl.status_hpc h).1).0 in
    (
      rw (is_running-status_text hpc) (
          rw (is_running-status_text cloud)
            (determine-running (status_text hpc) (status_text cloud))),
      determine-error (status_text hpc) (status_text cloud),
    )
