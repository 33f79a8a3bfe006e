-- ===== src/System/Tests.antt =====
-- Runs of the system manager on two clusters that are up or down.
use ai_hyperscaler_on_workst.Common.{
  ℕ, ◌+◌, ◌*◌, refl, Option, some, Bool, true, false, Text, codes, arith, if◌then◌else◌,
}
use ai_hyperscaler_on_workst.Libvirt.{second}
use ai_hyperscaler_on_workst.System.{Clusters}
use ai_hyperscaler_on_workst.System.Laws.{Honest, Forward}

record Machine : Type 0 where
  clock : ℕ
  hpc : Bool
  cloud : Bool
  cloud_starts : Bool

abbrev status_of : Bool → Option Text
status_of up = some (if up then codes "running" else codes "stopped")

abbrev toy : Clusters
toy = record {
  Host = Machine;
  start_hpc = λ h. (some true, record h { hpc = true });
  stop_hpc = λ h. (some true, record h { hpc = false });
  destroy_hpc = λ h. (some true, record h { hpc = false });
  status_hpc = λ h. (status_of h.hpc, h);
  start_cloud = λ h. (some h.cloud_starts, record h { cloud = h.cloud_starts });
  stop_cloud = λ h. (some true, record h { cloud = false });
  destroy_cloud = λ h. (some true, record h { cloud = false });
  status_cloud = λ h. (status_of h.cloud, h);
  time = λ h. (h.clock, h);
  sleep = λ n h. record h { clock = h.clock + n * second };
  remove_global_state = λ h. h;
}

abbrev toy-Honest : Honest toy
toy-Honest = record {
  hpc_up = λ h. h.hpc;
  cloud_up = λ h. h.cloud;
  start_hpc_up = λ h up. refl;
  start_cloud_up = λ h up. up;
  start_cloud_keeps = λ h. refl;
  stop_hpc_down = λ h down. refl;
  time_keeps = λ h. refl;
  sleep_keeps = λ n h. refl;
  status_hpc_keeps = λ h. (refl, refl);
  status_cloud_keeps = λ h. (refl, refl);
}

toy-Forward : Forward toy
toy-Forward = record {
  clock = λ h. h.clock;
  reads = λ h. refl;
  time_grows = λ h. omega arith;
  sleep_grows = λ n h. omega arith;
  status_grows = λ h. omega arith;
}

-- Both clusters are down, and the cloud cluster does not start.
abbrev broken_cloud : Machine
broken_cloud = record { clock = 0; hpc = false; cloud = false; cloud_starts = false }
