-- ===== src/Lifecycle/Gpu/Tests.antt =====
-- Runs of the lifecycle manager with GPUs.
use ai_hyperscaler_on_workst.Common.{
  ℕ, ◌≡◌, ◌≢◌, refl, none, some, List, [], ◌∷◌, Bool, true, false, Text, codes, text_eq, arith,
}
use ai_hyperscaler_on_workst.Common.Exec.{ok, err}
use ai_hyperscaler_on_workst.Libvirt.{lifecycle_error}
use ai_hyperscaler_on_workst.Libvirt.Toy.{toy, client_at}
use ai_hyperscaler_on_workst.Models.{VmInfo, shutoff, ClusterState}
use ai_hyperscaler_on_workst.Models.Vms.{running_state}
use ai_hyperscaler_on_workst.Gpu.Address.{running_parser}
use ai_hyperscaler_on_workst.Gpu.Allocator.{written, running_allocator, holds, unreadable, stamped}
use ai_hyperscaler_on_workst.Gpu.Allocator.Laws.{owner_of}
use ai_hyperscaler_on_workst.Lifecycle.{running_lifecycle, start_vm}
use ai_hyperscaler_on_workst.Lifecycle.Gpu.{
  Manager, World, get_vm_info, assigned_address, managed_gpu, release_if, claim_gpu, clean_up,
  start_vm_with_gpu_allocation, stop_vm_with_gpu_release,
}
use ai_hyperscaler_on_workst.Lifecycle.Gpu.Laws.{
  start-owns, start_never_steals, start_failed_keeps_gpu, stop-releases,
}

abbrev gpu : Text
gpu = codes "0000:01:00.0"

abbrev vm : VmInfo
vm = record {
  name = codes "a";
  domain_uuid = codes "u";
  state = shutoff;
  cpu_cores = 4;
  memory_gb = 8;
  volume_path = codes "/v";
  vm_type = codes "compute";
  ip_address = none;
  gpu_assigned = some (codes "0000:01:00.0 (RTX)");
  created_at = none;
  last_modified = none;
}

abbrev cluster : ClusterState
cluster = record {
  cluster_name = codes "c";
  cluster_type = codes "hpc";
  controller = none;
  compute_nodes = vm ∷ [];
  worker_nodes = [];
  network_config = none;
  storage_pool = none;
  config_file_path = none;
  state_file_version = codes "2.0";
  created_at = none;
  last_modified = none;
}

abbrev manager : Manager
manager = record {
  cluster = ok (some cluster);
  has_allocator = true;
  now = codes "t";
  allocating = written;
  releasing = written;
  cleaning = written;
}

-- A world in which the domain has the given state and the GPU the given owners.
abbrev world : (state : ℕ) (can_create : Bool) (owners : List (Text × Text)) → World toy
world state can_create owners = record {
  client = client_at state can_create;
  gpus = holds (stamped (codes "t") owners);
}

abbrev free_and_off : World toy
free_and_off = world 5 true []

abbrev broken_host : World toy
broken_host = world 5 false []

abbrev taken : World toy
taken = world 5 true ((gpu, codes "b") ∷ [])

program : Unit {0}
unfolding managed_gpu assigned_address get_vm_info start_vm_with_gpu_allocation claim_gpu clean_up
    stop_vm_with_gpu_release release_if running_parser running_allocator running_state
    running_lifecycle
program = tt

manages_gpu : managed_gpu manager (some cluster) (codes "a") ≡ some gpu
unfolding program
manages_gpu = refl

other_name : ◌≢◌ {A = Text} (codes "b") (codes "a")
other_name = λ e. ground arith

start_ok : (start_vm_with_gpu_allocation toy manager (codes "a") true free_and_off).0 ≡ ok true
unfolding program
start_ok = refl

start_fails : (start_vm toy (codes "a") true 60 broken_host.client).0 ≡ err lifecycle_error
unfolding program
start_fails = refl

taken_by_b : owner_of taken.gpus gpu ≡ some (codes "b")
unfolding program
taken_by_b = refl

readable : (w : World toy) → w.gpus ≡ holds (stamped (codes "t") []) → w.gpus ≢ unreadable
readable w e = λ u. ground arith

start-owns_example :
    owner_of (start_vm_with_gpu_allocation toy manager (codes "a") true free_and_off).1.gpus gpu
    ≡ some (codes "a")
start-owns_example =
    start-owns toy manager (codes "a") free_and_off (some cluster) refl gpu true true manages_gpu
      start_ok

start_never_steals_example :
    owner_of (start_vm_with_gpu_allocation toy manager (codes "a") true taken).1.gpus gpu
    ≡ some (codes "b")
start_never_steals_example =
    start_never_steals toy manager (codes "a") taken (some cluster) refl true gpu (codes "b") refl
      refl (λ same. absurd (other_name same)) taken_by_b

nobody_owns : owner_of broken_host.gpus gpu ≡ none
unfolding program
nobody_owns = refl

start_failed_keeps_gpu_example :
    ((start_vm_with_gpu_allocation toy manager (codes "a") true broken_host).0
      ≡ err lifecycle_error)
    × (owner_of (start_vm_with_gpu_allocation toy manager (codes "a") true broken_host).1.gpus gpu
        ≡ some (codes "a"))
start_failed_keeps_gpu_example =
    start_failed_keeps_gpu toy manager (codes "a") broken_host (some cluster) refl gpu true
      lifecycle_error manages_gpu (readable broken_host refl) nobody_owns refl start_fails

stop_ok : (stop_vm_with_gpu_release toy manager (codes "a") false taken).0 ≡ ok true
unfolding program
stop_ok = refl

stop-releases_example :
    owner_of (stop_vm_with_gpu_release toy manager (codes "a") false taken).1.gpus (codes "other")
    ≡ owner_of taken.gpus (codes "other")
unfolding text_eq
stop-releases_example =
    stop-releases toy manager (codes "a") taken (some cluster) refl gpu (codes "other") false
      manages_gpu stop_ok
