-- ===== src/Hpc/Tests.antt =====
-- Runs of the HPC cluster manager on hosts that are their resources.
use ai_hyperscaler_on_workst.Common.{inr, ◌≡◌, refl, none, some, [], true, false, codes, text_eq}
use ai_hyperscaler_on_workst.Common.Exec.{ok, err}
use ai_hyperscaler_on_workst.Common.Ensures.{Ensures}
use ai_hyperscaler_on_workst.Problem.{volume_error, hpc_error}
use ai_hyperscaler_on_workst.Config.{NodeConfig, NetworkSettings, ClusterConfig}
use ai_hyperscaler_on_workst.Models.{running, VmInfo, ClusterState, new_cluster_state}
use ai_hyperscaler_on_workst.Models.Vms.{get_all_vms}
use ai_hyperscaler_on_workst.Network.Validate.{
  is_bridge_char, rest_matches, validate_network_config,
}
use ai_hyperscaler_on_workst.Network.{Ip}
use ai_hyperscaler_on_workst.Hpc.{Managers}
use ai_hyperscaler_on_workst.Hpc.Check.{Checks, validate_cluster_config, check_prerequisites}
use ai_hyperscaler_on_workst.Hpc.Start.{Starters, undo_of, start_cluster}
use ai_hyperscaler_on_workst.Hpc.Start.Failure.{EndsIn, Reached, start_cluster-EndsIn}
use ai_hyperscaler_on_workst.Hpc.Leases.{prepare_static_dhcp_leases}
use ai_hyperscaler_on_workst.Hpc.Leases.Laws.{IsPaired, prepare_static_dhcp_leases-IsPaired}
use ai_hyperscaler_on_workst.Hpc.Destroy.{destroy_cluster_vm, destroy_cluster}
use ai_hyperscaler_on_workst.Hpc.Destroy.View.{Resources, Fewer, Tearing}

-- The pool cannot be destroyed.
abbrev toy : Managers Resources
toy = record {
  vm_exists = λ name r. (ok (r.vms name), r);
  get_vm_state = λ name r. (ok running, r);
  stop_vm = λ name r. (ok true, r);
  destroy_vm = λ name r. (ok true, record r { vms = λ other. false });
  list_vms = λ r. (ok [], r);
  destroy_vm_volume = λ cluster_name vm_name r. (ok true, r);
  destroy_cluster_pool = λ cluster_name r. (err volume_error, r);
  destroy_cluster_network = λ cluster_name r. (ok true, record r { network = false });
  get_state = λ r. (ok r.saved, r);
  save_state = λ s r. (ok tt, record r { saved = some s });
  clear_state = λ r. (ok tt, record r { saved = none });
  now = λ r. (ok 0, r);
}

same : (r : Resources) → Fewer r r
same r = record {
  vms_fewer = λ name h. h;
  pool_fewer = λ h. h;
  network_fewer = λ h. h;
  saved_same = refl;
}

abbrev tearing : Tearing toy (codes "c")
tearing = record {
  view = λ r. r;
  may_fail = true;
  loses_connection = false;
  exists_lem = λ name r. record { at = (inr refl, refl) };
  destroy_vm_lem = λ name r. record {
    at = (
      refl,
      record {
        vms_fewer = λ other h. refl;
        pool_fewer = λ h. h;
        network_fewer = λ h. h;
        saved_same = refl;
      },
    );
  };
  destroy_volume_lem = λ name r. record { at = same r };
  destroy_pool_lem = λ r. record { at = (refl, refl, same r) };
  destroy_network_lem = λ r. record {
    at = (
      refl,
      record {
        vms_fewer = λ other h. h;
        pool_fewer = λ h. h;
        network_fewer = λ h. refl;
        saved_same = refl;
      },
    );
  };
  get_state_lem = λ r. record { at = (refl, refl) };
  clear_state_lem = λ r. record { at = refl };
}

abbrev controller : VmInfo
controller = record {
  name = codes "c-controller";
  domain_uuid = [];
  state = running;
  cpu_cores = 4;
  memory_gb = 8;
  volume_path = [];
  vm_type = codes "controller";
  ip_address = none;
  gpu_assigned = none;
  created_at = none;
  last_modified = none;
}

abbrev state : ClusterState
state = record (new_cluster_state 0 (codes "c") (codes "hpc")) { controller = some controller }

abbrev host : Resources
host = record {
  vms = λ name. true;
  volumes = λ name. true;
  pool = true;
  network = true;
  saved = some state;
}

-- The pool is left, and the cluster is reported as destroyed.
pool_left : (destroy_cluster toy (codes "c") host).1.pool ≡ true
unfolding destroy_cluster get_all_vms new_cluster_state destroy_cluster_vm
pool_left = refl

abbrev node : NodeConfig
node = record {
  cpu_cores = none;
  memory_gb = none;
  disk_gb = none;
  ip_address = some (codes "10.0.0.2");
  ip = none;
  auto_start = none;
  pcie_passthrough = none;
}

abbrev config : ClusterConfig
config = record {
  name = none;
  base_image_path = none;
  network = none;
  controller = some node;
  control_plane = none;
  compute_nodes = none;
  worker_nodes = none;
}

prepare_static_dhcp_leases-IsPaired_example :
    IsPaired
      (λ n. codes "1")
      (λ name. name)
      (prepare_static_dhcp_leases (λ n. codes "1") (λ name. name) (codes "c") config)
prepare_static_dhcp_leases-IsPaired_example =
    prepare_static_dhcp_leases-IsPaired (λ n. codes "1") (λ name. name) (codes "c") config

abbrev network : NetworkSettings
network = record {
  subnet = some (codes "10.0.0.0/24");
  network_range = none;
  bridge = some (codes "br0");
  bridge_name = none;
  gateway_ip = none;
  dhcp_start = none;
  dhcp_end = none;
  dns_servers = none;
  dns_mode = none;
  address = none;
}

abbrev sized : NodeConfig
sized = record node { cpu_cores = some 4; memory_gb = some 8; disk_gb = some 100 }

abbrev whole : ClusterConfig
whole = record config {
  name = some (codes "c");
  base_image_path = some (codes "/i");
  network = some network;
  controller = some sized;
  compute_nodes = some [];
}

abbrev toy_ip : Ip
toy_ip = record {
  parse_network = λ t. some (record { network_address = 10; num_addresses = 256 });
  parse_address = λ t. none;
  show_address = λ a. [];
  netmask = λ n. [];
  hosts = λ n. [];
  interface_network = λ a n. none;
}

abbrev checks : Checks Resources
checks = record {
  resolve_image = λ path r. (ok path, r);
  image_format = λ path r. (ok (some (codes "qcow2")), r);
  connect = λ r. (ok tt, r);
  free_bytes = λ r. (ok (some 0), r);
}

-- The pool cannot be created.
abbrev starters : Starters Resources
starters = record {
  create_cluster_network = λ name settings leases r. (ok name, r);
  start_network = λ name r. (ok true, r);
  create_cluster_pool = λ name image r. (err volume_error, r);
  create_vm_volume = λ name vm size r. (ok [], r);
  allocate_ip_address = λ name vm r. (ok [], r);
  release_ip_address = λ name vm r. (ok true, r);
  render = λ template vm settings path address r. (ok [], r);
  create_vm = λ vm xml r. (ok [], r);
  start_vm = λ vm r. (ok true, r);
  ensure_state = λ name type r. (ok state, r);
  gpu_info = λ pcie. none;
  show = λ n. codes "1";
  mac_of = λ name. name;
}

validated : validate_cluster_config checks toy_ip whole host ≡ (ok tt, host)
unfolding validate_cluster_config text_eq validate_network_config is_bridge_char rest_matches
validated = refl

-- No byte is free, and the check passes.
checked : check_prerequisites checks toy_ip sized [] host ≡ (ok tt, host)
unfolding check_prerequisites
checked = refl

abbrev reached : Reached starters checks toy_ip (codes "c") whole host
reached = record {
  base_image = codes "/i";
  network = network;
  controller = sized;
  name = codes "c";
  validated = host;
  checked = host;
  created = host;
  has_image = refl;
  has_network = refl;
  has_controller = refl;
  validates = validated;
  checks = checked;
  creates = refl;
}

start_cluster-EndsIn_example :
    Ensures
      (λ b r. Unit {0})
      (λ e r. (e ≡ hpc_error) × EndsIn (undo_of (toy.destroy_cluster_network (codes "c"))) r)
      (start_cluster toy starters checks toy_ip (codes "c") whole)
      (record { rollback_stack = []; host = host })
start_cluster-EndsIn_example =
    start_cluster-EndsIn toy starters checks toy_ip (codes "c") whole host reached
