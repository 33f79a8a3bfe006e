-- ===== src/Network/Toy.antt =====
-- A host whose networks and files are functions, for runs.
use ai_hyperscaler_on_workst.Common.{
  ℕ, zero, suc, ◌+◌, ◌≡◌, ◌⊎◌, inl, inr, refl, Option, none, some, List, [], ◌∷◌, ◌++◌, Bool, true,
  false, Text, codes, Bool-cases, if◌then◌else◌, is_some,
}
use ai_hyperscaler_on_workst.Common.Exec.{ok, err}
use ai_hyperscaler_on_workst.Common.Ensures.{Ensures}
use ai_hyperscaler_on_workst.Problem.{libvirt_error}
use ai_hyperscaler_on_workst.Network.{Ip, IpNetwork}
use ai_hyperscaler_on_workst.Network.Outside.{Outside, Description, Lease}
use ai_hyperscaler_on_workst.Network.Dns.Rollback.{Files, set_file, HasFiles}
use ai_hyperscaler_on_workst.Network.Lifecycle.View.{
  absent, inactive, active, View, is_present, is_running, defined, set_status, Networks,
}

-- Addresses are written as one character; a network is written as its first address and its size.
abbrev toy_hosts : ℕ → ℕ → List ℕ
toy_hosts a zero = []
toy_hosts a (suc n) = (a + 1) ∷ toy_hosts (a + 1) n

abbrev toy_network : Text → Option IpNetwork
toy_network (a ∷ n ∷ []) = some (record { network_address = a; num_addresses = n })
toy_network _ = none

abbrev toy_address : Text → Option ℕ
toy_address (a ∷ []) = some a
toy_address _ = none

abbrev pub toy_ip : Ip
toy_ip = record {
  parse_network = toy_network;
  parse_address = toy_address;
  show_address = λ a. a ∷ [];
  netmask = λ n. n.num_addresses ∷ [];
  hosts = λ n. toy_hosts n.network_address 2;
  interface_network = λ address mask. some (address ++ mask);
}

abbrev pub ToyHost : Type 0
ToyHost = View × Files

abbrev pub toy_description : Description
toy_description = record {
  bridge = none;
  ip = some (record { address = 101 ∷ []; netmask = 16 ∷ []; range = none });
  forwarders = [];
  uuid = [];
}

abbrev pub toy_lease : Lease
toy_lease = record {
  ip = some (102 ∷ []);
  mac = none;
  hostname = some (codes "a");
  client_id = none;
  expiry_time = none;
}

-- `root` says whether the program runs as root, and `restarts` whether dnsmasq can be restarted.
abbrev pub toy : (root restarts : Bool) → Outside ToyHost
toy root restarts = record {
  connect = λ h. (ok tt, h);
  lookup = λ name h. if is_present (h.0 name) then (ok tt, h) else (err libvirt_error, h);
  is_active = λ name h. (ok (is_running (h.0 name)), h);
  define = λ name plan h. (ok tt, (set_status name (defined (h.0 name)) h.0, h.1));
  create = λ name h. (ok tt, (set_status name active h.0, h.1));
  set_autostart = λ name h. (ok tt, h);
  destroy = λ name h. (ok tt, (set_status name inactive h.0, h.1));
  undefine = λ name h. (ok tt, (set_status name absent h.0, h.1));
  describe = λ name h. (ok toy_description, h);
  dhcp_leases = λ name h. (ok (some (toy_lease ∷ [])), h);
  is_root = λ h. root;
  exists = λ path h. is_some (h.1 path);
  write = λ path content h. (ok tt, (h.0, set_file path (some content) h.1));
  copy = λ source target h. (ok tt, (h.0, set_file target (h.1 source) h.1));
  remove = λ path h. (ok tt, (h.0, set_file path none h.1));
  restart = λ command h. (ok restarts, h);
}

pub lookup-toy :
    (root restarts : Bool) (name : Text) (h : ToyHost)
    → Ensures
        (λ done h'. (is_present (h.0 name) ≡ true) × (h'.0 ≡ h.0))
        (λ e h'.
          (e ≡ libvirt_error)
          × ((◌≡◌ {A = Bool} false true) ⊎ (is_present (h.0 name) ≡ false))
          × (h'.0 ≡ h.0))
        ((toy root restarts).lookup name)
        h
lookup-toy root restarts name h = elim (Bool-cases (is_present (h.0 name))) [
  | inl present ↦ record { at = rw present (refl, refl) }
  | inr missing ↦ record { at = rw missing (refl, inr refl, refl) }
]

abbrev pub toy_networks : (root restarts : Bool) → Networks (toy root restarts)
toy_networks root restarts = record {
  view = λ h. h.0;
  lookup_may_fail = false;
  connect_lem = λ h. record { at = refl };
  lookup_lem = lookup-toy root restarts;
  is_active_lem = λ name h. record { at = (refl, refl) };
  define_lem = λ name plan h. record { at = refl };
  create_lem = λ name h. record { at = refl };
  destroy_lem = λ name h. record { at = refl };
  undefine_lem = λ name h stopped. record { at = refl };
  autostart_lem = λ name h. record { at = refl };
  write_lem = λ path content h. record { at = refl };
  copy_lem = λ source target h. record { at = refl };
  remove_lem = λ path h. record { at = refl };
  restart_lem = λ command h. record { at = refl };
}

abbrev pub toy_files : (root restarts : Bool) → HasFiles (toy root restarts)
toy_files root restarts = record {
  files = λ h. h.1;
  may_fail = false;
  exists_lem = λ path h. refl;
  copy_lem = λ source target h. record { at = refl };
  remove_lem = λ path h. record { at = refl };
  write_lem = λ path content h. record { at = refl };
  restart_lem = λ command h. record { at = refl };
}

-- No network and no file but an old backup.
abbrev pub bare : ToyHost
bare = (λ name. absent, λ path. none)

-- The network of the cluster "c" runs.
abbrev pub with_network : ToyHost
with_network = (λ name. active, λ path. none)
