-- ===== src/State/Codec/RoundTrip.antt =====
-- `from_dict` after `to_dict`.
use ai_hyperscaler_on_workst.Common.{
  ℕ, ◌≡◌, refl, Option, none, some, List, [], ◌∷◌, true, Text, text_eq, All, arith,
}
use ai_hyperscaler_on_workst.Common.Exec.{ok}
use ai_hyperscaler_on_workst.Common.Dict.{Dict}
use ai_hyperscaler_on_workst.Models.{
  VmState, undefined, running, blocked, paused, shutdown, shutoff, crashed, pmsuspended, error,
  VolumeInfo, StoragePoolInfo, NetworkConfig, VmInfo, ClusterState,
}
use ai_hyperscaler_on_workst.State.Json.{list, object, true_value}
use ai_hyperscaler_on_workst.State.Codec.{
  as_optional_text, optional_text, Formats, texts, texts_of, leases, leases_of, state_value,
  state_among, vm_states,
}
use ai_hyperscaler_on_workst.State.Codec.Storage.{
  volume_to_dict, volume_from_dict, volume_values, volumes_of, pool_to_dict, pool_from_dict,
  network_to_dict, network_from_dict,
}
use ai_hyperscaler_on_workst.State.Codec.Vms.{
  vm_to_dict, vm_from_dict, as_gpu, as_timestamp, date_value,
}
use ai_hyperscaler_on_workst.State.Codec.Cluster.{
  is_valid_type, as_vms, as_controller, as_pool, as_network, as_time, optional_vm, optional_pool,
  optional_network, cluster_to_dict, cluster_from_dict, vm_values, vms_of,
}

-- What is documented of `datetime`: an ISO text is not empty and is read back.
pub record ReadsBack (f : Formats) : Type 0 where
  pub parses : (t : ℕ) → f.fromisoformat (f.isoformat t) ≡ some t
  pub head : ℕ → ℕ
  pub tail : ℕ → Text
  pub nonempty : (t : ℕ) → f.isoformat t ≡ head t ∷ tail t

texts-of : (ts : List Text) → texts_of (texts ts) ≡ ok ts
texts-of [] = refl
texts-of (t ∷ ts) = rw (texts-of ts) refl

leases-of : (d : Dict Text) → leases_of (leases d) ≡ ok d
leases-of [] = refl
leases-of ((k, t) ∷ d) = rw (leases-of d) refl

pub network-round_trip : (n : NetworkConfig) → network_from_dict (network_to_dict n) ≡ ok n
unfolding network_from_dict network_to_dict text_eq
network-round_trip n = rw (texts-of n.dns_servers) (rw (leases-of n.static_leases) refl)

optional_text-read : (o : Option Text) → as_optional_text (some (optional_text o)) ≡ ok o
optional_text-read none = refl
optional_text-read (some t) = refl

gpu-read : (o : Option Text) → as_gpu (some (optional_text o)) ≡ ok o
gpu-read none = refl
gpu-read (some t) = refl

state-among : (s : VmState) → state_among vm_states (state_value s) ≡ some s
unfolding state_among state_value text_eq
state-among undefined = refl
state-among running = refl
state-among blocked = refl
state-among paused = refl
state-among shutdown = refl
state-among shutoff = refl
state-among crashed = refl
state-among pmsuspended = refl
state-among error = refl

module _ (f : Formats) where
  -- A VM as `__post_init__` leaves it: it has both times, and its path is in normal form.
  pub record IsComplete (v : VmInfo) : Type 0 where
    pub created : ℕ
    pub modified : ℕ
    pub created_eq : v.created_at ≡ some created
    pub modified_eq : v.last_modified ≡ some modified
    pub normal : f.path_text v.volume_path ≡ v.volume_path

  abbrev pub IsCompleteIfAny : Option VmInfo → Type 0
  IsCompleteIfAny none = Unit
  IsCompleteIfAny (some v) = IsComplete v

  -- A state that `from_dict` accepts, with the times that `__post_init__` sets.
  pub record IsLoadable (s : ClusterState) : Type 0 where
    pub created : ℕ
    pub modified : ℕ
    pub created_eq : s.created_at ≡ some created
    pub modified_eq : s.last_modified ≡ some modified
    pub valid_type : is_valid_type s.cluster_type ≡ true
    pub controller : IsCompleteIfAny s.controller
    pub compute_nodes : All IsComplete s.compute_nodes
    pub worker_nodes : All IsComplete s.worker_nodes

module _ (f : Formats) (h : ReadsBack f) where
  pub volume-round_trip : (v : VolumeInfo) → volume_from_dict f (object (volume_to_dict f v)) ≡ ok v
  unfolding volume_from_dict volume_to_dict text_eq
  volume-round_trip v = rw (h.parses v.created_at) (rw (optional_text-read v.backing_file) refl)

  volumes-round_trip : (vs : List VolumeInfo) → volumes_of f (volume_values f vs) ≡ ok vs
  volumes-round_trip [] = refl
  volumes-round_trip (v ∷ vs) = rw (volume-round_trip v) (rw (volumes-round_trip vs) refl)

  pub pool-round_trip :
      (now : ℕ) (p : StoragePoolInfo) → pool_from_dict f now (pool_to_dict f p) ≡ ok p
  unfolding pool_from_dict pool_to_dict text_eq
  pool-round_trip now p =
      rw (volumes-round_trip p.volumes)
        (rw (h.parses p.created_at) (rw (optional_text-read p.uuid) refl))

  timestamp-read : (now t : ℕ) → as_timestamp f now (some (date_value f (some t))) ≡ ok (some t)
  timestamp-read now t = ground (arith, h.parses t, h.nonempty t)

  pub vm-round_trip :
      (now : ℕ) (v : VmInfo) → IsComplete f v → vm_from_dict f now (object (vm_to_dict f v)) ≡ ok v
  unfolding vm_from_dict vm_to_dict text_eq
  vm-round_trip now v c = rw c.created_eq (
      rw c.modified_eq (
        rw c.normal (
          rw (timestamp-read now c.created) (
            rw (timestamp-read now c.modified) (
              rw (state-among v.state)
                (rw (optional_text-read v.ip_address) (rw (gpu-read v.gpu_assigned) refl)))))))

  vms-round_trip :
      (now : ℕ) (vs : List VmInfo) → All (IsComplete f) vs → vms_of f now (vm_values f vs) ≡ ok vs
  vms-round_trip now [] c = refl
  vms-round_trip now (v ∷ vs) c = rw (vm-round_trip now v c.0) (rw (vms-round_trip now vs c.1) refl)

  nodes-read :
      (now : ℕ) (vs : List VmInfo)
      → All (IsComplete f) vs
      → as_vms f now (true_value (list (vm_values f vs))) ≡ ok vs
  unfolding true_value
  nodes-read now [] c = refl
  nodes-read now (v ∷ vs) c = vms-round_trip now (v ∷ vs) c

  controller-read :
      (now : ℕ) (o : Option VmInfo)
      → IsCompleteIfAny f o
      → as_controller f now (true_value (optional_vm f o)) ≡ ok o
  unfolding true_value vm_to_dict
  controller-read now none c = refl
  controller-read now (some v) c = rw (vm-round_trip now v c) refl

  pool-read :
      (now : ℕ) (o : Option StoragePoolInfo) → as_pool f now (true_value (optional_pool f o)) ≡ ok o
  unfolding true_value pool_to_dict
  pool-read now none = refl
  pool-read now (some p) = rw (pool-round_trip now p) refl

  network-read : (o : Option NetworkConfig) → as_network (true_value (optional_network o)) ≡ ok o
  unfolding true_value network_to_dict
  network-read none = refl
  network-read (some n) = rw (network-round_trip n) refl

  time-read :
      (now t : ℕ) (o : Option ℕ) → o ≡ some t → as_time f now (true_value (date_value f o)) ≡ ok o
  unfolding true_value
  time-read now t o e = rw e (ground (arith, h.parses t, h.nonempty t))

  -- A state whose VMs have their times and normal paths, whose cluster is an HPC or a cloud cluster, and
  -- which has its own times, is read back from its document, whatever the time.
  pub from_dict-to_dict :
      (now : ℕ) (s : ClusterState)
      → IsLoadable f s
      → cluster_from_dict f now (cluster_to_dict f s) ≡ ok s
  unfolding cluster_from_dict cluster_to_dict text_eq
  from_dict-to_dict now s c = rw c.valid_type (
      rw (controller-read now s.controller c.controller) (
        rw (nodes-read now s.compute_nodes c.compute_nodes) (
          rw (nodes-read now s.worker_nodes c.worker_nodes) (
            rw (network-read s.network_config) (
              rw (pool-read now s.storage_pool) (
                rw (time-read now c.created s.created_at c.created_eq) (
                  rw (time-read now c.modified s.last_modified c.modified_eq)
                    (rw (optional_text-read s.config_file_path) refl))))))))
