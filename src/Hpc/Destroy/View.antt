-- ===== src/Hpc/Destroy/View.antt =====
-- What `destroy_cluster` relies on: what is there of a cluster and what its managers remove of it.
use ai_hyperscaler_on_workst.Common.{◌⊎◌, ◌≡◌, refl, ◌∙◌, Option, none, Bool, true, false, Text}
use ai_hyperscaler_on_workst.Common.Ensures.{Ensures}
use ai_hyperscaler_on_workst.Problem.{
  lifecycle_error, connection_error, volume_error, network_error,
}
use ai_hyperscaler_on_workst.Models.{ClusterState}
use ai_hyperscaler_on_workst.Hpc.{Managers}

-- A set of names, such as those of the defined VMs.
abbrev pub Names : Type 0
Names = Text → Bool

-- What is there of a cluster: its VMs, its pool, its network and its state file.
pub record Resources : Type 0 where
  pub vms : Names
  pub volumes : Names
  pub pool : Bool
  pub network : Bool
  pub saved : Option ClusterState

-- At most the resources of another view are there.
pub record Fewer (now before : Resources) : Type 0 where
  pub vms_fewer : (name : Text) → before.vms name ≡ false → now.vms name ≡ false
  pub pool_fewer : before.pool ≡ false → now.pool ≡ false
  pub network_fewer : before.network ≡ false → now.network ≡ false
  pub saved_same : now.saved ≡ before.saved

pub Fewer-refl : (r : Resources) → Fewer r r
Fewer-refl r = record {
  vms_fewer = λ name h. h;
  pool_fewer = λ h. h;
  network_fewer = λ h. h;
  saved_same = refl;
}

pub Fewer-trans : {r s t : Resources} → Fewer r s → Fewer s t → Fewer r t
Fewer-trans f g = record {
  vms_fewer = λ name h. f.vms_fewer name (g.vms_fewer name h);
  pool_fewer = λ h. f.pool_fewer (g.pool_fewer h);
  network_fewer = λ h. f.network_fewer (g.network_fewer h);
  saved_same = f.saved_same ∙ g.saved_same;
}

-- A method that returns has done its work; one that raises, raises its own class and adds nothing.
-- `may_fail` says whether any of them may raise. `vm_exists` answers `False` also where a lookup fails
-- for another reason than that the VM is absent, and where there is no connection, `loses_connection`,
-- it raises `LibvirtConnectionError`.
pub record Tearing {Host : Type 0} (m : Managers Host) (cluster_name : Text) : Type 0 where
  pub view : Host → Resources
  pub may_fail : Bool
  pub loses_connection : Bool
  pub exists_lem :
      (name : Text) (h : Host)
      → Ensures
          (λ b h'. ((may_fail ≡ true) ⊎ (b ≡ (view h).vms name)) × (view h' ≡ view h))
          (λ e h'. (loses_connection ≡ true) × (e ≡ connection_error) × (view h' ≡ view h))
          (m.vm_exists name)
          h
  pub destroy_vm_lem :
      (name : Text) (h : Host)
      → Ensures
          (λ b h'. ((view h').vms name ≡ false) × Fewer (view h') (view h))
          (λ e h'. (may_fail ≡ true) × (e ≡ lifecycle_error) × Fewer (view h') (view h))
          (m.destroy_vm name)
          h
  pub destroy_volume_lem :
      (name : Text) (h : Host)
      → Ensures
          (λ b h'. Fewer (view h') (view h))
          (λ e h'. (may_fail ≡ true) × (e ≡ volume_error) × Fewer (view h') (view h))
          (m.destroy_vm_volume cluster_name name)
          h
  pub destroy_pool_lem :
      (h : Host)
      → Ensures
          (λ b h'. ((view h').pool ≡ false) × Fewer (view h') (view h))
          (λ e h'. (may_fail ≡ true) × (e ≡ volume_error) × Fewer (view h') (view h))
          (m.destroy_cluster_pool cluster_name)
          h
  pub destroy_network_lem :
      (h : Host)
      → Ensures
          (λ b h'. ((view h').network ≡ false) × Fewer (view h') (view h))
          (λ e h'. (may_fail ≡ true) × (e ≡ network_error) × Fewer (view h') (view h))
          (m.destroy_cluster_network cluster_name)
          h
  pub get_state_lem :
      (h : Host)
      → Ensures (λ s h'. (s ≡ (view h).saved) × (view h' ≡ view h)) (λ e h'. ⊥) m.get_state h
  pub clear_state_lem :
      (h : Host)
      → Ensures (λ done h'. view h' ≡ record (view h) { saved = none }) (λ e h'. ⊥) m.clear_state h
