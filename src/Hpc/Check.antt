-- ===== src/Hpc/Check.antt =====
-- The checks before the start: `_validate_cluster_config` and `_check_prerequisites`.
use ai_hyperscaler_on_workst.Common.{
  ℕ, ◌+◌, ◌*◌, ◌^◌, Option, none, some, List, [], ◌∷◌, Bool, true, Text, codes, text_eq, ltb,
  is_some, ◌&&◌, if◌then◌else◌,
}
use ai_hyperscaler_on_workst.Common.Exec.{ok, err, pure, raise, try_except, ◌>>=◌, ◌>>◌}
use ai_hyperscaler_on_workst.Problem.{Problem, connection_error, hpc_error, Act, all_to}
use ai_hyperscaler_on_workst.Config.{NodeConfig, NetworkSettings, ClusterConfig}
use ai_hyperscaler_on_workst.Config.Nodes.{or_default}
use ai_hyperscaler_on_workst.Network.{Ip}
use ai_hyperscaler_on_workst.Network.Validate.{validate_network_config}

-- `resolve_and_validate_image_path` of utils/path_utils.py, the "format" that `qemu-img info` gives,
-- `get_connection`, and the free bytes under /var/lib/libvirt/images (`none` where that is missing).
pub record Checks (Host : Type 0) : Type 0 where
  pub resolve_image : Text → Act Host Text
  pub image_format : Text → Act Host (Option Text)
  pub connect : Act Host Unit
  pub free_bytes : Act Host (Option ℕ)

abbrev pub require {ℓ} : {Host : Type 0} {A : Type ℓ} → Option A → Act Host Unit
require none h = (err hpc_error, h)
require (some a) h = (ok tt, h)

-- `except LibvirtConnectionError`
abbrev pub connection_to_hpc : {Host : Type 0} → Problem → Act Host Unit
connection_to_hpc connection_error h = (err hpc_error, h)
connection_to_hpc e h = (err e, h)

-- The fields that every node needs.
abbrev pub has_sizes : NodeConfig → Bool
has_sizes node = is_some node.cpu_cores && is_some node.memory_gb && is_some node.disk_gb

unfoldable pub all_have_sizes : List NodeConfig → Bool
all_have_sizes [] = true
all_have_sizes (node ∷ nodes) = has_sizes node && all_have_sizes nodes

unfoldable pub disk_total : List NodeConfig → ℕ
disk_total [] = 0
disk_total (node ∷ nodes) = or_default node.disk_gb 0 + disk_total nodes

module _ {Host : Type 0} (ch : Checks Host) (ip : Ip) where
  unfoldable pub check_image : Text → Act Host Unit
  check_image base_image_path = do
    base_image ← try_except (ch.resolve_image base_image_path) (all_to hpc_error)
    try_except
        (do
          format ← ch.image_format base_image
          if text_eq (or_default format (codes "unknown")) (codes "qcow2")
              then pure tt
              else raise hpc_error)
        (all_to hpc_error)

  unfoldable pub check_network : NetworkSettings → Act Host Unit
  check_network network =
      if is_some network.subnet && is_some network.bridge
      then elim (validate_network_config ip network) [ err e ↦ raise hpc_error | ok b ↦ pure tt ]
      else raise hpc_error

  -- The parts of a configuration whose required fields are there.
  unfoldable pub check_parts :
      (base_image_path : Text)
      → NetworkSettings
      → (controller : NodeConfig) (compute_nodes : List NodeConfig) → Act Host Unit
  unfolding check_image check_network all_have_sizes
  check_parts base_image_path network controller compute_nodes = do
    check_image base_image_path
    check_network network
    if has_sizes controller && all_have_sizes compute_nodes then pure tt else raise hpc_error

  -- An exception of another class than the handlers name ends as the same class in `start_cluster`.
  unfoldable pub validate_cluster_config : ClusterConfig → Act Host Unit
  unfolding check_parts
  validate_cluster_config c = do
    require c.name
    elim c.base_image_path [
      | none ↦ raise hpc_error
      | some base_image_path ↦ elim c.network [
        | none ↦ raise hpc_error
        | some network ↦ elim c.controller [
          | none ↦ raise hpc_error
          | some controller ↦ elim c.compute_nodes [
            | none ↦ raise hpc_error
            | some compute_nodes ↦ check_parts base_image_path network controller compute_nodes
          ]
        ]
      ]
    ]

  -- The check of the space, under `except Exception` as in the source. The check for names that are taken only logs.
  unfoldable pub check_prerequisites :
      (controller : NodeConfig) (compute_nodes : List NodeConfig) → Act Host Unit
  unfolding disk_total
  check_prerequisites controller compute_nodes = do
    try_except ch.connect connection_to_hpc
    try_except
        (do
          free ← ch.free_bytes
          elim free [
            | none ↦ pure tt
            | some bytes ↦
                if ltb bytes ((or_default controller.disk_gb 0 + disk_total compute_nodes) * 2 ^ 30)
                then raise hpc_error
                else pure tt
          ])
        (λ e. pure tt)
