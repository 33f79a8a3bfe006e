-- ===== src/Hpc/Destroy/Laws.antt =====
-- `destroy_cluster` on what is there of a cluster, whatever its managers cannot do.
use ai_hyperscaler_on_workst.Common.{◌≡◌, ◌⊎◌, List, true, false, Text, All}
use ai_hyperscaler_on_workst.Common.Ensures.{Ensures}
use ai_hyperscaler_on_workst.Problem.{Problem, connection_error}
use ai_hyperscaler_on_workst.Hpc.{Managers}
use ai_hyperscaler_on_workst.Hpc.Destroy.View.{Resources, Fewer, Tearing}

module _ {Host : Type 0} {m : Managers Host} {cluster_name : Text}
    (t : Tearing m cluster_name) where
  open t use {view, may_fail, loses_connection}

  -- What a step leaves: at most what there was and, where nothing may fail, something is gone.
  abbrev Less : {A : Type 0} → Resources → (Resources → Type 0) → A → Host → Type 0
  Less r gone a h = Fewer (view h) r × ((may_fail ≡ true) ⊎ gone (view h))

  abbrev Raised : Problem → Resources → Problem → Host → Type 0
  Raised class r e h = (may_fail ≡ true) × (e ≡ class) × Fewer (view h) r

  -- There is no connection.
  abbrev Lost : Resources → Problem → Host → Type 0
  Lost r e h = (loses_connection ≡ true) × (e ≡ connection_error) × Fewer (view h) r

-- The resources of a cluster with a state file after `destroy_cluster`.
abbrev pub AllGone : List Text → Resources → Type 0
AllGone names now =
    All (λ vm_name. now.vms vm_name ≡ false) names × (now.pool ≡ false) × (now.network ≡ false)
