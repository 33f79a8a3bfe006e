-- ===== src/Hpc/Start/Failure.antt =====
-- A start that fails once the network is there.
use ai_hyperscaler_on_workst.Common.{◌≡◌, refl, ap, ◌∙◌, some, List, [], ◌∷◌, ◌++◌, Text}
use ai_hyperscaler_on_workst.Common.Exec.{ok, raise, ◌>>=◌, ◌>>◌}
use ai_hyperscaler_on_workst.Common.Ensures.{
  Ensures, Ensures-weaken, Ensures-raise, Ensures-try, Ensures-bind,
}
use ai_hyperscaler_on_workst.Problem.{Problem, volume_error, network_error, hpc_error, Act}
use ai_hyperscaler_on_workst.Config.{NodeConfig, NetworkSettings, ClusterConfig}
use ai_hyperscaler_on_workst.Config.Nodes.{or_default}
use ai_hyperscaler_on_workst.Rollback.{Undo, add_rollback_action, execute_rollback}
use ai_hyperscaler_on_workst.Network.{Ip}
use ai_hyperscaler_on_workst.Hpc.{Managers}
use ai_hyperscaler_on_workst.Hpc.Leases.{prepare_static_dhcp_leases}
use ai_hyperscaler_on_workst.Hpc.Check.{Checks, validate_cluster_config, check_prerequisites}
use ai_hyperscaler_on_workst.Hpc.Start.{
  Starters, Run, undo_of, infrastructure_to_hpc, on_host, register, after_network,
  create_cluster_infrastructure, start_vms, start_parts, attempt_start, roll_back, start_cluster,
}
use ai_hyperscaler_on_workst.Hpc.Start.Laws.{
  EndsWith, EndsWith-trans, Pushes, Pushes-bind, Pushes-on_host, Pushes-register, start_vms-Pushes,
}

module _ {Host : Type 0} where
  -- The action at the bottom of the stack is the last one of the rollback.
  execute_rollback-bottom :
      (front : List (Undo Host)) (undo : Undo Host) (h : Host)
      → (before : Host) × (execute_rollback (front ++ (undo ∷ [])) h ≡ ([], (undo before).1))
  unfolding execute_rollback
  execute_rollback-bottom [] undo h = (h, refl)
  execute_rollback-bottom (first ∷ front) undo h = execute_rollback-bottom front undo (first h).1

  on_host-step :
      {A : Type 0} (act : Act Host A) (r : Run Host) (a : A) (h : Host)
      → act r.host ≡ (ok a, h)
      → Ensures (λ b r'. (b ≡ a) × (r' ≡ record r { host = h })) (λ e r'. ⊥) (on_host act) r
  unfolding on_host
  on_host-step act r a h e = record { at = rw e (refl, refl) }

  abbrev Bottom : {A : Type 0} → Undo Host → A → Run Host → Type 0
  Bottom undo a r = EndsWith r.rollback_stack (undo ∷ [])

  converted :
      (undo : Undo Host) (e : Problem) (r : Run Host)
      → Bottom undo e r
      → Ensures (Bottom undo) (Bottom undo) (infrastructure_to_hpc {A = Unit} e) r
  converted undo volume_error r b = Ensures-raise hpc_error r b
  converted undo network_error r b = Ensures-raise hpc_error r b
  converted undo e r b = Ensures-raise e r b

  stays :
      {A : Type 0} (undo : Undo Host) (act : Act (Run Host) A) (r : Run Host)
      → Pushes act
      → Bottom undo tt r
      → Ensures (Bottom undo) (Bottom undo) act r
  stays undo act r p b =
      Ensures-weaken act r (p.at r)
        (λ a r' ends. EndsWith-trans r'.rollback_stack r.rollback_stack (undo ∷ []) ends b)
        (λ e r' ends. EndsWith-trans r'.rollback_stack r.rollback_stack (undo ∷ []) ends b)

  -- What a rollback leaves: an empty stack, and the outside world after the action at the bottom.
  abbrev pub EndsIn : Undo Host → Run Host → Type 0
  EndsIn undo r = (r.rollback_stack ≡ []) × ((before : Host) × (r.host ≡ (undo before).1))

  rolled_back :
      (undo : Undo Host) (r : Run Host)
      → Bottom undo tt r
      → Ensures (λ done r'. EndsIn undo r') (λ e r'. ⊥) roll_back r
  unfolding roll_back
  rolled_back undo r (front, e) =
      let (before, run) = execute_rollback-bottom front undo r.host in
      let whole : execute_rollback r.rollback_stack r.host ≡ ([], (undo before).1) =
        ap (λ (l : List (Undo Host)). execute_rollback l r.host) e ∙ run in
      record { at = rw whole (refl, (before, refl)) }

  module _ (m : Managers Host) (st : Starters Host) (cluster_name : Text) where
    abbrev undo_network : Undo Host
    undo_network = undo_of (m.destroy_cluster_network cluster_name)

    after_network-lem :
        (base_image : Text) (h : Host)
        → Ensures
            (Bottom undo_network)
            (Bottom undo_network)
            (after_network m st cluster_name base_image)
            (record { rollback_stack = []; host = h })
    unfolding after_network register add_rollback_action
    after_network-lem base_image h =
        Ensures-bind (register undo_network) _ (record { rollback_stack = []; host = h })
          (record { at = ([], refl) })
          λ a r b.
            stays undo_network
              (on_host (st.start_network cluster_name) >>= λ started.
                on_host (st.create_cluster_pool cluster_name base_image) >>= λ pool.
                register (undo_of (m.destroy_cluster_pool cluster_name)))
              r
              (Pushes-bind _ _ (Pushes-on_host (st.start_network cluster_name)) λ started.
                Pushes-bind _ _ (Pushes-on_host (st.create_cluster_pool cluster_name base_image))
                  λ pool. Pushes-register (undo_of (m.destroy_cluster_pool cluster_name)))
              b

    infrastructure-lem :
        (base_image : Text) (network : NetworkSettings) (c : ClusterConfig) (name : Text)
        (h h' : Host)
        → st.create_cluster_network cluster_name network
            (prepare_static_dhcp_leases st.show st.mac_of cluster_name c)
            h
          ≡ (ok name, h')
        → Ensures
            (Bottom undo_network)
            (Bottom undo_network)
            (create_cluster_infrastructure m st cluster_name base_image network c)
            (record { rollback_stack = []; host = h })
    unfolding create_cluster_infrastructure
    infrastructure-lem base_image network c name h h' created =
        let create : Act Host Text =
          st.create_cluster_network cluster_name network
            (prepare_static_dhcp_leases st.show st.mac_of cluster_name c) in
        Ensures-try {Q = Bottom undo_network} _ infrastructure_to_hpc
          (record { rollback_stack = []; host = h })
          (Ensures-bind (on_host create) (λ answer. after_network m st cluster_name base_image)
            (record { rollback_stack = []; host = h })
            (Ensures-weaken (on_host create) (record { rollback_stack = []; host = h })
              (on_host-step create (record { rollback_stack = []; host = h }) name h' created)
              (λ b r e. e) (λ e r f. absurd f))
            λ b r e. rw e.1 (after_network-lem base_image h'))
          (λ e r b. converted undo_network e r b)

    module _ (ch : Checks Host) (ip : Ip) where
      parts-lem :
          (base_image name : Text) (network : NetworkSettings) (controller : NodeConfig)
          (compute_nodes : List NodeConfig) (c : ClusterConfig) (h h2 h3 : Host)
          → check_prerequisites ch ip controller compute_nodes h ≡ (ok tt, h2)
          → st.create_cluster_network cluster_name network
              (prepare_static_dhcp_leases st.show st.mac_of cluster_name c)
              h2
            ≡ (ok name, h3)
          → Ensures
              (λ b r. Unit {0})
              (Bottom undo_network)
              (start_parts m st ch ip cluster_name base_image network controller compute_nodes c)
              (record { rollback_stack = []; host = h })
      unfolding start_parts
      parts-lem base_image name network controller compute_nodes c h h2 h3 checked created =
          Ensures-bind (on_host (check_prerequisites ch ip controller compute_nodes)) _
            (record { rollback_stack = []; host = h })
            (Ensures-weaken (on_host (check_prerequisites ch ip controller compute_nodes))
              (record { rollback_stack = []; host = h })
              (on_host-step (check_prerequisites ch ip controller compute_nodes)
                (record { rollback_stack = []; host = h }) tt h2 checked)
              (λ b r e. e) (λ e r f. absurd f))
            λ b r e. rw e.1 (
              Ensures-bind (create_cluster_infrastructure m st cluster_name base_image network c) _
                (record { rollback_stack = []; host = h2 })
                (infrastructure-lem base_image network c name h2 h3 created)
                λ done r' bottom.
                  Ensures-weaken (start_vms m st cluster_name network controller compute_nodes) r'
                    (stays undo_network _ r'
                      (start_vms-Pushes m st cluster_name network controller compute_nodes) bottom)
                    (λ b' r'' f. tt) (λ e' r'' f. f))

-- What the configuration and the host are when the network is there: the checks pass, and `create_cluster_network` returns, as
-- it does for a network that was there before.
pub record Reached {Host : Type 0} (st : Starters Host) (ch : Checks Host) (ip : Ip)
    (cluster_name : Text) (c : ClusterConfig) (h : Host) : Type 0 where
  pub base_image : Text
  pub network : NetworkSettings
  pub controller : NodeConfig
  pub name : Text
  pub validated : Host
  pub checked : Host
  pub created : Host
  pub has_image : c.base_image_path ≡ some base_image
  pub has_network : c.network ≡ some network
  pub has_controller : c.controller ≡ some controller
  pub validates : validate_cluster_config ch ip c h ≡ (ok tt, validated)
  pub checks :
      check_prerequisites ch ip controller (or_default c.compute_nodes []) validated
      ≡ (ok tt, checked)
  pub creates :
      st.create_cluster_network cluster_name network
        (prepare_static_dhcp_leases st.show st.mac_of cluster_name c)
        checked
      ≡ (ok name, created)

-- Where the checks pass and `create_cluster_network` returns, which it also does for a network that was there before: a start
-- that fails raises `HPCManagerError`, leaves the rollback stack empty, and ends with
-- `destroy_cluster_network`.
pub start_cluster-EndsIn :
    {Host : Type 0} (m : Managers Host) (st : Starters Host) (ch : Checks Host) (ip : Ip)
    (cluster_name : Text) (c : ClusterConfig) (h : Host)
    → Reached st ch ip cluster_name c h
    → Ensures
        (λ b r. Unit {0})
        (λ e r. (e ≡ hpc_error) × EndsIn (undo_of (m.destroy_cluster_network cluster_name)) r)
        (start_cluster m st ch ip cluster_name c)
        (record { rollback_stack = []; host = h })
unfolding start_cluster attempt_start
start_cluster-EndsIn {Host} m st ch ip cluster_name c h reached =
    let undo = undo_of (m.destroy_cluster_network cluster_name) in
    let begin : Run Host = record { rollback_stack = []; host = h } in
    Ensures-try {Q = Bottom undo} _ (λ e. roll_back >> raise hpc_error) begin
      (Ensures-bind (on_host (validate_cluster_config ch ip c)) _ begin
        (Ensures-weaken (on_host (validate_cluster_config ch ip c)) begin
          (on_host-step (validate_cluster_config ch ip c) begin tt reached.validated
            reached.validates)
          (λ b r e. e) (λ e r f. absurd f))
        λ b r e. rw e.1 (
          rw reached.has_image (
            rw reached.has_network (
              rw reached.has_controller (
                parts-lem m st cluster_name ch ip reached.base_image reached.name reached.network
                  reached.controller (or_default c.compute_nodes []) c reached.validated
                  reached.checked reached.created reached.checks reached.creates)))))
      λ e r bottom.
        Ensures-bind roll_back _ r
          (Ensures-weaken roll_back r (rolled_back undo r bottom) (λ a r' f. f)
            (λ e' r' f. absurd f))
          λ a r' ends. Ensures-raise hpc_error r' (refl, ends)
