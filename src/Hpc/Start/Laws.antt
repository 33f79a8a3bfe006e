-- ===== src/Hpc/Start/Laws.antt =====
-- The rollback stack during the start, and what a failure ends with.
use ai_hyperscaler_on_workst.Common.{
  ℕ, ◌+◌, ◌≡◌, refl, ap, ◌∙◌, Option, none, some, List, [], ◌∷◌, ◌++◌, Bool, true, false, Text,
  codes, if◌then◌else◌,
}
use ai_hyperscaler_on_workst.Common.Exec.{Result, ok, err, pure, raise, try_except, ◌>>=◌}
use ai_hyperscaler_on_workst.Common.Ensures.{
  Post, Ensures, Ensures-weaken, Ensures-pure, Ensures-raise, Ensures-try, Ensures-bind,
}
use ai_hyperscaler_on_workst.Problem.{
  Problem, lifecycle_error, volume_error, network_error, hpc_error, Act,
}
use ai_hyperscaler_on_workst.Config.{NodeConfig, NetworkSettings}
use ai_hyperscaler_on_workst.Config.Nodes.{should_auto_start_vm}
use ai_hyperscaler_on_workst.Models.{VmInfo, ClusterState}
use ai_hyperscaler_on_workst.Models.Vms.{get_vm_by_name, add_vm}
use ai_hyperscaler_on_workst.Rollback.{Undo, add_rollback_action}
use ai_hyperscaler_on_workst.Network.{nonempty}
use ai_hyperscaler_on_workst.Hpc.{Managers}
use ai_hyperscaler_on_workst.Hpc.Leases.{pad_two}
use ai_hyperscaler_on_workst.Hpc.Start.{
  Starters, Run, volume_to_hpc, network_to_hpc, lifecycle_to_hpc, on_host, register, choose_ip,
  build_vm, start_vm_if_needed, start_if, controller_vm, create_compute_nodes, start_compute_nodes,
  start_vms,
}

-- The last elements of a list are those of another.
abbrev pub EndsWith {ℓ} : {A : Type ℓ} → List A → List A → Type ℓ
EndsWith {A} xs ys = (front : List A) × (xs ≡ front ++ ys)

append_assoc {ℓ} : {A : Type ℓ} (xs ys zs : List A) → xs ++ (ys ++ zs) ≡ (xs ++ ys) ++ zs
append_assoc [] ys zs = refl
append_assoc (x ∷ xs) ys zs = ap (λ l. x ∷ l) (append_assoc xs ys zs)

pub EndsWith-trans {ℓ} :
    {A : Type ℓ} (xs ys zs : List A) → EndsWith xs ys → EndsWith ys zs → EndsWith xs zs
EndsWith-trans xs ys zs (f, e) (g, e') = (f ++ g, e ∙ ap (λ l. f ++ l) e' ∙ append_assoc f g zs)

module _ {Host : Type 0} where
  -- A method only adds to the rollback stack, whether or not it raises.
  pub record Pushes {A : Type 0} (act : Act (Run Host) A) : Type 0 where
    pub at :
        (r : Run Host)
        → Ensures
            (λ a r'. EndsWith r'.rollback_stack r.rollback_stack)
            (λ e r'. EndsWith r'.rollback_stack r.rollback_stack)
            act
            r

  pub Pushes-pure : {A : Type 0} (a : A) → Pushes (pure a)
  Pushes-pure a = record { at = λ r. Ensures-pure a r ([], refl) }

  pub Pushes-raise : {A : Type 0} (e : Problem) → Pushes (raise {A = A} e)
  Pushes-raise e = record { at = λ r. Ensures-raise e r ([], refl) }

  pub from :
      {A : Type 0} (act : Act (Run Host) A) (r r' : Run Host)
      → Pushes act
      → EndsWith r'.rollback_stack r.rollback_stack
      → Ensures
          (λ a r''. EndsWith r''.rollback_stack r.rollback_stack)
          (λ e r''. EndsWith r''.rollback_stack r.rollback_stack)
          act
          r'
  from act r r' p ends =
      Ensures-weaken act r' (p.at r')
        (λ a r'' f. EndsWith-trans r''.rollback_stack r'.rollback_stack r.rollback_stack f ends)
        (λ e r'' f. EndsWith-trans r''.rollback_stack r'.rollback_stack r.rollback_stack f ends)

  pub Pushes-bind :
      {A B : Type 0} (act : Act (Run Host) A) (f : A → Act (Run Host) B)
      → Pushes act
      → ((a : A) → Pushes (f a))
      → Pushes (act >>= f)
  Pushes-bind act f pa pf = record {
    at = λ r. Ensures-bind act f r (pa.at r) (λ a r' ends. from (f a) r r' (pf a) ends);
  }

  pub Pushes-if :
      {A : Type 0} (b : Bool) (p q : Act (Run Host) A)
      → Pushes p
      → Pushes q
      → Pushes (if b then p else q)
  Pushes-if true p q hp hq = hp
  Pushes-if false p q hp hq = hq

  pub Pushes-try :
      {A : Type 0} (act : Act (Run Host) A) (handler : Problem → Act (Run Host) A)
      → Pushes act
      → ((e : Problem) → Pushes (handler e))
      → Pushes (try_except act handler)
  Pushes-try act handler pa ph = record {
    at = λ r. Ensures-try act handler r (pa.at r) (λ e r' ends. from (handler e) r r' (ph e) ends);
  }

  pub Pushes-option :
      {A B : Type 0} (o : Option B) (p : Act (Run Host) A) (f : B → Act (Run Host) A)
      → Pushes p
      → ((b : B) → Pushes (f b))
      → Pushes (elim o [ none ↦ p | some b ↦ f b ])
  Pushes-option none p f hp hf = hp
  Pushes-option (some b) p f hp hf = hf b

  raised : {A : Type 0} (e : Problem) → Pushes {A = A} (λ r. (err e, r))
  raised e = Pushes-raise e

  pub Pushes-volume_to_hpc : {A : Type 0} (e : Problem) → Pushes (volume_to_hpc {A = A} e)
  Pushes-volume_to_hpc volume_error = raised hpc_error
  Pushes-volume_to_hpc e = raised e

  pub Pushes-network_to_hpc : {A : Type 0} (e : Problem) → Pushes (network_to_hpc {A = A} e)
  Pushes-network_to_hpc network_error = raised hpc_error
  Pushes-network_to_hpc e = raised e

  pub Pushes-lifecycle_to_hpc : {A : Type 0} (e : Problem) → Pushes (lifecycle_to_hpc {A = A} e)
  Pushes-lifecycle_to_hpc lifecycle_error = raised hpc_error
  Pushes-lifecycle_to_hpc e = raised e

  same_stack :
      {A : Type 0} (x : Result Problem A) (r r' : Run Host)
      → EndsWith r'.rollback_stack r.rollback_stack
      → Post
          (λ a r''. EndsWith r''.rollback_stack r.rollback_stack)
          (λ e r''. EndsWith r''.rollback_stack r.rollback_stack)
          (x, r')
  same_stack (ok a) r r' h = h
  same_stack (err e) r r' h = h

  pub Pushes-on_host : {A : Type 0} (act : Act Host A) → Pushes (on_host act)
  unfolding on_host
  Pushes-on_host act = record {
    at = λ r. record {
      at = same_stack (act r.host).0 r (record r { host = (act r.host).1 }) ([], refl);
    };
  }

  pub Pushes-register : (undo : Undo Host) → Pushes (register undo)
  unfolding register add_rollback_action
  Pushes-register undo = record { at = λ r. record { at = (undo ∷ [], refl) } }

  pub ruleset push_rules = (
    Pushes-pure, Pushes-raise, Pushes-bind, Pushes-if, Pushes-try, Pushes-option,
    Pushes-volume_to_hpc, Pushes-network_to_hpc, Pushes-lifecycle_to_hpc, Pushes-on_host,
    Pushes-register,
  )

  module _ (m : Managers Host) (st : Starters Host) (cluster_name : Text) where
    choose_ip-Pushes :
        (vm_name : Text) (static_ip : Option Text)
        → Pushes (choose_ip m st cluster_name vm_name static_ip)
    unfolding choose_ip
    choose_ip-Pushes vm_name static_ip =
        Pushes-option (nonempty static_ip) _ pure (search push_rules depth 12)
          (λ ip. Pushes-pure ip)

    build_vm-Pushes :
        (vm_name template : Text) (node : NodeConfig) (static_ip gpu : Option Text) (vm_type : Text)
        → Pushes (build_vm m st cluster_name vm_name template node static_ip gpu vm_type)
    unfolding build_vm
    build_vm-Pushes vm_name template node static_ip gpu vm_type =
        search (push_rules, choose_ip-Pushes) depth 20 fits 4000

    start_vm-Pushes : (vm : VmInfo) → Pushes (start_vm_if_needed m st vm)
    unfolding start_vm_if_needed
    start_vm-Pushes vm = search push_rules depth 12

    start_if-Pushes : (b : Bool) (vm : VmInfo) → Pushes (start_if m st b vm)
    unfolding start_if
    start_if-Pushes b vm = search (push_rules, start_vm-Pushes) depth 12

    controller_vm-Pushes :
        (node : NodeConfig) (o : Option VmInfo) → Pushes (controller_vm m st cluster_name node o)
    unfolding controller_vm
    controller_vm-Pushes node none = search (push_rules, build_vm-Pushes, start_if-Pushes) depth 12
    controller_vm-Pushes node (some vm) = search (push_rules, start_if-Pushes) depth 12

    create_compute_nodes-Pushes :
        (i : ℕ) (nodes : List NodeConfig) (s : ClusterState)
        → Pushes (create_compute_nodes m st cluster_name i nodes s)
    unfolding create_compute_nodes
    create_compute_nodes-Pushes i [] s = Pushes-pure s
    create_compute_nodes-Pushes i (node ∷ nodes) s =
        let vm_name = cluster_name ++ (codes "-compute-" ++ pad_two (st.show (i + 1))) in
        Pushes-option (get_vm_by_name s vm_name) _
          (λ vm. create_compute_nodes m st cluster_name (i + 1) nodes s)
          (Pushes-bind (build_vm m st cluster_name vm_name _ node node.ip _ _) _
            (build_vm-Pushes vm_name _ node node.ip _ _)
            λ vm.
              Pushes-bind (on_host m.now) _ (Pushes-on_host m.now)
                λ time. create_compute_nodes-Pushes (i + 1) nodes (add_vm time s vm).0)
          (λ vm. create_compute_nodes-Pushes (i + 1) nodes s)

    start_compute_nodes-Pushes :
        (i : ℕ) (configs : List NodeConfig) (vms : List VmInfo)
        → Pushes (start_compute_nodes m st i configs vms)
    unfolding start_compute_nodes
    start_compute_nodes-Pushes i configs [] = Pushes-pure []
    start_compute_nodes-Pushes i configs (vm ∷ vms) =
        Pushes-bind (start_if m st (should_auto_start_vm i configs) vm) _
          (start_if-Pushes (should_auto_start_vm i configs) vm)
          λ started.
            Pushes-bind (start_compute_nodes m st (i + 1) configs vms) _
              (start_compute_nodes-Pushes (i + 1) configs vms) λ rest. Pushes-pure (started ∷ rest)

    pub start_vms-Pushes :
        (network : NetworkSettings) (controller : NodeConfig) (compute_nodes : List NodeConfig)
        → Pushes (start_vms m st cluster_name network controller compute_nodes)
    unfolding start_vms
    start_vms-Pushes network controller compute_nodes =
        search
          (
            push_rules, controller_vm-Pushes, create_compute_nodes-Pushes,
            start_compute_nodes-Pushes,
          )
          depth 20 fits 4000
