-- ===== src/Gpu/Sharing/Listed.antt =====
-- The addresses that a cluster's configuration lists, described by its nodes.
use mathlib.Core.List.{append-nil, append_assoc}
use ai_hyperscaler_on_workst.Common.{
  ◌≡◌, refl, sym, ap, ◌∙◌, Option, none, some, List, [], ◌∷◌, ◌++◌, false, Text, codes, Bool-cases,
  Option-cases, inl, inr, arith, if◌then◌else◌, keep, text_eq,
}
use ai_hyperscaler_on_workst.Common.Dict
use ai_hyperscaler_on_workst.Common.Dict.{Dict}
use ai_hyperscaler_on_workst.Common.Exec.{Result, ok, err}
use ai_hyperscaler_on_workst.Common.Fallible.{◌>>=◌, for_each}
use ai_hyperscaler_on_workst.Config.{
  PcieDevice, NodeConfig, Workers, listed, keyed, ClusterConfig, ConfigError, key_error,
}
use ai_hyperscaler_on_workst.Config.Nodes.{or_default, no_pcie, is_gpu_device}
use ai_hyperscaler_on_workst.Gpu.Sharing.{
  Addresses, device_address, get_gpu_devices, node_addresses, nodes_addresses, optional_node,
  groups_addresses, all_workers, cpu_and_gpu_workers, extract_any, extract_typed, addresses_of,
}

-- The addresses of the GPUs among the devices, of an enabled passthrough, and of nodes.
abbrev pub address_texts : List PcieDevice → List Text
address_texts [] = []
address_texts (d ∷ ds) = elim d.pci_address [
  | none ↦ address_texts ds
  | some a ↦ a ∷ address_texts ds
]

abbrev pub node_gpus : NodeConfig → List Text
node_gpus node =
    let pcie = or_default node.pcie_passthrough no_pcie in
    if or_default pcie.enabled false
    then address_texts (keep is_gpu_device (or_default pcie.devices []))
    else []

abbrev pub nodes_gpus : List NodeConfig → List Text
nodes_gpus [] = []
nodes_gpus (node ∷ nodes) = node_gpus node ++ nodes_gpus nodes

-- The nodes of a cluster that each validator looks at.
abbrev pub at_most_one : Option NodeConfig → List NodeConfig
at_most_one none = []
at_most_one (some node) = node ∷ []

abbrev pub nodes_of_groups : Dict (List NodeConfig) → List NodeConfig
nodes_of_groups [] = []
nodes_of_groups ((worker_type, nodes) ∷ groups) = nodes ++ nodes_of_groups groups

abbrev pub every_worker : Option Workers → List NodeConfig
every_worker none = []
every_worker (some (listed nodes)) = nodes
every_worker (some (keyed groups)) = nodes_of_groups groups

abbrev pub workers_of_type : Option Workers → Text → List NodeConfig
workers_of_type none worker_type = []
workers_of_type (some (listed nodes)) worker_type = nodes
workers_of_type (some (keyed groups)) worker_type = or_default (Dict.get groups worker_type) []

abbrev pub any_nodes : ClusterConfig → List NodeConfig
any_nodes c =
    at_most_one c.controller ++ (or_default c.compute_nodes [] ++ every_worker c.worker_nodes)

abbrev pub hpc_nodes : ClusterConfig → List NodeConfig
hpc_nodes c = at_most_one c.controller ++ or_default c.compute_nodes []

abbrev pub cloud_nodes : ClusterConfig → List NodeConfig
cloud_nodes c =
    at_most_one c.control_plane
    ++ (workers_of_type c.worker_nodes (codes "cpu")
        ++ workers_of_type c.worker_nodes (codes "gpu"))

-- What the cluster of a name lists.
abbrev pub gpus_listed : (ClusterConfig → List NodeConfig) → Dict ClusterConfig → Text → List Text
gpus_listed nodes clusters cluster = elim (Dict.get clusters cluster) [
  | none ↦ []
  | some c ↦ nodes_gpus (nodes c)
]

-- A list that is read is the given one.
abbrev Reads : Addresses → List Text → Type 0
Reads r expected = (gpus : List Text) → r ≡ ok gpus → gpus ≡ expected

Reads-ok : (a b : List Text) → a ≡ b → Reads (ok a) b
Reads-ok a b e gpus h = ground (arith, e)

Reads-append :
    (r t : Addresses) (a b : List Text)
    → Reads r a
    → Reads t b
    → Reads (r >>= λ x. t >>= λ y. ok (x ++ y)) (a ++ b)
Reads-append (ok x) (ok y) a b f g gpus h = ground (arith, f x refl, g y refl)
Reads-append (ok x) (err e) a b f g gpus h = absurd (ground arith)
Reads-append (err e) t a b f g gpus h = absurd (ground arith)

Reads-append3 :
    (r t u : Addresses) (a b c : List Text)
    → Reads r a
    → Reads t b
    → Reads u c
    → Reads (r >>= λ x. t >>= λ y. u >>= λ z. ok (x ++ (y ++ z))) (a ++ (b ++ c))
Reads-append3 (ok x) (ok y) (ok z) a b c f g k gpus h = ground (arith, f x refl, g y refl, k z refl)
Reads-append3 (ok x) (ok y) (err e) a b c f g k gpus h = absurd (ground arith)
Reads-append3 (ok x) (err e) u a b c f g k gpus h = absurd (ground arith)
Reads-append3 (err e) t u a b c f g k gpus h = absurd (ground arith)

address_texts-cons :
    (o : Option Text) (rest : Addresses) (expected : List Text)
    → Reads rest expected
    → Reads
        (elim (elim o as (λ x. Result ConfigError Text) [ none ↦ err key_error | some a ↦ ok a ])
          as (λ x. Addresses) [
            | err e ↦ err e
            | ok y ↦ elim rest as (λ x. Addresses) [ err e ↦ err e | ok ys ↦ ok (y ∷ ys) ]
          ])
        (elim o as (λ x. List Text) [ none ↦ expected | some a ↦ a ∷ expected ])
address_texts-cons none rest expected f gpus h = absurd (ground arith)
address_texts-cons (some a) (ok ys) expected f gpus h = ground (arith, f ys refl)
address_texts-cons (some a) (err e) expected f gpus h = absurd (ground arith)

devices-Reads : (ds : List PcieDevice) → Reads (for_each device_address ds) (address_texts ds)
unfolding device_address
devices-Reads [] = Reads-ok [] [] refl
devices-Reads (d ∷ ds) =
    address_texts-cons d.pci_address (for_each device_address ds) (address_texts ds)
      (devices-Reads ds)

node-Reads : (node : NodeConfig) → Reads (node_addresses node) (node_gpus node)
unfolding node_addresses get_gpu_devices
node-Reads node =
    let pcie = or_default node.pcie_passthrough no_pcie in
    elim (Bool-cases (or_default pcie.enabled false)) [
      | inl enabled ↦ rw enabled (devices-Reads (keep is_gpu_device (or_default pcie.devices [])))
      | inr disabled ↦ rw disabled (Reads-ok [] [] refl)
    ]

nodes-Reads : (nodes : List NodeConfig) → Reads (nodes_addresses nodes) (nodes_gpus nodes)
unfolding nodes_addresses
nodes-Reads [] = Reads-ok [] [] refl
nodes-Reads (node ∷ nodes) =
    Reads-append (node_addresses node) (nodes_addresses nodes) (node_gpus node) (nodes_gpus nodes)
      (node-Reads node) (nodes-Reads nodes)

nodes_gpus-append :
    (ns ms : List NodeConfig) → nodes_gpus (ns ++ ms) ≡ nodes_gpus ns ++ nodes_gpus ms
nodes_gpus-append [] ms = refl
nodes_gpus-append (n ∷ ns) ms =
    ap (λ l. node_gpus n ++ l) (nodes_gpus-append ns ms)
    ∙ sym (append_assoc (node_gpus n) (nodes_gpus ns) (nodes_gpus ms))

Reads-nodes_append :
    (r : Addresses) (ns ms : List NodeConfig)
    → Reads r (nodes_gpus ns ++ nodes_gpus ms)
    → Reads r (nodes_gpus (ns ++ ms))
Reads-nodes_append r ns ms f gpus h = f gpus h ∙ sym (nodes_gpus-append ns ms)

optional-Reads : (o : Option NodeConfig) → Reads (optional_node o) (nodes_gpus (at_most_one o))
unfolding optional_node
optional-Reads none gpus h = ground arith
optional-Reads (some node) gpus h = node-Reads node gpus h ∙ sym (append-nil (node_gpus node))

groups-Reads :
    (groups : Dict (List NodeConfig))
    → Reads (groups_addresses groups) (nodes_gpus (nodes_of_groups groups))
unfolding groups_addresses
groups-Reads [] = Reads-ok [] [] refl
groups-Reads ((worker_type, nodes) ∷ groups) =
    Reads-nodes_append (groups_addresses ((worker_type, nodes) ∷ groups)) nodes
      (nodes_of_groups groups)
      (Reads-append (nodes_addresses nodes) (groups_addresses groups) (nodes_gpus nodes)
        (nodes_gpus (nodes_of_groups groups)) (nodes-Reads nodes) (groups-Reads groups))

workers-Reads : (w : Option Workers) → Reads (all_workers w) (nodes_gpus (every_worker w))
unfolding all_workers
workers-Reads none gpus h = ground arith
workers-Reads (some (listed nodes)) gpus h = absurd (ground arith)
workers-Reads (some (keyed groups)) gpus h = groups-Reads groups gpus h

typed_workers-Reads :
    (w : Option Workers)
    → Reads (cpu_and_gpu_workers w) (
        nodes_gpus (workers_of_type w (codes "cpu"))
        ++ nodes_gpus (workers_of_type w (codes "gpu")))
unfolding cpu_and_gpu_workers
typed_workers-Reads none gpus h = ground arith
typed_workers-Reads (some (listed nodes)) gpus h = absurd (ground arith)
typed_workers-Reads (some (keyed groups)) gpus h =
    let cpu = or_default (Dict.get groups (codes "cpu")) [] in
    let gpu = or_default (Dict.get groups (codes "gpu")) [] in
    Reads-append (nodes_addresses cpu) (nodes_addresses gpu) (nodes_gpus cpu) (nodes_gpus gpu)
      (nodes-Reads cpu) (nodes-Reads gpu) gpus h

extract_any-Reads : (c : ClusterConfig) → Reads (extract_any c) (nodes_gpus (any_nodes c))
unfolding extract_any
extract_any-Reads c gpus h =
    let compute = or_default c.compute_nodes [] in
    let workers = every_worker c.worker_nodes in
    Reads-append3 (optional_node c.controller) (nodes_addresses compute)
      (all_workers c.worker_nodes) (nodes_gpus (at_most_one c.controller)) (nodes_gpus compute)
      (nodes_gpus workers) (optional-Reads c.controller) (nodes-Reads compute)
      (workers-Reads c.worker_nodes) gpus h
    ∙ ap (λ l. nodes_gpus (at_most_one c.controller) ++ l) (sym (nodes_gpus-append compute workers))
    ∙ sym (nodes_gpus-append (at_most_one c.controller) (compute ++ workers))

extract_hpc-Reads :
    (c : ClusterConfig) → Reads (extract_typed c (codes "hpc")) (nodes_gpus (hpc_nodes c))
unfolding extract_typed text_eq
extract_hpc-Reads c =
    let compute = or_default c.compute_nodes [] in
    Reads-nodes_append (extract_typed c (codes "hpc")) (at_most_one c.controller) compute (
      Reads-append (optional_node c.controller) (nodes_addresses compute)
        (nodes_gpus (at_most_one c.controller)) (nodes_gpus compute) (optional-Reads c.controller)
        (nodes-Reads compute))

extract_cloud-Reads :
    (c : ClusterConfig) → Reads (extract_typed c (codes "cloud")) (nodes_gpus (cloud_nodes c))
unfolding extract_typed text_eq
extract_cloud-Reads c gpus h =
    let cpu = workers_of_type c.worker_nodes (codes "cpu") in
    let gpu = workers_of_type c.worker_nodes (codes "gpu") in
    Reads-append (optional_node c.control_plane) (cpu_and_gpu_workers c.worker_nodes)
      (nodes_gpus (at_most_one c.control_plane)) (nodes_gpus cpu ++ nodes_gpus gpu)
      (optional-Reads c.control_plane) (typed_workers-Reads c.worker_nodes) gpus h
    ∙ ap (λ l. nodes_gpus (at_most_one c.control_plane) ++ l) (sym (nodes_gpus-append cpu gpu))
    ∙ sym (nodes_gpus-append (at_most_one c.control_plane) (cpu ++ gpu))

listed-lem :
    (extract : ClusterConfig → Addresses) (nodes : ClusterConfig → List NodeConfig)
    (clusters : Dict ClusterConfig) (cluster : Text)
    → ((c : ClusterConfig) → Reads (extract c) (nodes_gpus (nodes c)))
    → Reads (addresses_of extract clusters cluster) (gpus_listed nodes clusters cluster)
unfolding addresses_of
listed-lem extract nodes clusters cluster f gpus h =
    elim (Option-cases (Dict.get clusters cluster)) [
      | inl absent ↦ ground (arith, absent)
      | inr (c, found) ↦ ground (arith, found, f c gpus)
    ]

pub listed_any :
    (clusters : Dict ClusterConfig) (cluster : Text)
    → Reads (addresses_of extract_any clusters cluster) (gpus_listed any_nodes clusters cluster)
listed_any clusters cluster = listed-lem extract_any any_nodes clusters cluster extract_any-Reads

pub listed_hpc :
    (clusters : Dict ClusterConfig)
    → Reads
        (addresses_of (λ c. extract_typed c (codes "hpc")) clusters (codes "hpc"))
        (gpus_listed hpc_nodes clusters (codes "hpc"))
listed_hpc clusters =
    listed-lem (λ c. extract_typed c (codes "hpc")) hpc_nodes clusters (codes "hpc")
      extract_hpc-Reads

pub listed_cloud :
    (clusters : Dict ClusterConfig)
    → Reads
        (addresses_of (λ c. extract_typed c (codes "cloud")) clusters (codes "cloud"))
        (gpus_listed cloud_nodes clusters (codes "cloud"))
listed_cloud clusters =
    listed-lem (λ c. extract_typed c (codes "cloud")) cloud_nodes clusters (codes "cloud")
      extract_cloud-Reads
