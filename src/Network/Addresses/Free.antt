-- ===== src/Network/Addresses/Free.antt =====
-- The address that `allocate_ip_address` chooses, against the hosts and the leases of the network.
use ai_hyperscaler_on_workst.Common.{
  ℕ, ◌≡◌, ◌≢◌, ◌⊎◌, inl, inr, refl, ap, arith, Option, none, some, List, [], ◌∷◌, ◌++◌, true, false,
  Text, text_eq, text_eq_iff, Bool-cases, Option-cases, All, find,
}
use ai_hyperscaler_on_workst.Common.Exec.{Result, ok, err}
use ai_hyperscaler_on_workst.Problem.{Problem, network_error}
use ai_hyperscaler_on_workst.Network.{Ip, IpNetwork}
use ai_hyperscaler_on_workst.Network.Outside.{Outside}
use ai_hyperscaler_on_workst.Network.Addresses.{
  Addresses, is_allocated, is_free, NetworkInfo, choose_address, get_network_info,
  allocate_ip_address,
}

-- An address stands among the values.
abbrev pub InUse : Addresses → Text → Type 0
InUse [] t = ⊥
InUse ((key, ip) ∷ rest) t = (ip ≡ some t) ⊎ InUse rest t

-- A host that the search passes over, and one that it takes.
abbrev pub IsTaken : Ip → NetworkInfo → ℕ → Type 0
IsTaken ip info a =
    InUse info.allocated_ips (ip.show_address a) ⊎ (ip.show_address a ≡ info.gateway_ip)

abbrev pub IsFree : Ip → NetworkInfo → ℕ → Type 0
IsFree ip info a =
    (¬ InUse info.allocated_ips (ip.show_address a)) × (ip.show_address a ≢ info.gateway_ip)

is_allocated-InUse :
    (addresses : Addresses) (t : Text) → is_allocated addresses t ≡ true → InUse addresses t
is_allocated-InUse [] t h = ground arith
is_allocated-InUse ((key, none) ∷ rest) t h = inr (is_allocated-InUse rest t (ground arith))
is_allocated-InUse ((key, some ip) ∷ rest) t h = elim (Bool-cases (text_eq ip t)) [
  | inl same ↦ inl (ap some ((text_eq_iff ip t).0 same))
  | inr other ↦ inr (is_allocated-InUse rest t (ground arith))
]

InUse-is_allocated :
    (addresses : Addresses) (t : Text) → InUse addresses t → is_allocated addresses t ≡ true
InUse-is_allocated [] t h = absurd h
InUse-is_allocated ((key, none) ∷ rest) t (inl h) = ground arith
InUse-is_allocated ((key, none) ∷ rest) t (inr h) = InUse-is_allocated rest t h
InUse-is_allocated ((key, some ip) ∷ rest) t (inl h) = ground (arith, text_eq_iff ip t)
InUse-is_allocated ((key, some ip) ∷ rest) t (inr h) = ground (arith, InUse-is_allocated rest t h)

is_free-IsFree :
    (ip : Ip) (info : NetworkInfo) (a : ℕ) → is_free ip info a ≡ true → IsFree ip info a
is_free-IsFree ip info a h = (
  λ used. ground (arith, InUse-is_allocated info.allocated_ips (ip.show_address a) used),
  ground (arith, text_eq_iff (ip.show_address a) info.gateway_ip),
)

is_free-IsTaken :
    (ip : Ip) (info : NetworkInfo) (a : ℕ) → is_free ip info a ≡ false → IsTaken ip info a
is_free-IsTaken ip info a h =
    elim (Bool-cases (is_allocated info.allocated_ips (ip.show_address a))) [
      | inl used ↦ inl (is_allocated-InUse info.allocated_ips (ip.show_address a) used)
      | inr unused ↦ inr (ground (arith, text_eq_iff (ip.show_address a) info.gateway_ip))
    ]

-- The first free one of a list of hosts, with those before it, or all of them taken.
abbrev pub FirstFree : Ip → NetworkInfo → List ℕ → Option ℕ → Type 0
FirstFree ip info hosts none = All (IsTaken ip info) hosts
FirstFree ip info hosts (some a) =
    (before : List ℕ) × (after : List ℕ) × (hosts ≡ before ++ (a ∷ after))
    × All (IsTaken ip info) before
    × IsFree ip info a

later-FirstFree :
    (ip : Ip) (info : NetworkInfo) (a : ℕ) (hosts : List ℕ) (found : Option ℕ)
    → IsTaken ip info a
    → FirstFree ip info hosts found
    → FirstFree ip info (a ∷ hosts) found
later-FirstFree ip info a hosts none taken first = (taken, first)
later-FirstFree ip info a hosts (some b) taken (before, after, e, all_taken, free) =
    (a ∷ before, after, ap (λ l. a ∷ l) e, (taken, all_taken), free)

find-FirstFree :
    (ip : Ip) (info : NetworkInfo) (hosts : List ℕ)
    → FirstFree ip info hosts (find (is_free ip info) hosts)
find-FirstFree ip info [] = tt
find-FirstFree ip info (a ∷ hosts) = elim (Bool-cases (is_free ip info a)) [
  | inl free ↦ rw free ([], hosts, refl, tt, is_free-IsFree ip info a free)
  | inr taken ↦ rw taken (
      later-FirstFree ip info a hosts (find (is_free ip info) hosts)
        (is_free-IsTaken ip info a taken) (find-FirstFree ip info hosts))
]

-- The result of the method when the first free host is given.
abbrev pub address_result : Ip → Option ℕ → Result Problem Text
address_result ip none = err network_error
address_result ip (some a) = ok (ip.show_address a)

-- Where the information about the network is read and its range is a network, `allocate_ip_address` changes nothing
-- more and answers with the first host of the network whose address is neither that of the gateway nor
-- in use, every host before it being taken; it raises `NetworkManagerError` exactly where all hosts
-- are taken.
pub allocate_ip_address-FirstFree :
    {Host : Type 0} (out : Outside Host) (ip : Ip) (cluster_name vm_name : Text) (h h' : Host)
    (info : NetworkInfo) (network : IpNetwork)
    → get_network_info out ip cluster_name h ≡ (ok info, h')
    → ip.parse_network info.network_range ≡ some network
    → (found : Option ℕ) × (allocate_ip_address out ip cluster_name vm_name h
        ≡ (address_result ip found, h'))
      × FirstFree ip info (ip.hosts network) found
unfolding allocate_ip_address choose_address
allocate_ip_address-FirstFree out ip cluster_name vm_name h h' info network read parsed = (
  find (is_free ip info) (ip.hosts network),
  ground (arith, Option-cases (find (is_free ip info) (ip.hosts network))),
  find-FirstFree ip info (ip.hosts network),
)
