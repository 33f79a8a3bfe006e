-- ===== src/Network/Addresses/Leases.antt =====
-- The leases of a network among the addresses in use.
use ai_hyperscaler_on_workst.Common.{
  ℕ, ◌≡◌, ◌≢◌, ◌⊎◌, inl, inr, refl, sym, ap, ◌∙◌, arith, Option, none, some, List, [], ◌∷◌, ◌++◌,
  true, Text, text_eq_iff, Bool-cases, All,
}
use ai_hyperscaler_on_workst.Common.Exec.{ok}
use ai_hyperscaler_on_workst.Network.{Ip, IpNetwork}
use ai_hyperscaler_on_workst.Network.Outside.{Outside, Lease}
use ai_hyperscaler_on_workst.Network.Addresses.{
  Addresses, same_key, put_address, allocated_from, NetworkInfo, get_network_info,
  allocate_ip_address,
}
use ai_hyperscaler_on_workst.Network.Addresses.Free.{
  InUse, FirstFree, address_result, allocate_ip_address-FirstFree,
}

same_key-eq : (j k : Option Text) → same_key j k ≡ true → j ≡ k
same_key-eq none none h = refl
same_key-eq none (some b) h = ground arith
same_key-eq (some a) none h = ground arith
same_key-eq (some a) (some b) h = ground (arith, text_eq_iff a b)

abbrev HasEntry : Addresses → (hostname ip : Option Text) → Type 0
HasEntry [] hostname ip = ⊥
HasEntry ((key, value) ∷ rest) hostname ip =
    ((key ≡ hostname) × (value ≡ ip)) ⊎ HasEntry rest hostname ip

put_address-HasEntry :
    (seen : Addresses) (hostname ip : Option Text)
    → HasEntry (put_address seen hostname ip) hostname ip
unfolding put_address
put_address-HasEntry [] hostname ip = inl (refl, refl)
put_address-HasEntry ((key, old) ∷ rest) hostname ip = elim (Bool-cases (same_key key hostname)) [
  | inl same ↦ rw same (inl (same_key-eq key hostname same, refl))
  | inr other ↦ rw other (inr (put_address-HasEntry rest hostname ip))
]

put_address-keeps :
    (seen : Addresses) (hostname ip other value : Option Text)
    → other ≢ hostname
    → HasEntry seen hostname ip
    → HasEntry (put_address seen other value) hostname ip
unfolding put_address
put_address-keeps [] hostname ip other value differs h = absurd h
put_address-keeps ((key, old) ∷ rest) hostname ip other value differs (inl h) =
    elim (Bool-cases (same_key key other)) [
      | inl same ↦ absurd (differs (sym (same_key-eq key other same) ∙ h.0))
      | inr distinct ↦ rw distinct (inl h)
    ]
put_address-keeps ((key, old) ∷ rest) hostname ip other value differs (inr h) =
    elim (Bool-cases (same_key key other)) [
      | inl same ↦ rw same (inr h)
      | inr distinct ↦ rw distinct (inr (put_address-keeps rest hostname ip other value differs h))
    ]

allocated_from-keeps :
    (seen : Addresses) (leases : List Lease) (hostname ip : Option Text)
    → All (λ lease. lease.hostname ≢ hostname) leases
    → HasEntry seen hostname ip
    → HasEntry (allocated_from seen leases) hostname ip
unfolding allocated_from
allocated_from-keeps seen [] hostname ip differ h = h
allocated_from-keeps seen (lease ∷ leases) hostname ip differ h =
    allocated_from-keeps (put_address seen lease.hostname lease.ip) leases hostname ip differ.1
      (put_address-keeps seen hostname ip lease.hostname lease.ip differ.0 h)

allocated_from-HasEntry :
    (seen : Addresses) (before after : List Lease) (lease : Lease)
    → All (λ later. later.hostname ≢ lease.hostname) after
    → HasEntry (allocated_from seen (before ++ (lease ∷ after))) lease.hostname lease.ip
unfolding allocated_from
allocated_from-HasEntry seen [] after lease differ =
    allocated_from-keeps (put_address seen lease.hostname lease.ip) after lease.hostname lease.ip
      differ (put_address-HasEntry seen lease.hostname lease.ip)
allocated_from-HasEntry seen (first ∷ before) after lease differ =
    allocated_from-HasEntry (put_address seen first.hostname first.ip) before after lease differ

HasEntry-InUse :
    (addresses : Addresses) (hostname : Option Text) (t : Text)
    → HasEntry addresses hostname (some t)
    → InUse addresses t
HasEntry-InUse [] hostname t h = absurd h
HasEntry-InUse ((key, value) ∷ rest) hostname t (inl h) = inl h.1
HasEntry-InUse ((key, value) ∷ rest) hostname t (inr h) = inr (HasEntry-InUse rest hostname t h)

same_text-InUse :
    (addresses : Addresses) (t u : Text) → t ≡ u → InUse addresses t → InUse addresses u
same_text-InUse addresses t u e used = rw (← e) used

unused_result :
    (ip : Ip) (info : NetworkInfo) (hosts : List ℕ) (found : Option ℕ) (t : Text)
    → InUse info.allocated_ips t
    → FirstFree ip info hosts found
    → address_result ip found ≢ ok t
unused_result ip info hosts none t used first e = cc
unused_result ip info hosts (some a) t used (before, after, split, taken, free) e =
    free.0 (same_text-InUse info.allocated_ips t (ip.show_address a) (ground arith) used)

-- No two VMs share an address through a lease: where the addresses in use are those of the leases
-- that libvirt reported, `allocate_ip_address` never answers with the address of a lease, provided that no
-- later lease has the same host name (two leases without a host name count as the same).
pub allocate_ip_address-avoids_leases :
    {Host : Type 0} (out : Outside Host) (ip : Ip) (cluster_name vm_name : Text) (h h' : Host)
    (info : NetworkInfo) (network : IpNetwork) (before after : List Lease) (lease : Lease)
    (t : Text)
    → get_network_info out ip cluster_name h ≡ (ok info, h')
    → ip.parse_network info.network_range ≡ some network
    → info.allocated_ips ≡ allocated_from [] (before ++ (lease ∷ after))
    → lease.ip ≡ some t
    → All (λ later. later.hostname ≢ lease.hostname) after
    → (allocate_ip_address out ip cluster_name vm_name h).0 ≢ ok t
allocate_ip_address-avoids_leases out ip cluster_name vm_name h h' info network before after lease t
      read parsed leased address differ e =
    let (found, result, first) =
      allocate_ip_address-FirstFree out ip cluster_name vm_name h h' info network read parsed in
    let entry : HasEntry info.allocated_ips lease.hostname (some t) =
      rw leased (rw (← address) (allocated_from-HasEntry [] before after lease differ)) in
    unused_result ip info (ip.hosts network) found t
      (HasEntry-InUse info.allocated_ips lease.hostname t entry) first
      (sym (ap (λ r. r.0) result) ∙ e)
