-- ===== src/Models/Vms/Count.antt =====
-- How often a name stands in a list of VMs: what `find`, deletion and update do to it.
use ai_hyperscaler_on_workst.Common.{
  is_some, ℕ, ◌+◌, ◌≤◌, ◌≡◌, refl, none, some, List, [], ◌∷◌, ◌++◌, false, Text, text_eq,
  text_eq_iff, find, inl, inr, Option-cases, arith, if◌then◌else◌,
}
use ai_hyperscaler_on_workst.Models.{VmInfo, ClusterState}
use ai_hyperscaler_on_workst.Models.Vms.{named, get_all_vms, delete_named, update_named}

abbrev pub count : Text → List VmInfo → ℕ
count name [] = 0
count name (vm ∷ vms) = (if named name vm then 1 else 0) + count name vms

pub count-append :
    (name : Text) (xs ys : List VmInfo) → count name (xs ++ ys) ≡ count name xs + count name ys
count-append name [] ys = omega arith
count-append name (x ∷ xs) ys = omega (arith, count-append name xs ys)

pub find-count :
    (name : Text) (vms : List VmInfo) → find (named name) vms ≡ none → count name vms ≡ 0
find-count name [] h = refl
find-count name (vm ∷ vms) h = ground (arith, find-count name vms)

pub count-find :
    (name : Text) (vms : List VmInfo) → count name vms ≡ 0 → find (named name) vms ≡ none
count-find name [] h = refl
count-find name (vm ∷ vms) h = ground (arith, count-find name vms)

pub find-named :
    (name : Text) (vms : List VmInfo) (vm : VmInfo)
    → find (named name) vms ≡ some vm
    → vm.name ≡ name
find-named name [] vm h = ground arith
find-named name (v ∷ vms) vm h = ground (arith, find-named name vms vm, text_eq_iff v.name name)

-- Deletion fails exactly where there is nothing to find.
pub delete_named-none :
    (name : Text) (vms : List VmInfo) → delete_named name vms ≡ none → find (named name) vms ≡ none
unfolding delete_named
delete_named-none name [] h = refl
delete_named-none name (vm ∷ vms) h = ground (arith, delete_named-none name vms)

pub find-delete_named :
    (name : Text) (vms left : List VmInfo) (j : Text)
    → delete_named name vms ≡ some left
    → text_eq name j ≡ false
    → find (named j) left ≡ find (named j) vms
unfolding delete_named
find-delete_named name [] left j h ne = ground arith
find-delete_named name (vm ∷ vms) left j h ne = elim (Option-cases (delete_named name vms)) [
  | inl e ↦ ground (arith, text_eq_iff vm.name name, text_eq_iff vm.name j, text_eq_iff name j)
  | inr (l, e) ↦ ground (
    arith,
    find-delete_named name vms l j e ne,
    text_eq_iff vm.name name,
    text_eq_iff vm.name j,
    text_eq_iff name j,
  )
]

pub count-delete_named :
    (name : Text) (vms left : List VmInfo) (j : Text)
    → delete_named name vms ≡ some left
    → count j left + (if text_eq name j then 1 else 0) ≡ count j vms
unfolding delete_named
count-delete_named name [] left j h = ground arith
count-delete_named name (vm ∷ vms) left j h = elim (Option-cases (delete_named name vms)) [
  | inl e ↦ ground (arith, text_eq_iff vm.name name, text_eq_iff vm.name j, text_eq_iff name j)
  | inr (l, e) ↦ ground (
    arith,
    count-delete_named name vms l j e,
    text_eq_iff vm.name name,
    text_eq_iff vm.name j,
    text_eq_iff name j,
  )
]

module _ (f : VmInfo → VmInfo) (keeps : (vm : VmInfo) → (f vm).name ≡ vm.name) (name : Text) where
  pub count-update_named :
      (j : Text) (vms : List VmInfo) → count j (update_named f name vms) ≡ count j vms
  unfolding update_named
  count-update_named j [] = refl
  count-update_named j (vm ∷ vms) = ground (arith, count-update_named j vms, keeps vm)

  pub find-update_named_self :
      (vms : List VmInfo) (vm : VmInfo)
      → find (named name) vms ≡ some vm
      → find (named name) (update_named f name vms) ≡ some (f vm)
  unfolding update_named
  find-update_named_self [] vm h = ground arith
  find-update_named_self (v ∷ vms) vm h = ground (arith, find-update_named_self vms vm, keeps v)

  pub find-update_named_ne :
      (j : Text) (vms : List VmInfo)
      → text_eq name j ≡ false
      → find (named j) (update_named f name vms) ≡ find (named j) vms
  unfolding update_named
  find-update_named_ne j [] ne = refl
  find-update_named_ne j (v ∷ vms) ne = ground (
    arith,
    find-update_named_ne j vms,
    keeps v,
    text_eq_iff v.name name,
    text_eq_iff v.name j,
    text_eq_iff name j,
  )

-- Replacing the first VM of a name.
pub find-replaced :
    (vm : VmInfo) (j : Text) (vms : List VmInfo)
    → find (named j) (update_named (λ _. vm) vm.name vms) ≡ (
        if text_eq vm.name j
        then (if is_some (find (named j) vms) then some vm else none)
        else find (named j) vms)
unfolding update_named
find-replaced vm j [] = ground arith
find-replaced vm j (v ∷ vms) = ground (
  arith,
  find-replaced vm j vms,
  text_eq_iff v.name vm.name,
  text_eq_iff v.name j,
  text_eq_iff vm.name j,
)

-- No name stands twice in the cluster.
abbrev pub IsUnique : ClusterState → Type 0
IsUnique s = (name : Text) → count name (get_all_vms s) ≤ 1
