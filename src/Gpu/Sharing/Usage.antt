-- ===== src/Gpu/Sharing/Usage.antt =====
-- What the usage table of the two validators holds.
use mathlib.Core.List.{append-nil, append_assoc}
use ai_hyperscaler_on_workst.Common.{
  ◌≡◌, refl, sym, ap, Option, none, some, List, [], ◌∷◌, ◌++◌, Bool, false, Text, codes, text_eq,
  text_eq_iff, length, ◌∙◌, Bool-cases, inl, inr, ltb, arith, if◌then◌else◌,
}
use ai_hyperscaler_on_workst.Common.Dict
use ai_hyperscaler_on_workst.Common.Dict.{Dict}
use ai_hyperscaler_on_workst.Config.Nodes.{or_default}
use ai_hyperscaler_on_workst.Gpu.Sharing.{Usage, record_use, record_uses, select, shared_of}

-- The clusters that are recorded for an address.
abbrev pub users : Usage → Text → List Text
users usage a = or_default (Dict.get usage a) []

-- A cluster's name, once for each time the address stands in its list.
pub occurrences : Text → Text → List Text → List Text
occurrences cluster a [] = []
occurrences cluster a (gpu ∷ gpus) =
    (if text_eq gpu a then cluster ∷ [] else []) ++ occurrences cluster a gpus

users-record_use :
    (cluster : Text) (usage : Usage) (gpu a : Text)
    → users (record_use cluster usage gpu) a
      ≡ users usage a ++ (if text_eq gpu a then cluster ∷ [] else [])
unfolding record_use
users-record_use cluster usage gpu a = ground (
  arith,
  Dict.get-put usage gpu a (users usage gpu ++ cluster ∷ []),
  text_eq_iff gpu a,
  append-nil (users usage a),
)

users-record_uses :
    (cluster : Text) (usage : Usage) (gpus : List Text) (a : Text)
    → users (record_uses cluster usage gpus) a ≡ users usage a ++ occurrences cluster a gpus
unfolding record_uses occurrences
users-record_uses cluster usage [] a = sym (append-nil (users usage a))
users-record_uses cluster usage (gpu ∷ gpus) a =
    users-record_uses cluster (record_use cluster usage gpu) gpus a
    ∙ rw (users-record_use cluster usage gpu a) (append_assoc (users usage a) _ _)

record_uses-Distinct :
    (cluster : Text) (usage : Usage) (gpus : List Text)
    → Dict.Distinct usage
    → Dict.Distinct (record_uses cluster usage gpus)
unfolding record_uses record_use
record_uses-Distinct cluster usage [] h = h
record_uses-Distinct cluster usage (gpu ∷ gpus) h =
    record_uses-Distinct cluster (record_use cluster usage gpu) gpus
      (Dict.put-Distinct usage gpu (users usage gpu ++ cluster ∷ []) h)

select-none :
    (p : List Text → Bool) (usage : Usage) (a : Text)
    → Dict.get usage a ≡ none
    → Dict.get (select p usage) a ≡ none
unfolding select Dict.get
select-none p [] a h = refl
select-none p ((k, v) ∷ usage) a h = ground (arith, select-none p usage a)

get-select :
    (p : List Text → Bool) (usage : Usage) (a : Text)
    → Dict.Distinct usage
    → p [] ≡ false
    → Dict.get (select p usage) a ≡ (if p (users usage a) then some (users usage a) else none)
unfolding select Dict.get
get-select p [] a h empty = ground arith
get-select p ((k, v) ∷ usage) a h empty = elim (Bool-cases (text_eq k a)) [
  | inl same ↦ ground (arith, select-none p usage a, h.0, text_eq_iff k a)
  | inr other ↦ ground (arith, get-select p usage a h.1 empty)
]

-- The clusters that list an address, once for each time that they list it, HPC first.
pub clusters_of : (hpc_gpus cloud_gpus : List Text) → Text → List Text
clusters_of hpc_gpus cloud_gpus a =
    occurrences (codes "hpc") a hpc_gpus ++ occurrences (codes "cloud") a cloud_gpus

abbrev report : List Text → Option (List Text)
report clusters = if ltb 1 (length clusters) then some clusters else none

-- An address is reported exactly where the two clusters together list it more than once.
pub get-shared_of :
    (hpc_gpus cloud_gpus : List Text) (a : Text)
    → Dict.get (shared_of hpc_gpus cloud_gpus) a ≡ (
        let clusters = clusters_of hpc_gpus cloud_gpus a in
        if ltb 1 (length clusters) then some clusters else none)
unfolding shared_of clusters_of
get-shared_of hpc_gpus cloud_gpus a =
    let of_hpc = record_uses (codes "hpc") [] hpc_gpus in
    get-select (λ clusters. ltb 1 (length clusters)) (record_uses (codes "cloud") of_hpc cloud_gpus)
      a
      (record_uses-Distinct (codes "cloud") of_hpc cloud_gpus
        (record_uses-Distinct (codes "hpc") [] hpc_gpus tt))
      refl
    ∙ ap report (
        users-record_uses (codes "cloud") of_hpc cloud_gpus a
        ∙ rw (users-record_uses (codes "hpc") [] hpc_gpus a)
            (rw (Dict.get-empty {V = List Text} a) refl))
