-- ===== src/Common/Dict.antt =====
-- Python's `dict` with text keys, as an association list in insertion order.
use mathlib.Core.Path.{◌≡◌, refl}
use mathlib.Core.Logic.{inl, inr}
use mathlib.Core.Bool.{Bool}
use mathlib.Core.Option.{Option, none, some}
use mathlib.Core.List.{List, [], ◌∷◌}
use native.Mathlib.Omega.{arith}
use ai_hyperscaler_on_workst.Common.Tests.{Bool-cases, if◌then◌else◌, is_some}
use ai_hyperscaler_on_workst.Common.Strings.{Text, text_eq, text_eq_iff}

abbrev pub Dict {ℓ} : Type ℓ → Type ℓ
Dict V = List (Text × V)

module _ {ℓ} {V : Type ℓ} where
  -- `d.get(k)`
  unfoldable pub get : Dict V → Text → Option V
  get [] k = none
  get ((j, v) ∷ d) k = if text_eq j k then some v else get d k

  -- `d[k] = v`: a new key goes to the end.
  unfoldable pub put : Dict V → Text → V → Dict V
  put [] k v = (k, v) ∷ []
  put ((j, w) ∷ d) k v = if text_eq j k then (j, v) ∷ d else (j, w) ∷ put d k v

  -- `d.pop(k, None)`, the dictionary that is left. Keys are unique, so every entry under `k` goes.
  unfoldable pub pop : Dict V → Text → Dict V
  pop [] k = []
  pop ((j, w) ∷ d) k = let rest = pop d k in if text_eq j k then rest else (j, w) ∷ rest

  -- `k in d`
  unfoldable pub has : Dict V → Text → Bool
  unfolding get
  has d k = is_some (get d k)

  pub get-empty : (k : Text) → get [] k ≡ none
  unfolding get
  get-empty k = refl

  pub get-put :
      (d : Dict V) (k j : Text) (v : V)
      → get (put d k v) j ≡ (if text_eq k j then some v else get d j)
  unfolding get put
  get-put [] k j v = refl
  get-put ((i, w) ∷ d) k j v =
      ground (arith, text_eq_iff i k, text_eq_iff i j, text_eq_iff k j, get-put d k j v)

  pub get-pop :
      (d : Dict V) (k j : Text) → get (pop d k) j ≡ (if text_eq k j then none else get d j)
  unfolding get pop
  get-pop [] k j = ground arith
  get-pop ((i, w) ∷ d) k j =
      ground (arith, text_eq_iff i k, text_eq_iff i j, text_eq_iff k j, get-pop d k j)

  -- No key stands twice, as in every Python dictionary.
  abbrev pub Distinct : Dict V → Type ℓ
  Distinct [] = Unit
  Distinct ((k, v) ∷ d) = (get d k ≡ none) × Distinct d

  pub put-Distinct : (d : Dict V) (k : Text) (v : V) → Distinct d → Distinct (put d k v)
  unfolding put
  put-Distinct [] k v h = (get-empty k, tt)
  put-Distinct ((j, w) ∷ d) k v h = elim (Bool-cases (text_eq j k)) [
    | inl same ↦ rw same h
    | inr other ↦ rw other (
      rw (get-put d k j v) (ground (arith, text_eq_iff j k, text_eq_iff k j, h.0)),
      put-Distinct d k v h.1,
    )
  ]
