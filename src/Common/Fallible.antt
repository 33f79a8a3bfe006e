-- ===== src/Common/Fallible.antt =====
-- Python functions that may raise and change nothing.
use mathlib.Core.List.{List, [], ◌∷◌}
use ai_hyperscaler_on_workst.Common.Exec.{Result, ok, err}

module _ {E A B : Type 0} where
  infixl 5 ◌>>=◌ ◌>>◌
  abbrev pub ◌>>=◌ : Result E A → (A → Result E B) → Result E B
  ok a >>= f = f a
  err e >>= f = err e

  abbrev pub ◌>>◌ : Result E A → Result E B → Result E B
  m >> n = m >>= λ _. n

  -- `[f(x) for x in xs]`, where `f` may raise.
  abbrev pub for_each : (A → Result E B) → List A → Result E (List B)
  for_each f [] = ok []
  for_each f (x ∷ xs) = elim (f x) [
    | err e ↦ err e
    | ok y ↦ elim (for_each f xs) [ err e ↦ err e | ok ys ↦ ok (y ∷ ys) ]
  ]
