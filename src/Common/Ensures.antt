-- ===== src/Common/Ensures.antt =====
-- What a method ensures of its result and of the state after it, with rules for the ways in which
-- methods are put together.
use mathlib.Core.Path.{◌≡◌, refl}
use mathlib.Core.Bool.{Bool, true, false}
use ai_hyperscaler_on_workst.Common.Tests.{if◌then◌else◌}
use ai_hyperscaler_on_workst.Common.Exec.{
  Result, ok, err, Exec, pure, raise, gets, try_except, and_then, ◌>>=◌,
}

module _ {E S A : Type 0} where
  abbrev pub Post : (A → S → Type 0) → (E → S → Type 0) → Result E A × S → Type 0
  Post P Q (ok a, s) = P a s
  Post P Q (err e, s) = Q e s

  -- `m` from `s` returns as `P` says, or raises as `Q` says.
  pub record Ensures (P : A → S → Type 0) (Q : E → S → Type 0) (m : Exec E S A) (s : S)
      : Type 0 where
    pub at : Post P Q (m s)

  pub Ensures-pure :
      {P : A → S → Type 0} {Q : E → S → Type 0} (a : A) (s : S) → P a s → Ensures P Q (pure a) s
  Ensures-pure a s h = record { at = h }

  pub Ensures-raise :
      {P : A → S → Type 0} {Q : E → S → Type 0} (e : E) (s : S) → Q e s → Ensures P Q (raise e) s
  Ensures-raise e s h = record { at = h }

  weaken :
      {P R : A → S → Type 0} {Q T : E → S → Type 0} (x : Result E A × S)
      → Post P Q x
      → ((a : A) (s : S) → P a s → R a s)
      → ((e : E) (s : S) → Q e s → T e s)
      → Post R T x
  weaken (ok a, s) h f g = f a s h
  weaken (err e, s) h f g = g e s h

  pub Ensures-weaken :
      {P R : A → S → Type 0} {Q T : E → S → Type 0} (m : Exec E S A) (s : S)
      → Ensures P Q m s
      → ((a : A) (s' : S) → P a s' → R a s')
      → ((e : E) (s' : S) → Q e s' → T e s')
      → Ensures R T m s
  Ensures-weaken m s h f g = record { at = weaken (m s) h.at f g }

  together :
      (P R : A → S → Type 0) (Q T : E → S → Type 0) (x : Result E A × S)
      → Post P Q x
      → Post R T x
      → Post (λ a s. P a s × R a s) (λ e s. Q e s × T e s) x
  together P R Q T (ok a, s) h g = (h, g)
  together P R Q T (err e, s) h g = (h, g)

  pub Ensures-both :
      {P R : A → S → Type 0} {Q T : E → S → Type 0} (m : Exec E S A) (s : S)
      → Ensures P Q m s
      → Ensures R T m s
      → Ensures (λ a s'. P a s' × R a s') (λ e s'. Q e s' × T e s') m s
  Ensures-both {P} {R} {Q} {T} m s h g = record { at = together P R Q T (m s) h.at g.at }

  anything : (x : Result E A × S) → Post (λ a s. Unit {0}) (λ e s. Unit {0}) x
  anything (ok a, s) = tt
  anything (err e, s) = tt

  pub Ensures-any : (m : Exec E S A) (s : S) → Ensures (λ a s. Unit {0}) (λ e s. Unit {0}) m s
  Ensures-any m s = record { at = anything (m s) }

  handled :
      {P : A → S → Type 0} {Q T : E → S → Type 0} (x : Result E A × S) (handler : E → Exec E S A)
      → Post P Q x
      → ((e : E) (s : S) → Q e s → Ensures P T (handler e) s)
      → Post P T (elim x.0 [ ok a ↦ (ok a, x.1) | err e ↦ handler e x.1 ])
  handled (ok a, s) handler h f = h
  handled (err e, s) handler h f = (f e s h).at

  pub Ensures-try :
      {P : A → S → Type 0} {Q T : E → S → Type 0} (m : Exec E S A) (handler : E → Exec E S A)
      (s : S)
      → Ensures P Q m s
      → ((e : E) (s' : S) → Q e s' → Ensures P T (handler e) s')
      → Ensures P T (try_except m handler) s
  Ensures-try m handler s h f = record { at = handled (m s) handler h.at f }

  pub Ensures-if :
      {P : A → S → Type 0} {Q : E → S → Type 0} (b : Bool) (m n : Exec E S A) (s : S)
      → (b ≡ true → Ensures P Q m s)
      → (b ≡ false → Ensures P Q n s)
      → Ensures P Q (if b then m else n) s
  Ensures-if true m n s f g = f refl
  Ensures-if false m n s f g = g refl

module _ {E S A B : Type 0} where
  bound :
      {P : A → S → Type 0} {R : B → S → Type 0} {Q : E → S → Type 0} (x : Result E A × S)
      (f : A → Exec E S B)
      → Post P Q x
      → ((a : A) (s : S) → P a s → Ensures R Q (f a) s)
      → Post R Q (and_then x.0 f x.1)
  bound (ok a, s) f h g = (g a s h).at
  bound (err e, s) f h g = h

  pub Ensures-bind :
      {P : A → S → Type 0} {R : B → S → Type 0} {Q : E → S → Type 0} (m : Exec E S A)
      (f : A → Exec E S B) (s : S)
      → Ensures P Q m s
      → ((a : A) (s' : S) → P a s' → Ensures R Q (f a) s')
      → Ensures R Q (m >>= f) s
  Ensures-bind m f s h g = record { at = bound (m s) f h.at g }

  -- `gets f` before the rest.
  pub Ensures-gets :
      {R : B → S → Type 0} {Q : E → S → Type 0} (g : S → A) (f : A → Exec E S B) (s : S)
      → ((a : A) → a ≡ g s → Ensures R Q (f a) s)
      → Ensures R Q (gets g >>= f) s
  Ensures-gets g f s h = record { at = (h (g s) refl).at }
