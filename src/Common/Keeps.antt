-- ===== src/Common/Keeps.antt =====
-- Methods that leave a view of the state as it is, whether or not they raise.
use mathlib.Core.Path.{◌≡◌, refl, ◌∙◌}
use mathlib.Core.Bool.{Bool, true, false}
use ai_hyperscaler_on_workst.Common.Tests.{if◌then◌else◌}
use ai_hyperscaler_on_workst.Common.Exec.{Exec, pure, raise, gets, try_except, ◌>>=◌}
use ai_hyperscaler_on_workst.Common.Ensures.{
  Ensures, Ensures-weaken, Ensures-pure, Ensures-raise, Ensures-try, Ensures-bind,
}

module _ {E S V : Type 0} (view : S → V) where
  pub record Keeps {A : Type 0} (m : Exec E S A) : Type 0 where
    pub at : (h : S) → Ensures (λ a h'. view h' ≡ view h) (λ e h'. view h' ≡ view h) m h

  pub Keeps-pure : {A : Type 0} (a : A) → Keeps (pure a)
  Keeps-pure a = record { at = λ h. Ensures-pure a h refl }

  pub Keeps-raise : {A : Type 0} (e : E) → Keeps (raise {A = A} e)
  Keeps-raise e = record { at = λ h. Ensures-raise e h refl }

  -- The same, from a state with a given view.
  from :
      {A : Type 0} (m : Exec E S A) (h h' : S)
      → Keeps m
      → view h' ≡ view h
      → Ensures (λ a h''. view h'' ≡ view h) (λ e h''. view h'' ≡ view h) m h'
  from m h h' k e = Ensures-weaken m h' (k.at h') (λ a h'' f. f ∙ e) (λ p h'' f. f ∙ e)

  pub Keeps-bind :
      {A B : Type 0} (m : Exec E S A) (f : A → Exec E S B)
      → Keeps m
      → ((a : A) → Keeps (f a))
      → Keeps (m >>= f)
  Keeps-bind m f km kf = record {
    at = λ h. Ensures-bind m f h (km.at h) (λ a h' e. from (f a) h h' (kf a) e);
  }

  pub Keeps-gets : {A : Type 0} (f : S → A) → Keeps (gets f)
  Keeps-gets f = record { at = λ h. record { at = refl } }

  pub Keeps-if :
      {A : Type 0} (b : Bool) (m n : Exec E S A) → Keeps m → Keeps n → Keeps (if b then m else n)
  Keeps-if true m n km kn = km
  Keeps-if false m n km kn = kn

  pub Keeps-try :
      {A : Type 0} (m : Exec E S A) (handler : E → Exec E S A)
      → Keeps m
      → ((e : E) → Keeps (handler e))
      → Keeps (try_except m handler)
  Keeps-try m handler km kh = record {
    at = λ h. Ensures-try m handler h (km.at h) (λ e h' same. from (handler e) h h' (kh e) same);
  }

  pub ruleset keeps_rules = (Keeps-pure, Keeps-raise, Keeps-bind, Keeps-gets, Keeps-if, Keeps-try)

  -- From a state with a given view.
  pub kept :
      {A : Type 0} (v : V) (m : Exec E S A) (s : S)
      → Keeps m
      → view s ≡ v
      → Ensures (λ a s'. view s' ≡ v) (λ e s'. view s' ≡ v) m s
  kept v m s k same = Ensures-weaken m s (k.at s) (λ a s' e. e ∙ same) (λ p s' e. e ∙ same)
