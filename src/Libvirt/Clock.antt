-- ===== src/Libvirt/Clock.antt =====
-- The clock of the outside world, and the calls of the client.
use ai_hyperscaler_on_workst.Common.{
  ℕ, zero, suc, ◌+◌, ◌*◌, ◌≤◌, ◌≡◌, Option, none, some, Bool, true, false, Text, arith,
  if◌then◌else◌,
}
use ai_hyperscaler_on_workst.Common.Exec.{
  Result, ok, err, pure, raise, gets, try_except, and_then, ◌>>=◌, ◌>>◌,
}
use ai_hyperscaler_on_workst.Libvirt.{
  second, Libvirt, Opening, Failure, connection_error, Client, Action, call, pause, set_connected,
  attempt, retry, connect, get_domain, get_domain_state,
}

-- The clock never goes back, a reading is the clock's value, and `sleep` takes its time: what the
-- code relies on in `time.time` and `time.sleep`.
pub record Forward (lv : Libvirt) : Type 0 where
  pub clock : lv.Host → ℕ
  pub reads : (h : lv.Host) → (lv.time h).0 ≡ clock (lv.time h).1
  pub time_grows : (h : lv.Host) → clock h ≤ clock (lv.time h).1
  pub sleep_grows : (n : ℕ) (h : lv.Host) → clock h + n * second ≤ clock (lv.sleep n h)
  pub open_grows : (h : lv.Host) → clock h ≤ clock (lv.open_uri h).1
  pub alive_grows : (h : lv.Host) → clock h ≤ clock (lv.is_alive h).1
  pub lookup_grows : (name : Text) (h : lv.Host) → clock h ≤ clock (lv.lookup_by_name name h).1
  pub state_grows : (name : Text) (h : lv.Host) → clock h ≤ clock (lv.domain_state name h).1

module _ {lv : Libvirt} (fw : Forward lv) where
  open fw use {clock}

  -- The clock does not go back during an action.
  pub record Grows {A : Type 0} (m : Action lv A) : Type 0 where
    pub at : (c : Client lv) → clock c.host ≤ clock (m c).1.host

  module _ {A : Type 0} where
    pub Grows-pure : (a : A) → Grows (pure a)
    Grows-pure a = record { at = λ c. omega arith }

    pub Grows-raise : (e : Failure) → Grows (raise {A = A} e)
    Grows-raise e = record { at = λ c. omega arith }

    pub Grows-call :
        (f : lv.Host → A × lv.Host) → ((h : lv.Host) → clock h ≤ clock (f h).1) → Grows (call lv f)
    Grows-call f h = record { at = λ c. h c.host }

  and_then-Grows :
      {A B : Type 0} (r : Result Failure A) (f : A → Action lv B) (c c' : Client lv)
      → clock c.host ≤ clock c'.host
      → ((a : A) → Grows (f a))
      → clock c.host ≤ clock (and_then r f c').1.host
  and_then-Grows (ok a) f c c' h g = omega (arith, (g a).at c')
  and_then-Grows (err e) f c c' h g = h

  pub Grows-bind :
      {A B : Type 0} (m : Action lv A) (f : A → Action lv B)
      → Grows m
      → ((a : A) → Grows (f a))
      → Grows (m >>= f)
  Grows-bind m f gm gf = record { at = λ c. and_then-Grows (m c).0 f c (m c).1 (gm.at c) gf }

  try_except-Grows :
      {A : Type 0} (r : Result Failure A) (handler : Failure → Action lv A) (c c' : Client lv)
      → clock c.host ≤ clock c'.host
      → ((e : Failure) → Grows (handler e))
      → clock c.host ≤ clock (try_except (λ _. (r, c')) handler c).1.host
  try_except-Grows (ok a) handler c c' h g = h
  try_except-Grows (err e) handler c c' h g = omega (arith, (g e).at c')

  pub Grows-if :
      {A : Type 0} (b : Bool) (m n : Action lv A) → Grows m → Grows n → Grows (if b then m else n)
  Grows-if true m n gm gn = gm
  Grows-if false m n gm gn = gn

  pub Grows-set_connected : (b : Bool) → Grows (set_connected lv b)
  Grows-set_connected b = record { at = λ c. omega arith }

  pub Grows-gets : {A : Type 0} (f : Client lv → A) → Grows (gets f)
  Grows-gets f = record { at = λ c. omega arith }

  pub Grows-pause : (n : ℕ) → Grows (pause lv n)
  Grows-pause n = record { at = λ c. omega (arith, fw.sleep_grows n c.host) }

  pub ruleset grows_rules = (
    Grows-pure, Grows-raise, Grows-call, Grows-bind, Grows-if, Grows-set_connected, Grows-gets,
    Grows-pause,
  )

  retry-Grows :
      (left delay : ℕ) (again : Action lv Unit) → Grows again → Grows (retry lv left delay again)
  unfolding retry
  retry-Grows zero delay again g = search grows_rules
  retry-Grows (suc left) delay again g = search grows_rules

  opening-Grows :
      (opening : Opening) (again : Action lv Unit)
      → Grows again
      → Grows {A = Unit} (elim opening [
        | Opening.opened ↦ set_connected lv true
        | Opening.broken ↦ (set_connected lv false >> raise connection_error)
        | Opening.refused ↦ (set_connected lv false >> again)
      ])
  opening-Grows Opening.opened again g = search grows_rules
  opening-Grows Opening.refused again g = search grows_rules
  opening-Grows Opening.broken again g = search grows_rules

  attempt-Grows : (left delay : ℕ) → Grows (attempt lv left delay)
  unfolding attempt
  attempt-Grows zero delay = search grows_rules
  attempt-Grows (suc left) delay =
      Grows-bind (call lv lv.open_uri) _ (Grows-call _ fw.open_grows) λ opening.
        opening-Grows opening _ (retry-Grows left delay _ (attempt-Grows left (2 * delay)))

  connect-Grows : Grows (connect lv)
  unfolding connect
  connect-Grows = search (grows_rules, attempt-Grows, fw.alive_grows)

  get_domain-Grows : (name : Text) → Grows (get_domain lv name)
  unfolding get_domain
  get_domain-Grows name = search (grows_rules, connect-Grows, fw.lookup_grows)

  state-Grows :
      (state : Option ℕ)
      → Grows {A = ℕ} (elim state [ none ↦ raise connection_error | some n ↦ pure n ])
  state-Grows none = search grows_rules
  state-Grows (some n) = search grows_rules

  pub get_domain_state-Grows : (name : Text) → Grows (get_domain_state lv name)
  unfolding get_domain_state
  get_domain_state-Grows name = search (grows_rules, get_domain-Grows, fw.state_grows, state-Grows)
