-- ===== src/Libvirt.antt =====
-- libvirt-python and the clock as an interface, and the part of `LibvirtClient`
-- (python/ai_how/src/ai_how/vm_management/libvirt_client.py) that the lifecycle manager calls.
-- Texts of errors and log lines are not modelled, nor is the lock of the client.
pub mod Clock
pub mod Toy
use ai_hyperscaler_on_workst.Common.{
  ℕ, zero, suc, ◌+◌, ◌*◌, ◌≤◌, ◌^◌, ◌-◌, Option, none, some, Bool, true, false, List, Text,
  if◌then◌else◌,
}
use ai_hyperscaler_on_workst.Common.Exec.{Exec, pure, raise, gets, modify, try_except, ◌>>=◌, ◌>>◌}

-- The outcome of `libvirt.open`: a connection, a `libvirtError`, or `None` and other exceptions.
pub data Opening : Type 0 where
  opened refused broken : Opening

-- One second in the units of the clock.
abbrev pub second : ℕ
second = 1000000

-- Everything outside the program that the client reaches. A Boolean answer is `false` where the
-- library raises `libvirtError`; a domain object is the name under which it was looked up.
pub record Libvirt : Type 1 where
  pub Host : Type 0
  pub open_uri : Host → Opening × Host
  pub is_alive : Host → Bool × Host
  pub lookup_by_name : Text → Host → Bool × Host
  pub domain_state : Text → Host → Option ℕ × Host
  pub create : Text → Host → Bool × Host
  pub shutdown : Text → Host → Bool × Host
  pub destroy : Text → Host → Bool × Host
  pub undefine : Text → Host → Bool × Host
  -- `defineXML`, and the UUID of the new domain
  pub define_xml : Text → Host → Option Text × Host
  -- `time.time()` in microseconds, and `time.sleep` for a number of seconds
  pub time : Host → ℕ × Host
  pub sleep : ℕ → Host → Host
  -- the sources of a domain's file disks, read from its XML; `none` where that raises
  pub file_disks : Text → Host → Option (List Text) × Host
  -- `os.remove` of a path that exists; its errors are swallowed
  pub remove_file : Text → Host → Host

-- The classes of exceptions that the code tells apart.
pub data Failure : Type 0 where
  connection_error libvirt_error lifecycle_error other_error : Failure

module _ (lv : Libvirt) where
  open lv use {Host, open_uri, is_alive, lookup_by_name, domain_state, time, sleep, define_xml}

  -- The client object with the outside world.
  pub record Client : Type 0 where
    pub connected : Bool
    pub host : Host

  abbrev pub Action : Type 0 → Type 0
  Action A = Exec Failure Client A

  -- A call of the library.
  abbrev pub call : {A : Type 0} → (Host → A × Host) → Action A
  call f c = let (a, h) = f c.host in pure a (record c { host = h })

  abbrev pub pause : ℕ → Action Unit
  pause seconds = modify (λ c. record c { host = sleep seconds c.host })

  abbrev pub set_connected : Bool → Action Unit
  set_connected b = modify (λ c. record c { connected = b })

  -- A call that raises `libvirtError` where the answer is `false`.
  abbrev pub checked : (Host → Bool × Host) → Action Unit
  checked f = do answer ← call f; if answer then pure tt else raise libvirt_error

  -- After a refused attempt: pause and try again, unless no attempt is left.
  pub retry : (left delay : ℕ) → Action Unit → Action Unit
  retry zero delay again = raise connection_error
  retry (suc left) delay again = pause delay >> again

  -- The `for` loop of `connect`, with the attempts left and the delay before the next one.
  pub attempt : (left delay : ℕ) → Action Unit
  attempt zero delay = raise connection_error
  attempt (suc left) delay =
      let again = retry left delay (attempt left (2 * delay)) in
      do
        opening ← call open_uri
        elim opening [
          | opened ↦ set_connected true
          | broken ↦ (set_connected false >> raise connection_error)
          | refused ↦ (set_connected false >> again)
        ]

  -- A connection that is alive is used again; otherwise there are three attempts to open one.
  unfoldable pub connect : Action Unit
  unfolding attempt retry
  connect = do
    c ← gets (λ c. c)
    alive ← (if c.connected then call is_alive else pure false)
    if alive then pure tt else attempt 3 1

  unfoldable pub domain_exists : Text → Action Bool
  unfolding connect
  domain_exists name = do connect; call (lookup_by_name name)

  unfoldable pub get_domain : Text → Action Unit
  unfolding connect
  get_domain name = do
    connect
    found ← call (lookup_by_name name)
    if found then pure tt else raise connection_error

  -- The state code; `get_domain` fails, or `domain.state()`.
  unfoldable pub get_domain_state : Text → Action ℕ
  unfolding get_domain
  get_domain_state name = do
    get_domain name
    state ← call (domain_state name)
    elim state [ none ↦ raise connection_error | some n ↦ pure n ]

  -- The UUID of the new domain; a `None` of `defineXML` raises the same exception as an error.
  unfoldable pub define_domain : Text → Action Text
  unfolding connect
  define_domain xml_config = do
    connect
    defined ← call (define_xml xml_config)
    elim defined [ none ↦ raise connection_error | some uuid ↦ pure uuid ]

-- Opens the client, for runs.
unfoldable pub running_client : Unit {0}
unfolding connect domain_exists get_domain get_domain_state define_domain
running_client = tt
