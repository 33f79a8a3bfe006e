-- ===== src/Libvirt/Toy.antt =====
-- A small hypervisor with one domain, at which the interface's laws hold: for tests.
use ai_hyperscaler_on_workst.Common.{
  ℕ, ◌+◌, ◌*◌, none, some, Bool, true, false, arith, if◌then◌else◌,
}
use ai_hyperscaler_on_workst.Libvirt.{Libvirt, opened, Client, second}
use ai_hyperscaler_on_workst.Libvirt.Clock.{Forward}

-- The clock, the state of the domain, and whether `create` works.
pub record Machine : Type 0 where
  pub clock : ℕ
  pub state : ℕ
  pub can_create : Bool

abbrev pub toy : Libvirt
toy = record {
  Host = Machine;
  open_uri = λ h. (opened, h);
  is_alive = λ h. (true, h);
  lookup_by_name = λ name h. (true, h);
  domain_state = λ name h. (some h.state, h);
  create = λ name h. if h.can_create then (true, record h { state = 1 }) else (false, h);
  shutdown = λ name h. (true, record h { state = 5 });
  destroy = λ name h. (true, record h { state = 5 });
  undefine = λ name h. (true, h);
  define_xml = λ xml h. (none, h);
  time = λ h. (h.clock, h);
  sleep = λ n h. record h { clock = h.clock + n * second };
  file_disks = λ name h. (none, h);
  remove_file = λ path h. h;
}

pub toy-Forward : Forward toy
toy-Forward = record {
  clock = λ h. h.clock;
  reads = λ h. omega arith;
  time_grows = λ h. omega arith;
  sleep_grows = λ n h. omega arith;
  open_grows = λ h. omega arith;
  alive_grows = λ h. omega arith;
  lookup_grows = λ name h. omega arith;
  state_grows = λ name h. omega arith;
}

-- A client of a machine whose domain has the given state.
abbrev pub client_at : (state : ℕ) (can_create : Bool) → Client toy
client_at state can_create = record {
  connected = true;
  host = record { clock = 0; state = state; can_create = can_create };
}
