-- ===== src/Lifecycle/Wait.antt =====
-- The wait loops of `VMLifecycleManager` and the number of rounds that the model gives them.
use native.Mathlib.Numerals.{add-one}
use ai_hyperscaler_on_workst.Common.{
  ◌<◌, ℕ, zero, suc, ◌+◌, ◌*◌, ◌≤◌, ◌≡◌, Bool, true, false, Text, arith,
}
use ai_hyperscaler_on_workst.Common.Exec.{◌>>=◌}
use ai_hyperscaler_on_workst.Libvirt.{Libvirt, Client, Action, call, second}
use ai_hyperscaler_on_workst.Libvirt.Clock.{Forward, get_domain_state-Grows}
use ai_hyperscaler_on_workst.Lifecycle.{
  poll, wait_until, is_running_code, wait_for_vm_boot, is_stopped_code, wait_for_vm_shutdown,
}

module _ {lv : Libvirt} (fw : Forward lv) (vm_name : Text) (ends : ℕ → Bool) (on_error : Bool) where
  open fw use {clock}

  poll-Grows : (c : Client lv) → clock c.host ≤ clock (poll lv vm_name ends on_error c).1.host
  unfolding poll
  poll-Grows c = ground (arith, (get_domain_state-Grows fw vm_name).at c)

  -- The client after the reading of the clock that begins a round.
  abbrev read : Client lv → Client lv
  read c = record c { host = (lv.time c.host).1 }

  -- The client after a whole round that does not end the wait.
  abbrev round : Client lv → Client lv
  round c =
      let polled = (poll lv vm_name ends on_error (read c)).1 in
      record polled { host = lv.sleep 2 polled.host }

  round-later : (c : Client lv) → clock c.host + 2 * second ≤ clock (round c).host
  round-later c = omega (
    arith,
    fw.time_grows c.host,
    poll-Grows (read c),
    fw.sleep_grows 2 (poll lv vm_name ends on_error (read c)).1.host,
  )

  -- With `rounds + 1` rounds, enough for the time to the deadline, more rounds change nothing.
  wait_until-stable :
      (rounds more deadline : ℕ) (c : Client lv)
      → deadline ≤ clock c.host + rounds * (2 * second)
      → rounds ≤ more
      → wait_until lv (suc rounds) deadline vm_name ends on_error c
        ≡ wait_until lv (suc more) deadline vm_name ends on_error c
  unfolding wait_until
  wait_until-stable zero more deadline c h le =
      ground (arith, fw.reads c.host, fw.time_grows c.host)
  wait_until-stable (suc rounds) zero deadline c h le = absurd (omega arith)
  wait_until-stable (suc rounds) (suc more) deadline c h le =
      ground (arith, round-later c, wait_until-stable rounds more deadline (round c))

-- The wait for a boot with another number of rounds.
abbrev pub boot_with_rounds : (lv : Libvirt) (rounds : ℕ) → Text → (timeout : ℕ) → Action lv Bool
boot_with_rounds lv rounds vm_name timeout = do
  start_time ← call lv lv.time
  wait_until lv rounds (start_time + timeout * second) vm_name is_running_code false

abbrev pub shutdown_with_rounds :
    (lv : Libvirt) (rounds : ℕ) → Text → (timeout : ℕ) → Action lv Bool
shutdown_with_rounds lv rounds vm_name timeout = do
  start_time ← call lv lv.time
  wait_until lv rounds (start_time + timeout * second) vm_name is_stopped_code true

-- Where the clock does not go back and `sleep` takes its time, both wait loops end by their own test
-- within `timeout + 1` rounds: from any state, a larger number of rounds gives the same result and
-- the same final state.
pub wait_loops_end :
    (lv : Libvirt)
    → Forward lv
    → (vm_name : Text) (timeout rounds : ℕ) (c : Client lv) → timeout < rounds
    → (wait_for_vm_boot lv vm_name timeout c ≡ boot_with_rounds lv rounds vm_name timeout c)
      × (wait_for_vm_shutdown lv vm_name timeout c
          ≡ shutdown_with_rounds lv rounds vm_name timeout c)
unfolding wait_for_vm_boot wait_for_vm_shutdown
wait_loops_end lv fw vm_name timeout zero c h = absurd (omega arith)
wait_loops_end lv fw vm_name timeout (suc rounds) c h =
    let c' : Client lv = record c { host = (lv.time c.host).1 } in
    let deadline = (lv.time c.host).0 + timeout * second in
    let enough : deadline ≤ fw.clock c'.host + timeout * (2 * second) =
      omega (arith, fw.reads c.host) in
    (
      rw add-one (
          wait_until-stable fw vm_name is_running_code false timeout rounds deadline c' enough
            (omega arith)),
      rw add-one (
          wait_until-stable fw vm_name is_stopped_code true timeout rounds deadline c' enough
            (omega arith)),
    )
