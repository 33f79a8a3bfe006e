-- ===== src/Problem.antt =====
-- The exceptions that the managers of networks, volumes and clusters tell apart, and their methods on
-- an outside world of which only the calls are known.
use ai_hyperscaler_on_workst.Common.{Bool, true, false}
use ai_hyperscaler_on_workst.Common.Exec.{Exec, Result, ok, err, raise}

pub data Problem : Type 0 where
  libvirt_error connection_error lifecycle_error : Problem
  network_error volume_error state_error hpc_error other_error : Problem

abbrev pub Act : Type 0 → Type 0 → Type 0
Act Host A = Exec Problem Host A

-- Whether a method returns.
abbrev pub returns : {E A : Type 0} → Result E A → Bool
returns (ok a) = true
returns (err e) = false

-- `except Exception as e: raise ...(...) from e`, and also where the same class is raised again.
abbrev pub all_to : {Host A : Type 0} → Problem → Problem → Act Host A
all_to class e = raise class

-- `except libvirt.libvirtError as e: raise ...(...) from e`.
abbrev pub libvirt_to : {Host A : Type 0} → Problem → Problem → Act Host A
libvirt_to class libvirt_error = raise class
libvirt_to class e = raise e

-- `except libvirt.libvirtError: return False`.
abbrev pub false_if_libvirt : {Host : Type 0} → Problem → Act Host Bool
false_if_libvirt libvirt_error h = (ok false, h)
false_if_libvirt e h = (err e, h)
