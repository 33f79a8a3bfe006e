-- ===== src/Gpu/Allocator.antt =====
-- python/ai_how/src/ai_how/resource_management/gpu_allocator.py: `GPUResourceAllocator`. Its object
-- holds only the path of the state file, so the state is that file.
pub mod Laws
pub mod Batch
mod Tests
use ai_hyperscaler_on_workst.Common.{
  Option, none, some, List, [], ◌∷◌, ◌++◌, Bool, true, false, Text, codes, text_eq, not,
  if◌then◌else◌, ◌&&◌,
}
use ai_hyperscaler_on_workst.Common.Dict
use ai_hyperscaler_on_workst.Common.Dict.{Dict}
use ai_hyperscaler_on_workst.Common.Exec.{Exec, ok, err, pure, raise, ◌>>=◌, ◌>>◌}

pub record GlobalState : Type 0 where
  pub gpu_allocations : Dict Text
  pub last_updated : Text

-- `unreadable` is a file that cannot be read as JSON, or that lacks one of the keys the code reads.
pub data StateFile : Type 0 where
  missing unreadable : StateFile
  holds : GlobalState → StateFile

-- An exception that the allocator lets through.
pub data Fault : Type 0 where
  unreadable_state write_failed : Fault

-- How a write of the state file ends. `refused` raises before the file is opened; `cut_short` raises after
-- that, when the file is truncated and what is in it is no JSON.
pub data Write : Type 0 where
  written refused cut_short : Write

abbrev pub Action : Type 0 → Type 0
Action A = Exec Fault StateFile A

abbrev pub empty_state : GlobalState
empty_state = record { gpu_allocations = []; last_updated = [] }

unfoldable pub read_global_state : Action GlobalState
read_global_state missing = pure empty_state missing
read_global_state unreadable = raise unreadable_state unreadable
read_global_state (holds g) = pure g (holds g)

-- The state after a change to the table, with `_update_timestamp`.
abbrev pub stamped : Text → Dict Text → GlobalState
stamped now allocations = record { gpu_allocations = allocations; last_updated = now }

abbrev pub write_global_state : Write → GlobalState → Action Unit
write_global_state written g f = (ok tt, holds g)
write_global_state refused g f = (err write_failed, f)
write_global_state cut_short g f = (err write_failed, unreadable)

-- `__init__` with `_ensure_global_state_file`
unfoldable pub open_allocator : Write → Action Unit
open_allocator io missing = write_global_state io empty_state missing
open_allocator io unreadable = pure tt unreadable
open_allocator io (holds g) = pure tt (holds g)

unfoldable pub allocate_gpu : Write → (now pci_address owner : Text) → Action Bool
unfolding read_global_state
allocate_gpu io now pci_address owner = do
  state ← read_global_state
  let allocated = stamped now (Dict.put state.gpu_allocations pci_address owner)
  elim (Dict.get state.gpu_allocations pci_address) [
    | none ↦ (write_global_state io allocated >> pure true)
    | some current ↦
        if not (text_eq current owner)
        then pure false
        else (write_global_state io allocated >> pure true)
  ]

unfoldable pub release_gpu : Write → (now pci_address : Text) → Action Bool
unfolding read_global_state
release_gpu io now pci_address = do
  state ← read_global_state
  elim (Dict.get state.gpu_allocations pci_address) [
    | none ↦ pure false
    | some old_owner ↦ do
      write_global_state io (stamped now (Dict.pop state.gpu_allocations pci_address))
      pure true
  ]

unfoldable pub get_gpu_owner : Text → Action (Option Text)
unfolding read_global_state
get_gpu_owner pci_address = do
  state ← read_global_state
  pure (Dict.get state.gpu_allocations pci_address)

unfoldable pub is_gpu_available : (pci_address requesting_owner : Text) → Action Bool
unfolding read_global_state
is_gpu_available pci_address requesting_owner = do
  state ← read_global_state
  elim (Dict.get state.gpu_allocations pci_address) [
    | none ↦ pure true
    | some current_owner ↦ pure (text_eq current_owner requesting_owner)
  ]

conflict_message : (pci_address current_owner : Text) → Text
conflict_message pci_address current_owner =
    codes "GPU "
    ++ (pci_address ++ (codes " is currently allocated to '" ++ (current_owner ++ codes "'")))

-- The `for` loop of `validate_gpu_availability`.
pub first_conflict : Dict Text → Text → List Text → Bool × Option Text
first_conflict allocations requesting_owner [] = (true, none)
first_conflict allocations requesting_owner (pci_address ∷ required) =
    let rest = first_conflict allocations requesting_owner required in
    elim (Dict.get allocations pci_address) [
      | none ↦ rest
      | some current_owner ↦
          if not (text_eq current_owner requesting_owner)
          then (false, some (conflict_message pci_address current_owner))
          else rest
    ]

unfoldable pub validate_gpu_availability : List Text → Text → Action (Bool × Option Text)
unfolding read_global_state first_conflict conflict_message
validate_gpu_availability [] requesting_owner = pure (true, none)
validate_gpu_availability (pci_address ∷ required) requesting_owner = do
  state ← read_global_state
  pure (first_conflict state.gpu_allocations requesting_owner (pci_address ∷ required))

-- Opens the allocator, for runs.
unfoldable pub running_allocator : Unit {0}
unfolding allocate_gpu release_gpu get_gpu_owner is_gpu_available validate_gpu_availability
    open_allocator Dict.get Dict.put Dict.pop text_eq
running_allocator = tt
