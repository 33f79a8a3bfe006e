-- ===== src/State/Codec.antt =====
-- python/ai_how/src/ai_how/state/models.py: the methods `to_dict` and `from_dict`. `from_dict` is
-- `refused` where it raises, and also where it would build an object with a field of another type
-- than the declared one, which the code does not check everywhere.
pub mod Storage
pub mod Vms
pub mod Cluster
pub mod RoundTrip
use ai_hyperscaler_on_workst.Common.{
  ℕ, Option, none, some, List, [], ◌∷◌, Bool, true, false, Text, codes, text_eq, not, any,
  if◌then◌else◌, or_else, ◌&&◌,
}
use ai_hyperscaler_on_workst.Common.Dict.{Dict}
use ai_hyperscaler_on_workst.Common.Int.{ℤ, pos}
use ai_hyperscaler_on_workst.Common.Exec.{Result, ok, err}
use ai_hyperscaler_on_workst.Common.Fallible.{◌>>=◌, ◌>>◌}
use ai_hyperscaler_on_workst.Config.Nodes.{or_default}
use ai_hyperscaler_on_workst.Models.{
  VmState, undefined, running, blocked, paused, shutdown, shutoff, crashed, pmsuspended, error,
  VolumeInfo, StoragePoolInfo, NetworkConfig, VmInfo, ClusterState,
}
use ai_hyperscaler_on_workst.State.Json.{
  Value, null, boolean, integer, float, text, list, object, Values, end, item, Fields, no_entry,
  field, value_at, without, only_keys, true_at,
}

-- `datetime.isoformat` and `datetime.fromisoformat`, and `str(Path(text))`.
pub record Formats : Type 0 where
  pub isoformat : ℕ → Text
  pub fromisoformat : Text → Option ℕ
  pub path_text : Text → Text

pub data Refusal : Type 0 where
  refused : Refusal

abbrev pub Decoded : Type 0 → Type 0
Decoded A = Result Refusal A

abbrev pub require : {A : Type 0} → Option A → Decoded A
require none = err refused
require (some a) = ok a

-- The values of the enumeration.
unfoldable pub state_value : VmState → Text
state_value undefined = codes "undefined"
state_value running = codes "running"
state_value blocked = codes "blocked"
state_value paused = codes "paused"
state_value shutdown = codes "shutdown"
state_value shutoff = codes "shutoff"
state_value crashed = codes "crashed"
state_value pmsuspended = codes "pmsuspended"
state_value error = codes "error"

-- The first state of the list with the given value: `VMState(value)`.
unfoldable pub state_among : List VmState → Text → Option VmState
state_among [] t = none
state_among (s ∷ states) t = if text_eq (state_value s) t then some s else state_among states t

abbrev pub vm_states : List VmState
vm_states =
    undefined ∷ running ∷ blocked ∷ paused ∷ shutdown ∷ shutoff ∷ crashed ∷ pmsuspended ∷ error ∷ []

-- Values of the declared types.
abbrev pub as_text : Option Value → Decoded Text
as_text (some (text t)) = ok t
as_text _ = err refused

-- A key that may be missing or null.
abbrev pub as_optional_text : Option Value → Decoded (Option Text)
as_optional_text none = ok none
as_optional_text (some null) = ok none
as_optional_text (some (text t)) = ok (some t)
as_optional_text _ = err refused

abbrev pub as_natural : Option Value → Decoded ℕ
as_natural (some (integer (pos n))) = ok n
as_natural _ = err refused

abbrev pub as_float : Option Value → Decoded ℕ
as_float (some (float bits)) = ok bits
as_float _ = err refused

abbrev pub texts_of : Values → Decoded (List Text)
texts_of end = ok []
texts_of (item (text t) vs) = do ts ← texts_of vs; ok (t ∷ ts)
texts_of (item _ vs) = err refused

abbrev pub leases_of : Fields → Decoded (Dict Text)
leases_of no_entry = ok []
leases_of (field k (text t) fields) = do rest ← leases_of fields; ok ((k, t) ∷ rest)
leases_of (field k _ fields) = err refused

abbrev pub check : Bool → Decoded Unit
check true = ok tt
check false = err refused

abbrev pub optional_text : Option Text → Value
optional_text none = null
optional_text (some t) = text t

abbrev pub texts : List Text → Values
texts [] = end
texts (t ∷ ts) = item (text t) (texts ts)

abbrev pub leases : Dict Text → Fields
leases [] = no_entry
leases ((k, t) ∷ rest) = field k (text t) (leases rest)

-- The default of a key that is missing.
abbrev pub default_text : Text → Option Value → Decoded Text
default_text d none = ok d
default_text d v = as_text v
