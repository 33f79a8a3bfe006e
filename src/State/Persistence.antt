-- ===== src/State/Persistence.antt =====
-- python/ai_how/src/ai_how/state/persistence.py: `StateFileManager`. Its object holds the path of the
-- state file only, so the state is the disk: that file, the temporary file beside it, and the backups
-- by their suffix.
use ai_hyperscaler_on_workst.Common.{
  ℕ, Option, none, some, Bool, true, false, Text, if◌then◌else◌, is_some,
}
use ai_hyperscaler_on_workst.Common.Dict
use ai_hyperscaler_on_workst.Common.Dict.{Dict}
use ai_hyperscaler_on_workst.Common.Exec.{
  Exec, ok, err, pure, raise, gets, modify, try_except, ◌>>=◌, ◌>>◌,
}
use ai_hyperscaler_on_workst.Models.{ClusterState}
use ai_hyperscaler_on_workst.State.Json.{Value, object}
use ai_hyperscaler_on_workst.State.Codec.{Formats, Decoded, refused}
use ai_hyperscaler_on_workst.State.Codec.Cluster.{cluster_to_dict, cluster_from_dict}

-- What a file holds: a JSON document, or something that cannot be read as one.
pub data Content : Type 0 where
  document : Value → Content
  garbled : Content

pub record Disk : Type 0 where
  pub state_file : Option Content
  pub temp_file : Option Content
  pub backups : Dict Content

-- Which calls of the operating system succeed during one operation.
pub record Works : Type 0 where
  pub open_temp : Bool
  pub write_temp : Bool
  pub replace : Bool
  pub unlink_temp : Bool
  pub copy : Bool
  pub unlink : Bool

abbrev pub all_work : Works
all_work = record {
  open_temp = true;
  write_temp = true;
  replace = true;
  unlink_temp = true;
  copy = true;
  unlink = true;
}

pub data PersistenceError : Type 0 where
  persistence_error : PersistenceError

abbrev pub Action : Type 0 → Type 0
Action A = Exec PersistenceError Disk A

-- `assert` on a call of the operating system.
abbrev succeeds : Bool → Action Unit
succeeds true = pure tt
succeeds false = raise persistence_error

abbrev set_temp : Option Content → Action Unit
set_temp content = modify (λ d. record d { temp_file = content })

module _ (f : Formats) where
  unfoldable pub exists : Action Bool
  exists = gets (λ d. is_some d.state_file)

  -- `deserialize_state`; a document that is no object is refused too.
  unfoldable pub deserialize_state : (now : ℕ) → Value → Decoded ClusterState
  deserialize_state now (object fields) = cluster_from_dict f now fields
  deserialize_state now _ = err refused

  unfoldable pub load : (now : ℕ) → Action (Option ClusterState)
  unfolding deserialize_state
  load now = do
    content ← gets (λ d. d.state_file)
    elim content [
      | none ↦ pure none
      | some garbled ↦ raise persistence_error
      | some (document value) ↦ elim (deserialize_state now value) [
        | ok state ↦ pure (some state)
        | err e ↦ raise persistence_error
      ]
    ]

  -- The body of `save`: the temporary file is opened and emptied, written, and renamed.
  pub write_and_replace : Works → ClusterState → Action Unit
  write_and_replace works state = do
    succeeds works.open_temp
    set_temp (some garbled)
    succeeds works.write_temp
    set_temp (some (document (object (cluster_to_dict f state))))
    succeeds works.replace
    modify (λ d. record d { state_file = d.temp_file; temp_file = none })

  -- The handler of `save`.
  pub remove_temp : Works → Action Unit
  remove_temp works = modify (λ d. if works.unlink_temp then record d { temp_file = none } else d)

  unfoldable pub save : Works → ClusterState → Action Unit
  unfolding write_and_replace remove_temp
  save works state =
      try_except (write_and_replace works state) (λ e. remove_temp works >> raise persistence_error)

unfoldable pub backup : Works → (backup_suffix : Text) → Action Text
backup works backup_suffix = do
  content ← gets (λ d. d.state_file)
  elim content [
    | none ↦ raise persistence_error
    | some c ↦
        if works.copy
        then (do
          modify (λ d. record d { backups = Dict.put d.backups backup_suffix c })
          pure backup_suffix)
        else raise persistence_error
  ]

unfoldable pub remove : Works → Action Unit
remove works = do
  content ← gets (λ d. d.state_file)
  elim content [
    | none ↦ pure tt
    | some c ↦
        if works.unlink
        then modify (λ d. record d { state_file = none })
        else raise persistence_error
  ]
