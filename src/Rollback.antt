-- ===== src/Rollback.antt =====
-- `RollbackManager` of python/ai_how/src/ai_how/vm_management/hpc_manager.py.
use ai_hyperscaler_on_workst.Common.{List, [], ◌∷◌, Bool}

-- A rollback action with its arguments: whether it returns, and what it does to the outside world.
abbrev pub Undo : Type 0 → Type 0
Undo Host = Host → Bool × Host

module _ {Host : Type 0} where
  -- The stack has its top first.
  unfoldable pub add_rollback_action : Undo Host → List (Undo Host) → List (Undo Host)
  add_rollback_action undo rollback_stack = undo ∷ rollback_stack

  -- Every action is taken off the stack and run; one that raises is logged and left behind.
  unfoldable pub execute_rollback : List (Undo Host) → Host → List (Undo Host) × Host
  execute_rollback [] h = ([], h)
  execute_rollback (undo ∷ rollback_stack) h =
      let (returned, h') = undo h in execute_rollback rollback_stack h'
