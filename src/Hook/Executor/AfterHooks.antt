-- ===== src/Hook/Executor/AfterHooks.antt =====
-- The rejection by an after-hook (corporal/hook/executor.go).
use matrix_corporal.Base.{false, none, [], ◌∷◌}
use matrix_corporal.Hook.{Hook}
use matrix_corporal.Hook.Execution.{ExecutionResult, HttpResponseModifier}
use matrix_corporal.Hook.Actions.{Executor, execute_action_reject}
use matrix_corporal.Hook.Executor.{after_hook_modifier}

module _ {S : Type 0} (me : Executor S) where
  -- The result of an after-hook that rejects: its response modifier.
  abbrev scheduled : Hook → ExecutionResult (HttpResponseModifier S)
  scheduled h = record {
    hooks = [];
    response_sent = false;
    skip_next_hooks_in_chain = false;
    processing_error = none;
    reverse_proxy_response_modifiers = after_hook_modifier me (execute_action_reject me) h [] ∷ [];
  }
