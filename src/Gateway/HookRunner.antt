-- ===== src/Gateway/HookRunner.antt =====
-- corporal/httpgateway/hookrunner: the hooks of one event type, in the policy's order. The executor of
-- the hooks and the policy store are reached through an interface.
pub mod Sends
pub mod Executing
use matrix_corporal.Base.{
  ℕ, Bool, true, false, not, ◌&&◌, ◌||◌, Option, none, some, is_some, List, [], ◌∷◌, ◌++◌, Text,
  text, text_eq, Result, ok, err, if◌then◌else◌,
}
use matrix_corporal.Http.{Request}
use matrix_corporal.Http.ResponseBound.{Written}
use matrix_corporal.Matrix.{error_unknown}
use matrix_corporal.Hook.{Hook, fields, hook_matches_request}
use matrix_corporal.Hook.Execution.{Halt, panic, ExecutionResult, next_hooks_in_chain_can_run}
use matrix_corporal.Policy.{Policy}

-- A response, and the request that the reverse proxy serves with its response modifiers.
pub data Reply (Modifier : Type 0) : Type 0 where
  matrix_error : (status : ℕ) (error_code error_message : Text) → Reply Modifier
  options : Reply Modifier
  from_hook : Written → Reply Modifier
  proxied : Request → List Modifier → Reply Modifier

-- What a handler works on. `replies` are the responses given so far, the newest first.
pub record Exchange (S Modifier : Type 0) : Type 0 where
  pub request : Request
  pub outside : S
  pub replies : List (Reply Modifier)

-- `get_policy` is `Get` of the policy store, which others may have changed in the meantime.
pub record Surroundings (S Modifier : Type 0) : Type 0 where
  pub execute :
      Hook → Exchange S Modifier → Result Halt (ExecutionResult Modifier × Exchange S Modifier)
  pub get_policy : S → Option Policy × S
  pub resolve_by_access_token : Text → S → Result Text Text × S
  -- Package `regexp`
  pub compile_error : Text → Option Text
  pub match_string : Text → Text → Bool

module _ {S Modifier : Type 0} where
  abbrev pub respond_with_matrix_error :
      (status : ℕ) (error_code error_message : Text) → Exchange S Modifier → Exchange S Modifier
  respond_with_matrix_error status error_code error_message x = record x {
    replies = matrix_error status error_code error_message ∷ x.replies;
  }

  module _ (me : Surroundings S Modifier) where
    unfoldable pub run_hook :
        Hook → Exchange S Modifier → Result Halt (ExecutionResult Modifier × Exchange S Modifier)
    run_hook h x = elim (me.execute h x) [
      | err halt ↦ err halt
      | ok done ↦ elim done.0.processing_error [
        | none ↦ ok done
        | some e ↦ ok (
          record done.0 { response_sent = true },
          respond_with_matrix_error 503 error_unknown (text "Hook execution failed, cannot proceed")
              done.1,
        )
      ]
    ]

    -- The loop over the policy's hooks, with the hooks and the modifiers so far. `MatchesRequest`
    -- may panic.
    unfoldable pub run_hooks_from :
        (event_type : Text) (hooks executed : List Hook) (modifiers : List Modifier)
        → Exchange S Modifier
        → Result Halt (ExecutionResult Modifier × Exchange S Modifier)
    run_hooks_from event_type [] executed modifiers x = ok (
      record {
        hooks = executed;
        response_sent = false;
        skip_next_hooks_in_chain = false;
        processing_error = none;
        reverse_proxy_response_modifiers = modifiers;
      },
      x,
    )
    run_hooks_from event_type (h ∷ hooks) executed modifiers x =
        let skipped = run_hooks_from event_type hooks executed modifiers x in
        if not (text_eq (fields h).event_type event_type)
        then skipped
        else elim (hook_matches_request me.compile_error me.match_string (fields h) x.request) [
          | err message ↦ err (panic message)
          | ok matched ↦ if not matched.1 then skipped else elim (run_hook h x) [
            | err halt ↦ err halt
            | ok done ↦
                let modifiers' = modifiers ++ done.0.reverse_proxy_response_modifiers in
                let next = run_hooks_from event_type hooks (executed ++ h ∷ []) modifiers' done.1 in
                if not (next_hooks_in_chain_can_run done.0)
                then ok (
                  record {
                    hooks = executed ++ h ∷ [];
                    response_sent = done.0.response_sent;
                    skip_next_hooks_in_chain = false;
                    processing_error = done.0.processing_error;
                    reverse_proxy_response_modifiers = modifiers';
                  },
                  done.1,
                )
                else next
          ]
        ]

    unfoldable pub run_all_matching_type :
        (event_type : Text)
        → Exchange S Modifier
        → Result Halt (ExecutionResult Modifier × Exchange S Modifier)
    run_all_matching_type event_type x =
        let (policy_obj, outside) = me.get_policy x.outside in
        let y = record x { outside = outside } in
        elim policy_obj [
          | none ↦ ok (
            record {
              hooks = [];
              response_sent = true;
              skip_next_hooks_in_chain = false;
              processing_error = none;
              reverse_proxy_response_modifiers = [];
            },
            respond_with_matrix_error 503 error_unknown
                (text "Policy does not exist (yet), cannot proceed") y,
          )
          | some policy ↦ run_hooks_from event_type policy.hooks [] [] y
        ]
