-- ===== src/Hook/Executor.antt =====
-- corporal/hook/executor.go: the execution of a hook before a request is passed on, after the
-- response has come, or on the word of a REST service.
pub mod Promises
pub mod AfterHooks
pub mod Injection
pub mod Rounds
pub mod Endings
pub mod Termination
use matrix_corporal.Base.{
  ℕ, zero, suc, ◌+◌, ℤ, pos, Bool, true, false, not, ◌&&◌, ◌||◌, Option, none, some, value_or, List,
  [], ◌∷◌, ◌++◌, Text, text, text_eq, has_prefix, GoMap, insert, Result, ok, err, if◌then◌else◌,
}
use matrix_corporal.Http.{
  Request, Response, set_request_header, set_response_header, with_request_body, with_response_body,
}
use matrix_corporal.Http.ResponseBound.{
  Written, ResponseBoundHttpWriter, new_response_bound_http_writer, respond_with_bytes, commit,
}
use matrix_corporal.Matrix.{error_unknown}
use matrix_corporal.Hook.{
  Json, null, string, object, JsonFields, no_fields, field, Hook, HookFields, fields, with_fields,
  is_after_hook, action_consult_rest_service_url, action_respond, action_reject,
  action_pass_unmodified, action_pass_modified_request, action_pass_modified_response,
}
use matrix_corporal.Hook.Execution.{
  Halt, panic, out_of_fuel, ExecutionResult, create_processing_error_execution_result, Modified,
  HttpResponseModifier,
}
use matrix_corporal.Hook.Consulting.{consult}
use matrix_corporal.Hook.Actions.{
  Executor, Work, Outcome, ExecutionHandler, hook_string, failed, matrix_error_bytes,
  execute_action_reject, execute_action_respond, execute_pass_unmodified,
  execute_pass_modified_request, execute_pass_modified_response,
}

module _ {S : Type 0} where
  module _ (me : Executor S) where
    -- The hook of a REST service, named and without an event type. The source writes this to the hook
    -- itself, which may be a hook of the policy, as the contingency hook is. Such a write is repeated
    -- by each consultation, and leaves the same name the next time.
    unfoldable pub typeless : (consulting answer : Hook) → Hook
    typeless consulting answer =
        let f = fields answer in
        with_fields answer (record f {
          id = if text_eq f.id [] then (fields consulting).id ++ text "-unnamed-response" else f.id;
          event_type = [];
        })

    -- `execute` is `me.Execute`, for the hook that comes back.
    unfoldable pub execute_action_consult_rest_service_url :
        (execute : Hook → Work S → Outcome S) → ExecutionHandler S
    execute_action_consult_rest_service_url execute h response x =
        elim (fields h).rest.rest_service_url [
          | none ↦ failed h (text "a RESTServiceURL is required") x
          | some url ↦
              let (answer, outside) = consult me.consultor x.request response h x.outside in
              let y = record x { outside = outside } in
              elim answer [
                | err e ↦ failed h e y
                | ok new_hook ↦
                    let next = typeless h new_hook in
                    if is_after_hook (fields h)
                      && text_eq (fields next).action action_pass_modified_request
                    then failed h
                        (text "an after hook ("
                          ++ hook_string h
                          ++ text ") yielded a request-modification hook: "
                          ++ hook_string next
                          ++ text
                              ". It makes no sense - it's already too late to modify the request")
                        y
                    else elim (me.marshal_hook next) [
                      | err e ↦ failed h (text "failed exporting hook: " ++ e) y
                      | ok exported ↦ elim (execute next y) [
                        | err halt ↦ err halt
                        | ok done ↦ ok (record done.0 { hooks = h ∷ [] }, done.1)
                      ]
                    ]
              ]
        ]

    -- `actionToHandlerMap`
    unfoldable pub action_to_handler :
        (execute : Hook → Work S → Outcome S) → (action : Text) → Option (ExecutionHandler S)
    action_to_handler execute action =
        if text_eq action action_consult_rest_service_url
        then some (execute_action_consult_rest_service_url execute)
        else if text_eq action action_reject
        then some (execute_action_reject me)
        else if text_eq action action_respond
        then some (execute_action_respond me)
        else if text_eq action action_pass_unmodified
        then some execute_pass_unmodified
        else if text_eq action action_pass_modified_request
        then some (execute_pass_modified_request me)
        else if text_eq action action_pass_modified_response
        then some (execute_pass_modified_response me)
        else none

    -- What the response-bound writer has made of the response, the writes given newest first.
    unfoldable pub bind_written : List Written → ResponseBoundHttpWriter → ResponseBoundHttpWriter
    bind_written [] writer = writer
    bind_written (w ∷ written) writer = respond_with_bytes w (bind_written written writer)

    -- The loop over the modifiers that the hook's action has yielded.
    unfoldable pub run_modifiers : List (HttpResponseModifier S) → HttpResponseModifier S
    run_modifiers [] x = ok (ok false, x)
    run_modifiers (modifier ∷ modifiers) x = elim (modifier x) [
      | err halt ↦ err halt
      | ok done ↦ elim done.0 [
        | err e ↦ ok (err e, done.1)
        | ok skip_next_modifiers ↦ elim skip_next_modifiers [
          | true ↦ ok (ok true, done.1)
          | false ↦ run_modifiers modifiers done.1
        ]
      ]
    ]

    -- `responseBoundWriter.Commit()`, which is deferred. `bytes` is what was written.
    abbrev pub committed :
        (bytes : Text)
        → Result Halt (Result Text Bool × Modified S)
        → Result Halt (Result Text Bool × Modified S)
    committed bytes (err halt) = err halt
    committed bytes (ok (result, x)) = ok (
      result,
      record x { response = commit (record { response = x.response; response_bytes = bytes }) },
    )

    -- The end of the modifier of an after-hook, when the action has not failed.
    abbrev pub after_action :
        (skip_next_hooks_in_chain : Bool) → List (HttpResponseModifier S) → HttpResponseModifier S
    after_action skip_next_hooks_in_chain [] x = ok (ok skip_next_hooks_in_chain, x)
    after_action skip_next_hooks_in_chain (m ∷ ms) x = run_modifiers (m ∷ ms) x

    -- What the modifier of an after-hook does once the action's handler has returned: `x` is what
    -- the handler has left of the request and of the world.
    unfoldable pub finish_after_hook :
        ExecutionResult (HttpResponseModifier S)
        → ResponseBoundHttpWriter
        → Work S
        → Result Halt (Result Text Bool × Modified S)
    finish_after_hook result writer x =
        let modified : Response → Modified S =
          λ response. record { response = response; request = x.request; outside = x.outside } in
        let failing =
          respond_with_bytes
            (matrix_error_bytes me (pos 503) error_unknown
              (text "Afer-hook execution failed, cannot proceed"))
            writer in
        elim result.processing_error [
          | some e ↦ committed failing.response_bytes (ok (ok true, modified failing.response))
          | none ↦ committed writer.response_bytes (
              after_action result.skip_next_hooks_in_chain result.reverse_proxy_response_modifiers
                (modified writer.response))
        ]

    -- `request.Body` is set to the body that was kept, if it is not empty.
    abbrev pub restore_body : (captured : Text) → Request → Request
    restore_body [] r = r
    restore_body (x ∷ b) r = record r { body = x ∷ b }

    -- The response modifier of an after-hook. `captured` is the request's body, if it was kept.
    unfoldable pub after_hook_modifier :
        ExecutionHandler S → Hook → (captured : Text) → HttpResponseModifier S
    after_hook_modifier handler h captured x =
        elim (handler h (some x.response) (record {
          request = restore_body captured x.request;
          outside = x.outside;
          written = [];
        })) [
          | err halt ↦ err halt
          | ok done ↦
              finish_after_hook done.0
                (bind_written done.1.written (new_response_bound_http_writer x.response)) done.1
        ]

    unfoldable pub execute_after_hook : ExecutionHandler S → Hook → Work S → Outcome S
    execute_after_hook handler h x =
        let captured =
          if text_eq (fields h).action action_consult_rest_service_url
          then x.request.body
          else [] in
        ok (
          record {
            hooks = [];
            response_sent = false;
            skip_next_hooks_in_chain = false;
            processing_error = none;
            reverse_proxy_response_modifiers = after_hook_modifier handler h captured ∷ [];
          },
          x,
        )

    -- `Execute`, where `again` executes the hooks that REST services answer with.
    unfoldable pub execute_with : (again : Hook → Work S → Outcome S) → Hook → Work S → Outcome S
    execute_with again h x = elim (action_to_handler again (fields h).action) [
      | none ↦ failed h (text "missing handler for hook action = " ++ (fields h).action) x
      | some handler ↦
          if has_prefix (fields h).event_type (text "before")
          then handler h none x
          else if has_prefix (fields h).event_type (text "after")
          then execute_after_hook handler h x
          else handler h none x
    ]

    -- `fuel` bounds the length of a chain of hooks, each the answer of a REST service that the one
    -- before it has consulted. The source has no such bound.
    unfoldable pub execute : (fuel : ℕ) → Hook → Work S → Outcome S
    execute zero h x = err out_of_fuel
    execute (suc fuel) h x = execute_with (execute fuel) h x
