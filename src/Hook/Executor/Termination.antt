-- ===== src/Hook/Executor/Termination.antt =====
-- When the fuel of `execute` is enough (corporal/hook/executor.go).
use matrix_corporal.Base.{
  ◌≡◌, refl, inl, inr, ℕ, zero, suc, ◌≤◌, ◌<◌, arith, Bool, true, false, ◌&&◌, Option, none, some,
  value_or, [], ◌∷◌, Text, text, text_eq, has_prefix, Result, ok, err, Bool-cases, Option-cases,
  Result-cases, if◌then◌else◌, subst,
}
use matrix_corporal.Hook.{
  Hook, fields, is_after_hook, action_pass_modified_request, action_consult_rest_service_url,
  action_respond, action_reject, action_pass_unmodified, action_pass_modified_response,
}
use matrix_corporal.Hook.Execution.{Halt, panic, out_of_fuel}
use matrix_corporal.Hook.Consulting.{consult}
use matrix_corporal.Hook.Actions.{
  Executor, Work, Outcome, ExecutionHandler, is_empty, payload_bytes, injected_bytes,
  unreadable_request, execute_action_reject, execute_action_respond, execute_pass_unmodified,
  execute_pass_modified_request, execute_pass_modified_response,
}
use matrix_corporal.Hook.Executor.{
  typeless, execute_action_consult_rest_service_url, action_to_handler, execute_after_hook,
  execute_with, execute,
}
use matrix_corporal.Hook.Executor.Rounds.{
  is_consulting, rounds, rounds_pos, IsCalm, consult-rounds, rounds-typeless,
}
use matrix_corporal.Hook.Executor.Endings.{
  IsOver, Finishes, FinishesAt, inject_into_response-Ends, after_hook_modifier-Ends,
  injected_bytes-IsOver,
}

module _ {S : Type 0} where
  execute_pass_unmodified-Finishes : (h : Hook) → FinishesAt {S = S} h execute_pass_unmodified
  unfolding execute_pass_unmodified
  execute_pass_unmodified-Finishes h response x = tt

  module _ (me : Executor S) where
    execute_action_reject-Finishes : (h : Hook) → FinishesAt h (execute_action_reject me)
    unfolding execute_action_reject
    execute_action_reject-Finishes h response x =
        elim (Option-cases (fields h).reject.rejection_error_code) [
          | inl e ↦ rw (e, execute_action_reject) tt
          | inr (code, e) ↦ elim (Option-cases (fields h).reject.rejection_error_message) [
            | inl m ↦ rw (e, m, execute_action_reject) tt
            | inr (message, m) ↦ rw (e, m, execute_action_reject) tt
          ]
        ]

    execute_action_respond-Finishes : (h : Hook) → FinishesAt h (execute_action_respond me)
    unfolding execute_action_respond
    execute_action_respond-Finishes h response x =
        elim (Option-cases (fields h).respond.response_status_code) [
          | inl e ↦ rw (e, execute_action_respond) tt
          | inr (status, e) ↦
              let content_type =
                value_or (text "application/json") (fields h).respond.response_content_type in
              elim (Result-cases (payload_bytes me h content_type)) [
                | inl (payload, p) ↦ rw (e, p, execute_action_respond) tt
                | inr (error, p) ↦ rw (e, p, execute_action_respond) tt
              ]
        ]

    IsOver-retype :
        (A : Type 0) (halt : Halt) → IsOver {A = A} (err halt) → IsOver {A = Unit {0}} (err halt)
    IsOver-retype A (panic message) over = tt
    IsOver-retype A out_of_fuel over = over

    execute_pass_modified_request-Finishes :
        (h : Hook) → FinishesAt h (execute_pass_modified_request me)
    unfolding execute_pass_modified_request execute_pass_unmodified
    execute_pass_modified_request-Finishes h response x =
        elim (Option-cases (fields h).pass_modified_request.inject_json_into_request) [
          | inl e ↦ rw (e, execute_pass_modified_request) tt
          | inr (injected, e) ↦
              elim (Bool-cases (
                is_empty injected
                && is_empty
                    (value_or [] (fields h).pass_modified_response.inject_headers_into_response))) [
                      | inl nothing ↦ rw (e, nothing, execute_pass_modified_request) tt
                      | inr something ↦
                          let over =
                            injected_bytes-IsOver me (unreadable_request me) injected
                              x.request.body in
                          elim (Result-cases
                            (injected_bytes me (unreadable_request me) injected x.request.body)) [
                              | inr (halt, b) ↦
                                  rw (e, something, b, execute_pass_modified_request)
                                    (IsOver-retype (Result Text Text) halt (rw b at over))
                              | inl (bytes, b) ↦ elim (Result-cases bytes) [
                                | inl (new_bytes, n) ↦
                                    rw (e, something, b, n, execute_pass_modified_request) tt
                                | inr (error, n) ↦
                                    rw (e, something, b, n, execute_pass_modified_request) tt
                              ]
                            ]
                    ]
        ]

    execute_pass_modified_response-Finishes :
        (h : Hook) → FinishesAt h (execute_pass_modified_response me)
    unfolding execute_pass_modified_response execute_pass_unmodified
    execute_pass_modified_response-Finishes h response x =
        elim (Option-cases (fields h).pass_modified_response.inject_json_into_response) [
          | inl e ↦ rw (e, execute_pass_modified_response) tt
          | inr (injected, e) ↦
              elim (Bool-cases (
                is_empty injected
                && is_empty
                    (value_or [] (fields h).pass_modified_response.inject_headers_into_response))) [
                      | inl nothing ↦ rw (e, nothing, execute_pass_modified_response) tt
                      | inr something ↦
                          rw (e, something, execute_pass_modified_response)
                            (inject_into_response-Ends me injected _, tt)
                    ]
        ]

    module _ (calm : IsCalm me) (again : Hook → Work S → Outcome S) (h : Hook) where
      -- The hooks that need fewer rounds finish.
      abbrev Continues : Type 0
      Continues = (a : Hook) (x : Work S) → rounds a < rounds h → Finishes (again a x)

      relabelled :
          (run : Outcome S)
          → Finishes run
          → Finishes (elim run [
            | err halt ↦ err halt
            | ok done ↦ ok (record done.0 { hooks = h ∷ [] }, done.1)
          ])
      relabelled (err halt) f = f
      relabelled (ok done) f = f

      module _ (continues : Continues) where
        execute_action_consult_rest_service_url-Finishes :
            is_consulting h ≡ true → FinishesAt h (execute_action_consult_rest_service_url me again)
        unfolding execute_action_consult_rest_service_url
        execute_action_consult_rest_service_url-Finishes consulting response x =
            elim (Option-cases (fields h).rest.rest_service_url) [
              | inl e ↦ rw (e, execute_action_consult_rest_service_url) tt
              | inr (url, e) ↦
                  let answer = consult me.consultor x.request response h x.outside in
                  elim (Result-cases answer.0) [
                    | inr (error, a) ↦ rw (e, a, execute_action_consult_rest_service_url) tt
                    | inl (new_hook, a) ↦
                        let next = typeless me h new_hook in
                        let fewer : rounds next < rounds h = rw (rounds-typeless me h new_hook) (
                          consult-rounds me calm x.request response h new_hook x.outside consulting
                            a) in
                        elim (Bool-cases (
                          is_after_hook (fields h)
                          && text_eq (fields next).action action_pass_modified_request)) [
                            | inl late ↦ rw (e, a, late, execute_action_consult_rest_service_url) tt
                            | inr timely ↦ elim (Result-cases (me.marshal_hook next)) [
                              | inr (error, m) ↦
                                  rw (e, a, timely, m, execute_action_consult_rest_service_url) tt
                              | inl (exported, m) ↦
                                  rw (e, a, timely, m, execute_action_consult_rest_service_url)
                                    (relabelled (again next (record x { outside = answer.1 }))
                                      (continues next (record x { outside = answer.1 }) fewer))
                            ]
                          ]
                  ]
            ]

        abbrev FoundFinishes : Option (ExecutionHandler S) → Type 0
        FoundFinishes none = Unit
        FoundFinishes (some handler) = FinishesAt h handler

        ite-FoundFinishes :
            (b : Bool) (handler : ExecutionHandler S) (rest : Option (ExecutionHandler S))
            → (b ≡ true → FinishesAt h handler)
            → FoundFinishes rest
            → FoundFinishes (if b then some handler else rest)
        ite-FoundFinishes true handler rest f r = f refl
        ite-FoundFinishes false handler rest f r = r

        action_to_handler-FoundFinishes :
            FoundFinishes (action_to_handler me again (fields h).action)
        unfolding action_to_handler
        action_to_handler-FoundFinishes =
            let action = (fields h).action in
            ite-FoundFinishes (text_eq action action_consult_rest_service_url) _ _
              execute_action_consult_rest_service_url-Finishes
              (ite-FoundFinishes (text_eq action action_reject) _ _
                (λ _. execute_action_reject-Finishes h)
                (ite-FoundFinishes (text_eq action action_respond) _ _
                  (λ _. execute_action_respond-Finishes h)
                  (ite-FoundFinishes (text_eq action action_pass_unmodified) _ _
                    (λ _. execute_pass_unmodified-Finishes h)
                    (ite-FoundFinishes (text_eq action action_pass_modified_request) _ _
                      (λ _. execute_pass_modified_request-Finishes h)
                      (ite-FoundFinishes (text_eq action action_pass_modified_response) _ none
                        (λ _. execute_pass_modified_response-Finishes h) tt)))))

        execute_with-Finishes : (x : Work S) → Finishes (execute_with me again h x)
        unfolding execute_with execute_after_hook
        execute_with-Finishes x =
            elim (Option-cases (action_to_handler me again (fields h).action)) [
              | inl e ↦ rw (e, execute_with) tt
              | inr (handler, e) ↦
                  let finishes : FinishesAt h handler =
                    subst FoundFinishes e action_to_handler-FoundFinishes in
                  elim (Bool-cases (has_prefix (fields h).event_type (text "before"))) [
                    | inl before ↦ rw (e, before, execute_with) (finishes none x)
                    | inr other ↦
                        elim (Bool-cases (has_prefix (fields h).event_type (text "after"))) [
                          | inl after ↦
                              rw (e, other, after, execute_with)
                                (after_hook_modifier-Ends me handler h _ finishes, tt)
                          | inr untyped ↦ rw (e, other, untyped, execute_with) (finishes none x)
                        ]
                  ]
            ]

    -- When no REST service answers with a hook that consults a REST service again, then fuel for the
    -- hook's own rounds is enough: the execution ends, and so does every response modifier it yields.
    pub execute-Finishes :
        (calm : IsCalm me) (fuel : ℕ) (h : Hook) (x : Work S)
        → rounds h ≤ fuel
        → Finishes (execute me fuel h x)
    unfolding execute
    execute-Finishes calm zero h x enough = absurd (ground (arith, rounds_pos h))
    execute-Finishes calm (suc fuel) h x enough =
        execute_with-Finishes calm (execute me fuel) h
          (λ a y fewer. execute-Finishes calm fuel a y (omega arith)) x
