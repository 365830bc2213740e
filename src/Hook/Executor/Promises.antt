-- ===== src/Hook/Executor/Promises.antt =====
-- What every execution of a hook (corporal/hook/executor.go) promises about the responses it writes.
use matrix_corporal.Base.{
  ◌≡◌, refl, inl, inr, ℕ, zero, suc, Bool, true, false, ◌&&◌, Option, none, some, is_some, value_or,
  List, [], ◌∷◌, Text, text, text_eq, has_prefix, ok, err, Bool-cases, Option-cases, Result-cases,
  if◌then◌else◌, subst,
}
use matrix_corporal.Http.{Response}
use matrix_corporal.Http.ResponseBound.{Written}
use matrix_corporal.Hook.{
  Hook, fields, is_after_hook, action_pass_modified_request, action_consult_rest_service_url,
  action_respond, action_reject, action_pass_unmodified, action_pass_modified_response,
}
use matrix_corporal.Hook.Consulting.{consult}
use matrix_corporal.Hook.Actions.{
  Executor, Work, Outcome, ExecutionHandler, is_empty, payload_bytes, injected_bytes,
  unreadable_request, execute_action_reject, execute_action_respond, execute_pass_unmodified,
  execute_pass_modified_request, execute_pass_modified_response,
}
use matrix_corporal.Hook.Executor.{
  typeless, execute_action_consult_rest_service_url, action_to_handler, execute_after_hook,
  execute_with, execute,
}

abbrev pub Writes : Bool → (before after : List Written) → Type 0
Writes true before after = (w : Written) × (after ≡ w ∷ before)
Writes false before after = after ≡ before

module _ {S : Type 0} where
  -- A result that says it has sent a response has written one, and any other has written none. A
  -- result with an error has sent none.
  abbrev pub Keeps : Outcome S → List Written → Type 0
  Keeps (err halt) before = Unit
  Keeps (ok done) before =
      Writes done.0.response_sent before done.1.written
      × (is_some done.0.processing_error ≡ true → done.0.response_sent ≡ false)

  abbrev KeepsAll : ExecutionHandler S → Type 0
  KeepsAll handler =
      (h : Hook) (response : Option Response) (x : Work S) → Keeps (handler h response x) x.written

  execute_pass_unmodified-Keeps : KeepsAll execute_pass_unmodified
  unfolding execute_pass_unmodified
  execute_pass_unmodified-Keeps = λ h response x. (refl, λ e. refl)

  module _ (me : Executor S) where
    execute_action_reject-Keeps : KeepsAll (execute_action_reject me)
    unfolding execute_action_reject
    execute_action_reject-Keeps = λ h response x.
        elim (Option-cases (fields h).reject.rejection_error_code) [
          | inl e ↦ rw (e, execute_action_reject) (refl, λ _. refl)
          | inr (code, e) ↦ elim (Option-cases (fields h).reject.rejection_error_message) [
            | inl m ↦ rw (e, m, execute_action_reject) (refl, λ _. refl)
            | inr (message, m) ↦ rw (e, m, execute_action_reject) ((_, refl), λ e. absurd (cc e))
          ]
        ]

    execute_action_respond-Keeps : KeepsAll (execute_action_respond me)
    unfolding execute_action_respond
    execute_action_respond-Keeps = λ h response x.
        elim (Option-cases (fields h).respond.response_status_code) [
          | inl e ↦ rw (e, execute_action_respond) (refl, λ _. refl)
          | inr (status, e) ↦
              let content_type =
                value_or (text "application/json") (fields h).respond.response_content_type in
              elim (Result-cases (payload_bytes me h content_type)) [
                | inl (payload, p) ↦
                    rw (e, p, execute_action_respond) ((_, refl), λ e. absurd (cc e))
                | inr (error, p) ↦ rw (e, p, execute_action_respond) (refl, λ _. refl)
              ]
        ]

    execute_pass_modified_request-Keeps : KeepsAll (execute_pass_modified_request me)
    unfolding execute_pass_modified_request execute_pass_unmodified
    execute_pass_modified_request-Keeps = λ h response x.
        elim (Option-cases (fields h).pass_modified_request.inject_json_into_request) [
          | inl e ↦ rw (e, execute_pass_modified_request) (refl, λ _. refl)
          | inr (injected, e) ↦
              elim (Bool-cases (
                is_empty injected
                && is_empty
                    (value_or [] (fields h).pass_modified_response.inject_headers_into_response))) [
                      | inl nothing ↦
                          rw (e, nothing, execute_pass_modified_request) (refl, λ _. refl)
                      | inr something ↦
                          elim (Result-cases
                            (injected_bytes me (unreadable_request me) injected x.request.body)) [
                              | inr (halt, b) ↦
                                  rw (e, something, b, execute_pass_modified_request) tt
                              | inl (bytes, b) ↦ elim (Result-cases bytes) [
                                | inl (new_bytes, n) ↦
                                    rw (e, something, b, n, execute_pass_modified_request)
                                      (refl, λ _. refl)
                                | inr (error, n) ↦
                                    rw (e, something, b, n, execute_pass_modified_request)
                                      (refl, λ _. refl)
                              ]
                            ]
                    ]
        ]

    execute_pass_modified_response-Keeps : KeepsAll (execute_pass_modified_response me)
    unfolding execute_pass_modified_response execute_pass_unmodified
    execute_pass_modified_response-Keeps = λ h response x.
        elim (Option-cases (fields h).pass_modified_response.inject_json_into_response) [
          | inl e ↦ rw (e, execute_pass_modified_response) (refl, λ _. refl)
          | inr (injected, e) ↦
              elim (Bool-cases (
                is_empty injected
                && is_empty
                    (value_or [] (fields h).pass_modified_response.inject_headers_into_response))) [
                      | inl nothing ↦
                          rw (e, nothing, execute_pass_modified_response) (refl, λ _. refl)
                      | inr something ↦
                          rw (e, something, execute_pass_modified_response) (refl, λ _. refl)
                    ]
        ]

    module _ (again : Hook → Work S → Outcome S) where
      -- The hooks of REST services are executed on what was written before.
      relabelled :
          (h : Hook) (run : Outcome S) (before : List Written)
          → Keeps run before
          → Keeps
              (elim run [
                | err halt ↦ err halt
                | ok done ↦ ok (record done.0 { hooks = h ∷ [] }, done.1)
              ])
              before
      relabelled h (err halt) before k = tt
      relabelled h (ok done) before k = k

      module _ (keeps : (h : Hook) (x : Work S) → Keeps (again h x) x.written) where
        execute_action_consult_rest_service_url-Keeps :
            KeepsAll (execute_action_consult_rest_service_url me again)
        unfolding execute_action_consult_rest_service_url
        execute_action_consult_rest_service_url-Keeps = λ h response x.
            elim (Option-cases (fields h).rest.rest_service_url) [
              | inl e ↦ rw (e, execute_action_consult_rest_service_url) (refl, λ _. refl)
              | inr (url, e) ↦
                  let answer = consult me.consultor x.request response h x.outside in
                  elim (Result-cases answer.0) [
                    | inr (error, a) ↦
                        rw (e, a, execute_action_consult_rest_service_url) (refl, λ _. refl)
                    | inl (new_hook, a) ↦
                        let next = typeless me h new_hook in
                        elim (Bool-cases (
                          is_after_hook (fields h)
                          && text_eq (fields next).action action_pass_modified_request)) [
                            | inl late ↦
                                rw (e, a, late, execute_action_consult_rest_service_url)
                                  (refl, λ _. refl)
                            | inr timely ↦ elim (Result-cases (me.marshal_hook next)) [
                              | inr (error, m) ↦
                                  rw (e, a, timely, m, execute_action_consult_rest_service_url)
                                    (refl, λ _. refl)
                              | inl (exported, m) ↦
                                  rw (e, a, timely, m, execute_action_consult_rest_service_url)
                                    (relabelled h (again next (record x { outside = answer.1 }))
                                      x.written (keeps next (record x { outside = answer.1 })))
                            ]
                          ]
                  ]
            ]

        -- A handler for every action that has one.
        abbrev FoundKeeps : Option (ExecutionHandler S) → Type 0
        FoundKeeps none = Unit
        FoundKeeps (some handler) = KeepsAll handler

        ite-FoundKeeps :
            (b : Bool) (handler : ExecutionHandler S) (rest : Option (ExecutionHandler S))
            → KeepsAll handler
            → FoundKeeps rest
            → FoundKeeps (if b then some handler else rest)
        ite-FoundKeeps true handler rest k r = k
        ite-FoundKeeps false handler rest k r = r

        action_to_handler-FoundKeeps :
            (action : Text) → FoundKeeps (action_to_handler me again action)
        unfolding action_to_handler
        action_to_handler-FoundKeeps action =
            ite-FoundKeeps (text_eq action action_consult_rest_service_url) _ _
              execute_action_consult_rest_service_url-Keeps
              (ite-FoundKeeps (text_eq action action_reject) _ _ execute_action_reject-Keeps (
                ite-FoundKeeps (text_eq action action_respond) _ _ execute_action_respond-Keeps (
                  ite-FoundKeeps (text_eq action action_pass_unmodified) _ _
                    execute_pass_unmodified-Keeps
                    (ite-FoundKeeps (text_eq action action_pass_modified_request) _ _
                      execute_pass_modified_request-Keeps
                      (ite-FoundKeeps (text_eq action action_pass_modified_response) _ none
                        execute_pass_modified_response-Keeps tt)))))

        execute_with-Keeps : (h : Hook) (x : Work S) → Keeps (execute_with me again h x) x.written
        unfolding execute_with execute_after_hook
        execute_with-Keeps h x =
            elim (Option-cases (action_to_handler me again (fields h).action)) [
              | inl e ↦ rw (e, execute_with) (refl, λ _. refl)
              | inr (handler, e) ↦
                  let keeps_handler : KeepsAll handler =
                    subst FoundKeeps e (action_to_handler-FoundKeeps (fields h).action) in
                  elim (Bool-cases (has_prefix (fields h).event_type (text "before"))) [
                    | inl before ↦ rw (e, before, execute_with) (keeps_handler h none x)
                    | inr other ↦
                        elim (Bool-cases (has_prefix (fields h).event_type (text "after"))) [
                          | inl after ↦ rw (e, other, after, execute_with) (refl, λ _. refl)
                          | inr untyped ↦
                              rw (e, other, untyped, execute_with) (keeps_handler h none x)
                        ]
                  ]
            ]

    pub execute-Keeps : (fuel : ℕ) (h : Hook) (x : Work S) → Keeps (execute me fuel h x) x.written
    unfolding execute
    execute-Keeps zero h x = tt
    execute-Keeps (suc fuel) h x = execute_with-Keeps (execute me fuel) (execute-Keeps fuel) h x
