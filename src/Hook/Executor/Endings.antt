-- ===== src/Hook/Executor/Endings.antt =====
-- Response modifiers whose fuel does not run out (corporal/hook/executor.go).
use matrix_corporal.Base.{
  ◌≡◌, inl, inr, Bool, true, false, Option, none, some, List, [], ◌∷◌, Text, GoMap, Result, ok, err,
  Bool-cases, Option-cases, Result-cases, All,
}
use matrix_corporal.Http.{Response}
use matrix_corporal.Http.ResponseBound.{ResponseBoundHttpWriter}
use matrix_corporal.Hook.{Json, Hook}
use matrix_corporal.Hook.Execution.{
  Halt, panic, out_of_fuel, ExecutionResult, HttpResponseModifier, Modified,
}
use matrix_corporal.Hook.Actions.{
  Executor, Work, Outcome, ExecutionHandler, injected_bytes, inject_json, unreadable_response,
  inject_into_response,
}
use matrix_corporal.Hook.Executor.{
  run_modifiers, after_hook_modifier, finish_after_hook, restore_body, committed, after_action,
}

-- The fuel has not run out.
abbrev pub IsOver {ℓ} : {A : Type ℓ} → Result Halt A → Type 0
IsOver (ok a) = Unit
IsOver (err (panic message)) = Unit
IsOver (err out_of_fuel) = true ≡ false

module _ {S : Type 0} where
  abbrev pub Ends : HttpResponseModifier S → Type 0
  Ends modifier = (x : Modified S) → IsOver (modifier x)

  -- The fuel has not run out, and it will not when the response modifiers run.
  abbrev pub Finishes : Outcome S → Type 0
  Finishes (err halt) = IsOver {A = Unit {0}} (err halt)
  Finishes (ok done) = All Ends done.0.reverse_proxy_response_modifiers

  abbrev pub FinishesAt : Hook → ExecutionHandler S → Type 0
  FinishesAt h handler = (response : Option Response) (x : Work S) → Finishes (handler h response x)

  module _ (me : Executor S) where
    inject_json-IsOver :
        (injected : GoMap Json) (payload : Option (GoMap Json))
        → IsOver (inject_json injected payload)
    unfolding inject_json
    inject_json-IsOver injected (some payload) = tt
    inject_json-IsOver [] none = tt
    inject_json-IsOver (e ∷ injected) none = tt

    pub injected_bytes-IsOver :
        (unreadable : Text) (injected : GoMap Json) (body : Text)
        → IsOver (injected_bytes me unreadable injected body)
    unfolding injected_bytes
    injected_bytes-IsOver unreadable injected body =
        elim (Result-cases (me.unmarshal_object body)) [
          | inr (error, e) ↦ rw (e, injected_bytes) tt
          | inl (payload, e) ↦ elim (Result-cases (inject_json injected payload)) [
            | inl (merged, i) ↦ rw (e, i, injected_bytes) tt
            | inr (halt, i) ↦
                rw (e, i, injected_bytes) (rw i at (inject_json-IsOver injected payload))
          ]
        ]

    pub inject_into_response-Ends :
        (injected : GoMap Json) (headers : GoMap Text)
        → Ends (inject_into_response me injected headers)
    unfolding inject_into_response
    inject_into_response-Ends injected headers x =
        let over = injected_bytes-IsOver (unreadable_response me) injected x.response.body in
        elim (Result-cases (injected_bytes me (unreadable_response me) injected x.response.body)) [
          | inr (halt, i) ↦ rw (i, inject_into_response) (rw i at over)
          | inl (bytes, i) ↦ elim (Result-cases bytes) [
            | inl (new_bytes, b) ↦ rw (i, b, inject_into_response) tt
            | inr (error, b) ↦ rw (i, b, inject_into_response) tt
          ]
        ]

    run_modifiers-Ends :
        (modifiers : List (HttpResponseModifier S))
        → All Ends modifiers
        → Ends (run_modifiers me modifiers)
    unfolding run_modifiers
    run_modifiers-Ends [] ends x = tt
    run_modifiers-Ends (modifier ∷ modifiers) ends x = elim (Result-cases (modifier x)) [
      | inr (halt, m) ↦ rw (m, run_modifiers) (rw m at (ends.0 x))
      | inl (done, m) ↦ elim (Result-cases done.0) [
        | inr (error, r) ↦ rw (m, r, run_modifiers) tt
        | inl (skip, r) ↦ elim (Bool-cases skip) [
          | inl all ↦ rw (m, r, all, run_modifiers) tt
          | inr more ↦ rw (m, r, more, run_modifiers) (run_modifiers-Ends modifiers ends.1 done.1)
        ]
      ]
    ]

    after_action-Ends :
        (skip : Bool) (modifiers : List (HttpResponseModifier S))
        → All Ends modifiers
        → Ends (after_action me skip modifiers)
    after_action-Ends skip [] ends x = tt
    after_action-Ends skip (m ∷ ms) ends x = run_modifiers-Ends (m ∷ ms) ends x

    committed-IsOver :
        (bytes : Text) (run : Result Halt (Result Text Bool × Modified S))
        → IsOver run
        → IsOver (committed me bytes run)
    committed-IsOver bytes (err (panic message)) over = tt
    committed-IsOver bytes (err out_of_fuel) over = over
    committed-IsOver bytes (ok done) over = tt

    finish_after_hook-IsOver :
        (result : ExecutionResult (HttpResponseModifier S)) (writer : ResponseBoundHttpWriter)
        (x : Work S)
        → All Ends result.reverse_proxy_response_modifiers
        → IsOver (finish_after_hook me result writer x)
    unfolding finish_after_hook
    finish_after_hook-IsOver result writer x ends = elim (Option-cases result.processing_error) [
      | inr (error, e) ↦ rw (e, finish_after_hook) tt
      | inl e ↦
          rw (e, finish_after_hook)
            (committed-IsOver writer.response_bytes _ (
              after_action-Ends result.skip_next_hooks_in_chain
                result.reverse_proxy_response_modifiers ends _))
    ]

    pub after_hook_modifier-Ends :
        (handler : ExecutionHandler S) (h : Hook) (captured : Text)
        → FinishesAt h handler
        → Ends (after_hook_modifier me handler h captured)
    unfolding after_hook_modifier
    after_hook_modifier-Ends handler h captured finishes x =
        let y : Work S = record {
          request = restore_body me captured x.request;
          outside = x.outside;
          written = [];
        } in
        elim (Result-cases (handler h (some x.response) y)) [
          | inr (halt, r) ↦
              rw (r, after_hook_modifier) (stopped halt (rw r at (finishes (some x.response) y)))
          | inl (done, r) ↦
              rw (r, after_hook_modifier)
                (finish_after_hook-IsOver done.0 _ done.1 (rw r at (finishes (some x.response) y)))
        ]
      where
        stopped :
            (halt : Halt)
            → IsOver {A = Unit {0}} (err halt)
            → IsOver {A = Result Text Bool × Modified S} (err halt)
        stopped (panic message) over = tt
        stopped out_of_fuel over = over
