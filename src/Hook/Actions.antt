-- ===== src/Hook/Actions.antt =====
-- The actions of a hook (corporal/hook/executor.go), but for the consultation of a REST service.
use matrix_corporal.Base.{
  ℤ, pos, Bool, true, false, not, ◌&&◌, ◌||◌, Option, none, some, value_or, List, [], ◌∷◌, ◌++◌,
  Text, text, text_eq, GoMap, insert, Result, ok, err, if◌then◌else◌,
}
use matrix_corporal.Http.{
  Request, Response, set_request_header, set_response_header, with_request_body, with_response_body,
}
use matrix_corporal.Http.ResponseBound.{Written}
use matrix_corporal.Hook.{Json, null, string, object, JsonFields, no_fields, field, Hook, fields}
use matrix_corporal.Hook.Execution.{
  Halt, panic, ExecutionResult, create_processing_error_execution_result, HttpResponseModifier,
}
use matrix_corporal.Hook.Consulting.{Consultor}

-- The functions on JSON are of package `encoding/json`. `unmarshal_object` reads into a nil map, which
-- `null` leaves nil.
pub record Executor (S : Type 0) : Type 0 where
  pub consultor : Consultor S
  pub marshal : Json → Result Text Text
  pub marshal_error : (error_code error_message : Text) → Text
  pub marshal_hook : Hook → Result Text Text
  pub unmarshal_object : Text → Result Text (Option (GoMap Json))

-- What a hook is executed on. `written` are the responses written to `w`, the newest first.
pub record Work (S : Type 0) : Type 0 where
  pub request : Request
  pub outside : S
  pub written : List Written

abbrev pub Outcome : Type 0 → Type 0
Outcome S = Result Halt (ExecutionResult (HttpResponseModifier S) × Work S)

-- `executionHandler`
abbrev pub ExecutionHandler : Type 0 → Type 0
ExecutionHandler S = Hook → Option Response → Work S → Outcome S

-- `String` of hook.go
abbrev pub hook_string : Hook → Text
hook_string h =
    text "<Hook #"
    ++ (fields h).id
    ++ text " ("
    ++ (fields h).action
    ++ text " @ "
    ++ (fields h).event_type
    ++ text ")>"

abbrev json_fields : GoMap Json → JsonFields
json_fields [] = no_fields
json_fields ((k, v) ∷ m) = field k v (json_fields m)

-- A Go map as a JSON value; a nil map is `null`.
abbrev pub json_of_map : Option (GoMap Json) → Json
json_of_map none = null
json_of_map (some m) = object (json_fields m)

-- `for k, v := range injected { payload[k] = v }`
unfoldable pub insert_all : {V : Type 0} → (injected payload : GoMap V) → GoMap V
insert_all [] payload = payload
insert_all ((k, v) ∷ injected) payload = insert_all injected (insert k v payload)

-- The same loop, which panics on a nil map if there is anything to inject.
unfoldable pub inject_json : GoMap Json → Option (GoMap Json) → Result Halt (Option (GoMap Json))
inject_json injected (some payload) = ok (some (insert_all injected payload))
inject_json [] none = ok none
inject_json (e ∷ injected) none = err (panic (text "assignment to entry in nil map"))

abbrev pub is_empty {ℓ} : {A : Type ℓ} → List A → Bool
is_empty [] = true
is_empty (x ∷ xs) = false

module _ {S : Type 0} where
  abbrev pub failed : Hook → (message : Text) → Work S → Outcome S
  failed h message x = ok (create_processing_error_execution_result h message, x)

  abbrev pub passed : Hook → List (HttpResponseModifier S) → Work S → Outcome S
  passed h modifiers x = ok (
    record {
      hooks = h ∷ [];
      response_sent = false;
      skip_next_hooks_in_chain = (fields h).skip_next_hooks_in_chain;
      processing_error = none;
      reverse_proxy_response_modifiers = modifiers;
    },
    x,
  )

  -- `RespondWithBytes`, and the result of the two actions that respond.
  abbrev pub responded : Hook → Written → Work S → Outcome S
  responded h w x = ok (
    record {
      hooks = h ∷ [];
      response_sent = true;
      skip_next_hooks_in_chain = (fields h).skip_next_hooks_in_chain;
      processing_error = none;
      reverse_proxy_response_modifiers = [];
    },
    record x { written = w ∷ x.written },
  )

  unfoldable pub execute_pass_unmodified : ExecutionHandler S
  execute_pass_unmodified h response x = passed h [] x

  module _ (me : Executor S) where
    -- What `RespondWithMatrixError` writes.
    abbrev pub matrix_error_bytes : ℤ → (error_code error_message : Text) → Written
    matrix_error_bytes status error_code error_message = record {
      status = status;
      content_type = text "application/json";
      payload = me.marshal_error error_code error_message;
    }

    unfoldable pub execute_action_reject : ExecutionHandler S
    execute_action_reject h response x =
        let f = fields h in
        elim f.reject.rejection_error_code [
          | none ↦ failed h (text "a rejection error code is required") x
          | some error_code ↦ elim f.reject.rejection_error_message [
            | none ↦ failed h (text "a rejection error message is required") x
            | some error_message ↦
                responded h
                  (matrix_error_bytes (value_or (pos 403) f.respond.response_status_code) error_code
                    error_message)
                  x
          ]
        ]

    -- The payload of a response, or why there is none. A nil `interface{}` is `null`.
    abbrev pub string_payload : Option Json → Result Text Text
    string_payload (some (string s)) = ok s
    string_payload _ = err (text "could not interpret payload as string")

    abbrev pub json_payload : Option Json → Result Text Text
    json_payload payload = elim (me.marshal (value_or null payload)) [
      | err e ↦ err (text "could not JSON-serialize payload")
      | ok serialized ↦ ok serialized
    ]

    unfoldable pub payload_bytes : Hook → (content_type : Text) → Result Text Text
    payload_bytes h content_type =
        let f = (fields h).respond in
        if not (text_eq content_type (text "application/json"))
          || f.response_skip_payload_json_serialization
        then string_payload f.response_payload
        else json_payload f.response_payload

    unfoldable pub execute_action_respond : ExecutionHandler S
    execute_action_respond h response x =
        let f = (fields h).respond in
        let content_type = value_or (text "application/json") f.response_content_type in
        elim f.response_status_code [
          | none ↦ failed h (text "a response status code is required") x
          | some status ↦ elim (payload_bytes h content_type) [
            | err e ↦ failed h e x
            | ok payload ↦
                responded h
                  (record { status = status; content_type = content_type; payload = payload }) x
          ]
        ]

    abbrev pub set_request_headers : GoMap Text → Request → Request
    set_request_headers [] r = r
    set_request_headers ((k, v) ∷ headers) r =
        set_request_headers headers (set_request_header me.consultor.canonical_header_key k v r)

    abbrev pub set_response_headers : GoMap Text → Response → Response
    set_response_headers [] r = r
    set_response_headers ((k, v) ∷ headers) r =
        set_response_headers headers (set_response_header me.consultor.canonical_header_key k v r)

    -- The payload with the fields injected, in JSON: a panic, an error or the bytes.
    unfoldable pub injected_bytes :
        (unreadable : Text) → GoMap Json → (body : Text) → Result Halt (Result Text Text)
    injected_bytes unreadable injected body = elim (me.unmarshal_object body) [
      | err e ↦ ok (err unreadable)
      | ok payload ↦ elim (inject_json injected payload) [
        | err halt ↦ err halt
        | ok merged ↦ ok (me.marshal (json_of_map merged))
      ]
    ]

    abbrev pub unreadable_request : Text
    unreadable_request =
        text "failed to interpret original response body as JSON: "
        ++ text "cannot understand request body payload (not JSON)"

    abbrev pub unreadable_response : Text
    unreadable_response = text "cannot understand response body payload (not JSON)"

    -- The test for the headers is on those of the response, as in the source.
    unfoldable pub execute_pass_modified_request : ExecutionHandler S
    execute_pass_modified_request h response x =
        let f = fields h in
        elim f.pass_modified_request.inject_json_into_request [
          | none ↦ failed h (text "injectJSONIntoRequest information is required") x
          | some injected ↦
              if is_empty injected
                && is_empty (value_or [] f.pass_modified_response.inject_headers_into_response)
              then execute_pass_unmodified h response x
              else elim (injected_bytes unreadable_request injected x.request.body) [
                | err halt ↦ err halt
                | ok bytes ↦ elim bytes [
                  | err e ↦ failed h e x
                  | ok new_bytes ↦ passed h [] (record x {
                    request =
                        set_request_headers
                          (value_or [] f.pass_modified_request.inject_headers_into_request)
                          (with_request_body new_bytes x.request);
                  })
                ]
              ]
        ]

    -- The response modifier of `executePassModifiedResponse`.
    unfoldable pub inject_into_response :
        (injected : GoMap Json) (headers : GoMap Text) → HttpResponseModifier S
    inject_into_response injected headers x =
        elim (injected_bytes unreadable_response injected x.response.body) [
          | err halt ↦ err halt
          | ok bytes ↦ elim bytes [
            | err e ↦ ok (err e, x)
            | ok new_bytes ↦ ok (
              ok false,
              record x {
                response = set_response_headers headers (with_response_body new_bytes x.response);
              },
            )
          ]
        ]

    unfoldable pub execute_pass_modified_response : ExecutionHandler S
    execute_pass_modified_response h response x =
        let f = (fields h).pass_modified_response in
        elim f.inject_json_into_response [
          | none ↦ failed h (text "injectJSONIntoResponse information is required") x
          | some injected ↦
              if is_empty injected && is_empty (value_or [] f.inject_headers_into_response)
              then execute_pass_unmodified h response x
              else passed h
                  (inject_into_response injected (value_or [] f.inject_headers_into_response) ∷ [])
                  x
        ]
