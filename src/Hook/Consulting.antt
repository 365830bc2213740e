-- ===== src/Hook/Consulting.antt =====
-- corporal/hook/rest_service_consulting.go: a REST service is asked what to do with a request.
pub mod Retries
use matrix_corporal.Base.{
  ℕ, zero, suc, ◌+◌, ◌-◌, ◌*◌, ltb, ℤ, negsuc, Bool, true, false, not, Option, none, some, List, [],
  ◌∷◌, ◌++◌, map, Text, text, text_eq, GoMap, Result, ok, err, pos, int_eq, value_or, if◌then◌else◌,
}
use Prim.Native.Nat.{◌%◌}
use matrix_corporal.Http.{Request, Response, header_set}
use matrix_corporal.Hook.Data.{Hook, no_hook, some_hook, hook, fields}
use matrix_corporal.Hook.Names.{action_pass_unmodified}

pub record ConsultingMeta : Type 0 where
  pub hook_id : Text
  pub authenticated_matrix_user_id : Option Text

pub record ConsultingRequest : Type 0 where
  pub uri : Text
  pub path : Text
  pub method : Text
  pub headers : GoMap Text
  pub payload : Text

pub record ConsultingResponse : Type 0 where
  pub status_code : ℤ
  pub headers : GoMap Text
  pub payload : Text

pub record RestServiceConsultingRequest : Type 0 where
  pub meta : ConsultingMeta
  pub request : ConsultingRequest
  pub response : Option ConsultingResponse

-- A request of the HTTP client. `timeout` is in nanoseconds, and `cancelled` says whether the
-- request's context has been cancelled.
pub record OutgoingRequest : Type 0 where
  pub method : Text
  pub url : Text
  pub header : GoMap (List Text)
  pub body : Text
  pub timeout : ℤ
  pub cancelled : Bool

-- A response of the REST service, with the outcome of reading its body.
pub record RestResponse : Type 0 where
  pub status_code : ℤ
  pub body : Result Text Text

-- `S` is the rest of the world. `go` starts a goroutine.
pub record Consultor (S : Type 0) : Type 0 where
  pub default_timeout_duration : ℤ
  -- Package `net/http`
  pub new_request_error : (method url : Text) → Option Text
  pub client_do : OutgoingRequest → S → Result Text RestResponse × S
  pub canonical_header_key : Text → Text
  -- Packages `encoding/json`, `fmt`, `time`, and the runtime
  pub marshal_consulting_request : RestServiceConsultingRequest → Result Text Text
  pub unmarshal_hook : Text → Result Text Hook
  pub decimal : ℤ → Text
  pub sleep : (nanoseconds : ℤ) → S → S
  -- The error of reading a body (`io.ReadAll`), if there is one
  pub request_body_error : Request → Option Text
  pub response_body_error : Response → Option Text
  pub go : (S → S) → S → S

-- `strings.Join(values, ", ")`
unfoldable pub http_header_list_to_header_value : List Text → Text
http_header_list_to_header_value [] = []
http_header_list_to_header_value (value ∷ []) = value
http_header_list_to_header_value (value ∷ next ∷ values) =
    value ++ text ", " ++ http_header_list_to_header_value (next ∷ values)

abbrev pub header_values : GoMap (List Text) → GoMap Text
header_values = map (λ e. (e.0, http_header_list_to_header_value e.1))

abbrev pub consulting_response : Response → ConsultingResponse
consulting_response r = record {
  status_code = r.status_code;
  headers = header_values r.header;
  payload = r.body;
}

abbrev pub consulting_request_payload :
    Request → Option ConsultingResponse → Hook → RestServiceConsultingRequest
consulting_request_payload request response h = record {
  meta = record { hook_id = (fields h).id; authenticated_matrix_user_id = request.user_id };
  request = record {
    uri = request.request_uri;
    path = request.path;
    method = request.method;
    headers = header_values request.header;
    payload = request.body;
  };
  response = response;
}

-- `1 + RESTServiceRetryAttempts`, as a `uint` of 64 bits.
unfoldable pub attempts_count : Hook → ℕ
attempts_count h = elim (fields h).rest.rest_service_retry_attempts [
  | none ↦ 1
  | some retries ↦ (1 + retries) % 18446744073709551616
]

-- The hook that an asynchronous consultation answers with at once: its result hook, or
-- `&Hook{Action: ActionPassUnmodified}`.
abbrev pub pass_unmodified_hook : Hook
pass_unmodified_hook =
    hook
      (record {
        id = [];
        event_type = [];
        match_rules = [];
        action = action_pass_unmodified;
        skip_next_hooks_in_chain = false;
        rest = record {
          rest_service_url = none;
          rest_service_request_method = none;
          rest_service_request_headers = none;
          rest_service_request_timeout_milliseconds = none;
          rest_service_retry_attempts = none;
          rest_service_retry_wait_time_milliseconds = none;
          rest_service_async = false;
        };
        respond = record {
          response_payload = none;
          response_skip_payload_json_serialization = false;
          response_status_code = none;
          response_content_type = none;
        };
        reject = record { rejection_error_code = none; rejection_error_message = none };
        pass_modified_request = record {
          inject_json_into_request = none;
          inject_headers_into_request = none;
        };
        pass_modified_response = record {
          inject_json_into_response = none;
          inject_headers_into_response = none;
        };
      })
      no_hook no_hook

abbrev pub async_result : Hook → Hook
async_result (hook f no_hook contingency) = pass_unmodified_hook
async_result (hook f (some_hook h) contingency) = h

-- The contingency hook, if there is one.
abbrev pub contingency : Hook → Option Hook
contingency (hook f async no_hook) = none
contingency (hook f async (some_hook h)) = some h

-- `time.Duration(milliseconds) * time.Millisecond`, an `int64` that wraps around.
abbrev pub to_duration : (milliseconds : ℕ) → ℤ
to_duration milliseconds =
    let nanoseconds = (milliseconds * 1000000) % 18446744073709551616 in
    if ltb nanoseconds 9223372036854775808
    then pos nanoseconds
    else negsuc (18446744073709551615 - nanoseconds)

module _ {S : Type 0} (me : Consultor S) where
  abbrev pub set_all : GoMap Text → GoMap (List Text) → GoMap (List Text)
  set_all [] header = header
  set_all ((k, v) ∷ more) header = set_all more (header_set me.canonical_header_key k v header)

  -- The request's body is read before the response's.
  unfoldable pub prepare_consulting_http_request_payload :
      Request → Option Response → Hook → Result Text RestServiceConsultingRequest
  prepare_consulting_http_request_payload request response h =
      elim (me.request_body_error request) [
        | some e ↦ err (text "failed reading request body: " ++ e)
        | none ↦ elim response [
          | none ↦ ok (consulting_request_payload request none h)
          | some r ↦ elim (me.response_body_error r) [
            | some e ↦ err (text "failed reading response body: " ++ e)
            | none ↦ ok (consulting_request_payload request (some (consulting_response r)) h)
          ]
        ]
      ]

  abbrev pub timeout_duration : Option ℕ → ℤ
  timeout_duration none = me.default_timeout_duration
  timeout_duration (some milliseconds) = to_duration milliseconds

  -- The factory that `prepareConsultingHTTPRequestFactory` returns. Its deferred `cancel` runs when it
  -- returns the request.
  unfoldable pub consulting_http_request : Hook → (payload : Text) → Result Text OutgoingRequest
  consulting_http_request h payload =
      let rest = (fields h).rest in
      let method = value_or (text "POST") rest.rest_service_request_method in
      let url = value_or [] rest.rest_service_url in
      elim (me.new_request_error method url) [
        | some e ↦ err e
        | none ↦ ok (record {
          method = method;
          url = url;
          header =
              set_all (value_or [] rest.rest_service_request_headers)
                ((text "Content-Type", text "application/json" ∷ []) ∷ []);
          body = payload;
          timeout = timeout_duration rest.rest_service_request_timeout_milliseconds;
          cancelled = true;
        })
      ]

  -- The outer error is one of preparing the factory; the rest is what the factory returns each time.
  unfoldable pub prepare_consulting_http_request_factory :
      Request → Option Response → Hook → Result Text (Result Text OutgoingRequest)
  prepare_consulting_http_request_factory request response h =
      if text_eq (value_or [] (fields h).rest.rest_service_url) []
      then err (text "cannot use NewRESTServiceConsultor with an empty RESTServiceURL")
      else elim (prepare_consulting_http_request_payload request response h) [
        | err e ↦
            err (text "could not prepare request payload to be sent to the REST service: " ++ e)
        | ok prepared ↦ elim (me.marshal_consulting_request prepared) [
          | err e ↦
              err (text "could not serialize request payload to be sent to the REST service: " ++ e)
          | ok payload ↦ ok (consulting_http_request h payload)
        ]
      ]

  -- The hook of a response, or why the attempt has failed.
  unfoldable pub read_answer : Result Text RestResponse → Result Text Hook
  read_answer (err e) = err (text "error fetching from URL: " ++ e)
  read_answer (ok response) =
      if not (int_eq response.status_code (pos 200))
      then err (text "non-200 response: " ++ me.decimal response.status_code)
      else elim response.body [
        | err e ↦ err (text "failed reading HTTP response body: " ++ e)
        | ok bytes ↦ elim (me.unmarshal_hook bytes) [
          | err e ↦ err (text "failed parsing JSON out of response: " ++ e)
          | ok h ↦ ok h
        ]
      ]

  abbrev pub wait_before : Hook → (attempt_number : ℕ) → S → S
  wait_before h attempt_number s = elim (ltb 1 attempt_number) [
    | false ↦ s
    | true ↦ elim (fields h).rest.rest_service_retry_wait_time_milliseconds [
      | none ↦ s
      | some milliseconds ↦ me.sleep (to_duration milliseconds) s
    ]
  ]

  abbrev pub gave_up : Hook → Option Text → Text
  gave_up h rest_error =
      text "failed after trying "
      ++ me.decimal (pos (attempts_count h))
      ++ text " times. last error: "
      ++ value_or (text "%!s(<nil>)") rest_error

  -- The loop, with the attempts that are left.
  unfoldable pub call_from :
      Result Text OutgoingRequest
      → Hook
      → (left attempt_number : ℕ) (rest_error : Option Text) → S
      → Result Text Hook × S
  call_from factory h zero attempt_number rest_error s = (err (gave_up h rest_error), s)
  call_from factory h (suc left) attempt_number rest_error s = elim factory [
    | err e ↦ (err e, s)
    | ok request ↦
        let (response, s') = me.client_do request (wait_before h attempt_number s) in
        elim (read_answer response) [
          | ok answer ↦ (ok answer, s')
          | err e ↦ call_from factory h left (attempt_number + 1) (some e) s'
        ]
  ]

  unfoldable pub call_rest_service_with_retries :
      Result Text OutgoingRequest → Hook → S → Result Text Hook × S
  call_rest_service_with_retries factory h s = call_from factory h (attempts_count h) 1 none s

  unfoldable pub consult : Request → Option Response → Hook → S → Result Text Hook × S
  consult request response h s = elim (prepare_consulting_http_request_factory request response h) [
    | err e ↦ (err e, s)
    | ok factory ↦
        if (fields h).rest.rest_service_async
        then (ok (async_result h), me.go (λ t. (call_rest_service_with_retries factory h t).1) s)
        else let (answer, s') = call_rest_service_with_retries factory h s in
          elim answer [
            | ok response_hook ↦ (ok response_hook, s')
            | err e ↦ elim (contingency h) [
              | none ↦ (err e, s')
              | some fallback ↦ (ok fallback, s')
            ]
          ]
  ]
