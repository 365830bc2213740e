-- ===== src/Tests/Hooks.antt =====
-- Examples of the execution of hooks.
use matrix_corporal.Base.{
  ◌≡◌, refl, inr, ℕ, ◌+◌, ◌==◌, arith, pos, false, none, some, [], ◌∷◌, Text, text, text_eq, length,
  lookup, ok, err, ok-injective, if◌then◌else◌,
}
use matrix_corporal.Hook.{
  null, Hook, some_hook, no_hook, hook, HookFields, fields, with_fields,
  action_consult_rest_service_url, action_reject, event_type_after_any_request,
}
use matrix_corporal.Hook.Execution.{Modified, out_of_fuel}
use matrix_corporal.Hook.Consulting.{
  consulting_request_payload, prepare_consulting_http_request_payload, Consultor, OutgoingRequest,
  consult, call_rest_service_with_retries, attempts_count, contingency, pass_unmodified_hook,
  consulting_http_request, prepare_consulting_http_request_factory, call_from, read_answer,
}
use matrix_corporal.Hook.Consulting.Retries.{
  CalledWith, call_rest_service_with_retries-Called, consult-ok, RefusesCancelled,
  consult_falls_back,
}
use matrix_corporal.Hook.Actions.{Executor, Work, insert_all, inject_into_response}
use matrix_corporal.Hook.Executor.{execute}
use matrix_corporal.Hook.Executor.Rounds.{rounds, rounds_of, IsCalm}
use matrix_corporal.Hook.Executor.Endings.{Finishes}
use matrix_corporal.Hook.Executor.Termination.{execute-Finishes}
use matrix_corporal.Hook.Executor.Injection.{override, inject_into_response_lem}
use matrix_corporal.Gateway.HookRunner.Sends.{IsExecutor}
use matrix_corporal.Gateway.HookRunner.Executing.{with_executor, with_executor-IsExecutor}
use matrix_corporal.Tests.Samples.{request, policy, john_id, compile_error, match_string}

-- A service whose first request fails, and which then passes everything. The state counts requests.
abbrev moody : Consultor ℕ
moody = record {
  default_timeout_duration = pos 30;
  new_request_error = λ method url. none;
  client_do = λ r s. (
    if s == 0 then err (text "down") else ok (record { status_code = pos 200; body = ok [] }),
    s + 1,
  );
  canonical_header_key = λ key. key;
  marshal_consulting_request = λ r. ok r.request.payload;
  unmarshal_hook = λ bytes. ok pass_unmodified_hook;
  decimal = λ n. [];
  sleep = λ nanoseconds s. s;
  request_body_error = λ r. none;
  response_body_error = λ r. none;
  go = λ job s. job s;
}

-- The same with a client that minds the context of a request.
abbrev strict : Consultor ℕ
strict = record moody {
  client_do = λ r s. (
    if r.cancelled
        then err (text "context canceled")
        else ok (record { status_code = pos 200; body = ok [] }),
    s,
  );
}

abbrev executor : Executor ℕ
executor = record {
  consultor = moody;
  marshal = λ json. ok (text "{}");
  marshal_error = λ error_code error_message. text "no";
  marshal_hook = λ h. ok [];
  unmarshal_object = λ bytes. ok (some ((text "a", null) ∷ []));
}

abbrev consulting_fields : HookFields
consulting_fields =
    let f = fields pass_unmodified_hook in
    record f {
      id = text "ask";
      action = action_consult_rest_service_url;
      rest = record f.rest {
        rest_service_url = some (text "https://rest");
        rest_service_retry_attempts = some 2;
      };
    }

abbrev consulting : Hook
consulting = hook consulting_fields no_hook (some_hook pass_unmodified_hook)

abbrev work : Work ℕ
work = record { request = request; outside = 0; written = [] }

abbrev outgoing : OutgoingRequest
outgoing = record {
  method = text "POST";
  url = text "https://rest";
  header = [];
  body = [];
  timeout = pos 30;
  cancelled = false;
}

call_rest_service_with_retries-Called_example :
    CalledWith moody
      (ok outgoing)
      consulting
      0
      (call_rest_service_with_retries moody (ok outgoing) consulting 0)
call_rest_service_with_retries-Called_example =
    call_rest_service_with_retries-Called moody (ok outgoing) consulting 0

consult-ok_example : (answer : Hook) × ((consult moody request none consulting 0).0 ≡ ok answer)
unfolding text_eq prepare_consulting_http_request_payload
consult-ok_example =
    consult-ok moody request none consulting 0 (consulting_request_payload request none consulting)
      [] refl refl refl (inr (pass_unmodified_hook, refl))

strict-RefusesCancelled : RefusesCancelled strict
strict-RefusesCancelled r s cancelled = (text "context canceled", rw cancelled refl)

consult_falls_back_example : contingency consulting ≡ some pass_unmodified_hook
unfolding consult consulting_http_request call_rest_service_with_retries text_eq attempts_count
    prepare_consulting_http_request_factory prepare_consulting_http_request_payload call_from
    read_answer
consult_falls_back_example =
    consult_falls_back strict strict-RefusesCancelled request none consulting pass_unmodified_hook 0
      refl refl

calm : IsCalm executor
unfolding text_eq prepare_consulting_http_request_payload
calm bytes h e = rw (← (ok-injective {a = pass_unmodified_hook} {b = h} e)) refl

execute-Finishes_example : Finishes (execute executor 3 consulting work)
unfolding rounds rounds_of text_eq
execute-Finishes_example = execute-Finishes executor calm 3 consulting work (omega arith)

abbrev upstream : Modified ℕ
upstream = record {
  response = record { status_code = pos 200; header = []; body = text "hello"; content_length = 5 };
  request = request;
  outside = 0;
}

inject_into_response_lem_example :
    (y : Modified ℕ) × (inject_into_response executor ((text "b", null) ∷ []) [] upstream
      ≡ ok (ok false, y))
    × (y.response.body ≡ text "{}")
    × (y.response.content_length ≡ length (text "{}"))
    × (y.response.status_code ≡ pos 200)
    × ((k : Text)
        → lookup k (insert_all ((text "b", null) ∷ []) ((text "a", null) ∷ []))
          ≡ override (lookup k ((text "b", null) ∷ [])) (lookup k ((text "a", null) ∷ [])))
unfolding lookup
inject_into_response_lem_example =
    inject_into_response_lem executor ((text "b", null) ∷ []) ((text "a", null) ∷ []) [] upstream
      (text "{}") (refl, tt) refl refl

abbrev rejecting : Hook
rejecting =
    let f = fields pass_unmodified_hook in
    with_fields pass_unmodified_hook (record f {
      event_type = event_type_after_any_request;
      action = action_reject;
      reject = record {
        rejection_error_code = some (text "M_FORBIDDEN");
        rejection_error_message = some (text "no");
      };
    })

with_executor-IsExecutor_example : IsExecutor (
    with_executor executor 3 (record {
      execute = λ h x. err out_of_fuel;
      get_policy = λ s. (some policy, s);
      resolve_by_access_token = λ token s. (ok john_id, s);
      compile_error = compile_error;
      match_string = match_string;
    }))
with_executor-IsExecutor_example = with_executor-IsExecutor executor 3 _
