-- ===== src/Hook/Data.antt =====
-- The fields of a hook (corporal/hook/hook.go and hook_match.go). A nil pointer is `none`.
use matrix_corporal.Base.{ℕ, ℤ, Bool, Option, List, Text, GoMap}

-- What `interface{}` holds after `json.Unmarshal`. A number is kept by its text.
mutual
  pub data Json : Type 0 where
    null : Json
    boolean : Bool → Json
    number : Text → Json
    string : Text → Json
    array : JsonItems → Json
    object : JsonFields → Json

  pub data JsonItems : Type 0 where
    no_items : JsonItems
    item : Json → JsonItems → JsonItems

  pub data JsonFields : Type 0 where
    no_fields : JsonFields
    field : Text → Json → JsonFields → JsonFields

-- `regex_compiled` names the pattern whose compiled form the pointer holds.
pub record HookMatchRule : Type 0 where
  pub type : Text
  pub regex : Text
  pub regex_compiled : Option Text
  pub invert : Bool

-- The embedded structs of `Hook`, but for the two pointers to hooks in the first.
pub record RestActionHookDetails : Type 0 where
  pub rest_service_url : Option Text
  pub rest_service_request_method : Option Text
  pub rest_service_request_headers : Option (GoMap Text)
  pub rest_service_request_timeout_milliseconds : Option ℕ
  pub rest_service_retry_attempts : Option ℕ
  pub rest_service_retry_wait_time_milliseconds : Option ℕ
  pub rest_service_async : Bool

pub record RespondActionHookDetails : Type 0 where
  pub response_payload : Option Json
  pub response_skip_payload_json_serialization : Bool
  pub response_status_code : Option ℤ
  pub response_content_type : Option Text

pub record RejectActionHookDetails : Type 0 where
  pub rejection_error_code : Option Text
  pub rejection_error_message : Option Text

pub record PassModifiedRequestActionHookDetails : Type 0 where
  pub inject_json_into_request : Option (GoMap Json)
  pub inject_headers_into_request : Option (GoMap Text)

pub record PassModifiedResponseActionHookDetails : Type 0 where
  pub inject_json_into_response : Option (GoMap Json)
  pub inject_headers_into_response : Option (GoMap Text)

pub record HookFields : Type 0 where
  pub id : Text
  pub event_type : Text
  pub match_rules : List HookMatchRule
  pub action : Text
  pub skip_next_hooks_in_chain : Bool
  pub rest : RestActionHookDetails
  pub respond : RespondActionHookDetails
  pub reject : RejectActionHookDetails
  pub pass_modified_request : PassModifiedRequestActionHookDetails
  pub pass_modified_response : PassModifiedResponseActionHookDetails

-- A hook is its fields, `RESTServiceAsyncResultHook` and `RESTServiceContingencyHook`.
mutual
  pub data Hook : Type 0 where
    hook : HookFields → MaybeHook → MaybeHook → Hook

  pub data MaybeHook : Type 0 where
    no_hook : MaybeHook
    some_hook : Hook → MaybeHook

abbrev pub fields : Hook → HookFields
fields (hook f async contingency) = f

abbrev pub with_fields : Hook → HookFields → Hook
with_fields (hook f async contingency) g = hook g async contingency
