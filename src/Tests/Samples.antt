-- ===== src/Tests/Samples.antt =====
-- The policy, the users and the surroundings of the examples.
use matrix_corporal.Base.{pos, Bool, true, false, Option, none, some, [], ◌∷◌, Text, text, text_eq}
use matrix_corporal.Http.{Request}
use matrix_corporal.Hook.{Hook, hook, no_hook, HookMatchRule, HookFields}
use matrix_corporal.Policy.{Policy, PolicyFlags, UserPolicy}

abbrev pub flags : PolicyFlags
flags = record {
  allow_custom_user_display_names = true;
  allow_custom_user_avatars = false;
  allow_custom_passthrough_user_passwords = false;
  allow_unauthenticated_password_resets = false;
  forbid_room_creation = false;
  forbid_encrypted_room_creation = true;
  forbid_unencrypted_room_creation = false;
  allow_3pid_login = false;
}

abbrev pub domain : Text
domain = text "x.org"

abbrev pub room : Text
room = text "!a:x.org"

abbrev pub other_room : Text
other_room = text "!b:x.org"

abbrev pub john_id : Text
john_id = text "@john:x.org"

abbrev pub john : UserPolicy
john = record {
  id = john_id;
  active = true;
  auth_type = text "plain";
  auth_credential = text "pw";
  display_name = text "John";
  avatar_uri = [];
  joined_rooms = record { room_id = room; power_level = pos 50 } ∷ [];
  forbid_room_creation = none;
  forbid_encrypted_room_creation = none;
  forbid_unencrypted_room_creation = none;
}

abbrev pub ann_id : Text
ann_id = text "@ann:x.org"

abbrev pub ann : UserPolicy
ann = record john { id = ann_id; active = false }

abbrev pub rule : HookMatchRule
rule = record { type = text "method"; regex = text "GET"; regex_compiled = none; invert = false }

abbrev pub hook_fields : HookFields
hook_fields = record {
  id = text "h";
  event_type = text "beforeAnyRequest";
  match_rules = rule ∷ [];
  action = text "pass.unmodified";
  skip_next_hooks_in_chain = false;
  rest = record {
    rest_service_url = none;
    rest_service_request_method = none;
    rest_service_request_headers = none;
    rest_service_request_timeout_milliseconds = none;
    rest_service_retry_attempts = none;
    rest_service_retry_wait_time_milliseconds = none;
    rest_service_async = false;
  };
  respond = record {
    response_payload = none;
    response_skip_payload_json_serialization = false;
    response_status_code = none;
    response_content_type = none;
  };
  reject = record { rejection_error_code = none; rejection_error_message = none };
  pass_modified_request = record {
    inject_json_into_request = none;
    inject_headers_into_request = none;
  };
  pass_modified_response = record {
    inject_json_into_response = none;
    inject_headers_into_response = none;
  };
}

abbrev pub first_hook : Hook
first_hook = hook hook_fields no_hook no_hook

-- The hook with its pattern compiled.
abbrev pub compiled_hook : Hook
compiled_hook =
    hook
      (record hook_fields { match_rules = record rule { regex_compiled = some (text "GET") } ∷ [] })
      no_hook no_hook

abbrev pub policy : Policy
policy = record {
  schema_version = pos 2;
  identification_stamp = none;
  flags = flags;
  hooks = first_hook ∷ [];
  managed_room_ids = room ∷ other_room ∷ [];
  user = john ∷ ann ∷ [];
}

-- No pattern fails to compile, and a pattern matches itself.
abbrev pub compile_error : Text → Option Text
compile_error pattern = none

abbrev pub match_string : Text → Text → Bool
match_string pattern value = text_eq pattern value

abbrev pub request : Request
request = record {
  method = text "POST";
  request_uri = text "/x";
  path = text "/x";
  header = (text "Authorization", text "Bearer t" ∷ []) ∷ [];
  body = [];
  content_length = 0;
  vars = (text "roomId", room) ∷ (text "memberId", john_id) ∷ (text "targetUserId", john_id) ∷ [];
  authorization = text "Bearer t";
  form_access_token = none;
  access_token = some (text "t");
  user_id = some john_id;
}
