-- ===== src/Hook/Names.antt =====
-- The names of event types, actions and match rule types (corporal/hook/event_types.go, actions.go
-- and hook_match.go).
use matrix_corporal.Base.{List, [], ◌∷◌, Text, text}

abbrev pub event_type_before_any_request : Text
event_type_before_any_request = text "beforeAnyRequest"

abbrev pub event_type_before_authenticated_request : Text
event_type_before_authenticated_request = text "beforeAuthenticatedRequest"

abbrev pub event_type_before_authenticated_policy_checked_request : Text
event_type_before_authenticated_policy_checked_request =
    text "beforeAuthenticatedPolicyCheckedRequest"

abbrev pub event_type_before_unauthenticated_request : Text
event_type_before_unauthenticated_request = text "beforeUnauthenticatedRequest"

abbrev pub event_type_after_any_request : Text
event_type_after_any_request = text "afterAnyRequest"

abbrev pub event_type_after_authenticated_request : Text
event_type_after_authenticated_request = text "afterAuthenticatedRequest"

abbrev pub event_type_after_authenticated_policy_checked_request : Text
event_type_after_authenticated_policy_checked_request =
    text "afterAuthenticatedPolicyCheckedRequest"

abbrev pub event_type_after_unauthenticated_request : Text
event_type_after_unauthenticated_request = text "afterUnauthenticatedRequest"

abbrev pub known_event_types : List Text
known_event_types =
    event_type_before_any_request ∷ event_type_before_authenticated_request
    ∷ event_type_before_authenticated_policy_checked_request
    ∷ event_type_before_unauthenticated_request ∷ event_type_after_any_request
    ∷ event_type_after_authenticated_request ∷ event_type_after_authenticated_policy_checked_request
    ∷ event_type_after_unauthenticated_request ∷ []

abbrev pub action_consult_rest_service_url : Text
action_consult_rest_service_url = text "consult.RESTServiceURL"

abbrev pub action_respond : Text
action_respond = text "respond"

abbrev pub action_reject : Text
action_reject = text "reject"

abbrev pub action_pass_unmodified : Text
action_pass_unmodified = text "pass.unmodified"

abbrev pub action_pass_modified_request : Text
action_pass_modified_request = text "pass.modifiedRequest"

abbrev pub action_pass_modified_response : Text
action_pass_modified_response = text "pass.modifiedResponse"

abbrev pub known_actions : List Text
known_actions =
    action_consult_rest_service_url ∷ action_respond ∷ action_reject ∷ action_pass_unmodified
    ∷ action_pass_modified_response ∷ action_pass_modified_request ∷ []

abbrev pub rule_type_http_method : Text
rule_type_http_method = text "method"

abbrev pub rule_type_url_path : Text
rule_type_url_path = text "route"

abbrev pub rule_type_matrix_user_id : Text
rule_type_matrix_user_id = text "matrixUserID"

abbrev pub known_hook_match_rule_types : List Text
known_hook_match_rule_types =
    rule_type_http_method ∷ rule_type_url_path ∷ rule_type_matrix_user_id ∷ []
