-- ===== src/Matrix.antt =====
-- corporal/matrix: the constants of constants.go, and the user id and display name helpers and the
-- rate-limit retry loop of util.go.
pub mod UserIds
pub mod DisplayNames
pub mod RateLimit
pub mod Mapping
use matrix_corporal.Base.{
  ℕ, zero, suc, ◌+◌, ◌*◌, Bool, true, false, not, Option, none, some, ◌++◌, List, [], ◌∷◌, Text,
  text, text_eq, has_prefix, has_suffix, contains, drop, length, Result, ok, err, if◌then◌else◌,
}

abbrev pub error_bad_json : Text
error_bad_json = text "M_BAD_JSON"

abbrev pub error_forbidden : Text
error_forbidden = text "M_FORBIDDEN"

abbrev pub error_invalid_username : Text
error_invalid_username = text "M_INVALID_USERNAME"

abbrev pub error_missing_parameter : Text
error_missing_parameter = text "M_MISSING_PARAM"

abbrev pub error_missing_token : Text
error_missing_token = text "M_MISSING_TOKEN"

abbrev pub error_unknown : Text
error_unknown = text "M_UNKNOWN"

abbrev pub error_not_found : Text
error_not_found = text "M_NOT_FOUND"

abbrev pub error_user_in_use : Text
error_user_in_use = text "M_USER_IN_USE"

abbrev pub error_unknown_token : Text
error_unknown_token = text "M_UNKNOWN_TOKEN"

abbrev pub error_user_deactivated : Text
error_user_deactivated = text "M_USER_DEACTIVATED"

abbrev pub error_limit_exceeded : Text
error_limit_exceeded = text "M_LIMIT_EXCEEDED"

abbrev pub deactivated_account_prefix_marker : Text
deactivated_account_prefix_marker = text "[x] "

abbrev pub login_type_password : Text
login_type_password = text "m.login.password"

abbrev pub login_type_token : Text
login_type_token = text "m.login.token"

abbrev pub login_identifier_type_third_party : Text
login_identifier_type_third_party = text "m.id.thirdparty"

abbrev pub login_identifier_type_phone : Text
login_identifier_type_phone = text "m.id.phone"

unfoldable pub is_user_deactivated_according_to_display_name : Text → Bool
is_user_deactivated_according_to_display_name display_name =
    contains display_name deactivated_account_prefix_marker

unfoldable pub clean_deactivation_marker_from_display_name : Text → Text
clean_deactivation_marker_from_display_name display_name =
    drop (length deactivated_account_prefix_marker) display_name

pub data UserIdError : Type 0 where
  empty_user_id : UserIdError

unfoldable pub determine_full_user_id : Text → Text → Result UserIdError Text
determine_full_user_id user_id homeserver_domain_name =
    if text_eq user_id []
    then err empty_user_id
    else if has_prefix user_id (text "@")
    then ok user_id
    else ok (text "@" ++ (user_id ++ (text ":" ++ homeserver_domain_name)))

unfoldable pub is_full_user_id_of_domain : Text → Text → Bool
is_full_user_id_of_domain user_id_full homeserver_domain_name =
    has_suffix user_id_full (text ":" ++ homeserver_domain_name)

-- Errors of the Matrix client library, with the error code that `err.(gomatrix.HTTPError)` and
-- `.WrappedError.(gomatrix.RespError)` find in them, if both casts succeed.
module _ {E : Type 0} (resp_code : E → Option Text) where
  unfoldable pub is_error_with_code : Option E → Text → Bool
  is_error_with_code none error_code = false
  is_error_with_code (some e) error_code = elim (resp_code e) [
    | none ↦ false
    | some c ↦ text_eq c error_code
  ]

  -- What a call leaves: its error, the state of the homeserver, and the pauses in seconds.
  module _ {S : Type 0} (callback : S → Option E × S) where
    -- The loop from round `retry` on, with `left` rounds to go.
    unfoldable pub retry_from : (left retry : ℕ) (last : Option E) (s : S) → Option E × S × List ℕ
    retry_from zero retry last s = (last, s, [])
    retry_from (suc left) retry last s =
        let (result, after) = callback s in
        let rest = retry_from left (retry + 1) result after in
        elim result [
          | none ↦ (none, after, [])
          | some e ↦
              if not (is_error_with_code (some e) error_limit_exceeded)
              then (some e, after, [])
              else (rest.0, rest.1, ((retry + 1) * 5) ∷ rest.2)
        ]

    unfoldable pub execute_with_rate_limit_retries : S → Option E × S × List ℕ
    execute_with_rate_limit_retries s = retry_from 5 0 none s
