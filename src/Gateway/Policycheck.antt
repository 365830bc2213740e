-- ===== src/Gateway/Policycheck.antt =====
-- corporal/httpgateway/policycheck: the checks of the policy-checked routes. Reading JSON from the
-- request's body (encoding/json) is a parameter for each kind of payload: it gives the part that the
-- check reads, or the message of the error.
pub mod Agreement
use matrix_corporal.Base.{
  Bool, true, false, not, Option, none, some, List, [], ◌∷◌, Text, text, text_eq, lookup, Result,
  ok, err, ◌>>=◌, if◌then◌else◌,
}
use matrix_corporal.Http.{Request}
use matrix_corporal.Matrix.{
  error_forbidden, error_bad_json, is_user_deactivated_according_to_display_name,
}
use matrix_corporal.UserAuth.{user_auth_type_passthrough}
use matrix_corporal.Policy.{Policy, get_user_policy_by_user_id}
use matrix_corporal.Policy.Checker.{
  can_user_create_room, can_user_create_encrypted_room, can_user_create_unencrypted_room,
  can_user_send_event_to_room, can_user_leave_room, can_user_change_own_membership_state_in_room,
  can_user_use_custom_display_name, can_user_use_custom_avatar,
}

pub record PolicyCheckResponse : Type 0 where
  pub allow : Bool
  pub error_code : Text
  pub error_message : Text

-- `ctx.Value("userId").(string)` panics when there is no user id.
pub data Panic : Type 0 where
  no_user_id : Panic

abbrev pub Check : Type 0
Check = Result Panic PolicyCheckResponse

abbrev pub allowed : PolicyCheckResponse
allowed = record { allow = true; error_code = []; error_message = [] }

abbrev pub denied : (error_code error_message : Text) → PolicyCheckResponse
denied error_code error_message = record {
  allow = false;
  error_code = error_code;
  error_message = error_message;
}

abbrev pub context_user_id : Request → Result Panic Text
context_user_id r = elim r.user_id [ none ↦ err no_user_id | some user_id ↦ ok user_id ]

-- `mux.Vars(r)[name]`: the zero value for a missing name.
abbrev pub var : Request → Text → Text
var r name = elim (lookup name r.vars) [ none ↦ [] | some v ↦ v ]

-- The loop over the initial state events of a room, by their types.
unfoldable pub is_encrypted : List Text → Bool
is_encrypted [] = false
is_encrypted (type ∷ types) =
    if text_eq type (text "m.room.encryption") then true else is_encrypted types

unfoldable pub check_room_create :
    (read_initial_state : Text → Result Text (List Text)) → Request → Policy → Check
check_room_create read_initial_state r policy = do
  user_id ← context_user_id r
  (if not (can_user_create_room policy user_id)
      then ok (denied error_forbidden (text "Denied by policy (cannot create rooms)"))
      else elim (read_initial_state r.body) [
        | err message ↦ ok (denied error_bad_json message)
        | ok types ↦
            if is_encrypted types
            then (if not (can_user_create_encrypted_room policy user_id)
                then ok (
                    denied error_forbidden
                      (text "Denied by policy (cannot create encrypted rooms)"))
                else ok allowed)
            else (if not (can_user_create_unencrypted_room policy user_id)
                then ok (
                    denied error_forbidden
                      (text "Denied by policy (cannot create unencrypted rooms)"))
                else ok allowed)
      ])

unfoldable pub check_room_encryption_state_change : Request → Policy → Check
check_room_encryption_state_change r policy = do
  user_id ← context_user_id r
  (if not (can_user_create_encrypted_room policy user_id)
      then ok (denied error_forbidden (text "Denied by policy (cannot create encrypted rooms)"))
      else ok allowed)

unfoldable pub check_room_send_event : Request → Policy → Check
check_room_send_event r policy = do
  user_id ← context_user_id r
  (if not (
        can_user_send_event_to_room policy user_id (var r (text "eventType"))
          (var r (text "roomId")))
      then ok (denied error_forbidden (text "Denied by policy"))
      else ok allowed)

unfoldable pub check_room_leave : Request → Policy → Check
check_room_leave r policy = do
  user_id ← context_user_id r
  (if not (can_user_leave_room policy user_id (var r (text "roomId")))
      then ok (denied error_forbidden (text "Denied by policy"))
      else ok allowed)

unfoldable pub check_room_membership_state_change : Request → Policy → Check
check_room_membership_state_change r policy = do
  user_id ← context_user_id r
  (if not (text_eq user_id (var r (text "memberId")))
      then ok allowed
      else (if not
            (can_user_change_own_membership_state_in_room policy user_id (var r (text "roomId")))
          then ok (denied error_forbidden (text "Denied by policy"))
          else ok allowed))

-- `read_user_id` gives the `user_id` of a kick.
unfoldable pub check_room_kick : (read_user_id : Text → Result Text Text) → Request → Policy → Check
check_room_kick read_user_id r policy = do
  user_id ← context_user_id r
  (if can_user_change_own_membership_state_in_room policy user_id (var r (text "roomId"))
      then ok allowed
      else elim (read_user_id r.body) [
        | err message ↦ ok (denied error_bad_json message)
        | ok kicked ↦
            if text_eq user_id kicked
            then ok (denied error_forbidden (text "Denied by policy"))
            else ok allowed
      ])

unfoldable pub check_user_deactivate : Request → Policy → Check
check_user_deactivate r policy = do
  user_id ← context_user_id r
  elim (get_user_policy_by_user_id policy user_id) [
    | none ↦ ok allowed
    | some u ↦ ok (denied error_forbidden (text "Denied"))
  ]

unfoldable pub check_user_set_password : Request → Policy → Check
check_user_set_password r policy = elim r.user_id [
  | none ↦
      if policy.flags.allow_unauthenticated_password_resets
      then ok allowed
      else ok (
          denied error_forbidden
            (text "Denied: unauthenticted password requests are not allowed on this server"))
  | some user_id ↦ elim (get_user_policy_by_user_id policy user_id) [
    | none ↦ ok allowed
    | some u ↦
        if text_eq u.auth_type user_auth_type_passthrough
        then (if policy.flags.allow_custom_passthrough_user_passwords
            then ok allowed
            else ok (
                denied error_forbidden
                  (text "Denied: passthrough user, but policy does not allow password changes")))
        else ok (
            denied error_forbidden (
              text
                "Denied: non-passthrough users are always authenticated against matrix-corporal, so password resets make no sense"))
  ]
]

-- `read_display_name` gives the `displayname` of the payload.
unfoldable pub check_profile_set_display_name :
    (read_display_name : Text → Result Text Text) → Request → Policy → Check
check_profile_set_display_name read_display_name r policy = do
  user_id ← context_user_id r
  (if not (text_eq user_id (var r (text "targetUserId")))
      then ok allowed
      else elim (get_user_policy_by_user_id policy user_id) [
        | none ↦ ok allowed
        | some u ↦
            if not (can_user_use_custom_display_name policy user_id)
            then ok (denied error_forbidden (text "Denied by policy"))
            else elim (read_display_name r.body) [
              | err message ↦ ok (denied error_bad_json message)
              | ok display_name ↦
                  if is_user_deactivated_according_to_display_name display_name
                  then ok (denied error_forbidden (text "Denied - unallowed display name"))
                  else ok allowed
            ]
      ])

unfoldable pub check_profile_set_avatar_url : Request → Policy → Check
check_profile_set_avatar_url r policy = do
  user_id ← context_user_id r
  (if not (text_eq user_id (var r (text "targetUserId")))
      then ok allowed
      else elim (get_user_policy_by_user_id policy user_id) [
        | none ↦ ok allowed
        | some u ↦
            if not (can_user_use_custom_avatar policy user_id)
            then ok (denied error_forbidden (text "Denied by policy"))
            else ok allowed
      ])
