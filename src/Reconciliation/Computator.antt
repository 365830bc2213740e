-- ===== src/Reconciliation/Computator.antt =====
-- corporal/reconciliation/computator/computator.go, but for its logging.
use matrix_corporal.Base.{
  ℤ, Bool, true, false, not, ◌&&◌, Option, none, some, List, [], ◌∷◌, ◌++◌, Text, text, text_eq,
  int_eq, GoMap, if◌then◌else◌,
}
use mathlib.Core.Option
use matrix_corporal.Util.{is_string_in_array}
use matrix_corporal.UserAuth.{user_auth_type_passthrough}
use matrix_corporal.Policy.{RoomState, UserPolicy, PolicyFlags, Policy}
use matrix_corporal.Connector.State.{
  CurrentUserRoomState, CurrentUserState, CurrentState, get_user_state_by_user_id,
}
use matrix_corporal.Reconciliation.{
  StateAction, string, int, powers, action_user_create, action_user_set_display_name,
  action_user_set_avatar, action_user_activate, action_user_deactivate, action_room_join,
  action_room_leave, action_room_user_set_power_level, action_room_users_set_power_levels,
}

-- The action literals.
abbrev pub user_create : (user_id password : Text) → StateAction
user_create user_id password = record {
  type = action_user_create;
  payload = (text "userId", string user_id) ∷ (text "password", string password) ∷ [];
}

abbrev pub user_activate : (user_id : Text) → StateAction
user_activate user_id = record {
  type = action_user_activate;
  payload = (text "userId", string user_id) ∷ [];
}

abbrev pub user_deactivate : (user_id : Text) → StateAction
user_deactivate user_id = record {
  type = action_user_deactivate;
  payload = (text "userId", string user_id) ∷ [];
}

abbrev pub user_set_display_name : (user_id display_name : Text) → StateAction
user_set_display_name user_id display_name = record {
  type = action_user_set_display_name;
  payload = (text "userId", string user_id) ∷ (text "displayName", string display_name) ∷ [];
}

abbrev pub user_set_avatar : (user_id avatar_uri : Text) → StateAction
user_set_avatar user_id avatar_uri = record {
  type = action_user_set_avatar;
  payload = (text "userId", string user_id) ∷ (text "avatarUri", string avatar_uri) ∷ [];
}

abbrev pub room_join : (user_id room_id : Text) → StateAction
room_join user_id room_id = record {
  type = action_room_join;
  payload = (text "userId", string user_id) ∷ (text "roomId", string room_id) ∷ [];
}

abbrev pub room_leave : (user_id room_id : Text) → StateAction
room_leave user_id room_id = record {
  type = action_room_leave;
  payload = (text "userId", string user_id) ∷ (text "roomId", string room_id) ∷ [];
}

abbrev pub room_user_set_power_level : (user_id room_id : Text) → ℤ → StateAction
room_user_set_power_level user_id room_id power_level = record {
  type = action_room_user_set_power_level;
  payload =
      (text "userId", string user_id)
      ∷ (text "roomId", string room_id)
      ∷ (text "powerLevel", int power_level)
      ∷ [];
}

abbrev pub room_users_set_power_levels : (room_id : Text) → GoMap ℤ → StateAction
room_users_set_power_levels room_id levels = record {
  type = action_room_users_set_power_levels;
  payload = (text "roomPowerForUserId", powers levels) ∷ (text "roomId", string room_id) ∷ [];
}

-- The search for the current power level in a room; `none` is the nil pointer.
unfoldable pub current_power : Text → List CurrentUserRoomState → Option ℤ
current_power room_id [] = none
current_power room_id (r ∷ rooms) =
    if text_eq r.room_id room_id then some r.power_level else current_power room_id rooms

abbrev pub current_rooms : Option CurrentUserState → List CurrentUserRoomState
current_rooms none = []
current_rooms (some s) = s.joined_rooms

-- One round of the loop over the policy's rooms, for a managed room.
unfoldable pub room_changes : (user_id : Text) → Option ℤ → RoomState → List StateAction
room_changes user_id none room =
    room_join user_id room.room_id
    ∷ room_user_set_power_level user_id room.room_id room.power_level
    ∷ []
room_changes user_id (some power) room =
    if int_eq power room.power_level
    then []
    else room_user_set_power_level user_id room.room_id room.power_level ∷ []

unfoldable pub policy_room_changes :
    (user_id : Text)
    → List CurrentUserRoomState
    → (managed : List Text) → List RoomState
    → List StateAction
policy_room_changes user_id current managed [] = []
policy_room_changes user_id current managed (room ∷ rooms) =
    (if is_string_in_array room.room_id managed
      then room_changes user_id (current_power room.room_id current) room
      else [])
    ++ policy_room_changes user_id current managed rooms

-- The search for a room among the policy's rooms.
unfoldable pub is_in_policy_joined_rooms : Text → List RoomState → Bool
is_in_policy_joined_rooms room_id [] = false
is_in_policy_joined_rooms room_id (room ∷ rooms) =
    if text_eq room_id room.room_id then true else is_in_policy_joined_rooms room_id rooms

-- The loop over the current rooms.
unfoldable pub current_room_changes :
    (user_id : Text)
    → List RoomState
    → (managed : List Text) → List CurrentUserRoomState
    → List StateAction
current_room_changes user_id rooms managed [] = []
current_room_changes user_id rooms managed (r ∷ current) =
    (if is_string_in_array r.room_id managed && not (is_in_policy_joined_rooms r.room_id rooms)
      then room_leave user_id r.room_id ∷ []
      else [])
    ++ current_room_changes user_id rooms managed current

unfoldable pub compute_user_room_changes :
    (user_id : Text)
    → Option CurrentUserState
    → UserPolicy
    → (managed : List Text) → List StateAction
compute_user_room_changes user_id current u managed =
    policy_room_changes user_id (current_rooms current) managed u.joined_rooms
    ++ current_room_changes user_id u.joined_rooms managed (current_rooms current)

unfoldable pub compute_user_membership_changes :
    (user_id : Text)
    → Option CurrentUserState
    → UserPolicy
    → (managed : List Text) → List StateAction
compute_user_membership_changes user_id current u managed =
    compute_user_room_changes user_id current u managed

unfoldable pub should_set_display_name : Option CurrentUserState → PolicyFlags → UserPolicy → Bool
should_set_display_name none flags u = not (text_eq u.display_name [])
should_set_display_name (some s) flags u =
    if flags.allow_custom_user_display_names
    then text_eq s.display_name [] && not (text_eq u.display_name [])
    else not (text_eq s.display_name u.display_name)

unfoldable pub compute_user_profile_display_name_changes :
    Option CurrentUserState → Policy → UserPolicy → List StateAction
compute_user_profile_display_name_changes current policy u =
    if should_set_display_name current policy.flags u
    then user_set_display_name u.id u.display_name ∷ []
    else []

-- `uri_hash` is `avatar.UriHash`, the SHA-512 of the text in hexadecimal digits, and
-- `random_password` is what `util.GenerateRandomBytes(64)` yields for a user, in such digits, or `none`
-- when it returns an error. Then the computation panics, which `none` stands for in its results.
module _ (uri_hash : Text → Text) (random_password : UserPolicy → Option Text) where
  unfoldable pub should_set_avatar : Option CurrentUserState → PolicyFlags → UserPolicy → Bool
  should_set_avatar none flags u = not (text_eq u.avatar_uri [])
  should_set_avatar (some s) flags u =
      if flags.allow_custom_user_avatars
      then text_eq s.avatar_source_uri_hash (uri_hash []) && not (text_eq u.avatar_uri [])
      else not (text_eq s.avatar_source_uri_hash (uri_hash u.avatar_uri))

  unfoldable pub compute_user_profile_avatar_changes :
      Option CurrentUserState → Policy → UserPolicy → List StateAction
  compute_user_profile_avatar_changes current policy u =
      if should_set_avatar current policy.flags u
      then user_set_avatar u.id u.avatar_uri ∷ []
      else []

  unfoldable pub compute_user_profile_data_changes :
      Option CurrentUserState → Policy → UserPolicy → List StateAction
  compute_user_profile_data_changes current policy u =
      compute_user_profile_display_name_changes current policy u
      ++ compute_user_profile_avatar_changes current policy u

  unfoldable pub generate_initial_password_for_user : UserPolicy → Option Text
  generate_initial_password_for_user u =
      if text_eq u.auth_type user_auth_type_passthrough
      then some u.auth_credential
      else random_password u

  unfoldable pub compute_user_activation_changes :
      (user_id : Text) → Option CurrentUserState → Policy → UserPolicy → Option (List StateAction)
  compute_user_activation_changes user_id none policy u =
      if u.active
      then Option.map (λ password. user_create u.id password ∷ [])
          (generate_initial_password_for_user u)
      else some []
  compute_user_activation_changes user_id (some s) policy u = some (
      if u.active
      then (if s.active then [] else user_activate u.id ∷ [])
      else compute_user_membership_changes user_id (some s) u policy.managed_room_ids
        ++ (if s.active then user_deactivate u.id ∷ [] else []))

  unfoldable pub compute_user_changes :
      (user_id : Text) → Option CurrentUserState → Policy → UserPolicy → Option (List StateAction)
  compute_user_changes user_id current policy u =
      Option.map
        (λ activation.
          if u.active
          then activation
            ++ (compute_user_profile_data_changes current policy u
                ++ compute_user_membership_changes user_id current u policy.managed_room_ids)
          else activation)
        (compute_user_activation_changes user_id current policy u)

  -- The loop over the policy's users.
  unfoldable pub computed_actions :
      CurrentState → Policy → List UserPolicy → Option (List StateAction)
  computed_actions current policy [] = some []
  computed_actions current policy (u ∷ users) =
      let rest = computed_actions current policy users in
      elim (compute_user_changes u.id (get_user_state_by_user_id current u.id) policy u) [
        | none ↦ none
        | some changes ↦ Option.map (λ actions. changes ++ actions) rest
      ]
