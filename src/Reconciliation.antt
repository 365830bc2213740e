-- ===== src/Reconciliation.antt =====
-- corporal/reconciliation: the actions that bring the homeserver to the policy (actions.go and
-- state.go).
pub mod Computator
pub mod Compute
pub mod Effects
pub mod Grouping
pub mod Emitted
pub mod Settled
pub mod Totality
pub mod Rooms
pub mod RoomTarget
use matrix_corporal.Base.{
  ℤ, Option, none, some, List, Text, text, GoMap, lookup, Result, ok, err, ◌>>=◌,
}

abbrev pub action_user_create : Text
action_user_create = text "user.create"

abbrev pub action_user_set_display_name : Text
action_user_set_display_name = text "user.set_display_name"

abbrev pub action_user_set_avatar : Text
action_user_set_avatar = text "user.set_avatar"

abbrev pub action_user_activate : Text
action_user_activate = text "user.activate"

abbrev pub action_user_deactivate : Text
action_user_deactivate = text "user.deactivate"

abbrev pub action_room_join : Text
action_room_join = text "room.join"

abbrev pub action_room_leave : Text
action_room_leave = text "room.leave"

abbrev pub action_room_user_set_power_level : Text
action_room_user_set_power_level = text "room.user_set_power_level"

abbrev pub action_room_users_set_power_levels : Text
action_room_users_set_power_levels = text "room.users_set_power_levels"

-- The `interface{}` values that a payload holds: `string`, `int` and `map[string]int`.
pub data Value : Type 0 where
  string : Text → Value
  int : ℤ → Value
  powers : GoMap ℤ → Value

pub record StateAction : Type 0 where
  pub type : Text
  pub payload : GoMap Value

pub record State : Type 0 where
  pub actions : List StateAction

pub data PayloadError : Type 0 where
  missing_payload_data : (key : Text) → PayloadError
  failed_casting_payload_data : (key : Text) → PayloadError

unfoldable pub get_payload_data_by_key : StateAction → Text → Result PayloadError Value
get_payload_data_by_key action key = elim (lookup key action.payload) [
  | none ↦ err (missing_payload_data key)
  | some v ↦ ok v
]

abbrev cast_string : Text → Value → Result PayloadError Text
cast_string key (string t) = ok t
cast_string key _ = err (failed_casting_payload_data key)

unfoldable pub get_string_payload_data_by_key : StateAction → Text → Result PayloadError Text
unfolding get_payload_data_by_key
get_string_payload_data_by_key action key = do
  value ← get_payload_data_by_key action key
  cast_string key value

abbrev cast_int : Text → Value → Result PayloadError ℤ
cast_int key (int n) = ok n
cast_int key _ = err (failed_casting_payload_data key)

unfoldable pub get_int_payload_data_by_key : StateAction → Text → Result PayloadError ℤ
unfolding get_payload_data_by_key
get_int_payload_data_by_key action key = do
  value ← get_payload_data_by_key action key
  cast_int key value
