-- ===== src/Connector/State.antt =====
-- corporal/connector/state.go: the current state of the managed users.
use matrix_corporal.Base.{ℤ, Bool, Option, none, some, List, [], ◌∷◌, Text, text_eq, if◌then◌else◌}

pub record CurrentUserRoomState : Type 0 where
  pub room_id : Text
  pub power_level : ℤ

pub record CurrentUserState : Type 0 where
  pub id : Text
  pub active : Bool
  pub display_name : Text
  pub avatar_mxc_uri : Text
  pub avatar_source_uri_hash : Text
  pub joined_rooms : List CurrentUserRoomState

pub record CurrentState : Type 0 where
  pub users : List CurrentUserState

-- The loop of `GetUserStateByUserId`.
unfoldable pub find_user_state : Text → List CurrentUserState → Option CurrentUserState
find_user_state user_id [] = none
find_user_state user_id (u ∷ users) =
    if text_eq u.id user_id then some u else find_user_state user_id users

unfoldable pub get_user_state_by_user_id : CurrentState → Text → Option CurrentUserState
get_user_state_by_user_id state user_id = find_user_state user_id state.users
