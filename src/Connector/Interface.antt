-- ===== src/Connector/Interface.antt =====
-- corporal/connector/interface.go: the operations that the reconciler asks of the homeserver, and the
-- avatar reader of corporal/avatar. `S` is the state of the world, the access token context included.
use matrix_corporal.Base.{ℤ, Option, List, Text, GoMap, Result}
use matrix_corporal.Connector.State.{CurrentState}

pub record Connector (S E Avatar : Type 0) : Type 0 where
  pub determine_current_state :
      (managed_user_ids : List Text) (admin_user_id : Text) → S → Result E CurrentState × S
  pub ensure_user_account_exists : (user_id password : Text) → S → Option E × S
  -- The display name of the profile.
  pub get_user_profile_by_user_id : (user_id : Text) → S → Result E Text × S
  pub set_user_display_name : (user_id display_name : Text) → S → Option E × S
  pub set_user_avatar : (user_id : Text) → Avatar → S → Option E × S
  pub logout_all_access_tokens_for_user : (user_id : Text) → S → Option E × S
  pub invite_user_to_room : (inviter_id invitee_id room_id : Text) → S → Option E × S
  pub join_room : (user_id room_id : Text) → S → Option E × S
  pub leave_room : (user_id room_id : Text) → S → Option E × S
  pub update_room_user_power_level :
      (owner_id : Text) (room_power_for_user_id : GoMap ℤ) (room_id : Text) → S → Option E × S
  pub read_avatar : (avatar_uri : Text) → S → Result E Avatar × S
  -- `ctx.Release()`
  pub release : S → S
