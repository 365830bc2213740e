-- ===== src/Policy.antt =====
-- corporal/policy/policy.go: the policy document. The lists of pointers hold no nil pointers.
pub mod Checker
pub mod Validator
pub mod Store
pub mod Providers
use matrix_corporal.Base.{
  ℤ, Bool, Option, none, some, List, [], ◌∷◌, map, Text, text_eq, if◌then◌else◌,
}
use matrix_corporal.Hook.{Hook}

pub record PolicyFlags : Type 0 where
  pub allow_custom_user_display_names : Bool
  pub allow_custom_user_avatars : Bool
  pub allow_custom_passthrough_user_passwords : Bool
  pub allow_unauthenticated_password_resets : Bool
  pub forbid_room_creation : Bool
  pub forbid_encrypted_room_creation : Bool
  pub forbid_unencrypted_room_creation : Bool
  pub allow_3pid_login : Bool

pub record RoomState : Type 0 where
  pub room_id : Text
  pub power_level : ℤ

pub record UserPolicy : Type 0 where
  pub id : Text
  pub active : Bool
  pub auth_type : Text
  pub auth_credential : Text
  pub display_name : Text
  pub avatar_uri : Text
  pub joined_rooms : List RoomState
  pub forbid_room_creation : Option Bool
  pub forbid_encrypted_room_creation : Option Bool
  pub forbid_unencrypted_room_creation : Option Bool

pub record Policy : Type 0 where
  pub schema_version : ℤ
  pub identification_stamp : Option Text
  pub flags : PolicyFlags
  pub hooks : List Hook
  pub managed_room_ids : List Text
  pub user : List UserPolicy

unfoldable pub get_managed_user_ids : Policy → List Text
get_managed_user_ids policy = map (λ u. u.id) policy.user

-- The loop of `GetUserPolicyByUserId`.
unfoldable pub find_user : Text → List UserPolicy → Option UserPolicy
find_user user_id [] = none
find_user user_id (u ∷ users) = if text_eq u.id user_id then some u else find_user user_id users

unfoldable pub get_user_policy_by_user_id : Policy → Text → Option UserPolicy
get_user_policy_by_user_id policy user_id = find_user user_id policy.user
