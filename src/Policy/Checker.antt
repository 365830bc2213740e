-- ===== src/Policy/Checker.antt =====
-- corporal/policy/checker.go: what the policy allows a user.
pub mod Precedence
use matrix_corporal.Base.{
  Bool, true, false, not, Option, none, some, List, [], ◌∷◌, Text, text_eq, if◌then◌else◌,
}
use matrix_corporal.Policy.{Policy, RoomState, get_user_policy_by_user_id}

unfoldable pub can_user_create_room : Policy → Text → Bool
can_user_create_room policy user_id = elim (get_user_policy_by_user_id policy user_id) [
  | none ↦ not policy.flags.forbid_room_creation
  | some u ↦ elim u.forbid_room_creation [
    | none ↦ not policy.flags.forbid_room_creation
    | some forbid ↦ not forbid
  ]
]

unfoldable pub can_user_create_encrypted_room : Policy → Text → Bool
can_user_create_encrypted_room policy user_id = elim (get_user_policy_by_user_id policy user_id) [
  | none ↦ not policy.flags.forbid_encrypted_room_creation
  | some u ↦ elim u.forbid_encrypted_room_creation [
    | none ↦ not policy.flags.forbid_encrypted_room_creation
    | some forbid ↦ not forbid
  ]
]

unfoldable pub can_user_create_unencrypted_room : Policy → Text → Bool
can_user_create_unencrypted_room policy user_id = elim (get_user_policy_by_user_id policy user_id) [
  | none ↦ not policy.flags.forbid_unencrypted_room_creation
  | some u ↦ elim u.forbid_unencrypted_room_creation [
    | none ↦ not policy.flags.forbid_unencrypted_room_creation
    | some forbid ↦ not forbid
  ]
]

unfoldable pub can_user_send_event_to_room : Policy → (user_id event_type room_id : Text) → Bool
can_user_send_event_to_room policy user_id event_type room_id = true

-- The loop that returns `false` at a room of the policy.
unfoldable pub is_not_joined : Text → List RoomState → Bool
is_not_joined room_id [] = true
is_not_joined room_id (value ∷ rooms) =
    if text_eq value.room_id room_id then false else is_not_joined room_id rooms

unfoldable pub can_user_change_own_membership_state_in_room :
    Policy → (user_id room_id : Text) → Bool
can_user_change_own_membership_state_in_room policy user_id room_id =
    elim (get_user_policy_by_user_id policy user_id) [
      | none ↦ true
      | some u ↦ is_not_joined room_id u.joined_rooms
    ]

unfoldable pub can_user_leave_room : Policy → (user_id room_id : Text) → Bool
can_user_leave_room policy user_id room_id =
    can_user_change_own_membership_state_in_room policy user_id room_id

unfoldable pub can_user_use_custom_display_name : Policy → Text → Bool
can_user_use_custom_display_name policy user_id = policy.flags.allow_custom_user_display_names

unfoldable pub can_user_use_custom_avatar : Policy → Text → Bool
can_user_use_custom_avatar policy user_id = policy.flags.allow_custom_user_avatars
