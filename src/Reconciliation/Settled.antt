-- ===== src/Reconciliation/Settled.antt =====
-- The room actions of a user whose rooms are as the policy says (`computeUserRoomChanges` of
-- corporal/reconciliation/computator/computator.go).
use matrix_corporal.Base.{
  ◌≡◌, refl, ◌⊎◌, int_eq_iff, true, false, Option, some, List, [], ◌∷◌, arith, Text, All,
}
use matrix_corporal.Util.{is_string_in_array}
use matrix_corporal.Policy.{RoomState, UserPolicy}
use matrix_corporal.Connector.State.{CurrentUserRoomState, CurrentUserState}
use matrix_corporal.Reconciliation.Computator.{
  current_power, current_rooms, is_in_policy_joined_rooms, room_changes, policy_room_changes,
  current_room_changes, compute_user_room_changes,
}

module _ (managed : List Text) where
  -- The user is in the room with the policy's level, or the room is not managed.
  abbrev pub IsSettled : List CurrentUserRoomState → RoomState → Type 0
  IsSettled current room =
      (is_string_in_array room.room_id managed ≡ false)
      ⊎ (current_power room.room_id current ≡ some room.power_level)

  -- The policy has the user in the room, or the room is not managed.
  abbrev pub IsKept : List RoomState → CurrentUserRoomState → Type 0
  IsKept rooms c =
      (is_string_in_array c.room_id managed ≡ false)
      ⊎ (is_in_policy_joined_rooms c.room_id rooms ≡ true)

  no_policy_room_changes :
      (user_id : Text) (current : List CurrentUserRoomState) (rooms : List RoomState)
      → All (IsSettled current) rooms
      → policy_room_changes user_id current managed rooms ≡ []
  unfolding policy_room_changes room_changes
  no_policy_room_changes user_id current [] h = refl
  no_policy_room_changes user_id current (room ∷ rooms) h = ground (
    arith,
    h.0,
    int_eq_iff room.power_level room.power_level,
    no_policy_room_changes user_id current rooms h.1,
  )

  no_current_room_changes :
      (user_id : Text) (rooms : List RoomState) (current : List CurrentUserRoomState)
      → All (IsKept rooms) current
      → current_room_changes user_id rooms managed current ≡ []
  unfolding current_room_changes
  no_current_room_changes user_id rooms [] h = refl
  no_current_room_changes user_id rooms (c ∷ current) h =
      ground (arith, h.0, no_current_room_changes user_id rooms current h.1)

  -- If the user is in each managed room of the policy with the policy's level, and the policy has
  -- the user in each managed room that the user is in, then no room actions are computed.
  pub compute_user_room_changes-settled :
      (current : Option CurrentUserState) (u : UserPolicy)
      → All (IsSettled (current_rooms current)) u.joined_rooms
      → All (IsKept u.joined_rooms) (current_rooms current)
      → compute_user_room_changes u.id current u managed ≡ []
  unfolding compute_user_room_changes
  compute_user_room_changes-settled current u settled kept = ground (
    arith,
    no_policy_room_changes u.id (current_rooms current) u.joined_rooms settled,
    no_current_room_changes u.id u.joined_rooms (current_rooms current) kept,
  )
