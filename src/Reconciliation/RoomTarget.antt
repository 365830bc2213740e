-- ===== src/Reconciliation/RoomTarget.antt =====
-- What the room actions of a user do to the user's rooms
-- (`computeUserRoomChanges` of corporal/reconciliation/computator/computator.go).
use matrix_corporal.Base.{
  ◌≡◌, ap, ◌∙◌, ℤ, Bool, true, false, not, ◌&&◌, Option, none, some, List, [], ◌∷◌, Nodup, arith,
  Text, text_eq, text_eq_iff, text_eq_refl, if◌then◌else◌, Bool-cases, inl, inr,
}
use matrix_corporal.Util.{is_string_in_array}
use matrix_corporal.Policy.{RoomState, UserPolicy}
use matrix_corporal.Connector.State.{CurrentUserRoomState, CurrentUserState}
use matrix_corporal.Reconciliation.{StateAction}
use matrix_corporal.Reconciliation.Computator.{
  room_leave, current_power, current_rooms, is_in_policy_joined_rooms, current_room_changes,
  policy_room_changes, compute_user_room_changes,
}
use matrix_corporal.Reconciliation.Effects.{Standing, effects, effects-append}
use matrix_corporal.Reconciliation.Effects.Literals.{effect-room_leave}
use matrix_corporal.Reconciliation.Rooms.{
  policy_level, room_ids, is_in_policy-policy_level, effects-policy_room_changes,
}

module _ (default : ℤ) (u r : Text) (rooms : List RoomState) (managed : List Text) where
  abbrev is_left : Text → Bool
  is_left t = is_string_in_array t managed && not (is_in_policy_joined_rooms t rooms)

  abbrev round : CurrentUserRoomState → List StateAction
  round c = if is_left c.room_id then room_leave u c.room_id ∷ [] else []

  round_other :
      (c : CurrentUserRoomState) (s : Standing)
      → text_eq c.room_id r ≡ false
      → effects default u r (round c) s ≡ s
  unfolding effects
  round_other c s h = ground (arith, effect-room_leave default u r u c.room_id s)

  round_self :
      (c : CurrentUserRoomState) (s : Standing)
      → text_eq c.room_id r ≡ true
      → effects default u r (round c) s ≡ (if is_left r then none else s)
  unfolding effects
  round_self c s h = ground (
    arith,
    text_eq_refl u,
    ap is_left ((text_eq_iff c.room_id r).0 h),
    effect-room_leave default u r u c.room_id s,
  )

  -- The second loop: a managed room that the policy does not list is left, if it is a current one.
  effects-current_room_changes :
      (current : List CurrentUserRoomState) (s : Standing)
      → effects default u r (current_room_changes u rooms managed current) s
        ≡ (if is_left r then elim (current_power r current) [ none ↦ s | some _ ↦ none ] else s)
  unfolding effects current_room_changes current_power
  effects-current_room_changes [] s = ground arith
  effects-current_room_changes (c ∷ current) s =
      effects-append default u r (round c) _ s ∙ (elim (Bool-cases (text_eq c.room_id r)) [
        | inl e ↦ ground (
          arith,
          round_self c s e,
          effects-current_room_changes current (effects default u r (round c) s),
        )
        | inr e ↦ ground (arith, round_other c s e, effects-current_room_changes current s)
      ])

-- After the computed room actions the user has, in each managed room, exactly the standing that the
-- policy asks for: the policy's level in the rooms that it lists, and outside of the others. In a
-- room that is not managed the standing is unchanged. The policy lists no room twice.
pub compute_user_room_changes-policy_level :
    (default : ℤ) (r : Text) (current : Option CurrentUserState) (u : UserPolicy)
    (managed : List Text)
    → Nodup (room_ids u.joined_rooms)
    → effects default u.id r
        (compute_user_room_changes u.id current u managed)
        (current_power r (current_rooms current))
      ≡ (if is_string_in_array r managed
          then policy_level r u.joined_rooms
          else current_power r (current_rooms current))
unfolding compute_user_room_changes
compute_user_room_changes-policy_level default r current u managed d =
    let cur = current_rooms current in
    effects-append default u.id r (policy_room_changes u.id cur managed u.joined_rooms) _ _
    ∙ ground (
      arith,
      effects-policy_room_changes default u.id r managed cur u.joined_rooms d,
      effects-current_room_changes default u.id r u.joined_rooms managed cur (
          effects default u.id r (policy_room_changes u.id cur managed u.joined_rooms)
            (current_power r cur)),
      is_in_policy-policy_level r u.joined_rooms,
    )
