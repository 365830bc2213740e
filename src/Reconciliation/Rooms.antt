-- ===== src/Reconciliation/Rooms.antt =====
-- The first loop of `computeUserRoomChanges`: the rooms that the policy lists for a user
-- (corporal/reconciliation/computator/computator.go).
use mathlib.Core.List.{mem-cons_self, mem-cons_of_mem, Nodup-cons}
use matrix_corporal.Base.{
  ◌≡◌, refl, ap, ◌∙◌, ℤ, int_eq_iff, true, false, Option, none, some, List, [], ◌∷◌, map, Mem,
  Nodup, arith, Text, text_eq, text_eq_iff, text_eq_refl, if◌then◌else◌, Bool-cases, inl, inr,
}
use matrix_corporal.Util.{is_string_in_array}
use matrix_corporal.Policy.{RoomState}
use matrix_corporal.Connector.State.{CurrentUserRoomState}
use matrix_corporal.Reconciliation.{StateAction}
use matrix_corporal.Reconciliation.Computator.{
  current_power, room_changes, policy_room_changes, is_in_policy_joined_rooms,
}
use matrix_corporal.Reconciliation.Effects.{Standing, effects, effects-append}
use matrix_corporal.Reconciliation.Effects.Literals.{
  effect-room_join, effect-room_user_set_power_level,
}

-- The level that the policy gives the user in a room, if it lists the room.
unfoldable pub policy_level : Text → List RoomState → Option ℤ
policy_level room_id [] = none
policy_level room_id (room ∷ rooms) =
    if text_eq room.room_id room_id then some room.power_level else policy_level room_id rooms

abbrev pub room_ids : List RoomState → List Text
room_ids = map (λ r. r.room_id)

policy_level_absent :
    (r : Text) (rooms : List RoomState) → ¬ Mem r (room_ids rooms) → policy_level r rooms ≡ none
unfolding policy_level
policy_level_absent r [] h = refl
policy_level_absent r (room ∷ rooms) h = elim (Bool-cases (text_eq room.room_id r)) [
  | inl e ↦ absurd (h (rw (← (text_eq_iff room.room_id r).0 e) mem-cons_self))
  | inr e ↦ rw e (policy_level_absent r rooms (λ m. h (mem-cons_of_mem _ m)))
]

pub is_in_policy-policy_level :
    (r : Text) (rooms : List RoomState)
    → is_in_policy_joined_rooms r rooms
      ≡ elim (policy_level r rooms) [ none ↦ false | some _ ↦ true ]
unfolding is_in_policy_joined_rooms policy_level
is_in_policy-policy_level r [] = refl
is_in_policy-policy_level r (room ∷ rooms) = ground (
  arith,
  text_eq_iff r room.room_id,
  text_eq_iff room.room_id r,
  is_in_policy-policy_level r rooms,
)

module _ (default : ℤ) (u r : Text) (managed : List Text)
    (current : List CurrentUserRoomState) where
  abbrev after : List StateAction → Standing → Standing
  after = effects default u r

  room_changes_other :
      (power : Option ℤ) (room : RoomState) (s : Standing)
      → text_eq room.room_id r ≡ false
      → after (room_changes u power room) s ≡ s
  unfolding room_changes effects
  room_changes_other none room s h = ground (
    arith,
    effect-room_join default u r u room.room_id s,
    effect-room_user_set_power_level default u r u room.room_id s room.power_level,
  )
  room_changes_other (some power) room s h =
      ground (arith, effect-room_user_set_power_level default u r u room.room_id s room.power_level)

  room_changes_self :
      (room : RoomState) (s : Standing)
      → text_eq room.room_id r ≡ true
      → after (room_changes u s room) s ≡ some room.power_level
  unfolding room_changes effects
  room_changes_self room none h = ground (
    arith,
    text_eq_refl u,
    effect-room_join default u r u room.room_id none,
    effect-room_user_set_power_level default u r u room.room_id (some default) room.power_level,
  )
  room_changes_self room (some power) h = ground (
    arith,
    text_eq_refl u,
    int_eq_iff power room.power_level,
    effect-room_user_set_power_level default u r u room.room_id (some power) room.power_level,
  )

  abbrev round : RoomState → List StateAction
  round room =
      if is_string_in_array room.room_id managed
      then room_changes u (current_power room.room_id current) room
      else []

  round_other :
      (room : RoomState) (s : Standing) → text_eq room.room_id r ≡ false → after (round room) s ≡ s
  unfolding effects
  round_other room s h = elim (Bool-cases (is_string_in_array room.room_id managed)) [
    | inl m ↦ rw m (room_changes_other (current_power room.room_id current) room s h)
    | inr m ↦ rw m
  ]

  round_self :
      (room : RoomState)
      → text_eq room.room_id r ≡ true
      → after (round room) (current_power r current)
        ≡ (if is_string_in_array r managed then some room.power_level else current_power r current)
  unfolding effects
  round_self room h =
      let same : room.room_id ≡ r = (text_eq_iff room.room_id r).0 h in
      ground (
        arith,
        ap (λ t. is_string_in_array t managed) same,
        ap (λ t. room_changes u (current_power t current) room) same,
        room_changes_self room (current_power r current) h,
      )

  policy_room_changes_absent :
      (rooms : List RoomState) (s : Standing)
      → policy_level r rooms ≡ none
      → after (policy_room_changes u current managed rooms) s ≡ s
  unfolding policy_room_changes policy_level effects
  policy_room_changes_absent [] s h = refl
  policy_room_changes_absent (room ∷ rooms) s h =
      effects-append default u r (round room) _ s
      ∙ ground (arith, round_other room s, policy_room_changes_absent rooms s)

  -- The first loop, from the standing that the search finds.
  pub effects-policy_room_changes :
      (rooms : List RoomState)
      → Nodup (room_ids rooms)
      → after (policy_room_changes u current managed rooms) (current_power r current) ≡ (
          if is_string_in_array r managed
          then elim (policy_level r rooms) [ none ↦ current_power r current | some l ↦ some l ]
          else current_power r current)
  unfolding policy_room_changes policy_level effects
  effects-policy_room_changes [] d = ground arith
  effects-policy_room_changes (room ∷ rooms) d =
      effects-append default u r (round room) _ _ ∙ (elim (Bool-cases (text_eq room.room_id r)) [
        | inl e ↦
            let same : room.room_id ≡ r = (text_eq_iff room.room_id r).0 e in
            let absent : policy_level r rooms ≡ none =
              policy_level_absent r rooms (rw same at ((Nodup-cons.0 d).0)) in
            ground (
              arith,
              round_self room e,
              policy_room_changes_absent rooms (after (round room) (current_power r current))
                  absent,
            )
        | inr e ↦
            rw (round_other room _ e) (rw e (effects-policy_room_changes rooms (Nodup-cons.0 d).1))
      ])
