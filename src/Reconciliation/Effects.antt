-- ===== src/Reconciliation/Effects.antt =====
-- What the actions mean, for one user in one room. This is the specification that the computed
-- actions are held against; it reads an action's payload as the reconciler's handlers do.
pub mod Literals
use matrix_corporal.Base.{
  ◌≡◌, refl, ℤ, Bool, true, false, ◌&&◌, Option, none, some, List, [], ◌∷◌, ◌++◌, Text, text,
  text_eq, GoMap, lookup, Result, ok, err, if◌then◌else◌,
}
use matrix_corporal.Reconciliation.{
  StateAction, Value, string, int, powers, get_string_payload_data_by_key,
  get_int_payload_data_by_key, get_payload_data_by_key, action_room_join, action_room_leave,
  action_room_user_set_power_level, action_room_users_set_power_levels,
}

-- `none` outside of the room, else the power level.
abbrev pub Standing : Type 0
Standing = Option ℤ

-- The homeserver gives some level, `default`, to a user who joins. Only members have a level.
abbrev pub joined : ℤ → Standing → Standing
joined default none = some default
joined default (some l) = some l

abbrev pub leveled : ℤ → Standing → Standing
leveled l none = none
leveled l (some _) = some l

module _ (default : ℤ) (user_id room_id : Text) where
  abbrev is_key : Text → Text → StateAction → Bool
  is_key key id action = elim (get_string_payload_data_by_key action key) [
    | ok t ↦ text_eq t id
    | err _ ↦ false
  ]

  unfoldable pub effect : StateAction → Standing → Standing
  effect action s =
      if text_eq action.type action_room_join
      then (if is_key (text "userId") user_id action && is_key (text "roomId") room_id action
          then joined default s
          else s)
      else if text_eq action.type action_room_leave
      then (if is_key (text "userId") user_id action && is_key (text "roomId") room_id action
          then none
          else s)
      else if text_eq action.type action_room_user_set_power_level
      then (if is_key (text "userId") user_id action && is_key (text "roomId") room_id action
          then elim (get_int_payload_data_by_key action (text "powerLevel")) [
            | ok l ↦ leveled l s
            | err _ ↦ s
          ]
          else s)
      else if text_eq action.type action_room_users_set_power_levels
      then (if is_key (text "roomId") room_id action
          then elim (get_payload_data_by_key action (text "roomPowerForUserId")) [
            | ok (powers levels) ↦ elim (lookup user_id levels) [ none ↦ s | some l ↦ leveled l s ]
            | _ ↦ s
          ]
          else s)
      else s

  unfoldable pub effects : List StateAction → Standing → Standing
  effects [] s = s
  effects (action ∷ actions) s = effects actions (effect action s)

  pub effects-append :
      (xs ys : List StateAction) (s : Standing) → effects (xs ++ ys) s ≡ effects ys (effects xs s)
  unfolding effects
  effects-append [] ys s = refl
  effects-append (x ∷ xs) ys s = effects-append xs ys (effect x s)
