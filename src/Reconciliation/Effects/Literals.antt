-- ===== src/Reconciliation/Effects/Literals.antt =====
-- The effects of the action literals of the computator.
use matrix_corporal.Base.{
  ◌≡◌, refl, ℤ, ◌&&◌, none, some, Text, text_eq, GoMap, lookup, if◌then◌else◌,
}
use matrix_corporal.Reconciliation.{get_string_payload_data_by_key, get_int_payload_data_by_key}
use matrix_corporal.Reconciliation.Computator.{
  room_join, room_leave, room_user_set_power_level, room_users_set_power_levels, user_create,
  user_activate, user_deactivate, user_set_display_name, user_set_avatar,
}
use matrix_corporal.Reconciliation.Effects.{Standing, joined, leveled, effect}

program : Unit {0}
unfolding effect text_eq get_string_payload_data_by_key get_int_payload_data_by_key lookup
program = tt

module _ (default : ℤ) (user_id room_id u r : Text) (s : Standing) where
  pub effect-room_join :
      effect default user_id room_id (room_join u r) s
      ≡ (if text_eq u user_id && text_eq r room_id then joined default s else s)
  unfolding program
  effect-room_join = refl

  pub effect-room_leave :
      effect default user_id room_id (room_leave u r) s
      ≡ (if text_eq u user_id && text_eq r room_id then none else s)
  unfolding program
  effect-room_leave = refl

  pub effect-room_user_set_power_level :
      (l : ℤ)
      → effect default user_id room_id (room_user_set_power_level u r l) s
        ≡ (if text_eq u user_id && text_eq r room_id then leveled l s else s)
  unfolding program
  effect-room_user_set_power_level l = refl

  pub effect-room_users_set_power_levels :
      (levels : GoMap ℤ)
      → effect default user_id room_id (room_users_set_power_levels r levels) s ≡ (
          if text_eq r room_id
          then elim (lookup user_id levels) [ none ↦ s | some l ↦ leveled l s ]
          else s)
  unfolding program
  effect-room_users_set_power_levels levels = refl

  -- The other actions leave rooms alone. Here `r` is a password, a name or a URI.
  pub effect-user_create : effect default user_id room_id (user_create u r) s ≡ s
  unfolding program
  effect-user_create = refl

  pub effect-user_set_display_name :
      effect default user_id room_id (user_set_display_name u r) s ≡ s
  unfolding program
  effect-user_set_display_name = refl

  pub effect-user_set_avatar : effect default user_id room_id (user_set_avatar u r) s ≡ s
  unfolding program
  effect-user_set_avatar = refl

module _ (default : ℤ) (user_id room_id u : Text) (s : Standing) where
  pub effect-user_activate : effect default user_id room_id (user_activate u) s ≡ s
  unfolding program
  effect-user_activate = refl

  pub effect-user_deactivate : effect default user_id room_id (user_deactivate u) s ≡ s
  unfolding program
  effect-user_deactivate = refl
