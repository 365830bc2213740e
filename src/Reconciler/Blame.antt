-- ===== src/Reconciler/Blame.antt =====
-- The errors with which a reconciliation may end
-- (corporal/reconciliation/reconciler/reconciler.go).
use matrix_corporal.Base.{
  ◌≡◌, refl, inl, inr, ℤ, Option, Bool, true, false, List, [], ◌∷◌, map, arith, Text, text_eq,
  GoMap, lookup, Result, ok, err, All, All-append, All-ite, sym, Result-cases, subst,
}
use matrix_corporal.Policy.{UserPolicy, Policy, get_managed_user_ids}
use matrix_corporal.Connector.Interface.{Connector}
use matrix_corporal.Reconciliation.{
  StateAction, action_room_user_set_power_level, get_string_payload_data_by_key,
  get_int_payload_data_by_key, get_payload_data_by_key,
}
use matrix_corporal.Reconciliation.Computator.{room_users_set_power_levels}
use matrix_corporal.Reconciliation.Emitted.{Covers, computed_actions-Yields}
use matrix_corporal.Reconciliation.Grouping.{IsShaped, without_powers}
use matrix_corporal.Reconciliation.Totality.{compute_total}
use matrix_corporal.Reconciliation.Compute.{random_panic}
use matrix_corporal.Reconciler.{
  ReconcileError, connector_error, compute_error, handle, handle_all, reconcile, handle_user_create,
  handle_user_set_display_name, handle_user_set_avatar, handle_user_activate,
  handle_user_deactivate, handle_room_join, handle_room_leave, handle_room_users_set_power_levels,
  handle_room_user_set_power_level,
}

-- There is no error, or it is one that the connector or the avatar reader gave, or a panic for want of
-- random bytes.
abbrev pub blames_outside : {E A : Type 0} → Result (ReconcileError E) A → Bool
blames_outside (ok a) = true
blames_outside (err (connector_error e)) = true
blames_outside (err (compute_error random_panic)) = true
blames_outside (err _) = false

module _ {S E Avatar : Type 0} (connector : Connector S E Avatar) (admin : Text) where
  abbrev IsHandled : StateAction → Type 0
  IsHandled a = (s : S) → blames_outside (handle connector admin a s).0 ≡ true

  IsHandled-Covers : Covers IsHandled
  unfolding handle handle_user_create handle_user_set_display_name handle_user_set_avatar
      handle_user_activate handle_user_deactivate handle_room_join handle_room_leave
      handle_room_user_set_power_level lookup text_eq get_string_payload_data_by_key
      get_int_payload_data_by_key get_payload_data_by_key
  IsHandled-Covers = record {
    create = λ u p s. ground arith;
    activate = λ u s. ground arith;
    deactivate = λ u s. ground arith;
    display_name = λ u n s. ground arith;
    avatar = λ u a s. ground arith;
    join = λ u r s. ground arith;
    leave = λ u r s. ground arith;
    power = λ u r l s. ground arith;
  }

  room_users-IsHandled :
      (r : Text) (levels : GoMap ℤ) → IsHandled (room_users_set_power_levels r levels)
  unfolding handle handle_room_users_set_power_levels lookup text_eq get_string_payload_data_by_key
      get_payload_data_by_key
  room_users-IsHandled r levels s = ground arith

  shaped-IsHandled : (e : Text × StateAction) → IsShaped e → IsHandled e.1
  shaped-IsHandled e (levels, same) =
      subst IsHandled {x = room_users_set_power_levels e.0 levels} (sym same)
        (room_users-IsHandled e.0 levels)

  without_powers-All :
      (actions : List StateAction) → All IsHandled actions → All IsHandled (without_powers actions)
  unfolding without_powers
  without_powers-All [] h = tt
  without_powers-All (a ∷ actions) h =
      All-ite IsHandled (text_eq a.type action_room_user_set_power_level) _ _
        (without_powers-All actions h.1) (h.0, without_powers-All actions h.1)

  values-All : (m : GoMap StateAction) → All IsShaped m → All IsHandled (map (λ e. e.1) m)
  values-All [] h = tt
  values-All (e ∷ m) h = (shaped-IsHandled e h.0, values-All m h.1)

  handle_all-blames :
      (actions : List StateAction) (s : S)
      → All IsHandled actions
      → blames_outside (handle_all connector admin actions s).0 ≡ true
  unfolding handle_all
  handle_all-blames [] s h = refl
  handle_all-blames (a ∷ actions) s h = elim (Result-cases (handle connector admin a s).0) [
    | inl (done, e) ↦ ground (arith, handle_all-blames actions (handle connector admin a s).1 h.1)
    | inr (wrong, e) ↦ ground (arith, h.0 s)
  ]

  -- For any connector and any policy, a reconciliation ends without an error, with an error that the
  -- connector or the avatar reader gave, or with the panic of a random source that gives no bytes. It
  -- never ends with an error of a payload, for want of a handler, or with a panic of a type assertion.
  -- The policy's lists have no null entries, and the walk over a map visits only entries of the map.
  pub reconcile-blames_outside :
      (uri_hash : Text → Text) (random_password : UserPolicy → Option Text)
      (range : GoMap StateAction → GoMap StateAction) (policy : Policy) (s : S)
      → ((Q : Text × StateAction → Type 0) (m : GoMap StateAction) → All Q m → All Q (range m))
      → blames_outside (reconcile connector admin uri_hash random_password range policy s).0 ≡ true
  unfolding reconcile
  reconcile-blames_outside uri_hash random_password range policy s visits =
      let determined = connector.determine_current_state (get_managed_user_ids policy) admin s in
      elim (Result-cases determined.0) [
        | inr (wrong, e) ↦ ground arith
        | inl (current, e) ↦ elim (compute_total uri_hash random_password range current policy) [
          | inr (panics, unlucky) ↦ ground arith
          | inl (actions, drawn, (by_room, computed, shaped, once, levels)) ↦
              let all =
                computed_actions-Yields IsHandled IsHandled-Covers uri_hash random_password current
                  policy policy.user actions drawn in
              let handled =
                All-append IsHandled _ _ (without_powers-All _ all)
                  (values-All (range by_room) (visits IsShaped by_room shaped)) in
              let rest = handle_all-blames _ determined.1 handled in ground (arith, rest)
        ]
      ]
