-- ===== src/Reconciler.antt =====
-- corporal/reconciliation/reconciler/reconciler.go: the handlers of the actions, and `Reconcile`.
pub mod Outcome
pub mod StoreDriven
pub mod Blame
use matrix_corporal.Base.{
  ℤ, Bool, true, false, not, Option, none, some, List, [], ◌∷◌, ◌++◌, Text, text, text_eq, GoMap,
  lookup, insert, Result, ok, err, if◌then◌else◌,
}
use matrix_corporal.Matrix.{
  deactivated_account_prefix_marker, is_user_deactivated_according_to_display_name,
  clean_deactivation_marker_from_display_name,
}
use matrix_corporal.Policy.{UserPolicy, Policy, get_managed_user_ids}
use matrix_corporal.Connector.State.{CurrentState}
use matrix_corporal.Connector.Interface.{Connector}
use matrix_corporal.Reconciliation.{
  StateAction, State, Value, string, int, powers, PayloadError, get_payload_data_by_key,
  get_string_payload_data_by_key, get_int_payload_data_by_key, action_user_create,
  action_user_set_display_name, action_user_set_avatar, action_user_activate,
  action_user_deactivate, action_room_join, action_room_leave, action_room_user_set_power_level,
  action_room_users_set_power_levels,
}
use matrix_corporal.Reconciliation.Compute.{ComputeError, compute}

-- An error of `Reconcile`, told apart by what it wraps. `connector_error` is one of the connector or
-- of the avatar reader.
pub data ReconcileError (E : Type 0) : Type 0 where
  payload_error : PayloadError → ReconcileError E
  connector_error : E → ReconcileError E
  compute_error : ComputeError → ReconcileError E
  missing_handler : (type : Text) → ReconcileError E
  assertion_panic : ReconcileError E

-- Code that works on the world and may return an error.
abbrev pub M : (S E A : Type 0) → Type 0
M S E A = S → Result (ReconcileError E) A × S

infixl 5 ◌>>=◌ ◌>>◌
abbrev pub ◌>>=◌ : {S E A B : Type 0} → M S E A → (A → M S E B) → M S E B
m >>= f = λ s. elim (m s).0 [ ok a ↦ f a (m s).1 | err e ↦ (err e, (m s).1) ]

abbrev pub ◌>>◌ : {S E B : Type 0} → M S E (Unit {0}) → M S E B → M S E B
m >> k = m >>= λ _. k

abbrev pub done : {S E : Type 0} → M S E (Unit {0})
done s = (ok tt, s)

-- A result of the payload's methods, and the two kinds of calls of the connector.
abbrev pub payload : {S E A : Type 0} → Result PayloadError A → M S E A
payload (ok a) s = (ok a, s)
payload (err e) s = (err (payload_error e), s)

abbrev pub call : {S E : Type 0} → (S → Option E × S) → M S E (Unit {0})
call op s = elim (op s).0 [
  | none ↦ (ok tt, (op s).1)
  | some e ↦ (err (connector_error e), (op s).1)
]

abbrev pub ask : {S E A : Type 0} → (S → Result E A × S) → M S E A
ask op s = elim (op s).0 [ ok a ↦ (ok a, (op s).1) | err e ↦ (err (connector_error e), (op s).1) ]

module _ {S E Avatar : Type 0} (connector : Connector S E Avatar)
    (reconciliator_user_id : Text) where
  open connector use {
    determine_current_state, ensure_user_account_exists, get_user_profile_by_user_id,
    set_user_display_name, set_user_avatar, logout_all_access_tokens_for_user, invite_user_to_room,
    join_room, leave_room, update_room_user_power_level, read_avatar, release,
  }

  abbrev pub read_string : StateAction → Text → M S E Text
  read_string action key = payload (get_string_payload_data_by_key action key)

  unfoldable pub handle_user_create : StateAction → M S E (Unit {0})
  handle_user_create action = do
    user_id ← read_string action (text "userId")
    password ← read_string action (text "password")
    call (ensure_user_account_exists user_id password)

  unfoldable pub handle_user_set_display_name : StateAction → M S E (Unit {0})
  handle_user_set_display_name action = do
    user_id ← read_string action (text "userId")
    display_name ← read_string action (text "displayName")
    call (set_user_display_name user_id display_name)

  unfoldable pub handle_user_set_avatar : StateAction → M S E (Unit {0})
  handle_user_set_avatar action = do
    user_id ← read_string action (text "userId")
    avatar_uri ← read_string action (text "avatarUri")
    avatar ← ask (read_avatar avatar_uri)
    call (set_user_avatar user_id avatar)

  unfoldable pub handle_user_activate : StateAction → M S E (Unit {0})
  handle_user_activate action = do
    user_id ← read_string action (text "userId")
    display_name ← ask (get_user_profile_by_user_id user_id)
    (if not (is_user_deactivated_according_to_display_name display_name)
        then done
        else call (
            set_user_display_name user_id
              (clean_deactivation_marker_from_display_name display_name)))

  unfoldable pub handle_user_deactivate : StateAction → M S E (Unit {0})
  handle_user_deactivate action = do
    user_id ← read_string action (text "userId")
    display_name ← ask (get_user_profile_by_user_id user_id)
    call (logout_all_access_tokens_for_user user_id)
    (if not (is_user_deactivated_according_to_display_name display_name)
        then call
            (set_user_display_name user_id (deactivated_account_prefix_marker ++ display_name))
        else done)

  unfoldable pub handle_room_join : StateAction → M S E (Unit {0})
  handle_room_join action = do
    user_id ← read_string action (text "userId")
    room_id ← read_string action (text "roomId")
    call (invite_user_to_room reconciliator_user_id user_id room_id)
    call (join_room user_id room_id)

  unfoldable pub handle_room_leave : StateAction → M S E (Unit {0})
  handle_room_leave action = do
    user_id ← read_string action (text "userId")
    room_id ← read_string action (text "roomId")
    call (leave_room user_id room_id)

  -- `roomPowerForUserId.(map[string]int)` panics on another type.
  abbrev assert_powers : Value → M S E (GoMap ℤ)
  assert_powers (powers levels) s = (ok levels, s)
  assert_powers _ s = (err assertion_panic, s)

  unfoldable pub handle_room_users_set_power_levels : StateAction → M S E (Unit {0})
  handle_room_users_set_power_levels action = do
    room_id ← read_string action (text "roomId")
    value ← payload (get_payload_data_by_key action (text "roomPowerForUserId"))
    levels ← assert_powers value
    call (update_room_user_power_level reconciliator_user_id levels room_id)

  unfoldable pub handle_room_user_set_power_level : StateAction → M S E (Unit {0})
  handle_room_user_set_power_level action = do
    user_id ← read_string action (text "userId")
    room_id ← read_string action (text "roomId")
    power_level ← payload (get_int_payload_data_by_key action (text "powerLevel"))
    call
        (update_room_user_power_level reconciliator_user_id (insert user_id power_level []) room_id)

  -- The map from action types to handlers.
  abbrev pub handlers : GoMap (StateAction → M S E (Unit {0}))
  handlers =
      (action_user_create, handle_user_create)
      ∷ (action_user_set_display_name, handle_user_set_display_name)
      ∷ (action_user_set_avatar, handle_user_set_avatar)
      ∷ (action_user_activate, handle_user_activate)
      ∷ (action_user_deactivate, handle_user_deactivate)
      ∷ (action_room_join, handle_room_join)
      ∷ (action_room_leave, handle_room_leave)
      ∷ (action_room_users_set_power_levels, handle_room_users_set_power_levels)
      ∷ (action_room_user_set_power_level, handle_room_user_set_power_level)
      ∷ []

  unfoldable pub handle : StateAction → M S E (Unit {0})
  handle action s = elim (lookup action.type handlers) [
    | none ↦ (err (missing_handler action.type), s)
    | some handler ↦ handler action s
  ]

  -- The loop over the actions, which ends at the first error.
  unfoldable pub handle_all : List StateAction → M S E (Unit {0})
  handle_all [] = done
  handle_all (action ∷ actions) = handle action >> handle_all actions

  abbrev computed : {A : Type 0} → Result ComputeError A → M S E A
  computed (ok a) s = (ok a, s)
  computed (err e) s = (err (compute_error e), s)

  unfoldable pub reconcile :
      (uri_hash : Text → Text) (random_password : UserPolicy → Option Text)
      (range : GoMap StateAction → GoMap StateAction) (policy : Policy)
      → M S E (Unit {0})
  reconcile uri_hash random_password range policy s =
      let result =
        (do
          current ←
              ask (determine_current_state (get_managed_user_ids policy) reconciliator_user_id)
          state ← computed (compute uri_hash random_password range current policy)
          handle_all state.actions)
          s in
      (result.0, release result.1)
