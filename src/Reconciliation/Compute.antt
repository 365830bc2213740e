-- ===== src/Reconciliation/Compute.antt =====
-- `Compute` of corporal/reconciliation/computator/computator.go: the actions of all users, with the
-- power level changes of each room gathered into one action.
use matrix_corporal.Base.{
  ℤ, Option, none, some, List, [], ◌∷◌, ◌++◌, map, Text, text, text_eq, GoMap, lookup, insert,
  Result, ok, err, map_err, ◌>>=◌, if◌then◌else◌,
}
use matrix_corporal.Policy.{UserPolicy, Policy}
use matrix_corporal.Connector.State.{CurrentState}
use matrix_corporal.Reconciliation.{
  StateAction, State, powers, PayloadError, get_string_payload_data_by_key,
  get_int_payload_data_by_key, action_room_user_set_power_level,
}
use matrix_corporal.Reconciliation.Computator.{room_users_set_power_levels, computed_actions}

-- `Compute` returns an error of the payload, or panics at a failed type assertion or for want of random
-- bytes.
pub data ComputeError : Type 0 where
  payload_error : PayloadError → ComputeError
  assertion_panic : ComputeError
  random_panic : ComputeError

-- `groupedActions` and `setPowerActionsByRoomId`
pub record Groups : Type 0 where
  pub grouped : List StateAction
  pub by_room : GoMap StateAction

-- `setPowerAction.Payload["roomPowerForUserId"].(map[string]int)`
unfoldable pub room_power_payload : StateAction → Result ComputeError (GoMap ℤ)
room_power_payload action = elim (lookup (text "roomPowerForUserId") action.payload) [
  | none ↦ err assertion_panic
  | some v ↦ elim v [ powers m ↦ ok m | _ ↦ err assertion_panic ]
]

-- The two branches on `exists`. The action of a room is a pointer, and so is its map of levels: a
-- write to the map is seen in the action.
unfoldable pub set_room_power :
    (room_id : Text) (power_level : ℤ) (user_id : Text)
    → GoMap StateAction
    → Result ComputeError (GoMap StateAction)
set_room_power room_id power_level user_id by_room = elim (lookup room_id by_room) [
  | none ↦
      ok (
        insert room_id (room_users_set_power_levels room_id (insert user_id power_level []))
          by_room)
  | some action ↦ do
    levels ← room_power_payload action
    ok (
        insert room_id
          (record action {
            payload =
                insert (text "roomPowerForUserId") (powers (insert user_id power_level levels))
                  action.payload;
          })
          by_room)
]

-- The body of the loop over the computed actions.
unfoldable pub group_action : Groups → StateAction → Result ComputeError Groups
group_action g action =
    if text_eq action.type action_room_user_set_power_level
    then (do
      room_id ← map_err payload_error (get_string_payload_data_by_key action (text "roomId"))
      power_level ← map_err payload_error (get_int_payload_data_by_key action (text "powerLevel"))
      user_id ← map_err payload_error (get_string_payload_data_by_key action (text "userId"))
      by_room ← set_room_power room_id power_level user_id g.by_room
      ok (record g { by_room = by_room }))
    else ok (record g { grouped = g.grouped ++ action ∷ [] })

unfoldable pub group_actions : Groups → List StateAction → Result ComputeError Groups
group_actions g [] = ok g
group_actions g (action ∷ actions) = do g' ← group_action g action; group_actions g' actions

abbrev pub drawn : {A : Type 0} → Option A → Result ComputeError A
drawn none = err random_panic
drawn (some a) = ok a

-- `range` is the order in which Go's runtime walks a map, which the language leaves open.
module _ (uri_hash : Text → Text) (random_password : UserPolicy → Option Text)
    (range : GoMap StateAction → GoMap StateAction) where
  unfoldable pub compute : CurrentState → Policy → Result ComputeError State
  compute current policy = do
    actions ← drawn (computed_actions uri_hash random_password current policy policy.user)
    g ← group_actions (record { grouped = []; by_room = [] }) actions
    ok (record { actions = g.grouped ++ map (λ e. e.1) (range g.by_room) })
