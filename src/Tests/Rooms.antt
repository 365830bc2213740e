-- ===== src/Tests/Rooms.antt =====
-- Examples of the reconciliation.
use mathlib.Core.List.{not-mem-nil, Nodup-nil, Nodup-cons}
use matrix_corporal.Base.{
  ◌⊎◌, Option, List, Mem, inr, text_eq, pos, ◌≡◌, refl, true, none, some, [], ◌∷◌, ◌++◌, Nodup,
  Text, text, GoMap, ok, err, if◌then◌else◌, contains, has_prefix,
}
use matrix_corporal.Util.{is_string_in_array}
use matrix_corporal.Matrix.{
  deactivated_account_prefix_marker, is_user_deactivated_according_to_display_name,
}
use matrix_corporal.Policy.{UserPolicy}
use matrix_corporal.Connector.State.{CurrentUserState, CurrentState}
use matrix_corporal.Connector.Interface.{Connector}
use matrix_corporal.Reconciliation.{StateAction}
use matrix_corporal.Reconciliation.Computator.{
  is_in_policy_joined_rooms, compute_user_room_changes, current_power, current_rooms,
  computed_actions, user_activate, user_deactivate,
}
use matrix_corporal.Reconciliation.Compute.{compute, random_panic}
use matrix_corporal.Reconciliation.Effects.{effects}
use matrix_corporal.Reconciliation.Rooms.{policy_level, room_ids}
use matrix_corporal.Reconciliation.Settled.{compute_user_room_changes-settled}
use matrix_corporal.Reconciliation.RoomTarget.{compute_user_room_changes-policy_level}
use matrix_corporal.Reconciliation.Totality.{IsGathered, compute_total}
use matrix_corporal.Reconciler.{reconcile, handle_user_activate, handle_user_deactivate}
use matrix_corporal.Reconciler.Blame.{blames_outside, reconcile-blames_outside}
use matrix_corporal.Reconciler.Outcome.{deactivate-activate}
use matrix_corporal.Tests.Samples.{policy, john, john_id, room, other_room}

-- A user who is in the wrong one of the two managed rooms.
abbrev current_john : CurrentUserState
current_john = record {
  id = john_id;
  active = true;
  display_name = text "John";
  avatar_mxc_uri = [];
  avatar_source_uri_hash = [];
  joined_rooms = record { room_id = other_room; power_level = pos 0 } ∷ [];
}

john_rooms_Nodup : Nodup (room_ids john.joined_rooms)
john_rooms_Nodup = Nodup-cons.1 (not-mem-nil, Nodup-nil)

compute_user_room_changes-policy_level_example :
    effects
      (pos 0)
      john_id
      room
      (compute_user_room_changes john_id (some current_john) john (room ∷ other_room ∷ []))
      (current_power room (current_rooms (some current_john)))
    ≡ (if is_string_in_array room (room ∷ other_room ∷ [])
        then policy_level room john.joined_rooms
        else current_power room (current_rooms (some current_john)))
compute_user_room_changes-policy_level_example =
    compute_user_room_changes-policy_level (pos 0) room (some current_john) john
      (room ∷ other_room ∷ []) john_rooms_Nodup

abbrev hash : Text → Text
hash uri = uri

abbrev no_random : UserPolicy → Option Text
no_random u = some (text "secret")

abbrev in_order : GoMap StateAction → GoMap StateAction
in_order m = m

abbrev state : CurrentState
state = record { users = current_john ∷ [] }

compute_total_example :
    ((actions : List StateAction) × (computed_actions hash no_random state policy policy.user
        ≡ some actions)
      × IsGathered in_order actions (compute hash no_random in_order state policy))
    ⊎ ((compute hash no_random in_order state policy ≡ err random_panic)
        × ((u : UserPolicy) × Mem u policy.user × (no_random u ≡ none)))
compute_total_example = compute_total hash no_random in_order state policy

-- A homeserver with one account: its display name.
abbrev one_account : Connector Text Text Text
one_account = record {
  determine_current_state = λ managed admin s. (ok state, s);
  ensure_user_account_exists = λ user_id password s. (none, s);
  get_user_profile_by_user_id = λ user_id s. (ok s, s);
  set_user_display_name = λ user_id display_name s. (none, display_name);
  set_user_avatar = λ user_id avatar s. (none, s);
  logout_all_access_tokens_for_user = λ user_id s. (none, s);
  invite_user_to_room = λ inviter invitee room_id s. (none, s);
  join_room = λ user_id room_id s. (none, s);
  leave_room = λ user_id room_id s. (none, s);
  update_room_user_power_level = λ owner levels room_id s. (none, s);
  read_avatar = λ uri s. (ok uri, s);
  release = λ s. s;
}

abbrev marked : Text
marked = deactivated_account_prefix_marker ++ text "Jo"

deactivate-activate_example :
    (handle_user_deactivate one_account john_id (user_deactivate john_id) (text "Jo")
      ≡ (ok tt, marked))
    × (handle_user_activate one_account john_id (user_activate john_id) marked ≡ (ok tt, text "Jo"))
unfolding is_user_deactivated_according_to_display_name contains has_prefix
deactivate-activate_example =
    deactivate-activate one_account john_id john_id (text "Jo") (text "Jo") (text "Jo") (text "Jo")
      marked marked (text "Jo") refl refl refl refl refl refl

reconcile-blames_outside_example :
    blames_outside (reconcile one_account john_id hash no_random in_order policy (text "John")).0
    ≡ true
reconcile-blames_outside_example =
    reconcile-blames_outside one_account john_id hash no_random in_order policy (text "John")
      (λ Q m h. h)

-- The user after the reconciliation.
abbrev settled_john : CurrentUserState
settled_john = record current_john {
  joined_rooms = record { room_id = room; power_level = pos 50 } ∷ [];
}

compute_user_room_changes-settled_example :
    compute_user_room_changes john_id (some settled_john) john (room ∷ other_room ∷ []) ≡ []
unfolding current_power is_in_policy_joined_rooms text_eq
compute_user_room_changes-settled_example =
    compute_user_room_changes-settled (room ∷ other_room ∷ []) (some settled_john) john
      (inr refl, tt) (inr refl, tt)
