-- ===== src/Connector/Api/Reads.antt =====
-- corporal/connector/api.go: what is read of a user's state.
use matrix_corporal.Base.{
  ℤ, pos, not, Option, none, some, List, [], ◌∷◌, Text, text, GoMap, lookup, Result, ok, err,
  if◌then◌else◌,
}
use matrix_corporal.Matrix.{
  is_error_with_code, is_user_deactivated_according_to_display_name,
  clean_deactivation_marker_from_display_name, error_not_found,
}
use matrix_corporal.Hook.{Json, string}
use matrix_corporal.Connector.State.{CurrentUserRoomState, CurrentUserState}
use matrix_corporal.Connector.Client.{ApiError, resp_code, Client, UserProfile}
use matrix_corporal.Connector.Calls.{Call, ◌>>=◌, pure, ask}
use matrix_corporal.Connector.Api.{Context, create_matrix_client_for_user_id}

abbrev pub account_data_type_avatar_source_uri_hashes : Text
account_data_type_avatar_source_uri_hashes =
    text "com.devture.matrix.corporal.avatar_source_uri_hashes"

module _ {W Content Number : Type 0} (ctx : Context W Content Number) where
  unfoldable pub get_joined_room_ids_by_user_id : (user_id : Text) → Call W (List Text)
  get_joined_room_ids_by_user_id user_id = do
    client ← create_matrix_client_for_user_id ctx user_id
    ask (ctx.homeserver.joined_rooms client)

  -- The user's power level, or else the room's default, or else 0.
  unfoldable pub power_level_in : (user_id : Text) → Content → ℤ
  power_level_in user_id content =
      elim (ctx.homeserver.search_number (text "users" ∷ user_id ∷ []) content) [
        | some level ↦ ctx.homeserver.to_int level
        | none ↦ elim (ctx.homeserver.search_number (text "users_default" ∷ []) content) [
          | some level ↦ ctx.homeserver.to_int level
          | none ↦ pos 0
        ]
      ]

  unfoldable pub get_power_level_by_room_id_and_user_id : (room_id user_id : Text) → Call W ℤ
  get_power_level_by_room_id_and_user_id room_id user_id = do
    client ← create_matrix_client_for_user_id ctx user_id
    content ← ask (ctx.homeserver.get_power_levels client room_id)
    pure (power_level_in user_id content)

  unfoldable pub get_user_profile_by_user_id : (user_id : Text) → Call W UserProfile
  get_user_profile_by_user_id user_id = do
    client ← create_matrix_client_for_user_id ctx user_id
    ask (ctx.homeserver.get_profile client client.user_id)

  -- No such account data is an empty map.
  abbrev pub or_empty : Result ApiError (GoMap Json) → Result ApiError (GoMap Json)
  or_empty (ok account_data) = ok account_data
  or_empty (err e) = if is_error_with_code resp_code (some e) error_not_found then ok [] else err e

  unfoldable pub get_user_account_data_content_by_type :
      (user_id account_data_type : Text) → Call W (GoMap Json)
  get_user_account_data_content_by_type user_id account_data_type = do
    client ← create_matrix_client_for_user_id ctx user_id
    (λ s.
        let (answer, w) =
          ctx.homeserver.get_account_data client user_id account_data_type s.world in
        (or_empty answer, record s { world = w }))

  abbrev pub string_or_empty : Option Json → Text
  string_or_empty (some (string s)) = s
  string_or_empty _ = []

  unfoldable pub determine_avatar_source_uri_hash_by_user_and_mxc_uri :
      (user_id mxc_uri : Text) → Call W Text
  determine_avatar_source_uri_hash_by_user_and_mxc_uri user_id mxc_uri = do
    account_data_payload ←
        get_user_account_data_content_by_type user_id account_data_type_avatar_source_uri_hashes
    pure (string_or_empty (lookup mxc_uri account_data_payload))

  -- The loop over the joined rooms.
  unfoldable pub room_states : (user_id : Text) → List Text → Call W (List CurrentUserRoomState)
  room_states user_id [] = pure []
  room_states user_id (room_id ∷ room_ids) = do
    power_level ← get_power_level_by_room_id_and_user_id room_id user_id
    more ← room_states user_id room_ids
    pure (record { room_id = room_id; power_level = power_level } ∷ more)

  abbrev pub avatar_source_uri_hash : (user_id avatar_url : Text) → Call W Text
  avatar_source_uri_hash user_id [] = pure (ctx.homeserver.uri_hash [])
  avatar_source_uri_hash user_id (c ∷ url) =
      determine_avatar_source_uri_hash_by_user_and_mxc_uri user_id (c ∷ url)

  -- The name without the deactivation marker of a deactivated account.
  abbrev pub clean_display_name : Text → Text
  clean_display_name display_name =
      if is_user_deactivated_according_to_display_name display_name
      then clean_deactivation_marker_from_display_name display_name
      else display_name

  abbrev pub current_user_state :
      Client → List CurrentUserRoomState → UserProfile → (hash : Text) → CurrentUserState
  current_user_state client rooms profile hash = record {
    id = client.user_id;
    active = not (is_user_deactivated_according_to_display_name profile.display_name);
    display_name = clean_display_name profile.display_name;
    avatar_mxc_uri = profile.avatar_url;
    avatar_source_uri_hash = hash;
    joined_rooms = rooms;
  }

  unfoldable pub get_user_state_by_user_id : (user_id : Text) → Call W CurrentUserState
  get_user_state_by_user_id user_id = do
    client ← create_matrix_client_for_user_id ctx user_id
    joined_room_ids ← get_joined_room_ids_by_user_id user_id
    rooms ← room_states user_id joined_room_ids
    profile ← get_user_profile_by_user_id user_id
    hash ← avatar_source_uri_hash user_id profile.avatar_url
    pure (current_user_state client rooms profile hash)
