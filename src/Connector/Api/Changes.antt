-- ===== src/Connector/Api/Changes.antt =====
-- corporal/connector/api.go: the changes of a user's profile and rooms.
use matrix_corporal.Base.{
  ℤ, pos, Bool, false, not, none, some, [], ◌∷◌, ◌++◌, Text, text, text_eq, GoMap, Result, ok, err,
  if◌then◌else◌,
}
use matrix_corporal.Avatar.{Avatar}
use matrix_corporal.Connector.Client.{Client}
use matrix_corporal.Connector.Calls.{
  Call, ◌>>=◌, ◌>>◌, pure, fail, ask, retry, retrying, wrapping, as_callback,
}
use matrix_corporal.Connector.Api.{Context, create_matrix_client_for_user_id}
use matrix_corporal.Connector.Api.Reads.{account_data_type_avatar_source_uri_hashes}

module _ {W Content Number : Type 0} (ctx : Context W Content Number) where
  unfoldable pub store_avatar_source_uri_hash_for_user_and_mxc_uri :
      (user_id mxc_uri avatar_source_uri_hash : Text) → Call W (Unit {0})
  store_avatar_source_uri_hash_for_user_and_mxc_uri user_id mxc_uri avatar_source_uri_hash = do
    client ← create_matrix_client_for_user_id ctx user_id
    retry (
        ctx.homeserver.put_account_data client user_id account_data_type_avatar_source_uri_hashes
          ((mxc_uri, avatar_source_uri_hash) ∷ []))

  abbrev pub set_new_avatar : (user_id : Text) → Client → Avatar → Call W (Unit {0})
  set_new_avatar user_id client avatar = do
    mxc_uri ←
        wrapping (text "failed uploading avatar: ")
          (ask (ctx.homeserver.upload_to_content_repo client avatar))
    wrapping (text "failed setting avatar: ") (retry (ctx.homeserver.set_avatar_url client mxc_uri))
    wrapping (text "failed storing avatar URI to avatar source uri hash mapping: ") (
        retrying (
          as_callback
            (store_avatar_source_uri_hash_for_user_and_mxc_uri user_id mxc_uri avatar.uri_hash)))

  -- An avatar without a content type is a request to remove the avatar.
  unfoldable pub set_user_avatar : (user_id : Text) → Avatar → Call W (Unit {0})
  set_user_avatar user_id avatar = do
    client ← create_matrix_client_for_user_id ctx user_id
    (if text_eq avatar.content_type []
        then retry (ctx.homeserver.set_avatar_url client [])
        else set_new_avatar user_id client avatar)

  unfoldable pub set_user_display_name : (user_id display_name : Text) → Call W (Unit {0})
  set_user_display_name user_id display_name = do
    client ← create_matrix_client_for_user_id ctx user_id
    retry (ctx.homeserver.set_display_name client display_name)

  unfoldable pub invite_user_to_room : (inviter_id invitee_id room_id : Text) → Call W (Unit {0})
  invite_user_to_room inviter_id invitee_id room_id = do
    client ← create_matrix_client_for_user_id ctx inviter_id
    retry (ctx.homeserver.invite_user client room_id invitee_id)

  unfoldable pub join_room : (user_id room_id : Text) → Call W (Unit {0})
  join_room user_id room_id = do
    client ← create_matrix_client_for_user_id ctx user_id
    retry (ctx.homeserver.join_room client room_id)

  unfoldable pub leave_room : (user_id room_id : Text) → Call W (Unit {0})
  leave_room user_id room_id = do
    client ← create_matrix_client_for_user_id ctx user_id
    retry (ctx.homeserver.leave_room client room_id)

  unfoldable pub kick_user_from_room :
      (kicker_user_id kickee_user_id room_id : Text) → Call W (Unit {0})
  kick_user_from_room kicker_user_id kickee_user_id room_id =
      if text_eq kicker_user_id kickee_user_id
      then fail (text "kicking self (" ++ kicker_user_id ++ text ") does not make sense")
      else (do
        client ← create_matrix_client_for_user_id ctx kicker_user_id
        retry (ctx.homeserver.kick_user client room_id kickee_user_id))

  -- `jsonObj.Set(level, "users", userId)`
  abbrev pub set_level : (user_id : Text) → ℤ → Content → Result Text Content
  set_level user_id level = ctx.homeserver.set_number level (text "users" ∷ user_id ∷ [])

  abbrev pub set_level_or_fail : Text → Result Text Content → Call W Content
  set_level_or_fail message (ok content) = pure content
  set_level_or_fail message (err e) = fail (message ++ e)

  -- Only a user whose level is known and not 0 has to be demoted.
  abbrev pub needs_demotion : (user_id : Text) → Content → Bool
  needs_demotion user_id content =
      elim (ctx.homeserver.search_number (text "users" ∷ user_id ∷ []) content) [
        | none ↦ false
        | some level ↦ not (ctx.homeserver.is_zero level)
      ]

  unfoldable pub demote_user_in_room : (user_id room_id : Text) → Call W (Unit {0})
  demote_user_in_room user_id room_id = do
    client ← create_matrix_client_for_user_id ctx user_id
    content ← ask (ctx.homeserver.get_power_levels client room_id)
    (if needs_demotion user_id content
        then (do
          changed ←
              set_level_or_fail (text "failed setting user in power levels object: ")
                (set_level user_id (pos 0) content)
          retry (ctx.homeserver.send_power_levels client room_id changed))
        else pure tt)

  -- The loop over the new levels.
  unfoldable pub set_levels : GoMap ℤ → Content → Result Text Content
  set_levels [] content = ok content
  set_levels ((user_id, level) ∷ levels) content = elim (set_level user_id level content) [
    | err e ↦ err e
    | ok changed ↦ set_levels levels changed
  ]

  unfoldable pub update_room_user_power_level :
      (owner_id : Text) → GoMap ℤ → (room_id : Text) → Call W (Unit {0})
  update_room_user_power_level owner_id room_power_for_user_id room_id = do
    client ← create_matrix_client_for_user_id ctx owner_id
    content ← ask (ctx.homeserver.get_power_levels client room_id)
    changed ← set_level_or_fail [] (set_levels room_power_for_user_id content)
    retry (ctx.homeserver.send_power_levels client room_id changed)
