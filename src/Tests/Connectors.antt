-- ===== src/Tests/Connectors.antt =====
-- Examples of the connector and of the avatar reader.
use matrix_corporal.Base.{
  ◌≡◌, refl, true, false, none, [], ◌∷◌, pos, text, text_eq, lookup, insert, contains, has_prefix,
  drop, arith, ok, err,
}
use matrix_corporal.Util.{is_string_in_array}
use matrix_corporal.Avatar.{AvatarReader, avatar_of, read}
use matrix_corporal.Avatar.DataUri.{data_uri, read-data_uri}
use matrix_corporal.Matrix.{
  is_user_deactivated_according_to_display_name, clean_deactivation_marker_from_display_name,
  execute_with_rate_limit_retries, retry_from,
}
use matrix_corporal.Connector.State.{CurrentState}
use matrix_corporal.Connector.Client.{Homeserver}
use matrix_corporal.Connector.Tokens.{
  Session, get_access_token_for_user_id, clear_access_token_for_user_id, release,
  obtain_access_token, expired,
}
use matrix_corporal.Connector.Tokens.Verified.{IsVerified, Yields, tokens_stay_IsVerified}
use matrix_corporal.Connector.Api.{
  Context, api_token_source, obtain_new_access_token_for_user_id, verify_access_token,
  create_matrix_client_for_user_id,
}
use matrix_corporal.Connector.Synapse.{
  context, determine_current_state, user_states, obtain_synapse_access_token,
  get_access_token_for_corporal_user,
}
use matrix_corporal.Connector.Api.Reads.{
  get_user_state_by_user_id, get_joined_room_ids_by_user_id, room_states,
  get_user_profile_by_user_id,
}
use matrix_corporal.Connector.Synapse.Managed.{Determined, determine_current_state-Determined}
use matrix_corporal.Tests.Samples.{john_id, ann_id}

-- A homeserver with one user, whose tokens are the user ids.
abbrev server : Homeserver (Unit {0}) (Unit {0}) (Unit {0})
server = record {
  now = λ w. 100;
  login = λ client payload w. (ok payload.user, w);
  logout = λ client w. (none, w);
  logout_all = λ client w. (none, w);
  who_am_i = λ client w. (ok client.access_token, w);
  get_account_data = λ client user_id type w. (ok [], w);
  put_account_data = λ client user_id type payload w. (none, w);
  get_profile =
      λ client user_id w. (ok (record { avatar_url = []; display_name = text "[x] John" }), w);
  joined_rooms = λ client w. (ok [], w);
  get_power_levels = λ client room_id w. (ok tt, w);
  send_power_levels = λ client room_id content w. (none, w);
  set_avatar_url = λ client url w. (none, w);
  upload_to_content_repo = λ client avatar w. (ok [], w);
  set_display_name = λ client display_name w. (none, w);
  invite_user = λ client room_id user_id w. (none, w);
  join_room = λ client room_id w. (none, w);
  leave_room = λ client room_id w. (none, w);
  kick_user = λ client room_id user_id w. (none, w);
  admin_user_login = λ client user_id valid_until_ms w. (ok user_id, w);
  admin_users = λ client w. (ok (john_id ∷ []), w);
  register_nonce = λ w. (ok [], w);
  register = λ payload w. (ok [], w);
  search_number = λ path content. none;
  set_number = λ level path content. ok content;
  to_int = λ number. pos 0;
  is_zero = λ number. true;
  extract_user_localpart = λ user_id. ok user_id;
  hex_hmac_sha1 = λ key message. [];
  generate_for_user_id = λ user_id. user_id;
  uri_hash = λ uri. uri;
}

abbrev empty : Session (Unit {0})
empty = record { world = tt; tokens = [] }

tokens_stay_IsVerified_example :
    Yields
      (api_token_source server)
      (text "d")
      0
      john_id
      (get_access_token_for_user_id (api_token_source server) (text "d") 0 john_id empty)
    × IsVerified
        (api_token_source server)
        (text "d")
        0
        (clear_access_token_for_user_id john_id empty)
    × IsVerified
        (api_token_source server)
        (text "d")
        0
        (release (api_token_source server) (text "d") 0 empty)
unfolding lookup
tokens_stay_IsVerified_example =
    tokens_stay_IsVerified (api_token_source server) (text "d") 0 john_id empty
      (λ user_id t e. absurd (cc e))

abbrev start : Session (Session (Unit {0}))
start = record { world = empty; tokens = [] }

abbrev ctx : Context (Session (Unit {0})) (Unit {0}) (Unit {0})
ctx = context server (text "secret") (text "@corporal:x.org") (text "d") 720

abbrev determined : CurrentState
determined = record {
  users =
      record {
        id = john_id;
        active = false;
        display_name = text "John";
        avatar_mxc_uri = [];
        avatar_source_uri_hash = [];
        joined_rooms = [];
      }
      ∷ [];
}

determine_current_state-Determined_example : Determined ctx (john_id ∷ ann_id ∷ []) determined
unfolding determine_current_state create_matrix_client_for_user_id get_access_token_for_user_id
    lookup insert obtain_access_token obtain_synapse_access_token text_eq expired contains drop
    has_prefix obtain_new_access_token_for_user_id execute_with_rate_limit_retries retry_from
    verify_access_token user_states is_string_in_array get_user_state_by_user_id
    get_access_token_for_corporal_user get_joined_room_ids_by_user_id room_states
    get_user_profile_by_user_id clean_deactivation_marker_from_display_name
    is_user_deactivated_according_to_display_name
determine_current_state-Determined_example =
    determine_current_state-Determined ctx (john_id ∷ ann_id ∷ []) (text "@corporal:x.org") start
      (determine_current_state ctx (john_id ∷ ann_id ∷ []) (text "@corporal:x.org") start).1
      determined refl

abbrev reader : AvatarReader (Unit {0})
reader = record {
  http_get = λ url s. (err (text "offline"), s);
  decode_base64 = λ payload. ok (text "picture");
  decimal = λ n. [];
  uri_hash = λ uri. uri;
}

read-data_uri_example : read reader (data_uri (text "a") (text "base64") (text "cA==")) tt ≡ (
  ok (
      avatar_of reader
        (data_uri (text "a") (text "base64") (text "cA=="))
        (text "a")
        (text "picture")),
  tt,
)
read-data_uri_example =
    read-data_uri reader (text "a") (text "base64") (text "cA==") (text "picture") tt (ground arith)
      (ground arith) (ground arith) refl
