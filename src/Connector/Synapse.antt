-- ===== src/Connector/Synapse.antt =====
-- corporal/connector/synapse.go: a connector whose access tokens come from Synapse's admin API. Its
-- world is that of the homeserver with the tokens of the matrix-corporal user's own context.
pub mod Managed
use matrix_corporal.Base.{
  ℕ, ◌*◌, Bool, false, Option, none, some, List, [], ◌∷◌, ◌++◌, Text, text, text_eq, Result, ok,
  err, if◌then◌else◌,
}
use mathlib.Core.Option
use matrix_corporal.Util.{is_string_in_array}
use matrix_corporal.Avatar.{Avatar}
use matrix_corporal.Matrix.{error_user_in_use, is_error_with_code}
use matrix_corporal.Connector.State.{CurrentUserState, CurrentState}
use matrix_corporal.Connector.Interface.{Connector}
use matrix_corporal.Connector.Client.{
  ApiError, other_error, resp_code, Client, UserProfile, RegisterRequest, Homeserver,
}
use matrix_corporal.Connector.Tokens.{TokenSource, Session, get_access_token_for_user_id, release}
use matrix_corporal.Connector.Calls.{
  Call, ◌>>=◌, ◌>>◌, pure, ask, attempt, wrapping, ask_retrying, as_callback,
}
use matrix_corporal.Connector.Api.{
  Context, api_token_source, obtain_new_access_token_for_user_id, verify_access_token,
  destroy_access_token, create_matrix_client_for_user_id, logout_all_access_tokens_for_user,
}
use matrix_corporal.Connector.Api.Reads.{get_user_state_by_user_id, get_user_profile_by_user_id}
use matrix_corporal.Connector.Api.Changes.{
  set_user_avatar, set_user_display_name, invite_user_to_room, join_room, leave_room,
  update_room_user_power_level,
}

abbrev pub device_id_corporal : Text
device_id_corporal = text "matrix-corporal"

-- The homeserver, where the connector's own tokens are part of the world.
abbrev pub beside_tokens :
    {W Content Number : Type 0}
    → Homeserver W Content Number
    → Homeserver (Session W) Content Number
beside_tokens me = record {
  now = λ s. me.now s.world;
  login = λ client payload. ask (me.login client payload);
  logout = λ client. attempt (me.logout client);
  logout_all = λ client. attempt (me.logout_all client);
  who_am_i = λ client. ask (me.who_am_i client);
  get_account_data = λ client user_id type. ask (me.get_account_data client user_id type);
  put_account_data =
      λ client user_id type payload. attempt (me.put_account_data client user_id type payload);
  get_profile = λ client user_id. ask (me.get_profile client user_id);
  joined_rooms = λ client. ask (me.joined_rooms client);
  get_power_levels = λ client room_id. ask (me.get_power_levels client room_id);
  send_power_levels =
      λ client room_id content. attempt (me.send_power_levels client room_id content);
  set_avatar_url = λ client url. attempt (me.set_avatar_url client url);
  upload_to_content_repo = λ client avatar. ask (me.upload_to_content_repo client avatar);
  set_display_name = λ client display_name. attempt (me.set_display_name client display_name);
  invite_user = λ client room_id user_id. attempt (me.invite_user client room_id user_id);
  join_room = λ client room_id. attempt (me.join_room client room_id);
  leave_room = λ client room_id. attempt (me.leave_room client room_id);
  kick_user = λ client room_id user_id. attempt (me.kick_user client room_id user_id);
  admin_user_login =
      λ client user_id valid_until_ms. ask (me.admin_user_login client user_id valid_until_ms);
  admin_users = λ client. ask (me.admin_users client);
  register_nonce = ask me.register_nonce;
  register = λ payload. ask (me.register payload);
  search_number = me.search_number;
  set_number = me.set_number;
  to_int = me.to_int;
  is_zero = me.is_zero;
  extract_user_localpart = me.extract_user_localpart;
  hex_hmac_sha1 = me.hex_hmac_sha1;
  generate_for_user_id = me.generate_for_user_id;
  uri_hash = me.uri_hash;
}

module _ {W Content Number : Type 0} (me : Homeserver W Content Number)
    (registration_shared_secret corporal_user_id : Text) where
  -- The matrix-corporal user's token comes from the plain login, and never expires.
  unfoldable pub get_access_token_for_corporal_user : Call W Text
  get_access_token_for_corporal_user =
      get_access_token_for_user_id (api_token_source me) device_id_corporal 0 corporal_user_id

  unfoldable pub obtain_synapse_access_token :
      (user_id device_id : Text) (valid_until : Option ℕ) → Call W Text
  obtain_synapse_access_token user_id device_id valid_until =
      if text_eq user_id corporal_user_id
      then ask (obtain_new_access_token_for_user_id me user_id device_id valid_until)
      else (do
        access_token ←
            wrapping
              (text "could not obtain access token for `"
                ++ corporal_user_id
                ++ text "`, necessary for obtaining a token for `"
                ++ user_id
                ++ text "`: ")
              get_access_token_for_corporal_user
        ask (
            me.admin_user_login (record { user_id = corporal_user_id; access_token = access_token })
              user_id (Option.map (λ seconds. seconds * 1000) valid_until)))

  -- The string whose HMAC a registration carries.
  abbrev pub mac_message : (nonce username password : Text) → Text
  mac_message nonce username password = nonce ++ 0 ∷ username ++ 0 ∷ password ++ 0 ∷ text "notadmin"

  abbrev pub register_request : (nonce username password : Text) → RegisterRequest
  register_request nonce username password = record {
    nonce = nonce;
    username = username;
    password = password;
    mac = me.hex_hmac_sha1 registration_shared_secret (mac_message nonce username password);
    admin = false;
  }

  -- An account that exists already is fine. The token of a new account is given back.
  abbrev pub after_register :
      (user_id_local_part : Text) → Result ApiError Text × W → Option ApiError × W
  after_register user_id_local_part (err e, w) =
      if is_error_with_code resp_code (some e) error_user_in_use then (none, w) else (some e, w)
  after_register user_id_local_part (ok access_token, w) =
      (none, (me.logout (record { user_id = user_id_local_part; access_token = access_token }) w).1)

  abbrev pub after_nonce :
      (user_id_local_part password : Text) → Result ApiError Text × W → Option ApiError × W
  after_nonce user_id_local_part password (err e, w) = (some e, w)
  after_nonce user_id_local_part password (ok nonce, w) =
      after_register user_id_local_part
        (ask_retrying [] (me.register (register_request nonce user_id_local_part password)) w)

  unfoldable pub ensure_user_account_exists : (user_id password : Text) → W → Option ApiError × W
  ensure_user_account_exists user_id password w = elim (me.extract_user_localpart user_id) [
    | err e ↦ (some (other_error e), w)
    | ok user_id_local_part ↦
        after_nonce user_id_local_part password (ask_retrying [] me.register_nonce w)
  ]

  -- `SynapseConnector` as the connector of a context.
  abbrev pub synapse_token_source : TokenSource (Session W)
  synapse_token_source = record {
    now = λ s. me.now s.world;
    obtain_new_access_token_for_user_id = obtain_synapse_access_token;
    verify_access_token = λ user_id token. attempt (verify_access_token me user_id token);
    destroy_access_token = λ user_id token. attempt (destroy_access_token me user_id token);
  }

  -- The context that `Reconcile` makes.
  abbrev pub context :
      (device_id : Text) (validity_seconds : ℕ) → Context (Session W) Content Number
  context device_id validity_seconds = record {
    homeserver = beside_tokens me;
    connector = synapse_token_source;
    device_id = device_id;
    validity_seconds = validity_seconds;
  }

module _ {W Content Number : Type 0} (ctx : Context W Content Number) where
  -- The loop over the managed users: one who does not exist is skipped.
  unfoldable pub user_states :
      (current_user_ids managed_user_ids : List Text) → Call W (List CurrentUserState)
  user_states current_user_ids [] = pure []
  user_states current_user_ids (user_id ∷ user_ids) =
      if is_string_in_array user_id current_user_ids
      then (do
        state ← get_user_state_by_user_id ctx user_id
        states ← user_states current_user_ids user_ids
        pure (state ∷ states))
      else user_states current_user_ids user_ids

  unfoldable pub determine_current_state :
      (managed_user_ids : List Text) (admin_user_id : Text) → Call W CurrentState
  determine_current_state managed_user_ids admin_user_id = do
    client ← create_matrix_client_for_user_id ctx admin_user_id
    current_user_ids ← ask (ctx.homeserver.admin_users client)
    users ← user_states current_user_ids managed_user_ids
    pure (record { users = users })

-- The Synapse connector with the token context of a reconciliation, and an avatar reader.
unfoldable pub synapse_connector :
    {W Content Number : Type 0}
    → (me : Homeserver W Content Number)
    → (registration_shared_secret corporal_user_id device_id : Text) → (validity_seconds : ℕ)
    → (read_avatar : (avatar_uri : Text) → W → Result ApiError Avatar × W)
    → Connector (Session (Session W)) ApiError Avatar
synapse_connector me secret corporal_user_id device_id validity_seconds read_avatar =
    let ctx = context me secret corporal_user_id device_id validity_seconds in
    record {
      determine_current_state = determine_current_state ctx;
      ensure_user_account_exists = λ user_id password.
          attempt
            (attempt (ensure_user_account_exists me secret corporal_user_id user_id password));
      get_user_profile_by_user_id = λ user_id.
          get_user_profile_by_user_id ctx user_id >>= λ profile. pure profile.display_name;
      set_user_display_name =
          λ user_id display_name. as_callback (set_user_display_name ctx user_id display_name);
      set_user_avatar = λ user_id avatar. as_callback (set_user_avatar ctx user_id avatar);
      logout_all_access_tokens_for_user =
          λ user_id. as_callback (logout_all_access_tokens_for_user ctx user_id);
      invite_user_to_room = λ inviter_id invitee_id room_id.
          as_callback (invite_user_to_room ctx inviter_id invitee_id room_id);
      join_room = λ user_id room_id. as_callback (join_room ctx user_id room_id);
      leave_room = λ user_id room_id. as_callback (leave_room ctx user_id room_id);
      update_room_user_power_level = λ owner_id powers room_id.
          as_callback (update_room_user_power_level ctx owner_id powers room_id);
      read_avatar = λ avatar_uri. ask (ask (read_avatar avatar_uri));
      release = release ctx.connector ctx.device_id ctx.validity_seconds;
    }
