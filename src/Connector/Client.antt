-- ===== src/Connector/Client.antt =====
-- What the connector asks of the homeserver through package gomatrix. An operation stands for a call
-- of the client with its answer decoded; `NewClient` fails only on an endpoint that is no URL, which
-- is left out.
use matrix_corporal.Base.{ℕ, ℤ, Bool, Option, none, List, Text, GoMap, Result}
use matrix_corporal.Avatar.{Avatar}
use matrix_corporal.Hook.{Json}

-- An error of the client, with the error code that the homeserver has sent, if it has; or one that
-- the connector has made.
pub data ApiError : Type 0 where
  http_error : (error_code : Option Text) → (message : Text) → ApiError
  other_error : (message : Text) → ApiError

-- `errcode` of the wrapped `RespError`
abbrev pub resp_code : ApiError → Option Text
resp_code (http_error error_code message) = error_code
resp_code (other_error message) = none

-- `err.Error()`
abbrev pub error_text : ApiError → Text
error_text (http_error error_code message) = message
error_text (other_error message) = message

pub record Client : Type 0 where
  pub user_id : Text
  pub access_token : Text

pub record UserProfile : Type 0 where
  pub avatar_url : Text
  pub display_name : Text

-- The payload of a login with a password, without the constant type and the old `user` field, which
-- repeats the user id.
pub record LoginRequest : Type 0 where
  pub user : Text
  pub password : Text
  pub device_id : Text

pub record RegisterRequest : Type 0 where
  pub nonce : Text
  pub username : Text
  pub password : Text
  pub mac : Text
  pub admin : Bool

-- `W` is the world. `Content` is the content of a state event and `Number` a number in it, which
-- package gabs reads and sets by a path.
pub record Homeserver (W Content Number : Type 0) : Type 0 where
  -- Seconds since the epoch
  pub now : W → ℕ
  pub login : Client → LoginRequest → W → Result ApiError Text × W
  pub logout : Client → W → Option ApiError × W
  pub logout_all : Client → W → Option ApiError × W
  pub who_am_i : Client → W → Result ApiError Text × W
  pub get_account_data :
      Client → (user_id account_data_type : Text) → W → Result ApiError (GoMap Json) × W
  pub put_account_data :
      Client → (user_id account_data_type : Text) → GoMap Text → W → Option ApiError × W
  pub get_profile : Client → (user_id : Text) → W → Result ApiError UserProfile × W
  pub joined_rooms : Client → W → Result ApiError (List Text) × W
  pub get_power_levels : Client → (room_id : Text) → W → Result ApiError Content × W
  pub send_power_levels : Client → (room_id : Text) → Content → W → Option ApiError × W
  pub set_avatar_url : Client → (url : Text) → W → Option ApiError × W
  pub upload_to_content_repo : Client → Avatar → W → Result ApiError Text × W
  pub set_display_name : Client → (display_name : Text) → W → Option ApiError × W
  pub invite_user : Client → (room_id user_id : Text) → W → Option ApiError × W
  pub join_room : Client → (room_id : Text) → W → Option ApiError × W
  pub leave_room : Client → (room_id : Text) → W → Option ApiError × W
  pub kick_user : Client → (room_id user_id : Text) → W → Option ApiError × W
  -- The admin API of Synapse
  pub admin_user_login :
      Client → (user_id : Text) (valid_until_ms : Option ℕ) → W → Result ApiError Text × W
  pub admin_users : Client → W → Result ApiError (List Text) × W
  pub register_nonce : W → Result ApiError Text × W
  pub register : RegisterRequest → W → Result ApiError Text × W
  -- Packages gabs, gomatrix and crypto
  pub search_number : (path : List Text) → Content → Option Number
  pub set_number : ℤ → (path : List Text) → Content → Result Text Content
  pub to_int : Number → ℤ
  pub is_zero : Number → Bool
  pub extract_user_localpart : Text → Result Text Text
  pub hex_hmac_sha1 : (key message : Text) → Text
  -- corporal/matrix/shared_secret_auth.go and util.Sha512 of corporal/util
  pub generate_for_user_id : Text → Text
  pub uri_hash : Text → Text
