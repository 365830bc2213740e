-- ===== src/Connector/Api.antt =====
-- corporal/connector/api.go: access tokens and clients. `W` is the world.
pub mod Reads
pub mod Changes
use matrix_corporal.Base.{
  ℕ, Bool, true, false, not, Option, none, some, List, [], ◌∷◌, Text, text, text_eq, Result, ok,
  err, if◌then◌else◌,
}
use matrix_corporal.Matrix.{
  error_unknown_token, is_error_with_code, execute_with_rate_limit_retries,
}
use matrix_corporal.Connector.Client.{
  ApiError, other_error, resp_code, Client, LoginRequest, Homeserver,
}
use matrix_corporal.Connector.Tokens.{
  TokenSource, Session, get_access_token_for_user_id, clear_access_token_for_user_id,
}
use matrix_corporal.Connector.Calls.{Call, ◌>>=◌, ◌>>◌, pure, attempt, result_of, ask_retrying}

module _ {W Content Number : Type 0} (me : Homeserver W Content Number) where
  -- `validUntil` is ignored.
  unfoldable pub obtain_new_access_token_for_user_id :
      (user_id device_id : Text) (valid_until : Option ℕ) → W → Result ApiError Text × W
  obtain_new_access_token_for_user_id user_id device_id valid_until = ask_retrying [] (
      me.login (record { user_id = []; access_token = [] })
        (record {
          user = user_id;
          password = me.generate_for_user_id user_id;
          device_id = device_id;
        }))

  unfoldable pub destroy_access_token : (user_id access_token : Text) → W → Option ApiError × W
  destroy_access_token user_id access_token w =
      let (failure, w') = me.logout (record { user_id = user_id; access_token = access_token }) w in
      if is_error_with_code resp_code failure error_unknown_token then (none, w') else (failure, w')

  unfoldable pub verify_access_token : (user_id access_token : Text) → W → Option ApiError × W
  verify_access_token user_id access_token w =
      let (answer, w') =
        me.who_am_i (record { user_id = user_id; access_token = access_token }) w in
      elim answer [
        | err e ↦ (some e, w')
        | ok owner ↦
            if not (text_eq owner user_id)
            then (some (other_error (text "failed who-am-I user id verification check")), w')
            else (none, w')
      ]

  -- `ApiConnector` as the connector of a context.
  abbrev pub api_token_source : TokenSource W
  api_token_source = record {
    now = me.now;
    obtain_new_access_token_for_user_id = obtain_new_access_token_for_user_id;
    verify_access_token = verify_access_token;
    destroy_access_token = destroy_access_token;
  }

-- What the methods with a context share: the homeserver, the context's connector, its device and its
-- validity.
pub record Context (W Content Number : Type 0) : Type 0 where
  pub homeserver : Homeserver W Content Number
  pub connector : TokenSource W
  pub device_id : Text
  pub validity_seconds : ℕ

module _ {W Content Number : Type 0} (ctx : Context W Content Number) where
  unfoldable pub create_matrix_client_for_user_id : (user_id : Text) → Call W Client
  create_matrix_client_for_user_id user_id = do
    access_token ←
        get_access_token_for_user_id ctx.connector ctx.device_id ctx.validity_seconds user_id
    pure (record { user_id = user_id; access_token = access_token })

  unfoldable pub logout_all_access_tokens_for_user : (user_id : Text) → Call W (Unit {0})
  logout_all_access_tokens_for_user user_id = do
    client ← create_matrix_client_for_user_id user_id
    (λ s.
        let (failure, s') = attempt (ctx.homeserver.logout_all client) s in (result_of failure, s'))
    (λ s. (ok tt, clear_access_token_for_user_id user_id s))
