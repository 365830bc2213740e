-- ===== src/HttpApi.antt =====
-- corporal/httpapi: the middleware of server.go and the handlers of handler/user.go and policy.go.
pub mod Authorized
use matrix_corporal.Base.{
  ℕ, ◌+◌, ℤ, pos, int_eq, Bool, true, false, not, Option, none, some, List, [], ◌++◌, Text, text,
  text_eq, Result, ok, err, if◌then◌else◌,
}
use matrix_corporal.Http.{Request}
use matrix_corporal.Matrix.{
  is_full_user_id_of_domain, error_bad_json, error_missing_token, error_unknown_token,
  error_unknown, error_invalid_username, error_missing_parameter,
}
use matrix_corporal.Gateway.Handlers.{get_access_token_from_request}
use matrix_corporal.Gateway.Policycheck.{var}
use matrix_corporal.Policy.{Policy}
use matrix_corporal.Policy.Validator.{ValidationError}
use matrix_corporal.Policy.Store.{Store, get, set}

pub record ApiAccessTokenObtainRequestPayload : Type 0 where
  pub device_id : Text
  pub validity_seconds : ℤ

-- What is given to `Respond`, whose JSON is left out.
pub data ApiReply : Type 0 where
  response_error : (status : ℕ) (error_code error_message : Text) → ApiReply
  access_token_obtained : (access_token : Text) → ApiReply
  policy_got : Option Policy → ApiReply
  empty_object : ApiReply

-- The connector's operations, and packages `time` and `encoding/json`. `after_seconds` is
-- `time.Now().Add(time.Duration(seconds) * time.Second)`.
pub record ApiSurroundings (E Time W : Type 0) : Type 0 where
  pub obtain_new_access_token_for_user_id :
      (user_id device_id : Text) (valid_until : Option Time) → W → Result E Text × W
  pub destroy_access_token : (user_id access_token : Text) → W → Option E × W
  pub after_seconds : ℤ → W → Time
  pub error_text : E → Text
  pub validation_error_text : ValidationError → Text
  pub compile_error : Text → Option Text
  pub unmarshal_obtain_payload : Text → Result Text ApiAccessTokenObtainRequestPayload
  pub unmarshal_release_payload : Text → Result Text Text
  pub unmarshal_policy : Text → Result Text Policy

-- `reloads` counts the goroutines that were started to reload the policy.
pub record ApiState (W : Type 0) : Type 0 where
  pub world : W
  pub store : Store
  pub reloads : ℕ

module _ {E Time W : Type 0} (me : ApiSurroundings E Time W)
    (homeserver_domain_name authorization_bearer_token : Text) where
  -- `next` is the route's handler. Two strings are the same for `ConstantTimeCompare` when they are
  -- equal.
  unfoldable pub deny_unauthorized_access_middleware :
      (next : Request → ApiState W → ApiReply × ApiState W)
      → Request
      → ApiState W
      → ApiReply × ApiState W
  deny_unauthorized_access_middleware next request x =
      let access_token = get_access_token_from_request request in
      if text_eq access_token []
      then (response_error 401 error_missing_token (text "Missing access token"), x)
      else if not (text_eq access_token authorization_bearer_token)
      then (response_error 401 error_unknown_token (text "Bad access token"), x)
      else next request x

  abbrev pub bad_user_id : Text → ApiReply
  bad_user_id user_id = response_error 400 error_invalid_username (
      text "Bad user id ("
      ++ user_id
      ++ text ") - not part of the homeserver domain ("
      ++ homeserver_domain_name
      ++ text ")")

  abbrev pub bad_body : ApiReply
  bad_body = response_error 400 error_bad_json (text "Bad body payload")

  abbrev pub valid_until : ℤ → W → Option Time
  valid_until validity_seconds w =
      if not (int_eq validity_seconds (pos 0))
      then some (me.after_seconds validity_seconds w)
      else none

  -- The response to what the connector returned.
  unfoldable pub obtained : Result E Text → ApiReply
  obtained (ok access_token) = access_token_obtained access_token
  obtained (err e) =
      response_error 200 error_unknown (text "Could not obtain access token: " ++ me.error_text e)

  unfoldable pub obtain_for :
      (user_id : Text) → ApiAccessTokenObtainRequestPayload → ApiState W → ApiReply × ApiState W
  obtain_for user_id payload x =
      if text_eq payload.device_id []
      then (
        response_error 400 error_missing_parameter
            (text "Bad body payload - empty or missing device id"),
        x,
      )
      else let (found, w) =
          me.obtain_new_access_token_for_user_id user_id payload.device_id
            (valid_until payload.validity_seconds x.world) x.world in
        (obtained found, record x { world = w })

  unfoldable pub action_access_token_obtain : Request → ApiState W → ApiReply × ApiState W
  action_access_token_obtain request x =
      let user_id = var request (text "userId") in
      if not (is_full_user_id_of_domain user_id homeserver_domain_name)
      then (bad_user_id user_id, x)
      else elim (me.unmarshal_obtain_payload request.body) [
        | err e ↦ (bad_body, x)
        | ok payload ↦ obtain_for user_id payload x
      ]

  unfoldable pub destroyed : Option E → ApiReply
  destroyed (some e) = response_error 200 error_unknown (text "Could not destroy access token")
  destroyed none = empty_object

  unfoldable pub release_for : (user_id access_token : Text) → ApiState W → ApiReply × ApiState W
  release_for user_id access_token x =
      if text_eq access_token []
      then (
        response_error 400 error_missing_parameter
            (text "Bad body payload - empty or missing access token"),
        x,
      )
      else let (failure, w) = me.destroy_access_token user_id access_token x.world in
        (destroyed failure, record x { world = w })

  unfoldable pub action_access_token_release : Request → ApiState W → ApiReply × ApiState W
  action_access_token_release request x =
      let user_id = var request (text "userId") in
      if not (is_full_user_id_of_domain user_id homeserver_domain_name)
      then (bad_user_id user_id, x)
      else elim (me.unmarshal_release_payload request.body) [
        | err e ↦ (bad_body, x)
        | ok access_token ↦ release_for user_id access_token x
      ]

  unfoldable pub action_policy_get : Request → ApiState W → ApiReply × ApiState W
  action_policy_get request x = (policy_got (get x.store), x)

  unfoldable pub policy_put : Option ValidationError → ApiReply
  policy_put (some e) =
      response_error 200 error_unknown (text "Failed to set policy: " ++ me.validation_error_text e)
  policy_put none = empty_object

  unfoldable pub action_policy_put : Request → ApiState W → ApiReply × ApiState W
  action_policy_put request x = elim (me.unmarshal_policy request.body) [
    | err e ↦ (bad_body, x)
    | ok policy ↦
        let (failure, store) = set me.compile_error homeserver_domain_name policy x.store in
        (policy_put failure, record x { store = store })
  ]

  unfoldable pub action_policy_provider_reload : Request → ApiState W → ApiReply × ApiState W
  action_policy_provider_reload request x = (empty_object, record x { reloads = x.reloads + 1 })
