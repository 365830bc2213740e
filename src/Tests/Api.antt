-- ===== src/Tests/Api.antt =====
-- A request to the HTTP API for an access token.
use matrix_corporal.Base.{ℕ, ◌+◌, ◌≡◌, ◌≢◌, ◌⊎◌, none, [], ◌∷◌, Text, text, ℤ, pos, ok}
use matrix_corporal.Http.{Request}
use matrix_corporal.Gateway.Handlers.{get_access_token_from_request}
use matrix_corporal.Policy.Store.{new_store}
use matrix_corporal.HttpApi.{
  ApiSurroundings, ApiState, ApiReply, deny_unauthorized_access_middleware,
  action_access_token_obtain,
}
use matrix_corporal.HttpApi.Authorized.{IsRefused, IsPassed, action_access_token_obtain_lem}
use matrix_corporal.Tests.Samples.{policy, domain, john_id, request, compile_error}

-- The world counts the access tokens that were given out.
abbrev surroundings : ApiSurroundings Text ℤ ℕ
surroundings = record {
  obtain_new_access_token_for_user_id =
      λ user_id device_id until w. (ok (text "johns_token"), w + 1);
  destroy_access_token = λ user_id access_token w. (none, w);
  after_seconds = λ seconds w. seconds;
  error_text = λ e. e;
  validation_error_text = λ e. text "invalid";
  compile_error = compile_error;
  unmarshal_obtain_payload =
      λ body. ok (record { device_id = text "phone"; validity_seconds = pos 60 });
  unmarshal_release_payload = λ body. ok body;
  unmarshal_policy = λ body. ok policy;
}

abbrev for_john : Request
for_john = record request { vars = (text "userId", john_id) ∷ [] }

abbrev idle : ApiState ℕ
idle = record { world = 0; store = new_store; reloads = 0 }

abbrev served_john : ApiReply × ApiState ℕ
served_john =
    deny_unauthorized_access_middleware surroundings domain (text "t")
      (action_access_token_obtain surroundings domain (text "t")) for_john idle

action_access_token_obtain_lem_example :
    IsRefused surroundings domain (text "t") idle served_john
    ⊎ ((get_access_token_from_request for_john ≡ text "t")
        × (text "t" ≢ [])
        × IsPassed surroundings domain (text "t") for_john idle served_john)
action_access_token_obtain_lem_example =
    action_access_token_obtain_lem surroundings domain (text "t") for_john idle
