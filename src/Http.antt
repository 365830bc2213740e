-- ===== src/Http.antt =====
-- Requests and responses (net/http), as far as the program reads and changes them.
pub mod ResponseBound
use matrix_corporal.Base.{
  ℕ, ℤ, Option, List, [], ◌∷◌, Text, text, text_eq, GoMap, insert, length, if◌then◌else◌,
}

-- `user_id` and `access_token` are the values that the gateway stores in the request's context, and
-- `vars` are the route's variables. `authorization` is `Header.Get("Authorization")`, and
-- `form_access_token` is the `access_token` of the form, or `none` when `ParseForm` returns an error.
pub record Request : Type 0 where
  pub method : Text
  pub request_uri : Text
  pub path : Text
  pub header : GoMap (List Text)
  pub body : Text
  pub content_length : ℕ
  pub vars : GoMap Text
  pub authorization : Text
  pub form_access_token : Option Text
  pub access_token : Option Text
  pub user_id : Option Text

-- A response of the upstream, as the reverse proxy gives it to its modifiers.
pub record Response : Type 0 where
  pub status_code : ℤ
  pub header : GoMap (List Text)
  pub body : Text
  pub content_length : ℕ

-- `Header.Set`, where `canonical` is `CanonicalHeaderKey`.
abbrev pub header_set :
    (canonical : Text → Text) (key value : Text) → GoMap (List Text) → GoMap (List Text)
header_set canonical key value = insert (canonical key) (value ∷ [])

abbrev pub set_request_header : (canonical : Text → Text) (key value : Text) → Request → Request
set_request_header canonical key value r = record r {
  header = header_set canonical key value r.header;
  authorization = if text_eq (canonical key) (text "Authorization") then value else r.authorization;
}

abbrev pub set_response_header : (canonical : Text → Text) (key value : Text) → Response → Response
set_response_header canonical key value r = record r {
  header = header_set canonical key value r.header;
}

-- A new body, with its length in `ContentLength`.
abbrev pub with_request_body : Text → Request → Request
with_request_body bytes r = record r { body = bytes; content_length = length bytes }

abbrev pub with_response_body : Text → Response → Response
with_response_body bytes r = record r { body = bytes; content_length = length bytes }
