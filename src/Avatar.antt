-- ===== src/Avatar.antt =====
-- corporal/avatar/avatar.go: avatars, and how they are read from their URIs.
pub mod DataUri
use matrix_corporal.Base.{
  ℕ, ℤ, pos, ◌==◌, int_eq, Bool, not, Option, none, some, List, [], ◌∷◌, ◌++◌, Text, text, text_eq,
  has_prefix, drop, length, Result, ok, err, if◌then◌else◌,
}

pub record Avatar : Type 0 where
  pub content_type : Text
  pub content_length : ℕ
  pub body : Text
  pub uri_hash : Text

-- An answer to a GET request, with the outcome of reading its body.
pub record AvatarResponse : Type 0 where
  pub status_code : ℤ
  pub content_type : Text
  pub body : Result Text Text

-- Packages `net/http` and `encoding/base64`, the formatting of numbers, and util.Sha512.
pub record AvatarReader (S : Type 0) : Type 0 where
  pub http_get : (url : Text) → S → Result Text AvatarResponse × S
  pub decode_base64 : Text → Result Text Text
  pub decimal : ℤ → Text
  pub uri_hash : Text → Text

-- The parts before and after the first byte `separator`: `s[:i]` and `s[i+1:]` for its index `i`.
unfoldable pub cut : (separator : ℕ) → Text → Option (Text × Text)
cut separator [] = none
cut separator (c ∷ s) =
    if c == separator
    then some ([], s)
    else elim (cut separator s) [ none ↦ none | some parts ↦ some (c ∷ parts.0, parts.1) ]

abbrev pub semicolon : ℕ
semicolon = 59

abbrev pub comma : ℕ
comma = 44

module _ {S : Type 0} (me : AvatarReader S) where
  abbrev pub avatar_of : (uri content_type body : Text) → Avatar
  avatar_of uri content_type body = record {
    content_type = content_type;
    content_length = length body;
    body = body;
    uri_hash = me.uri_hash uri;
  }

  -- The part of `Read` for a URI `data:`, of which `data_content` is the rest. Both separators are
  -- looked for from the start of it.
  unfoldable pub read_data : (uri data_content : Text) → Result Text Avatar
  read_data uri data_content = elim (cut semicolon data_content) [
    | none ↦ err (text "malformed data URI, cannot find semicolon")
    | some type ↦ elim (cut comma data_content) [
      | none ↦ err (text "malformed data URI, cannot find comma")
      | some content ↦ elim (me.decode_base64 content.1) [
        | err e ↦ err (text "failed to base64-decode data: " ++ e)
        | ok bytes ↦ ok (avatar_of uri type.0 bytes)
      ]
    ]
  ]

  unfoldable pub read_response : (uri : Text) → Result Text AvatarResponse → Result Text Avatar
  read_response uri (err e) = err e
  read_response uri (ok response) =
      if not (int_eq response.status_code (pos 200))
      then err (text "non-200 response fetching from URL: " ++ me.decimal response.status_code)
      else elim response.body [
        | err e ↦ err (text "failed reading HTTP response body: " ++ e)
        | ok bytes ↦ ok (avatar_of uri response.content_type bytes)
      ]

  unfoldable pub read : (avatar_uri : Text) → S → Result Text Avatar × S
  read avatar_uri s =
      let (response, s') = me.http_get avatar_uri s in
      if text_eq avatar_uri []
      then (ok (avatar_of avatar_uri [] []), s)
      else if has_prefix avatar_uri (text "data:")
      then (read_data avatar_uri (drop (length (text "data:")) avatar_uri), s)
      else (read_response avatar_uri response, s')
