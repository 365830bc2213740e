-- ===== src/Avatar/DataUri.antt =====
-- The avatars of `data:` URIs (corporal/avatar/avatar.go).
use mathlib.Core.List.{append_assoc}
use matrix_corporal.Base.{
  ◌≡◌, ◌≢◌, refl, ℕ, arith, some, [], ◌∷◌, ◌++◌, Text, text, text_eq, has_prefix, drop, All,
  All-append, ok,
}
use matrix_corporal.Avatar.{AvatarReader, cut, semicolon, comma, avatar_of, read_data, read}

-- A text without a byte.
abbrev pub Lacks : (separator : ℕ) → Text → Type 0
Lacks separator = All (λ c. c ≢ separator)

cut-append :
    (separator : ℕ) (before after : Text)
    → Lacks separator before
    → cut separator (before ++ separator ∷ after) ≡ some (before, after)
unfolding cut
cut-append separator [] after lacks = ground arith
cut-append separator (c ∷ before) after lacks =
    ground (arith, cut-append separator before after lacks.1)

-- `data:<type>;<encoding>,<payload>`
abbrev pub data_uri : (content_type encoding payload : Text) → Text
data_uri content_type encoding payload =
    text "data:" ++ (content_type ++ semicolon ∷ (encoding ++ comma ∷ payload))

module _ {S : Type 0} (me : AvatarReader S) where
  -- Reading the data URI of a content type and of a payload, neither of the type and the encoding having a
  -- comma nor the type a semicolon, gives an avatar of that type whose body is the decoded payload. No
  -- request is made.
  pub read-data_uri :
      (content_type encoding payload bytes : Text) (s : S)
      → Lacks semicolon content_type
      → Lacks comma content_type
      → Lacks comma encoding
      → me.decode_base64 payload ≡ ok bytes
      → read me (data_uri content_type encoding payload) s
        ≡ (ok (avatar_of me (data_uri content_type encoding payload) content_type bytes), s)
  unfolding read read_data text_eq has_prefix drop
  read-data_uri content_type encoding payload bytes s no_semicolon no_comma no_comma' decoded =
      let rest = content_type ++ semicolon ∷ (encoding ++ comma ∷ payload) in
      let at_semicolon =
        cut-append semicolon content_type (encoding ++ comma ∷ payload) no_semicolon in
      let at_comma : cut comma rest ≡ some (content_type ++ semicolon ∷ encoding, payload) =
        rw (← append_assoc content_type (semicolon ∷ encoding) (comma ∷ payload)) (
          cut-append comma (content_type ++ semicolon ∷ encoding) payload (
            All-append (λ c. c ≢ comma) content_type (semicolon ∷ encoding) no_comma
              (λ e. absurd (omega arith), no_comma'))) in
      rw (at_semicolon, at_comma, decoded, read, read_data) refl
