-- ===== src/UserAuth.antt =====
-- corporal/userauth: the authentication types of types.go.
pub mod Authenticators
use matrix_corporal.Base.{Bool, List, [], ◌∷◌, Text, text}
use matrix_corporal.Util.{is_string_in_array}

abbrev pub user_auth_type_plain : Text
user_auth_type_plain = text "plain"

abbrev pub user_auth_type_passthrough : Text
user_auth_type_passthrough = text "passthrough"

abbrev pub user_auth_type_md5 : Text
user_auth_type_md5 = text "md5"

abbrev pub user_auth_type_sha1 : Text
user_auth_type_sha1 = text "sha1"

abbrev pub user_auth_type_sha256 : Text
user_auth_type_sha256 = text "sha256"

abbrev pub user_auth_type_sha512 : Text
user_auth_type_sha512 = text "sha512"

abbrev pub user_auth_type_bcrypt : Text
user_auth_type_bcrypt = text "bcrypt"

abbrev pub user_auth_type_rest : Text
user_auth_type_rest = text "rest"

abbrev pub known_user_auth_types : List Text
known_user_auth_types =
    user_auth_type_plain ∷ user_auth_type_passthrough ∷ user_auth_type_md5 ∷ user_auth_type_sha1
    ∷ user_auth_type_sha256 ∷ user_auth_type_sha512 ∷ user_auth_type_bcrypt ∷ user_auth_type_rest
    ∷ []

unfoldable pub is_known_user_auth_type : Text → Bool
is_known_user_auth_type value = is_string_in_array value known_user_auth_types
