-- ===== src/UserAuth/Authenticators.antt =====
-- corporal/userauth: the authenticators and the checker that picks one of them by its type. An
-- authenticator may read and change the world `S`.
pub mod Fallback
use matrix_corporal.Base.{
  ℕ, Bool, true, false, Option, none, some, List, [], ◌∷◌, ◌++◌, Text, text, text_eq, length, GoMap,
  lookup, insert, Result, ok, err, ltb, ◌==◌, ◌+◌, ◌*◌, ◌-◌, leb, ◌&&◌, if◌then◌else◌,
}
use matrix_corporal.UserAuth.{user_auth_type_plain, user_auth_type_bcrypt, user_auth_type_rest}

pub data AuthError : Type 0 where
  unsupported_authenticator : Text → AuthError
  bad_hex : AuthError
  long_password : ℕ → AuthError
  rejected_by_bcrypt : Text → AuthError
  transport : Text → AuthError
  non_ok_response : (url : Text) (status : ℕ) → AuthError
  bad_json : Text → AuthError
  fallback_failed : AuthError → AuthError

abbrev pub Authenticate : Type 0 → Type 0
Authenticate S = (user_id given_password auth_credential : Text) → S → Result AuthError Bool × S

pub record Authenticator (S : Type 0) : Type 0 where
  pub type : Text
  pub authenticate : Authenticate S

-- The value of a hexadecimal digit.
unfoldable pub from_hex_char : ℕ → Option ℕ
from_hex_char c =
    if leb 48 c && leb c 57
    then some (c - 48)
    else if leb 97 c && leb c 102
    then some (c - 87)
    else if leb 65 c && leb c 70
    then some (c - 55)
    else none

-- `hex.DecodeString`
unfoldable pub decode_hex : Text → Option Text
decode_hex [] = some []
decode_hex (high ∷ []) = none
decode_hex (high ∷ low ∷ rest) =
    let decoded = decode_hex rest in
    elim (from_hex_char high) [
      | none ↦ none
      | some h ↦ elim (from_hex_char low) [
        | none ↦ none
        | some l ↦ elim decoded [ none ↦ none | some bytes ↦ some ((h * 16 + l) ∷ bytes) ]
      ]
    ]

module _ {S : Type 0} where
  unfoldable pub none_authenticator : Authenticator S
  none_authenticator = record {
    type = text "none";
    authenticate = λ user_id given_password auth_credential s. (ok false, s);
  }

  unfoldable pub plain_authenticator : Authenticator S
  plain_authenticator = record {
    type = user_auth_type_plain;
    authenticate = λ user_id given_password auth_credential s.
        (ok (text_eq given_password auth_credential), s);
  }

  -- `sum` is the hash function, which the constructor is given.
  unfoldable pub hash_authenticator : (sum : Text → Text) (auth_type : Text) → Authenticator S
  hash_authenticator sum auth_type = record {
    type = auth_type;
    authenticate = λ user_id given_password auth_credential s. elim (decode_hex auth_credential) [
      | none ↦ (err bad_hex, s)
      | some bytes ↦ (ok (text_eq bytes (sum given_password)), s)
    ];
  }

  -- `compare` is `bcrypt.CompareHashAndPassword`: its error, if there is one.
  unfoldable pub bcrypt_authenticator :
      (compare : (hashed password : Text) → Option Text) → Authenticator S
  bcrypt_authenticator compare = record {
    type = user_auth_type_bcrypt;
    authenticate = λ user_id given_password auth_credential s.
        if ltb 4096 (length given_password)
        then (err (long_password (length given_password)), s)
        else elim (compare auth_credential given_password) [
          | some message ↦ (err (rejected_by_bcrypt message), s)
          | none ↦ (ok true, s)
        ];
  }

  -- `post` marshals the request's payload and posts it: an error, or the response's status and its
  -- body. `read_success` is the `auth.success` that package `encoding/json` finds in a body.
  unfoldable pub rest_authenticator :
      (post : (url user_id password : Text) → S → Result Text (ℕ × Text) × S)
      (read_success : Text → Result Text Bool)
      → Authenticator S
  rest_authenticator post read_success = record {
    type = user_auth_type_rest;
    authenticate = λ user_id given_password auth_credential s.
        let (answer, s') = post auth_credential user_id given_password s in
        elim answer [
          | err message ↦ (err (transport message), s')
          | ok response ↦
              if response.0 == 200
              then elim (read_success response.1) [
                | err message ↦ (err (bad_json message), s')
                | ok success ↦ (ok success, s')
              ]
              else (err (non_ok_response auth_credential response.0), s')
        ];
  }

  unfoldable pub register_authenticator :
      Authenticator S → GoMap (Authenticator S) → GoMap (Authenticator S)
  register_authenticator entity me = insert entity.type entity me

  unfoldable pub check :
      GoMap (Authenticator S)
      → (user_id given_password auth_type auth_credential : Text) → S
      → Result AuthError Bool × S
  check me user_id given_password auth_type auth_credential s = elim (lookup auth_type me) [
    | none ↦ (err (unsupported_authenticator auth_type), s)
    | some authenticator ↦ authenticator.authenticate user_id given_password auth_credential s
  ]

-- The LRU cache of a third party.
pub record Cache (C : Type 0) : Type 0 where
  pub find : Text → C → Option Bool × C
  pub add : Text → Bool → C → C

unfoldable pub cache_key_raw : (user_id given_password auth_credential : Text) → Text
cache_key_raw user_id given_password auth_credential =
    user_id ++ (text "-" ++ (given_password ++ (text "-" ++ auth_credential)))

-- `sha256` is the hash of the cache's keys. The cache is a part of the state.
unfoldable pub cache_fallback_authenticator :
    {S C : Type 0} (sha256 : Text → Text) (cache : Cache C) (auth_type : Text)
    (other : Authenticator S)
    → Authenticator (S × C)
cache_fallback_authenticator sha256 cache auth_type other = record {
  type = auth_type;
  authenticate = λ user_id given_password auth_credential (s, c).
      let key = sha256 (cache_key_raw user_id given_password auth_credential) in
      let (answer, s') = other.authenticate user_id given_password auth_credential s in
      elim answer [
        | ok is_authenticated ↦ (ok is_authenticated, (s', cache.add key is_authenticated c))
        | err upstream ↦
            let (found, c') = cache.find key c in
            elim found [
              | none ↦ (err (fallback_failed upstream), (s', c'))
              | some cached ↦ (ok cached, (s', c'))
            ]
      ];
}
