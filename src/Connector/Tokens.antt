-- ===== src/Connector/Tokens.antt =====
-- corporal/connector/access_token_context.go and access_token.go: the access tokens that a run of the
-- reconciler holds.
pub mod Verified
use matrix_corporal.Base.{
  ℕ, ◌+◌, ◌==◌, ltb, Bool, true, false, Option, none, some, List, [], ◌∷◌, Text, GoMap, lookup,
  insert, erase, Result, ok, err, if◌then◌else◌,
}
use matrix_corporal.Connector.Client.{ApiError}

-- `valid_until` in seconds since the epoch
pub record AccessToken : Type 0 where
  pub token : Text
  pub valid_until : Option ℕ

unfoldable pub expired : (now : ℕ) → AccessToken → Bool
expired now me = elim me.valid_until [ none ↦ false | some valid_until ↦ ltb valid_until now ]

-- The operations of the connector that a context uses.
pub record TokenSource (W : Type 0) : Type 0 where
  pub now : W → ℕ
  pub obtain_new_access_token_for_user_id :
      (user_id device_id : Text) (valid_until : Option ℕ) → W → Result ApiError Text × W
  pub verify_access_token : (user_id access_token : Text) → W → Option ApiError × W
  pub destroy_access_token : (user_id access_token : Text) → W → Option ApiError × W

-- The world, and the map of the context.
pub record Session (W : Type 0) : Type 0 where
  pub world : W
  pub tokens : GoMap AccessToken

module _ {W : Type 0} where
  unfoldable pub clear_access_token_for_user_id : (user_id : Text) → Session W → Session W
  clear_access_token_for_user_id user_id s = record s { tokens = erase user_id s.tokens }

  -- The context has a device id, and a validity of 0 stands for tokens that do not expire.
  module _ (connector : TokenSource W) (device_id : Text) (validity_seconds : ℕ) where
    abbrev pub valid_until_from : (now : ℕ) → Option ℕ
    valid_until_from now = if validity_seconds == 0 then none else some (now + validity_seconds)

    -- A new token is verified before it is stored.
    unfoldable pub obtain_access_token :
        (user_id : Text) → Session W → Result ApiError Text × Session W
    obtain_access_token user_id s =
        let valid_until = valid_until_from (connector.now s.world) in
        let (obtained, w) =
          connector.obtain_new_access_token_for_user_id user_id device_id valid_until s.world in
        elim obtained [
          | err e ↦ (err e, record s { world = w })
          | ok access_token ↦
              let (failure, w') = connector.verify_access_token user_id access_token w in
              elim failure [
                | some e ↦ (err e, record s { world = w' })
                | none ↦ (
                  ok access_token,
                  record {
                    world = w';
                    tokens =
                        insert user_id (record { token = access_token; valid_until = valid_until })
                          s.tokens;
                  },
                )
              ]
        ]

    unfoldable pub get_access_token_for_user_id :
        (user_id : Text) → Session W → Result ApiError Text × Session W
    get_access_token_for_user_id user_id s = elim (lookup user_id s.tokens) [
      | none ↦ obtain_access_token user_id s
      | some access_token ↦
          if expired (connector.now s.world) access_token
          then obtain_access_token user_id (clear_access_token_for_user_id user_id s)
          else (ok access_token.token, s)
    ]

    -- The loop of `Release` over the tokens. An error is only logged.
    unfoldable pub release_all : GoMap AccessToken → Session W → Session W
    release_all [] s = s
    release_all ((user_id, access_token) ∷ tokens) s =
        let (failure, w) = connector.destroy_access_token user_id access_token.token s.world in
        release_all tokens (clear_access_token_for_user_id user_id (record s { world = w }))

    unfoldable pub release : Session W → Session W
    release s = release_all s.tokens s
