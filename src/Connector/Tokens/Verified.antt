-- ===== src/Connector/Tokens/Verified.antt =====
-- What is known of the tokens that a context holds (corporal/connector/access_token_context.go).
use matrix_corporal.Base.{
  ◌≡◌, inl, inr, ℕ, none, some, [], ◌∷◌, Text, text_eq, text_eq_iff, GoMap, lookup, insert,
  lookup-insert, lookup-erase, Result, ok, err, Bool-cases, Option-cases, Result-cases,
}
use matrix_corporal.Connector.Client.{ApiError}
use matrix_corporal.Connector.Tokens.{
  AccessToken, TokenSource, Session, expired, clear_access_token_for_user_id, obtain_access_token,
  get_access_token_for_user_id, release_all, release, valid_until_from,
}

module _ {W : Type 0} (connector : TokenSource W) (device_id : Text) (validity_seconds : ℕ) where
  -- The homeserver has said once that the token is the user's.
  abbrev pub WasVerified : (user_id access_token : Text) → Type 0
  WasVerified user_id access_token =
      (w : W) × ((connector.verify_access_token user_id access_token w).0 ≡ none)

  -- Every token of the context was verified for the user under whom it is stored.
  abbrev pub IsVerified : Session W → Type 0
  IsVerified s =
      (user_id : Text) (t : AccessToken)
      → lookup user_id s.tokens ≡ some t
      → WasVerified user_id t.token

  clear-IsVerified :
      (user_id : Text) (s : Session W)
      → IsVerified s
      → IsVerified (clear_access_token_for_user_id user_id s)
  unfolding clear_access_token_for_user_id
  clear-IsVerified user_id s v = λ u t e. elim (Bool-cases (text_eq user_id u)) [
    | inl same ↦ absurd (cc (rw (lookup-erase user_id u s.tokens, same) at e))
    | inr other ↦ v u t (rw (lookup-erase user_id u s.tokens, other) at e)
  ]

  insert-IsVerified :
      (user_id : Text) (t : AccessToken) (s : Session W)
      → WasVerified user_id t.token
      → IsVerified s
      → IsVerified (record s { tokens = insert user_id t s.tokens })
  insert-IsVerified user_id t s verified v = λ u t' e. elim (Bool-cases (text_eq user_id u)) [
    | inl same ↦
        let found : some t ≡ some t' = rw (lookup-insert user_id u t s.tokens, same) at e in
        let token : t ≡ t' = cc found in rw (← token, ← (text_eq_iff user_id u).0 same) verified
    | inr other ↦ v u t' (rw (lookup-insert user_id u t s.tokens, other) at e)
  ]

  release_all-IsVerified :
      (tokens : GoMap AccessToken) (s : Session W)
      → IsVerified s
      → IsVerified (release_all connector device_id validity_seconds tokens s)
  unfolding release_all
  release_all-IsVerified [] s v = v
  release_all-IsVerified ((u, t) ∷ tokens) s v =
      release_all-IsVerified tokens _ (clear-IsVerified u (record s { world = _ }) v)

  -- A call ends in a verified session, and the token it returns was verified.
  abbrev pub Yields : (user_id : Text) → Result ApiError Text × Session W → Type 0
  Yields user_id (ok access_token, s) = WasVerified user_id access_token × IsVerified s
  Yields user_id (err e, s) = IsVerified s

  obtain_access_token-Yields :
      (user_id : Text) (s : Session W)
      → IsVerified s
      → Yields user_id (obtain_access_token connector device_id validity_seconds user_id s)
  unfolding obtain_access_token
  obtain_access_token-Yields user_id s v =
      let until = valid_until_from connector device_id validity_seconds (connector.now s.world) in
      let (obtained, w) =
        connector.obtain_new_access_token_for_user_id user_id device_id until s.world in
      elim (Result-cases obtained) [
        | inr (error, o) ↦ rw (o, obtain_access_token) v
        | inl (token, o) ↦
            let (failure, w') = connector.verify_access_token user_id token w in
            elim (Option-cases failure) [
              | inr (error, f) ↦ rw (o, f, obtain_access_token) v
              | inl f ↦
                  rw (o, f, obtain_access_token)
                    (
                      (w, f),
                      insert-IsVerified user_id (record { token = token; valid_until = until }) s
                          (w, f) v,
                    )
            ]
      ]

  -- The context stays verified: a call for a user's token, forgetting one and releasing all keep every
  -- stored token one that the homeserver has said to be its user's. A token that a call returns, the
  -- stored or a new one, is such a token too.
  pub tokens_stay_IsVerified :
      (user_id : Text) (s : Session W)
      → IsVerified s
      → Yields user_id (get_access_token_for_user_id connector device_id validity_seconds user_id s)
        × IsVerified (clear_access_token_for_user_id user_id s)
        × IsVerified (release connector device_id validity_seconds s)
  unfolding get_access_token_for_user_id release
  tokens_stay_IsVerified user_id s v = (
    (elim (Option-cases (lookup user_id s.tokens)) [
      | inl l ↦ rw (l, get_access_token_for_user_id) (obtain_access_token-Yields user_id s v)
      | inr (t, l) ↦ elim (Bool-cases (expired (connector.now s.world) t)) [
        | inl old ↦
            rw (l, old, get_access_token_for_user_id)
              (obtain_access_token-Yields user_id (clear_access_token_for_user_id user_id s)
                (clear-IsVerified user_id s v))
        | inr fresh ↦ rw (l, fresh, get_access_token_for_user_id) (v user_id t l, v)
      ]
    ]),
    clear-IsVerified user_id s v,
    release_all-IsVerified s.tokens s v,
  )
