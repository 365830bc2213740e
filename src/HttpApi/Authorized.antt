-- ===== src/HttpApi/Authorized.antt =====
-- What the handlers of the HTTP API for access tokens do (corporal/httpapi/handler/user.go), behind
-- the middleware of server.go.
use matrix_corporal.Base.{
  ℕ, ◌≡◌, ◌≢◌, refl, ◌⊎◌, inl, inr, true, [], ◌++◌, Text, text, text_eq, text_eq_iff, Result, ok,
  err, Bool-cases, Result-cases, arith,
}
use matrix_corporal.Http.{Request}
use matrix_corporal.Matrix.{is_full_user_id_of_domain, error_unknown}
use matrix_corporal.Gateway.Handlers.{get_access_token_from_request}
use matrix_corporal.Gateway.Policycheck.{var}
use matrix_corporal.HttpApi.{
  ApiAccessTokenObtainRequestPayload, ApiReply, response_error, access_token_obtained,
  ApiSurroundings, ApiState, deny_unauthorized_access_middleware, valid_until, obtained, obtain_for,
  action_access_token_obtain,
}

module _ {E Time W : Type 0} (me : ApiSurroundings E Time W)
    (homeserver_domain_name authorization_bearer_token : Text) where
  -- A response with an error, and nothing changed.
  abbrev pub IsRefused : ApiState W → ApiReply × ApiState W → Type 0
  IsRefused x result =
      (status : ℕ) × (error_code message : Text) × (result
        ≡ (response_error status error_code message, x))

  abbrev asks : Request → ApiAccessTokenObtainRequestPayload → ApiState W → Result E Text × W
  asks request payload x =
      me.obtain_new_access_token_for_user_id (var request (text "userId")) payload.device_id
        (valid_until me homeserver_domain_name authorization_bearer_token payload.validity_seconds
          x.world)
        x.world

  -- The connector was asked for a token, and its answer is the response.
  abbrev pub IsAnswered :
      Request → ApiAccessTokenObtainRequestPayload → ApiState W → ApiReply × ApiState W → Type 0
  IsAnswered request payload x result =
      (payload.device_id ≢ [])
      × (((access_token : Text) × ((asks request payload x).0 ≡ ok access_token)
            × (result.0 ≡ access_token_obtained access_token))
          ⊎ ((e : E) × (message : Text) × ((asks request payload x).0 ≡ err e)
              × (result.0 ≡ response_error 200 error_unknown message)))
      × (result.1 ≡ record x { world = (asks request payload x).1 })

  abbrev pub IsPassed : Request → ApiState W → ApiReply × ApiState W → Type 0
  IsPassed request x result =
      (is_full_user_id_of_domain (var request (text "userId")) homeserver_domain_name ≡ true)
      × (payload : ApiAccessTokenObtainRequestPayload) × (me.unmarshal_obtain_payload request.body
          ≡ ok payload)
      × IsAnswered request payload x result

  obtain_for_cases :
      (request : Request) (payload : ApiAccessTokenObtainRequestPayload) (x : ApiState W)
      (result : ApiReply × ApiState W)
      → result
        ≡ obtain_for me homeserver_domain_name authorization_bearer_token
            (var request (text "userId"))
            payload
            x
      → IsRefused x result ⊎ IsAnswered request payload x result
  unfolding obtain_for obtained
  obtain_for_cases request payload x result e = elim (Bool-cases (text_eq payload.device_id [])) [
    | inl missing ↦ inl (_, _, _, rw (obtain_for, missing) at e)
    | inr given ↦
        let called : result ≡ (
          obtained me homeserver_domain_name authorization_bearer_token (asks request payload x).0,
          record x { world = (asks request payload x).1 },
        ) =
          rw (obtain_for, given) at e in
        inr (
          (λ empty. ground (arith, text_eq_iff payload.device_id [])),
          elim (Result-cases (asks request payload x).0) [
            | inl (token, h) ↦ inl (token, h, rw (called, h) refl)
            | inr (wrong, h) ↦ inr (
              wrong,
              text "Could not obtain access token: " ++ me.error_text wrong,
              h,
              rw (called, h) refl,
            )
          ],
          rw called refl,
        )
  ]

  passed :
      (request : Request) (x : ApiState W) (result : ApiReply × ApiState W)
      → result
        ≡ action_access_token_obtain me homeserver_domain_name authorization_bearer_token request x
      → IsRefused x result ⊎ IsPassed request x result
  unfolding action_access_token_obtain
  passed request x result e =
      elim (Bool-cases
        (is_full_user_id_of_domain (var request (text "userId")) homeserver_domain_name)) [
          | inr foreign ↦ inl (_, _, _, rw (action_access_token_obtain, foreign) at e)
          | inl local ↦ elim (Result-cases (me.unmarshal_obtain_payload request.body)) [
            | inr (wrong, body) ↦ inl (_, _, _, rw (action_access_token_obtain, local, body) at e)
            | inl (payload, body) ↦
                elim (obtain_for_cases request payload x result
                  (rw (action_access_token_obtain, local, body) at e)) [
                    | inl refused ↦ inl refused
                    | inr answered ↦ inr (local, payload, body, answered)
                  ]
          ]
        ]

  behind_middleware :
      (request : Request) (x : ApiState W) (result : ApiReply × ApiState W)
      → result
        ≡ deny_unauthorized_access_middleware me homeserver_domain_name authorization_bearer_token
            (action_access_token_obtain me homeserver_domain_name authorization_bearer_token)
            request
            x
      → IsRefused x result
        ⊎ ((get_access_token_from_request request ≡ authorization_bearer_token)
            × (authorization_bearer_token ≢ [])
            × IsPassed request x result)
  unfolding deny_unauthorized_access_middleware
  behind_middleware request x result e =
      let token = get_access_token_from_request request in
      elim (Bool-cases (text_eq token [])) [
        | inl missing ↦ inl (_, _, _, rw (deny_unauthorized_access_middleware, missing) at e)
        | inr given ↦ elim (Bool-cases (text_eq token authorization_bearer_token)) [
          | inr bad ↦ inl (_, _, _, rw (deny_unauthorized_access_middleware, given, bad) at e)
          | inl good ↦
              let same = (text_eq_iff token authorization_bearer_token).0 good in
              elim (passed request x result
                (rw (deny_unauthorized_access_middleware, given, good) at e)) [
                  | inl refused ↦ inl refused
                  | inr passes ↦ inr (same, (λ empty. ground (arith, text_eq_iff token [])), passes)
                ]
        ]
      ]

  -- A request to obtain an access token, with whatever token of its own, is answered with an error
  -- and changes nothing; or it has the API's bearer token, which is not empty, its user is of the
  -- homeserver's domain, and its body names a device, and then the connector is asked for this user
  -- and device: what it leaves is all that changes, and the response has the access token, or an
  -- error when the connector gave one.
  pub action_access_token_obtain_lem :
      (request : Request) (x : ApiState W)
      → let result =
          deny_unauthorized_access_middleware me homeserver_domain_name authorization_bearer_token
            (action_access_token_obtain me homeserver_domain_name authorization_bearer_token)
            request
            x in
        IsRefused x result
        ⊎ ((get_access_token_from_request request ≡ authorization_bearer_token)
            × (authorization_bearer_token ≢ [])
            × IsPassed request x result)
  action_access_token_obtain_lem request x = behind_middleware request x _ refl
