-- ===== src/Gateway/Interceptor/Verdict.antt =====
-- The logins that are passed on by corporal/httpgateway/interceptor/interceptor_login.go, and the
-- answers of corporal/httpgateway/handler/internal_rest_auth.go to the same credentials.
use matrix_corporal.Base.{
  ◌≡◌, subst, ◌⊎◌, inl, inr, Bool, true, false, not, Option, none, some, [], ◌∷◌, arith, Text,
  text_eq, Result, ok, if◌then◌else◌, Bool-cases, Option-cases, Result-cases,
}
use matrix_corporal.Util.{is_string_in_array}
use matrix_corporal.Http.{Request, with_request_body}
use matrix_corporal.Matrix.{
  determine_full_user_id, is_full_user_id_of_domain, login_type_token, login_type_password,
  login_identifier_type_third_party, login_identifier_type_phone,
}
use matrix_corporal.UserAuth.{user_auth_type_passthrough}
use matrix_corporal.UserAuth.Authenticators.{AuthError}
use matrix_corporal.Policy.{Policy, UserPolicy, get_user_policy_by_user_id}
use matrix_corporal.Gateway.Interceptor.{
  ApiLoginRequestPayload, proxy, Logins, authenticate_login, intercept_user, intercept,
}
use matrix_corporal.Gateway.RestAuth.{successful, check_credentials, Net}

-- The user that a payload names.
abbrev pub login_user : ApiLoginRequestPayload → Text
login_user payload =
    if not (text_eq payload.identifier_user []) then payload.identifier_user else payload.user

module _ {S : Type 0} (me : Logins S) (policy : Policy) where
  -- The id names a user of the homeserver's domain.
  abbrev pub Names : Text → Text → Type 0
  Names id full =
      (determine_full_user_id id me.homeserver_domain_name ≡ ok full)
      × (is_full_user_id_of_domain full me.homeserver_domain_name ≡ true)

  -- The user is managed and active, and matrix-corporal authenticates the user.
  abbrev pub IsOurs : Text → UserPolicy → Type 0
  IsOurs full u =
      (get_user_policy_by_user_id policy full ≡ some u)
      × (u.active ≡ true)
      × (text_eq u.auth_type user_auth_type_passthrough ≡ false)

  -- The payload that the homeserver gets in place of the client's.
  abbrev pub trusted : Text → ApiLoginRequestPayload → ApiLoginRequestPayload
  trusted full payload = record payload { user = full; password = me.generate_for_user_id full }

  abbrev pub checked : Text → UserPolicy → (password : Text) → S → Result AuthError Bool × S
  checked full u password s = me.check full password u.auth_type u.auth_credential s

  authenticate-proxy :
      (payload : ApiLoginRequestPayload) (full : Text) (u : UserPolicy) (r r' : Request) (s s' : S)
      → authenticate_login me payload full u.auth_type u.auth_credential r s ≡ ((proxy, r'), s')
      → (checked full u payload.password s ≡ (ok true, s'))
        × ((body : Text) × (me.write_login (trusted full payload) ≡ ok body)
            × (r' ≡ with_request_body body r))
  unfolding authenticate_login
  authenticate-proxy payload full u r r' s s' h =
      elim (Result-cases (checked full u payload.password s).0) [
        | inr (e, c) ↦ absurd (ground arith)
        | inl (b, c) ↦ elim (Bool-cases b) [
          | inr wrong ↦ absurd (ground arith)
          | inl right ↦ elim (Result-cases (me.write_login (trusted full payload))) [
            | inr (e, w) ↦ absurd (ground arith)
            | inl (body, w) ↦ (ground arith, (body, w, ground arith))
          ]
        ]
      ]

  -- Which logins with a user are passed on, and as what: it names a user of the homeserver's domain,
  -- and is passed on as it came if the user is not managed or is active with the passthrough type.
  -- For any other managed user, the user is active, the check of the credentials said yes, and the
  -- payload that is passed on has the user's full id and the generated password.
  abbrev pub IsPassedUser : ApiLoginRequestPayload → (r r' : Request) (s s' : S) → Type 0
  IsPassedUser payload r r' s s' =
      (full : Text) × Names (login_user payload) full
      × (((get_user_policy_by_user_id policy full ≡ none) × (r' ≡ r))
          ⊎ ((u : UserPolicy) × (get_user_policy_by_user_id policy full ≡ some u)
              × (u.active ≡ true)
              × (((text_eq u.auth_type user_auth_type_passthrough ≡ true) × (r' ≡ r))
                  ⊎ ((checked full u payload.password s ≡ (ok true, s'))
                      × ((body : Text) × (me.write_login (trusted full payload) ≡ ok body)
                          × (r' ≡ with_request_body body r))))))

  intercept_user-IsPassedUser :
      (payload : ApiLoginRequestPayload) (r r' : Request) (s s' : S)
      → intercept_user me policy payload r s ≡ ((proxy, r'), s')
      → IsPassedUser payload r r' s s'
  unfolding intercept_user
  intercept_user-IsPassedUser payload r r' s s' h =
      elim (Result-cases (determine_full_user_id (login_user payload) me.homeserver_domain_name)) [
        | inr (e, d) ↦ absurd (ground arith)
        | inl (full, d) ↦
            elim (Bool-cases (is_full_user_id_of_domain full me.homeserver_domain_name)) [
              | inr foreign ↦ absurd (ground arith)
              | inl own ↦ (
                full,
                (d, own),
                elim (Option-cases (get_user_policy_by_user_id policy full)) [
                  | inl found ↦ inl (found, ground arith)
                  | inr (u, found) ↦ elim (Bool-cases u.active) [
                    | inr inactive ↦ absurd (ground arith)
                    | inl active ↦
                        elim (Bool-cases (text_eq u.auth_type user_auth_type_passthrough)) [
                          | inl through ↦ inr (u, found, active, inl (through, ground arith))
                          | inr ours ↦ inr (
                            u,
                            found,
                            active,
                            inr (authenticate-proxy payload full u r r' s s' (ground arith)),
                          )
                        ]
                  ]
                ],
              )
            ]
      ]

  module _ {Ip : Type 0} (net : Net Ip) where
    check_credentials-successful :
        (id password full name : Text) (s s' : S)
        → check_credentials net me policy id password s ≡ (successful full name, s')
        → (u : UserPolicy) × Names id full
          × IsOurs full u
          × (checked full u password s ≡ (ok true, s'))
          × (u.display_name ≡ name)
    unfolding check_credentials
    check_credentials-successful id password full name s s' h =
        elim (Result-cases (determine_full_user_id id me.homeserver_domain_name)) [
          | inr (e, d) ↦ absurd (ground arith)
          | inl (own, d) ↦
              elim (Bool-cases (is_full_user_id_of_domain own me.homeserver_domain_name)) [
                | inr foreign ↦ absurd (ground arith)
                | inl near ↦ elim (Option-cases (get_user_policy_by_user_id policy own)) [
                  | inl found ↦ absurd (ground arith)
                  | inr (u, found) ↦ elim (Result-cases (checked own u password s).0) [
                    | inr (e, c) ↦ absurd (ground arith)
                    | inl (b, c) ↦
                        let same : own ≡ full = ground arith in
                        (
                          u,
                          ground arith,
                          ground arith,
                          subst (λ t. checked t u password s ≡ (ok true, s')) same (ground arith),
                          ground arith,
                        )
                  ]
                ]
              ]
        ]

    -- When the internal REST authentication says yes to an id and a password, a login with the same
    -- id and password is passed on to the homeserver, after the same check of the credentials, with
    -- the full id and the generated password in it, if that payload can be written.
    pub check_credentials-intercept_user :
        (payload : ApiLoginRequestPayload) (r : Request) (full name body : Text) (s s' : S)
        → check_credentials net me policy (login_user payload) payload.password s
          ≡ (successful full name, s')
        → me.write_login (trusted full payload) ≡ ok body
        → intercept_user me policy payload r s ≡ ((proxy, with_request_body body r), s')
    unfolding intercept_user authenticate_login
    check_credentials-intercept_user payload r full name body s s' h w =
        let (u, names, ours, right, _) =
          check_credentials-successful (login_user payload) payload.password full name s s' h in
        ground arith

module _ {S : Type 0} (me : Logins S) where
  -- A login by an address or a telephone number.
  abbrev pub is_3pid : ApiLoginRequestPayload → Bool
  is_3pid payload =
      is_string_in_array payload.identifier_type
        (login_identifier_type_third_party ∷ login_identifier_type_phone ∷ [])

  -- A login is passed on to the homeserver only if its body can be read and it is of one of these
  -- kinds. A login with a token is passed on as it came. So is, while there is a policy, a password
  -- login by a third-party identifier, if the policy's flag allows these. Any other password login
  -- names a user of the homeserver's domain; it is passed on as it came if the user is not managed or
  -- is active with the passthrough type, and else the user is active, the check of the credentials
  -- said yes, and the payload that is passed on has the user's full id and the generated password.
  pub intercept-proxy :
      (policy_obj : Option Policy) (r r' : Request) (s s' : S)
      → intercept me policy_obj r s ≡ ((proxy, r'), s')
      → (payload : ApiLoginRequestPayload) × (me.read_login r.body ≡ ok payload)
        × (((text_eq payload.type login_type_token ≡ true) × (r' ≡ r))
            ⊎ ((text_eq payload.type login_type_password ≡ true)
                × ((policy : Policy) × (policy_obj ≡ some policy)
                    × (((is_3pid payload ≡ true)
                          × (policy.flags.allow_3pid_login ≡ true)
                          × (r' ≡ r))
                        ⊎ ((is_3pid payload ≡ false) × IsPassedUser me policy payload r r' s s')))))
  unfolding intercept
  intercept-proxy policy_obj r r' s s' h = elim (Result-cases (me.read_login r.body)) [
    | inr (e, body) ↦ absurd (ground arith)
    | inl (payload, body) ↦ (
      payload,
      body,
      elim (Bool-cases (text_eq payload.type login_type_token)) [
        | inl token ↦ inl (token, ground arith)
        | inr other ↦ elim (Bool-cases (text_eq payload.type login_type_password)) [
          | inr unknown ↦ absurd (ground arith)
          | inl password ↦ elim (Option-cases policy_obj) [
            | inl missing ↦ absurd (ground arith)
            | inr (policy, held) ↦ elim (Bool-cases (is_3pid payload)) [
              | inr by_user ↦ inr (
                password,
                (
                  policy,
                  held,
                  inr (
                    by_user,
                    intercept_user-IsPassedUser me policy payload r r' s s' (ground arith),
                  ),
                ),
              )
              | inl by_address ↦ elim (Bool-cases policy.flags.allow_3pid_login) [
                | inr forbidden ↦ absurd (ground arith)
                | inl allow ↦ inr (password, (policy, held, inl (by_address, allow, ground arith)))
              ]
            ]
          ]
        ]
      ],
    )
  ]
