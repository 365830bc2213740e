-- ===== src/Gateway/Interceptor.antt =====
-- corporal/httpgateway/interceptor: the handling of password logins. The fields that are only logged
-- are left out. Reading and writing JSON (encoding/json), the answer of the policy store, the check
-- of credentials and the password generator are parameters.
pub mod Verdict
use matrix_corporal.Base.{
  Bool, true, false, not, Option, none, some, List, [], ◌∷◌, ◌++◌, Text, text, text_eq, Result, ok,
  err, if◌then◌else◌,
}
use matrix_corporal.Util.{is_string_in_array}
use matrix_corporal.Http.{Request, with_request_body}
use matrix_corporal.Matrix.{
  error_bad_json, error_forbidden, error_unknown, error_user_deactivated, login_type_token,
  login_type_password, login_identifier_type_third_party, login_identifier_type_phone,
  determine_full_user_id, is_full_user_id_of_domain,
}
use matrix_corporal.UserAuth.{user_auth_type_passthrough}
use matrix_corporal.UserAuth.Authenticators.{AuthError}
use matrix_corporal.Policy.{Policy, get_user_policy_by_user_id}

-- `ApiLoginRequestPayload` of corporal/matrix/payloads.go.
pub record ApiLoginRequestPayload : Type 0 where
  pub type : Text
  pub password : Text
  pub medium : Text
  pub user : Text
  pub address : Text
  pub token : Text
  pub device_id : Text
  pub initial_device_display_name : Text
  pub identifier_type : Text
  pub identifier_user : Text

pub data InterceptorResponse : Type 0 where
  proxy : InterceptorResponse
  deny : (error_code error_message : Text) → InterceptorResponse

-- What the login interceptor and the internal REST authentication are built with.
pub record Logins (S : Type 0) : Type 0 where
  pub homeserver_domain_name : Text
  pub check :
      (user_id given_password auth_type auth_credential : Text) → S → Result AuthError Bool × S
  pub generate_for_user_id : Text → Text
  pub read_login : Text → Result Text ApiLoginRequestPayload
  pub write_login : ApiLoginRequestPayload → Result Text Text

module _ {S : Type 0} (me : Logins S) where
  -- From the check of the credentials on.
  unfoldable pub authenticate_login :
      (payload : ApiLoginRequestPayload) (user_id_full auth_type auth_credential : Text)
      → Request
      → S
      → (InterceptorResponse × Request) × S
  authenticate_login payload user_id_full auth_type auth_credential r s =
      let (checked, s') = me.check user_id_full payload.password auth_type auth_credential s in
      elim checked [
        | err e ↦ ((deny error_unknown (text "Internal authenticator error"), r), s')
        | ok is_authenticated ↦
            if not is_authenticated
            then ((deny error_forbidden (text "Failed authentication"), r), s')
            else elim (me.write_login (record payload {
              user = user_id_full;
              password = me.generate_for_user_id user_id_full;
            })) [
              | err message ↦ ((deny error_unknown (text "Internal error"), r), s')
              | ok body ↦ ((proxy, with_request_body body r), s')
            ]
      ]

  -- From the user id on.
  unfoldable pub intercept_user :
      Policy → ApiLoginRequestPayload → Request → S → (InterceptorResponse × Request) × S
  intercept_user policy payload r s =
      let user_id =
        if not (text_eq payload.identifier_user [])
        then payload.identifier_user
        else payload.user in
      elim (determine_full_user_id user_id me.homeserver_domain_name) [
        | err e ↦ ((deny error_forbidden (text "Cannot interpret user id"), r), s)
        | ok user_id_full ↦
            if not (is_full_user_id_of_domain user_id_full me.homeserver_domain_name)
            then ((deny error_forbidden (text "Rejecting non-own domains"), r), s)
            else elim (get_user_policy_by_user_id policy user_id_full) [
              | none ↦ ((proxy, r), s)
              | some u ↦
                  if not u.active
                  then ((deny error_user_deactivated (text "Deactivated in policy"), r), s)
                  else if text_eq u.auth_type user_auth_type_passthrough
                  then ((proxy, r), s)
                  else authenticate_login payload user_id_full u.auth_type u.auth_credential r s
            ]
      ]

  unfoldable pub intercept :
      (policy_obj : Option Policy) → Request → S → (InterceptorResponse × Request) × S
  intercept policy_obj r s = elim (me.read_login r.body) [
    | err message ↦ ((deny error_bad_json (text "Bad input"), r), s)
    | ok payload ↦
        if text_eq payload.type login_type_token
        then ((proxy, r), s)
        else if not (text_eq payload.type login_type_password)
        then ((deny error_forbidden (text "Denying login type: " ++ payload.type), r), s)
        else elim policy_obj [
          | none ↦ ((deny error_unknown (text "Missing policy"), r), s)
          | some policy ↦
              if is_string_in_array payload.identifier_type
                (login_identifier_type_third_party ∷ login_identifier_type_phone ∷ [])
              then (if policy.flags.allow_3pid_login then ((proxy, r), s) else (
                (deny error_unknown (text "3pid login requests are not allowed on this server"), r),
                s,
              ))
              else intercept_user policy payload r s
        ]
  ]
