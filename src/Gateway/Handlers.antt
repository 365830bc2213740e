-- ===== src/Gateway/Handlers.antt =====
-- corporal/httpgateway/handler: the handlers of the policy-checked routes, of the login route and of
-- all other requests, but for their logging.
pub mod Replies
pub mod Bypass
use matrix_corporal.Base.{
  ℕ, Bool, true, false, not, Option, none, some, List, [], ◌∷◌, ◌++◌, Text, text, text_eq,
  has_prefix, drop, length, Result, ok, err, if◌then◌else◌,
}
use matrix_corporal.Http.{Request}
use matrix_corporal.Matrix.{error_forbidden, error_missing_token, error_unknown_token}
use matrix_corporal.Hook.{
  event_type_before_any_request, event_type_before_authenticated_request,
  event_type_before_authenticated_policy_checked_request, event_type_before_unauthenticated_request,
  event_type_after_any_request, event_type_after_authenticated_request,
  event_type_after_authenticated_policy_checked_request, event_type_after_unauthenticated_request,
}
use matrix_corporal.Hook.Execution.{Halt, panic, ExecutionResult}
use matrix_corporal.Policy.{Policy}
use matrix_corporal.Gateway.Policycheck.{Check}
use matrix_corporal.Gateway.Interceptor.{InterceptorResponse, proxy, deny}
use matrix_corporal.Gateway.HookRunner.{
  Reply, options, proxied, Exchange, Surroundings, respond_with_matrix_error, run_all_matching_type,
}

-- `GetAccessTokenFromRequest` of corporal/httphelp/request_utils.go.
unfoldable pub get_access_token_from_request_header : Request → Text
get_access_token_from_request_header request =
    if text_eq request.authorization []
    then []
    else if not (has_prefix request.authorization (text "Bearer "))
    then []
    else drop (length (text "Bearer ")) request.authorization

unfoldable pub get_access_token_from_request : Request → Text
get_access_token_from_request request =
    let access_token = get_access_token_from_request_header request in
    if not (text_eq access_token [])
    then access_token
    else elim request.form_access_token [ none ↦ [] | some token ↦ token ]

-- Why a handler does not go on: it has returned, or it has halted otherwise.
pub data Stop : Type 0 where
  returned : Stop
  halted : Halt → Stop

abbrev pub H : (S Modifier A : Type 0) → Type 0
H S Modifier A = Exchange S Modifier → Result Stop A × Exchange S Modifier

module _ {S Modifier : Type 0} where
  infixl 5 ◌>>=◌ ◌>>◌
  abbrev pub ◌>>=◌ : {A B : Type 0} → H S Modifier A → (A → H S Modifier B) → H S Modifier B
  m >>= f = λ x. elim (m x).0 [ ok a ↦ f a (m x).1 | err stop ↦ (err stop, (m x).1) ]

  abbrev pub ◌>>◌ : {B : Type 0} → H S Modifier (Unit {0}) → H S Modifier B → H S Modifier B
  m >> k = m >>= λ _. k

  abbrev pub pure : {A : Type 0} → A → H S Modifier A
  pure a x = (ok a, x)

  abbrev pub reject : {A : Type 0} → (status : ℕ) (error_code error_message : Text) → H S Modifier A
  reject status error_code error_message x =
      (err returned, respond_with_matrix_error status error_code error_message x)

  -- `reverseProxyToUse.ServeHTTP(w, r)`, with the chained modifiers if there are any.
  abbrev pub serve : List Modifier → H S Modifier (Unit {0})
  serve modifiers x = (ok tt, record x { replies = proxied x.request modifiers ∷ x.replies })

  abbrev pub the_request : H S Modifier Request
  the_request x = (ok x.request, x)

  -- `r.WithContext(...)`, twice.
  abbrev pub with_user : (access_token user_id : Text) → H S Modifier (Unit {0})
  with_user access_token user_id x = (
    ok tt,
    record x {
      request = record x.request { access_token = some access_token; user_id = some user_id };
    },
  )

  module _ (me : Surroundings S Modifier) where
    -- `runHooks` of util.go, with the modifiers so far.
    unfoldable pub run_hooks : (event_type : Text) → List Modifier → H S Modifier (List Modifier)
    run_hooks event_type modifiers x = elim (run_all_matching_type me event_type x) [
      | err halt ↦ (err (halted halt), x)
      | ok done ↦
          if done.0.response_sent
          then (err returned, done.1)
          else (ok (modifiers ++ done.0.reverse_proxy_response_modifiers), done.1)
    ]

    abbrev pub resolve : Text → H S Modifier (Result Text Text)
    resolve access_token x =
        let (found, outside) = me.resolve_by_access_token access_token x.outside in
        (ok found, record x { outside = outside })

    abbrev pub the_policy : H S Modifier (Option Policy)
    the_policy x =
        let (policy, outside) = me.get_policy x.outside in
        (ok policy, record x { outside = outside })

    abbrev pub resolved : (access_token : Text) → Result Text Text → H S Modifier Bool
    resolved access_token (err e) =
        reject 403 error_unknown_token (text "Failed mapping access token to user id")
    resolved access_token (ok user_id) = with_user access_token user_id >> pure true

    -- The part of the handler that finds out who the user is: `isAuthenticated`.
    unfoldable pub authenticate_request : (allow_unauthenticated_access : Bool) → H S Modifier Bool
    authenticate_request allow_unauthenticated_access = do
      r ← the_request
      let access_token = get_access_token_from_request r in
          (if text_eq access_token []
            then (if allow_unauthenticated_access
                then pure false
                else reject 401 error_missing_token (text "Missing access token"))
            else resolve access_token >>= resolved access_token)

    abbrev pub checked : Check → H S Modifier (Unit {0})
    checked (err p) = λ x.
        (err (halted (panic (text "interface conversion: interface {} is nil, not string"))), x)
    checked (ok response) =
        if not response.allow
        then reject 403 response.error_code response.error_message
        else pure tt

    abbrev pub check_with :
        Option Policy → (Request → Policy → Check) → Request → H S Modifier (Unit {0})
    check_with none callback r =
        reject 403 error_forbidden (text "Policy does not exist (yet), so access cannot be allowed")
    check_with (some policy) callback r = checked (callback r policy)

    -- The part that asks the policy.
    unfoldable pub check_policy : (Request → Policy → Check) → H S Modifier (Unit {0})
    check_policy callback = do policy ← the_policy; r ← the_request; check_with policy callback r

    -- Hooks of two types, if the user is authenticated.
    unfoldable pub run_two_hooks_if :
        Bool → (first second : Text) → List Modifier → H S Modifier (List Modifier)
    run_two_hooks_if false first second modifiers = pure modifiers
    run_two_hooks_if true first second modifiers = run_hooks first modifiers >>= run_hooks second

    -- The part after the policy has allowed the request.
    unfoldable pub pass_on : (is_authenticated : Bool) → List Modifier → H S Modifier (Unit {0})
    pass_on is_authenticated before_all = do
      after ← run_hooks event_type_after_any_request before_all
      after_all ←
          run_two_hooks_if is_authenticated event_type_after_authenticated_request
            event_type_after_authenticated_policy_checked_request after
      serve after_all

    unfoldable pub policy_checking_handler :
        (policy_checking_callback : Request → Policy → Check) (allow_unauthenticated_access : Bool)
        → H S Modifier (Unit {0})
    policy_checking_handler policy_checking_callback allow_unauthenticated_access = do
      before ← run_hooks event_type_before_any_request []
      is_authenticated ← authenticate_request allow_unauthenticated_access
      before_all ←
          run_two_hooks_if is_authenticated event_type_before_authenticated_request
            event_type_before_authenticated_policy_checked_request before
      check_policy policy_checking_callback
      pass_on is_authenticated before_all

    -- The loop over the hooks to run.
    unfoldable pub run_all_hooks : List Text → List Modifier → H S Modifier (List Modifier)
    run_all_hooks [] modifiers = pure modifiers
    run_all_hooks (event_type ∷ event_types) modifiers =
        run_hooks event_type modifiers >>= run_all_hooks event_types

    abbrev pub intercepted : {A : Type 0} → A → InterceptorResponse → H S Modifier A
    intercepted a proxy = pure a
    intercepted a (deny error_code error_message) = reject 403 error_code error_message

    -- `intercept` may change the request.
    abbrev pub intercept_with :
        (intercept : Request → S → (InterceptorResponse × Request) × S)
        → H S Modifier InterceptorResponse
    intercept_with intercept x =
        let ((response, r), outside) = intercept x.request x.outside in
        (ok response, record x { request = r; outside = outside })

    unfoldable pub login_handler :
        (intercept : Request → S → (InterceptorResponse × Request) × S) → H S Modifier (Unit {0})
    login_handler intercept = do
      modifiers ←
          run_all_hooks
            (event_type_before_any_request ∷ event_type_before_unauthenticated_request
              ∷ event_type_after_any_request ∷ event_type_after_unauthenticated_request ∷ [])
            []
      response ← intercept_with intercept
      intercepted tt response
      serve modifiers

    unfoldable pub ordered_event_types_by_auth_status : Bool → List Text
    ordered_event_types_by_auth_status is_authenticated =
        event_type_before_any_request
        ∷ (if is_authenticated
            then event_type_before_authenticated_request ∷ event_type_after_any_request
              ∷ event_type_after_authenticated_request ∷ []
            else event_type_before_unauthenticated_request ∷ event_type_after_any_request
              ∷ event_type_after_unauthenticated_request ∷ [])

    abbrev pub recognized : (access_token : Text) → Result Text Text → H S Modifier Bool
    recognized access_token (err e) = pure false
    recognized access_token (ok user_id) = with_user access_token user_id >> pure true

    -- Who the user is, if that can be found out.
    unfoldable pub recognize_user : H S Modifier Bool
    recognize_user = do
      r ← the_request
      let access_token = get_access_token_from_request r in
          (if not (text_eq access_token [])
            then resolve access_token >>= recognized access_token
            else pure false)

    unfoldable pub action_catch_all : H S Modifier (Unit {0})
    action_catch_all = do
      r ← the_request
      (if text_eq r.method (text "OPTIONS")
          then (λ x. (ok tt, record x { replies = options ∷ x.replies }))
          else (do
            is_authenticated ← recognize_user
            modifiers ← run_all_hooks (ordered_event_types_by_auth_status is_authenticated) []
            serve modifiers))
