-- ===== src/Gateway/Handlers/Bypass.antt =====
-- When the handler of corporal/httpgateway/handler/policy_checked_routes.go passes a request on.
use matrix_corporal.Base.{
  ◌≡◌, ◌⊎◌, inl, inr, Bool, true, false, some, List, [], Text, text_eq, text_eq_iff, ok, Bool-cases,
  Option-cases, Result-cases, arith,
}
use matrix_corporal.Hook.{
  event_type_before_any_request, event_type_before_authenticated_request,
  event_type_before_authenticated_policy_checked_request,
}
use matrix_corporal.Http.{Request}
use matrix_corporal.Policy.{Policy}
use matrix_corporal.Gateway.Policycheck.{Check, PolicyCheckResponse}
use matrix_corporal.Gateway.HookRunner.{Exchange, Surroundings}
use matrix_corporal.Gateway.Handlers.{
  H, ◌>>=◌, ◌>>◌, run_hooks, authenticate_request, check_policy, get_access_token_from_request,
  run_two_hooks_if, policy_checking_handler, pass_on,
}

module _ {S Modifier : Type 0} where
  -- What a chain that succeeds has done.
  bind-ok :
      {A B : Type 0} (m : H S Modifier A) (f : A → H S Modifier B) (x y : Exchange S Modifier)
      (b : B)
      → (m >>= f) x ≡ (ok b, y)
      → (a : A) × (z : Exchange S Modifier) × (m x ≡ (ok a, z)) × (f a z ≡ (ok b, y))
  bind-ok m f x y b h = elim (Result-cases (m x).0) [
    | inl (a, e) ↦ (a, (m x).1, ground arith, ground arith)
    | inr (stop, e) ↦ absurd (ground arith)
  ]

module _ {S Modifier : Type 0} (me : Surroundings S Modifier) where
  -- Who the user is, after `authenticate_request`: the one whom the access token resolves to, or, on a
  -- route that allows it, nobody, when there is no access token.
  abbrev pub IsAuthenticated :
      (allow_unauthenticated is_authenticated : Bool) (before after : Exchange S Modifier) → Type 0
  IsAuthenticated allow_unauthenticated is_authenticated before after =
      ((is_authenticated ≡ true)
        × ((user_id : Text) × ((me.resolve_by_access_token
                (get_access_token_from_request before.request) before.outside).0
              ≡ ok user_id)
            × (after.request.user_id ≡ some user_id)))
      ⊎ ((is_authenticated ≡ false)
          × (allow_unauthenticated ≡ true)
          × (get_access_token_from_request before.request ≡ [])
          × (after ≡ before))

  -- The check, asked about the request of the exchange under the policy that the store holds then,
  -- lets it through. The exchange that it leaves is the same but for the world.
  abbrev pub IsAllowed : (Request → Policy → Check) → (before after : Exchange S Modifier) → Type 0
  IsAllowed callback before after =
      (policy : Policy) × (response : PolicyCheckResponse) × ((me.get_policy before.outside).0
        ≡ some policy)
      × (callback before.request policy ≡ ok response)
      × (response.allow ≡ true)
      × (after ≡ record before { outside = (me.get_policy before.outside).1 })

  authenticate_request-IsAuthenticated :
      (allow_unauthenticated is_authenticated : Bool) (x y : Exchange S Modifier)
      → authenticate_request me allow_unauthenticated x ≡ (ok is_authenticated, y)
      → IsAuthenticated allow_unauthenticated is_authenticated x y
  unfolding authenticate_request
  authenticate_request-IsAuthenticated allow_unauthenticated is_authenticated x y h =
      let token = get_access_token_from_request x.request in
      elim (Bool-cases (text_eq token [])) [
        | inl missing ↦ elim (Bool-cases allow_unauthenticated) [
          | inl allow ↦ inr (ground arith, allow, (text_eq_iff token []).0 missing, ground arith)
          | inr forbid ↦ absurd (ground arith)
        ]
        | inr given ↦ elim (Result-cases (me.resolve_by_access_token token x.outside).0) [
          | inl (user_id, found) ↦ inl (ground arith, (user_id, found, ground arith))
          | inr (e, unknown) ↦ absurd (ground arith)
        ]
      ]

  check_policy-IsAllowed :
      (callback : Request → Policy → Check) (x y : Exchange S Modifier)
      → check_policy me callback x ≡ (ok tt, y)
      → IsAllowed callback x y
  unfolding check_policy
  check_policy-IsAllowed callback x y h = elim (Option-cases (me.get_policy x.outside).0) [
    | inl missing ↦ absurd (ground arith)
    | inr (policy, found) ↦ elim (Result-cases (callback x.request policy)) [
      | inr (panic, c) ↦ absurd (ground arith)
      | inl (response, c) ↦ elim (Bool-cases response.allow) [
        | inl allow ↦ (policy, response, found, c, allow, ground arith)
        | inr deny ↦ absurd (ground arith)
      ]
    ]
  ]

  -- The rest of the handler, from the hooks of authenticated requests on and from the question who
  -- the user is on.
  abbrev from_hooks : (Request → Policy → Check) → List Modifier → Bool → H S Modifier (Unit {0})
  from_hooks callback before b =
      run_two_hooks_if me b event_type_before_authenticated_request
        event_type_before_authenticated_policy_checked_request before
      >>= λ before_all. check_policy me callback >> pass_on me b before_all

  abbrev from_authentication :
      (Request → Policy → Check) → Bool → List Modifier → H S Modifier (Unit {0})
  from_authentication callback allow before =
      authenticate_request me allow >>= from_hooks callback before

  -- When the handler of a policy-checked route passes a request on, then, in this order: the first
  -- hooks ran; the user was the one whom the access token resolves to, or nobody, where the route
  -- allows that; the hooks of authenticated requests ran; the route's check, asked about the request
  -- as it was then and the policy that the store held, allowed it; and what came after is what the
  -- handler does with an allowed request.
  pub policy_checking_handler-ok :
      (callback : Request → Policy → Check) (allow_unauthenticated : Bool)
      (x y : Exchange S Modifier)
      → policy_checking_handler me callback allow_unauthenticated x ≡ (ok tt, y)
      → (is_authenticated : Bool) × (before before_all : List Modifier) × (started identified asked
          answered : Exchange S Modifier)
        × (run_hooks me event_type_before_any_request [] x ≡ (ok before, started))
        × IsAuthenticated allow_unauthenticated is_authenticated started identified
        × (run_two_hooks_if me is_authenticated event_type_before_authenticated_request
              event_type_before_authenticated_policy_checked_request before identified
            ≡ (ok before_all, asked))
        × IsAllowed callback asked answered
        × (pass_on me is_authenticated before_all answered ≡ (ok tt, y))
  unfolding policy_checking_handler
  policy_checking_handler-ok callback allow x y h =
      let (before, started, ran, h₁) =
        bind-ok (run_hooks me event_type_before_any_request []) (from_authentication callback allow)
          x y tt h in
      let (b, identified, known, h₂) =
        bind-ok (authenticate_request me allow) (from_hooks callback before) started y tt h₁ in
      let (before_all, asked, ran', h₃) =
        bind-ok
          (run_two_hooks_if me b event_type_before_authenticated_request
            event_type_before_authenticated_policy_checked_request before)
          (λ before_all. check_policy me callback >> pass_on me b before_all) identified y tt h₂ in
      let (unit, answered, checks, passes) =
        bind-ok (check_policy me callback) (λ _. pass_on me b before_all) asked y tt h₃ in
      (
        b,
        before,
        before_all,
        started,
        identified,
        asked,
        answered,
        ran,
        authenticate_request-IsAuthenticated allow b started identified known,
        ran',
        check_policy-IsAllowed callback asked answered checks,
        passes,
      )
