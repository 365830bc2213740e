-- ===== src/Gateway/Handlers/Replies.antt =====
-- The responses that the handlers of corporal/httpgateway/handler give.
use matrix_corporal.Base.{
  ℕ, refl, Bool, true, false, not, Option, none, some, List, [], ◌∷◌, ◌++◌, Text, text, text_eq,
  Result, ok, err, if◌then◌else◌, subst,
}
use matrix_corporal.Http.{Request}
use matrix_corporal.Hook.Execution.{Halt, ExecutionResult}
use matrix_corporal.Policy.{Policy}
use matrix_corporal.Gateway.Policycheck.{Check}
use matrix_corporal.Gateway.Interceptor.{InterceptorResponse, proxy, deny}
use matrix_corporal.Gateway.HookRunner.{
  Reply, matrix_error, proxied, options, Exchange, Surroundings, run_all_matching_type,
}
use matrix_corporal.Gateway.Handlers.{
  Stop, returned, halted, H, pass_on, ◌>>=◌, ◌>>◌, intercept_with, pure, reject, serve, resolve,
  resolved, recognized, the_policy, checked, check_with, intercepted, run_hooks,
  authenticate_request, check_policy, run_two_hooks_if, policy_checking_handler, run_all_hooks,
  login_handler, recognize_user, action_catch_all, get_access_token_from_request,
}
use matrix_corporal.Gateway.HookRunner.Sends.{Sends, IsExecutor, Ran, run_all_matching_type-Ran}

module _ {S Modifier : Type 0} where
  module _ (me : Surroundings S Modifier) (laws : IsExecutor me) where
    -- What a part of a handler leaves: if it goes on, `sent` replies, and one if it has returned.
    abbrev pub Leaves :
        {A : Type 0}
        → (sent : Bool) → Result Stop A × Exchange S Modifier
        → List (Reply Modifier)
        → Type 0
    Leaves sent (ok a, y) before = Sends sent before y.replies
    Leaves sent (err returned, y) before = Sends true before y.replies
    Leaves sent (err (halted halt), y) before = Unit

    abbrev pub Replies : {A : Type 0} → Bool → H S Modifier A → Type 0
    Replies sent m = (x : Exchange S Modifier) → Leaves sent (m x) x.replies

    then_case :
        {A B : Type 0} (sent : Bool) (f : A → H S Modifier B)
        → ((a : A) → Replies sent (f a))
        → (done : Result Stop A × Exchange S Modifier) (before : List (Reply Modifier))
        → Leaves {A = A} false done before
        → Leaves {A = B} sent
            (elim done.0 [ ok a ↦ f a done.1 | err stop ↦ (err stop, done.1) ])
            before
    then_case sent f rest (ok a, y) before h = subst (Leaves sent (f a y)) h (rest a y)
    then_case sent f rest (err returned, y) before h = h
    then_case sent f rest (err (halted halt), y) before h = h

    >>=-Replies :
        {A B : Type 0} (sent : Bool) (m : H S Modifier A) (f : A → H S Modifier B)
        → Replies false m
        → ((a : A) → Replies sent (f a))
        → Replies sent (m >>= f)
    >>=-Replies sent m f first rest = λ x. then_case sent f rest (m x) x.replies (first x)

    pure-Replies : {A : Type 0} (a : A) → Replies false (pure a)
    pure-Replies a = λ x. refl

    reject-Replies :
        (A : Type 0) (sent : Bool) (status : ℕ) (error_code error_message : Text)
        → Replies {A = A} sent (reject status error_code error_message)
    reject-Replies A sent status error_code error_message =
        λ x. (matrix_error status error_code error_message, refl)

    ite-Replies :
        {A : Type 0} (sent b : Bool) (m n : H S Modifier A)
        → Replies sent m
        → Replies sent n
        → Replies sent (if b then m else n)
    ite-Replies sent true m n hm hn = hm
    ite-Replies sent false m n hm hn = hn

    sent_case :
        {A : Type 0} (b : Bool) (a : A) (y : Exchange S Modifier) (before : List (Reply Modifier))
        → Sends b before y.replies
        → Leaves {A = A} false (if b then (err returned, y) else (ok a, y)) before
    sent_case true a y before h = h
    sent_case false a y before h = h

    hooks_case :
        (modifiers : List Modifier) (x : Exchange S Modifier)
        (run : Result Halt (ExecutionResult Modifier × Exchange S Modifier))
        → Ran run x.replies
        → Leaves {A = List Modifier} false
            (elim run [
              | err halt ↦ (err (halted halt), x)
              | ok done ↦
                  if done.0.response_sent
                  then (err returned, done.1)
                  else (ok (modifiers ++ done.0.reverse_proxy_response_modifiers), done.1)
            ])
            x.replies
    hooks_case modifiers x (err halt) h = tt
    hooks_case modifiers x (ok (result, y)) h =
        sent_case result.response_sent (modifiers ++ result.reverse_proxy_response_modifiers) y
          x.replies h

    run_hooks-Replies :
        (event_type : Text) (modifiers : List Modifier)
        → Replies false (run_hooks me event_type modifiers)
    unfolding run_hooks
    run_hooks-Replies event_type modifiers = λ x.
        hooks_case modifiers x (run_all_matching_type me event_type x)
          (run_all_matching_type-Ran me laws event_type x)

    resolved-Replies :
        (token : Text) (found : Result Text Text) → Replies false (resolved me token found)
    resolved-Replies token (err e) = reject-Replies Bool false _ _ _
    resolved-Replies token (ok user_id) = λ x. refl

    authenticate_request-Replies :
        (allowed : Bool) → Replies false (authenticate_request me allowed)
    unfolding authenticate_request
    authenticate_request-Replies allowed = λ x.
        ite-Replies false (text_eq (get_access_token_from_request x.request) []) _ _
          (ite-Replies false allowed _ _ (pure-Replies false) (reject-Replies Bool false _ _ _))
          (>>=-Replies false (resolve me (get_access_token_from_request x.request)) _ (λ y. refl)
            (resolved-Replies (get_access_token_from_request x.request)))
          x

    checked-Replies : (check : Check) → Replies false (checked me check)
    checked-Replies (err p) = λ x. tt
    checked-Replies (ok response) =
        ite-Replies false (not response.allow) _ _ (reject-Replies (Unit {0}) false _ _ _)
          (pure-Replies tt)

    check_with-Replies :
        (policy : Option Policy) (callback : Request → Policy → Check) (r : Request)
        → Replies false (check_with me policy callback r)
    check_with-Replies none callback r = reject-Replies (Unit {0}) false _ _ _
    check_with-Replies (some policy) callback r = checked-Replies (callback r policy)

    run_two_hooks_if-Replies :
        (b : Bool) (first second : Text) (modifiers : List Modifier)
        → Replies false (run_two_hooks_if me b first second modifiers)
    unfolding run_two_hooks_if
    run_two_hooks_if-Replies false first second modifiers = pure-Replies modifiers
    run_two_hooks_if-Replies true first second modifiers =
        >>=-Replies false _ _ (run_hooks-Replies first modifiers) (run_hooks-Replies second)

    run_all_hooks-Replies :
        (event_types : List Text) (modifiers : List Modifier)
        → Replies false (run_all_hooks me event_types modifiers)
    unfolding run_all_hooks
    run_all_hooks-Replies [] modifiers = pure-Replies modifiers
    run_all_hooks-Replies (event_type ∷ event_types) modifiers =
        >>=-Replies false _ _ (run_hooks-Replies event_type modifiers)
          (run_all_hooks-Replies event_types)

    recognized-Replies :
        (token : Text) (found : Result Text Text) → Replies false (recognized me token found)
    recognized-Replies token (err e) = pure-Replies false
    recognized-Replies token (ok user_id) = λ x. refl

    recognize_user-Replies : Replies false (recognize_user me)
    unfolding recognize_user
    recognize_user-Replies = λ x.
        ite-Replies false (not (text_eq (get_access_token_from_request x.request) [])) _ _
          (>>=-Replies false (resolve me (get_access_token_from_request x.request)) _ (λ y. refl)
            (recognized-Replies (get_access_token_from_request x.request)))
          (pure-Replies false) x

    serve-Replies : (modifiers : List Modifier) → Replies true (serve modifiers)
    serve-Replies modifiers = λ x. (proxied x.request modifiers, refl)

    intercepted-Replies :
        (response : InterceptorResponse) → Replies false (intercepted me tt response)
    intercepted-Replies proxy = pure-Replies tt
    intercepted-Replies (deny code message) = reject-Replies (Unit {0}) false _ _ _

    pass_on-Replies : (b : Bool) (modifiers : List Modifier) → Replies true (pass_on me b modifiers)
    unfolding pass_on
    pass_on-Replies b modifiers =
        >>=-Replies true _ _ (run_hooks-Replies _ modifiers)
          (λ after. >>=-Replies true _ serve (run_two_hooks_if-Replies b _ _ after) serve-Replies)

    policy_checking_handler-Replies :
        (callback : Request → Policy → Check) (allow_unauthenticated : Bool)
        → Replies true (policy_checking_handler me callback allow_unauthenticated)
    unfolding policy_checking_handler check_policy
    policy_checking_handler-Replies callback allow_unauthenticated =
        >>=-Replies true _ _ (run_hooks-Replies _ []) (λ before.
          >>=-Replies true _ _ (authenticate_request-Replies allow_unauthenticated) (λ b.
            >>=-Replies true _ _ (run_two_hooks_if-Replies b _ _ before) (λ before_all.
              >>=-Replies true (check_policy me callback) _
                (>>=-Replies false (the_policy me) _ (λ x. refl)
                  (λ policy x. check_with-Replies policy callback x.request x))
                (λ _. pass_on-Replies b before_all))))

    login_handler-Replies :
        (intercept : Request → S → (InterceptorResponse × Request) × S)
        → Replies true (login_handler me intercept)
    unfolding login_handler
    login_handler-Replies intercept =
        >>=-Replies true _ _ (run_all_hooks-Replies _ []) (λ modifiers.
          >>=-Replies true (intercept_with me intercept)
            (λ response. intercepted me tt response >> serve modifiers) (λ x. refl)
            (λ response.
              >>=-Replies true (intercepted me tt response) (λ _. serve modifiers)
                (intercepted-Replies response) (λ _. serve-Replies modifiers)))

    action_catch_all-Replies : Replies true (action_catch_all me)
    unfolding action_catch_all
    action_catch_all-Replies = λ x.
        ite-Replies true (text_eq x.request.method (text "OPTIONS")) _ _ (λ y. (options, refl))
          (>>=-Replies true _ _ recognize_user-Replies
            (λ b. >>=-Replies true _ serve (run_all_hooks-Replies _ []) serve-Replies))
          x

    -- With an executor that keeps its promises, the handler of a policy-checked route, the login
    -- handler and the catch-all handler each give exactly one response to a request, unless they panic
    -- or the executor's fuel runs out. The request that is passed on to the homeserver counts as the
    -- response.
    pub handlers_reply_once :
        (callback : Request → Policy → Check) (allow_unauthenticated : Bool)
        (intercept : Request → S → (InterceptorResponse × Request) × S) (x : Exchange S Modifier)
        → Leaves true (policy_checking_handler me callback allow_unauthenticated x) x.replies
          × Leaves true (login_handler me intercept x) x.replies
          × Leaves true (action_catch_all me x) x.replies
    handlers_reply_once callback allow_unauthenticated intercept x = (
      policy_checking_handler-Replies callback allow_unauthenticated x,
      login_handler-Replies intercept x,
      action_catch_all-Replies x,
    )
