-- ===== src/Hook/Matching.antt =====
-- How validated hooks are matched (corporal/hook/hook_match.go, hook.go).
use matrix_corporal.Base.{
  ◌≡◌, refl, ◌⊎◌, inl, inr, Bool, true, false, not, ◌&&◌, Option, none, some, List, [], ◌∷◌, arith,
  Text, text_eq, text_eq_iff, ok, All, if◌then◌else◌, subst, Result-cases, ◌≢◌, >>=-eq-ok,
  ok-injective, map_err-eq-ok, ℕ, ◌+◌,
}
use matrix_corporal.Util.{is_string_in_array}
use matrix_corporal.Http.{Request}
use matrix_corporal.Hook.Data.{HookMatchRule, HookFields, Hook, hook, fields, with_fields}
use matrix_corporal.Hook.Names.{
  rule_type_http_method, rule_type_url_path, rule_type_matrix_user_id, known_event_types,
  known_actions, action_pass_modified_response,
}
use matrix_corporal.Hook.Validate.{
  ensure_initialized, validate_match_rule, validate_match_rules, validate_hook, is_before_hook,
}
use matrix_corporal.Hook.Match.{
  passes_tests, match_request_against_rules, rule_matches_request, rules_match_request,
  hook_matches_request, matches_compiled,
}

-- The stored pattern, if there is one, is the rule's own.
abbrev pub IsInitialized : HookMatchRule → Type 0
IsInitialized rule = rule.regex_compiled ≡ some rule.regex

abbrev pub IsFresh : HookMatchRule → Type 0
IsFresh rule = (rule.regex_compiled ≡ none) ⊎ (rule.regex_compiled ≡ some rule.regex)

-- What a rule means: it looks at one part of the request, if that is there.
abbrev pub subject : HookMatchRule → Request → Option Text
subject rule request =
    if text_eq rule.type rule_type_http_method
    then some request.method
    else if text_eq rule.type rule_type_url_path
    then some request.path
    else if text_eq rule.type rule_type_matrix_user_id
    then request.user_id
    else none

module _ (match_string : Text → Text → Bool) where
  abbrev pub accepts : HookMatchRule → Request → Bool
  accepts rule request =
      let found : Bool = elim (subject rule request) [
        | none ↦ true
        | some t ↦ match_string rule.regex t
      ] in
      if rule.invert then not found else found

  abbrev pub accepts_all : List HookMatchRule → Request → Bool
  accepts_all [] request = true
  accepts_all (rule ∷ rules) request = accepts rule request && accepts_all rules request

module _ (compile_error : Text → Option Text) (match_string : Text → Text → Bool) where
  validate_match_rule-IsInitialized :
      (rule : HookMatchRule) {rule' : HookMatchRule}
      → IsFresh rule
      → validate_match_rule compile_error rule ≡ ok rule'
      → IsInitialized rule'
  unfolding validate_match_rule ensure_initialized
  validate_match_rule-IsInitialized rule f e = ground arith

  validate_match_rules-IsInitialized :
      (id : Text) (idx : ℕ) (rules : List HookMatchRule) {rules' : List HookMatchRule}
      → All IsFresh rules
      → validate_match_rules compile_error id idx rules ≡ ok rules'
      → All IsInitialized rules'
  unfolding validate_match_rules
  validate_match_rules-IsInitialized id idx [] {rules'} f e =
      subst (All IsInitialized) (ok-injective e) tt
  validate_match_rules-IsInitialized id idx (rule ∷ rules) {rules'} f e =
      let (rule₁, e₁, e₂) = >>=-eq-ok _ _ e in
      let (rest, e₃, e₄) = >>=-eq-ok _ _ e₂ in
      subst (All IsInitialized) {x = rule₁ ∷ rest} (ok-injective e₄) (
        validate_match_rule-IsInitialized rule f.0 (map_err-eq-ok _ _ e₁),
        validate_match_rules-IsInitialized id (idx + 1) rules f.1 e₃,
      )

  rule_matches-accepts :
      (rule : HookMatchRule) (request : Request)
      → IsInitialized rule
      → rule_matches_request compile_error match_string rule request
        ≡ ok (rule, accepts match_string rule request)
  unfolding rule_matches_request match_request_against_rules ensure_initialized passes_tests
      matches_compiled
  rule_matches-accepts rule request h = ground arith

  rules_match-accepts_all :
      (rules : List HookMatchRule) (request : Request)
      → All IsInitialized rules
      → rules_match_request compile_error match_string rules request
        ≡ ok (rules, accepts_all match_string rules request)
  unfolding rules_match_request
  rules_match-accepts_all [] request h = refl
  rules_match-accepts_all (rule ∷ rules) request h =
      ground
        (arith, rule_matches-accepts rule request h.0, rules_match-accepts_all rules request h.1)

  -- What the tests before the rules ask for.
  abbrev HeadIsValid : HookFields → Type 0
  HeadIsValid f =
      (f.id ≢ [])
      × (is_string_in_array f.event_type known_event_types ≡ true)
      × (is_string_in_array f.action known_actions ≡ true)
      × ((is_before_hook f && text_eq f.action action_pass_modified_response) ≡ false)

  pub validate_hook-eq-ok :
      (h h' : Hook)
      → validate_hook compile_error h ≡ ok h'
      → (rules : List HookMatchRule) × (validate_match_rules compile_error
            (fields h).id
            0
            (fields h).match_rules
          ≡ ok rules)
        × (h' ≡ with_fields h (record (fields h) { match_rules = rules }))
        × HeadIsValid (fields h)
  unfolding validate_hook
  validate_hook-eq-ok (hook f a c) h' e =
      elim (Result-cases (validate_match_rules compile_error f.id 0 f.match_rules)) [
        | inl (rules, found) ↦ (rules, found, ground arith, ground (arith, text_eq_iff f.id []))
        | inr (wrong, found) ↦ absurd (ground arith)
      ]

  validate_hook-IsInitialized :
      (h h' : Hook)
      → All IsFresh (fields h).match_rules
      → validate_hook compile_error h ≡ ok h'
      → All IsInitialized (fields h').match_rules
  validate_hook-IsInitialized (hook f a c) h' fresh e =
      let (rules, found, same, head) = validate_hook-eq-ok (hook f a c) h' e in
      rw same (validate_match_rules-IsInitialized f.id 0 f.match_rules fresh found)

  -- A hook as it is read from a policy (no pattern compiled yet), once validated, never panics when
  -- it is matched, and it matches exactly the requests that all of its rules accept: a rule accepts
  -- by its pattern on the method, the path or the user id, a missing user id is accepted, and
  -- `invert` negates the answer. Matching changes no rule.
  pub validate_hook-hook_matches_request :
      (h h' : Hook) (request : Request)
      → All IsFresh (fields h).match_rules
      → validate_hook compile_error h ≡ ok h'
      → hook_matches_request compile_error match_string (fields h') request
        ≡ ok ((fields h').match_rules, accepts_all match_string (fields h').match_rules request)
  unfolding hook_matches_request
  validate_hook-hook_matches_request h h' request fresh e =
      rules_match-accepts_all _ request (validate_hook-IsInitialized h h' fresh e)
