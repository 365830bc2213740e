-- ===== src/Hook/Match.antt =====
-- Matching a request against a hook's rules (corporal/hook/hook_match.go and hook.go). Package
-- `regexp` is a parameter: `match_string` is `MatchString` of the compiled form of a pattern.
use matrix_corporal.Base.{
  Bool, true, false, not, Option, none, some, List, [], ◌∷◌, Text, text_eq, Result, ok, ◌>>=◌,
  if◌then◌else◌,
}
use matrix_corporal.Http.{Request}
use matrix_corporal.Hook.Data.{HookMatchRule, HookFields}
use matrix_corporal.Hook.Names.{rule_type_http_method, rule_type_url_path, rule_type_matrix_user_id}
use matrix_corporal.Hook.Validate.{ensure_initialized}

module _ (compile_error : Text → Option Text) (match_string : Text → Text → Bool) where
  -- `me.regexCompiled.MatchString(value)`: a nil pattern matches nothing here, since
  -- `ensureInitialized` has run.
  unfoldable pub matches_compiled : HookMatchRule → Text → Bool
  matches_compiled rule value = elim rule.regex_compiled [
    | none ↦ false
    | some p ↦ match_string p value
  ]

  -- The three tests, each of which returns `false` if it fails.
  unfoldable pub passes_tests : HookMatchRule → Request → Bool
  passes_tests rule request =
      if text_eq rule.type rule_type_http_method
      then matches_compiled rule request.method
      else if text_eq rule.type rule_type_url_path
      then matches_compiled rule request.path
      else if text_eq rule.type rule_type_matrix_user_id
      then elim request.user_id [ none ↦ true | some user_id ↦ matches_compiled rule user_id ]
      else true

  unfoldable pub match_request_against_rules :
      HookMatchRule → Request → Result Text (HookMatchRule × Bool)
  match_request_against_rules rule request = do
    rule' ← ensure_initialized compile_error rule
    ok (rule', passes_tests rule' request)

  -- An `err` is the panic of the source. The rule comes back with its compiled pattern.
  unfoldable pub rule_matches_request : HookMatchRule → Request → Result Text (HookMatchRule × Bool)
  rule_matches_request rule request = do
    (rule', is_match) ← match_request_against_rules rule request
    ok (rule', if rule'.invert then not is_match else is_match)

  -- The loop of `Hook.MatchesRequest`: it returns at the first rule that does not match.
  unfoldable pub rules_match_request :
      List HookMatchRule → Request → Result Text (List HookMatchRule × Bool)
  rules_match_request [] request = ok ([], true)
  rules_match_request (rule ∷ rules) request =
      let rest = rules_match_request rules request in
      rule_matches_request rule request >>= λ (rule', is_match).
      if is_match
      then (rest >>= λ (rules', all_match). ok (rule' ∷ rules', all_match))
      else ok (rule' ∷ rules, false)

  unfoldable pub hook_matches_request :
      HookFields → Request → Result Text (List HookMatchRule × Bool)
  hook_matches_request h request = rules_match_request h.match_rules request
