-- ===== src/Hook/Validate.antt =====
-- Validation of hooks (corporal/hook/hook.go) and of match rules (hook_match.go). Package `regexp`
-- is a parameter: `compile_error` is the error of `regexp.Compile`, if there is one.
use matrix_corporal.Base.{
  ℕ, ◌+◌, Bool, ◌&&◌, Option, none, some, List, [], ◌∷◌, Text, text, text_eq, has_prefix, Result,
  ok, err, map_err, ◌>>=◌, if◌then◌else◌,
}
use matrix_corporal.Util.{is_string_in_array}
use matrix_corporal.Hook.Data.{HookMatchRule, HookFields, Hook, fields, with_fields}
use matrix_corporal.Hook.Names.{
  known_event_types, known_actions, known_hook_match_rule_types, action_pass_modified_response,
}

pub data RuleError : Type 0 where
  unknown_rule_type : (type : Text) → RuleError
  bad_regex : (type message : Text) → RuleError

pub data HookError : Type 0 where
  no_hook_id : HookError
  unknown_event_type : (event_type id : Text) → HookError
  unknown_action : (action id : Text) → HookError
  late_response_change : (action event_type id : Text) → HookError
  bad_match_rule : (id : Text) (idx : ℕ) → RuleError → HookError

unfoldable pub is_before_hook : HookFields → Bool
is_before_hook h = has_prefix h.event_type (text "before")

unfoldable pub is_after_hook : HookFields → Bool
is_after_hook h = has_prefix h.event_type (text "after")

module _ (compile_error : Text → Option Text) where
  -- The rule with its compiled pattern stored, or the error of the compilation.
  unfoldable pub ensure_initialized : HookMatchRule → Result Text HookMatchRule
  ensure_initialized rule = elim rule.regex_compiled [
    | none ↦ elim (compile_error rule.regex) [
      | none ↦ ok (record rule { regex_compiled = some rule.regex })
      | some message ↦ err message
    ]
    | some p ↦ ok rule
  ]

  unfoldable pub validate_match_rule : HookMatchRule → Result RuleError HookMatchRule
  validate_match_rule rule =
      if is_string_in_array rule.type known_hook_match_rule_types
      then map_err (bad_regex rule.type) (ensure_initialized rule)
      else err (unknown_rule_type rule.type)

  -- The loop over the rules from index `idx` on. A rule is a pointer, so the compiled patterns stay.
  unfoldable pub validate_match_rules :
      (id : Text) (idx : ℕ) → List HookMatchRule → Result HookError (List HookMatchRule)
  validate_match_rules id idx [] = ok []
  validate_match_rules id idx (rule ∷ rules) = do
    rule' ← map_err (bad_match_rule id idx) (validate_match_rule rule)
    rules' ← validate_match_rules id (idx + 1) rules
    ok (rule' ∷ rules')

  unfoldable pub validate_hook : Hook → Result HookError Hook
  validate_hook h =
      let f = fields h in
      if text_eq f.id []
      then err no_hook_id
      else if is_string_in_array f.event_type known_event_types
      then if is_string_in_array f.action known_actions
        then if is_before_hook f && text_eq f.action action_pass_modified_response
          then err (late_response_change f.action f.event_type f.id)
          else (do
            rules ← validate_match_rules f.id 0 f.match_rules
            ok (with_fields h (record f { match_rules = rules })))
        else err (unknown_action f.action f.id)
      else err (unknown_event_type f.event_type f.id)
