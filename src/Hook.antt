-- ===== src/Hook.antt =====
-- corporal/hook: the hook of hook.go with its match rules (hook_match.go), event types
-- (event_types.go) and actions (actions.go), and their validation.
mod Data
mod Names
mod Validate
mod Match
pub mod Matching
pub mod Execution
pub mod Consulting
pub mod Actions
pub mod Executor
pub use Data.*
pub use Names.*
unfoldable pub use Validate.{
  ensure_initialized, validate_match_rule, validate_match_rules, is_before_hook, is_after_hook,
  validate_hook,
}
pub use Validate.{
  RuleError, unknown_rule_type, bad_regex, HookError, no_hook_id, unknown_event_type,
  unknown_action, late_response_change, bad_match_rule,
}
unfoldable pub use Match.{
  matches_compiled, passes_tests, match_request_against_rules, rule_matches_request,
  rules_match_request, hook_matches_request,
}
