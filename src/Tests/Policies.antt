-- ===== src/Tests/Policies.antt =====
-- Examples of the policy: its validation, its store, its checker and its hooks.
use mathlib.Core.List.{Nodup}
use matrix_corporal.Base.{
  pos, ◌≡◌, refl, inl, [], ◌∷◌, text_eq, ok, All, lookup, insert, has_suffix, has_prefix,
}
use matrix_corporal.Util.{is_string_in_array}
use matrix_corporal.UserAuth.{is_known_user_auth_type}
use matrix_corporal.Matrix.{is_full_user_id_of_domain}
use matrix_corporal.Hook.{
  fields, validate_hook, hook_matches_request, validate_match_rules, validate_match_rule,
  ensure_initialized, is_before_hook,
}
use matrix_corporal.Hook.Matching.{accepts_all, validate_hook-hook_matches_request}
use matrix_corporal.Policy.{Policy, get_managed_user_ids}
use matrix_corporal.Policy.Validator.{
  validate, validate_domains, validate_users, validate_user_policy, validate_hooks,
}
use matrix_corporal.Policy.Validator.Soundness.{
  IsOfDomain, IsValidUser, hook_ids, Validated, Answers, validate-eq-ok, validate-Answers,
}
use matrix_corporal.Policy.Store.{
  Store, new_store, set, get_notification_channel, starts, steps, subscribes, sets,
}
use matrix_corporal.Policy.Store.Safety.{IsSound, Reachable-IsSound}
use matrix_corporal.Tests.Samples.{
  policy, domain, first_hook, compiled_hook, compile_error, match_string, request,
}

abbrev accepted : Policy
accepted = record policy { hooks = compiled_hook ∷ [] }

policy_is_accepted : validate compile_error domain policy ≡ ok accepted
unfolding validate validate_domains validate_users validate_user_policy validate_hooks validate_hook
    validate_match_rules validate_match_rule ensure_initialized is_before_hook get_managed_user_ids
    is_full_user_id_of_domain is_known_user_auth_type is_string_in_array has_suffix has_prefix
    text_eq lookup insert
policy_is_accepted = refl

validate-eq-ok_example :
    (policy.schema_version ≡ pos 2)
    × All (IsOfDomain domain) (get_managed_user_ids policy)
    × All IsValidUser policy.user
    × Nodup (hook_ids policy.hooks)
    × Validated compile_error policy.hooks accepted.hooks
    × (accepted ≡ record policy { hooks = accepted.hooks })
validate-eq-ok_example = validate-eq-ok compile_error domain policy accepted policy_is_accepted

validate-Answers_example : All (Answers compile_error match_string request) accepted.hooks
validate-Answers_example =
    validate-Answers compile_error match_string domain policy accepted request ((inl refl, tt), tt)
      policy_is_accepted

validate_hook-hook_matches_request_example :
    hook_matches_request compile_error match_string (fields compiled_hook) request
    ≡ ok (
      (fields compiled_hook).match_rules,
      accepts_all match_string (fields compiled_hook).match_rules request,
    )
unfolding validate_hook validate_match_rules validate_match_rule ensure_initialized is_before_hook
    is_string_in_array has_prefix text_eq
validate_hook-hook_matches_request_example =
    validate_hook-hook_matches_request compile_error match_string first_hook compiled_hook request
      (inl refl, tt) refl

abbrev subscribed : Store
subscribed = (get_notification_channel new_store).1

Reachable-IsSound_example :
    IsSound compile_error domain (set compile_error domain policy subscribed).1
Reachable-IsSound_example =
    Reachable-IsSound compile_error domain
      (steps (steps starts (subscribes new_store refl)) (sets subscribed policy))
