-- ===== src/Policy/Validator.antt =====
-- corporal/policy/validator.go and `UserPolicy.Validate` of policy.go.
pub mod Soundness
use matrix_corporal.Base.{
  ℕ, ℤ, pos, ◌+◌, Bool, Option, none, some, List, [], ◌∷◌, Text, text_eq, int_eq, GoMap, lookup,
  insert, Result, ok, err, map_err, ◌>>=◌, ◌>>◌, if◌then◌else◌,
}
use matrix_corporal.Matrix.{is_full_user_id_of_domain}
use matrix_corporal.UserAuth.{is_known_user_auth_type}
use matrix_corporal.Hook.{Hook, HookError, fields, validate_hook}
use matrix_corporal.Policy.{UserPolicy, Policy, get_managed_user_ids}

pub data UserError : Type 0 where
  no_user_id : UserError
  invalid_auth_type : Text → UserError

pub data ValidationError : Type 0 where
  unsupported_schema : ℤ → ValidationError
  foreign_user : (user_id domain : Text) → ValidationError
  invalid_user : (id : Text) (idx : ℕ) → UserError → ValidationError
  duplicate_hook_id : (idx : ℕ) (id : Text) (existing : ℕ) → ValidationError
  invalid_hook : (idx : ℕ) (id : Text) → HookError → ValidationError

unfoldable pub validate_user_policy : UserPolicy → Result UserError (Unit {0})
validate_user_policy u =
    if text_eq u.id []
    then err no_user_id
    else if is_known_user_auth_type u.auth_type
    then ok tt
    else err (invalid_auth_type u.auth_type)

-- The three loops of `Validate`.
unfoldable pub validate_domains : Text → List Text → Result ValidationError (Unit {0})
validate_domains domain [] = ok tt
validate_domains domain (user_id ∷ ids) =
    if is_full_user_id_of_domain user_id domain
    then validate_domains domain ids
    else err (foreign_user user_id domain)

unfoldable pub validate_users : ℕ → List UserPolicy → Result ValidationError (Unit {0})
validate_users idx [] = ok tt
validate_users idx (u ∷ users) = do
  map_err (invalid_user u.id idx) (validate_user_policy u)
  validate_users (idx + 1) users

module _ (compile_error : Text → Option Text) where
  -- `seen` is `hookIDToIndexMap`. The hooks come back with their compiled patterns.
  unfoldable pub validate_hooks : GoMap ℕ → ℕ → List Hook → Result ValidationError (List Hook)
  validate_hooks seen idx [] = ok []
  validate_hooks seen idx (h ∷ hooks) =
      let rest = validate_hooks (insert (fields h).id idx seen) (idx + 1) hooks in
      elim (lookup (fields h).id seen) [
        | some existing ↦ err (duplicate_hook_id idx (fields h).id existing)
        | none ↦ do
          h' ← map_err (invalid_hook idx (fields h).id) (validate_hook compile_error h)
          hooks' ← rest
          ok (h' ∷ hooks')
      ]

  unfoldable pub validate : (homeserver_domain_name : Text) → Policy → Result ValidationError Policy
  validate homeserver_domain_name policy =
      if int_eq policy.schema_version (pos 2)
      then (do
        validate_domains homeserver_domain_name (get_managed_user_ids policy)
        validate_users 0 policy.user
        hooks ← validate_hooks [] 0 policy.hooks
        ok (record policy { hooks = hooks }))
      else err (unsupported_schema policy.schema_version)
