-- ===== src/Policy/Validator/Soundness.antt =====
-- What a policy is known to satisfy once corporal/policy/validator.go has accepted it.
use mathlib.Core.List.{not-mem-nil, mem-cons, Nodup-nil, Nodup-cons}
use mathlib.Core.HLevel.{⊥_prop}
use mathlib.Core.Logic.Or
use matrix_corporal.Base.{
  ◌≡◌, refl, sym, ◌≢◌, inl, inr, ℕ, pos, ◌+◌, Bool, true, Option, none, List, [], ◌∷◌, map, Mem,
  Nodup, arith, Text, text_eq_iff, int_eq, int_eq_iff, GoMap, lookup, insert, lookup-insert,
  lookup-insert_self, ok, >>=-eq-ok, ok-injective, map_err-eq-ok, All, All-map, subst, Option-cases,
  Bool-cases,
}
use matrix_corporal.Matrix.{is_full_user_id_of_domain}
use matrix_corporal.UserAuth.{is_known_user_auth_type}
use matrix_corporal.Http.{Request}
use matrix_corporal.Hook.{Hook, fields, validate_hook, hook_matches_request}
use matrix_corporal.Hook.Matching.{IsFresh, accepts_all, validate_hook-hook_matches_request}
use matrix_corporal.Policy.{UserPolicy, Policy, get_managed_user_ids}
use matrix_corporal.Policy.Validator.{
  validate_user_policy, validate_domains, validate_users, validate_hooks, validate,
}

abbrev pub hook_ids : List Hook → List Text
hook_ids hooks = map (λ h. (fields h).id) hooks

abbrev pub IsOfDomain : Text → Text → Type 0
IsOfDomain domain user_id = is_full_user_id_of_domain user_id domain ≡ true

-- What `UserPolicy.Validate` asks for.
abbrev pub IsValidUser : UserPolicy → Type 0
IsValidUser u = (u.id ≢ []) × (is_known_user_auth_type u.auth_type ≡ true)

validate_domains-All :
    (domain : Text) (ids : List Text)
    → validate_domains domain ids ≡ ok tt
    → All (IsOfDomain domain) ids
unfolding validate_domains
validate_domains-All domain [] h = tt
validate_domains-All domain (id ∷ ids) h = elim (Bool-cases (is_full_user_id_of_domain id domain)) [
  | inl e ↦ (e, validate_domains-All domain ids (rw e at h))
  | inr e ↦ absurd (ground arith)
]

validate_user_policy-IsValidUser : (u : UserPolicy) → validate_user_policy u ≡ ok tt → IsValidUser u
unfolding validate_user_policy
validate_user_policy-IsValidUser u h = ((λ e. ground (arith, text_eq_iff u.id [])), ground arith)

validate_users-All :
    (idx : ℕ) (users : List UserPolicy) → validate_users idx users ≡ ok tt → All IsValidUser users
unfolding validate_users
validate_users-All idx [] h = tt
validate_users-All idx (u ∷ users) h =
    let (done, e₁, e₂) = >>=-eq-ok _ _ h in
    (
      validate_user_policy-IsValidUser u (map_err-eq-ok _ _ e₁),
      validate_users-All (idx + 1) users e₂,
    )

not-mem_of_All : (k : Text) (xs : List Text) → All (λ x. x ≢ k) xs → ¬ Mem k xs
not-mem_of_All k [] h = not-mem-nil
not-mem_of_All k (x ∷ xs) h =
    λ m. Or.elim ⊥_prop (mem-cons.0 m) (λ e. h.0 (sym e)) (not-mem_of_All k xs h.1)

module _ (compile_error : Text → Option Text) where
  -- The hooks that come out are those that went in, each validated.
  pub data Validated : List Hook → List Hook → Type 0 where
    none_left : Validated [] []
    validated :
        {h h' : Hook} {hooks hooks' : List Hook}
        → validate_hook compile_error h ≡ ok h'
        → Validated hooks hooks'
        → Validated (h ∷ hooks) (h' ∷ hooks')

  validate_hooks-Validated :
      (seen : GoMap ℕ) (idx : ℕ) (hooks : List Hook) {hooks' : List Hook}
      → validate_hooks compile_error seen idx hooks ≡ ok hooks'
      → All (λ id. lookup id seen ≡ none) (hook_ids hooks)
        × Nodup (hook_ids hooks)
        × Validated hooks hooks'
  unfolding validate_hooks
  validate_hooks-Validated seen idx [] e =
      (tt, Nodup-nil, subst (Validated []) (ok-injective e) none_left)
  validate_hooks-Validated seen idx (h ∷ hooks) e =
      elim (Option-cases (lookup (fields h).id seen)) [
        | inr (existing, found) ↦ absurd (ground arith)
        | inl fresh ↦
            let (h₁, e₁, e₂) = >>=-eq-ok _ _ (rw (fresh, validate_hooks) at e) in
            let (rest, e₃, e₄) = >>=-eq-ok _ _ e₂ in
            let (new, distinct, valid) =
              validate_hooks-Validated (insert (fields h).id idx seen) (idx + 1) hooks e₃ in
            (
              (fresh, All-map _ _ _ (λ j n. old j n) new),
              Nodup-cons.1 (
                not-mem_of_All (fields h).id _ (All-map _ _ _ (λ j n. differs j n) new),
                distinct,
              ),
              subst (Validated (h ∷ hooks)) (ok-injective e₄)
                  (validated (map_err-eq-ok _ _ e₁) valid),
            )
      ]
    where
      old : (j : Text) → lookup j (insert (fields h).id idx seen) ≡ none → lookup j seen ≡ none
      old j n = ground (arith, lookup-insert (fields h).id j idx seen)

      differs : (j : Text) → lookup j (insert (fields h).id idx seen) ≡ none → j ≢ (fields h).id
      differs j n e = ground (arith, lookup-insert_self (fields h).id idx seen)

  -- An accepted policy has schema version 2. All its users are of the homeserver's domain, with an
  -- id and a known authentication type. The ids of its hooks are distinct, each hook was accepted by
  -- the hook validation, and nothing but the compiled patterns of its hooks is changed.
  pub validate-eq-ok :
      (domain : Text) (policy policy' : Policy)
      → validate compile_error domain policy ≡ ok policy'
      → (policy.schema_version ≡ pos 2)
        × All (IsOfDomain domain) (get_managed_user_ids policy)
        × All IsValidUser policy.user
        × Nodup (hook_ids policy.hooks)
        × Validated policy.hooks policy'.hooks
        × (policy' ≡ record policy { hooks = policy'.hooks })
  unfolding validate
  validate-eq-ok domain policy policy' h =
      elim (Bool-cases (int_eq policy.schema_version (pos 2))) [
        | inr e ↦ absurd (ground arith)
        | inl e ↦
            let (done, e₁, e₂) = >>=-eq-ok _ _ (rw e at h) in
            let (done', e₃, e₄) = >>=-eq-ok _ _ e₂ in
            let (hooks, e₅, e₆) = >>=-eq-ok _ _ e₄ in
            let (new, distinct, valid) = validate_hooks-Validated [] 0 policy.hooks e₅ in
            let same : record policy { hooks = hooks } ≡ policy' = ok-injective e₆ in
            (
              (int_eq_iff policy.schema_version (pos 2)).0 e,
              validate_domains-All domain (get_managed_user_ids policy) e₁,
              validate_users-All 0 policy.user e₃,
              distinct,
              rw (← same) valid,
              rw (← same) refl,
            )
      ]

  module _ (match_string : Text → Text → Bool) where
    -- Every hook of the list answers a request, as its rules say, without a panic.
    abbrev pub Answers : Request → Hook → Type 0
    Answers request h =
        hook_matches_request compile_error match_string (fields h) request
        ≡ ok ((fields h).match_rules, accepts_all match_string (fields h).match_rules request)

    Validated-Answers :
        (request : Request) {hooks hooks' : List Hook}
        → All (λ h. All IsFresh (fields h).match_rules) hooks
        → Validated hooks hooks'
        → All (Answers request) hooks'
    Validated-Answers request fresh none_left = tt
    Validated-Answers request fresh (validated {h} {h'} e rest) = (
      validate_hook-hook_matches_request compile_error match_string h h' request fresh.0 e,
      Validated-Answers request fresh.1 rest,
    )

    -- A policy is read with no pattern compiled. Once it is accepted, the test of any of its hooks
    -- on any request gives the answer of the hook's rules, and does not panic.
    pub validate-Answers :
        (domain : Text) (policy policy' : Policy) (request : Request)
        → All (λ h. All IsFresh (fields h).match_rules) policy.hooks
        → validate compile_error domain policy ≡ ok policy'
        → All (Answers request) policy'.hooks
    validate-Answers domain policy policy' request fresh h =
        let (_, _, _, _, valid, _) = validate-eq-ok domain policy policy' h in
        Validated-Answers request fresh valid
