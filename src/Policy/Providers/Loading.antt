-- ===== src/Policy/Providers/Loading.antt =====
-- What the loads of the policy providers do to the policy store (corporal/policy/provider).
use matrix_corporal.Base.{
  ◌≡◌, refl, inl, inr, ◌⊎◌, Bool, true, false, Option, none, some, Text, text, Result, ok, err,
  ◌++◌, Bool-cases, Result-cases,
}
use matrix_corporal.Policy.{Policy}
use matrix_corporal.Policy.Validator.{ValidationError, validate}
use matrix_corporal.Policy.Store.{set}
use matrix_corporal.Policy.Store.Safety.{set_cases}
use matrix_corporal.Policy.Providers.{
  Files, LoadError, policy_set_error, io_error, Provided, set_policy, load_policy_from_remote,
  load_policy_from_cache, do_load, load_http, cache_policy,
}

module _ {W : Type 0} (me : Files W) (compile_error : Text → Option Text)
    (homeserver_domain_name : Text) where
  -- What `set` leaves: an error and the store as before, or a policy that the validator made.
  abbrev pub Settles : Policy → Provided W → Option LoadError × Provided W → Type 0
  Settles policy x result =
      ((e : ValidationError) × (validate compile_error homeserver_domain_name policy ≡ err e)
        × (result ≡ (some (policy_set_error e), x)))
      ⊎ ((validated : Policy) × (validate compile_error homeserver_domain_name policy
            ≡ ok validated)
          × (result.0 ≡ none)
          × (result.1
              ≡ record x { store = (set compile_error homeserver_domain_name policy x.store).1 })
          × (result.1.store.policy ≡ some validated))

  pub set_policy-Settles :
      (policy : Policy) (x : Provided W)
      → Settles policy x (set_policy me compile_error homeserver_domain_name policy x)
  unfolding set_policy
  set_policy-Settles policy x =
      elim (set_cases compile_error homeserver_domain_name policy x.store)
        as (λ _. Settles policy x (set_policy me compile_error homeserver_domain_name policy x)) [
          | inl (e, v, same) ↦ inl (e, v, rw (same, set_policy) refl)
          | inr (validated, v, same) ↦ inr (
            validated,
            v,
            rw (same, set_policy) refl,
            rw (same, set_policy) refl,
            rw (same, set_policy) refl,
          )
        ]

  module _ (uri authorization_bearer_token : Text) (cache_path : Option Text) where
    abbrev pub remote : W → Result Text Policy × W
    remote =
        load_policy_from_remote me compile_error homeserver_domain_name uri
          authorization_bearer_token cache_path

    abbrev pub cached : W → Result Text Policy × W
    cached =
        load_policy_from_cache me compile_error homeserver_domain_name uri
          authorization_bearer_token cache_path

    -- The remote's policy, which is cached too; or the cached one, when the remote fails and the
    -- cache is allowed; or an error, with the store as before.
    abbrev pub Loads :
        (allowed_to_load_from_cache : Bool) → Provided W → Option LoadError × Provided W → Type 0
    Loads allowed_to_load_from_cache x result =
        ((policy : Policy) × ((remote x.world).0 ≡ ok policy)
          × Settles policy
              (record x {
                world =
                    cache_policy me compile_error homeserver_domain_name uri
                      authorization_bearer_token cache_path policy false (remote x.world).1;
              })
              result)
        ⊎ ((failure : Text) × ((remote x.world).0 ≡ err failure)
            × (((policy : Policy) × (allowed_to_load_from_cache ≡ true)
                  × ((cached (remote x.world).1).0 ≡ ok policy)
                  × Settles policy (record x { world = (cached (remote x.world).1).1 }) result)
                ⊎ (((message : Text) × (result.0 ≡ some (io_error message)))
                    × ((allowed_to_load_from_cache ≡ false)
                        ⊎ ((e : Text) × ((cached (remote x.world).1).0 ≡ err e)))
                    × (result.1.store ≡ x.store))))

    abbrev loads : Bool → W → Result Text (Policy × Bool) × W
    loads =
        do_load me compile_error homeserver_domain_name uri authorization_bearer_token cache_path

    -- `doLoad` returns the remote's policy, or the cached one when that failed and the cache is
    -- allowed, or an error.
    do_load_cases :
        (allowed : Bool) (w : W)
        → ((policy : Policy) × ((remote w).0 ≡ ok policy)
            × (loads allowed w ≡ (ok (policy, false), (remote w).1)))
          ⊎ ((failure : Text) × ((remote w).0 ≡ err failure)
              × (((policy : Policy) × (allowed ≡ true)
                    × ((cached (remote w).1).0 ≡ ok policy)
                    × (loads allowed w ≡ (ok (policy, true), (cached (remote w).1).1)))
                  ⊎ ((message : Text) × (w' : W) × ((allowed ≡ false)
                        ⊎ ((e : Text) × ((cached (remote w).1).0 ≡ err e)))
                      × (loads allowed w ≡ (err message, w')))))
    unfolding do_load
    do_load_cases allowed w = elim (Result-cases (remote w).0) [
      | inl (policy, r) ↦ inl (policy, r, rw (do_load, r) refl)
      | inr (failure, r) ↦ inr (
        failure,
        r,
        elim (Bool-cases allowed) [
          | inr disallowed ↦ inr (
            text "failed loading policy from remote ("
                ++ failure
                ++ text "), while cache-loading is not allowed",
            (remote w).1,
            inl disallowed,
            rw (do_load, r, disallowed) refl,
          )
          | inl allow ↦ elim (Result-cases (cached (remote w).1).0) [
            | inl (policy, c) ↦ inl (policy, allow, c, rw (do_load, r, allow, c) refl)
            | inr (e, c) ↦ inr (
              text "failed loading policy from remote ("
                  ++ failure
                  ++ text ") and from cache ("
                  ++ e
                  ++ text ")",
              (cached (remote w).1).1,
              inr (e, c),
              rw (do_load, r, allow, c) refl,
            )
          ]
        ],
      )
    ]

    -- A load of the HTTP provider hands the remote's policy to the store's `Set`, after it wrote the
    -- policy to the cache; or, when the remote fails and the cache is allowed, the policy that the
    -- cache has, without writing to the cache; or, when there is neither, it returns an error and
    -- leaves the store as it was. A policy that `Set` refuses leaves the store as it was too.
    pub load_http_lem :
        (allowed_to_load_from_cache : Bool) (x : Provided W)
        → Loads allowed_to_load_from_cache x (
            load_http me compile_error homeserver_domain_name uri authorization_bearer_token
              cache_path allowed_to_load_from_cache x)
    unfolding load_http
    load_http_lem allowed x = elim (do_load_cases allowed x.world) [
      | inl (policy, r, same) ↦ inl (policy, r, rw (load_http, same) (set_policy-Settles policy _))
      | inr (failure, r, inl (policy, allow, c, same)) ↦
          inr
            (failure, r, inl (policy, allow, c, rw (load_http, same) (set_policy-Settles policy _)))
      | inr (failure, r, inr (message, w', why, same)) ↦
          inr
            (failure, r, inr ((message, rw (load_http, same) refl), why, rw (load_http, same) refl))
    ]
