-- ===== src/Policy/Providers/Caching.antt =====
-- The cache of the HTTP policy provider from one run to the next (corporal/policy/provider/http.go).
use matrix_corporal.Base.{
  ◌≡◌, refl, sym, ◌∙◌, inl, inr, Bool, true, Option, none, some, Text, Result, ok, err,
  ok-injective, Option-cases,
}
use matrix_corporal.Policy.{Policy}
use matrix_corporal.Policy.Store.{Store}
use matrix_corporal.Policy.Providers.{
  Files, LoadError, Provided, read_file, store_policy_in_cache, load_policy_from_remote,
  load_policy_from_cache, load_http,
}
use matrix_corporal.Policy.Providers.Loading.{Settles, Loads, remote, cached, load_http_lem}

module _ {W : Type 0} (me : Files W) (compile_error : Text → Option Text)
    (homeserver_domain_name : Text) where
  -- What was written to a created file is read of it, and a request does not change files.
  abbrev pub KeepsFiles : Type 0
  KeepsFiles =
      ((path content : Text) (w : W)
        → (me.create_file path w).0 ≡ none
        → (me.write_file path content (me.create_file path w).1).0 ≡ none
        → (read_file me compile_error homeserver_domain_name path
            (me.write_file path content (me.create_file path w).1).1).0
          ≡ ok (ok content))
      × ((path uri authorization : Text) (w : W)
          → (read_file me compile_error homeserver_domain_name path
              (me.fetch uri authorization w).1).0
            ≡ (read_file me compile_error homeserver_domain_name path w).0)

  module _ (keeps : KeepsFiles) (policy : Policy) (bytes : Text)
      (marshalled : me.marshal_policy policy ≡ ok bytes)
      (unmarshalled : me.unmarshal_policy bytes ≡ ok policy) where
    module _ (path : Text) where
      abbrev stores : W → Option Text × W
      stores = store_policy_in_cache me compile_error homeserver_domain_name path policy

      abbrev reads : W → Result Text (Result Text Text) × W
      reads = read_file me compile_error homeserver_domain_name path

      -- When the file was created, what is left is the write.
      after_create :
          (w : W)
          → (me.create_file path w).0 ≡ none
          → stores w ≡ me.write_file path bytes (me.create_file path w).1
      unfolding store_policy_in_cache
      after_create w created = rw (store_policy_in_cache, marshalled, created) refl

      without_create :
          (w : W) (e : Text) → (me.create_file path w).0 ≡ some e → (stores w).0 ≡ some e
      unfolding store_policy_in_cache
      without_create w e failed = rw (store_policy_in_cache, marshalled, failed) refl

      stored_is_read : (w : W) → (stores w).0 ≡ none → (reads (stores w).1).0 ≡ ok (ok bytes)
      stored_is_read w stored = elim (Option-cases (me.create_file path w).0) [
        | inl created ↦
            let same = after_create w created in
            rw same (keeps.0 path bytes w created (rw same at stored))
        | inr (e, failed) ↦ let other = without_create w e failed in cc
      ]

      module _ (uri authorization_bearer_token : Text) where
        abbrev fetches : W → Result Text Policy × W
        fetches =
            remote me compile_error homeserver_domain_name uri authorization_bearer_token
              (some path)

        abbrev caches : W → Result Text Policy × W
        caches =
            cached me compile_error homeserver_domain_name uri authorization_bearer_token
              (some path)

        abbrev loads : Bool → Provided W → Option LoadError × Provided W
        loads =
            load_http me compile_error homeserver_domain_name uri authorization_bearer_token
              (some path)

        -- What was stored is what the cache has, also after another request.
        stored_is_cached :
            (w : W) → (stores w).0 ≡ none → (caches (fetches (stores w).1).1).0 ≡ ok policy
        unfolding load_policy_from_cache load_policy_from_remote
        stored_is_cached w stored =
            rw
              (
                load_policy_from_cache,
                load_policy_from_remote,
                keeps.1 path uri _ (stores w).1,
                stored_is_read w stored,
              )
              unmarshalled

        load_ends :
            (allowed : Bool) (x : Provided W)
            → Loads me compile_error homeserver_domain_name uri authorization_bearer_token
                (some path)
                allowed
                x
                (loads allowed x)
        load_ends =
            load_http_lem me compile_error homeserver_domain_name uri authorization_bearer_token
              (some path)

        world_after_set :
            (found : Policy) (x : Provided W) (result : Option LoadError × Provided W)
            → Settles me compile_error homeserver_domain_name found x result
            → result.1.world ≡ x.world
        world_after_set found x result (inl (e, v, same)) = rw same refl
        world_after_set found x result (inr (validated, v, ended, same, held)) = rw same refl

        world_after_load :
            (allowed : Bool) (x : Provided W)
            → (fetches x.world).0 ≡ ok policy
            → (loads allowed x).1.world ≡ (stores (fetches x.world).1).1
        world_after_load allowed x r = elim (load_ends allowed x) [
          | inl (found, r', settles) ↦
              let same = ok-injective (sym r ∙ r') in
              rw (world_after_set found _ _ settles, same) refl
          | inr (failure, r', rest) ↦ cc
        ]

        -- Suppose that what is written to a created file is read of it, that requests change no
        -- files, and that the policy is what its JSON decodes to. When one load fetched the policy
        -- and had no error in writing it to the cache, and the request of the next load fails, then
        -- that load, with the cache allowed, hands the same policy to `Set`, for whatever store the
        -- new run has.
        pub load_http-load_http :
            (allowed : Bool) (x : Provided W) (store : Store) (failure : Text)
            → (fetches x.world).0 ≡ ok policy
            → (stores (fetches x.world).1).0 ≡ none
            → (fetches (loads allowed x).1.world).0 ≡ err failure
            → let restarted : Provided W = record {
              world = (loads allowed x).1.world;
              store = store;
            } in
              Settles me compile_error homeserver_domain_name policy
                (record restarted { world = (caches (fetches restarted.world).1).1 })
                (loads true restarted)
        load_http-load_http allowed x store failure fetched stored failed =
            let kept : (caches (fetches (loads allowed x).1.world).1).0 ≡ ok policy =
              rw (world_after_load allowed x fetched)
                (stored_is_cached (fetches x.world).1 stored) in
            elim (load_ends true (record { world = (loads allowed x).1.world; store = store })) [
              | inl (other, r, settles) ↦ cc
              | inr (e, r, inl (other, allow, c, settles)) ↦
                  rw (ok-injective (sym kept ∙ c)) settles
              | inr (e, r, inr (ended, inl disallowed, same)) ↦ cc
              | inr (e, r, inr (ended, inr (wrong, c), same)) ↦ cc
            ]
