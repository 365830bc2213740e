-- ===== src/Policy/Providers.antt =====
-- corporal/policy/provider: the loads of the three providers, each of which is one step under its
-- lock.
pub mod Loading
pub mod Caching
use matrix_corporal.Base.{
  Bool, true, false, not, Option, none, some, List, ◌++◌, ℤ, pos, int_eq, Text, text, Result, ok,
  err, if◌then◌else◌,
}
use mathlib.Core.Option
use matrix_corporal.Policy.{Policy}
use matrix_corporal.Policy.Validator.{ValidationError}
use matrix_corporal.Policy.Store.{Store, set}

-- A response to a GET request, with the outcome of reading its body.
pub record FetchedPolicy : Type 0 where
  pub status_code : ℤ
  pub body : Result Text Text

-- Files, package `net/http` and package `encoding/json`. `W` is the world.
pub record Files (W : Type 0) : Type 0 where
  pub open_file : (path : Text) → W → Result Text (Unit {0}) × W
  pub is_not_exist : (error : Text) → Bool
  pub read_all : (path : Text) → W → Result Text Text × W
  pub create_file : (path : Text) → W → Option Text × W
  pub write_file : (path content : Text) → W → Option Text × W
  pub fetch : (uri authorization : Text) → W → Result Text FetchedPolicy × W
  pub decimal : ℤ → Text
  pub unmarshal_policy : Text → Result Text Policy
  pub marshal_policy : Policy → Result Text Text

pub data LoadError : Type 0 where
  io_error : (message : Text) → LoadError
  policy_load_error : (message : Text) → LoadError
  policy_set_error : ValidationError → LoadError

pub record Provided (W : Type 0) : Type 0 where
  pub world : W
  pub store : Store

-- The providers' parameters: the world, the store's validation, and the configuration's values.
module _ {W : Type 0} (me : Files W) (compile_error : Text → Option Text)
    (homeserver_domain_name : Text) where
  -- `me.store.Set(policy)`
  unfoldable pub set_policy : Policy → Provided W → Option LoadError × Provided W
  set_policy policy x =
      let (failure, store) = set compile_error homeserver_domain_name policy x.store in
      (Option.map policy_set_error failure, record x { store = store })

  -- `os.Open` and `io.ReadAll`. The first error is the one of `os.Open`.
  unfoldable pub read_file : (path : Text) → W → Result Text (Result Text Text) × W
  read_file path w =
      let (opened, w') = me.open_file path w in
      elim opened [
        | err e ↦ (err e, w')
        | ok file ↦ let (content, w'') = me.read_all path w' in (ok content, w'')
      ]

  -- `createPolicyFromJsonBytes` and `Set`, on what was read of a file.
  unfoldable pub load_content : Result Text Text → Provided W → Option LoadError × Provided W
  load_content (err e) x = (some (io_error e), x)
  load_content (ok bytes) x = elim (me.unmarshal_policy bytes) [
    | err e ↦ (some (policy_load_error e), x)
    | ok policy ↦ set_policy policy x
  ]

  -- `load` of static_file.go
  unfoldable pub load_static_file : (path : Text) → Provided W → Option LoadError × Provided W
  load_static_file path x =
      let (file, w) = read_file path x.world in
      elim file [
        | err e ↦ (some (io_error e), record x { world = w })
        | ok content ↦ load_content content (record x { world = w })
      ]

  -- `load` of last_seen_store_policy.go: no file is no error.
  unfoldable pub load_last_seen : (path : Text) → Provided W → Option LoadError × Provided W
  load_last_seen path x =
      let (file, w) = read_file path x.world in
      elim file [
        | err e ↦
            if me.is_not_exist e
            then (none, record x { world = w })
            else (some (io_error e), record x { world = w })
        | ok content ↦ load_content content (record x { world = w })
      ]

  -- `storePolicyInCache`, the same for the two providers that have it.
  unfoldable pub store_policy_in_cache : (path : Text) → Policy → W → Option Text × W
  store_policy_in_cache path policy w = elim (me.marshal_policy policy) [
    | err e ↦ (some e, w)
    | ok bytes ↦
        let (failure, w') = me.create_file path w in
        elim failure [ some e ↦ (some e, w') | none ↦ me.write_file path bytes w' ]
  ]

  -- The HTTP provider's URI, its token, and the path of its cache.
  module _ (uri authorization_bearer_token : Text) (cache_path : Option Text) where
    unfoldable pub policy_of_response : Result Text FetchedPolicy → Result Text Policy
    policy_of_response (err e) = err e
    policy_of_response (ok response) =
        if not (int_eq response.status_code (pos 200))
        then err (text "non-200 response fetching from URL: " ++ me.decimal response.status_code)
        else elim response.body [
          | err e ↦ err (text "failed reading HTTP response body: " ++ e)
          | ok bytes ↦ me.unmarshal_policy bytes
        ]

    unfoldable pub load_policy_from_remote : W → Result Text Policy × W
    load_policy_from_remote w =
        let (response, w') = me.fetch uri (text "Bearer " ++ authorization_bearer_token) w in
        (policy_of_response response, w')

    abbrev pub policy_of_file : Result Text (Result Text Text) → Result Text Policy
    policy_of_file (err e) = err e
    policy_of_file (ok (err e)) = err e
    policy_of_file (ok (ok bytes)) = me.unmarshal_policy bytes

    unfoldable pub load_policy_from_cache : W → Result Text Policy × W
    load_policy_from_cache w = elim cache_path [
      | none ↦ (err (text "cache disabled"), w)
      | some path ↦ let (file, w') = read_file path w in (policy_of_file file, w')
    ]

    -- The policy with `isFromCache`.
    unfoldable pub do_load :
        (allowed_to_load_from_cache : Bool) → W → Result Text (Policy × Bool) × W
    do_load allowed_to_load_from_cache w =
        let (remote, w') = load_policy_from_remote w in
        elim remote [
          | ok policy ↦ (ok (policy, false), w')
          | err error_remote ↦
              if not allowed_to_load_from_cache
              then (
                err (
                    text "failed loading policy from remote ("
                    ++ error_remote
                    ++ text "), while cache-loading is not allowed"),
                w',
              )
              else let (cached, w'') = load_policy_from_cache w' in
                elim cached [
                  | ok policy ↦ (ok (policy, true), w'')
                  | err error_cache ↦ (
                    err (
                        text "failed loading policy from remote ("
                        ++ error_remote
                        ++ text ") and from cache ("
                        ++ error_cache
                        ++ text ")"),
                    w'',
                  )
                ]
        ]

    -- A policy from the remote goes to the cache before the store validates it.
    abbrev pub cache_policy : Policy → (is_from_cache : Bool) → W → W
    cache_policy policy is_from_cache w = elim is_from_cache [
      | true ↦ w
      | false ↦ elim cache_path [ none ↦ w | some path ↦ (store_policy_in_cache path policy w).1 ]
    ]

    -- What `load` does with the result of `doLoad`.
    abbrev pub loaded_http : Result Text (Policy × Bool) × W → Store → Option LoadError × Provided W
    loaded_http (err e, w) store = (some (io_error e), record { world = w; store = store })
    loaded_http (ok (policy, is_from_cache), w) store =
        set_policy policy (record { world = cache_policy policy is_from_cache w; store = store })

    -- `load` of http.go: with the cache in `Start`, and without it in `Reload`.
    unfoldable pub load_http :
        (allowed_to_load_from_cache : Bool) → Provided W → Option LoadError × Provided W
    load_http allowed_to_load_from_cache x =
        loaded_http (do_load allowed_to_load_from_cache x.world) x.store
