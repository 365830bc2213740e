-- ===== src/Matrix/Mapping.antt =====
-- corporal/matrix/mapping.go: the resolving of access tokens, with its cache.
pub mod Known
use matrix_corporal.Base.{
  ℕ, ◌+◌, ◌≡◌, Bool, true, false, Option, none, some, List, [], ◌∷◌, ◌++◌, Text, text, text_eq,
  Result, ok, err, ltb, if◌then◌else◌,
}
use matrix_corporal.Matrix.{is_error_with_code, error_unknown_token}
use Prim.Native.Nat.{◌/◌}

abbrev pub user_id_unknown_token : Text
user_id_unknown_token = text "."

pub record AccessTokenResolvingResult : Type 0 where
  pub matrix_user_id : Text
  pub expires_at_timestamp : ℕ

-- The LRU cache. A look-up moves an entry to the front.
pub record ResolverCache (C : Type 0) : Type 0 where
  pub get : Text → C → Option AccessTokenResolvingResult × C
  pub add : Text → AccessTokenResolvingResult → C → C

-- `unix_milli` is the time, and `who_am_i` the homeserver's answer to GET /account/whoami.
pub record Homeserver (E W : Type 0) : Type 0 where
  pub unix_milli : W → ℕ
  pub who_am_i : (access_token : Text) → W → Result E Text × W
  pub resp_code : E → Option Text

pub data ResolveError (E : Type 0) : Type 0 where
  unknown_token_cached : ResolveError E
  unknown_token : ResolveError E
  request_error : E → ResolveError E

-- `pending` are the goroutines that are about to add to the cache.
pub record UserMappingResolver (C W : Type 0) : Type 0 where
  pub cache : C
  pub pending : List (Text × AccessTokenResolvingResult)
  pub world : W

-- What the homeserver said of a token, none for an unknown one, and when.
pub record Heard : Type 0 where
  pub access_token : Text
  pub answer : Option Text
  pub at : ℕ

-- A goroutine that adds to the cache, and the others.
pub data Removed (x : Text × AccessTokenResolvingResult)
    : (before after : List (Text × AccessTokenResolvingResult)) → Type 0 where
  first : {xs : List (Text × AccessTokenResolvingResult)} → Removed x (x ∷ xs) xs
  later :
      {y : Text × AccessTokenResolvingResult} {xs ys : List (Text × AccessTokenResolvingResult)}
      → Removed x xs ys
      → Removed x (y ∷ xs) (y ∷ ys)

module _ {E C W : Type 0} (server : Homeserver E W) (lru : ResolverCache C)
    (expiration_time_milliseconds : ℕ) where
  -- `time.Now().Unix()`
  abbrev pub unix : W → ℕ
  unix w = server.unix_milli w / 1000

  -- `time.Now().Add(…).Unix()`
  abbrev pub expires_at : W → ℕ
  expires_at w = (server.unix_milli w + expiration_time_milliseconds) / 1000

  -- The cached result, if it has not expired.
  unfoldable pub fresh : W → Option AccessTokenResolvingResult → Option AccessTokenResolvingResult
  fresh w none = none
  fresh w (some cached) = if ltb (unix w) cached.expires_at_timestamp then some cached else none

  unfoldable pub from_cache : AccessTokenResolvingResult → Result (ResolveError E) Text
  from_cache cached =
      if text_eq cached.matrix_user_id user_id_unknown_token
      then err unknown_token_cached
      else ok cached.matrix_user_id

  -- The result that a goroutine is to add, if any.
  unfoldable pub to_add : Result E Text → W → Option AccessTokenResolvingResult
  to_add (ok user_id) w =
      some (record { matrix_user_id = user_id; expires_at_timestamp = expires_at w })
  to_add (err e) w =
      if is_error_with_code server.resp_code (some e) error_unknown_token
      then some
          (record { matrix_user_id = user_id_unknown_token; expires_at_timestamp = expires_at w })
      else none

  abbrev pub scheduled :
      Text → Option AccessTokenResolvingResult → List (Text × AccessTokenResolvingResult)
  scheduled access_token none = []
  scheduled access_token (some result) = (access_token, result) ∷ []

  unfoldable pub answer_of : Result E Text → Result (ResolveError E) Text
  answer_of (ok user_id) = ok user_id
  answer_of (err e) =
      if is_error_with_code server.resp_code (some e) error_unknown_token
      then err unknown_token
      else err (request_error e)

  -- The part of `ResolveByAccessToken` that contacts the server.
  unfoldable pub ask_server :
      Text → UserMappingResolver C W → Result (ResolveError E) Text × UserMappingResolver C W
  ask_server access_token me =
      let (answer, w) = server.who_am_i access_token me.world in
      (
        answer_of answer,
        record {
          cache = me.cache;
          pending = me.pending ++ scheduled access_token (to_add answer w);
          world = w;
        },
      )

  abbrev pub look_up : Text → UserMappingResolver C W → UserMappingResolver C W
  look_up access_token me = record me { cache = (lru.get access_token me.cache).1 }

  unfoldable pub resolve_by_access_token :
      Text → UserMappingResolver C W → Result (ResolveError E) Text × UserMappingResolver C W
  resolve_by_access_token access_token me =
      elim (fresh me.world (lru.get access_token me.cache).0) [
        | some cached ↦ (from_cache cached, look_up access_token me)
        | none ↦ ask_server access_token (look_up access_token me)
      ]

  abbrev pub hears : Text → Result E Text → W → List Heard
  hears access_token (ok user_id) w =
      record { access_token = access_token; answer = some user_id; at = server.unix_milli w } ∷ []
  hears access_token (err e) w =
      if is_error_with_code server.resp_code (some e) error_unknown_token
      then record { access_token = access_token; answer = none; at = server.unix_milli w } ∷ []
      else []

  -- The states that the resolver reaches, with what the homeserver has said, the newest first. Calls
  -- overlap: the look-up of a call, its request and the goroutine it starts are steps of their own,
  -- and the world goes on by itself.
  pub data Reachable (empty : C) : List Heard → UserMappingResolver C W → Type 0 where
    starts : (w : W) → Reachable empty [] (record { cache = empty; pending = []; world = w })
    looks_up :
        {heard : List Heard} {me : UserMappingResolver C W} (access_token : Text)
        → Reachable empty heard me
        → Reachable empty heard (look_up access_token me)
    asks :
        {heard : List Heard} {me : UserMappingResolver C W} (access_token : Text)
        → Reachable empty heard me
        → Reachable empty
            (hears access_token
                (server.who_am_i access_token me.world).0
                (server.who_am_i access_token me.world).1
              ++ heard)
            (ask_server access_token me).1
    adds :
        {heard : List Heard} {me : UserMappingResolver C W}
        (added : Text × AccessTokenResolvingResult)
        (rest : List (Text × AccessTokenResolvingResult))
        → Removed added me.pending rest
        → Reachable empty heard me
        → Reachable empty heard
            (record me { cache = lru.add added.0 added.1 me.cache; pending = rest })
    goes_on :
        {heard : List Heard} {me : UserMappingResolver C W} (w : W)
        → Reachable empty heard me
        → Reachable empty heard (record me { world = w })
