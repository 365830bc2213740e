-- ===== src/Matrix/Mapping/Known.antt =====
-- What the resolver of access tokens knows (corporal/matrix/mapping.go).
use matrix_corporal.Base.{
  ℕ, ◌+◌, ◌<◌, ◌≡◌, ◌≢◌, ◌⊎◌, inl, inr, refl, true, Option, none, some, List, [], ◌∷◌, ◌++◌, Text,
  text_eq, text_eq_iff, Result, ok, err, Mem, All, All-append, Bool-cases, Option-cases, arith,
  subst, ltb,
}
use matrix_corporal.Matrix.{is_error_with_code, error_unknown_token}
use matrix_corporal.Matrix.Mapping.{
  user_id_unknown_token, AccessTokenResolvingResult, ResolverCache, Homeserver, UserMappingResolver,
  fresh, from_cache, to_add, scheduled, answer_of, ask_server, resolve_by_access_token, Heard,
  hears, Removed, first, later, Reachable, starts, looks_up, asks, adds, goes_on,
}
use mathlib.Core.List.{mem-cons_self, mem-cons_of_mem}
use Prim.Native.Nat.{◌/◌}

-- What an LRU cache promises: it is empty at first, changes nothing by a look-up but may evict, and
-- holds what was added last for a key or, once that is evicted, nothing.
pub record IsLru {C : Type 0} (lru : ResolverCache C) (empty : C) : Type 0 where
  pub get-empty : (k : Text) → (lru.get k empty).0 ≡ none
  pub get-get :
      (k j : Text) (c : C)
      → ((lru.get j (lru.get k c).1).0 ≡ none) ⊎ ((lru.get j (lru.get k c).1).0 ≡ (lru.get j c).0)
  pub get-add_self :
      (k : Text) (r : AccessTokenResolvingResult) (c : C)
      → ((lru.get k (lru.add k r c)).0 ≡ none) ⊎ ((lru.get k (lru.add k r c)).0 ≡ some r)
  pub get-add_other :
      (k j : Text) (r : AccessTokenResolvingResult) (c : C)
      → k ≢ j
      → ((lru.get j (lru.add k r c)).0 ≡ none) ⊎ ((lru.get j (lru.add k r c)).0 ≡ (lru.get j c).0)

module _ {E C W : Type 0} (server : Homeserver E W) (lru : ResolverCache C)
    (expiration_time_milliseconds : ℕ) where
  -- The user id that is cached for an answer.
  abbrev cached_id : Option Text → Text
  cached_id none = user_id_unknown_token
  cached_id (some user_id) = user_id

  -- A result for a token is what the homeserver said of it, with the time until which that counts.
  abbrev Stems : List Heard → Text × AccessTokenResolvingResult → Type 0
  Stems heard (access_token, result) =
      (answer : Option Text) × (at : ℕ) × Mem
        (record { access_token = access_token; answer = answer; at = at }) heard
      × (result.matrix_user_id ≡ cached_id answer)
      × (result.expires_at_timestamp ≡ (at + expiration_time_milliseconds) / 1000)

  abbrev IsKnown : List Heard → UserMappingResolver C W → Type 0
  IsKnown heard me =
      ((access_token : Text) (result : AccessTokenResolvingResult)
        → (lru.get access_token me.cache).0 ≡ some result
        → Stems heard (access_token, result))
      × All (Stems heard) me.pending

  mem-after : {h : Heard} (xs : List Heard) {ys : List Heard} → Mem h ys → Mem h (xs ++ ys)
  mem-after [] m = m
  mem-after (x ∷ xs) m = mem-cons_of_mem x (mem-after xs m)

  Stems-after :
      (xs : List Heard) {ys : List Heard} (r : Text × AccessTokenResolvingResult)
      → Stems ys r
      → Stems (xs ++ ys) r
  Stems-after xs r (answer, at, m, e, t) = (answer, at, mem-after xs m, e, t)

  All-Stems-after :
      (xs ys : List Heard) (rs : List (Text × AccessTokenResolvingResult))
      → All (Stems ys) rs
      → All (Stems (xs ++ ys)) rs
  All-Stems-after xs ys [] h = tt
  All-Stems-after xs ys (r ∷ rs) h = (Stems-after xs r h.0, All-Stems-after xs ys rs h.1)

  removed :
      {heard : List Heard} {x : Text × AccessTokenResolvingResult}
      {before rest : List (Text × AccessTokenResolvingResult)}
      → Removed x before rest
      → All (Stems heard) before
      → Stems heard x × All (Stems heard) rest
  removed first h = h
  removed (later r) h = let found = removed r h.1 in (found.0, (h.0, found.1))

  -- What a request schedules stems from what was heard by it.
  scheduled-Stems :
      (token : Text) (answer : Result E Text) (w : W) (heard : List Heard)
      → All (Stems (hears server lru expiration_time_milliseconds token answer w ++ heard)) (
          scheduled server lru expiration_time_milliseconds token
            (to_add server lru expiration_time_milliseconds answer w))
  unfolding to_add
  scheduled-Stems token (ok user_id) w heard =
      ((some user_id, server.unix_milli w, mem-cons_self, refl, refl), tt)
  scheduled-Stems token (err e) w heard =
      elim (Bool-cases (is_error_with_code server.resp_code (some e) error_unknown_token)) [
        | inl unknown ↦ rw unknown ((none, server.unix_milli w, mem-cons_self, refl, refl), tt)
        | inr other ↦ rw other tt
      ]

  -- Within an expiration time after it was heard.
  abbrev pub IsRecent : List Heard → W → Text → Text → Type 0
  IsRecent heard w access_token user_id =
      (at : ℕ) × Mem (record { access_token = access_token; answer = some user_id; at = at }) heard
      × (server.unix_milli w < at + expiration_time_milliseconds)

  module _ (empty : C) (laws : IsLru lru empty) where
    found_before :
        {result : AccessTokenResolvingResult} {found old : Option AccessTokenResolvingResult}
        → (found ≡ none) ⊎ (found ≡ old)
        → found ≡ some result
        → old ≡ some result
    found_before (inl gone) e = cc
    found_before (inr same) e = cc

    added_here :
        (heard : List Heard) (key : Text) (new result : AccessTokenResolvingResult)
        → Stems heard (key, new)
        → some new ≡ some result
        → Stems heard (key, result)
    added_here heard key new result this e =
        let same : new ≡ result = cc in subst (λ r. Stems heard (key, r)) same this

    after_add :
        (heard : List Heard) (added : Text × AccessTokenResolvingResult) (cache : C)
        → Stems heard added
        → ((token : Text) (result : AccessTokenResolvingResult)
            → (lru.get token cache).0 ≡ some result
            → Stems heard (token, result))
        → (token : Text) (result : AccessTokenResolvingResult)
        → (lru.get token (lru.add added.0 added.1 cache)).0 ≡ some result
        → Stems heard (token, result)
    after_add heard (key, new) cache this known token result e =
        elim (Bool-cases (text_eq key token)) [
          | inl same ↦
              let here = (text_eq_iff key token).0 same in
              subst
                (λ t. (lru.get t (lru.add key new cache)).0 ≡ some result → Stems heard (t, result))
                here
                (λ e.
                  added_here heard key new result this
                    (found_before (laws.get-add_self key new cache) e))
                e
          | inr other ↦ known token result (
              found_before
                (laws.get-add_other key token new cache
                  (λ same. ground (arith, text_eq_iff key token)))
                e)
        ]

    -- In every state that is reached, what the cache has and what is about to be added stems from an
    -- answer of the homeserver.
    Reachable-IsKnown :
        {heard : List Heard} {me : UserMappingResolver C W}
        → Reachable server lru expiration_time_milliseconds empty heard me
        → IsKnown heard me
    unfolding ask_server
    Reachable-IsKnown (starts w) = ((λ token result e. let gone = laws.get-empty token in cc), tt)
    Reachable-IsKnown (looks_up token r) =
        let known = Reachable-IsKnown r in
        (
          (λ other result e. known.0 other result (found_before (laws.get-get token other _) e)),
          known.1,
        )
    Reachable-IsKnown (asks token r) =
        let known = Reachable-IsKnown r in
        (
          (λ other result e. Stems-after _ _ (known.0 other result e)),
          All-append _ _ _ (All-Stems-after _ _ _ known.1) (scheduled-Stems token _ _ _),
        )
    Reachable-IsKnown {heard} (adds added rest taken r) =
        let known = Reachable-IsKnown r in
        let (this, others) = removed taken known.1 in (after_add heard added _ this known.0, others)
    Reachable-IsKnown (goes_on w r) = Reachable-IsKnown r

    cached-IsRecent :
        (heard : List Heard) (w : W) (token user_id : Text) (result : AccessTokenResolvingResult)
        → Stems heard (token, result)
        → ltb (server.unix_milli w / 1000) result.expires_at_timestamp ≡ true
        → from_cache server lru expiration_time_milliseconds result ≡ ok user_id
        → IsRecent heard w token user_id
    unfolding from_cache
    cached-IsRecent heard w token user_id result (none, at, m, id, expires) early e =
        absurd (ground (arith, text_eq_iff result.matrix_user_id user_id_unknown_token))
    cached-IsRecent heard w token user_id result (some u, at, m, id, expires) early e =
        let same : u ≡ user_id =
          ground (arith, text_eq_iff result.matrix_user_id user_id_unknown_token) in
        (
          at,
          subst (λ u. Mem (record { access_token = token; answer = some u; at = at }) heard) same m,
          ground arith,
        )

    asked :
        (answer : Result E Text) (user_id : Text)
        → answer_of server lru expiration_time_milliseconds answer ≡ ok user_id
        → answer ≡ ok user_id
    unfolding answer_of
    asked (ok u) user_id e = cc
    asked (err wrong) user_id e = absurd (ground arith)

    -- In every state that the resolver reaches, by calls that overlap in any way, an access token that
    -- resolves to a user is one that the homeserver says is this user's, in answer to this call or
    -- less than the expiration time ago.
    pub resolve_by_access_token_lem :
        (heard : List Heard) (me : UserMappingResolver C W) (access_token user_id : Text)
        → Reachable server lru expiration_time_milliseconds empty heard me
        → (resolve_by_access_token server lru expiration_time_milliseconds access_token me).0
          ≡ ok user_id
        → ((server.who_am_i access_token me.world).0 ≡ ok user_id)
          ⊎ IsRecent heard me.world access_token user_id
    unfolding resolve_by_access_token fresh ask_server answer_of
    resolve_by_access_token_lem heard me token user_id r e =
        let known = Reachable-IsKnown r in
        elim (Option-cases (lru.get token me.cache).0) [
          | inl missing ↦ inl (asked _ user_id (rw (resolve_by_access_token, missing) at e))
          | inr (cached, found) ↦
              elim (Bool-cases
                (ltb (server.unix_milli me.world / 1000) cached.expires_at_timestamp)) [
                  | inl early ↦ inr (
                      cached-IsRecent heard me.world token user_id cached
                        (known.0 token cached found) early
                        (rw (resolve_by_access_token, found, early) at e))
                  | inr late ↦
                      inl (asked _ user_id (rw (resolve_by_access_token, found, late) at e))
                ]
        ]
