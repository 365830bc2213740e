-- ===== src/UserAuth/Authenticators/Fallback.antt =====
-- The fallback on cached answers (corporal/userauth/caching.go).
use matrix_corporal.Base.{
  ◌≡◌, refl, ◌⊎◌, inl, inr, ◌≢◌, Bool, Option, none, some, arith, Text, text_eq, text_eq_iff,
  Result, ok, err, subst, if◌then◌else◌, Bool-cases,
}
use matrix_corporal.UserAuth.Authenticators.{
  AuthError, fallback_failed, Authenticator, Cache, cache_key_raw, cache_fallback_authenticator,
}

-- What a cache promises: it changes nothing by a look-up, and holds what was added last for a key
-- or, once that is evicted, nothing.
pub record IsCache {C : Type 0} (cache : Cache C) : Type 0 where
  pub find-find :
      (k j : Text) (c : C)
      → ((cache.find j (cache.find k c).1).0 ≡ none)
        ⊎ ((cache.find j (cache.find k c).1).0 ≡ (cache.find j c).0)
  pub find-add_self :
      (k : Text) (b : Bool) (c : C)
      → ((cache.find k (cache.add k b c)).0 ≡ none) ⊎ ((cache.find k (cache.add k b c)).0 ≡ some b)
  pub find-add_other :
      (k j : Text) (b : Bool) (c : C)
      → k ≢ j
      → ((cache.find j (cache.add k b c)).0 ≡ none)
        ⊎ ((cache.find j (cache.add k b c)).0 ≡ (cache.find j c).0)

module _ {S C : Type 0} (sha256 : Text → Text) (cache : Cache C) (auth_type : Text)
    (other : Authenticator S) where
  -- The answer in the cache for a key, if there is one, is the last one that the other authenticator
  -- gave for it.
  abbrev pub AgreesAt : (last : Text → Option Bool) → C → Text → Type 0
  AgreesAt last c k = ((cache.find k c).0 ≡ none) ⊎ ((cache.find k c).0 ≡ last k)

  abbrev pub Agrees : (last : Text → Option Bool) → C → Type 0
  Agrees last c = (k : Text) → AgreesAt last c k

  -- The last answers after one more, if it was not an error.
  abbrev pub record_answer :
      Text → Result AuthError Bool → (Text → Option Bool) → Text → Option Bool
  record_answer key (err e) last k = last k
  record_answer key (ok b) last k = if text_eq key k then some b else last k

  abbrev from_cache : Text → S → C → AuthError → Option Bool → Result AuthError Bool × (S × C)
  from_cache key s c e none = (err (fallback_failed e), (s, (cache.find key c).1))
  from_cache key s c e (some cached) = (ok cached, (s, (cache.find key c).1))

  abbrev serve : Text → S → C → Result AuthError Bool → Result AuthError Bool × (S × C)
  serve key s c (ok b) = (ok b, (s, cache.add key b c))
  serve key s c (err e) = from_cache key s c e (cache.find key c).0

  after_add :
      (last : Text → Option Bool) (key : Text) (b : Bool) (c : C)
      → IsCache cache
      → Agrees last c
      → Agrees (record_answer key (ok b) last) (cache.add key b c)
  after_add last key b c laws agrees k = elim (Bool-cases (text_eq key k)) [
    | inl e ↦
        let same = (text_eq_iff key k).0 e in
        rw e (
          subst
            (λ k.
              ((cache.find k (cache.add key b c)).0 ≡ none)
              ⊎ ((cache.find k (cache.add key b c)).0 ≡ some b))
            same (laws.find-add_self key b c))
    | inr e ↦
        let kept = laws.find-add_other key k b c (λ same. ground (arith, text_eq_iff key k)) in
        ground (arith, agrees k, kept)
  ]

  fallen :
      (last : Text → Option Bool) (key : Text) (s : S) (c : C) (wrong : AuthError)
      (found : Option Bool)
      → (cache.find key c).0 ≡ found
      → IsCache cache
      → Agrees last c
      → Agrees last (from_cache key s c wrong found).1.1
        × ((b : Bool) → (from_cache key s c wrong found).0 ≡ ok b → last key ≡ some b)
  fallen last key s c wrong none e laws agrees =
      ((λ k. ground (arith, agrees k, laws.find-find key k c)), λ b h. absurd (ground arith))
  fallen last key s c wrong (some a) e laws agrees =
      ((λ k. ground (arith, agrees k, laws.find-find key k c)), λ b h. ground (arith, agrees key))

  served :
      (last : Text → Option Bool) (key : Text) (s : S) (c : C) (upstream : Result AuthError Bool)
      → IsCache cache
      → Agrees last c
      → Agrees (record_answer key upstream last) (serve key s c upstream).1.1
        × ((b : Bool)
            → (serve key s c upstream).0 ≡ ok b
            → record_answer key upstream last key ≡ some b)
  served last key s c (ok b) laws agrees =
      (after_add last key b c laws agrees, λ a e. ground (arith, text_eq_iff key key))
  served last key s c (err wrong) laws agrees =
      fallen last key s c wrong (cache.find key c).0 refl laws agrees

  -- If the cache agrees with the last answers of the other authenticator, then it does so after an
  -- authentication too, for every key.
  pub authenticate-Agrees :
      (last : Text → Option Bool) (user_id password credential : Text) (s : S) (c : C)
      → IsCache cache
      → Agrees last c
      → (k : Text)
      → AgreesAt
          (record_answer
            (sha256 (cache_key_raw user_id password credential))
            (other.authenticate user_id password credential s).0
            last)
          ((cache_fallback_authenticator sha256 cache auth_type other).authenticate user_id password
            credential
            (s, c)).1.1
          k
  unfolding cache_fallback_authenticator
  authenticate-Agrees last user_id password credential s c laws agrees k =
      (served last _ _ c (other.authenticate user_id password credential s).0 laws agrees).0 k

  -- If the cache agrees with the last answers of the other authenticator, then an answer that is
  -- given is the other one's of this time, or, when that is an error, its last answer for the same
  -- cache key.
  pub authenticate-ok :
      (last : Text → Option Bool) (user_id password credential : Text) (s : S) (c : C) (b : Bool)
      → IsCache cache
      → Agrees last c
      → ((cache_fallback_authenticator sha256 cache auth_type other).authenticate user_id password
          credential
          (s, c)).0
        ≡ ok b
      → record_answer
          (sha256 (cache_key_raw user_id password credential))
          (other.authenticate user_id password credential s).0
          last
          (sha256 (cache_key_raw user_id password credential))
        ≡ some b
  unfolding cache_fallback_authenticator
  authenticate-ok last user_id password credential s c b laws agrees h =
      (served last _ _ c (other.authenticate user_id password credential s).0 laws agrees).1 b h
