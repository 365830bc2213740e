-- ===== src/Tests/Accounts.antt =====
-- Examples of the helpers on user ids and display names, of the retries and of the authenticators.
use matrix_corporal.Base.{
  ℕ, ◌≡◌, refl, inl, inr, Bool, true, Option, none, some, [], ◌∷◌, Text, text, text_eq, ok, suc,
  arith, text_eq_iff, text_eq_refl, if◌then◌else◌,
}
use matrix_corporal.Matrix.{
  execute_with_rate_limit_retries, retry_from, is_error_with_code, error_limit_exceeded,
}
use matrix_corporal.UserAuth.Authenticators.{
  Cache, plain_authenticator, cache_key_raw, cache_fallback_authenticator,
}
use matrix_corporal.UserAuth.Authenticators.Fallback.{
  IsCache, AgreesAt, record_answer, authenticate-Agrees, authenticate-ok,
}
use matrix_corporal.Tests.Samples.{john_id}

-- A homeserver that limits each call, and counts them.
abbrev limit_all : ℕ → Option Text × ℕ
limit_all calls = (some error_limit_exceeded, suc calls)

-- With five limited calls there are five pauses, the last of them without a call after it.
five_pauses :
    execute_with_rate_limit_retries (λ e. some e) limit_all 0
    ≡ (some error_limit_exceeded, 5, 5 ∷ 10 ∷ 15 ∷ 20 ∷ 25 ∷ [])
unfolding execute_with_rate_limit_retries retry_from is_error_with_code text_eq
five_pauses = refl

-- A cache that holds one answer.
abbrev answer_in : Text → Option (Text × Bool) → Option Bool
answer_in k none = none
answer_in k (some (j, b)) = if text_eq j k then some b else none

abbrev small_cache : Cache (Option (Text × Bool))
small_cache = record { find = λ k c. (answer_in k c, c); add = λ k b c. some (k, b) }

small_cache-IsCache : IsCache small_cache
small_cache-IsCache = record {
  find-find = λ k j c. inr refl;
  find-add_self = λ k b c. ground (arith, text_eq_refl k);
  find-add_other = λ k j b c h. ground (arith, text_eq_iff k j);
}

abbrev no_answers : Text → Option Bool
no_answers k = none

authenticate-Agrees_example :
    AgreesAt
      (λ k. k)
      small_cache
      (text "rest")
      (plain_authenticator {S = Unit {0}})
      (record_answer
        (λ k. k)
        small_cache
        (text "rest")
        (plain_authenticator {S = Unit {0}})
        (cache_key_raw john_id (text "pw") (text "pw"))
        (ok true)
        no_answers)
      ((cache_fallback_authenticator
          (λ k. k)
          small_cache
          (text "rest")
          plain_authenticator).authenticate
        john_id
        (text "pw")
        (text "pw")
        (tt, none)).1.1
      john_id
unfolding plain_authenticator text_eq
authenticate-Agrees_example =
    authenticate-Agrees (λ k. k) small_cache (text "rest") plain_authenticator no_answers john_id
      (text "pw") (text "pw") tt none small_cache-IsCache (λ k. inl refl) john_id

authenticate-ok_example :
    record_answer
      (λ k. k)
      small_cache
      (text "rest")
      (plain_authenticator {S = Unit {0}})
      (cache_key_raw john_id (text "pw") (text "pw"))
      (ok true)
      no_answers
      (cache_key_raw john_id (text "pw") (text "pw"))
    ≡ some true
unfolding plain_authenticator cache_fallback_authenticator text_eq
authenticate-ok_example =
    authenticate-ok (λ k. k) small_cache (text "rest") plain_authenticator no_answers john_id
      (text "pw") (text "pw") tt none true small_cache-IsCache (λ k. inl refl) refl
