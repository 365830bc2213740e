-- ===== src/Matrix/RateLimit.antt =====
-- The retry loop (corporal/matrix/util.go).
use matrix_corporal.Base.{
  ℕ, zero, suc, ◌+◌, ◌*◌, ◌<◌, ◌≡◌, Bool, true, false, ◌⊎◌, Option, List, [], ◌∷◌, Text,
}
use matrix_corporal.Matrix.{error_limit_exceeded, is_error_with_code}

-- The pauses of `left` rounds that all hit the rate limit.
abbrev pauses : (left retry : ℕ) → List ℕ
pauses zero retry = []
pauses (suc left) retry = ((retry + 1) * 5) ∷ pauses left (retry + 1)

module _ {E : Type 0} (resp_code : E → Option Text) {S : Type 0} (callback : S → Option E × S) where
  abbrev is_limited : Option E → Bool
  is_limited e = is_error_with_code resp_code e error_limit_exceeded

  -- `n` calls of the callback in a row, each of which hits the rate limit, lead from one state to the
  -- other.
  abbrev pub Limited : ℕ → S → S → Type 0
  Limited zero s s' = s ≡ s'
  Limited (suc n) s s' = (is_limited (callback s).0 ≡ true) × Limited n (callback s).1 s'

  -- With `left` rounds to go: some limited calls, fewer than the rounds, and then a call that is not
  -- limited and whose outcome is returned; or as many limited calls as rounds. There is a pause after
  -- each limited call.
  abbrev pub Outcome : (left retry : ℕ) → S → Option E × S × List ℕ → Type 0
  Outcome left retry s (e, s', waits) =
      ((n : ℕ) × (before : S) × (n < left)
        × Limited n s before
        × (is_limited e ≡ false)
        × (callback before ≡ (e, s'))
        × (waits ≡ pauses n retry))
      ⊎ ((is_limited e ≡ true) × Limited left s s' × (waits ≡ pauses left retry))
