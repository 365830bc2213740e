-- ===== src/Connector/Calls.antt =====
-- Code of corporal/connector that works on the world and on the tokens of a context, and may return an
-- error.
use matrix_corporal.Base.{Option, none, some, Text, ◌++◌, Result, ok, err}
use matrix_corporal.Matrix.{execute_with_rate_limit_retries}
use matrix_corporal.Connector.Client.{ApiError, other_error, resp_code, error_text}
use matrix_corporal.Connector.Tokens.{Session}

abbrev pub Call : (W A : Type 0) → Type 0
Call W A = Session W → Result ApiError A × Session W

-- `return err`, where `nil` is the success
abbrev pub result_of : Option ApiError → Result ApiError (Unit {0})
result_of none = ok tt
result_of (some e) = err e

abbrev pub error_of : {A : Type 0} → Result ApiError A → Option ApiError
error_of (ok a) = none
error_of (err e) = some e

-- One call of a retry loop, with the last answer beside the world.
abbrev pub ask_once :
    {W A : Type 0} → (W → Result ApiError A × W) → A × W → Option ApiError × (A × W)
ask_once op (last, w) = elim (op w).0 [
  | ok a ↦ (none, (a, (op w).1))
  | err e ↦ (some e, (last, (op w).1))
]

-- `ExecuteWithRateLimitRetries` with a callback that stores its answer in a variable; the pauses are
-- left out.
abbrev pub ask_retrying :
    {W A : Type 0} → (initial : A) → (W → Result ApiError A × W) → W → Result ApiError A × W
ask_retrying initial op w =
    let r = execute_with_rate_limit_retries resp_code (ask_once op) (initial, w) in
    elim r.0 [ none ↦ (ok r.1.0, r.1.1) | some e ↦ (err e, r.1.1) ]

module _ {W : Type 0} where
  infixl 5 ◌>>=◌ ◌>>◌
  abbrev pub ◌>>=◌ : {A B : Type 0} → Call W A → (A → Call W B) → Call W B
  m >>= f = λ s. elim (m s).0 [ ok a ↦ f a (m s).1 | err e ↦ (err e, (m s).1) ]

  abbrev pub ◌>>◌ : {B : Type 0} → Call W (Unit {0}) → Call W B → Call W B
  m >> k = m >>= λ _. k

  abbrev pub pure : {A : Type 0} → A → Call W A
  pure a s = (ok a, s)

  abbrev pub fail : {A : Type 0} → (message : Text) → Call W A
  fail message s = (err (other_error message), s)

  -- The two kinds of calls of the client.
  abbrev pub ask : {A : Type 0} → (W → Result ApiError A × W) → Call W A
  ask op s = ((op s.world).0, record s { world = (op s.world).1 })

  abbrev pub attempt : (W → Option ApiError × W) → Session W → Option ApiError × Session W
  attempt op s = ((op s.world).0, record s { world = (op s.world).1 })

  -- `ExecuteWithRateLimitRetries` with a callback that only returns its error.
  abbrev pub retrying : (Session W → Option ApiError × Session W) → Call W (Unit {0})
  retrying callback s =
      let r = execute_with_rate_limit_retries resp_code callback s in (result_of r.0, r.1)

  abbrev pub retry : (W → Option ApiError × W) → Call W (Unit {0})
  retry op = retrying (attempt op)

  -- A method as the callback of the retry loop.
  abbrev pub as_callback : Call W (Unit {0}) → Session W → Option ApiError × Session W
  as_callback m s = (error_of (m s).0, (m s).1)

  -- `fmt.Errorf("...: %s", err)`
  abbrev pub wrapping : {A : Type 0} → Text → Call W A → Call W A
  wrapping message m s = elim (m s).0 [
    | ok a ↦ (ok a, (m s).1)
    | err e ↦ (err (other_error (message ++ error_text e)), (m s).1)
  ]
