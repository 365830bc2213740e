-- ===== src/Hook/Execution.antt =====
-- corporal/hook/execution_result.go and http.go: what executing a hook yields, and the chain of
-- response modifiers.
use matrix_corporal.Base.{
  Bool, true, false, not, ◌&&◌, Option, none, some, is_some, List, [], ◌∷◌, Text, Result, ok, err,
}
use matrix_corporal.Http.{Request, Response}
use matrix_corporal.Hook.Data.{Hook}

-- Why there is no result: the code has panicked, or the model's fuel has run out.
pub data Halt : Type 0 where
  panic : (message : Text) → Halt
  out_of_fuel : Halt

pub record ExecutionResult (Modifier : Type 0) : Type 0 where
  pub hooks : List Hook
  pub response_sent : Bool
  pub skip_next_hooks_in_chain : Bool
  pub processing_error : Option Text
  pub reverse_proxy_response_modifiers : List Modifier

unfoldable pub next_hooks_in_chain_can_run : {Modifier : Type 0} → ExecutionResult Modifier → Bool
next_hooks_in_chain_can_run me =
    (not me.skip_next_hooks_in_chain && not me.response_sent) && not (is_some me.processing_error)

abbrev pub create_processing_error_execution_result :
    {Modifier : Type 0} → Hook → (message : Text) → ExecutionResult Modifier
create_processing_error_execution_result h message = record {
  hooks = h ∷ [];
  response_sent = false;
  skip_next_hooks_in_chain = true;
  processing_error = some message;
  reverse_proxy_response_modifiers = [];
}

-- What a modifier works on: the response, and what its closure reaches, which is the request and
-- the rest of the world.
pub record Modified (S : Type 0) : Type 0 where
  pub response : Response
  pub request : Request
  pub outside : S

-- `HttpResponseModifierFunc`: whether to skip the next modifiers, or an error.
abbrev pub HttpResponseModifier : Type 0 → Type 0
HttpResponseModifier S = Modified S → Result Halt (Result Text Bool × Modified S)

-- `CreateChainedHttpResponseModifierFunc`
unfoldable pub chained_response_modifier :
    {S : Type 0}
    → List (HttpResponseModifier S)
    → Modified S
    → Result Halt (Option Text × Modified S)
chained_response_modifier [] x = ok (none, x)
chained_response_modifier (function ∷ functions) x = elim (function x) [
  | err halt ↦ err halt
  | ok done ↦ elim done.0 [
    | err e ↦ ok (some e, done.1)
    | ok skip_next_modifiers ↦ elim skip_next_modifiers [
      | true ↦ ok (none, done.1)
      | false ↦ chained_response_modifier functions done.1
    ]
  ]
]
