-- ===== src/Gateway/HookRunner/Executing.antt =====
-- The hook runner with the executor of corporal/hook/executor.go.
use matrix_corporal.Base.{ap, ℕ, Bool, true, false, List, [], ◌∷◌, Result, ok, err}
use matrix_corporal.Http.ResponseBound.{Written}
use matrix_corporal.Hook.Execution.{Halt, ExecutionResult, HttpResponseModifier}
use matrix_corporal.Hook.Actions.{Executor, Outcome}
use matrix_corporal.Hook.Executor.{execute}
use matrix_corporal.Hook.Executor.Promises.{Writes, Keeps, execute-Keeps}
use matrix_corporal.Gateway.HookRunner.{Reply, from_hook, Exchange, Surroundings}
use matrix_corporal.Gateway.HookRunner.Sends.{Sends, IsExecutor, IsSilent, Ran}

module _ {S : Type 0} where
  -- The responses written to `w` are replies to the client.
  abbrev pub prepend :
      List Written → List (Reply (HttpResponseModifier S)) → List (Reply (HttpResponseModifier S))
  prepend [] replies = replies
  prepend (w ∷ written) replies = from_hook w ∷ prepend written replies

  -- The outcome of a hook that has been executed on an exchange `x`.
  abbrev pub on_exchange :
      Exchange S (HttpResponseModifier S)
      → Outcome S
      → Result Halt (ExecutionResult (HttpResponseModifier S) × Exchange S (HttpResponseModifier S))
  on_exchange x (err halt) = err halt
  on_exchange x (ok done) = ok (
    done.0,
    record x {
      request = done.1.request;
      outside = done.1.outside;
      replies = prepend done.1.written x.replies;
    },
  )

  -- The hook runner's surroundings, with the executor in them.
  unfoldable pub with_executor :
      Executor S
      → (fuel : ℕ) → Surroundings S (HttpResponseModifier S)
      → Surroundings S (HttpResponseModifier S)
  with_executor me fuel others = record others {
    execute = λ h x.
        on_exchange x
          (execute me fuel h (record { request = x.request; outside = x.outside; written = [] }));
  }

  sent_case :
      (b : Bool) (before : List (Reply (HttpResponseModifier S))) (written : List Written)
      → Writes b [] written
      → Sends b before (prepend written before)
  sent_case true before written (w, e) = (from_hook w, ap (λ l. prepend l before) e)
  sent_case false before written e = ap (λ l. prepend l before) e

  on_exchange-Ran :
      (x : Exchange S (HttpResponseModifier S)) (outcome : Outcome S)
      → Keeps outcome []
      → Ran (on_exchange x outcome) x.replies
  on_exchange-Ran x (err halt) keeps = tt
  on_exchange-Ran x (ok done) keeps =
      sent_case done.0.response_sent x.replies done.1.written keeps.0

  on_exchange-IsSilent :
      (x : Exchange S (HttpResponseModifier S)) (outcome : Outcome S)
      → Keeps outcome []
      → IsSilent (on_exchange x outcome)
  on_exchange-IsSilent x (err halt) keeps = tt
  on_exchange-IsSilent x (ok done) keeps = keeps.1

  -- Whatever the REST services answer, the executor keeps its promises to the hook runner: a result
  -- says that it has sent a response just when it has sent one, and a result with an error has sent
  -- none.
  pub with_executor-IsExecutor :
      (me : Executor S) (fuel : ℕ) (others : Surroundings S (HttpResponseModifier S))
      → IsExecutor (with_executor me fuel others)
  unfolding with_executor
  with_executor-IsExecutor me fuel others = record {
    sends = λ h x. on_exchange-Ran x _ (execute-Keeps me fuel h _);
    sends_no_error = λ h x. on_exchange-IsSilent x _ (execute-Keeps me fuel h _);
  }
