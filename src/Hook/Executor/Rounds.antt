-- ===== src/Hook/Executor/Rounds.antt =====
-- How many hooks can follow each other, each the answer of the REST service that the one before has
-- consulted (corporal/hook/rest_service_consulting.go).
use matrix_corporal.Base.{
  ◌≡◌, refl, inl, inr, ℕ, zero, suc, ◌+◌, pos, int_eq, ◌<◌, arith, Bool, true, false, Option, none,
  some, Text, text_eq, Result, ok, err, ok-injective, Bool-cases, Option-cases, Result-cases,
  if◌then◌else◌, subst,
}
use matrix_corporal.Http.{Request, Response}
use matrix_corporal.Hook.{
  Hook, MaybeHook, no_hook, some_hook, hook, fields, action_consult_rest_service_url,
}
use matrix_corporal.Hook.Consulting.{
  consult, prepare_consulting_http_request_factory, call_rest_service_with_retries, call_from,
  attempts_count, wait_before, read_answer, async_result, contingency, pass_unmodified_hook,
  OutgoingRequest,
}
use matrix_corporal.Hook.Actions.{Executor}
use matrix_corporal.Hook.Executor.{typeless}

abbrev pub is_consulting : Hook → Bool
is_consulting h = text_eq (fields h).action action_consult_rest_service_url

-- How many hooks can be executed in a row, the first one included, when no REST service answers with
-- a hook that consults one again.
unfoldable mutual
  pub rounds : Hook → ℕ
  rounds (hook f async fallback) =
      let more = rounds_of async + rounds_of fallback in
      if text_eq f.action action_consult_rest_service_url then 1 + more else 1

  pub rounds_of : MaybeHook → ℕ
  rounds_of no_hook = 1
  rounds_of (some_hook h) = rounds h

pub rounds_pos : (h : Hook) → 0 < rounds h
unfolding rounds
rounds_pos (hook f async fallback) = ground arith

rounds_of_pos : (h : MaybeHook) → 0 < rounds_of h
unfolding rounds_of
rounds_of_pos no_hook = omega arith
rounds_of_pos (some_hook h) = rounds_pos h

rounds-quiet : (h : Hook) → is_consulting h ≡ false → rounds h ≡ 1
unfolding rounds
rounds-quiet (hook f async fallback) e = rw e refl

rounds-consulting : (h : Hook) → is_consulting h ≡ true → 1 < rounds h
unfolding rounds
rounds-consulting (hook f async fallback) e =
    rw e (ground (arith, rounds_of_pos async, rounds_of_pos fallback))

rounds-pass : rounds pass_unmodified_hook ≡ 1
unfolding rounds text_eq
rounds-pass = refl

rounds-async_result : (h : Hook) → is_consulting h ≡ true → rounds (async_result h) < rounds h
unfolding rounds rounds_of
rounds-async_result (hook f no_hook fallback) e =
    rw (e, rounds-pass) (ground (arith, rounds_of_pos fallback))
rounds-async_result (hook f (some_hook h) fallback) e =
    rw e (ground (arith, rounds_of_pos fallback))

rounds-contingency :
    (h c : Hook) → is_consulting h ≡ true → contingency h ≡ some c → rounds c < rounds h
unfolding rounds rounds_of
rounds-contingency (hook f async no_hook) c e k = cc
rounds-contingency (hook f async (some_hook h)) c e k =
    let same : h ≡ c = cc k in rw (← same, e) (ground (arith, rounds_of_pos async))

module _ {S : Type 0} (me : Executor S) where
  -- What a REST service answers with is not again a hook that consults a REST service.
  abbrev pub IsCalm : Type 0
  IsCalm =
      (bytes : Text) (h : Hook)
      → me.consultor.unmarshal_hook bytes ≡ ok h
      → text_eq (fields h).action action_consult_rest_service_url ≡ false

  module _ (calm : IsCalm) where
    abbrev IsQuiet : Result Text Hook → Type 0
    IsQuiet (ok h) = is_consulting h ≡ false
    IsQuiet (err e) = Unit

    read_answer-IsQuiet : (response : _) → IsQuiet (read_answer me.consultor response)
    unfolding read_answer
    read_answer-IsQuiet (err e) = tt
    read_answer-IsQuiet (ok response) = elim (Bool-cases (int_eq response.status_code (pos 200))) [
      | inr other ↦ rw other tt
      | inl fine ↦ elim (Result-cases response.body) [
        | inr (error, b) ↦ rw (fine, b) tt
        | inl (bytes, b) ↦ elim (Result-cases (me.consultor.unmarshal_hook bytes)) [
          | inr (error, u) ↦ rw (fine, b, u) tt
          | inl (answer, u) ↦ rw (fine, b, u) (calm bytes answer u)
        ]
      ]
    ]

    call_from-IsQuiet :
        (factory : Result Text OutgoingRequest) (h : Hook) (left n : ℕ) (e : Option Text) (s : S)
        → IsQuiet (call_from me.consultor factory h left n e s).0
    unfolding call_from
    call_from-IsQuiet factory h zero n e s = tt
    call_from-IsQuiet (err error) h (suc left) n e s = tt
    call_from-IsQuiet (ok request) h (suc left) n e s =
        let (given, s') = me.consultor.client_do request (wait_before me.consultor h n s) in
        elim (Result-cases (read_answer me.consultor given)) [
          | inl (answer, r) ↦ rw (r, call_from) (subst IsQuiet r (read_answer-IsQuiet given))
          | inr (error, r) ↦
              rw (r, call_from) (call_from-IsQuiet (ok request) h left (n + 1) (some error) s')
        ]

    -- What comes back needs fewer rounds.
    pub consult-rounds :
        (request : Request) (response : Option Response) (h a : Hook) (s : S)
        → is_consulting h ≡ true
        → (consult me.consultor request response h s).0 ≡ ok a
        → rounds a < rounds h
    unfolding consult call_rest_service_with_retries
    consult-rounds request response h a s consulting e =
        elim (Result-cases
          (prepare_consulting_http_request_factory me.consultor request response h)) [
            | inr (error, p) ↦ absurd (ground (arith, e, p))
            | inl (factory, p) ↦ elim (Bool-cases (fields h).rest.rest_service_async) [
              | inl async ↦
                  let same : async_result h ≡ a = ok-injective (rw (p, async, consult) at e) in
                  rw (← same) (rounds-async_result h consulting)
              | inr sync ↦
                  elim (Result-cases (call_rest_service_with_retries me.consultor factory h s).0) [
                    | inl (answer, r) ↦
                        let same : answer ≡ a = ok-injective (rw (p, sync, r, consult) at e) in
                        let quiet : is_consulting a ≡ false = rw (← same) (
                          subst IsQuiet r
                            (call_from-IsQuiet factory h (attempts_count h) 1 none s)) in
                        rw (rounds-quiet a quiet) (rounds-consulting h consulting)
                    | inr (error, r) ↦ elim (Option-cases (contingency h)) [
                      | inl c ↦ absurd (cc (rw (p, sync, r, c, consult) at e))
                      | inr (fallback, c) ↦
                          let same : fallback ≡ a =
                            ok-injective (rw (p, sync, r, c, consult) at e) in
                          rounds-contingency h a consulting (rw (← same) c)
                    ]
                  ]
            ]
          ]

  -- Only the action and the nested hooks count.
  pub rounds-typeless :
      (consulting answer : Hook) → rounds (typeless me consulting answer) ≡ rounds answer
  unfolding typeless rounds
  rounds-typeless consulting (hook f async fallback) = refl
