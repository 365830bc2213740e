-- ===== src/Hook/Consulting/Retries.antt =====
-- The consultation of a REST service (corporal/hook/rest_service_consulting.go): its attempts, what
-- it falls back to, and the context of its requests.
use matrix_corporal.Base.{
  ◌≡◌, refl, inl, inr, ◌⊎◌, ℕ, zero, suc, ◌+◌, ◌<◌, arith, true, false, Option, none, some,
  value_or, [], Text, text, text_eq, Result, ok, err, ok-injective, Bool-cases, Option-cases,
  Result-cases,
}
use matrix_corporal.Http.{Request, Response}
use matrix_corporal.Hook.{Hook, fields}
use matrix_corporal.Hook.Consulting.{
  Consultor, RestServiceConsultingRequest, OutgoingRequest, consult,
  prepare_consulting_http_request_payload, prepare_consulting_http_request_factory,
  consulting_http_request, call_rest_service_with_retries, call_from, read_answer, async_result,
  contingency, attempts_count, wait_before,
}

module _ {S : Type 0} (me : Consultor S) where
  abbrev HasFailed : Result Text Hook × S → Type 0
  HasFailed run = (e : Text) × (run.0 ≡ err e)

  module _ (request : OutgoingRequest) (h : Hook) where
    -- One attempt: the pause before it, the request, and the hook in the answer or an error.
    abbrev pub attempt : (attempt_number : ℕ) → S → Result Text Hook × S
    attempt attempt_number s =
        let (response, s') = me.client_do request (wait_before me h attempt_number s) in
        (read_answer me response, s')

    -- From number `n` on, `k` attempts fail, and then one answers.
    abbrev pub Answered : (k n : ℕ) → S → Hook → S → Type 0
    Answered zero n s answer s' = attempt n s ≡ (ok answer, s')
    Answered (suc k) n s answer s' =
        (e : Text) × ((attempt n s).0 ≡ err e) × Answered k (n + 1) (attempt n s).1 answer s'

    -- From number `n` on, `k` attempts fail.
    abbrev pub Failed : (k n : ℕ) → S → S → Type 0
    Failed zero n s s' = s ≡ s'
    Failed (suc k) n s s' =
        (e : Text) × ((attempt n s).0 ≡ err e) × Failed k (n + 1) (attempt n s).1 s'

    abbrev pub Called : (left n : ℕ) → S → Result Text Hook × S → Type 0
    Called left n s (ok answer, s') = (k : ℕ) × (k < left) × Answered k n s answer s'
    Called left n s (err e, s') = Failed left n s s'

    one_more :
        (left n : ℕ) (s : S) (run : Result Text Hook × S) (e : Text)
        → (attempt n s).0 ≡ err e
        → Called left (n + 1) (attempt n s).1 run
        → Called (suc left) n s run
    one_more left n s (ok answer, s') e fails (k, fewer, answered) =
        (suc k, omega arith, (e, fails, answered))
    one_more left n s (err error, s') e fails failed = (e, fails, failed)

    call_from-Called :
        (left n : ℕ) (last : Option Text) (s : S)
        → Called left n s (call_from me (ok request) h left n last s)
    unfolding call_from
    call_from-Called zero n last s = refl
    call_from-Called (suc left) n last s = elim (Result-cases (attempt n s).0) [
      | inl (answer, a) ↦ rw (a, call_from) (0, omega arith, rw a refl)
      | inr (e, a) ↦
          rw (a, call_from)
            (one_more left n s (call_from me (ok request) h left (n + 1) (some e) (attempt n s).1) e
              a (call_from-Called left (n + 1) (some e) (attempt n s).1))
    ]

  unprepared :
      (e : Text) (h : Hook) (left n : ℕ) (last : Option Text) (s : S)
      → let run = call_from me (err e) h left n last s in
        ((left ≡ 0) ⊎ (run.0 ≡ err e)) × HasFailed run × (run.1 ≡ s)
  unfolding call_from
  unprepared e h zero n last s = (inl refl, (_, refl), refl)
  unprepared e h (suc left) n last s = (inr refl, (_, refl), refl)

  -- What the loop does with a factory: when the factory gives a request, attempts as above; when it
  -- gives an error, no attempt, and that error.
  abbrev pub CalledWith : Result Text OutgoingRequest → Hook → S → Result Text Hook × S → Type 0
  CalledWith (ok request) h s run = Called request h (attempts_count h) 1 s run
  CalledWith (err e) h s run =
      ((attempts_count h ≡ 0) ⊎ (run.0 ≡ err e)) × HasFailed run × (run.1 ≡ s)

  -- With a factory that gives a request, the retry loop stops at the first attempt that answers with a
  -- hook, after fewer failed attempts than it may make, and ends with an error only when all of them,
  -- one and the retries, have failed. With a factory that gives an error, it makes no attempt, and
  -- ends with the factory's error unless it may make no attempt at all.
  pub call_rest_service_with_retries-Called :
      (factory : Result Text OutgoingRequest) (h : Hook) (s : S)
      → CalledWith factory h s (call_rest_service_with_retries me factory h s)
  unfolding call_rest_service_with_retries
  call_rest_service_with_retries-Called (ok request) h s =
      call_from-Called request h (attempts_count h) 1 none s
  call_rest_service_with_retries-Called (err e) h s = unprepared e h (attempts_count h) 1 none s

  -- A consultation that can be prepared does not fail if it is asynchronous or has a contingency hook,
  -- whatever the service does.
  pub consult-ok :
      (request : Request) (response : Option Response) (h : Hook) (s : S)
      (prepared : RestServiceConsultingRequest) (payload : Text)
      → text_eq (value_or [] (fields h).rest.rest_service_url) [] ≡ false
      → prepare_consulting_http_request_payload me request response h ≡ ok prepared
      → me.marshal_consulting_request prepared ≡ ok payload
      → (((fields h).rest.rest_service_async ≡ true) ⊎ ((c : Hook) × (contingency h ≡ some c)))
      → (answer : Hook) × ((consult me request response h s).0 ≡ ok answer)
  unfolding consult prepare_consulting_http_request_factory
  consult-ok request response h s prepared payload url read marshalled (inl async) =
      (async_result h, rw (url, read, marshalled, async, consult) refl)
  consult-ok request response h s prepared payload url read marshalled (inr (c, e)) =
      elim (Bool-cases (fields h).rest.rest_service_async) [
        | inl async ↦ (async_result h, rw (url, read, marshalled, async, consult) refl)
        | inr sync ↦
            elim (Result-cases
              (call_rest_service_with_retries me (consulting_http_request me h payload) h s).0) [
                | inl (answer, r) ↦ (answer, rw (url, read, marshalled, sync, r, consult) refl)
                | inr (error, r) ↦ (c, rw (url, read, marshalled, sync, r, e, consult) refl)
              ]
      ]

  -- The HTTP client sends no request whose context has been cancelled.
  abbrev pub RefusesCancelled : Type 0
  RefusesCancelled =
      (request : OutgoingRequest) (s : S)
      → request.cancelled ≡ true
      → (e : Text) × ((me.client_do request s).0 ≡ err e)

  module _ (refuses : RefusesCancelled) where
    call_from-HasFailed :
        (request : OutgoingRequest) (h : Hook)
        → request.cancelled ≡ true
        → (left n : ℕ) (last : Option Text) (s : S)
        → HasFailed (call_from me (ok request) h left n last s)
    unfolding call_from read_answer
    call_from-HasFailed request h cancelled zero n last s = (_, refl)
    call_from-HasFailed request h cancelled (suc left) n last s =
        let (e, r) = refuses request (wait_before me h n s) cancelled in
        rw (r, call_from)
          (call_from-HasFailed request h cancelled left (n + 1) (some _)
            (me.client_do request (wait_before me h n s)).1)

    call_rest_service_with_retries-HasFailed :
        (h : Hook) (payload : Text) (s : S)
        → HasFailed (call_rest_service_with_retries me (consulting_http_request me h payload) h s)
    unfolding call_rest_service_with_retries consulting_http_request
    call_rest_service_with_retries-HasFailed h payload s =
        let rest = (fields h).rest in
        elim (Option-cases (
          me.new_request_error (value_or (text "POST") (fields h).rest.rest_service_request_method)
            (value_or [] (fields h).rest.rest_service_url))) [
              | inr (error, p) ↦
                  rw (p, consulting_http_request, call_rest_service_with_retries)
                    (unprepared error h (attempts_count h) 1 none s).1
              | inl p ↦
                  rw (p, consulting_http_request, call_rest_service_with_retries)
                    (call_from-HasFailed _ h refl (attempts_count h) 1 none s)
            ]

    -- With an HTTP client that sends no request whose context has been cancelled, no synchronous
    -- consultation reaches its REST service: if it answers with a hook, that is the contingency hook.
    pub consult_falls_back :
        (request : Request) (response : Option Response) (h answer : Hook) (s : S)
        → (fields h).rest.rest_service_async ≡ false
        → (consult me request response h s).0 ≡ ok answer
        → contingency h ≡ some answer
    unfolding consult prepare_consulting_http_request_factory
    consult_falls_back request response h answer s sync e =
        elim (Bool-cases (text_eq (value_or [] (fields h).rest.rest_service_url) [])) [
          | inl empty ↦ absurd (cc (rw (empty, consult) at e))
          | inr url ↦
              elim (Result-cases (prepare_consulting_http_request_payload me request response h)) [
                | inr (error, p) ↦ absurd (cc (rw (url, p, consult) at e))
                | inl (prepared, p) ↦ elim (Result-cases (me.marshal_consulting_request prepared)) [
                  | inr (error, m) ↦ absurd (cc (rw (url, p, m, consult) at e))
                  | inl (payload, m) ↦
                      let (error, r) = call_rest_service_with_retries-HasFailed h payload s in
                      elim (Option-cases (contingency h)) [
                        | inl c ↦ absurd (cc (rw (url, p, m, sync, r, c, consult) at e))
                        | inr (fallback, c) ↦
                            rw (c, ok-injective (rw (url, p, m, sync, r, c, consult) at e)) refl
                      ]
                ]
              ]
        ]
