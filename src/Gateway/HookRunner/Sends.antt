-- ===== src/Gateway/HookRunner/Sends.antt =====
-- The responses that the hook runner gives (corporal/httpgateway/hookrunner).
use matrix_corporal.Base.{
  ◌≡◌, refl, ap, inl, inr, Bool, true, false, Option, none, some, is_some, List, [], ◌∷◌, ◌++◌,
  arith, Text, text, text_eq, Result, ok, err, Bool-cases, Option-cases, Result-cases, subst,
}
use matrix_corporal.Hook.{Hook, fields, hook_matches_request}
use matrix_corporal.Matrix.{error_unknown}
use matrix_corporal.Hook.Execution.{Halt, ExecutionResult, next_hooks_in_chain_can_run}
use matrix_corporal.Gateway.HookRunner.{
  Reply, matrix_error, Exchange, Surroundings, respond_with_matrix_error, run_hook, run_hooks_from,
  run_all_matching_type,
}

-- The replies after a step that has sent one, or has not.
abbrev pub Sends : {Modifier : Type 0} → Bool → (before after : List (Reply Modifier)) → Type 0
Sends {Modifier} true before after = (reply : Reply Modifier) × (after ≡ reply ∷ before)
Sends false before after = after ≡ before

module _ {S Modifier : Type 0} where
  abbrev pub Ran :
      Result Halt (ExecutionResult Modifier × Exchange S Modifier) → List (Reply Modifier) → Type 0
  Ran (err halt) before = Unit
  Ran (ok done) before = Sends done.0.response_sent before done.1.replies

  -- A hook that has failed has sent nothing.
  abbrev pub IsSilent : Result Halt (ExecutionResult Modifier × Exchange S Modifier) → Type 0
  IsSilent (err halt) = Unit
  IsSilent (ok done) = is_some done.0.processing_error ≡ true → done.0.response_sent ≡ false

  -- What the hook executor promises: it says whether it has sent a response, and it sends none when
  -- it reports an error.
  pub record IsExecutor (me : Surroundings S Modifier) : Type 0 where
    pub sends : (h : Hook) (x : Exchange S Modifier) → Ran (me.execute h x) x.replies
    pub sends_no_error : (h : Hook) (x : Exchange S Modifier) → IsSilent (me.execute h x)

  module _ (me : Surroundings S Modifier) (laws : IsExecutor me) where
    run_hook-Ran : (h : Hook) (x : Exchange S Modifier) → Ran (run_hook me h x) x.replies
    unfolding run_hook
    run_hook-Ran h x = failing (me.execute h x) (laws.sends h x) (laws.sends_no_error h x)
      where
        answered :
            (done : ExecutionResult Modifier × Exchange S Modifier) (error : Option Text)
            → done.0.processing_error ≡ error
            → Sends done.0.response_sent x.replies done.1.replies
            → (is_some error ≡ true → done.0.response_sent ≡ false)
            → Ran
                (elim error [
                  | none ↦ ok done
                  | some e ↦ ok (
                    record done.0 { response_sent = true },
                    respond_with_matrix_error 503 error_unknown
                        (text "Hook execution failed, cannot proceed")
                        done.1,
                  )
                ])
                x.replies
        answered done none same sent silent = sent
        answered done (some e) same sent silent = (
          matrix_error 503 error_unknown (text "Hook execution failed, cannot proceed"),
          ap
              (λ l.
                matrix_error 503 error_unknown (text "Hook execution failed, cannot proceed") ∷ l)
              (subst (λ b. Sends b x.replies done.1.replies) (silent refl) sent),
        )

        failing :
            (run : Result Halt (ExecutionResult Modifier × Exchange S Modifier))
            → Ran run x.replies
            → IsSilent run
            → Ran
                (elim run [
                  | err halt ↦ err halt
                  | ok done ↦ elim done.0.processing_error [
                    | none ↦ ok done
                    | some e ↦ ok (
                      record done.0 { response_sent = true },
                      respond_with_matrix_error 503 error_unknown
                          (text "Hook execution failed, cannot proceed")
                          done.1,
                    )
                  ]
                ])
                x.replies
        failing (err halt) sent silent = tt
        failing (ok done) sent silent = answered done done.0.processing_error refl sent silent

    -- The next hooks run only after a hook that has sent nothing.
    quiet :
        {before : List (Reply Modifier)} (result : ExecutionResult Modifier)
        (after : List (Reply Modifier))
        → next_hooks_in_chain_can_run result ≡ true
        → Sends result.response_sent before after
        → after ≡ before
    unfolding next_hooks_in_chain_can_run
    quiet {before} result after more h =
        subst (λ b. Sends b before after) {x = result.response_sent} {y = false} (ground arith) h

    run_hooks_from-Ran :
        (event_type : Text) (hooks executed : List Hook) (modifiers : List Modifier)
        (x : Exchange S Modifier)
        → Ran (run_hooks_from me event_type hooks executed modifiers x) x.replies
    unfolding run_hooks_from next_hooks_in_chain_can_run
    run_hooks_from-Ran event_type [] executed modifiers x = refl
    run_hooks_from-Ran event_type (h ∷ hooks) executed modifiers x =
        let skipped = run_hooks_from-Ran event_type hooks executed modifiers x in
        elim (Bool-cases (text_eq (fields h).event_type event_type)) [
          | inr other ↦ rw (other, run_hooks_from) skipped
          | inl same ↦
              elim (Result-cases
                (hook_matches_request me.compile_error me.match_string (fields h) x.request)) [
                  | inr (message, m) ↦ rw (same, m, run_hooks_from) tt
                  | inl (matched, m) ↦ elim (Bool-cases matched.1) [
                    | inr miss ↦ rw (same, m, miss, run_hooks_from) skipped
                    | inl hit ↦ elim (Result-cases (run_hook me h x)) [
                      | inr (halt, r) ↦ rw (same, m, hit, r, run_hooks_from) tt
                      | inl (done, r) ↦
                          let ran : Sends done.0.response_sent x.replies done.1.replies =
                            subst (λ run. Ran run x.replies) r (run_hook-Ran h x) in
                          let next =
                            run_hooks_from-Ran event_type hooks (executed ++ h ∷ [])
                              (modifiers ++ done.0.reverse_proxy_response_modifiers) done.1 in
                          elim (Bool-cases (next_hooks_in_chain_can_run done.0)) [
                            | inr last ↦ rw (same, m, hit, r, last, run_hooks_from) ran
                            | inl more ↦
                                rw (same, m, hit, r, more, run_hooks_from)
                                  (subst (Ran _) (quiet done.0 done.1.replies more ran) next)
                          ]
                    ]
                  ]
                ]
        ]

    pub run_all_matching_type-Ran :
        (event_type : Text) (x : Exchange S Modifier)
        → Ran (run_all_matching_type me event_type x) x.replies
    unfolding run_all_matching_type
    run_all_matching_type-Ran event_type x = elim (Option-cases (me.get_policy x.outside).0) [
      | inl e ↦
          rw (e, run_all_matching_type)
            (
              matrix_error 503 error_unknown (text "Policy does not exist (yet), cannot proceed"),
              refl,
            )
      | inr (policy, e) ↦
          rw (e, run_all_matching_type) (run_hooks_from-Ran event_type policy.hooks [] [] _)
    ]
