-- ===== src/Policy/Store/Safety.antt =====
-- What holds in every state of the policy store (corporal/policy/store.go).
use matrix_corporal.Base.{
  ℕ, ◌<◌, ◌≡◌, refl, ◌⊎◌, inl, inr, false, Option, none, some, List, [], ◌∷◌, ◌++◌, map, Text,
  arith, ok, err, ◌==◌, All, All-append, All-map, Bool-cases, Result-cases, subst,
}
use matrix_corporal.Policy.{Policy}
use matrix_corporal.Policy.Validator.{ValidationError, validate}
use matrix_corporal.Policy.Store.{
  Store, get, is_closed, get_notification_channel, remaining, close_channel, remove_channel, set,
  Taken, first, later, Step, sets, subscribes, closes, removes, sends, Reachable, starts, steps,
}

module _ (compile_error : Text → Option Text) (domain : Text) where
  -- The policy came out of the validator.
  abbrev pub IsAccepted : Policy → Type 0
  IsAccepted policy = (source : Policy) × (validate compile_error domain source ≡ ok policy)

  -- A listener's channel is open, or it is the one that is being destroyed.
  abbrev pub IsLive : (closed : List ℕ) (closing : Option ℕ) → ℕ → Type 0
  IsLive closed closing c = (is_closed c closed ≡ false) ⊎ (closing ≡ some c)

  abbrev pub IsSound : Store → Type 0
  IsSound me =
      ((policy : Policy) → get me ≡ some policy → IsAccepted policy)
      × All (λ send. IsAccepted send.1) me.pending
      × All (IsLive me.closed me.closing) me.listener_channels
      × All (λ c. c < me.made) me.closed

  not-closed : (n : ℕ) (closed : List ℕ) → All (λ c. c < n) closed → is_closed n closed ≡ false
  not-closed n [] h = refl
  not-closed n (c ∷ closed) h = ground (arith, h.0, not-closed n closed h.1)

  -- When no channel is being destroyed, all are open; after a `close`, all but the closed one.
  closed-IsLive :
      (channel : ℕ) (closed channels : List ℕ)
      → All (IsLive closed none) channels
      → All (IsLive (channel ∷ closed) (some channel)) channels
  closed-IsLive channel closed [] h = tt
  closed-IsLive channel closed (c ∷ channels) h =
      (ground (arith, h.0), closed-IsLive channel closed channels h.1)

  removed-IsLive :
      (channel : ℕ) (closed channels : List ℕ)
      → All (IsLive closed (some channel)) channels
      → All (IsLive closed none) (remaining channel channels)
  unfolding remaining
  removed-IsLive channel closed [] h = tt
  removed-IsLive channel closed (c ∷ channels) h = elim (Bool-cases (channel == c)) [
    | inl e ↦ rw e (removed-IsLive channel closed channels h.1)
    | inr e ↦ rw e (ground (arith, h.0), removed-IsLive channel closed channels h.1)
  ]

  announced :
      (policy : Policy) (channels : List ℕ)
      → IsAccepted policy
      → All (λ (send : ℕ × Policy). IsAccepted send.1) (map (λ c. (c, policy)) channels)
  announced policy [] h = tt
  announced policy (c ∷ channels) h = (h, announced policy channels h)

  others :
      {send : ℕ × Policy} {before after : List (ℕ × Policy)}
      → Taken compile_error domain send before after
      → All (λ (send : ℕ × Policy). IsAccepted send.1) before
      → All (λ (send : ℕ × Policy). IsAccepted send.1) after
  others first h = h.1
  others (later t) h = (h.0, others t h.1)

  after :
      (me : Store) (channel : ℕ) (me' : Store)
      → close_channel channel me ≡ some me'
      → record me { closed = channel ∷ me.closed; closing = some channel } ≡ me'
  unfolding close_channel
  after me channel me' e = ground arith

  -- `Set` either returns the validator's error and leaves the store as it was, or returns none,
  -- stores the policy that came out of the validator, and starts one send of it to each listener.
  pub set_cases :
      (policy : Policy) (me : Store)
      → ((e : ValidationError) × (validate compile_error domain policy ≡ err e)
          × (set compile_error domain policy me ≡ (some e, me)))
        ⊎ ((policy' : Policy) × (validate compile_error domain policy ≡ ok policy')
            × (set compile_error domain policy me ≡ (
              none,
              record me {
                policy = some policy';
                pending = me.pending ++ map (λ c. (c, policy')) me.listener_channels;
              },
            )))
  unfolding set
  set_cases policy me = elim (Result-cases (validate compile_error domain policy)) [
    | inl (policy', e) ↦ inr (policy', e, ground arith)
    | inr (wrong, e) ↦ inl (wrong, e, ground arith)
  ]

  set-IsSound :
      (policy : Policy) (me : Store) → IsSound me → IsSound (set compile_error domain policy me).1
  unfolding get
  set-IsSound policy me h = elim (set_cases policy me) [
    | inl (wrong, e, same) ↦ rw same h
    | inr (policy', e, same) ↦ rw same (
      (λ p found. (policy, ground arith)),
      All-append _ me.pending _ h.1 (announced policy' me.listener_channels (policy, e)),
      h.2,
      h.3,
    )
  ]

  Step-IsSound : {me me' : Store} → Step compile_error domain me me' → IsSound me → IsSound me'
  unfolding get get_notification_channel remove_channel
  Step-IsSound (sets me policy) h = set-IsSound policy me h
  Step-IsSound (subscribes me idle) (policy, pending, live, old) = (
    policy,
    pending,
    All-append _ me.listener_channels _ live (inl (not-closed me.made me.closed old), tt),
    All-map _ _ me.closed (λ c l. omega (arith, l)) old,
  )
  Step-IsSound (closes me me' channel known idle e) (policy, pending, live, old) =
      subst IsSound (after me channel me' e) (
        policy,
        pending,
        closed-IsLive channel me.closed me.listener_channels (rw idle at live),
        (known, old),
      )
  Step-IsSound (removes me channel closing) (policy, pending, live, old) = (
    policy,
    pending,
    removed-IsLive channel me.closed me.listener_channels (rw closing at live),
    old,
  )
  Step-IsSound (sends me send rest taken e) (policy, pending, live, old) =
      (policy, others taken pending, live, old)

  -- In every state that the store reaches, by any calls of its methods in any order and with the
  -- sends to the listeners in any order, the policy that `Get` returns and those on their way to the
  -- listeners came out of the validator, and a channel that is still listed is closed only while the
  -- call that destroys it is about to take it off the list.
  pub Reachable-IsSound : {me : Store} → Reachable compile_error domain me → IsSound me
  unfolding get
  Reachable-IsSound starts = ((λ p e. absurd (ground arith)), tt, tt, tt)
  Reachable-IsSound (steps r s) = Step-IsSound s (Reachable-IsSound r)
