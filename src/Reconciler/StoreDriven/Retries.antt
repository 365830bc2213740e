-- ===== src/Reconciler/StoreDriven/Retries.antt =====
-- Who holds the lock and which retriers go on (corporal/reconciliation/reconciler/storedriven.go).
use matrix_corporal.Base.{
  ◌≡◌, refl, ℕ, ◌+◌, ◌≤◌, arith, Bool, true, false, Option, some, List, [], ◌∷◌, All,
}
use matrix_corporal.Reconciler.StoreDriven.{
  Listener, reconciling, has_failed, Phase, retrying, Retrier, StoreDrivenReconciler, cancel_newest,
  RetrierStep, fires, takes_tick, takes_cancel, locks, succeeds, fails, OneSteps, newest, older,
  Step, receives, takes_lock, completes, gives_up, starts_retrier, retries, Reachable, starts,
  steps,
}

abbrev one_if : Bool → ℕ
one_if true = 1
one_if false = 0

one_if_le : (b : Bool) → one_if b ≤ 1
one_if_le true = omega arith
one_if_le false = omega arith

-- Whether a goroutine is between its lock and its unlock.
abbrev pub listener_holds : {P : Type 0} → Listener P → ℕ
listener_holds (reconciling policy) = 1
listener_holds _ = 0

abbrev pub phase_holds : Phase → ℕ
phase_holds retrying = 1
phase_holds _ = 0

module _ {P : Type 0} where
  abbrev pub retriers_hold : List (Retrier P) → ℕ
  retriers_hold [] = 0
  retriers_hold (r ∷ retriers) = phase_holds r.phase + retriers_hold retriers

  abbrev AllCancelled : List (Retrier P) → Type 0
  AllCancelled = All (λ r. r.cancelled ≡ true)

  -- Only the newest retrier may go on, and it retries the last policy that was taken.
  abbrev pub OnlyNewest : (has_ticker : Bool) → Option P → List (Retrier P) → Type 0
  OnlyNewest false taken retriers = AllCancelled retriers
  OnlyNewest true taken [] = true ≡ false
  OnlyNewest true taken (r ∷ retriers) = (taken ≡ some r.policy) × AllCancelled retriers

  -- The policy with which the listener is inside its lock, or has failed, is the last that was taken,
  -- and meanwhile no retrier may go on.
  abbrev pub Listens : StoreDrivenReconciler P → Listener P → Type 0
  Listens me (reconciling policy) = (me.taken ≡ some policy) × (me.has_ticker ≡ false)
  Listens me (has_failed policy) = (me.taken ≡ some policy) × (me.has_ticker ≡ false)
  Listens me _ = Unit

  abbrev pub IsOrderly : StoreDrivenReconciler P → Type 0
  IsOrderly me =
      (listener_holds me.listener + retriers_hold me.retriers ≡ one_if me.locked)
      × OnlyNewest me.has_ticker me.taken me.retriers
      × Listens me me.listener

  cancel_newest-hold :
      (b : Bool) (retriers : List (Retrier P))
      → retriers_hold (cancel_newest b retriers) ≡ retriers_hold retriers
  cancel_newest-hold false retriers = refl
  cancel_newest-hold true [] = refl
  cancel_newest-hold true (r ∷ retriers) = refl

  cancel_newest-AllCancelled :
      (b : Bool) (taken : Option P) (retriers : List (Retrier P))
      → OnlyNewest b taken retriers
      → AllCancelled (cancel_newest b retriers)
  cancel_newest-AllCancelled false taken retriers h = h
  cancel_newest-AllCancelled true taken [] h = tt
  cancel_newest-AllCancelled true taken (r ∷ retriers) h = (refl, h.1)

  -- A step of a retrier changes neither its policy nor its cancellation, and the lock with its phase.
  abbrev Keeps : (b : Bool) → Retrier P → (b' : Bool) → Retrier P → Type 0
  Keeps b r b' r' =
      (one_if b + phase_holds r'.phase ≡ one_if b' + phase_holds r.phase)
      × (r'.policy ≡ r.policy)
      × (r'.cancelled ≡ r.cancelled)

  step-Keeps :
      {b b' : Bool} {r r' : Retrier P} {done : List P}
      → RetrierStep b r b' r' done
      → Keeps b r b' r'
  step-Keeps (fires b r h) = (refl, refl, refl)
  step-Keeps (takes_tick b r h t) = (rw h refl, refl, refl)
  step-Keeps (takes_cancel b r h t) = (rw h refl, refl, refl)
  step-Keeps (locks r h) = (rw h refl, refl, refl)
  step-Keeps (succeeds r h) = (rw h refl, refl, refl)
  step-Keeps (fails r h) = (rw h refl, refl, refl)

  one-hold :
      {b b' : Bool} {rs rs' : List (Retrier P)} {done : List P}
      → OneSteps b rs b' rs' done
      → one_if b + retriers_hold rs' ≡ one_if b' + retriers_hold rs
  one-hold (newest rest step) = let k = step-Keeps step in omega (arith, k.0)
  one-hold (older r one) = let k = one-hold one in omega (arith, k)

  one-AllCancelled :
      {b b' : Bool} {rs rs' : List (Retrier P)} {done : List P}
      → OneSteps b rs b' rs' done
      → AllCancelled rs
      → AllCancelled rs'
  one-AllCancelled (newest rest step) h = (rw ((step-Keeps step).2) h.0, h.1)
  one-AllCancelled (older r one) h = (h.0, one-AllCancelled one h.1)

  one-OnlyNewest :
      {b b' : Bool} {rs rs' : List (Retrier P)} {done : List P} (has_ticker : Bool)
      (taken : Option P)
      → OneSteps b rs b' rs' done
      → OnlyNewest has_ticker taken rs
      → OnlyNewest has_ticker taken rs'
  one-OnlyNewest false taken one h = one-AllCancelled one h
  one-OnlyNewest true taken (newest rest step) h = (rw ((step-Keeps step).1) h.0, h.1)
  one-OnlyNewest true taken (older r one) h = (h.0, one-AllCancelled one h.1)

  Step-IsOrderly : {me me' : StoreDrivenReconciler P} → Step me me' → IsOrderly me → IsOrderly me'
  Step-IsOrderly (receives me policy l) o = (rw l at o.0, o.1, tt)
  Step-IsOrderly (takes_lock me policy l free) o =
      let none_holds : 0 + retriers_hold me.retriers ≡ 0 = rw (l, free) at o.0 in
      (
        omega (arith, cancel_newest-hold me.has_ticker me.retriers, none_holds),
        cancel_newest-AllCancelled me.has_ticker me.taken me.retriers o.1,
        (refl, refl),
      )
  Step-IsOrderly (completes me policy l) o =
      let alone : 1 + retriers_hold me.retriers ≡ one_if me.locked = rw l at o.0 in
      (omega (arith, one_if_le me.locked, alone), o.1, tt)
  Step-IsOrderly (gives_up me policy l) o =
      let alone : 1 + retriers_hold me.retriers ≡ one_if me.locked = rw l at o.0 in
      let taken : Listens me (reconciling policy) = rw l at o.2 in
      (omega (arith, one_if_le me.locked, alone), o.1, taken)
  Step-IsOrderly (starts_retrier me policy l) o =
      let taken : Listens me (has_failed policy) = rw l at o.2 in
      let stopped : OnlyNewest false me.taken me.retriers = rw taken.1 at o.1 in
      let quiet : 0 + retriers_hold me.retriers ≡ one_if me.locked = rw l at o.0 in
      (omega (arith, quiet), (taken.0, stopped), tt)
  Step-IsOrderly (retries me locked' retriers' done one) o =
      (omega (arith, one-hold one, o.0), one-OnlyNewest me.has_ticker me.taken one o.1, o.2)

  -- In every state that the store-driven reconciler can reach, the lock is held by exactly one
  -- goroutine when it is locked and by none when it is not, so that no two reconciliations run at the
  -- same time. Every retrier but the newest has been told to stop. The newest has too, unless the
  -- listener still knows its ticker, and then it retries the last policy that the listener has begun
  -- to reconcile.
  pub Reachable-IsOrderly : {me : StoreDrivenReconciler P} → Reachable me → IsOrderly me
  Reachable-IsOrderly starts = (refl, tt, tt)
  Reachable-IsOrderly (steps reachable step) = Step-IsOrderly step (Reachable-IsOrderly reachable)
