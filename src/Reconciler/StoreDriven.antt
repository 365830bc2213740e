-- ===== src/Reconciler/StoreDriven.antt =====
-- corporal/reconciliation/reconciler/storedriven.go: the goroutine that listens for policies and the
-- goroutines that retry, as steps between the points at which they wait. `P` is the type of policies.
pub mod Retries
use matrix_corporal.Base.{◌≡◌, Bool, true, false, Option, none, some, List, [], ◌∷◌}

-- Where `listenOnChannel` stands with a policy: before its lock, inside it, and after a failure.
pub data Listener (P : Type 0) : Type 0 where
  listening : Listener P
  wants_lock : P → Listener P
  reconciling : P → Listener P
  has_failed : P → Listener P

-- Where `retryReconciliation` stands: at its `select`, before the lock, inside it, or ended.
pub data Phase : Type 0 where
  selecting waiting retrying ended : Phase

-- A goroutine of `retryReconciliation`. `ticking` says that its ticker has not been stopped, `tick`
-- that a tick waits in the ticker's channel, and `cancelled` that its cancel channel has a value.
pub record Retrier (P : Type 0) : Type 0 where
  pub policy : P
  pub phase : Phase
  pub ticking : Bool
  pub tick : Bool
  pub cancelled : Bool

-- `locked` is `lockReconciler`. `retriers` are all that were started, the newest first, and
-- `has_ticker` says that `retryTicker` and `retryCancel` are set, to those of the newest. `taken` is
-- the last policy that the listener has taken the lock with, and `reconciled` are the policies whose
-- reconciliation has succeeded, the newest first.
pub record StoreDrivenReconciler (P : Type 0) : Type 0 where
  pub listener : Listener P
  pub locked : Bool
  pub has_ticker : Bool
  pub retriers : List (Retrier P)
  pub taken : Option P
  pub reconciled : List P

module _ {P : Type 0} where
  abbrev pub started : StoreDrivenReconciler P
  started = record {
    listener = listening;
    locked = false;
    has_ticker = false;
    retriers = [];
    taken = none;
    reconciled = [];
  }

  abbrev pub cancel : Retrier P → Retrier P
  cancel r = record r { ticking = false; cancelled = true }

  -- `if me.retryTicker != nil { me.retryTicker.Stop(); me.retryCancel <- true }`
  abbrev pub cancel_newest : (has_ticker : Bool) → List (Retrier P) → List (Retrier P)
  cancel_newest false retriers = retriers
  cancel_newest true [] = []
  cancel_newest true (r ∷ retriers) = cancel r ∷ retriers

  abbrev pub new_retrier : P → Retrier P
  new_retrier policy = record {
    policy = policy;
    phase = selecting;
    ticking = true;
    tick = false;
    cancelled = false;
  }

  -- A step of a retrier, with the lock before and after it, and the policy that it has reconciled.
  pub data RetrierStep : Bool → Retrier P → Bool → Retrier P → List P → Type 0 where
    fires :
        (b : Bool) (r : Retrier P)
        → r.ticking ≡ true
        → RetrierStep b r b (record r { tick = true }) []
    takes_tick :
        (b : Bool) (r : Retrier P)
        → r.phase ≡ selecting
        → r.tick ≡ true
        → RetrierStep b r b (record r { phase = waiting; tick = false }) []
    takes_cancel :
        (b : Bool) (r : Retrier P)
        → r.phase ≡ selecting
        → r.cancelled ≡ true
        → RetrierStep b r b (record r { phase = ended }) []
    locks :
        (r : Retrier P)
        → r.phase ≡ waiting
        → RetrierStep false r true (record r { phase = retrying }) []
    succeeds :
        (r : Retrier P)
        → r.phase ≡ retrying
        → RetrierStep true r false (record r { phase = ended; ticking = false }) (r.policy ∷ [])
    fails :
        (r : Retrier P)
        → r.phase ≡ retrying
        → RetrierStep true r false (record r { phase = selecting }) []

  -- One of the retriers takes a step.
  pub data OneSteps : Bool → List (Retrier P) → Bool → List (Retrier P) → List P → Type 0 where
    newest :
        {b b' : Bool} {r r' : Retrier P} {done : List P} (rest : List (Retrier P))
        → RetrierStep b r b' r' done
        → OneSteps b (r ∷ rest) b' (r' ∷ rest) done
    older :
        {b b' : Bool} {rest rest' : List (Retrier P)} {done : List P} (r : Retrier P)
        → OneSteps b rest b' rest' done
        → OneSteps b (r ∷ rest) b' (r ∷ rest') done

  abbrev pub add_done : List P → List P → List P
  add_done [] reconciled = reconciled
  add_done (p ∷ done) reconciled = p ∷ add_done done reconciled

  pub data Step : StoreDrivenReconciler P → StoreDrivenReconciler P → Type 0 where
    -- `policy, more := <-channel`
    receives :
        (me : StoreDrivenReconciler P) (policy : P)
        → me.listener ≡ listening
        → Step me (record me { listener = wants_lock policy })
    -- `me.lockReconciler.Lock()`, and the cancellation of the newest retrier
    takes_lock :
        (me : StoreDrivenReconciler P) (policy : P)
        → me.listener ≡ wants_lock policy
        → me.locked ≡ false
        → Step me (record me {
          listener = reconciling policy;
          locked = true;
          has_ticker = false;
          retriers = cancel_newest me.has_ticker me.retriers;
          taken = some policy;
        })
    -- `Reconcile` without an error, and the end of the lock
    completes :
        (me : StoreDrivenReconciler P) (policy : P)
        → me.listener ≡ reconciling policy
        → Step me (record me {
          listener = listening;
          locked = false;
          reconciled = policy ∷ me.reconciled;
        })
    -- `Reconcile` with an error, and the end of the lock
    gives_up :
        (me : StoreDrivenReconciler P) (policy : P)
        → me.listener ≡ reconciling policy
        → Step me (record me { listener = has_failed policy; locked = false })
    -- The new ticker, and `go me.retryReconciliation(...)`
    starts_retrier :
        (me : StoreDrivenReconciler P) (policy : P)
        → me.listener ≡ has_failed policy
        → Step me (record me {
          listener = listening;
          has_ticker = true;
          retriers = new_retrier policy ∷ me.retriers;
        })
    retries :
        (me : StoreDrivenReconciler P) (locked' : Bool) (retriers' : List (Retrier P))
        (done : List P)
        → OneSteps me.locked me.retriers locked' retriers' done
        → Step me (record me {
          locked = locked';
          retriers = retriers';
          reconciled = add_done done me.reconciled;
        })

  pub data Reachable : StoreDrivenReconciler P → Type 0 where
    starts : Reachable started
    steps : {me me' : StoreDrivenReconciler P} → Reachable me → Step me me' → Reachable me'
