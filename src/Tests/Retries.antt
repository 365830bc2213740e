-- ===== src/Tests/Retries.antt =====
-- A run of the store-driven reconciler, in which a retry of an old policy outlives a new one.
use matrix_corporal.Base.{refl, true, false, some, [], ◌∷◌, Text, text}
use matrix_corporal.Reconciler.StoreDriven.{
  listening, ended, StoreDrivenReconciler, started, fires, takes_tick, locks, succeeds, newest,
  receives, takes_lock, completes, gives_up, starts_retrier, retries, Reachable, starts, steps,
}
use matrix_corporal.Reconciler.StoreDriven.Retries.{IsOrderly, Reachable-IsOrderly}

abbrev outlived : StoreDrivenReconciler Text
outlived = record {
  listener = listening;
  locked = false;
  has_ticker = false;
  retriers =
      record { policy = text "old"; phase = ended; ticking = false; tick = false; cancelled = true }
      ∷ [];
  taken = some (text "new");
  reconciled = text "old" ∷ text "new" ∷ [];
}

-- The retrier of the old policy has taken its tick before the listener cancels it, and then waits for
-- the lock.
outlived-Reachable : Reachable outlived
outlived-Reachable =
    let s0 = steps starts (receives started (text "old") refl) in
    let s1 = steps s0 (takes_lock _ (text "old") refl refl) in
    let s2 = steps s1 (gives_up _ (text "old") refl) in
    let s3 = steps s2 (starts_retrier _ (text "old") refl) in
    let s4 = steps s3 (retries _ false _ [] (newest [] (fires false _ refl))) in
    let s5 = steps s4 (retries _ false _ [] (newest [] (takes_tick false _ refl refl))) in
    let s6 = steps s5 (receives _ (text "new") refl) in
    let s7 = steps s6 (takes_lock _ (text "new") refl refl) in
    let s8 = steps s7 (completes _ (text "new") refl) in
    let s9 = steps s8 (retries _ true _ [] (newest [] (locks _ refl))) in
    steps s9 (retries _ false _ (text "old" ∷ []) (newest [] (succeeds _ refl)))

Reachable-IsOrderly_example : IsOrderly outlived
Reachable-IsOrderly_example = Reachable-IsOrderly outlived-Reachable
