-- ===== src/Policy/Store.antt =====
-- corporal/policy/store.go: the store of the current policy, and its listeners. A channel is named
-- by a number, in the order of `make`.
pub mod Safety
use matrix_corporal.Base.{
  ℕ, ◌+◌, ◌<◌, ◌≡◌, Bool, true, false, Option, none, some, List, [], ◌∷◌, ◌++◌, map, Text, ok, err,
  ◌==◌, if◌then◌else◌,
}
use mathlib.Core.Option
use matrix_corporal.Policy.{Policy}
use matrix_corporal.Policy.Validator.{ValidationError, validate}

-- `pending` are the goroutines of `Set` that wait to send, each with its channel and policy.
-- `closing` is the channel that a call of `DestroyNotificationChannel` has closed and not yet taken
-- off the list, while it holds `lockListeners`.
pub record Store : Type 0 where
  pub policy : Option Policy
  pub listener_channels : List ℕ
  pub pending : List (ℕ × Policy)
  pub closed : List ℕ
  pub closing : Option ℕ
  pub made : ℕ

abbrev pub new_store : Store
new_store = record {
  policy = none;
  listener_channels = [];
  pending = [];
  closed = [];
  closing = none;
  made = 0;
}

unfoldable pub get : Store → Option Policy
get me = me.policy

abbrev pub is_closed : ℕ → List ℕ → Bool
is_closed channel [] = false
is_closed channel (c ∷ closed) = if c == channel then true else is_closed channel closed

unfoldable pub get_notification_channel : Store → ℕ × Store
get_notification_channel me = (
  me.made,
  record me { made = me.made + 1; listener_channels = me.listener_channels ++ me.made ∷ [] },
)

-- The loop that keeps the other channels.
unfoldable pub remaining : ℕ → List ℕ → List ℕ
remaining channel [] = []
remaining channel (c ∷ channels) =
    if channel == c then remaining channel channels else c ∷ remaining channel channels

-- `DestroyNotificationChannel` has two parts, between which `Set`, which takes another lock, may run.
-- The first is `close(channel)`, where `none` is the panic on a closed channel.
unfoldable pub close_channel : ℕ → Store → Option Store
close_channel channel me =
    if is_closed channel me.closed
    then none
    else some (record me { closed = channel ∷ me.closed; closing = some channel })

-- The second takes the channel off the list.
unfoldable pub remove_channel : ℕ → Store → Store
remove_channel channel me = record me {
  listener_channels = remaining channel me.listener_channels;
  closing = none;
}

unfoldable pub destroy_notification_channel : ℕ → Store → Option Store
destroy_notification_channel channel me =
    Option.map (remove_channel channel) (close_channel channel me)

module _ (compile_error : Text → Option Text) (homeserver_domain_name : Text) where
  unfoldable pub set : Policy → Store → Option ValidationError × Store
  set policy me = elim (validate compile_error homeserver_domain_name policy) [
    | err e ↦ (some e, me)
    | ok policy' ↦ (
      none,
      record me {
        policy = some policy';
        pending = me.pending ++ map (λ c. (c, policy')) me.listener_channels;
      },
    )
  ]

  -- A send is one of those that wait, and these are the others.
  pub data Taken (send : ℕ × Policy) : (before after : List (ℕ × Policy)) → Type 0 where
    first : {sends : List (ℕ × Policy)} → Taken send (send ∷ sends) sends
    later :
        {other : ℕ × Policy} {sends rest : List (ℕ × Policy)}
        → Taken send sends rest
        → Taken send (other ∷ sends) (other ∷ rest)

  -- The methods of the store, and the sends, which wait in no order. `lockListeners` lets one call of
  -- the listeners' methods in at a time. `Set` reads the list once, under `lockPolicy`, which keeps
  -- out `Get` and other calls of `Set` only.
  pub data Step : Store → Store → Type 0 where
    sets : (me : Store) (policy : Policy) → Step me (set policy me).1
    subscribes : (me : Store) → me.closing ≡ none → Step me (get_notification_channel me).1
    closes :
        (me me' : Store) (channel : ℕ)
        → channel < me.made
        → me.closing ≡ none
        → close_channel channel me ≡ some me'
        → Step me me'
    removes :
        (me : Store) (channel : ℕ) → me.closing ≡ some channel → Step me (remove_channel channel me)
    sends :
        (me : Store) (send : ℕ × Policy) (rest : List (ℕ × Policy))
        → Taken send me.pending rest
        → is_closed send.0 me.closed ≡ false
        → Step me (record me { pending = rest })

  pub data Reachable : Store → Type 0 where
    starts : Reachable new_store
    steps : {me me' : Store} → Reachable me → Step me me' → Reachable me'
