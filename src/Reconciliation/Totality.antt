-- ===== src/Reconciliation/Totality.antt =====
-- What `Compute` returns (corporal/reconciliation/computator/computator.go).
use mathlib.Core.List.{Nodup-nil}
use matrix_corporal.Base.{
  ◌≡◌, refl, ap, ◌∙◌, ◌⊎◌, inl, inr, Option, none, some, List, [], ◌++◌, map, Mem, Nodup, Text,
  text_eq, GoMap, keys, Result, ok, err, All, Option-cases,
}
use matrix_corporal.Policy.{UserPolicy, Policy}
use matrix_corporal.Connector.State.{CurrentState}
use matrix_corporal.Reconciliation.{StateAction, State}
use matrix_corporal.Reconciliation.Computator.{computed_actions}
use matrix_corporal.Reconciliation.Compute.{ComputeError, random_panic, Groups, compute}
use matrix_corporal.Reconciliation.Emitted.{
  Covers, computed_actions-Yields, computed_actions-eq-none,
}
use matrix_corporal.Reconciliation.Grouping.{
  IsGroupable, other, power, without_powers, last_power, room_level, IsShaped,
  group_actions-Grouped, room_level-nil,
}

IsGroupable-Covers : Covers IsGroupable
unfolding text_eq
IsGroupable-Covers = record {
  create = λ u p. other refl;
  activate = λ u. other refl;
  deactivate = λ u. other refl;
  display_name = λ u n. other refl;
  avatar = λ u a. other refl;
  join = λ u r. other refl;
  leave = λ u r. other refl;
  power = λ u r l. power u r l refl;
}

abbrev nothing : Groups
nothing = record { grouped = []; by_room = [] }

-- What `Compute` makes of the users' actions.
abbrev pub IsGathered :
    (range : GoMap StateAction → GoMap StateAction) (actions : List StateAction)
    → Result ComputeError State
    → Type 0
IsGathered range actions result =
    (by_room : GoMap StateAction) × (result
      ≡ ok (record { actions = without_powers actions ++ map (λ e. e.1) (range by_room) }))
    × All IsShaped by_room
    × Nodup (keys by_room)
    × ((u r : Text) → room_level u r by_room ≡ last_power u r actions none)

-- `Compute` returns a state, unless the random source gives no bytes for a user of the policy, for
-- which it panics; there is no other error and no failed type assertion. The actions of the state are
-- those of the users but for the power level changes, in their order, and then those of a map, in the
-- order in which Go walks it. The map has one action for each of its rooms, no room twice. Each
-- action of the map is a `room.users_set_power_levels` for its key, and it holds, for each user, the
-- last level that the users' actions set in that room. The policy's lists have no null entries.
pub compute_total :
    (uri_hash : Text → Text) (random_password : UserPolicy → Option Text)
    (range : GoMap StateAction → GoMap StateAction) (current : CurrentState) (policy : Policy)
    → ((actions : List StateAction) × (computed_actions uri_hash random_password current policy
            policy.user
          ≡ some actions)
        × IsGathered range actions (compute uri_hash random_password range current policy))
      ⊎ ((compute uri_hash random_password range current policy ≡ err random_panic)
          × ((u : UserPolicy) × Mem u policy.user × (random_password u ≡ none)))
unfolding compute
compute_total uri_hash random_password range current policy =
    elim (Option-cases (computed_actions uri_hash random_password current policy policy.user)) [
      | inl panics ↦ inr (
        rw panics refl,
        computed_actions-eq-none uri_hash random_password current policy policy.user panics,
      )
      | inr (actions, drawn) ↦
          let all =
            computed_actions-Yields IsGroupable IsGroupable-Covers uri_hash random_password current
              policy policy.user actions drawn in
          let (g, e, p) = group_actions-Grouped nothing actions all tt Nodup-nil in
          inl (
            actions,
            drawn,
            (
              g.by_room,
              rw drawn (
                  rw e (
                    ap (λ l. ok (record { actions = l ++ map (λ e. e.1) (range g.by_room) }))
                      p.kept)),
              p.shaped,
              p.distinct,
              λ u r. p.levels u r ∙ ap (last_power u r actions) (room_level-nil u r),
            ),
          )
    ]
