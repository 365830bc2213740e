-- ===== src/Reconciliation/Grouping.antt =====
-- The grouping of power level changes (`Compute` of
-- corporal/reconciliation/computator/computator.go).
use mathlib.Core.List.{append-nil, append_assoc}
use matrix_corporal.Base.{
  ◌≡◌, refl, sym, ap, ◌∙◌, ℤ, false, inl, inr, Option, none, some, List, [], ◌∷◌, ◌++◌, arith, Text,
  text, text_eq, text_eq_iff, GoMap, lookup, insert, lookup-insert, keys, insert-Nodup, Nodup, ok,
  err, All, if◌then◌else◌, Bool-cases, Option-cases,
}
use matrix_corporal.Reconciliation.{
  StateAction, powers, get_string_payload_data_by_key, get_int_payload_data_by_key,
  action_room_user_set_power_level,
}
use matrix_corporal.Reconciliation.Computator.{
  room_user_set_power_level, room_users_set_power_levels,
}
use matrix_corporal.Reconciliation.Compute.{
  Groups, room_power_payload, set_room_power, group_action, group_actions,
}

-- An action that sets one user's level has the payload that the grouping expects.
pub data IsGroupable (action : StateAction) : Type 0 where
  other : text_eq action.type action_room_user_set_power_level ≡ false → IsGroupable action
  power : (u r : Text) (l : ℤ) → action ≡ room_user_set_power_level u r l → IsGroupable action

-- The action of a room in the map has the payload that a later write expects.
abbrev pub IsShaped : Text × StateAction → Type 0
IsShaped e = (levels : GoMap ℤ) × (e.1 ≡ room_users_set_power_levels e.0 levels)

-- The actions that the grouping leaves in their order.
unfoldable pub without_powers : List StateAction → List StateAction
without_powers [] = []
without_powers (a ∷ actions) =
    if text_eq a.type action_room_user_set_power_level
    then without_powers actions
    else a ∷ without_powers actions

-- The level that an action sets for a user in a room, and the last one that a list sets.
unfoldable pub power_of : (u r : Text) → StateAction → Option ℤ
power_of u r a =
    if text_eq a.type action_room_user_set_power_level
    then elim (get_string_payload_data_by_key a (text "userId")) [
      | ok u' ↦ elim (get_string_payload_data_by_key a (text "roomId")) [
        | ok r' ↦ elim (get_int_payload_data_by_key a (text "powerLevel")) [
          | ok l ↦ if text_eq r' r then (if text_eq u' u then some l else none) else none
          | err _ ↦ none
        ]
        | err _ ↦ none
      ]
      | err _ ↦ none
    ]
    else none

abbrev pub override : Option ℤ → Option ℤ → Option ℤ
override none old = old
override (some l) old = some l

unfoldable pub last_power : (u r : Text) → List StateAction → Option ℤ → Option ℤ
last_power u r [] acc = acc
last_power u r (a ∷ actions) acc = last_power u r actions (override (power_of u r a) acc)

-- The levels that the map holds for a room, and a user's among them.
unfoldable pub levels_of : Text → GoMap StateAction → GoMap ℤ
levels_of r by_room = elim (lookup r by_room) [
  | none ↦ []
  | some a ↦ elim (room_power_payload a) [ ok levels ↦ levels | err _ ↦ [] ]
]

unfoldable pub room_level : (u r : Text) → GoMap StateAction → Option ℤ
room_level u r by_room = lookup u (levels_of r by_room)

program : Unit {0}
unfolding power_of text_eq get_string_payload_data_by_key get_int_payload_data_by_key lookup
program = tt

power_of_literal :
    (u r u' r' : Text) (l : ℤ)
    → power_of u r (room_user_set_power_level u' r' l)
      ≡ (if text_eq r' r then (if text_eq u' u then some l else none) else none)
unfolding program
power_of_literal u r u' r' l = refl

All-insert :
    (k : Text) (a : StateAction) (m : GoMap StateAction)
    → IsShaped (k, a)
    → All IsShaped m
    → All IsShaped (insert k a m)
unfolding insert
All-insert k a [] p h = (p, tt)
All-insert k a ((j, b) ∷ m) p h = elim (Bool-cases (text_eq j k)) [
  | inl e ↦ rw e (rw (← (text_eq_iff j k).0 e) at p, h.1)
  | inr e ↦ rw e (h.0, All-insert k a m p h.1)
]

lookup-IsShaped :
    (k : Text) (a : StateAction) (m : GoMap StateAction)
    → All IsShaped m
    → lookup k m ≡ some a
    → IsShaped (k, a)
unfolding lookup
lookup-IsShaped k a [] h e = cc
lookup-IsShaped k a ((j, b) ∷ m) h e = elim (Bool-cases (text_eq j k)) [
  | inl same ↦
      let b≡a : b ≡ a = ground arith in
      (
        h.0.0,
        sym b≡a ∙ h.0.1 ∙ ap (λ t. room_users_set_power_levels t h.0.0) ((text_eq_iff j k).0 same),
      )
  | inr differs ↦ lookup-IsShaped k a m h.1 (rw differs at e)
]

room_power_payload_literal :
    (r : Text) (levels : GoMap ℤ)
    → room_power_payload (room_users_set_power_levels r levels) ≡ ok levels
unfolding room_power_payload lookup text_eq
room_power_payload_literal r levels = refl

write_literal :
    (r : Text) (old new : GoMap ℤ)
    → insert (text "roomPowerForUserId") (powers new) (room_users_set_power_levels r old).payload
      ≡ (room_users_set_power_levels r new).payload
unfolding insert text_eq
write_literal r old new = refl

-- The map after a write of a level.
abbrev pub written : (r : Text) → ℤ → (u : Text) → GoMap StateAction → GoMap StateAction
written r l u m = insert r (room_users_set_power_levels r (insert u l (levels_of r m))) m

set_room_power-written :
    (r : Text) (l : ℤ) (u : Text) (m : GoMap StateAction)
    → All IsShaped m
    → set_room_power r l u m ≡ ok (written r l u m)
unfolding set_room_power levels_of
set_room_power-written r l u m h = elim (Option-cases (lookup r m)) [
  | inl new ↦ ground arith
  | inr (a, old) ↦
      let (levels, shape) = lookup-IsShaped r a m h old in
      ground (
        arith,
        shape,
        room_power_payload_literal r levels,
        write_literal r levels (insert u l levels),
      )
]

written-IsShaped :
    (r : Text) (l : ℤ) (u : Text) (m : GoMap StateAction)
    → All IsShaped m
    → All IsShaped (written r l u m)
written-IsShaped r l u m h = All-insert r _ m (insert u l (levels_of r m), refl) h

room_level-written :
    (u r u' r' : Text) (l : ℤ) (m : GoMap StateAction)
    → room_level u r (written r' l u' m)
      ≡ override
          (if text_eq r' r then (if text_eq u' u then some l else none) else none)
          (room_level u r m)
unfolding room_level levels_of
room_level-written u r u' r' l m = ground (
  arith,
  text_eq_iff r' r,
  lookup-insert r' r (room_users_set_power_levels r' (insert u' l (levels_of r' m))) m,
  room_power_payload_literal r' (insert u' l (levels_of r' m)),
  lookup-insert u' u l (levels_of r' m),
)

group_action_power :
    (g : Groups) (u r : Text) (l : ℤ)
    → All IsShaped g.by_room
    → group_action g (room_user_set_power_level u r l)
      ≡ ok (record g { by_room = written r l u g.by_room })
unfolding group_action program
group_action_power g u r l h = ground (arith, set_room_power-written r l u g.by_room h)

-- What a stretch of the loop makes of the two collections.
pub record Grouped (g : Groups) (actions : List StateAction) (g' : Groups) : Type 0 where
  pub shaped : All IsShaped g'.by_room
  pub distinct : Nodup (keys g'.by_room)
  pub kept : g'.grouped ≡ g.grouped ++ without_powers actions
  pub levels :
      (u r : Text) → room_level u r g'.by_room ≡ last_power u r actions (room_level u r g.by_room)

power_of_other :
    (u r : Text) (a : StateAction)
    → text_eq a.type action_room_user_set_power_level ≡ false
    → power_of u r a ≡ none
unfolding power_of
power_of_other u r a h = rw h

without_powers_literal :
    (u r : Text) (l : ℤ) → without_powers (room_user_set_power_level u r l ∷ []) ≡ []
unfolding without_powers text_eq
without_powers_literal u r l = refl

Grouped-round :
    (g : Groups) (a : StateAction)
    → IsGroupable a
    → All IsShaped g.by_room
    → Nodup (keys g.by_room)
    → (g' : Groups) × (group_action g a ≡ ok g') × Grouped g (a ∷ []) g'
unfolding group_action last_power
Grouped-round g a (other e) h once = (
  record g { grouped = g.grouped ++ a ∷ [] },
  rw e,
  record {
    shaped = h;
    distinct = once;
    kept = unfold without_powers in rw e;
    levels = λ u r. ap (λ o. override o (room_level u r g.by_room)) (sym (power_of_other u r a e));
  },
)
Grouped-round g a (power u r l e) h once = (
  record g { by_room = written r l u g.by_room },
  ap (group_action g) e ∙ group_action_power g u r l h,
  record {
    shaped = written-IsShaped r l u g.by_room h;
    distinct = insert-Nodup r _ g.by_room once;
    kept =
        sym (append-nil g.grouped)
        ∙ ap (λ t. g.grouped ++ t)
            (sym (ap (λ x. without_powers (x ∷ [])) e ∙ without_powers_literal u r l));
    levels = λ u' r'.
        room_level-written u' r' u r l g.by_room
        ∙ ap (λ o. override o (room_level u' r' g.by_room))
            (sym (ap (power_of u' r') e ∙ power_of_literal u' r' u r l));
  },
)

without_powers-cons :
    (a : StateAction) (actions : List StateAction)
    → without_powers (a ∷ []) ++ without_powers actions ≡ without_powers (a ∷ actions)
unfolding without_powers
without_powers-cons a actions = ground arith

Grouped-cons :
    (g g₁ g₂ : Groups) (a : StateAction) (actions : List StateAction)
    → Grouped g (a ∷ []) g₁
    → Grouped g₁ actions g₂
    → Grouped g (a ∷ actions) g₂
unfolding last_power
Grouped-cons g g₁ g₂ a actions p q = record {
  shaped = q.shaped;
  distinct = q.distinct;
  kept =
      q.kept
      ∙ ap (λ t. t ++ without_powers actions) p.kept
      ∙ append_assoc g.grouped (without_powers (a ∷ [])) (without_powers actions)
      ∙ ap (λ t. g.grouped ++ t) (without_powers-cons a actions);
  levels = λ u r. q.levels u r ∙ ap (last_power u r actions) (p.levels u r);
}

-- The whole loop succeeds.
pub group_actions-Grouped :
    (g : Groups) (actions : List StateAction)
    → All IsGroupable actions
    → All IsShaped g.by_room
    → Nodup (keys g.by_room)
    → (g' : Groups) × (group_actions g actions ≡ ok g') × Grouped g actions g'
unfolding group_actions
group_actions-Grouped g [] ok_actions h once = (
  g,
  refl,
  record {
    shaped = h;
    distinct = once;
    kept = unfold without_powers in sym (append-nil g.grouped);
    levels = λ u r. unfold last_power in refl;
  },
)
group_actions-Grouped g (a ∷ actions) ok_actions h once =
    let (g₁, e₁, p) = Grouped-round g a ok_actions.0 h once in
    let (g₂, e₂, q) = group_actions-Grouped g₁ actions ok_actions.1 p.shaped p.distinct in
    (g₂, rw e₁ e₂, Grouped-cons g g₁ g₂ a actions p q)

pub room_level-nil : (u r : Text) → room_level u r [] ≡ none
unfolding room_level levels_of lookup
room_level-nil u r = refl
