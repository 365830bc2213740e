-- ===== src/Reconciliation/Emitted.antt =====
-- Predicates on the actions of the computator, by the kind of the action
-- (corporal/reconciliation/computator/computator.go).
use mathlib.Core.List.{mem-cons_self, mem-cons_of_mem}
use mathlib.Core.Option
use matrix_corporal.Base.{
  ◌≡◌, refl, subst, inl, inr, ℤ, Bool, true, false, not, if◌then◌else◌, int_eq, ◌&&◌, Option, none,
  some, List, [], ◌∷◌, ◌++◌, Mem, arith, Text, All, All-append, All-ite, Option-cases,
}
use matrix_corporal.Util.{is_string_in_array}
use matrix_corporal.Policy.{RoomState, UserPolicy, Policy}
use matrix_corporal.Connector.State.{
  CurrentUserRoomState, CurrentUserState, CurrentState, get_user_state_by_user_id,
}
use matrix_corporal.Reconciliation.{StateAction}
use matrix_corporal.Reconciliation.Computator.{
  room_changes, policy_room_changes, current_room_changes, compute_user_room_changes,
  compute_user_membership_changes, compute_user_profile_display_name_changes,
  compute_user_profile_avatar_changes, compute_user_profile_data_changes,
  compute_user_activation_changes, compute_user_changes, computed_actions,
  room_user_set_power_level, room_leave, user_create, room_join, user_activate, user_deactivate,
  user_set_display_name, user_set_avatar, should_set_display_name, should_set_avatar, current_power,
  is_in_policy_joined_rooms, generate_initial_password_for_user,
}

-- A predicate that holds of the actions of each kind.
pub record Covers (P : StateAction → Type 0) : Type 0 where
  pub create : (user_id password : Text) → P (user_create user_id password)
  pub activate : (user_id : Text) → P (user_activate user_id)
  pub deactivate : (user_id : Text) → P (user_deactivate user_id)
  pub display_name : (user_id name : Text) → P (user_set_display_name user_id name)
  pub avatar : (user_id uri : Text) → P (user_set_avatar user_id uri)
  pub join : (user_id room_id : Text) → P (room_join user_id room_id)
  pub leave : (user_id room_id : Text) → P (room_leave user_id room_id)
  pub power :
      (user_id room_id : Text) (level : ℤ) → P (room_user_set_power_level user_id room_id level)

module _ (P : StateAction → Type 0) (h : Covers P) (user_id : Text) (managed : List Text) where
  room_changes-All : (p : Option ℤ) (room : RoomState) → All P (room_changes user_id p room)
  unfolding room_changes
  room_changes-All none room =
      (h.join user_id room.room_id, (h.power user_id room.room_id room.power_level, tt))
  room_changes-All (some p) room =
      All-ite P (int_eq p room.power_level) [] set tt
        (h.power user_id room.room_id room.power_level, tt)
    where
      set : List StateAction
      set = room_user_set_power_level user_id room.room_id room.power_level ∷ []

  policy_room_changes-All :
      (current : List CurrentUserRoomState) (rooms : List RoomState)
      → All P (policy_room_changes user_id current managed rooms)
  unfolding policy_room_changes
  policy_room_changes-All current [] = tt
  policy_room_changes-All current (room ∷ rooms) =
      All-append P _ _
        (All-ite P (is_string_in_array room.room_id managed) _ []
          (room_changes-All (current_power room.room_id current) room) tt)
        (policy_room_changes-All current rooms)

  current_room_changes-All :
      (rooms : List RoomState) (current : List CurrentUserRoomState)
      → All P (current_room_changes user_id rooms managed current)
  unfolding current_room_changes
  current_room_changes-All rooms [] = tt
  current_room_changes-All rooms (c ∷ current) =
      All-append P _ _
        (All-ite P
          (is_string_in_array c.room_id managed && not (is_in_policy_joined_rooms c.room_id rooms))
          (room_leave user_id c.room_id ∷ []) [] (h.leave user_id c.room_id, tt) tt)
        (current_room_changes-All rooms current)

  membership-All :
      (current : Option CurrentUserState) (u : UserPolicy)
      → All P (compute_user_membership_changes user_id current u managed)
  unfolding compute_user_membership_changes compute_user_room_changes
  membership-All current u =
      All-append P _ _ (policy_room_changes-All _ u.joined_rooms)
        (current_room_changes-All u.joined_rooms _)

module _ (P : StateAction → Type 0) (h : Covers P) (uri_hash : Text → Text)
    (random_password : UserPolicy → Option Text) where
  profile-All :
      (current : Option CurrentUserState) (policy : Policy) (u : UserPolicy)
      → All P (compute_user_profile_data_changes uri_hash random_password current policy u)
  unfolding compute_user_profile_data_changes compute_user_profile_display_name_changes
      compute_user_profile_avatar_changes
  profile-All current policy u =
      All-append P _ _
        (All-ite P (should_set_display_name current policy.flags u)
          (user_set_display_name u.id u.display_name ∷ []) []
          (h.display_name u.id u.display_name, tt) tt)
        (All-ite P (should_set_avatar uri_hash random_password current policy.flags u)
          (user_set_avatar u.id u.avatar_uri ∷ []) [] (h.avatar u.id u.avatar_uri, tt) tt)

  -- What a part of the computation yields, unless it panics.
  abbrev Yields : Option (List StateAction) → Type 0
  Yields computed = (actions : List StateAction) → computed ≡ some actions → All P actions

  Yields-some : (actions : List StateAction) → All P actions → Yields (some actions)
  Yields-some actions all other e = subst (All P) (Option.some-injective actions other e) all

  Yields-map :
      {A : Type 0} (f : A → List StateAction) (computed : Option A)
      → ((a : A) → computed ≡ some a → All P (f a))
      → Yields (Option.map f computed)
  Yields-map f none h = λ actions e. absurd (ground arith)
  Yields-map f (some a) h = Yields-some (f a) (h a refl)

  Yields-ite :
      (b : Bool) (x y : Option (List StateAction))
      → Yields x
      → Yields y
      → Yields (if b then x else y)
  Yields-ite true x y hx hy = hx
  Yields-ite false x y hx hy = hy

  activation-Yields :
      (current : Option CurrentUserState) (policy : Policy) (u : UserPolicy)
      → Yields (compute_user_activation_changes uri_hash random_password u.id current policy u)
  unfolding compute_user_activation_changes
  activation-Yields none policy u =
      Yields-ite u.active _ _
        (Yields-map (λ password. user_create u.id password ∷ [])
          (generate_initial_password_for_user uri_hash random_password u)
          (λ password e. (h.create u.id password, tt)))
        (Yields-some [] tt)
  activation-Yields (some s) policy u = Yields-some _ (
      All-ite P u.active _ _
        (All-ite P s.active [] (user_activate u.id ∷ []) tt (h.activate u.id, tt))
        (All-append P _ _ (membership-All P h u.id policy.managed_room_ids (some s) u)
          (All-ite P s.active (user_deactivate u.id ∷ []) [] (h.deactivate u.id, tt) tt)))

  changes-Yields :
      (current : Option CurrentUserState) (policy : Policy) (u : UserPolicy)
      → Yields (compute_user_changes uri_hash random_password u.id current policy u)
  unfolding compute_user_changes
  changes-Yields current policy u =
      Yields-map _ (compute_user_activation_changes uri_hash random_password u.id current policy u)
        (λ activation e.
          let all = activation-Yields current policy u activation e in
          All-ite P u.active _ _
            (All-append P _ _ all (
              All-append P _ _ (profile-All current policy u)
                (membership-All P h u.id policy.managed_room_ids current u)))
            all)

  pub computed_actions-Yields :
      (current : CurrentState) (policy : Policy) (users : List UserPolicy)
      → Yields (computed_actions uri_hash random_password current policy users)
  unfolding computed_actions
  computed_actions-Yields current policy [] = Yields-some [] tt
  computed_actions-Yields current policy (u ∷ users) =
      let of_user =
        compute_user_changes uri_hash random_password u.id (get_user_state_by_user_id current u.id)
          policy u in
      elim (Option-cases of_user) [
        | inl panics ↦ rw (panics, computed_actions) (λ actions e. absurd (ground arith))
        | inr (changes, e) ↦
            rw (e, computed_actions)
              (Yields-map (λ actions. changes ++ actions)
                (computed_actions uri_hash random_password current policy users)
                (λ actions rest.
                  All-append P _ _ (changes-Yields _ policy u changes e)
                    (computed_actions-Yields current policy users actions rest)))
      ]

-- A user that the computation needs random bytes for, and gets none.
module _ (uri_hash : Text → Text) (random_password : UserPolicy → Option Text) where
  unlucky_user :
      (current : Option CurrentUserState) (policy : Policy) (u : UserPolicy)
      → compute_user_changes uri_hash random_password u.id current policy u ≡ none
      → random_password u ≡ none
  unfolding compute_user_changes compute_user_activation_changes generate_initial_password_for_user
  unlucky_user none policy u h = ground arith
  unlucky_user (some s) policy u h = absurd (ground arith)

  pub computed_actions-eq-none :
      (current : CurrentState) (policy : Policy) (users : List UserPolicy)
      → computed_actions uri_hash random_password current policy users ≡ none
      → (u : UserPolicy) × Mem u users × (random_password u ≡ none)
  unfolding computed_actions
  computed_actions-eq-none current policy [] h = absurd (ground arith)
  computed_actions-eq-none current policy (u ∷ users) h =
      let of_user =
        compute_user_changes uri_hash random_password u.id (get_user_state_by_user_id current u.id)
          policy u in
      elim (Option-cases of_user) [
        | inl panics ↦ (u, mem-cons_self, unlucky_user _ policy u panics)
        | inr (changes, e) ↦
            let (v, m, unlucky) = computed_actions-eq-none current policy users (ground arith) in
            (v, mem-cons_of_mem u m, unlucky)
      ]
