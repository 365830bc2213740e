-- ===== src/Connector/Synapse/Managed.antt =====
-- Which users the Synapse connector reports, and what of their profiles (corporal/connector/synapse.go
-- and api.go).
use matrix_corporal.Base.{
  ◌≡◌, refl, subst, inl, inr, true, false, not, List, [], ◌∷◌, Text, Result, ok, err, Bool-cases,
  if◌then◌else◌,
}
use matrix_corporal.Util.{is_string_in_array}
use matrix_corporal.Matrix.{is_user_deactivated_according_to_display_name}
use matrix_corporal.Connector.State.{CurrentUserState, CurrentState}
use matrix_corporal.Connector.Client.{ApiError, Client, UserProfile}
use matrix_corporal.Connector.Tokens.{Session, get_access_token_for_user_id}
use matrix_corporal.Connector.Calls.{Call, ◌>>=◌, pure, ask}
use matrix_corporal.Connector.Api.{Context, create_matrix_client_for_user_id}
use matrix_corporal.Connector.Api.Reads.{
  get_user_state_by_user_id, get_user_profile_by_user_id, get_joined_room_ids_by_user_id,
  room_states, avatar_source_uri_hash, clean_display_name, current_user_state,
}
use matrix_corporal.Connector.Synapse.{user_states, determine_current_state}

module _ {W : Type 0} where
  -- What holds of the result of a call that succeeds.
  abbrev pub Holds : {A : Type 0} → (A → Type 0) → Result ApiError A × Session W → Type 0
  Holds P (ok a, s) = P a
  Holds P (err e, s) = Unit

  abbrev pub Ensures : {A : Type 0} → (A → Type 0) → Call W A → Type 0
  Ensures P m = (s : Session W) → Holds P (m s)

  Ensures-bind :
      {A B : Type 0} (Q : A → Type 0) (P : B → Type 0) (m : Call W A) (f : A → Call W B)
      → Ensures Q m
      → ((a : A) → Q a → Ensures P (f a))
      → Ensures P (m >>= f)
  Ensures-bind {A} {B} Q P m f first rest = λ s. split (m s) (first s)
    where
      split :
          (r : Result ApiError A × Session W)
          → Holds Q r
          → Holds P (elim r.0 [ ok a ↦ f a r.1 | err e ↦ (err e, r.1) ])
      split (ok a, t) q = rest a q t
      split (err e, t) q = tt

  Ensures-rest :
      {A B : Type 0} (P : B → Type 0) (m : Call W A) (f : A → Call W B)
      → ((a : A) → Ensures P (f a))
      → Ensures P (m >>= f)
  Ensures-rest {A} P m f rest =
      Ensures-bind (λ a. Unit {0}) P m f (λ s. anything (m s)) (λ a q. rest a)
    where
      anything : (r : Result ApiError A × Session W) → Holds (λ a. Unit {0}) r
      anything (ok a, t) = tt
      anything (err e, t) = tt

  Ensures-ask :
      {A : Type 0} (P : A → Type 0) (op : W → Result ApiError A × W)
      → ((w : W) (a : A) → (op w).0 ≡ ok a → P a)
      → Ensures P (ask op)
  Ensures-ask {A} P op h = λ s. split s (op s.world).0 refl
    where
      split :
          (s : Session W) (r : Result ApiError A)
          → (op s.world).0 ≡ r
          → Holds P (r, record s { world = (op s.world).1 })
      split s (ok a) e = h s.world a e
      split s (err error) e = tt

  Ensures-pure : {A : Type 0} (P : A → Type 0) (a : A) → P a → Ensures P (pure a)
  Ensures-pure P a p = λ s. p

-- The managed users who exist, in their order.
abbrev pub existing : (current_user_ids managed_user_ids : List Text) → List Text
existing current [] = []
existing current (user_id ∷ user_ids) =
    if is_string_in_array user_id current
    then user_id ∷ existing current user_ids
    else existing current user_ids

module _ {W Content Number : Type 0} (ctx : Context W Content Number) where
  -- A profile that the homeserver has answered with for the user.
  abbrev pub Answered : Text → UserProfile → Type 0
  Answered user_id profile =
      (client : Client) × (w : W) × ((ctx.homeserver.get_profile client user_id w).0 ≡ ok profile)

  -- The state of a user as the profile tells it: whether the display name marks the user as
  -- deactivated, the name without the mark, and the avatar.
  abbrev pub Reports : Text → CurrentUserState → Type 0
  Reports user_id state =
      (state.id ≡ user_id)
      × (profile : UserProfile) × Answered user_id profile
      × (state.active ≡ not (is_user_deactivated_according_to_display_name profile.display_name))
      × (state.display_name ≡ clean_display_name ctx profile.display_name)
      × (state.avatar_mxc_uri ≡ profile.avatar_url)

  create-Ensures :
      (user_id : Text)
      → Ensures (λ client. client.user_id ≡ user_id) (create_matrix_client_for_user_id ctx user_id)
  unfolding create_matrix_client_for_user_id
  create-Ensures user_id =
      Ensures-rest (λ client. client.user_id ≡ user_id)
        (get_access_token_for_user_id ctx.connector ctx.device_id ctx.validity_seconds user_id)
        (λ token. pure (record { user_id = user_id; access_token = token }))
        (λ token.
          Ensures-pure {A = Client} (λ client. client.user_id ≡ user_id)
            (record { user_id = user_id; access_token = token }) refl)

  get_user_profile_by_user_id-Ensures :
      (user_id : Text) → Ensures (Answered user_id) (get_user_profile_by_user_id ctx user_id)
  unfolding get_user_profile_by_user_id
  get_user_profile_by_user_id-Ensures user_id =
      Ensures-bind (λ client. client.user_id ≡ user_id) (Answered user_id)
        (create_matrix_client_for_user_id ctx user_id) _ (create-Ensures user_id)
        (λ client same.
          Ensures-ask (Answered user_id) (ctx.homeserver.get_profile client client.user_id)
            (λ w profile e. (
              client,
              w,
              subst (λ u. (ctx.homeserver.get_profile client u w).0 ≡ ok profile) same e,
            )))

  get_user_state_by_user_id-Ensures :
      (user_id : Text) → Ensures (Reports user_id) (get_user_state_by_user_id ctx user_id)
  unfolding get_user_state_by_user_id
  get_user_state_by_user_id-Ensures user_id =
      Ensures-bind (λ client. client.user_id ≡ user_id) (Reports user_id)
        (create_matrix_client_for_user_id ctx user_id) _ (create-Ensures user_id)
        (λ client same.
          Ensures-rest (Reports user_id) (get_joined_room_ids_by_user_id ctx user_id) _ (λ room_ids.
            Ensures-rest (Reports user_id) (room_states ctx user_id room_ids) _ (λ rooms.
              Ensures-bind (Answered user_id) (Reports user_id)
                (get_user_profile_by_user_id ctx user_id) _
                (get_user_profile_by_user_id-Ensures user_id)
                (λ profile answered.
                  Ensures-rest (Reports user_id)
                    (avatar_source_uri_hash ctx user_id profile.avatar_url)
                    (λ hash. pure (current_user_state ctx client rooms profile hash))
                    (λ hash.
                      Ensures-pure (Reports user_id)
                        (current_user_state ctx client rooms profile hash)
                        (same, profile, answered, refl, refl, refl))))))

  -- The states of the managed users who exist, one for each and in their order.
  abbrev pub ReportsAll : (user_ids : List Text) → List CurrentUserState → Type 0
  ReportsAll [] [] = Unit
  ReportsAll (user_id ∷ user_ids) (state ∷ states) =
      Reports user_id state × ReportsAll user_ids states
  ReportsAll _ _ = true ≡ false

  user_states-Ensures :
      (current managed : List Text)
      → Ensures (ReportsAll (existing current managed)) (user_states ctx current managed)
  unfolding user_states
  user_states-Ensures current [] = λ s. tt
  user_states-Ensures current (user_id ∷ user_ids) =
      elim (Bool-cases (is_string_in_array user_id current)) [
        | inr missing ↦ rw missing (user_states-Ensures current user_ids)
        | inl found ↦ rw found (
            Ensures-bind (Reports user_id) (ReportsAll (user_id ∷ existing current user_ids))
              (get_user_state_by_user_id ctx user_id) _ (get_user_state_by_user_id-Ensures user_id)
              (λ state reported.
                Ensures-bind (ReportsAll (existing current user_ids))
                  (ReportsAll (user_id ∷ existing current user_ids))
                  (user_states ctx current user_ids) (λ states. pure (state ∷ states))
                  (user_states-Ensures current user_ids)
                  (λ states all.
                    Ensures-pure (ReportsAll (user_id ∷ existing current user_ids)) (state ∷ states)
                      (reported, all))))
      ]

  -- What `determine_current_state` ensures: some answer of the homeserver with the existing users, and
  -- the state of each of them who is managed.
  abbrev pub Determined : (managed_user_ids : List Text) → CurrentState → Type 0
  Determined managed_user_ids state =
      (client : Client) × (w : W) × (current_user_ids : List Text) × ((ctx.homeserver.admin_users
          client w).0
        ≡ ok current_user_ids)
      × ReportsAll (existing current_user_ids managed_user_ids) state.users

  -- If the current state can be determined, then it has one user state for each managed user who is
  -- among the users that the homeserver lists, in the order of the managed users, and no other. Each
  -- has the user's id, and is active unless the display name of the profile that the homeserver
  -- answered with carries the deactivation marker, which the state's display name is cleaned of.
  pub determine_current_state-Determined :
      (managed_user_ids : List Text) (admin_user_id : Text) (s t : Session W) (state : CurrentState)
      → determine_current_state ctx managed_user_ids admin_user_id s ≡ (ok state, t)
      → Determined managed_user_ids state
  unfolding determine_current_state
  determine_current_state-Determined managed_user_ids admin_user_id s t state h =
      subst (Holds (Determined managed_user_ids)) h (
        Ensures-rest (Determined managed_user_ids)
          (create_matrix_client_for_user_id ctx admin_user_id) _
          (λ client.
            Ensures-bind (λ ids. (w : W) × ((ctx.homeserver.admin_users client w).0 ≡ ok ids))
              (Determined managed_user_ids) (ask (ctx.homeserver.admin_users client)) _
              (Ensures-ask _ (ctx.homeserver.admin_users client) (λ w ids e. (w, e)))
              (λ ids listed.
                Ensures-bind (ReportsAll (existing ids managed_user_ids))
                  (Determined managed_user_ids) (user_states ctx ids managed_user_ids)
                  (λ users. pure (record { users = users }))
                  (user_states-Ensures ids managed_user_ids)
                  (λ users all.
                    Ensures-pure (Determined managed_user_ids) (record { users = users })
                      (client, listed.0, ids, listed.1, all))))
          s)
