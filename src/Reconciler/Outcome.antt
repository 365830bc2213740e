-- ===== src/Reconciler/Outcome.antt =====
-- What the handlers of corporal/reconciliation/reconciler/reconciler.go do to an account.
use matrix_corporal.Base.{
  lookup, ◌≡◌, refl, inl, inr, false, none, List, [], ◌∷◌, ◌++◌, arith, Text, text_eq, ok,
  Result-cases,
}
use matrix_corporal.Matrix.{
  deactivated_account_prefix_marker, is_user_deactivated_according_to_display_name,
}
use matrix_corporal.Matrix.DisplayNames.{clean-mark}
use matrix_corporal.Connector.Interface.{Connector}
use matrix_corporal.Reconciliation.{
  StateAction, get_string_payload_data_by_key, get_payload_data_by_key,
}
use matrix_corporal.Reconciliation.Computator.{user_activate, user_deactivate}
use matrix_corporal.Reconciler.{
  ◌>>◌, handle, handle_all, handle_user_activate, handle_user_deactivate,
}

module _ {S E Avatar : Type 0} (connector : Connector S E Avatar) (admin : Text) where
  -- Handling a list of actions is handling its first part and, if there was no error, the rest.
  handle_all-append :
      (xs ys : List StateAction) (s : S)
      → handle_all connector admin (xs ++ ys) s
        ≡ (handle_all connector admin xs >> handle_all connector admin ys) s
  unfolding handle_all
  handle_all-append [] ys s = refl
  handle_all-append (x ∷ xs) ys s = elim (Result-cases (handle connector admin x s).0) [
    | inr (e, h) ↦ ground arith
    | inl (a, h) ↦ ground (arith, handle_all-append xs ys (handle connector admin x s).1)
  ]

  -- When a user is deactivated and later activated again, and the homeserver does what it is asked,
  -- the marked display name is set first, and in the end the very name that the user had is set.
  pub deactivate-activate :
      (user_id name : Text) (s s₁ s₂ s₃ s₄ s₅ : S)
      → is_user_deactivated_according_to_display_name name ≡ false
      → connector.get_user_profile_by_user_id user_id s ≡ (ok name, s₁)
      → connector.logout_all_access_tokens_for_user user_id s₁ ≡ (none, s₂)
      → connector.set_user_display_name user_id (deactivated_account_prefix_marker ++ name) s₂
        ≡ (none, s₃)
      → connector.get_user_profile_by_user_id user_id s₃
        ≡ (ok (deactivated_account_prefix_marker ++ name), s₄)
      → connector.set_user_display_name user_id name s₄ ≡ (none, s₅)
      → (handle_user_deactivate connector admin (user_deactivate user_id) s ≡ (ok tt, s₃))
        × (handle_user_activate connector admin (user_activate user_id) s₃ ≡ (ok tt, s₅))
  unfolding handle_user_deactivate handle_user_activate get_string_payload_data_by_key
      get_payload_data_by_key lookup text_eq
  deactivate-activate user_id name s s₁ s₂ s₃ s₄ s₅ live profile logout mark marked clean =
      let (is_marked, cleaned) = clean-mark name in
      (ground arith, ground (arith, is_marked, cleaned))
