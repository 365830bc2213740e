-- ===== src/Matrix/DisplayNames.antt =====
-- The deactivation marker in display names (corporal/matrix/util.go).
use matrix_corporal.Base.{
  ◌≡◌, true, ◌++◌, Text, has_prefix-append, drop-append, contains_of_has_prefix,
}
use matrix_corporal.Matrix.{
  deactivated_account_prefix_marker, is_user_deactivated_according_to_display_name,
  clean_deactivation_marker_from_display_name,
}

-- What deactivation writes is read back: a name with the marker in front counts as deactivated, and
-- cleaning it gives the name.
pub clean-mark :
    (name : Text)
    → (is_user_deactivated_according_to_display_name (deactivated_account_prefix_marker ++ name)
        ≡ true)
      × (clean_deactivation_marker_from_display_name (deactivated_account_prefix_marker ++ name)
          ≡ name)
unfolding is_user_deactivated_according_to_display_name clean_deactivation_marker_from_display_name
clean-mark name = (
  contains_of_has_prefix _ _ (has_prefix-append deactivated_account_prefix_marker name),
  drop-append deactivated_account_prefix_marker name,
)
