-- ===== src/Matrix/UserIds.antt =====
-- User ids of the managed homeserver (corporal/matrix/util.go).
use matrix_corporal.Base.{
  ◌≡◌, ◌↔◌, true, false, ◌++◌, [], arith, Text, text, text_eq_iff, has_prefix, has_suffix-append,
  ok, err,
}
use matrix_corporal.Matrix.{determine_full_user_id, empty_user_id, is_full_user_id_of_domain}

pub determine_full_user_id-eq-err_iff :
    (u d : Text) → (determine_full_user_id u d ≡ err empty_user_id) ↔ (u ≡ [])
unfolding determine_full_user_id
determine_full_user_id-eq-err_iff u d =
    (λ e. ground (arith, text_eq_iff u []), λ e. ground (arith, text_eq_iff u []))

pub determine_full_user_id_full :
    (u d : Text) → has_prefix u (text "@") ≡ true → determine_full_user_id u d ≡ ok u
unfolding determine_full_user_id has_prefix
determine_full_user_id_full u d h = ground (arith, text_eq_iff u [])

-- A user id without a leading "@" that is accepted becomes "@id:domain", which is an id of the domain.
determine_full_user_id_local :
    (u d full : Text)
    → has_prefix u (text "@") ≡ false
    → determine_full_user_id u d ≡ ok full
    → (full ≡ text "@" ++ (u ++ (text ":" ++ d))) × (is_full_user_id_of_domain full d ≡ true)
unfolding determine_full_user_id is_full_user_id_of_domain
determine_full_user_id_local u d full h e =
    let shape : full ≡ text "@" ++ (u ++ (text ":" ++ d)) = ground arith in
    (shape, rw shape (has_suffix-append (text "@" ++ u) (text ":" ++ d)))
