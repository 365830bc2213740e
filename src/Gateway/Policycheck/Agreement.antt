-- ===== src/Gateway/Policycheck/Agreement.antt =====
-- What the checks of corporal/httpgateway/policycheck allow, taken together.
use mathlib.Core.List.{not-mem-nil, mem-cons, mem-cons_self, mem-cons_of_mem}
use mathlib.Core.HLevel.{⊥_prop}
use mathlib.Core.Logic.Or
use matrix_corporal.Base.{
  ◌≡◌, ◌↔◌, ◌⊎◌, inl, inr, Bool, true, false, some, List, [], ◌∷◌, Mem, arith, Text, text, text_eq,
  text_eq_refl, text_eq_iff, Result, ok, err, if◌then◌else◌, Bool-cases, Result-cases,
}
use matrix_corporal.Http.{Request}
use matrix_corporal.Matrix.{error_forbidden}
use matrix_corporal.Policy.{Policy}
use matrix_corporal.Policy.Checker.{
  can_user_create_room, can_user_create_encrypted_room, can_user_create_unencrypted_room,
  can_user_leave_room,
}
use matrix_corporal.Gateway.Policycheck.{
  Check, allowed, denied, var, is_encrypted, check_room_create, check_room_leave,
  check_room_membership_state_change, check_room_kick,
}

abbrev pub allows : Check → Bool
allows (ok response) = response.allow
allows (err panic) = false

-- The answer to a request to leave a room.
abbrev pub leave_answer : Bool → Check
leave_answer permitted =
    if permitted then ok allowed else ok (denied error_forbidden (text "Denied by policy"))

-- The three requests by which a user leaves a room, which are `leave`, a kick of oneself and a
-- change of one's own membership state, get the same answer: whether the policy lets the user leave.
pub leave_ways_agree :
    (read_user_id : Text → Result Text Text) (policy : Policy) (user_id : Text)
    (leave kick member : Request)
    → leave.user_id ≡ some user_id
    → kick.user_id ≡ some user_id
    → member.user_id ≡ some user_id
    → var kick (text "roomId") ≡ var leave (text "roomId")
    → var member (text "roomId") ≡ var leave (text "roomId")
    → read_user_id kick.body ≡ ok user_id
    → var member (text "memberId") ≡ user_id
    → let answer = leave_answer (can_user_leave_room policy user_id (var leave (text "roomId"))) in
      (check_room_leave leave policy ≡ answer)
      × (check_room_kick read_user_id kick policy ≡ answer)
      × (check_room_membership_state_change member policy ≡ answer)
unfolding check_room_leave check_room_kick check_room_membership_state_change can_user_leave_room
leave_ways_agree read_user_id policy user_id leave kick member l k m rk rm body self = (
  rw l ground arith,
  rw k (rw rk (rw body ground (arith, text_eq_refl user_id))),
  rw m (rw self (rw rm ground (arith, text_eq_refl user_id))),
)

not-mem_of_is_encrypted :
    (types : List Text) → is_encrypted types ≡ false → ¬ Mem (text "m.room.encryption") types
unfolding is_encrypted
not-mem_of_is_encrypted [] h = not-mem-nil
not-mem_of_is_encrypted (type ∷ types) h = λ m.
    Or.elim ⊥_prop (mem-cons.0 m) (λ e. ground (arith, text_eq_iff type (text "m.room.encryption")))
      (not-mem_of_is_encrypted types (ground arith))

mem_of_is_encrypted :
    (types : List Text) → is_encrypted types ≡ true → Mem (text "m.room.encryption") types
unfolding is_encrypted
mem_of_is_encrypted [] h = absurd (ground arith)
mem_of_is_encrypted (type ∷ types) h = elim (Bool-cases (text_eq type (text "m.room.encryption"))) [
  | inl e ↦ rw (← (text_eq_iff type (text "m.room.encryption")).0 e) mem-cons_self
  | inr e ↦ mem-cons_of_mem type (mem_of_is_encrypted types (rw e at h))
]

-- Who may create a room with initial state events of these types.
abbrev pub MayCreate : Policy → (user_id : Text) (types : List Text) → Type 0
MayCreate policy user_id types =
    (Mem (text "m.room.encryption") types × (can_user_create_encrypted_room policy user_id ≡ true))
    ⊎ ((¬ Mem (text "m.room.encryption") types)
        × (can_user_create_unencrypted_room policy user_id ≡ true))

-- A room is created just when the policy lets the user create rooms, the payload can be read, and
-- the policy lets the user create rooms of that kind: encrypted if one of the initial state events
-- is of type `m.room.encryption`, and unencrypted if none is.
pub check_room_create_iff :
    (read_initial_state : Text → Result Text (List Text)) (policy : Policy) (user_id : Text)
    (r : Request)
    → r.user_id ≡ some user_id
    → (allows (check_room_create read_initial_state r policy) ≡ true) ↔ (
        (can_user_create_room policy user_id ≡ true)
        × ((types : List Text) × (read_initial_state r.body ≡ ok types)
            × MayCreate policy user_id types))
unfolding check_room_create
check_room_create_iff read_initial_state policy user_id r h = (
  (λ allow. elim (Result-cases (read_initial_state r.body)) [
    | inr (e, body) ↦ absurd (ground arith)
    | inl (types, body) ↦ elim (Bool-cases (is_encrypted types)) [
      | inl enc ↦ (ground arith, (types, body, inl (mem_of_is_encrypted types enc, ground arith)))
      | inr plain ↦
          (ground arith, (types, body, inr (not-mem_of_is_encrypted types plain, ground arith)))
    ]
  ]),
  λ (may, (types, body, kind)). elim (Bool-cases (is_encrypted types)) [
    | inl enc ↦ elim kind [
      | inl (m, can) ↦ ground arith
      | inr (without, can) ↦ absurd (without (mem_of_is_encrypted types enc))
    ]
    | inr plain ↦ elim kind [
      | inl (m, can) ↦ absurd (not-mem_of_is_encrypted types plain m)
      | inr (without, can) ↦ ground arith
    ]
  ],
)
