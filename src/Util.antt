-- ===== src/Util.antt =====
-- corporal/util/util.go: the string helper. The random source and SHA-512 are Go's libraries.
use mathlib.Core.HLevel.{⊥_prop}
use mathlib.Core.List.{not-mem-nil, mem-cons, mem-cons_self, mem-cons_of_mem}
use mathlib.Core.Logic.Or
use matrix_corporal.Base.{
  ◌≡◌, ◌↔◌, inl, inr, Bool, true, false, List, [], ◌∷◌, Mem, arith, Text, text_eq, text_eq_iff,
  if◌then◌else◌, Bool-cases,
}

-- The loop that returns `true` at the first equal value.
unfoldable pub is_string_in_array : Text → List Text → Bool
is_string_in_array needle [] = false
is_string_in_array needle (value ∷ haystack) =
    if text_eq value needle then true else is_string_in_array needle haystack

pub is_string_in_array-mem : (t : Text) (l : List Text) → is_string_in_array t l ≡ true → Mem t l
unfolding is_string_in_array
is_string_in_array-mem t [] h = cc
is_string_in_array-mem t (v ∷ l) h = elim (Bool-cases (text_eq v t)) [
  | inl e ↦ rw (← (text_eq_iff v t).0 e) mem-cons_self
  | inr e ↦ mem-cons_of_mem v (is_string_in_array-mem t l (rw e at h))
]

pub not-mem_of_is_string_in_array :
    (t : Text) (l : List Text) → is_string_in_array t l ≡ false → ¬ Mem t l
unfolding is_string_in_array
not-mem_of_is_string_in_array t [] h = not-mem-nil
not-mem_of_is_string_in_array t (v ∷ l) h = λ m.
    Or.elim ⊥_prop (mem-cons.0 m) (λ e. ground (arith, text_eq_iff v t))
      (not-mem_of_is_string_in_array t l (ground arith))

pub is_string_in_array_iff : (t : Text) (l : List Text) → (is_string_in_array t l ≡ true) ↔ Mem t l
is_string_in_array_iff t l = (
  is_string_in_array-mem t l,
  λ m. elim (Bool-cases (is_string_in_array t l)) [
    | inl e ↦ e
    | inr e ↦ absurd (not-mem_of_is_string_in_array t l e m)
  ],
)
