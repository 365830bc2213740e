-- ===== src/Base/Maps.antt =====
-- Go's `map[string]V`: an association list with distinct keys, in the order of insertion.
use mathlib.Core.Path.{◌≡◌, refl, sym}
use mathlib.Core.HLevel.{⊥_prop}
use mathlib.Core.Logic.Or
use mathlib.Core.Logic.{◌≢◌, ◌↔◌, inl, inr}
use mathlib.Core.Option.{Option, none, some}
use mathlib.Core.List.{
  List, [], ◌∷◌, map, Mem, not-mem-nil, mem-cons, mem-cons_self, mem-cons_of_mem, Nodup, Nodup-nil,
  Nodup-cons,
}
use native.Mathlib.Omega.{arith}
use matrix_corporal.Base.Tests.{if◌then◌else◌, Bool-cases}
use matrix_corporal.Base.Strings.{Text, text_eq, text_eq_iff, text_eq_refl}

abbrev pub GoMap {ℓ} : Type ℓ → Type ℓ
GoMap V = List (Text × V)

abbrev pub keys {ℓ} : {V : Type ℓ} → GoMap V → List Text
keys = map (λ e. e.0)

module _ {ℓ} {V : Type ℓ} where
  -- `m[k]` with its `exists`
  unfoldable pub lookup : Text → GoMap V → Option V
  lookup k [] = none
  lookup k ((j, v) ∷ m) = if text_eq j k then some v else lookup k m

  -- `m[k] = v`
  unfoldable pub insert : Text → V → GoMap V → GoMap V
  insert k v [] = (k, v) ∷ []
  insert k v ((j, w) ∷ m) = if text_eq j k then (j, v) ∷ m else (j, w) ∷ insert k v m

  -- `delete(m, k)`
  unfoldable pub erase : Text → GoMap V → GoMap V
  erase k [] = []
  erase k ((j, w) ∷ m) = if text_eq j k then erase k m else (j, w) ∷ erase k m

  pub lookup-erase :
      (k j : Text) (m : GoMap V) → lookup j (erase k m) ≡ (if text_eq k j then none else lookup j m)
  unfolding lookup erase
  lookup-erase k j [] = ground arith
  lookup-erase k j ((i, w) ∷ m) =
      ground (arith, text_eq_iff k j, text_eq_iff i k, text_eq_iff i j, lookup-erase k j m)

  pub lookup-insert :
      (k j : Text) (v : V) (m : GoMap V)
      → lookup j (insert k v m) ≡ (if text_eq k j then some v else lookup j m)
  unfolding lookup insert
  lookup-insert k j v [] = refl
  lookup-insert k j v ((i, w) ∷ m) =
      ground (arith, text_eq_iff k j, text_eq_iff i k, text_eq_iff i j, lookup-insert k j v m)

  pub lookup-insert_self : (k : Text) (v : V) (m : GoMap V) → lookup k (insert k v m) ≡ some v
  lookup-insert_self k v m = simp (lookup-insert, text_eq_refl)

  pub lookup-insert_ne :
      (k j : Text) (v : V) (m : GoMap V) → k ≢ j → lookup j (insert k v m) ≡ lookup j m
  lookup-insert_ne k j v m h = ground (arith, lookup-insert k j v m, text_eq_iff k j)

  pub mem-lookup : (k : Text) (v : V) (m : GoMap V) → lookup k m ≡ some v → Mem k (keys m)
  unfolding lookup
  mem-lookup k v [] h = cc
  mem-lookup k v ((j, w) ∷ m) h = elim (Bool-cases (text_eq j k)) [
    | inl e ↦ rw (← (text_eq_iff j k).0 e) mem-cons_self
    | inr e ↦ mem-cons_of_mem j (mem-lookup k v m (rw e at h))
  ]

  none_of_not-mem : (k : Text) (m : GoMap V) → ¬ Mem k (keys m) → lookup k m ≡ none
  unfolding lookup
  none_of_not-mem k [] h = refl
  none_of_not-mem k ((j, w) ∷ m) h = elim (Bool-cases (text_eq j k)) [
    | inl e ↦ absurd (h (rw (← (text_eq_iff j k).0 e) mem-cons_self))
    | inr e ↦ rw e (none_of_not-mem k m (λ n. h (mem-cons_of_mem j n)))
  ]

  not-mem_of_none : (k : Text) (m : GoMap V) → lookup k m ≡ none → ¬ Mem k (keys m)
  unfolding lookup
  not-mem_of_none k [] h = not-mem-nil
  not-mem_of_none k ((j, w) ∷ m) h = λ n.
      Or.elim ⊥_prop (mem-cons.0 n) (λ e. ground (arith, text_eq_iff j k))
        (not-mem_of_none k m (ground arith))

  pub lookup-eq-none_iff : (k : Text) (m : GoMap V) → (lookup k m ≡ none) ↔ (¬ Mem k (keys m))
  lookup-eq-none_iff k m = (not-mem_of_none k m, none_of_not-mem k m)

  not-mem-insert :
      (k j : Text) (v : V) (m : GoMap V) → k ≢ j → ¬ Mem j (keys m) → ¬ Mem j (keys (insert k v m))
  unfolding insert
  not-mem-insert k j v [] differs h =
      λ n. Or.elim ⊥_prop (mem-cons.0 n) (λ e. differs (sym e)) not-mem-nil
  not-mem-insert k j v ((i, w) ∷ m) differs h = elim (Bool-cases (text_eq i k)) [
    | inl e ↦ rw e h
    | inr e ↦ rw e (λ n.
        Or.elim ⊥_prop (mem-cons.0 n) (λ same. h (rw same mem-cons_self))
          (not-mem-insert k j v m differs (λ n. h (mem-cons_of_mem i n))))
  ]

  -- A map that has each key once still does after a write.
  pub insert-Nodup : (k : Text) (v : V) (m : GoMap V) → Nodup (keys m) → Nodup (keys (insert k v m))
  unfolding insert
  insert-Nodup k v [] h = Nodup-cons.1 (not-mem-nil, Nodup-nil)
  insert-Nodup k v ((i, w) ∷ m) h = elim (Bool-cases (text_eq i k)) [
    | inl e ↦ rw e h
    | inr e ↦
        let (fresh, rest) = Nodup-cons.0 h in
        rw e (
          Nodup-cons.1 (
            not-mem-insert k i v m (λ same. ground (arith, text_eq_iff i k)) fresh,
            insert-Nodup k v m rest,
          ))
  ]
