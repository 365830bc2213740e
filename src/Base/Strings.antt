-- ===== src/Base/Strings.antt =====
-- Go's `string`: a list of bytes, with the functions of package `strings` that the program calls.
use Prim.Native.Nat.{ℕ, zero, suc}
use Prim.Native.Char.{code}
use Prim.Native.String.{String}
use mathlib.Core.Path.{◌≡◌, refl}
use mathlib.Core.Logic.{◌↔◌}
use mathlib.Core.Bool.{Bool, true, false, ◌&&◌, ◌||◌}
use mathlib.Core.List.{List, [], ◌∷◌, ◌++◌}
use native.Mathlib.Omega.{arith}
use matrix_corporal.Base.Tests.{◌==◌}

abbrev pub Text : Type 0
Text = List ℕ

-- A literal of the source, all of which are ASCII.
abbrev pub text : String → Text
text String.[] = []
text (String.◌∷◌ c s) = code c ∷ text s

unfoldable pub text_eq : Text → Text → Bool
text_eq [] [] = true
text_eq (x ∷ xs) (y ∷ ys) = x == y && text_eq xs ys
text_eq _ _ = false

pub text_eq_iff : (s t : Text) → (text_eq s t ≡ true) ↔ (s ≡ t)
unfolding text_eq
text_eq_iff [] [] = ground arith
text_eq_iff [] (y ∷ ys) = ground arith
text_eq_iff (x ∷ xs) [] = ground arith
text_eq_iff (x ∷ xs) (y ∷ ys) = ground (arith, text_eq_iff xs ys)

pub text_eq_refl : (s : Text) → text_eq s s ≡ true
text_eq_refl s = (text_eq_iff s s).1 refl

-- `strings.HasPrefix(s, prefix)`
unfoldable pub has_prefix : Text → Text → Bool
has_prefix s [] = true
has_prefix [] (p ∷ ps) = false
has_prefix (x ∷ s) (p ∷ ps) = x == p && has_prefix s ps

-- `strings.HasSuffix(s, suffix)`: some tail of `s` is the suffix.
unfoldable pub has_suffix : Text → Text → Bool
has_suffix [] suffix = text_eq [] suffix
has_suffix (x ∷ s) suffix = text_eq (x ∷ s) suffix || has_suffix s suffix

-- `strings.Contains(s, part)`
unfoldable pub contains : Text → Text → Bool
contains [] part = has_prefix [] part
contains (x ∷ s) part = has_prefix (x ∷ s) part || contains s part

-- `s[n:]`, for `n` up to the length of `s`.
unfoldable pub drop {ℓ} : {A : Type ℓ} → ℕ → List A → List A
drop zero s = s
drop (suc n) [] = []
drop (suc n) (x ∷ s) = drop n s

pub has_prefix-append : (p s : Text) → has_prefix (p ++ s) p ≡ true
unfolding has_prefix
has_prefix-append [] [] = refl
has_prefix-append [] (x ∷ s) = refl
has_prefix-append (x ∷ p) s = ground (arith, has_prefix-append p s)

pub has_prefix-inv : (s p : Text) → has_prefix s p ≡ true → (rest : Text) × (s ≡ p ++ rest)
unfolding has_prefix
has_prefix-inv s [] h = (s, refl)
has_prefix-inv [] (p ∷ ps) h = ground arith
has_prefix-inv (x ∷ s) (p ∷ ps) h =
    let (rest, e) = has_prefix-inv s ps (ground arith) in (rest, ground arith)

pub has_suffix-append : (p s : Text) → has_suffix (p ++ s) s ≡ true
unfolding has_suffix
has_suffix-append [] [] = text_eq_refl []
has_suffix-append [] (x ∷ s) = ground (arith, text_eq_refl (x ∷ s))
has_suffix-append (x ∷ p) s = ground (arith, has_suffix-append p s)

pub contains_of_has_prefix : (s p : Text) → has_prefix s p ≡ true → contains s p ≡ true
unfolding contains
contains_of_has_prefix [] p h = h
contains_of_has_prefix (x ∷ s) p h = ground arith

abbrev pub size {ℓ} : {A : Type ℓ} → List A → ℕ
size [] = 0
size (x ∷ xs) = suc (size xs)

pub drop-append {ℓ} : {A : Type ℓ} (p s : List A) → drop (size p) (p ++ s) ≡ s
unfolding drop
drop-append [] s = refl
drop-append (x ∷ p) s = drop-append p s
