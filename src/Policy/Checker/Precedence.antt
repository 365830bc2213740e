-- ===== src/Policy/Checker/Precedence.antt =====
-- Which rooms a managed user may leave (corporal/policy/checker.go).
use mathlib.Core.Logic.Or
use matrix_corporal.Base.{List}
use matrix_corporal.Policy.{Policy}
