-- ===== src/Sfu/Floats.antt =====
-- The float64 arithmetic that internal/media/sfu/adaptive.go uses, as the operations on an abstract
-- type: nothing that is proved depends on how a float64 is rounded.
use aloqa_codex.Common.{ℕ, Bool}
use aloqa_codex.Common.Int.{ℤ}

pub record Floats (F : Type 0) : Type 0 where
  pub of_int : ℤ → F  -- `float64(n)`, and a literal of an integral value
  pub ratio : ℕ → ℕ → F  -- a decimal literal
  pub add : F → F → F
  pub sub : F → F → F
  pub mul : F → F → F
  pub div : F → F → F
  pub max : F → F → F  -- `math.Max`
  pub le : F → F → Bool
  pub lt : F → F → Bool
  pub truncated : F → ℤ  -- `int(x)`
  pub rounded : F → ℤ  -- `int(math.Round(x))`
