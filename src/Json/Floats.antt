-- ===== src/Json/Floats.antt =====
-- Python's floats. They are a parameter of the model: a type with its tests and operations.
use tinyllama_inference_engi.Prelude.{ℕ, Bool, Text, List}
use tinyllama_inference_engi.Prelude.Int.{ℤ}
use tinyllama_inference_engi.Result.{Result}

pub record Floats : Type 1 where
  pub F : Type 0
  pub is_finite : F → Bool
  -- `a == b`, `a < b`, `a <= b`
  pub feq : F → F → Bool
  pub flt : F → F → Bool
  pub fle : F → F → Bool
  -- `a == n` for an integer: exact
  pub feq_int : F → ℤ → Bool
  -- `float(n)`, `float(text)`, `int(text)`, `int(a)`
  pub of_int : ℤ → Result F
  pub of_text : Text → Result F
  pub int_of_text : Text → Result ℤ
  pub truncate : F → Result ℤ
  pub add : F → F → F
  pub sub : F → F → F
  pub mul : F → F → F
  pub div : F → F → F
  -- `math.ceil(a)`, `statistics.median(values)`, `abs(a)`, `float("nan")`
  pub ceil : F → Result ℤ
  pub median : List F → Result F
  pub absolute : F → F
  pub nan : F
  -- a literal: numerator over a power of ten
  pub literal : ℕ → ℕ → F
