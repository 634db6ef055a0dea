-- ===== src/Prelude/Codes.antt =====
-- Python texts and byte strings as lists of numbers, and their equality test.
use Prim.Native.Nat.{ℕ, ◌<◌}
use Prim.Native.Char.{code}
use Prim.Native.String.{String}
use mathlib.Core.Path.{◌≡◌, refl}
use mathlib.Core.Logic.{◌↔◌}
use mathlib.Core.Bool.{Bool, true, false, ◌&&◌}
use mathlib.Core.List.{List, [], ◌∷◌}
use native.Mathlib.Omega.{arith}
use tinyllama_inference_engi.Prelude.Tests.{◌==◌}

-- A `bytes` value: numbers below 256.
abbrev pub Bytes : Type 0
Bytes = List ℕ

-- A `str` value: its code points.
abbrev pub Text : Type 0
Text = List ℕ

abbrev pub IsByte : ℕ → Type 0
IsByte b = b < 256

-- The code points of a literal.
abbrev pub codes : String → Text
codes String.[] = []
codes (String.◌∷◌ c s) = code c ∷ codes s

abbrev pub same : List ℕ → List ℕ → Bool
same [] [] = true
same [] (y ∷ ys) = false
same (x ∷ xs) [] = false
same (x ∷ xs) (y ∷ ys) = x == y && same xs ys

pub same_sound : (xs ys : List ℕ) → same xs ys ≡ true → xs ≡ ys
same_sound [] [] h = refl
same_sound [] (y ∷ ys) h = cc
same_sound (x ∷ xs) [] h = cc
same_sound (x ∷ xs) (y ∷ ys) h = ground (arith, same_sound xs ys)

pub same_refl : (xs : List ℕ) → same xs xs ≡ true
same_refl [] = refl
same_refl (x ∷ xs) = ground (arith, same_refl xs)

pub same_iff : (xs ys : List ℕ) → (same xs ys ≡ true) ↔ (xs ≡ ys)
same_iff xs ys = (same_sound xs ys, λ e. rw (← e) (same_refl xs))

pub same_comm : (xs ys : List ℕ) → same xs ys ≡ same ys xs
same_comm [] [] = refl
same_comm [] (y ∷ ys) = refl
same_comm (x ∷ xs) [] = refl
same_comm (x ∷ xs) (y ∷ ys) = ground (arith, same_comm xs ys)
