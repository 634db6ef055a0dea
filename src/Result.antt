-- ===== src/Result.antt =====
-- Python exceptions as values: what a function of scripts/ returns, or the exception that it
-- raises with the fixed part of its message.
use tinyllama_inference_engi.Prelude.{
  ◌≡◌, refl, Bool, true, false, not, String, Option, none, some, ◌⊎◌, inl, inr,
}

pub data Error : Type 0 where
  value_error runtime_error type_error assertion_error file_not_found : String → Error
  struct_error key_error attribute_error os_error unicode_error timeout_error : String → Error
  index_error stop_iteration zero_division_error : String → Error
  system_exit : String → Error
  -- No exception of Python: a loop of the model used up its fuel.
  out_of_fuel : Error

pub data Result {ℓ} (A : Type ℓ) : Type ℓ where
  ok : A → Result A
  err : Error → Result A

-- `and_then` is `>>=`, for files in which that is another monad's.
module _ {ℓ κ} {Here : Type ℓ} {There : Type κ} where
  abbrev pub and_then : Result Here → (Here → Result There) → Result There
  and_then (err x) onward = err x
  and_then (ok v) onward = onward v

  infixl 5 ◌>>=◌ ◌>>◌
  abbrev pub ◌>>=◌ : Result Here → (Here → Result There) → Result There
  err x >>= onward = err x
  ok v >>= onward = onward v

  abbrev pub ◌>>◌ : Result Here → Result There → Result There
  first >> second = first >>= λ _. second

  -- What a bind that returns has gone through.
  pub >>=-eq-ok :
      (first : Result Here) (onward : Here → Result There) {w : There}
      → (first >>= onward) ≡ ok w
      → (v : Here) × (first ≡ ok v) × (onward v ≡ ok w)
  >>=-eq-ok (err x) onward = λ h. cc
  >>=-eq-ok (ok v) onward = λ h. (v, refl, h)

-- `if b: raise e`
abbrev pub raise_if : Bool → Error → Result (Unit {0})
raise_if true e = err e
raise_if false e = ok tt

-- A value that may be missing, and the exception that its absence raises.
abbrev pub or_raise {ℓ} : {A : Type ℓ} → Option A → Error → Result A
or_raise none e = err e
or_raise (some a) e = ok a

pub raise_if-eq-ok : (b : Bool) (e : Error) → raise_if b e ≡ ok tt → b ≡ false
raise_if-eq-ok true e h = cc
raise_if-eq-ok false e h = refl

pub Result-cases {ℓ} :
    {A : Type ℓ} (r : Result A) → ((a : A) × (r ≡ ok a)) ⊎ ((e : Error) × (r ≡ err e))
Result-cases (ok a) = inl (a, refl)
Result-cases (err e) = inr (e, refl)

pub ok-injective {ℓ} : {A : Type ℓ} {a b : A} → ok a ≡ ok b → a ≡ b
ok-injective h = cc

-- What a block that returns has found at its guard
pub raise_if-passed {ℓ} :
    {A : Type ℓ} {a : A} (b : Bool) (e : Error) (k : Result A)
    → (raise_if b e >> k) ≡ ok a
    → (b ≡ false) × (k ≡ ok a)
raise_if-passed true e k h = cc
raise_if-passed false e k h = (refl, h)

pub not-false : (b : Bool) → not b ≡ false → b ≡ true
not-false true h = refl
not-false false h = cc

pub or_raise-eq-ok {ℓ} :
    {A : Type ℓ} {a : A} (o : Option A) (e : Error) → or_raise o e ≡ ok a → o ≡ some a
or_raise-eq-ok none e h = cc
or_raise-eq-ok (some b) e h = cc
