-- ===== src/Exec.antt =====
-- Code that changes a state and may raise: what was written before a raise stays written, so the
-- state comes back beside the exception too.
use tinyllama_inference_engi.Prelude.{◌≡◌, refl, Bool, true, false}
use tinyllama_inference_engi.Result.{Result, Error, ok, err}

abbrev pub Exec {ℓ} : Type ℓ → Type ℓ → Type ℓ
Exec S A = S → Result A × S

module _ {ℓ} {S A : Type ℓ} where
  abbrev pub pure : A → Exec S A
  pure a s = (ok a, s)

  abbrev pub raise : Error → Exec S A
  raise e s = (err e, s)

  abbrev pub lift : Result A → Exec S A
  lift r s = (r, s)

  abbrev pub gets : (S → A) → Exec S A
  gets f s = (ok (f s), s)

module _ {ℓ} {S A B : Type ℓ} where
  abbrev pub continue : Result A → (A → Exec S B) → Exec S B
  continue (ok a) f s = f a s
  continue (err e) f s = (err e, s)

  infixl 5 ◌>>=◌ ◌>>◌
  abbrev pub ◌>>=◌ : Exec S A → (A → Exec S B) → Exec S B
  ◌>>=◌ m f s = let (r, s') = m s in continue r f s'

  abbrev pub ◌>>◌ : Exec S A → Exec S B → Exec S B
  m >> k = m >>= λ _. k

abbrev pub modify : {S : Type 0} → (S → S) → Exec S (Unit {0})
modify f s = (ok tt, f s)

-- `if b: raise e`
abbrev pub raise_when : {S : Type 0} → Bool → Error → Exec S (Unit {0})
raise_when true e s = (err e, s)
raise_when false e s = (ok tt, s)

-- `try: m  except Exception: cleanup; raise`
abbrev pub reraise_after : {S A : Type 0} → (S → S) → Result A × S → Result A × S
reraise_after cleanup (ok a, s) = (ok a, s)
reraise_after cleanup (err e, s) = (err e, cleanup s)

abbrev pub on_error : {S A : Type 0} → Exec S A → (S → S) → Exec S A
on_error m cleanup s = reraise_after cleanup (m s)

-- A block that returns has gone through its first step.
pub >>=-returns {ℓ} :
    {S A B : Type ℓ} (m : Exec S A) (f : A → Exec S B) (s : S) {b : B}
    → ((m >>= f) s).0 ≡ ok b
    → (a : A) × (m s ≡ (ok a, (m s).1)) × ((m >>= f) s ≡ f a (m s).1)
>>=-returns {S = S} {A = A} {B = B} m f s h = returned (m s) h
  where
    returned :
        {b : B} (r : Result A × S)
        → (continue r.0 f r.1).0 ≡ ok b
        → (a : A) × (r ≡ (ok a, r.1)) × (continue r.0 f r.1 ≡ f a r.1)
    returned (ok a, s') e = (a, refl, refl)
    returned (err x, s') e = cc
