-- ===== src/Comparison/Prefix.antt =====
-- The common prefix of two token lists, and the position of their first mismatch.
use tinyllama_inference_engi.Prelude.{
  ℕ, suc, ◌+◌, ◌≤◌, min, ◌≡◌, refl, sym, ap, ◌∙◌, inl, inr, true, false, some, List, [], ◌∷◌, arith,
  ◌==◌, Bool-cases, &&_true, length, get_elem?, take,
}
use mathlib.Core.Path.{subst}
use tinyllama_inference_engi.Prelude.Int.{ℤ, eqb_ℤ, eqb_ℤ_sound, eqb_ℤ_refl}
use tinyllama_inference_engi.Result.{ok, zero_division_error, raise_if, >>=-eq-ok, ok-injective}
use tinyllama_inference_engi.Json.Floats.{Floats}
use tinyllama_inference_engi.Comparison.{
  prefix_from, common_prefix, first_mismatch, mismatch_position, or_else, same_tokens, agreements,
  Measured, Agreement, compare_int8,
}

-- The two lists agree up to the length of their common prefix, and there one of them ends or they
-- differ.
pub record IsPrefix (left right : List ℤ) (n : ℕ) : Type 0 where
  pub agree : take n left ≡ take n right
  pub within_left : n ≤ length left
  pub within_right : n ≤ length right
  pub maximal :
      (a b : ℤ) → get_elem? left n ≡ some a → get_elem? right n ≡ some b → eqb_ℤ a b ≡ false

IsPrefix-suc :
    (a : ℤ) (left right : List ℤ) (n : ℕ)
    → IsPrefix left right n
    → IsPrefix (a ∷ left) (a ∷ right) (suc n)
IsPrefix-suc a left right n p = record {
  agree = ap (λ l. a ∷ l) (IsPrefix.agree p);
  within_left = omega (arith, IsPrefix.within_left p);
  within_right = omega (arith, IsPrefix.within_right p);
  maximal = IsPrefix.maximal p;
}

prefix_from-IsPrefix :
    (count : ℕ) (left right : List ℤ)
    → (n : ℕ) × (prefix_from count left right ≡ count + n) × IsPrefix left right n
unfolding prefix_from
prefix_from-IsPrefix count [] right = (
  0,
  omega arith,
  record {
    agree = refl;
    within_left = omega arith;
    within_right = omega arith;
    maximal = λ a b h k. cc;
  },
)
prefix_from-IsPrefix count (l ∷ left) [] = (
  0,
  omega arith,
  record {
    agree = refl;
    within_left = omega arith;
    within_right = omega arith;
    maximal = λ a b h k. cc;
  },
)
prefix_from-IsPrefix count (l ∷ left) (r ∷ right) = elim (Bool-cases (eqb_ℤ l r)) [
  | inr e ↦ (
    0,
    rw e (omega arith),
    record {
      agree = refl;
      within_left = omega arith;
      within_right = omega arith;
      maximal = λ a b h k. differ l r a b e h k;
    },
  )
  | inl e ↦
      let (n, counted, p) = prefix_from-IsPrefix (count + 1) left right in
      (
        suc n,
        rw e (omega (arith, counted)),
        subst (λ x. IsPrefix (l ∷ left) (x ∷ right) (suc n)) (eqb_ℤ_sound l r e)
            (IsPrefix-suc l left right n p),
      )
]
  where
    differ :
        (l r a b : ℤ) → eqb_ℤ l r ≡ false → some l ≡ some a → some r ≡ some b → eqb_ℤ a b ≡ false
    differ l r a b e h k = let p : l ≡ a = cc in let q : r ≡ b = cc in rw (← p, ← q) e

common_prefix-IsPrefix : (left right : List ℤ) → IsPrefix left right (common_prefix left right)
unfolding common_prefix
common_prefix-IsPrefix left right =
    let (n, counted, p) = prefix_from-IsPrefix 0 left right in
    let e : prefix_from 0 left right ≡ n = omega (arith, counted) in
    subst (IsPrefix left right) (sym e) p

position_from :
    (i : ℕ) (actual expected : List ℤ)
    → or_else (first_mismatch i actual expected) (i + min (length actual) (length expected))
      ≡ prefix_from i actual expected
unfolding first_mismatch prefix_from
position_from i [] expected = omega arith
position_from i (a ∷ actual) [] = omega arith
position_from i (a ∷ actual) (e ∷ expected) = elim (Bool-cases (eqb_ℤ a e)) [
  | inr d ↦ rw d refl
  | inl d ↦ rw d (
      ap (or_else (first_mismatch (i + 1) actual expected)) (omega arith)
      ∙ position_from (i + 1) actual expected)
]

mismatch_position-eq-common_prefix :
    (actual expected : List ℤ) → mismatch_position actual expected ≡ common_prefix actual expected
unfolding mismatch_position common_prefix
mismatch_position-eq-common_prefix actual expected =
    ap (or_else (first_mismatch 0 actual expected)) (omega arith) ∙ position_from 0 actual expected

-- The common prefix of compare_int8.py is the greatest number of leading tokens in which the two
-- lists agree, and it is the position that compare_logits.py reports for a mismatch.
pub common_prefix_lem :
    (left right : List ℤ)
    → IsPrefix left right (common_prefix left right)
      × (mismatch_position left right ≡ common_prefix left right)
common_prefix_lem left right =
    (common_prefix-IsPrefix left right, mismatch_position-eq-common_prefix left right)

same_tokens_sound : (left right : List ℤ) → same_tokens left right ≡ true → left ≡ right
same_tokens_sound [] [] h = refl
same_tokens_sound [] (r ∷ right) h = cc
same_tokens_sound (l ∷ left) [] h = cc
same_tokens_sound (l ∷ left) (r ∷ right) h =
    let (e, more) = &&_true (eqb_ℤ l r) (same_tokens left right) h in
    ap (λ x. x ∷ left) (eqb_ℤ_sound l r e) ∙ ap (λ t. r ∷ t) (same_tokens_sound left right more)

prefix_from-same : (i : ℕ) (tokens : List ℤ) → prefix_from i tokens tokens ≡ i + length tokens
unfolding prefix_from
prefix_from-same i [] = omega arith
prefix_from-same i (t ∷ tokens) = rw (eqb_ℤ_refl t) (omega (arith, prefix_from-same (i + 1) tokens))

agreements-same : (tokens : List ℤ) → agreements tokens tokens ≡ length tokens
unfolding agreements
agreements-same [] = refl
agreements-same (t ∷ tokens) = rw (eqb_ℤ_refl t, agreements-same tokens) (omega arith)

module _ (fl : Floats) where
  open fl use {F, fle, div, literal}

  -- A comparison of the INT8 engine that passes has the golden tokens in both modes, so that their
  -- common prefix is all of them, and the cosine similarity is not below the minimum.
  pub compare_int8_passed :
      (minimum : F) (golden : List ℤ) (m : Measured fl) (r : Agreement fl)
      → compare_int8 fl minimum golden m ≡ ok r
      → Agreement.passed r ≡ true
      → (Measured.int8_tokens m ≡ golden)
        × (Measured.fp16_tokens m ≡ golden)
        × (Agreement.prefix r ≡ length golden)
        × (Agreement.agreement r ≡ div (literal (length golden) 0) (literal (length golden) 0))
        × (fle minimum (Measured.cosine_similarity m) ≡ true)
  unfolding compare_int8 common_prefix
  compare_int8_passed minimum golden m r h p =
      let (u, some_golden, h1) =
        >>=-eq-ok (raise_if (length golden == 0) (zero_division_error "division by zero")) _ h in
      let e = ok-injective h1 in
      let (top, p1) = &&_true (Measured.top1_matches m) _ (ap (Agreement.passed {fl = fl}) e ∙ p) in
      let (close, p2) = &&_true (fle minimum (Measured.cosine_similarity m)) _ p1 in
      let (int8, fp16) =
        &&_true (same_tokens (Measured.int8_tokens m) golden)
          (same_tokens (Measured.fp16_tokens m) golden) p2 in
      let int8_golden = same_tokens_sound (Measured.int8_tokens m) golden int8 in
      (
        int8_golden,
        same_tokens_sound (Measured.fp16_tokens m) golden fp16,
        ap (Agreement.prefix {fl = fl}) (sym e)
            ∙ (ap (λ t. prefix_from 0 t golden) int8_golden
                ∙ (prefix_from-same 0 golden ∙ omega arith)),
        ap (Agreement.agreement {fl = fl}) (sym e)
            ∙ ap (λ n. div (literal n 0) (literal (length golden) 0))
                (ap (λ t. agreements t golden) int8_golden ∙ agreements-same golden),
        close,
      )
