-- ===== src/Comparison.antt =====
-- The comparisons of scripts/compare_logits.py and scripts/compare_int8.py: logits within a
-- tolerance, token lists, and the acceptance. The metrics of compare_int8.py are arguments.
pub mod Prefix
use tinyllama_inference_engi.Prelude.{
  ℕ, zero, ◌+◌, ◌/◌, min, Bool, true, false, ◌&&◌, ◌||◌, not, Option, none, some, List, [], ◌∷◌,
  ◌++◌, ◌==◌, if◌then◌else◌, length, all, Text, codes,
}
use tinyllama_inference_engi.Prelude.Int.{ℤ, pos, eqb_ℤ}
use tinyllama_inference_engi.Result.{
  Result, Error, ok, err, value_error, runtime_error, type_error, assertion_error, file_not_found,
  ◌>>=◌, ◌>>◌, raise_if, zero_division_error,
}
use tinyllama_inference_engi.Json.Floats.{Floats}
use tinyllama_inference_engi.Json.{Value, Fields, get, index, is_str}
use tinyllama_inference_engi.Snapshot.Document.{Completed}

-- The candidate, and whether it is a file
unfoldable pub resolve_reference : Text → Bool → (Text → Bool) → Result Text
resolve_reference path is_directory is_file = do
  let candidate = if is_directory then path ++ codes "/reference.json" else path
  raise_if (not (is_file candidate)) (file_not_found "fixed golden metadata is missing")
  ok candidate

-- `parse_engine_json`
unfoldable pub parse_engine_json :
    {F : Type 0} → (Text → Result (Value F)) → Completed → Result (Value F)
parse_engine_json loads completed = do
  raise_if (not (eqb_ℤ completed.returncode (pos 0))) (runtime_error "operation failed")
  loads completed.stdout

-- The loop of `common_prefix`, with its count
unfoldable pub prefix_from : ℕ → List ℤ → List ℤ → ℕ
prefix_from count [] right = count
prefix_from count (l ∷ left) [] = count
prefix_from count (l ∷ left) (r ∷ right) =
    let more = prefix_from (count + 1) left right in if eqb_ℤ l r then more else count

unfoldable pub common_prefix : List ℤ → List ℤ → ℕ
unfolding prefix_from
common_prefix = prefix_from 0

-- `next((index for index, pair in enumerate(zip(actual, expected)) if ...), min(...))`
unfoldable pub first_mismatch : ℕ → List ℤ → List ℤ → Option ℕ
first_mismatch i [] expected = none
first_mismatch i (a ∷ actual) [] = none
first_mismatch i (a ∷ actual) (e ∷ expected) =
    let more = first_mismatch (i + 1) actual expected in if not (eqb_ℤ a e) then some i else more

abbrev pub or_else : Option ℕ → ℕ → ℕ
or_else none default = default
or_else (some i) default = i

unfoldable pub mismatch_position : List ℤ → List ℤ → ℕ
unfolding first_mismatch
mismatch_position actual expected =
    or_else (first_mismatch 0 actual expected) (min (length actual) (length expected))

-- `actual == expected` of lists of integers
abbrev pub same_tokens : List ℤ → List ℤ → Bool
same_tokens [] [] = true
same_tokens [] (r ∷ right) = false
same_tokens (l ∷ left) [] = false
same_tokens (l ∷ left) (r ∷ right) = eqb_ℤ l r && same_tokens left right

-- The number of positions at which the tokens agree
unfoldable pub agreements : List ℤ → List ℤ → ℕ
agreements [] expected = 0
agreements (a ∷ actual) [] = 0
agreements (a ∷ actual) (e ∷ expected) = (if eqb_ℤ a e then 1 else 0) + agreements actual expected

module _ (fl : Floats) where
  open fl use {F, is_finite, fle, absolute, add, sub, mul, div, literal}

  -- `np.all(difference <= tolerance)`
  unfoldable pub within : F → F → List F → List F → Bool
  within atol rtol [] golden = true
  within atol rtol (a ∷ actual) [] = true
  within atol rtol (a ∷ actual) (g ∷ golden) =
      fle (absolute (sub a g)) (add atol (mul rtol (absolute g))) && within atol rtol actual golden

  -- The checks of `main` of compare_logits.py on the logits, then on the tokens
  unfoldable pub check_logits : F → F → List F → List F → Result (Unit {0})
  unfolding within
  check_logits atol rtol actual golden = do
    raise_if (not (length actual == length golden) || not (all is_finite actual))
        (value_error "CUDA logits have an invalid shape or contain NaN/Inf")
    raise_if (not (within atol rtol actual golden))
        (assertion_error "CUDA logit is outside tolerance")

  unfoldable pub check_generation : List ℤ → List ℤ → Fields F → Result (Unit {0})
  check_generation actual expected result = do
    raise_if (not (same_tokens actual expected)) (assertion_error "greedy token mismatch")
    raise_if (not (is_str (get (codes "text") result)))
        (type_error "CUDA engine response is missing decoded text")

  -- What compare_int8.py computes of a run
  pub record Measured : Type 0 where
    pub top1_matches : Bool
    pub cosine_similarity : F
    pub fp16_tokens : List ℤ
    pub int8_tokens : List ℤ

  pub record Agreement : Type 0 where
    pub prefix : ℕ
    pub agreement : F
    pub passed : Bool

  unfoldable pub compare_int8 : F → List ℤ → Measured → Result Agreement
  unfolding common_prefix agreements
  compare_int8 minimum_cosine golden_tokens m = do
    raise_if (length golden_tokens == 0) (zero_division_error "division by zero")
    ok (record {
      prefix = common_prefix m.int8_tokens golden_tokens;
      agreement =
          div (literal (agreements m.int8_tokens golden_tokens) 0)
            (literal (length golden_tokens) 0);
      passed =
          m.top1_matches
          && (fle minimum_cosine m.cosine_similarity
              && (same_tokens m.int8_tokens golden_tokens
                  && same_tokens m.fp16_tokens golden_tokens));
    })
