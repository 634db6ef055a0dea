-- ===== src/Benchmark/Batch.antt =====
-- Exactly which results the validator of scripts/benchmark_batch.py accepts, with every key and value
-- written out.
use tinyllama_inference_engi.Prelude.{
  ◌≡◌, refl, sym, ap, ◌∙◌, ◌↔◌, true, false, ◌||◌, not, List, [], ◌∷◌, Text, codes, or_false, All,
  inl, inr, Bool-cases,
}
use tinyllama_inference_engi.Prelude.Int.{ℤ, pos, leb_ℤ}
use tinyllama_inference_engi.Result.{
  ok, value_error, >>=-eq-ok, raise_if, raise_if-eq-ok, not-false, ok-injective,
}
use tinyllama_inference_engi.Json.{Value, Fields, int, float, str, get, has, index, is_true, get_or}
use tinyllama_inference_engi.Json.Floats.{Floats}
use tinyllama_inference_engi.Json.Equal.{to_int, to_float}
use tinyllama_inference_engi.Benchmark.{
  expected_batch, batch_numbers, expect_fields, positive_fields, validate_batch_result,
}
use tinyllama_inference_engi.Benchmark.Accepted.{
  HasFields, expect_fields-HasFields, index-get, Claims,
}
use tinyllama_inference_engi.Benchmark.Exact.{HasFields-expect_fields}

module _ (fl : Floats) where
  open fl use {F, is_finite, fle, flt, literal}

  abbrev pub batch_fields : Text → List (Text × Value F)
  batch_fields fp16 =
      (codes "schema_version", int (pos 1))
      ∷ (codes "mode", str (codes "benchmark"))
      ∷ (codes "context", int (pos 128))
      ∷ (codes "output_tokens", int (pos 32))
      ∷ (codes "warmup", int (pos 3))
      ∷ (codes "samples", int (pos 10))
      ∷ (codes "kv_slots", int (pos 4))
      ∷ (codes "dtype", str (codes "float16"))
      ∷ (codes "sampling", str (codes "greedy"))
      ∷ (codes "model_fp16_sha256", str fp16)
      ∷ []

  -- A finite number above zero; a missing one counts as zero.
  pub record Positive (result : Fields F) (key : Text) : Type 0 where
    pub value : F
    pub read : to_float fl (get_or (float (literal 0 1)) key result) ≡ ok value
    pub finite : is_finite value ≡ true
    pub above : fle value (literal 0 1) ≡ false

  pub record ValidBatch (fp16 : Text) (result : Fields F) : Type 0 where
    pub fields : HasFields fl (batch_fields fp16) result
    pub rate_one : Positive result (codes "batch_1_total_tokens_per_second")
    pub rate_four : Positive result (codes "batch_4_total_tokens_per_second")
    pub ratio_there : has (codes "batch_4_over_batch_1") result ≡ true
    pub ratio_positive : Positive result (codes "batch_4_over_batch_1")
    pub runtime : ℤ
    pub runtime_claimed : Claims fl result (codes "cuda_runtime_version") runtime
    pub runtime_positive : leb_ℤ runtime (pos 0) ≡ false
    pub tokens_match : is_true (get (codes "tokens_match") result) ≡ true
    pub speedup : flt (Positive.value ratio_positive) (literal 15 1) ≡ false
    pub passed : is_true (get (codes "passed") result) ≡ true

  positive_fields-Positive :
      (keys : List Text) (result : Fields F)
      → positive_fields fl keys result ≡ ok tt
      → All (Positive result) keys
  unfolding positive_fields
  positive_fields-Positive [] result h = tt
  positive_fields-Positive (key ∷ rest) result h =
      let (v, read, h1) = >>=-eq-ok (to_float fl (get_or (float (literal 0 1)) key result)) _ h in
      let (u, tested, h2) =
        >>=-eq-ok
          (raise_if (not (is_finite v) || fle v (literal 0 1))
            (value_error "batch benchmark field is invalid"))
          _ h1 in
      let (finite, above) = or_false _ _ (raise_if-eq-ok _ _ tested) in
      (
        record { value = v; read = read; finite = not-false _ finite; above = above },
        positive_fields-Positive rest result h2,
      )

  Positive-positive_fields :
      (keys : List Text) (result : Fields F)
      → All (Positive result) keys
      → positive_fields fl keys result ≡ ok tt
  unfolding positive_fields
  Positive-positive_fields [] result h = refl
  Positive-positive_fields (key ∷ rest) result h =
      let p = h.0 in
      rw (Positive.read p, Positive.finite p, Positive.above p)
        (Positive-positive_fields rest result h.1)

  -- The number of a field that is there
  index-Positive :
      (result : Fields F) (key : Text) (p : Positive result key) (v : Value F)
      → index result key ≡ ok v
      → to_float fl v ≡ ok (Positive.value p)
  index-Positive result key p v h = elim (Bool-cases (has key result)) [
    | inl there ↦ ap (to_float fl) (index-get key result v h) ∙ (rw there at (Positive.read p))
    | inr gone ↦ absurd (cc (rw gone at h))
  ]

  index-has :
      (result : Fields F) (key : Text) (v : Value F)
      → index result key ≡ ok v
      → has key result ≡ true
  index-has result key v h = elim (Bool-cases (has key result)) [
    | inl there ↦ there
    | inr gone ↦ absurd (cc (rw gone at h))
  ]

  module _ (result : Fields F) (fp16 : Text) where
    valid_batch : validate_batch_result fl result fp16 ≡ ok tt → ValidBatch fp16 result
    unfolding validate_batch_result
    valid_batch h =
        let (u, expected, h1) =
          >>=-eq-ok
            (expect_fields fl (value_error "batch benchmark field mismatch") (expected_batch fp16)
              result)
            _ h in
        let (u1, positive, h2) = >>=-eq-ok (positive_fields fl batch_numbers result) _ h1 in
        let (runtime, hr, h3) =
          >>=-eq-ok (to_int fl (get_or (int (pos 0)) (codes "cuda_runtime_version") result)) _ h2 in
        let (u2, recorded, h4) =
          >>=-eq-ok
            (raise_if (leb_ℤ runtime (pos 0))
              (value_error "batch benchmark did not record the CUDA runtime version"))
            _ h3 in
        let (u3, matched, h5) =
          >>=-eq-ok
            (raise_if (not (is_true (get (codes "tokens_match") result)))
              (value_error "Batch 4 generated tokens differ from Batch 1"))
            _ h4 in
        let (found, hf, h6) = >>=-eq-ok (index result (codes "batch_4_over_batch_1")) _ h5 in
        let (ratio, hq, h7) = >>=-eq-ok (to_float fl found) _ h6 in
        let (quick, passes) = or_false _ _ (raise_if-eq-ok _ _ h7) in
        let numbers = positive_fields-Positive batch_numbers result positive in
        let (
          schema,
          (
            mode,
            (dtype, (sampling, (context, (output, (warmup, (samples, (slots, (model, e)))))))),
          ),
        ) =
          expect_fields-HasFields fl (value_error "batch benchmark field mismatch")
            (expected_batch fp16) result expected in
        let same_ratio : ratio ≡ Positive.value (numbers.1.1.0) =
          ok-injective (
            sym hq ∙ index-Positive result (codes "batch_4_over_batch_1") numbers.1.1.0 found hf) in
        record {
          fields = (
            schema,
            (
              mode,
              (context, (output, (warmup, (samples, (slots, (dtype, (sampling, (model, tt)))))))),
            ),
          );
          rate_one = numbers.0;
          rate_four = numbers.1.0;
          ratio_there = index-has result (codes "batch_4_over_batch_1") found hf;
          ratio_positive = numbers.1.1.0;
          runtime = runtime;
          runtime_claimed = hr;
          runtime_positive = raise_if-eq-ok _ _ recorded;
          tokens_match = not-false _ (raise_if-eq-ok _ _ matched);
          speedup = ap (λ r. flt r (literal 15 1)) (sym same_ratio) ∙ quick;
          passed = not-false _ passes;
        }

    batch_accepted : ValidBatch fp16 result → validate_batch_result fl result fp16 ≡ ok tt
    unfolding validate_batch_result
    batch_accepted v =
        let (
          schema,
          (
            mode,
            (context, (output, (warmup, (samples, (slots, (dtype, (sampling, (model, e)))))))),
          ),
        ) =
          ValidBatch.fields v in
        let p = ValidBatch.ratio_positive v in
        let expected =
          HasFields-expect_fields fl (value_error "batch benchmark field mismatch")
            (expected_batch fp16) result
            (
              schema,
              (
                mode,
                (dtype, (sampling, (context, (output, (warmup, (samples, (slots, (model, tt)))))))),
              ),
            ) in
        let positive =
          Positive-positive_fields batch_numbers result
            (ValidBatch.rate_one v, (ValidBatch.rate_four v, (p, tt))) in
        let there : index result (codes "batch_4_over_batch_1")
            ≡ ok (get (codes "batch_4_over_batch_1") result) =
          rw (ValidBatch.ratio_there v) refl in
        rw
          (
            expected,
            positive,
            ValidBatch.runtime_claimed v,
            ValidBatch.runtime_positive v,
            ValidBatch.tokens_match v,
            there,
            index-Positive result (codes "batch_4_over_batch_1") p _ there,
            ValidBatch.speedup v,
            ValidBatch.passed v,
          )
          refl

    -- The result of the batch benchmark is accepted exactly if it has the ten fixed values, its three
    -- rates are finite and above zero, the ratio of the two throughputs is there and not below 1.5,
    -- it names a CUDA runtime, and it says that the tokens match and that it passed.
    pub validate_batch_result-↔-ValidBatch :
        (validate_batch_result fl result fp16 ≡ ok tt) ↔ ValidBatch fp16 result
    validate_batch_result-↔-ValidBatch = (valid_batch, batch_accepted)
