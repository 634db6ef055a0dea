-- ===== src/Benchmark/Exact.antt =====
-- Exactly which results `validate_context_result` of scripts/benchmark.py accepts, with every key and value written out.
use tinyllama_inference_engi.Prelude.{
  ◌≡◌, refl, ap, ◌∙◌, ◌↔◌, true, false, ◌||◌, not, List, [], ◌∷◌, ltb, length, all, All-append,
  Text, codes, &&_true, or_false,
}
use tinyllama_inference_engi.Prelude.Int.{
  ℤ, pos, ◌+ℤ◌, ltb_ℤ, leb_ℤ, eqb_ℤ, eqb_ℤ_sound, eqb_ℤ_refl,
}
use tinyllama_inference_engi.Result.{
  Result, Error, ok, value_error, >>=-eq-ok, raise_if, raise_if-eq-ok, not-false,
}
use tinyllama_inference_engi.Json.{Value, Fields, boolean, int, str, get, is_list, get_or, items}
use tinyllama_inference_engi.Json.Floats.{Floats}
use tinyllama_inference_engi.Json.Equal.{eq_value, to_int}
use tinyllama_inference_engi.Benchmark.{
  is_token, expect_fields, expected_context, validate_context_result,
}
use tinyllama_inference_engi.Benchmark.Accepted.{
  HasFields, expect_fields-HasFields, Claims, Accounted,
}

module _ (fl : Floats) where
  open fl use {F, is_finite, fle, flt, literal}

  pub HasFields-expect_fields :
      (e : Error) (expected : List (Text × Value F)) (result : Fields F)
      → HasFields fl expected result
      → expect_fields fl e expected result ≡ ok tt
  unfolding expect_fields
  HasFields-expect_fields e [] result h = refl
  HasFields-expect_fields e ((key, v) ∷ rest) result h =
      rw h.0 (HasFields-expect_fields e rest result h.1)

  -- The values of a context's result that the arguments fix
  abbrev pub context_fields : ℤ → ℤ → ℤ → ℤ → Text → Text → Text → List (Text × Value F)
  context_fields context output_tokens warmup samples gpu source fp16 =
      (codes "gpu", str gpu)
      ∷ (codes "dtype", str (codes "float16"))
      ∷ (codes "prompt_seed_text", str (codes "The capital of France is"))
      ∷ (
        codes "context_construction",
        str (codes "first seed token once, then cyclic repetition of remaining seed token IDs"),
      )
      ∷ (codes "sampling", str (codes "greedy"))
      ∷ (codes "batch", int (pos 1))
      ∷ (codes "context", int context)
      ∷ (codes "output_tokens", int output_tokens)
      ∷ (codes "warmup", int warmup)
      ∷ (codes "sample_count", int samples)
      ∷ (
        codes "rope_extrapolated_beyond_trained_context",
        boolean (ltb_ℤ (pos 2048) (context +ℤ output_tokens)),
      )
      ∷ (codes "model_source_sha256", str source)
      ∷ (codes "model_fp16_sha256", str fp16)
      ∷ (codes "compute_capability", str (codes "8.6"))
      ∷ []

  -- A result of a context that is valid for the arguments
  pub record ValidContext (context output_tokens warmup samples : ℤ) (gpu source fp16 : Text)
      (result : Fields F) : Type 0 where
    pub fields :
        HasFields fl (context_fields context output_tokens warmup samples gpu source fp16) result
    pub samples_listed : is_list (get (codes "samples") result) ≡ true
    pub sample_count : pos (length (items (get (codes "samples") result))) ≡ samples
    pub seed_listed : is_list (get (codes "prompt_seed_token_ids") result) ≡ true
    pub seed_length : ltb (length (items (get (codes "prompt_seed_token_ids") result))) 2 ≡ false
    pub seed_tokens : all is_token (items (get (codes "prompt_seed_token_ids") result)) ≡ true
    pub runtime : ℤ
    pub runtime_claimed : Claims fl result (codes "cuda_runtime_version") runtime
    pub runtime_positive : leb_ℤ runtime (pos 0) ≡ false
    pub accounted : Accounted fl result

  module _ (result : Fields F) (context output_tokens warmup samples : ℤ)
      (gpu source fp16 : Text) where
    valid_context :
        validate_context_result fl result context output_tokens warmup samples gpu source fp16
          ≡ ok tt
        → ValidContext context output_tokens warmup samples gpu source fp16 result
    unfolding validate_context_result expected_context
    valid_context h =
        let observations : Value F = get (codes "samples") result in
        let seeds : Value F = get (codes "prompt_seed_token_ids") result in
        let claim : Text → Result ℤ = λ key. to_int fl (get_or (int (pos 0)) key result) in
        let checksums : List (Text × Value F) =
          (codes "model_source_sha256", str source) ∷ (codes "model_fp16_sha256", str fp16) ∷ [] in
        let (u, fields, h1) =
          >>=-eq-ok
            (expect_fields fl (value_error "context field mismatch")
              (expected_context fl context output_tokens warmup samples gpu) result)
            _ h in
        let (u1, counted, h2) =
          >>=-eq-ok
            (raise_if
              (not (is_list observations)
                || not (eqb_ℤ (pos (length (items observations))) samples))
              (value_error "context returned an unexpected number of samples"))
            _ h1 in
        let (u2, tokens, h3) =
          >>=-eq-ok
            (raise_if
              (not (is_list seeds)
                || (ltb (length (items seeds)) 2 || not (all is_token (items seeds))))
              (value_error "context has invalid prompt seed token IDs"))
            _ h2 in
        let (u3, sums, h4) =
          >>=-eq-ok (expect_fields fl (value_error "context checksum mismatch") checksums result) _
            h3 in
        let (u4, capability, h5) =
          >>=-eq-ok
            (raise_if
              (not (eq_value fl (get (codes "compute_capability") result) (str (codes "8.6"))))
              (value_error "context did not run on the required SM 86 GPU"))
            _ h4 in
        let (runtime, hr, h6) = >>=-eq-ok (claim (codes "cuda_runtime_version")) _ h5 in
        let (u5, recorded, h7) =
          >>=-eq-ok
            (raise_if (leb_ℤ runtime (pos 0)) (value_error "context has no CUDA runtime version")) _
            h6 in
        let (vram, hv, h8) = >>=-eq-ok (claim (codes "vram_bytes")) _ h7 in
        let (model, hm, h9) = >>=-eq-ok (claim (codes "model_device_bytes")) _ h8 in
        let (peak, hp, h10) = >>=-eq-ok (claim (codes "engine_peak_device_bytes")) _ h9 in
        let (listed, count) = or_false _ _ (raise_if-eq-ok _ _ counted) in
        let (seed_listed, seed) = or_false _ _ (raise_if-eq-ok _ _ tokens) in
        let (long, all_tokens) = or_false _ _ seed in
        let (sized, ordered) = &&_true _ _ (not-false _ (raise_if-eq-ok _ _ h10)) in
        let (inside, below) = &&_true _ _ ordered in
        let f =
          expect_fields-HasFields fl (value_error "context field mismatch")
            (expected_context fl context output_tokens warmup samples gpu) result fields in
        let c =
          expect_fields-HasFields fl (value_error "context checksum mismatch") checksums result
            sums in
        record {
          fields = with_checksums f c (not-false _ (raise_if-eq-ok _ _ capability));
          samples_listed = not-false _ listed;
          sample_count = eqb_ℤ_sound _ _ (not-false _ count);
          seed_listed = not-false _ seed_listed;
          seed_length = long;
          seed_tokens = not-false _ all_tokens;
          runtime = runtime;
          runtime_claimed = hr;
          runtime_positive = raise_if-eq-ok _ _ recorded;
          accounted = record {
            model = model;
            peak = peak;
            vram = vram;
            model_claimed = hm;
            peak_claimed = hp;
            vram_claimed = hv;
            model_positive = sized;
            model_in_peak = inside;
            peak_in_vram = below;
          };
        }
      where
        with_checksums :
            HasFields fl (expected_context fl context output_tokens warmup samples gpu) result
            → HasFields fl
                ((codes "model_source_sha256", str source)
                  ∷ (codes "model_fp16_sha256", str fp16)
                  ∷ [])
                result
            → eq_value fl (get (codes "compute_capability") result) (str (codes "8.6")) ≡ true
            → HasFields fl
                (context_fields context output_tokens warmup samples gpu source fp16)
                result
        with_checksums f c sm =
            All-append (λ (e : Text × Value F). eq_value fl (get e.0 result) e.1 ≡ true)
              (expected_context fl context output_tokens warmup samples gpu)
              ((codes "model_source_sha256", str source)
                ∷ (codes "model_fp16_sha256", str fp16)
                ∷ (codes "compute_capability", str (codes "8.6"))
                ∷ [])
              f (c.0, (c.1.0, (sm, tt)))

    context_accepted :
        ValidContext context output_tokens warmup samples gpu source fp16 result
        → validate_context_result fl result context output_tokens warmup samples gpu source fp16
          ≡ ok tt
    unfolding validate_context_result expected_context
    context_accepted v =
        let (
          gpu_ok,
          (
            dtype_ok,
            (
              seed_ok,
              (
                built_ok,
                (
                  sampling_ok,
                  (
                    batch_ok,
                    (
                      context_ok,
                      (
                        output_ok,
                        (warmup_ok, (count_ok, (rope_ok, (source_ok, (fp16_ok, (sm, u)))))),
                      ),
                    ),
                  ),
                ),
              ),
            ),
          ),
        ) =
          ValidContext.fields v in
        let a = ValidContext.accounted v in
        let fields =
          HasFields-expect_fields (value_error "context field mismatch")
            (expected_context fl context output_tokens warmup samples gpu) result
            (
              gpu_ok,
              (
                dtype_ok,
                (
                  seed_ok,
                  (
                    built_ok,
                    (
                      sampling_ok,
                      (batch_ok, (context_ok, (output_ok, (warmup_ok, (count_ok, (rope_ok, tt)))))),
                    ),
                  ),
                ),
              ),
            ) in
        let sums =
          HasFields-expect_fields (value_error "context checksum mismatch")
            ((codes "model_source_sha256", str source) ∷ (codes "model_fp16_sha256", str fp16) ∷ [])
            result (source_ok, (fp16_ok, tt)) in
        let counted : eqb_ℤ (pos (length (items (get (codes "samples") result)))) samples ≡ true =
          ap (λ n. eqb_ℤ n samples) (ValidContext.sample_count v) ∙ eqb_ℤ_refl samples in
        rw
          (
            fields,
            ValidContext.samples_listed v,
            counted,
            ValidContext.seed_listed v,
            ValidContext.seed_length v,
            ValidContext.seed_tokens v,
            sums,
            sm,
            ValidContext.runtime_claimed v,
            ValidContext.runtime_positive v,
            Accounted.vram_claimed a,
            Accounted.model_claimed a,
            Accounted.peak_claimed a,
            Accounted.model_positive a,
            Accounted.model_in_peak a,
            Accounted.peak_in_vram a,
          )
          refl

    -- The result of a context is accepted exactly if it has the fourteen values that the arguments
    -- fix, lists as many samples as it says and at least two seed tokens, names a CUDA runtime, and
    -- accounts for its memory: the model is not empty, it fits into the peak, and the peak into the
    -- card.
    pub validate_context_result-↔-ValidContext :
        (validate_context_result fl result context output_tokens warmup samples gpu source fp16
          ≡ ok tt)
        ↔ ValidContext context output_tokens warmup samples gpu source fp16 result
    validate_context_result-↔-ValidContext = (valid_context, context_accepted)
