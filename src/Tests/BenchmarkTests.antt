-- ===== src/Tests/BenchmarkTests.antt =====
-- Runs of the validators of the benchmark results.
use tinyllama_inference_engi.Prelude.{
  ℕ, ◌≡◌, ◌↔◌, refl, true, false, List, [], ◌∷◌, length, Text, codes,
}
use tinyllama_inference_engi.Prelude.Int.{ℤ, pos}
use tinyllama_inference_engi.Result.{ok}
use tinyllama_inference_engi.Samples.{sample_floats, sample_sha}
use tinyllama_inference_engi.Json.{
  Value, Items, Fields, null, boolean, int, float, str, arr, obj, nil, cons, end, field, get, items,
}
use tinyllama_inference_engi.Benchmark.Kernels.{
  validate_kernel_results, validate_kernel_results_lem, count_benchmarks, count_one, valid_times,
  same_counts, attention_contexts, covers,
}
use tinyllama_inference_engi.Json.Equal.{eq_value, to_int, to_float}
use tinyllama_inference_engi.Benchmark.{
  expect_fields, expected_context, validate_context_result, validate_consistent_runtime,
  same_identities, same_identity, validate_batch_result, positive_fields, prompt_seed_text,
  context_construction,
}
use tinyllama_inference_engi.Benchmark.Exact.{ValidContext, validate_context_result-↔-ValidContext}
use tinyllama_inference_engi.Benchmark.Runtime.{
  OneRuntime, validate_consistent_runtime-↔-OneRuntime,
}
use tinyllama_inference_engi.Benchmark.Batch.{ValidBatch, validate_batch_result-↔-ValidBatch}

abbrev gpu : Text
gpu = codes "NVIDIA GeForce RTX 3080 Laptop GPU"

abbrev context_result : Fields ℕ
context_result = field (codes "gpu") (str gpu) (
    field (codes "dtype") (str (codes "float16")) (
      field (codes "prompt_seed_text") (str prompt_seed_text) (
        field (codes "context_construction") (str context_construction) (
          field (codes "sampling") (str (codes "greedy")) (
            field (codes "batch") (int (pos 1)) (
              field (codes "context") (int (pos 128)) (
                field (codes "output_tokens") (int (pos 32)) (
                  field (codes "warmup") (int (pos 3)) (
                    field (codes "sample_count") (int (pos 1)) (
                      field (codes "rope_extrapolated_beyond_trained_context") (boolean false) (
                        field (codes "samples") (arr (cons null nil)) (
                          field (codes "prompt_seed_token_ids")
                            (arr (cons (int (pos 1)) (cons (int (pos 450)) nil)))
                            (field (codes "model_source_sha256") (str sample_sha) (
                              field (codes "model_fp16_sha256") (str sample_sha) (
                                field (codes "compute_capability") (str (codes "8.6")) (
                                  field (codes "cuda_runtime_version") (int (pos 12080)) (
                                    field (codes "vram_bytes") (int (pos 17179869184)) (
                                      field (codes "model_device_bytes") (int (pos 2200000000)) (
                                        field (codes "engine_peak_device_bytes")
                                          (int (pos 2400000000)) end)))))))))))))))))))

context_ok :
    validate_context_result sample_floats context_result
      (pos 128)
      (pos 32)
      (pos 3)
      (pos 1)
      gpu
      sample_sha
      sample_sha
    ≡ ok tt
unfolding validate_context_result expect_fields expected_context eq_value to_int
context_ok = refl

validate_context_result-↔-ValidContext_example :
    (validate_context_result sample_floats context_result
        (pos 128)
        (pos 32)
        (pos 3)
        (pos 1)
        gpu
        sample_sha
        sample_sha
      ≡ ok tt)
    ↔ ValidContext sample_floats
        (pos 128)
        (pos 32)
        (pos 3)
        (pos 1)
        gpu
        sample_sha
        sample_sha
        context_result
validate_context_result-↔-ValidContext_example =
    validate_context_result-↔-ValidContext sample_floats context_result (pos 128) (pos 32) (pos 3)
      (pos 1) gpu sample_sha sample_sha

context_result-ValidContext :
    ValidContext sample_floats
      (pos 128)
      (pos 32)
      (pos 3)
      (pos 1)
      gpu
      sample_sha
      sample_sha
      context_result
context_result-ValidContext =
    (validate_context_result-↔-ValidContext sample_floats context_result (pos 128) (pos 32) (pos 3)
        (pos 1) gpu sample_sha sample_sha).0
      context_ok

runtime_ok :
    validate_consistent_runtime sample_floats (context_result ∷ context_result ∷ []) ≡ ok tt
unfolding validate_consistent_runtime same_identities same_identity eq_value
runtime_ok = refl

validate_consistent_runtime-↔-OneRuntime_example :
    (validate_consistent_runtime sample_floats (context_result ∷ context_result ∷ []) ≡ ok tt)
    ↔ OneRuntime sample_floats (context_result ∷ context_result ∷ [])
validate_consistent_runtime-↔-OneRuntime_example =
    validate_consistent_runtime-↔-OneRuntime sample_floats (context_result ∷ context_result ∷ [])

results-OneRuntime : OneRuntime sample_floats (context_result ∷ context_result ∷ [])
results-OneRuntime =
    (validate_consistent_runtime-↔-OneRuntime sample_floats
        (context_result ∷ context_result ∷ [])).0
      runtime_ok

abbrev batch_result : Fields ℕ
batch_result = field (codes "schema_version") (int (pos 1)) (
    field (codes "mode") (str (codes "benchmark")) (
      field (codes "dtype") (str (codes "float16")) (
        field (codes "sampling") (str (codes "greedy")) (
          field (codes "context") (int (pos 128)) (
            field (codes "output_tokens") (int (pos 32)) (
              field (codes "warmup") (int (pos 3)) (
                field (codes "samples") (int (pos 10)) (
                  field (codes "kv_slots") (int (pos 4)) (
                    field (codes "model_fp16_sha256") (str sample_sha) (
                      field (codes "batch_1_total_tokens_per_second") (float 100) (
                        field (codes "batch_4_total_tokens_per_second") (float 210) (
                          field (codes "batch_4_over_batch_1") (float 2) (
                            field (codes "cuda_runtime_version") (int (pos 12080)) (
                              field (codes "tokens_match") (boolean true)
                                (field (codes "passed") (boolean true) end)))))))))))))))

batch_ok : validate_batch_result sample_floats batch_result sample_sha ≡ ok tt
unfolding validate_batch_result expect_fields positive_fields eq_value to_int to_float
batch_ok = refl

validate_batch_result-↔-ValidBatch_example :
    (validate_batch_result sample_floats batch_result sample_sha ≡ ok tt)
    ↔ ValidBatch sample_floats sample_sha batch_result
validate_batch_result-↔-ValidBatch_example =
    validate_batch_result-↔-ValidBatch sample_floats batch_result sample_sha

batch_result-ValidBatch : ValidBatch sample_floats sample_sha batch_result
batch_result-ValidBatch =
    (validate_batch_result-↔-ValidBatch sample_floats batch_result sample_sha).0 batch_ok

abbrev kernel : Text → ℤ → Value ℕ
kernel name context = obj (
    field (codes "name") (str name) (
      field (codes "warmup") (int (pos 10)) (
        field (codes "samples") (int (pos 50)) (
          field (codes "median_ms") (float 3) (
            field (codes "p95_ms") (float 4)
              (field (codes "shape") (obj (field (codes "context") (int context) end)) end))))))

abbrev one_each : List Text → Items ℕ → Items ℕ
one_each [] more = more
one_each (name ∷ rest) more = cons (kernel name (pos 0)) (one_each rest more)

abbrev kernels : Fields ℕ
kernels = field (codes "gpu") (str gpu) (
    field (codes "timing") (str (codes "cuda_event")) (
      field (codes "benchmarks")
        (arr (
          one_each
            (codes "rms_norm"
              ∷ codes "rope"
              ∷ codes "softmax"
              ∷ codes "kv_update"
              ∷ codes "silu_multiply"
              ∷ codes "residual_add"
              ∷ codes "gemv"
              ∷ codes "gemm"
              ∷ codes "int8_weight_only_gemv"
              ∷ codes "int8_embedding_row"
              ∷ [])
            (cons (kernel (codes "attention_decode") (pos 128)) (
              cons (kernel (codes "attention_decode") (pos 512)) (
                cons (kernel (codes "attention_decode") (pos 2048))
                  (cons (kernel (codes "attention_decode") (pos 4096)) nil))))))
        end))

kernels_ok : validate_kernel_results sample_floats kernels gpu ≡ ok tt
unfolding validate_kernel_results count_benchmarks count_one valid_times same_counts
    attention_contexts eq_value to_int to_float
kernels_ok = refl

validate_kernel_results_lem_example :
    (length (items (get (codes "benchmarks") kernels)) ≡ 14)
    × (contexts : List ℤ) × (attention_contexts sample_floats
          (items (get (codes "benchmarks") kernels))
        ≡ ok contexts)
    × (covers contexts ≡ true)
validate_kernel_results_lem_example =
    validate_kernel_results_lem sample_floats kernels gpu kernels_ok
