-- ===== src/Benchmark.antt =====
-- The validators of scripts/benchmark.py and of scripts/benchmark_batch.py over the JSON results of
-- the engine.
pub mod Accepted
pub mod Exact
pub mod Runtime
pub mod Batch
pub mod Kernels
pub mod Gpu
pub mod Summary
pub mod Report
pub mod Baseline
use tinyllama_inference_engi.Prelude.{
  ◌+◌, Bool, true, false, ◌&&◌, ◌||◌, not, List, [], ◌∷◌, ltb, leb, ◌==◌, if◌then◌else◌, length,
  all, Text, codes,
}
use tinyllama_inference_engi.Prelude.Int.{ℤ, pos, ◌+ℤ◌, ltb_ℤ, leb_ℤ, eqb_ℤ}
use tinyllama_inference_engi.Result.{
  Result, Error, ok, err, value_error, type_error, ◌>>=◌, ◌>>◌, raise_if,
}
use tinyllama_inference_engi.Json.{
  Value, Fields, null, boolean, int, float, str, arr, obj, get, has, index, is_list, to_list,
  get_or, items, subscript, is_true, as_dict,
}
use tinyllama_inference_engi.Json.Floats.{Floats}
use tinyllama_inference_engi.Json.Equal.{eq_value, to_int, to_float}

abbrev pub prompt_seed_text : Text
prompt_seed_text = codes "The capital of France is"

abbrev pub context_construction : Text
context_construction =
    codes "first seed token once, then cyclic repetition of remaining seed token IDs"

-- The identity of a runtime, in the order in which it is compared
abbrev pub identity_fields : List Text
identity_fields =
    codes "gpu"
    ∷ codes "vram_bytes"
    ∷ codes "compute_capability"
    ∷ codes "driver_version"
    ∷ codes "cuda_runtime_version"
    ∷ codes "model_source_sha256"
    ∷ codes "model_fp16_sha256"
    ∷ codes "dtype"
    ∷ codes "prompt_seed_text"
    ∷ codes "prompt_seed_token_ids"
    ∷ codes "context_construction"
    ∷ codes "sampling"
    ∷ codes "batch"
    ∷ []

-- `set(value) <= set("0123456789abcdef")`, with the length
unfoldable pub is_sha256 : Text → Bool
is_sha256 t = length t == 64 && all (λ c. (leb 48 c && leb c 57) || (leb 97 c && leb c 102)) t

-- `numeric_fields` of `validate_batch_result`
abbrev pub batch_numbers : List Text
batch_numbers =
    codes "batch_1_total_tokens_per_second"
    ∷ codes "batch_4_total_tokens_per_second"
    ∷ codes "batch_4_over_batch_1"
    ∷ []

-- `expected` of `validate_batch_result`
abbrev pub expected_batch : {F : Type 0} → Text → List (Text × Value F)
expected_batch expected_fp16_sha256 =
    ((codes "schema_version", int (pos 1))
      ∷ (codes "mode", str (codes "benchmark"))
      ∷ (codes "dtype", str (codes "float16"))
      ∷ (codes "sampling", str (codes "greedy"))
      ∷ (codes "context", int (pos 128))
      ∷ (codes "output_tokens", int (pos 32))
      ∷ (codes "warmup", int (pos 3))
      ∷ (codes "samples", int (pos 10))
      ∷ (codes "kv_slots", int (pos 4))
      ∷ (codes "model_fp16_sha256", str expected_fp16_sha256)
      ∷ [])

module _ {F : Type 0} where
  -- `isinstance(token, int) and token >= 0`
  abbrev pub is_token : Value F → Bool
  is_token (int n) = leb_ℤ (pos 0) n
  is_token (boolean b) = true
  is_token _ = false

  -- `except (KeyError, TypeError)`: nothing else is raised there.
  abbrev pub or_missing : Result (Value F × Value F) → Result (Value F × Value F)
  or_missing (ok p) = ok p
  or_missing (err e) = err (value_error "model manifest is missing pinned CUDA checksums")

  -- `isinstance(value, str) and len(value) == 64 and set(value) <= hexadecimal`
  abbrev pub checksum : Value F → Result Text
  checksum (str t) = if is_sha256 t then ok t else err (value_error "invalid checksum")
  checksum _ = err (value_error "invalid checksum")

  -- `isinstance(tree, str) and len(tree) == 64`
  abbrev pub is_digest : Value F → Bool
  is_digest (str t) = length t == 64
  is_digest _ = false

module _ (fl : Floats) where
  open fl use {F, is_finite, fle, flt, literal}

  -- The loop over the expected fields
  unfoldable pub expect_fields : Error → List (Text × Value F) → Fields F → Result (Unit {0})
  expect_fields mismatch [] result = ok tt
  expect_fields mismatch ((key, v) ∷ rest) result = do
    raise_if (not (eq_value fl (get key result) v)) mismatch
    expect_fields mismatch rest result

  unfoldable pub pinned_model_checksums : Value F → Result (Text × Text)
  unfolding is_sha256
  pinned_model_checksums document = do
    manifest ← as_dict document
    raise_if (not (eq_value fl (get (codes "schema_version") manifest) (int (pos 1))))
        (value_error "unsupported model manifest schema")
    (source, fp16) ← or_missing (do
      files ← subscript document (codes "files")
      model ← subscript files (codes "model.safetensors")
      source ← subscript model (codes "sha256")
      converted ← subscript document (codes "cuda_converted_format")
      fp16 ← subscript converted (codes "file_sha256")
      ok (source, fp16))
    source_sha256 ← checksum source
    fp16_sha256 ← checksum fp16
    ok (source_sha256, fp16_sha256)

  unfoldable pub expected_context : ℤ → ℤ → ℤ → ℤ → Text → List (Text × Value F)
  expected_context context output_tokens warmup samples expected_gpu =
      (codes "gpu", str expected_gpu)
      ∷ (codes "dtype", str (codes "float16"))
      ∷ (codes "prompt_seed_text", str prompt_seed_text)
      ∷ (codes "context_construction", str context_construction)
      ∷ (codes "sampling", str (codes "greedy"))
      ∷ (codes "batch", int (pos 1))
      ∷ (codes "context", int context)
      ∷ (codes "output_tokens", int output_tokens)
      ∷ (codes "warmup", int warmup)
      ∷ (codes "sample_count", int samples)
      ∷ (
        codes "rope_extrapolated_beyond_trained_context",
        boolean (ltb_ℤ (pos 2048) (context +ℤ output_tokens)),
      )
      ∷ []

  unfoldable pub validate_context_result :
      Fields F → ℤ → ℤ → ℤ → ℤ → Text → Text → Text → Result (Unit {0})
  unfolding expect_fields expected_context
  validate_context_result result context output_tokens warmup samples expected_gpu
        expected_source_sha256 expected_fp16_sha256 =
      do
        expect_fields (value_error "context field mismatch")
            (expected_context context output_tokens warmup samples expected_gpu) result
        let observations = get (codes "samples") result
        raise_if
            (not (is_list observations) || not (eqb_ℤ (pos (length (items observations))) samples))
            (value_error "context returned an unexpected number of samples")
        let seed_token_ids = get (codes "prompt_seed_token_ids") result
        raise_if
            (not (is_list seed_token_ids)
              || (ltb (length (items seed_token_ids)) 2
                  || not (all is_token (items seed_token_ids))))
            (value_error "context has invalid prompt seed token IDs")
        expect_fields (value_error "context checksum mismatch")
            ((codes "model_source_sha256", str expected_source_sha256)
              ∷ (codes "model_fp16_sha256", str expected_fp16_sha256)
              ∷ [])
            result
        raise_if (not (eq_value fl (get (codes "compute_capability") result) (str (codes "8.6"))))
            (value_error "context did not run on the required SM 86 GPU")
        runtime ← to_int fl (get_or (int (pos 0)) (codes "cuda_runtime_version") result)
        raise_if (leb_ℤ runtime (pos 0)) (value_error "context has no CUDA runtime version")
        vram_bytes ← to_int fl (get_or (int (pos 0)) (codes "vram_bytes") result)
        model_bytes ← to_int fl (get_or (int (pos 0)) (codes "model_device_bytes") result)
        peak_bytes ← to_int fl (get_or (int (pos 0)) (codes "engine_peak_device_bytes") result)
        raise_if
            (not (
              ltb_ℤ (pos 0) model_bytes
              && (leb_ℤ model_bytes peak_bytes && leb_ℤ peak_bytes vram_bytes)))
            (value_error "context has inconsistent CUDA memory accounting")

  -- The inner loop of `validate_consistent_runtime`
  unfoldable pub same_identity : List Text → Fields F → Fields F → Result (Unit {0})
  same_identity [] baseline result = ok tt
  same_identity (key ∷ rest) baseline result = do
    raise_if (not (eq_value fl (get key result) (get key baseline)))
        (value_error "benchmark runtime metadata changed between contexts")
    same_identity rest baseline result

  unfoldable pub same_identities : Fields F → List (Fields F) → Result (Unit {0})
  unfolding same_identity
  same_identities baseline [] = ok tt
  same_identities baseline (result ∷ rest) = do
    same_identity identity_fields baseline result
    same_identities baseline rest

  unfoldable pub validate_consistent_runtime : List (Fields F) → Result (Unit {0})
  unfolding same_identities
  validate_consistent_runtime [] = err (value_error "benchmark returned 0 context results")
  validate_consistent_runtime (baseline ∷ rest) = same_identities baseline rest

  unfoldable pub reproducible_source_baseline : Fields F → Fields F → Bool
  reproducible_source_baseline before after =
      is_digest (get (codes "tree_sha256") before) && eq_value fl (obj before) (obj after)

  -- The loop over the numeric fields of a batch result
  unfoldable pub positive_fields : List Text → Fields F → Result (Unit {0})
  positive_fields [] result = ok tt
  positive_fields (key ∷ rest) result = do
    v ← to_float fl (get_or (float (literal 0 1)) key result)
    raise_if (not (is_finite v) || fle v (literal 0 1))
        (value_error "batch benchmark field is invalid")
    positive_fields rest result

  unfoldable pub validate_batch_result : Fields F → Text → Result (Unit {0})
  unfolding expect_fields positive_fields
  validate_batch_result result expected_fp16_sha256 = do
    expect_fields (value_error "batch benchmark field mismatch")
        (expected_batch expected_fp16_sha256) result
    positive_fields batch_numbers result
    runtime ← to_int fl (get_or (int (pos 0)) (codes "cuda_runtime_version") result)
    raise_if (leb_ℤ runtime (pos 0))
        (value_error "batch benchmark did not record the CUDA runtime version")
    raise_if (not (is_true (get (codes "tokens_match") result)))
        (value_error "Batch 4 generated tokens differ from Batch 1")
    ratio ← index result (codes "batch_4_over_batch_1")
    speedup ← to_float fl ratio
    raise_if (flt speedup (literal 15 1) || not (is_true (get (codes "passed") result)))
        (value_error "Batch 4 throughput did not meet the 1.5x exit threshold")
