-- ===== src/Quantized.antt =====
-- scripts/benchmark_int8.py: the checks of the results of the FP16 and the INT8 engine, and the
-- acceptance. What the engine's runs return is an argument.
pub mod Report
pub mod Accepted
pub mod Verdict
use tinyllama_inference_engi.Prelude.{
  zero, ◌/◌, Bool, true, false, ◌&&◌, ◌||◌, not, List, [], ◌∷◌, if◌then◌else◌, length, Text, codes,
  same,
}
use tinyllama_inference_engi.Prelude.Int.{ℤ, pos, eqb_ℤ, ltb_ℤ, leb_ℤ}
use tinyllama_inference_engi.Result.{
  Result, Error, ok, err, value_error, file_not_found, stop_iteration, zero_division_error, ◌>>=◌,
  ◌>>◌, raise_if,
}
use tinyllama_inference_engi.Json.Floats.{Floats}
use tinyllama_inference_engi.Json.{
  Value, Fields, int, str, get, index, as_dict, as_list, subscript, is_int, set_field, end, field,
}
use tinyllama_inference_engi.Json.Equal.{eq_value, to_int, to_float}
use tinyllama_inference_engi.Benchmark.{expect_fields}
use tinyllama_inference_engi.Benchmark.Summary.{summarize}
use tinyllama_inference_engi.Benchmark.Report.{sort_integers, distinct_integers, same_integers}

abbrev pub expected_gpu : Text
expected_gpu = codes "NVIDIA GeForce RTX 3080 Laptop GPU"

abbrev pub float16 : Text
float16 = codes "float16"

abbrev pub int8_weight_only : Text
int8_weight_only = codes "int8_weight_only"

-- `modes`, in their order
abbrev pub modes_of : Bool → List Text
modes_of int8_first =
    if int8_first then int8_weight_only ∷ float16 ∷ [] else float16 ∷ int8_weight_only ∷ []

unfoldable pub validate_contexts : List ℤ → Bool → Result (Unit {0})
unfolding sort_integers distinct_integers
validate_contexts contexts comparison_only =
    raise_if
      (not (
        same_integers (sort_integers (distinct_integers contexts))
          (if comparison_only then pos 128 ∷ [] else pos 128 ∷ pos 4096 ∷ [])))
      (value_error "M5 comparison-only requires context 128")

pub record Arguments : Type 0 where
  pub contexts : List ℤ
  pub comparison_only : Bool
  pub int8_first : Bool
  pub output_tokens : ℤ
  pub warmup : ℤ
  pub samples : ℤ
  pub engine_exists : Bool

unfoldable pub check_arguments : Arguments → Result (Unit {0})
unfolding validate_contexts
check_arguments args = do
  validate_contexts args.contexts args.comparison_only
  raise_if (args.int8_first && not args.comparison_only)
      (value_error "int8-first is only valid with comparison-only")
  raise_if
      (ltb_ℤ args.output_tokens (pos 2)
        || (leb_ℤ args.warmup (pos 0) || leb_ℤ args.samples (pos 0)))
      (value_error "output-tokens must be >=2 and warmup/samples must be positive")
  raise_if (not args.engine_exists) (file_not_found "CUDA engine is missing")

-- The three checksums, which are not examined
pub record Checksums (F : Type 0) : Type 0 where
  pub source : Value F
  pub fp16 : Value F
  pub int8 : Value F

module _ {F : Type 0} where
  unfoldable pub load_checksums : Value F → Result (Checksums F)
  load_checksums document = do
    files ← subscript document (codes "files")
    model ← subscript files (codes "model.safetensors")
    source ← subscript model (codes "sha256")
    converted ← subscript document (codes "cuda_converted_format")
    fp16 ← subscript converted (codes "file_sha256")
    quantized ← subscript document (codes "int8_converted_format")
    int8 ← subscript quantized (codes "file_sha256")
    ok (record { source = source; fp16 = fp16; int8 = int8 })

  -- `checksums[mode]`
  abbrev pub checksum_of : Checksums F → Text → Value F
  checksum_of c mode = if same mode float16 then c.fp16 else c.int8

  -- `expected` of `validate_result`
  unfoldable pub expected_result : Text → ℤ → Arguments → Checksums F → List (Text × Value F)
  expected_result mode context args checksums =
      (codes "gpu", str expected_gpu)
      ∷ (codes "dtype", str (if same mode float16 then float16 else int8_weight_only))
      ∷ (codes "context", int context)
      ∷ (codes "output_tokens", int args.output_tokens)
      ∷ (codes "warmup", int args.warmup)
      ∷ (codes "sample_count", int args.samples)
      ∷ (codes "batch", int (pos 1))
      ∷ (codes "model_source_sha256", checksums.source)
      ∷ (
        if same mode float16 then codes "model_fp16_sha256" else codes "model_int8_sha256",
        checksum_of checksums mode,
      )
      ∷ (codes "model_weight_sha256", checksum_of checksums mode)
      ∷ []

abbrev pub count_before : Text
count_before = codes "device_allocation_count_before_workload"

abbrev pub count_after : Text
count_after = codes "device_allocation_count_after_workload"

module _ (fl : Floats) where
  open fl use {F, is_finite, fle, feq, literal, sub, div}

  -- The generator under `all`: the values of one sample, then of all of them
  unfoldable pub finite_values : Fields F → Result Bool
  finite_values end = ok true
  finite_values (field k v rest) =
      let later = finite_values rest in
      do x ← to_float fl v; if is_finite x && fle (literal 0 1) x then later else ok false

  unfoldable pub finite_samples : List (Value F) → Result Bool
  unfolding finite_values
  finite_samples [] = ok true
  finite_samples (sample ∷ rest) =
      let later = finite_samples rest in
      do d ← as_dict sample; finite ← finite_values d; if finite then later else ok false

  -- The conditions on the allocations
  unfoldable pub check_allocations : Fields F → Result (Unit {0})
  check_allocations result = do
    let before = get count_before result
    let after = get count_after result
    raise_if (not (is_int before)) (value_error "changed device allocation count")
    n ← to_int fl before
    raise_if (leb_ℤ n (pos 0) || not (eq_value fl after before))
        (value_error "changed device allocation count")
    raise_if (not (is_int (get (codes "kv_cache_bytes") result)))
        (value_error "returned invalid KV Cache bytes")
    bytes ← to_int fl (get (codes "kv_cache_bytes") result)
    raise_if (leb_ℤ bytes (pos 0)) (value_error "returned invalid KV Cache bytes")

  unfoldable pub validate_result : Fields F → Text → ℤ → Arguments → Checksums F → Result (Unit {0})
  unfolding expect_fields expected_result finite_samples check_allocations
  validate_result result mode context args checksums = do
    expect_fields fl (value_error "returned invalid field")
        (expected_result mode context args checksums) result
    measurements ← as_list (get (codes "samples") result)
    raise_if (not (eqb_ℤ (pos (length measurements)) args.samples))
        (value_error "returned an invalid sample count")
    finite ← finite_samples measurements
    raise_if (not finite) (value_error "contains NaN, Inf, or negative measurements")
    check_allocations result

  pub record Acceptance : Type 0 where
    pub throughput_gain : F
    pub memory_reduction : F
    pub throughput_passed : Bool
    pub memory_passed : Bool
    pub passed : Bool

  -- `float(summary[key])`
  abbrev pub number_of : Text → Fields F → Result F
  number_of key summary = do v ← index summary key; to_float fl v

  unfoldable pub acceptance : Fields F → Fields F → Result Acceptance
  acceptance fp16_summary int8_summary = do
    fp16_throughput ← number_of (codes "decode_tokens_per_second_median") fp16_summary
    int8_throughput ← number_of (codes "decode_tokens_per_second_median") int8_summary
    fp16_memory ← number_of (codes "engine_peak_device_bytes") fp16_summary
    int8_memory ← number_of (codes "engine_peak_device_bytes") int8_summary
    raise_if (feq fp16_throughput (literal 0 1) || feq fp16_memory (literal 0 1))
        (zero_division_error "float division by zero")
    let throughput_gain = sub (div int8_throughput fp16_throughput) (literal 10 1)
    let memory_reduction = sub (literal 10 1) (div int8_memory fp16_memory)
    ok (record {
      throughput_gain = throughput_gain;
      memory_reduction = memory_reduction;
      throughput_passed = fle (literal 20 2) throughput_gain;
      memory_passed = fle (literal 25 2) memory_reduction;
      passed = fle (literal 20 2) throughput_gain || fle (literal 25 2) memory_reduction;
    })
