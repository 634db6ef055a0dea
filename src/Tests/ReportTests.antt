-- ===== src/Tests/ReportTests.antt =====
-- Runs of the reports of the benchmarks.
use tinyllama_inference_engi.Prelude.{
  ℕ, ◌+◌, ◌≡◌, refl, true, false, some, List, [], ◌∷◌, arith, ltb, ◌==◌, if◌then◌else◌, All, Text,
  codes,
}
use tinyllama_inference_engi.Prelude.Int.{ℤ, pos, pos_part}
use tinyllama_inference_engi.Prelude.Strings.{
  strip, strip_left, strip_right, is_white, splitlines, lines_after, is_break,
}
use tinyllama_inference_engi.Prelude.Sort.{sort_texts, insert_text}
use tinyllama_inference_engi.Result.{Result, ok, err, value_error}
use tinyllama_inference_engi.Samples.{sample_floats, sample_sha}
use tinyllama_inference_engi.Json.{
  Value, Items, Fields, boolean, int, float, str, arr, obj, nil, cons, fields, set_field,
}
use tinyllama_inference_engi.Json.Equal.{eq_value, to_int, to_float}
use tinyllama_inference_engi.Benchmark.{
  prompt_seed_text, context_construction, pinned_model_checksums, is_sha256, expect_fields,
  expected_context, validate_context_result, validate_consistent_runtime, same_identities,
  same_identity, reproducible_source_baseline,
}
use tinyllama_inference_engi.Benchmark.Accepted.{SameIdentity}
use tinyllama_inference_engi.Benchmark.Kernels.{
  validate_kernel_results, count_benchmarks, count_one, valid_times, same_counts,
  attention_contexts,
}
use tinyllama_inference_engi.Benchmark.Gpu.{
  filled_lines, last_line, parse_json_output, Observation, metric, metric_texts, distinct,
  first_time, last_time, least, greatest, floats_of, metric_values, summarize_gpu_monitor,
}
use tinyllama_inference_engi.Benchmark.Summary.{
  insert_float, sort_floats, rank, percentile, measured, measured_fields, summarize_fields,
  summarize, WeakOrder,
}
use tinyllama_inference_engi.Benchmark.Report.{
  cuda_toolkit_version, Watch, watch, sort_integers, insert_integer, distinct_integers, Arguments,
  check_arguments, Command, run_json_monitored, Surroundings, run_contexts, summarize_all,
  baseline_of, Report, before_contexts, judge, benchmark_report,
}
use tinyllama_inference_engi.Benchmark.Baseline.{Validated, benchmark_report-Validated, watch-ends}
use tinyllama_inference_engi.Quantized.{expected_gpu}

abbrev weak_order : WeakOrder sample_floats
weak_order = record {
  irreflexive = λ a f. ground arith;
  not_below = λ a b c f g k h m. ground arith;
  asymmetric = λ a b f g h. ground arith;
}

abbrev observation : Observation
observation = record {
  phase = codes "run";
  timestamp_utc = codes "t";
  metrics =
      (codes "name", expected_gpu)
      ∷ (codes "memory.used", codes "1000")
      ∷ (codes "pstate", codes "P0")
      ∷ (codes "temperature.gpu", codes "60")
      ∷ (codes "clocks.sm", codes "1500")
      ∷ (codes "clocks.mem", codes "7000")
      ∷ (codes "clocks_event_reasons.sw_thermal_slowdown", codes "Not Active")
      ∷ (codes "utilization.gpu", codes "99")
      ∷ [];
}

abbrev watched : List Watch
watched =
    record { ended_before = false; ended_after = false; sample = ok observation }
    ∷ record { ended_before = false; ended_after = true; sample = ok observation }
    ∷ record { ended_before = true; ended_after = true; sample = ok observation }
    ∷ []

watch-ends_example : (seen : List Observation) × (watch watched [] ≡ ok seen)
watch-ends_example =
    watch-ends watched [] refl
      ((observation, refl), ((observation, refl), ((observation, refl), tt)))

abbrev one_measurement : List Text → List (Text × Value ℕ)
one_measurement [] = []
one_measurement (key ∷ keys) = (key, float 100) ∷ one_measurement keys

abbrev pub context_result : Text → Text → ℤ → List (Text × Value ℕ) → Value ℕ
context_result dtype checksum_field context more = obj (
    fields (
      (codes "gpu", str expected_gpu)
      ∷ (codes "dtype", str dtype)
      ∷ (codes "prompt_seed_text", str prompt_seed_text)
      ∷ (codes "context_construction", str context_construction)
      ∷ (codes "sampling", str (codes "greedy"))
      ∷ (codes "batch", int (pos 1))
      ∷ (codes "context", int context)
      ∷ (codes "output_tokens", int (pos 32))
      ∷ (codes "warmup", int (pos 3))
      ∷ (codes "sample_count", int (pos 1))
      ∷ (
        codes "rope_extrapolated_beyond_trained_context",
        boolean (ltb 2048 (pos_part context + 32)),
      )
      ∷ (codes "samples", arr (cons (obj (fields (one_measurement measured_fields))) nil))
      ∷ (codes "prompt_seed_token_ids", arr (cons (int (pos 1)) (cons (int (pos 450)) nil)))
      ∷ (codes "model_source_sha256", str sample_sha)
      ∷ (checksum_field, str sample_sha)
      ∷ (codes "compute_capability", str (codes "8.6"))
      ∷ (codes "cuda_runtime_version", int (pos 12080))
      ∷ (codes "vram_bytes", int (pos 17179869184))
      ∷ (codes "model_device_bytes", int (pos 2200000000))
      ∷ (codes "engine_peak_device_bytes", int (pos 2400000000))
      ∷ more))

abbrev kernel : Text → ℤ → Value ℕ
kernel name context = obj (
    fields (
      (codes "name", str name)
      ∷ (codes "warmup", int (pos 10))
      ∷ (codes "samples", int (pos 50))
      ∷ (codes "median_ms", float 3)
      ∷ (codes "p95_ms", float 4)
      ∷ (codes "shape", obj (fields ((codes "context", int context) ∷ [])))
      ∷ []))

abbrev one_each : List Text → Items ℕ → Items ℕ
one_each [] more = more
one_each (name ∷ rest) more = cons (kernel name (pos 0)) (one_each rest more)

abbrev kernels : Value ℕ
kernels = obj (
    fields (
      (codes "gpu", str expected_gpu)
      ∷ (codes "timing", str (codes "cuda_event"))
      ∷ (
        codes "benchmarks",
        arr (
            one_each
              (codes "rms_norm"
                ∷ codes "rope"
                ∷ codes "softmax"
                ∷ codes "kv_update"
                ∷ codes "silu_multiply"
                ∷ codes "residual_add"
                ∷ codes "gemv"
                ∷ codes "gemm"
                ∷ codes "int8_weight_only_gemv"
                ∷ codes "int8_embedding_row"
                ∷ [])
              (cons (kernel (codes "attention_decode") (pos 128)) (
                cons (kernel (codes "attention_decode") (pos 512)) (
                  cons (kernel (codes "attention_decode") (pos 2048))
                    (cons (kernel (codes "attention_decode") (pos 4096)) nil))))),
      )
      ∷ []))

-- A document is one character: a k for the kernels, or the number of a context.
abbrev loads : Text → Result (Value ℕ)
loads [] = err (value_error "Expecting value")
loads (c ∷ t) =
    if c == 107
    then ok kernels
    else ok (context_result (codes "float16") (codes "model_fp16_sha256") (pos c) [])

abbrev command : ℕ → Command sample_floats
command c = record {
  first = ok observation;
  watches = watched;
  completed = record { returncode = pos 0; stdout = 65 ∷ 10 ∷ c ∷ 10 ∷ [] };
}

abbrev pub manifest : Value ℕ
manifest =
    let pinned = obj (fields ((codes "file_sha256", str sample_sha) ∷ [])) in
    obj (
      fields (
        (codes "schema_version", int (pos 1))
        ∷ (
          codes "files",
          obj (
              fields (
                (codes "model.safetensors", obj (fields ((codes "sha256", str sample_sha) ∷ [])))
                ∷ [])),
        )
        ∷ (codes "cuda_converted_format", pinned)
        ∷ (codes "int8_converted_format", pinned)
        ∷ []))

abbrev pub snapshot : Fields ℕ
snapshot = fields ((codes "tree_sha256", str sample_sha) ∷ [])

abbrev world : Surroundings sample_floats
world = record {
  loads = loads;
  manifest = ok manifest;
  nvcc = some (codes "/usr/bin/nvcc");
  nvcc_completed = record { returncode = pos 0; stdout = codes "release 12.8" };
  source_before = ok snapshot;
  source_after = ok snapshot;
  gpu_before = ok observation;
  kernels = command 107;
  gpu_after_kernels = ok observation;
  engine = λ context. command (pos_part context);
  gpu_after = λ context. ok observation;
}

abbrev arguments : Arguments
arguments = record {
  contexts = pos 2048 ∷ pos 128 ∷ pos 4096 ∷ pos 512 ∷ [];
  output_tokens = pos 32;
  warmup = pos 3;
  samples = pos 1;
  require_gpu_name = expected_gpu;
  executables_exist = true;
}

abbrev report_of : Result (Report sample_floats) → Report sample_floats
report_of (ok r) = r
report_of e = record {
  raw_contexts = [];
  summaries = [];
  throughput_passed = false;
  source_passed = false;
  passed = false;
}

abbrev report : Report sample_floats
report = report_of (benchmark_report sample_floats arguments world)

report_ok : benchmark_report sample_floats arguments world ≡ ok report
unfolding benchmark_report before_contexts check_arguments sort_integers insert_integer
    distinct_integers pinned_model_checksums is_sha256 cuda_toolkit_version filled_lines last_line
    splitlines lines_after is_break strip strip_left strip_right is_white metric run_json_monitored
    watch parse_json_output summarize_gpu_monitor metric_values metric_texts floats_of least
    greatest distinct sort_texts insert_text first_time last_time validate_kernel_results
    count_benchmarks count_one valid_times same_counts attention_contexts run_contexts
    validate_context_result expect_fields expected_context validate_consistent_runtime
    same_identities same_identity judge summarize_all summarize summarize_fields measured percentile
    rank sort_floats insert_float baseline_of reproducible_source_baseline eq_value to_int to_float
    set_field
report_ok = refl

benchmark_report-Validated_example :
    Validated sample_floats arguments
      (sort_integers arguments.contexts)
      (Report.raw_contexts report)
    × (baseline : Fields ℕ) × (rest : List (Fields ℕ)) × (Report.raw_contexts report
        ≡ baseline ∷ rest)
    × All (SameIdentity sample_floats baseline) rest
benchmark_report-Validated_example =
    benchmark_report-Validated sample_floats arguments world report report_ok
