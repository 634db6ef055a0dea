-- ===== src/Tests/QuantizedTests.antt =====
-- A run of the INT8 benchmark.
use tinyllama_inference_engi.Prelude.{◌≡◌, refl, true, false, [], ◌∷◌, if◌then◌else◌, codes, same}
use tinyllama_inference_engi.Prelude.Int.{pos}
use tinyllama_inference_engi.Result.{Result, ok}
use tinyllama_inference_engi.Samples.{sample_floats, sample_sha}
use tinyllama_inference_engi.Json.{int, str, fields, set_field}
use tinyllama_inference_engi.Json.Equal.{eq_value, to_int, to_float}
use tinyllama_inference_engi.Benchmark.{expect_fields}
use tinyllama_inference_engi.Benchmark.Summary.{
  insert_float, sort_floats, rank, percentile, measured, summarize_fields, summarize,
}
use tinyllama_inference_engi.Benchmark.Report.{sort_integers, insert_integer, distinct_integers}
use tinyllama_inference_engi.Quantized.{
  float16, int8_weight_only, expected_gpu, load_checksums, expected_result, finite_values,
  finite_samples, check_allocations, validate_result, Acceptance, acceptance, validate_contexts,
}
use tinyllama_inference_engi.Quantized
use tinyllama_inference_engi.Quantized.Report as Int8
use tinyllama_inference_engi.Quantized.Verdict.{Judged, int8_report-Judged}
use tinyllama_inference_engi.Tests.ReportTests.{context_result, manifest, snapshot}

abbrev int8_arguments : Quantized.Arguments
int8_arguments = record {
  contexts = pos 128 ∷ [];
  comparison_only = true;
  int8_first = true;
  output_tokens = pos 32;
  warmup = pos 3;
  samples = pos 1;
  engine_exists = true;
}

abbrev runs : Int8.Runs sample_floats
runs mode context = ok (
  context_result mode
      (if same mode float16 then codes "model_fp16_sha256" else codes "model_int8_sha256") context
      ((codes "model_weight_sha256", str sample_sha)
        ∷ (codes "device_allocation_count_before_workload", int (pos 40))
        ∷ (codes "device_allocation_count_after_workload", int (pos 40))
        ∷ (codes "kv_cache_bytes", int (pos 1024))
        ∷ []),
  fields [],
)

abbrev int8_report_of : Result (Int8.Report sample_floats) → Int8.Report sample_floats
int8_report_of (ok r) = r
int8_report_of e = record {
  raw = [];
  summaries = [];
  accepted = record {
    throughput_gain = 0;
    memory_reduction = 0;
    throughput_passed = false;
    memory_passed = false;
    passed = false;
  };
  stable = false;
  passed = false;
}

abbrev int8_report : Int8.Report sample_floats
int8_report =
    int8_report_of
      (Int8.int8_report sample_floats runs int8_arguments manifest (ok snapshot) (ok snapshot))

int8_report_ok :
    Int8.int8_report sample_floats runs int8_arguments manifest (ok snapshot) (ok snapshot)
    ≡ ok int8_report
unfolding Int8.int8_report Quantized.check_arguments validate_contexts sort_integers insert_integer
    distinct_integers load_checksums Int8.run_contexts Int8.run_modes validate_result expect_fields
    expected_result finite_samples finite_values check_allocations Int8.judge Int8.summarize_runs
    Int8.summarize_run Int8.summary_of acceptance Int8.allocation_stable summarize summarize_fields
    measured percentile rank sort_floats insert_float eq_value to_int to_float set_field
int8_report_ok = refl

int8_report-Judged_example : Judged sample_floats int8_report
int8_report-Judged_example =
    int8_report-Judged sample_floats runs int8_arguments manifest (ok snapshot) (ok snapshot)
      int8_report int8_report_ok
