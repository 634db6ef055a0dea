-- ===== src/Tests/EnginesTests.antt =====
-- A run of the comparison of the engines.
use tinyllama_inference_engi.Prelude.{
  ℕ, zero, suc, ◌≡◌, refl, true, none, List, [], ◌∷◌, Text, codes,
}
use tinyllama_inference_engi.Prelude.Int.{pos}
use tinyllama_inference_engi.Prelude.Strings.{contains, starts_with}
use tinyllama_inference_engi.Prelude.Sort.{sort_texts, insert_text}
use tinyllama_inference_engi.Result.{Result, ok}
use tinyllama_inference_engi.Samples.{sample_floats, sample_sha}
use tinyllama_inference_engi.Json.{
  Value, Items, Fields, boolean, int, float, str, arr, obj, nil, cons, fields, get, set_field,
}
use tinyllama_inference_engi.Json.Equal.{eq_value, fields_of, to_int, to_float}
use tinyllama_inference_engi.Benchmark.{is_sha256}
use tinyllama_inference_engi.Engines.{
  prompt_seed, llama_cpp_commit, source_model_sha256, row_of, verified_tree, check_llama,
  external_row,
}
use tinyllama_inference_engi.Engines.Tlie.{
  accepted_tree, batch_tree, check_workload, is_row_of, is_phase_of, next_row, tlie_row, tlie_rows,
}
use tinyllama_inference_engi.Engines.Rows.{
  row_items, only_source, check_numbers, check_states, validate_row, validate_each, check_tokens,
  validate_rows, first_source, compare_engines,
}
use tinyllama_inference_engi.Engines.Comparable.{Comparable, compare_engines-Comparable}

abbrev repeat_item : ℕ → Items ℕ
repeat_item zero = nil
repeat_item (suc n) = cons (int (pos 7)) (repeat_item n)

abbrev tokens : Value ℕ
tokens = arr (repeat_item 32)

abbrev states : Value ℕ
states = arr (cons (str (codes "Not Active")) nil)

abbrev source : Value ℕ
source =
    let side = obj (fields ((codes "tree_sha256", str sample_sha) ∷ [])) in
    obj (fields ((codes "before", side) ∷ (codes "after", side) ∷ []))

abbrev external : Text → List (Text × Value ℕ) → Value ℕ
external engine more = obj (
    fields (
      (codes "engine", str engine)
      ∷ (codes "status", str (codes "available"))
      ∷ (codes "source", source)
      ∷ (codes "prompt_seed", str prompt_seed)
      ∷ (codes "model_source_sha256", str source_model_sha256)
      ∷ (
        codes "gpu_monitor",
        obj (fields ((codes "software_thermal_slowdown_states", states) ∷ [])),
      )
      ∷ (codes "context", int (pos 128))
      ∷ (codes "output_tokens", int (pos 32))
      ∷ (codes "warmup", int (pos 3))
      ∷ (codes "samples", int (pos 10))
      ∷ (codes "sampling", str (codes "greedy"))
      ∷ (codes "seed", int (pos 0))
      ∷ (codes "ttft_ms_median", float 20)
      ∷ (codes "tpot_ms_median", float 10)
      ∷ (codes "output_tokens_per_second_median", float 90)
      ∷ (codes "peak_device_bytes", int (pos 1000))
      ∷ (codes "generated_tokens", tokens)
      ∷ more))

abbrev pytorch : Value ℕ
pytorch = external (codes "pytorch_fp16") ((codes "tokens_deterministic", boolean true) ∷ [])

abbrev llama : Value ℕ
llama = external (codes "llama_cpp") (
    (codes "tokens_match_reference", boolean true)
    ∷ (codes "llama_cpp_commit", str llama_cpp_commit)
    ∷ (codes "model_gguf_sha256", str sample_sha)
    ∷ [])

abbrev accepted : Value ℕ
accepted = obj (fields ((codes "passed", boolean true) ∷ []))

abbrev summary : Text → Value ℕ
summary mode = obj (
    fields (
      (codes "context", int (pos 128))
      ∷ (codes "mode", str mode)
      ∷ (codes "ttft_ms_median", float 20)
      ∷ (codes "tpot_ms_median", float 10)
      ∷ (codes "engine_peak_device_bytes", int (pos 1000))
      ∷ (codes "generated_tokens", tokens)
      ∷ []))

abbrev monitor : Text → Value ℕ
monitor phase =
    obj (
      fields ((codes "phase", str phase) ∷ (codes "software_thermal_slowdown_states", states) ∷ []))

abbrev both : (Text → Value ℕ) → Value ℕ
both f = arr (cons (f (codes "float16")) (cons (f (codes "int8_weight_only")) nil))

abbrev tlie : Value ℕ
tlie = obj (
    fields (
      (codes "source", source)
      ∷ (codes "acceptance", accepted)
      ∷ (
        codes "workload",
        obj (
            fields (
              (codes "contexts", arr (cons (int (pos 128)) nil))
              ∷ (codes "comparison_only", boolean true)
              ∷ (codes "output_tokens", int (pos 32))
              ∷ (codes "warmup", int (pos 3))
              ∷ (codes "samples", int (pos 10))
              ∷ (codes "sampling", str (codes "greedy"))
              ∷ (codes "prompt_seed_text", str prompt_seed)
              ∷ [])),
      )
      ∷ (codes "summary", both summary)
      ∷ (codes "raw", both summary)
      ∷ (codes "gpu_workload_monitors", both monitor)
      ∷ []))

abbrev batch : Value ℕ
batch = obj (
    fields (
      (codes "source", source)
      ∷ (codes "acceptance", accepted)
      ∷ (
        codes "benchmark",
        obj (
            fields (
              (codes "context", int (pos 128))
              ∷ (codes "output_tokens", int (pos 32))
              ∷ (codes "warmup", int (pos 3))
              ∷ (codes "samples", int (pos 10))
              ∷ (codes "tokens_match", boolean true)
              ∷ (codes "batch_4_total_tokens_per_second", float 300)
              ∷ [])),
      )
      ∷ []))

abbrev show : Value ℕ → Text
show v = []

-- The document of the comparison, whatever it is, if there is one
abbrev document_of : Result (Fields ℕ) → Fields ℕ
document_of (ok d) = d
document_of e = fields []

abbrev document : Fields ℕ
document =
    document_of (compare_engines sample_floats show (ok pytorch) (ok llama) (ok tlie) none batch)

compared_ok :
    compare_engines sample_floats show (ok pytorch) (ok llama) (ok tlie) none batch ≡ ok document
unfolding compare_engines external_row verified_tree check_llama row_of fields_of tlie_rows
    accepted_tree batch_tree tlie_row check_workload is_row_of is_phase_of next_row validate_rows
    only_source validate_each validate_row check_states check_numbers check_tokens is_sha256
    sort_texts insert_text eq_value to_int to_float starts_with contains set_field
compared_ok = refl

compare_engines-Comparable_example :
    (rows : List (Fields ℕ)) × (get (codes "engines") document ≡ arr (row_items rows))
    × (first_source sample_floats show rows ≡ ok (get (codes "source_tree_sha256") document))
    × Comparable sample_floats show rows
compare_engines-Comparable_example =
    compare_engines-Comparable sample_floats show (ok pytorch) (ok llama) (ok tlie) none batch
      document compared_ok
