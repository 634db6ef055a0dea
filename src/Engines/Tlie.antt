-- ===== src/Engines/Tlie.antt =====
-- `tlie_rows` of scripts/compare_engines.py: the two rows of this engine, from its reports. `show`
-- stands for Python's `str` on what is not a text.
use tinyllama_inference_engi.Prelude.{
  Bool, false, ◌||◌, not, Option, none, some, List, [], ◌∷◌, if◌then◌else◌, Text, codes, same,
}
use tinyllama_inference_engi.Prelude.Strings.{starts_with}
use tinyllama_inference_engi.Prelude.Int.{pos, eqb_ℤ}
use tinyllama_inference_engi.Result.{
  Result, Error, ok, err, value_error, stop_iteration, zero_division_error, ◌>>=◌, ◌>>◌, raise_if,
}
use tinyllama_inference_engi.Json.Floats.{Floats}
use tinyllama_inference_engi.Json.{
  Value, Fields, null, boolean, int, float, str, arr, obj, nil, cons, end, fields, get, get_or,
  index, is_dict, is_true, as_dict, as_list, as_str, mentions, subscript,
}
use tinyllama_inference_engi.Json.Equal.{eq_value, fields_of, to_int, to_float}
use tinyllama_inference_engi.Benchmark.{is_digest}
use tinyllama_inference_engi.Engines.{verified_tree, differs, prompt_seed}

-- `str(v)`
abbrev pub text_of : {F : Type 0} → (Value F → Text) → Value F → Text
text_of show (str s) = s
text_of show v = show v

-- `names[mode]`
abbrev pub engine_of : Text → Text
engine_of mode = if same mode (codes "float16") then codes "tlie_fp16" else codes "tlie_int8"

abbrev pub unaccepted_batch : Error
unaccepted_batch = value_error "TLIE Batch 4 report is not a comparable accepted workload"

module _ (fl : Floats) where
  open fl use {F, feq, add, mul, div, literal}

  -- One round of the loop over the two reports
  unfoldable pub accepted_tree : Fields F → Result Text
  unfolding verified_tree
  accepted_tree document = do
    tree_sha256 ← verified_tree fl document
    acceptance ← as_dict (get (codes "acceptance") document)
    raise_if (not (is_true (get (codes "passed") acceptance)))
        (value_error "report did not pass its engine acceptance gates")
    ok tree_sha256

  -- The conditions on the batch report; the digest of its tree
  unfoldable pub batch_tree : Fields F → Value F → Result Text
  unfolding fields_of
  batch_tree batch_report benchmark = do
    let source = get (codes "source") batch_report
    before ←
        as_dict
          (if is_dict source then get_or (obj end) (codes "before") (fields_of source) else obj end)
    let tree_sha256 = get (codes "tree_sha256") before
    raise_if
        (not (is_dict source)
          || (not (
                eq_value fl (get (codes "before") (fields_of source))
                  (get (codes "after") (fields_of source)))
              || not (is_digest tree_sha256)))
        unaccepted_batch
    acceptance ← as_dict (get (codes "acceptance") batch_report)
    raise_if (not (is_true (get (codes "passed") acceptance))) unaccepted_batch
    batch ← as_dict benchmark
    raise_if
        (differs fl (codes "context") (int (pos 128)) batch
          || (differs fl (codes "output_tokens") (int (pos 32)) batch
              || (differs fl (codes "warmup") (int (pos 3)) batch
                  || (differs fl (codes "samples") (int (pos 10)) batch
                      || not (is_true (get (codes "tokens_match") batch))))))
        unaccepted_batch
    as_str tree_sha256

  unfoldable pub check_workload : Fields F → Result (Unit {0})
  check_workload workload =
      raise_if
        (differs fl (codes "contexts") (arr (cons (int (pos 128)) nil)) workload
          || (not (is_true (get (codes "comparison_only") workload))
              || (differs fl (codes "output_tokens") (int (pos 32)) workload
                  || (differs fl (codes "warmup") (int (pos 3)) workload
                      || (differs fl (codes "samples") (int (pos 10)) workload
                          || (differs fl (codes "sampling") (str (codes "greedy")) workload
                              || differs fl (codes "prompt_seed_text") (str prompt_seed)
                                  workload))))))
        (value_error "report used a non-comparable workload")

  module _ (show : Value F → Text) where
    -- `int(row["context"]) == 128 and str(row["mode"]) == mode`
    unfoldable pub is_row_of : Text → Value F → Result Bool
    is_row_of mode row = do
      v ← subscript row (codes "context")
      context ← to_int fl v
      if eqb_ℤ context (pos 128)
          then (do m ← subscript row (codes "mode"); ok (same (text_of show m) mode))
          else ok false

    -- `str(row["phase"]).startswith(mode)`
    unfoldable pub is_phase_of : Text → Value F → Result Bool
    unfolding starts_with
    is_phase_of mode row = do
      phase ← subscript row (codes "phase")
      ok (starts_with mode (text_of show phase))

    -- `next(row for row in rows if test(row))`
    unfoldable pub next_row : (Value F → Result Bool) → List (Value F) → Result (Value F)
    next_row test [] = err (stop_iteration "")
    next_row test (row ∷ rest) =
        let later = next_row test rest in do found ← test row; if found then ok row else later

    -- One round of the loop over the modes: a row, or none under its `continue`
    unfoldable pub tlie_row : Text → Text → Fields F → Value F → Result (Option (Fields F))
    unfolding check_workload is_row_of is_phase_of next_row
    tlie_row tree_sha256 mode selected_report benchmark = do
      w ← index selected_report (codes "workload")
      workload ← as_dict w
      check_workload workload
      summaries ← index selected_report (codes "summary") >>= as_list
      summary ← next_row (is_row_of mode) summaries
      raws ← index selected_report (codes "raw") >>= as_list
      raw ← next_row (is_row_of mode) raws
      generated_tokens ← subscript raw (codes "generated_tokens")
      monitors ← index selected_report (codes "gpu_workload_monitors") >>= as_list
      monitor ← next_row (is_phase_of mode) monitors
      thermal_states ← subscript monitor (codes "software_thermal_slowdown_states")
      context ← subscript summary (codes "context") >>= to_int fl
      if not (eqb_ℤ context (pos 128)) then ok none else (do
        ttft_ms ← subscript summary (codes "ttft_ms_median") >>= to_float fl
        tpot_ms ← subscript summary (codes "tpot_ms_median") >>= to_float fl
        output_tokens ← index workload (codes "output_tokens")
        warmup ← index workload (codes "warmup")
        samples ← index workload (codes "samples")
        let time = add ttft_ms (mul (literal 310 1) tpot_ms)
        raise_if (feq time (literal 0 1)) (zero_division_error "float division by zero")
        peak ← subscript summary (codes "engine_peak_device_bytes")
        batch_rate ←
            if same mode (codes "float16")
            then subscript benchmark (codes "batch_4_total_tokens_per_second")
            else ok null
        active ← mentions (codes "Active") thermal_states
        ok (
            some (
              fields (
                (codes "engine", str (engine_of mode))
                ∷ (codes "source_tree_sha256", str tree_sha256)
                ∷ (codes "status", str (codes "available"))
                ∷ (codes "dtype", str mode)
                ∷ (codes "context", int (pos 128))
                ∷ (codes "output_tokens", output_tokens)
                ∷ (codes "warmup", warmup)
                ∷ (codes "samples", samples)
                ∷ (codes "sampling", str (codes "greedy"))
                ∷ (codes "seed", int (pos 0))
                ∷ (codes "ttft_ms_median", float ttft_ms)
                ∷ (codes "tpot_ms_median", float tpot_ms)
                ∷ (codes "output_tokens_per_second_median", float (div (literal 320000 1) time))
                ∷ (codes "peak_device_bytes", peak)
                ∷ (codes "batch_4_total_tokens_per_second", batch_rate)
                ∷ (codes "generated_tokens", generated_tokens)
                ∷ (codes "software_thermal_slowdown_states", thermal_states)
                ∷ (codes "thermal_clean", boolean (not active))
                ∷ (
                  codes "note",
                  str (
                      codes
                        "TLIE paired benchmark; total tok/s includes TTFT; INT8 has no batched server path"),
                )
                ∷ []))))

    abbrev pub add_row : Option (Fields F) → List (Fields F) → List (Fields F)
    add_row none rows = rows
    add_row (some row) rows = row ∷ rows

    unfoldable pub tlie_rows : Value F → Option (Value F) → Value F → Result (List (Fields F))
    unfolding accepted_tree batch_tree tlie_row
    tlie_rows tlie int8 batch_document = do
      report ← as_dict tlie
      int8_report ← as_dict (elim int8 [ none ↦ tlie | some document ↦ document ])
      batch_report ← as_dict batch_document
      benchmark ← index batch_report (codes "benchmark")
      fp16_tree ← accepted_tree report
      int8_tree ← accepted_tree int8_report
      batch_tree_sha256 ← batch_tree batch_report benchmark
      raise_if (not (same fp16_tree int8_tree) || not (same fp16_tree batch_tree_sha256))
          (value_error "TLIE reports contain mixed source snapshots")
      fp16_row ← tlie_row fp16_tree (codes "float16") report benchmark
      int8_row ← tlie_row fp16_tree (codes "int8_weight_only") int8_report benchmark
      ok (add_row fp16_row (add_row int8_row []))
