-- ===== src/Quantized/Report.antt =====
-- `main` of scripts/benchmark_int8.py from the checks of the arguments to the acceptance. The run of
-- an engine in a mode and at a context is an argument: the result and the summary of its monitor.
use tinyllama_inference_engi.Prelude.{
  Bool, true, false, ◌&&◌, not, List, [], ◌∷◌, ◌++◌, if◌then◌else◌, Text, codes,
}
use tinyllama_inference_engi.Prelude.Int.{ℤ, pos}
use tinyllama_inference_engi.Result.{
  Result, ok, err, value_error, stop_iteration, ◌>>=◌, ◌>>◌, raise_if,
}
use tinyllama_inference_engi.Json.Floats.{Floats}
use tinyllama_inference_engi.Json.{Value, Fields, int, str, index, as_dict, set_field}
use tinyllama_inference_engi.Json.Equal.{eq_value}
use tinyllama_inference_engi.Benchmark.Summary.{summarize}
use tinyllama_inference_engi.Benchmark.Report.{sort_integers}
use tinyllama_inference_engi.Quantized.{
  Arguments, Checksums, check_arguments, load_checksums, validate_result, Acceptance, acceptance,
  modes_of, float16, int8_weight_only, count_before, count_after,
}

module _ (fl : Floats) where
  open fl use {F}

  -- `run_json_monitored` of a mode and a context
  abbrev pub Runs : Type 0
  Runs = Text → ℤ → Result (Value F × Fields F)

  -- The inner loop
  unfoldable pub run_modes :
      Runs → Arguments → Checksums F → ℤ → List Text → Result (List (Fields F))
  unfolding validate_result
  run_modes runs args checksums context [] = ok []
  run_modes runs args checksums context (mode ∷ rest) = do
    (found, monitor) ← runs mode context
    result ← as_dict found
    validate_result fl result mode context args checksums
    more ← run_modes runs args checksums context rest
    ok (set_field (codes "mode") (str mode) result ∷ more)

  unfoldable pub run_contexts : Runs → Arguments → Checksums F → List ℤ → Result (List (Fields F))
  unfolding run_modes
  run_contexts runs args checksums [] = ok []
  run_contexts runs args checksums (context ∷ rest) = do
    results ← run_modes runs args checksums context (modes_of args.int8_first)
    more ← run_contexts runs args checksums rest
    ok (results ++ more)

  unfoldable pub summarize_run : Fields F → Result (Fields F)
  unfolding summarize
  summarize_run result = do
    summary ← summarize fl result
    mode ← index result (codes "mode")
    model ← index result (codes "model_device_bytes")
    peak ← index result (codes "engine_peak_device_bytes")
    cache ← index result (codes "kv_cache_bytes")
    allocations ← index result count_after
    ok (
        set_field (codes "device_allocation_count") allocations (
          set_field (codes "kv_cache_bytes") cache (
            set_field (codes "engine_peak_device_bytes") peak (
              set_field (codes "model_device_bytes") model
                (set_field (codes "mode") mode summary)))))

  unfoldable pub summarize_runs : List (Fields F) → Result (List (Fields F))
  unfolding summarize_run
  summarize_runs [] = ok []
  summarize_runs (result ∷ rest) = do
    summary ← summarize_run result
    more ← summarize_runs rest
    ok (summary ∷ more)

  -- `next(row for row in summaries if row["mode"] == mode and row["context"] == 128)`
  unfoldable pub summary_of : Text → List (Fields F) → Result (Fields F)
  summary_of mode [] = err (stop_iteration "")
  summary_of mode (row ∷ rest) =
      let later = summary_of mode rest in
      do
        found ← index row (codes "mode")
        context ← index row (codes "context")
        if eq_value fl found (str mode) && eq_value fl context (int (pos 128))
            then ok row
            else later

  -- `allocation_stable`: the generator under `all`
  unfoldable pub allocation_stable : List (Fields F) → Result Bool
  allocation_stable [] = ok true
  allocation_stable (result ∷ rest) =
      let later = allocation_stable rest in
      do
        before ← index result count_before
        after ← index result count_after
        if eq_value fl before after then later else ok false

  pub record Report : Type 0 where
    pub raw : List (Fields F)
    pub summaries : List (Fields F)
    pub accepted : Acceptance fl
    pub stable : Bool
    pub passed : Bool

  unfoldable pub judge : List (Fields F) → Result Report
  unfolding summarize_runs summary_of acceptance allocation_stable
  judge raw = do
    summaries ← summarize_runs raw
    fp16_128 ← summary_of float16 summaries
    int8_128 ← summary_of int8_weight_only summaries
    accepted ← acceptance fl fp16_128 int8_128
    stable ← allocation_stable raw
    ok (record {
      raw = raw;
      summaries = summaries;
      accepted = accepted;
      stable = stable;
      passed = Acceptance.passed accepted && stable;
    })

  unfoldable pub int8_report :
      Runs → Arguments → Value F → Result (Fields F) → Result (Fields F) → Result Report
  unfolding check_arguments load_checksums run_contexts judge
  int8_report runs args manifest before verifying = do
    check_arguments args
    checksums ← load_checksums manifest
    source_before ← before
    raw ← run_contexts runs args checksums (sort_integers args.contexts)
    source_after ← verifying
    tree_before ← index source_before (codes "tree_sha256")
    tree_after ← index source_after (codes "tree_sha256")
    raise_if (not (eq_value fl tree_before tree_after))
        (value_error "Mac source snapshot changed during M3 comparison")
    judge raw
