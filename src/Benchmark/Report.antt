-- ===== src/Benchmark/Report.antt =====
-- `cuda_toolkit_version`, `run_json_monitored` and `main` of scripts/benchmark.py, from the checks of
-- the arguments to the acceptance. What the processes and nvidia-smi say is an argument.
use tinyllama_inference_engi.Prelude.{
  Bool, true, false, ◌&&◌, ◌||◌, not, Option, List, [], ◌∷◌, ◌++◌, if◌then◌else◌, any, Text, codes,
  same,
}
use tinyllama_inference_engi.Prelude.Strings.{strip, splitlines}
use tinyllama_inference_engi.Prelude.Int.{ℤ, pos, eqb_ℤ, ltb_ℤ, leb_ℤ}
use tinyllama_inference_engi.Result.{
  Result, ok, err, value_error, runtime_error, file_not_found, stop_iteration, out_of_fuel, ◌>>=◌,
  ◌>>◌, raise_if, or_raise,
}
use tinyllama_inference_engi.Json.Floats.{Floats}
use tinyllama_inference_engi.Json.{Value, Fields, int, index, as_dict}
use tinyllama_inference_engi.Json.Equal.{eq_value, to_float}
use tinyllama_inference_engi.Snapshot.Document.{Completed}
use tinyllama_inference_engi.Benchmark.{
  pinned_model_checksums, validate_context_result, validate_consistent_runtime,
  reproducible_source_baseline,
}
use tinyllama_inference_engi.Benchmark.Kernels.{validate_kernel_results}
use tinyllama_inference_engi.Benchmark.Gpu.{
  Observation, summarize_gpu_monitor, parse_json_output, filled_lines, last_line, metric,
}
use tinyllama_inference_engi.Benchmark.Summary.{summarize}

unfoldable pub cuda_toolkit_version : Option Text → Completed → Result Text
unfolding filled_lines last_line splitlines strip
cuda_toolkit_version nvcc completed = do
  or_raise nvcc (file_not_found "nvcc is required to record the CUDA toolkit version")
  raise_if (not (eqb_ℤ completed.returncode (pos 0))) (runtime_error "nvcc version query failed")
  line ←
      or_raise (last_line (filled_lines (splitlines completed.stdout)))
        (runtime_error "nvcc version query returned no version text")
  ok (strip line)

-- The polls of a running command: whether it has ended before and after the pause, and the GPU
-- sample that is taken if it has not.
pub record Watch : Type 0 where
  pub ended_before : Bool
  pub ended_after : Bool
  pub sample : Result Observation

-- `while process.poll() is None`
unfoldable pub watch : List Watch → List Observation → Result (List Observation)
watch [] observations = err out_of_fuel
watch (w ∷ rest) observations =
    let unseen = watch rest observations in
    if w.ended_before
    then ok observations
    else if w.ended_after
    then unseen
    else (do o ← w.sample; watch rest (observations ++ o ∷ []))

-- `sorted` of integers
unfoldable pub insert_integer : ℤ → List ℤ → List ℤ
insert_integer a [] = a ∷ []
insert_integer a (b ∷ rest) =
    let later = insert_integer a rest in if ltb_ℤ b a then b ∷ later else a ∷ b ∷ rest

unfoldable pub sort_integers : List ℤ → List ℤ
unfolding insert_integer
sort_integers [] = []
sort_integers (a ∷ rest) = insert_integer a (sort_integers rest)

-- `set(values)`
unfoldable pub distinct_integers : List ℤ → List ℤ
distinct_integers [] = []
distinct_integers (a ∷ rest) =
    let more = distinct_integers rest in if any (eqb_ℤ a) rest then more else a ∷ more

abbrev pub same_integers : List ℤ → List ℤ → Bool
same_integers [] [] = true
same_integers [] (b ∷ bs) = false
same_integers (a ∷ more) [] = false
same_integers (a ∷ more) (b ∷ bs) = eqb_ℤ a b && same_integers more bs

abbrev pub expected_contexts : List ℤ
expected_contexts = pos 128 ∷ pos 512 ∷ pos 2048 ∷ pos 4096 ∷ []

-- What `main` takes from its arguments
pub record Arguments : Type 0 where
  pub contexts : List ℤ
  pub output_tokens : ℤ
  pub warmup : ℤ
  pub samples : ℤ
  pub require_gpu_name : Text
  pub executables_exist : Bool

unfoldable pub check_arguments : Arguments → Result (Unit {0})
unfolding sort_integers distinct_integers
check_arguments args = do
  raise_if (not (same_integers (sort_integers (distinct_integers args.contexts)) expected_contexts))
      (value_error "M2 report requires exactly contexts 128, 512, 2048, and 4096")
  raise_if
      (ltb_ℤ args.output_tokens (pos 2)
        || (ltb_ℤ (pos 256) args.output_tokens
            || (leb_ℤ args.warmup (pos 0) || leb_ℤ args.samples (pos 0))))
      (value_error "output-tokens must be 2..256 and warmup/samples must be positive")
  raise_if (not args.executables_exist) (file_not_found "required CUDA executable is missing")

module _ (fl : Floats) where
  open fl use {F, fle, literal}

  -- A command that is started: its first GPU sample, its polls, how it ends
  pub record Command : Type 0 where
    pub first : Result Observation
    pub watches : List Watch
    pub completed : Completed

  unfoldable pub run_json_monitored :
      (Text → Result (Value F)) → Text → Command → Result (Value F × Fields F)
  unfolding watch parse_json_output summarize_gpu_monitor
  run_json_monitored loads phase command = do
    o ← command.first
    observations ← watch command.watches (o ∷ [])
    result ← parse_json_output loads command.completed
    monitor ← summarize_gpu_monitor fl phase observations
    ok (result, monitor)

  -- What surrounds the runs: the manifest, the two verifications of the source, the GPU at the
  -- start, the kernel benchmarks, and the run of each context, with the GPU after it
  pub record Surroundings : Type 0 where
    pub loads : Text → Result (Value F)
    pub manifest : Result (Value F)
    pub nvcc : Option Text
    pub nvcc_completed : Completed
    pub source_before : Result (Fields F)
    pub source_after : Result (Fields F)
    pub gpu_before : Result Observation
    pub kernels : Command
    pub gpu_after_kernels : Result Observation
    pub engine : ℤ → Command
    pub gpu_after : ℤ → Result Observation

  -- The loop over the contexts
  unfoldable pub run_contexts :
      Arguments → Surroundings → Text × Text → List ℤ → Result (List (Fields F))
  unfolding run_json_monitored validate_context_result
  run_contexts args world checksums [] = ok []
  run_contexts args world checksums (context ∷ rest) = do
    (found, monitor) ← run_json_monitored world.loads (codes "context") (world.engine context)
    result ← as_dict found
    validate_context_result fl result context args.output_tokens args.warmup args.samples
        args.require_gpu_name checksums.0 checksums.1
    after ← world.gpu_after context
    more ← run_contexts args world checksums rest
    ok (result ∷ more)

  unfoldable pub summarize_all : List (Fields F) → Result (List (Fields F))
  unfolding summarize
  summarize_all [] = ok []
  summarize_all (result ∷ rest) = do
    summary ← summarize fl result
    more ← summarize_all rest
    ok (summary ∷ more)

  -- `next(summary for summary in summaries if summary["context"] == 128)`
  unfoldable pub baseline_of : List (Fields F) → Result (Fields F)
  baseline_of [] = err (stop_iteration "")
  baseline_of (summary ∷ rest) =
      let later = baseline_of rest in
      do
        context ← index summary (codes "context")
        if eq_value fl context (int (pos 128)) then ok summary else later

  pub record Report : Type 0 where
    pub raw_contexts : List (Fields F)
    pub summaries : List (Fields F)
    pub throughput_passed : Bool
    pub source_passed : Bool
    pub passed : Bool

  -- `main` up to the first context: the pinned checksums and the source
  unfoldable pub before_contexts : Arguments → Surroundings → Result ((Text × Text) × Fields F)
  unfolding check_arguments pinned_model_checksums cuda_toolkit_version metric run_json_monitored
      validate_kernel_results
  before_contexts args world = do
    check_arguments args
    document ← world.manifest
    checksums ← pinned_model_checksums fl document
    toolkit_version ← cuda_toolkit_version world.nvcc world.nvcc_completed
    source_before ← world.source_before
    before ← world.gpu_before
    name ← metric (codes "name") before.metrics
    raise_if (not (same name args.require_gpu_name)) (runtime_error "designated GPU mismatch")
    (kernel_document, kernel_monitor) ←
        run_json_monitored world.loads (codes "kernel_microbenchmarks") world.kernels
    kernel_results ← as_dict kernel_document
    validate_kernel_results fl kernel_results args.require_gpu_name
    after_kernels ← world.gpu_after_kernels
    ok (checksums, source_before)

  -- The verdict on the results
  unfoldable pub judge : List (Fields F) → Fields F → Result (Fields F) → Result Report
  unfolding summarize_all baseline_of reproducible_source_baseline
  judge raw_contexts source_before verifying = do
    summaries ← summarize_all raw_contexts
    source_after ← verifying
    baseline ← baseline_of summaries
    rate ← index baseline (codes "decode_tokens_per_second_median")
    throughput ← to_float fl rate
    let throughput_passed = fle (literal 90 0) throughput
    let source_passed = reproducible_source_baseline fl source_before source_after
    ok (record {
      raw_contexts = raw_contexts;
      summaries = summaries;
      throughput_passed = throughput_passed;
      source_passed = source_passed;
      passed = throughput_passed && source_passed;
    })

  unfoldable pub benchmark_report : Arguments → Surroundings → Result Report
  unfolding before_contexts run_contexts validate_consistent_runtime judge
  benchmark_report args world = do
    (checksums, source_before) ← before_contexts args world
    raw_contexts ← run_contexts args world checksums (sort_integers args.contexts)
    validate_consistent_runtime fl raw_contexts
    judge raw_contexts source_before world.source_after
