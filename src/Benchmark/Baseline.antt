-- ===== src/Benchmark/Baseline.antt =====
-- What is true of the runs behind a report of scripts/benchmark.py, and when a watched command has
-- ended.
use tinyllama_inference_engi.Prelude.{
  ◌≡◌, refl, sym, ap, ◌∙◌, inl, inr, true, false, List, [], ◌∷◌, ◌++◌, Bool-cases, any, All, Text,
  codes, same,
}
use mathlib.Core.Path.{subst}
use tinyllama_inference_engi.Prelude.Int.{ℤ}
use tinyllama_inference_engi.Result.{Result, ok, >>=-eq-ok, ok-injective}
use tinyllama_inference_engi.Json.Floats.{Floats}
use tinyllama_inference_engi.Json.{Fields, index, as_dict}
use tinyllama_inference_engi.Json.Equal.{to_float}
use tinyllama_inference_engi.Benchmark.{
  validate_context_result, validate_consistent_runtime, expected_context,
}
use tinyllama_inference_engi.Benchmark.Accepted.{
  HasFields, Accounted, SameIdentity, validate_context_result-Accounted,
  validate_consistent_runtime-SameIdentity,
}
use tinyllama_inference_engi.Benchmark.Gpu.{Observation}
use tinyllama_inference_engi.Benchmark.Report.{
  Watch, watch, Arguments, Surroundings, Report, run_json_monitored, run_contexts, summarize_all,
  baseline_of, benchmark_report, before_contexts, judge, sort_integers,
}

module _ (fl : Floats) where
  open fl use {F}

  -- The results of the runs are those of the contexts, one each and in their order.
  abbrev pub Validated : Arguments → List ℤ → List (Fields F) → Type 0
  Validated args [] [] = Unit {0}
  Validated args [] (result ∷ results) = true ≡ false
  Validated args (context ∷ contexts) [] = true ≡ false
  Validated args (context ∷ contexts) (result ∷ results) =
      (HasFields fl
          (expected_context fl context args.output_tokens args.warmup args.samples
            args.require_gpu_name)
          result
        × Accounted fl result)
      × Validated args contexts results

  run_contexts-Validated :
      (args : Arguments) (world : Surroundings fl) (checksums : Text × Text) (contexts : List ℤ)
      (results : List (Fields F))
      → run_contexts fl args world checksums contexts ≡ ok results
      → Validated args contexts results
  unfolding run_contexts
  run_contexts-Validated args world checksums [] [] h = tt
  run_contexts-Validated args world checksums [] (r ∷ rs) h = cc
  run_contexts-Validated args world checksums (context ∷ rest) results h =
      let (pair, ran, h1) =
        >>=-eq-ok (run_json_monitored fl world.loads (codes "context") (world.engine context)) _
          h in
      let (result, found, h2) = >>=-eq-ok (as_dict pair.0) _ h1 in
      let (u, valid, h3) =
        >>=-eq-ok
          (validate_context_result fl result context args.output_tokens args.warmup args.samples
            args.require_gpu_name checksums.0 checksums.1)
          _ h2 in
      let (after, taken, h4) = >>=-eq-ok (world.gpu_after context) _ h3 in
      let (more, ran_more, h5) = >>=-eq-ok (run_contexts fl args world checksums rest) _ h4 in
      let (expected, pinned, counted, accounted) =
        validate_context_result-Accounted fl result context args.output_tokens args.warmup
          args.samples args.require_gpu_name checksums.0 checksums.1 valid in
      subst (Validated args (context ∷ rest)) (ok-injective h5)
        ((expected, accounted), run_contexts-Validated args world checksums rest more ran_more)

  judge_raw :
      (raw : List (Fields F)) (source_before : Fields F) (verifying : Result (Fields F))
      (report : Report fl)
      → judge fl raw source_before verifying ≡ ok report
      → raw ≡ Report.raw_contexts report
  unfolding judge
  judge_raw raw source_before verifying report h =
      let (summaries, summarized, h1) = >>=-eq-ok (summarize_all fl raw) _ h in
      let (source_after, verified, h2) = >>=-eq-ok verifying _ h1 in
      let (baseline, based, h3) = >>=-eq-ok (baseline_of fl summaries) _ h2 in
      let (rate, rated, h4) =
        >>=-eq-ok (index baseline (codes "decode_tokens_per_second_median")) _ h3 in
      let (throughput, measured, h5) = >>=-eq-ok (to_float fl rate) _ h4 in
      ap (Report.raw_contexts {fl = fl}) (ok-injective h5)

  -- If a report is made, its raw results are those of the sorted contexts, one each, each with the
  -- expected fields and a consistent account of its memory, and all from one runtime.
  pub benchmark_report-Validated :
      (args : Arguments) (world : Surroundings fl) (report : Report fl)
      → benchmark_report fl args world ≡ ok report
      → Validated args (sort_integers args.contexts) (Report.raw_contexts report)
        × (baseline : Fields F) × (rest : List (Fields F)) × (Report.raw_contexts report
            ≡ baseline ∷ rest)
        × All (SameIdentity fl baseline) rest
  unfolding benchmark_report
  benchmark_report-Validated args world report h =
      let (pair, prepared, h1) = >>=-eq-ok (before_contexts fl args world) _ h in
      let (raw, contexts, h2) =
        >>=-eq-ok (run_contexts fl args world pair.0 (sort_integers args.contexts)) _ h1 in
      let (u, consistent, h3) = >>=-eq-ok (validate_consistent_runtime fl raw) _ h2 in
      let reported = judge_raw raw pair.1 world.source_after report h3 in
      let (first, rest, e, same) = validate_consistent_runtime-SameIdentity fl raw consistent in
      (
        subst (Validated args (sort_integers args.contexts)) reported
            (run_contexts-Validated args world pair.0 (sort_integers args.contexts) raw contexts),
        first,
        rest,
        sym reported ∙ e,
        same,
      )

-- A watched command that ends at one of the polls is not watched any longer: the loop returns, if
-- every GPU sample does.
pub watch-ends :
    (watches : List Watch) (observations : List Observation)
    → any (λ w. w.ended_before) watches ≡ true
    → All (λ w. (o : Observation) × (Watch.sample w ≡ ok o)) watches
    → (seen : List Observation) × (watch watches observations ≡ ok seen)
unfolding watch
watch-ends [] observations ends s = cc
watch-ends (w ∷ rest) observations ends s = elim (Bool-cases w.ended_before) [
  | inl e ↦ (observations, rw e refl)
  | inr running ↦ elim (Bool-cases w.ended_after) [
    | inl e ↦
        let (seen, h) = watch-ends rest observations (rw running at ends) s.1 in
        (seen, rw (running, e) h)
    | inr still ↦
        let (o, taken) = s.0 in
        let (seen, h) = watch-ends rest (observations ++ o ∷ []) (rw running at ends) s.1 in
        (seen, rw (running, still, taken) h)
  ]
]
