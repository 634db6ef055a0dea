-- ===== src/Quantized/Verdict.antt =====
-- What a report of scripts/benchmark_int8.py says of its runs, and on what its verdict depends.
use tinyllama_inference_engi.Prelude.{
  ℕ, suc, ◌≡◌, refl, sym, ap, ◌∙◌, inl, inr, Bool, true, false, ◌&&◌, ◌||◌, not, some, List, [],
  ◌∷◌, Bool-cases, All, Text, codes, get_elem?, &&_true,
}
use tinyllama_inference_engi.Prelude.Int.{pos}
use mathlib.Core.Path.{subst}
use tinyllama_inference_engi.Result.{
  Result, ok, value_error, zero_division_error, raise_if, >>=-eq-ok, ok-injective,
}
use tinyllama_inference_engi.Json.Floats.{Floats}
use tinyllama_inference_engi.Json.{Value, Fields, int, str, get, index}
use tinyllama_inference_engi.Json.Equal.{eq_value, to_float}
use tinyllama_inference_engi.Benchmark.Accepted.{index-get}
use tinyllama_inference_engi.Benchmark.Report.{sort_integers}
use tinyllama_inference_engi.Quantized.{
  Arguments, check_arguments, load_checksums, acceptance, number_of, Acceptance,
}
use tinyllama_inference_engi.Quantized.Report.{
  Runs, run_contexts, allocation_stable, summarize_runs, summary_of, judge, Report, int8_report,
}
use tinyllama_inference_engi.Quantized.Accepted.{
  Stable, run_contexts-Stable, allocation_stable-true,
}

&&-true : (b : Bool) → (b && true) ≡ b
&&-true true = refl
&&-true false = refl

module _ (fl : Floats) where
  open fl use {F, feq, fle, sub, div, literal}

  -- A summary of the report, of a mode at context 128
  pub record IsSummary (mode : Text) (summaries : List (Fields F)) (summary : Fields F)
      : Type 0 where
    pub at : ℕ
    pub there : get_elem? summaries at ≡ some summary
    pub of_mode : eq_value fl (get (codes "mode") summary) (str mode) ≡ true
    pub of_context : eq_value fl (get (codes "context") summary) (int (pos 128)) ≡ true

  summary_of-IsSummary :
      (mode : Text) (summaries : List (Fields F)) (summary : Fields F)
      → summary_of fl mode summaries ≡ ok summary
      → IsSummary mode summaries summary
  unfolding summary_of
  summary_of-IsSummary mode [] summary h = cc
  summary_of-IsSummary mode (row ∷ rest) summary h =
      let (found, f, h1) = >>=-eq-ok (index row (codes "mode")) _ h in
      let (context, c, h2) = >>=-eq-ok (index row (codes "context")) _ h1 in
      elim (Bool-cases (eq_value fl found (str mode) && eq_value fl context (int (pos 128)))) [
        | inl here ↦
            let (of_mode, of_context) = &&_true _ _ here in
            subst (IsSummary mode (row ∷ rest)) (ok-injective (rw here at h2)) (record {
              at = 0;
              there = refl;
              of_mode =
                  ap (λ v. eq_value fl v (str mode)) (sym (index-get (codes "mode") row found f))
                  ∙ of_mode;
              of_context =
                  ap (λ v. eq_value fl v (int (pos 128)))
                    (sym (index-get (codes "context") row context c))
                  ∙ of_context;
            })
        | inr other ↦
            let s = summary_of-IsSummary mode rest summary (rw other at h2) in
            record {
              at = suc (IsSummary.at s);
              there = IsSummary.there s;
              of_mode = IsSummary.of_mode s;
              of_context = IsSummary.of_context s;
            }
      ]

  -- A number of a summary
  abbrev pub Number : Fields F → Text → F → Type 0
  Number summary key x = to_float fl (get key summary) ≡ ok x

  number_of-Number :
      (summary : Fields F) (key : Text) (x : F)
      → number_of fl key summary ≡ ok x
      → Number summary key x
  number_of-Number summary key x h =
      let (v, there, h1) = >>=-eq-ok (index summary key) _ h in
      ap (to_float fl) (sym (index-get key summary v there)) ∙ h1

  -- A gain of a fifth in throughput, or a quarter less memory
  pub record Verdict (fp16 int8 : Fields F) (passed : Bool) : Type 0 where
    pub fp16_rate : F
    pub int8_rate : F
    pub fp16_memory : F
    pub int8_memory : F
    pub fp16_rate_read : Number fp16 (codes "decode_tokens_per_second_median") fp16_rate
    pub int8_rate_read : Number int8 (codes "decode_tokens_per_second_median") int8_rate
    pub fp16_memory_read : Number fp16 (codes "engine_peak_device_bytes") fp16_memory
    pub int8_memory_read : Number int8 (codes "engine_peak_device_bytes") int8_memory
    pub verdict : passed ≡ (
        fle (literal 20 2) (sub (div int8_rate fp16_rate) (literal 10 1))
        || fle (literal 25 2) (sub (literal 10 1) (div int8_memory fp16_memory)))

  acceptance-Verdict :
      (fp16 int8 : Fields F) (a : Acceptance fl)
      → acceptance fl fp16 int8 ≡ ok a
      → Verdict fp16 int8 (Acceptance.passed a)
  unfolding acceptance
  acceptance-Verdict fp16 int8 a h =
      let (fr, h1, k1) =
        >>=-eq-ok (number_of fl (codes "decode_tokens_per_second_median") fp16) _ h in
      let (ir, h2, k2) =
        >>=-eq-ok (number_of fl (codes "decode_tokens_per_second_median") int8) _ k1 in
      let (fm, h3, k3) = >>=-eq-ok (number_of fl (codes "engine_peak_device_bytes") fp16) _ k2 in
      let (im, h4, k4) = >>=-eq-ok (number_of fl (codes "engine_peak_device_bytes") int8) _ k3 in
      let (u, divides, k5) =
        >>=-eq-ok
          (raise_if (feq fr (literal 0 1) || feq fm (literal 0 1))
            (zero_division_error "float division by zero"))
          _ k4 in
      record {
        fp16_rate = fr;
        int8_rate = ir;
        fp16_memory = fm;
        int8_memory = im;
        fp16_rate_read = number_of-Number fp16 (codes "decode_tokens_per_second_median") fr h1;
        int8_rate_read = number_of-Number int8 (codes "decode_tokens_per_second_median") ir h2;
        fp16_memory_read = number_of-Number fp16 (codes "engine_peak_device_bytes") fm h3;
        int8_memory_read = number_of-Number int8 (codes "engine_peak_device_bytes") im h4;
        verdict = ap (λ r. Acceptance.passed {fl = fl} r) (sym (ok-injective k5));
      }

  pub record Judged (report : Report fl) : Type 0 where
    pub each_stable : All (Stable fl) (Report.raw report)
    pub stable : Report.stable report ≡ true
    pub fp16 : Fields F
    pub int8 : Fields F
    pub fp16_summary : IsSummary (codes "float16") (Report.summaries report) fp16
    pub int8_summary : IsSummary (codes "int8_weight_only") (Report.summaries report) int8
    pub judged : Verdict fp16 int8 (Report.passed report)

  judge-Judged :
      (raw : List (Fields F)) (report : Report fl)
      → All (Stable fl) raw
      → judge fl raw ≡ ok report
      → Judged report
  unfolding judge
  judge-Judged raw report s h =
      let (summaries, summarized, h1) = >>=-eq-ok (summarize_runs fl raw) _ h in
      let (fp16, f, h2) = >>=-eq-ok (summary_of fl (codes "float16") summaries) _ h1 in
      let (int8, i, h3) = >>=-eq-ok (summary_of fl (codes "int8_weight_only") summaries) _ h2 in
      let (accepted, a, h4) = >>=-eq-ok (acceptance fl fp16 int8) _ h3 in
      let (stable, b, h5) = >>=-eq-ok (allocation_stable fl raw) _ h4 in
      let is_stable = allocation_stable-true fl raw stable s b in
      let unchanged : Acceptance.passed accepted ≡ (Acceptance.passed accepted && stable) = sym (
        ap (λ b. Acceptance.passed accepted && b) is_stable
        ∙ &&-true (Acceptance.passed accepted)) in
      subst Judged (ok-injective h5) (record {
        each_stable = s;
        stable = is_stable;
        fp16 = fp16;
        int8 = int8;
        fp16_summary = summary_of-IsSummary (codes "float16") summaries fp16 f;
        int8_summary = summary_of-IsSummary (codes "int8_weight_only") summaries int8 i;
        judged = subst (Verdict fp16 int8) unchanged (acceptance-Verdict fp16 int8 accepted a);
      })

  -- In a report, each run has as many allocations after its workload as before. The report passes
  -- exactly if the INT8 summary at context 128 has at least 1.20 times the throughput of the FP16
  -- summary, or at most 0.75 times its peak memory, as the two differences compare in floats.
  pub int8_report-Judged :
      (runs : Runs fl) (args : Arguments) (manifest : Value F)
      (before verifying : Result (Fields F)) (report : Report fl)
      → int8_report fl runs args manifest before verifying ≡ ok report
      → Judged report
  unfolding int8_report
  int8_report-Judged runs args manifest before verifying report h =
      let (u, checked, h1) = >>=-eq-ok (check_arguments args) _ h in
      let (checksums, c, h2) = >>=-eq-ok (load_checksums manifest) _ h1 in
      let (source_before, sb, h3) = >>=-eq-ok before _ h2 in
      let (raw, ran, h4) =
        >>=-eq-ok (run_contexts fl runs args checksums (sort_integers args.contexts)) _ h3 in
      let (source_after, sa, h5) = >>=-eq-ok verifying _ h4 in
      let (tree_before, tb, h6) = >>=-eq-ok (index source_before (codes "tree_sha256")) _ h5 in
      let (tree_after, ta, h7) = >>=-eq-ok (index source_after (codes "tree_sha256")) _ h6 in
      let (u1, unchanged, h8) =
        >>=-eq-ok
          (raise_if (not (eq_value fl tree_before tree_after))
            (value_error "Mac source snapshot changed during M3 comparison"))
          _ h7 in
      judge-Judged raw report
        (run_contexts-Stable fl runs args checksums (sort_integers args.contexts) raw ran) h8
