-- ===== src/Load/Accepted.antt =====
-- The verdict of `main` of scripts/load_test.py, and which of its conditions a finished run still
-- leaves open.
use tinyllama_inference_engi.Prelude.{
  ℕ, ◌+◌, ◌≤◌, ◌≡◌, refl, sym, ap, ◌∙◌, inl, inr, Bool, true, false, ◌&&◌, some, List, [], ◌∷◌,
  ◌++◌, arith, ltb, leb, ◌==◌, if◌then◌else◌, Bool-cases, ltb→lt, lt→ltb, &&_true, length, Text,
  codes, same, same_sound,
}
use tinyllama_inference_engi.Prelude.Strings.{starts_with}
use tinyllama_inference_engi.Result.{Result, ok, ◌>>=◌, >>=-eq-ok, ok-injective}
use tinyllama_inference_engi.Json.Floats.{Floats}
use tinyllama_inference_engi.Json.{Value, Fields, get, is_true, as_dict, subscript}
use tinyllama_inference_engi.Json.Equal.{eq_value, to_float}
use tinyllama_inference_engi.Server.Polling.{Poll, wait_drained, all_zero, gauges}
use tinyllama_inference_engi.Server.Polled.{wait_drained-idle}
use tinyllama_inference_engi.Load.{
  validate_memory_stability, validate_request_accounting, Accounting, prompt_items,
}
use tinyllama_inference_engi.Load.Worker.{counter, failures_key, Pool, Reachable}
use tinyllama_inference_engi.Load.Counted.{Counted, Reachable-Counted, total, has_failed}

-- `sum(value for key, value in counters.items() if key.startswith("completed_"))`
unfoldable pub completed_total : List (Text × ℕ) → ℕ
completed_total [] = 0
completed_total ((key, n) ∷ rest) =
    (if starts_with (codes "completed_") key then n else 0) + completed_total rest

-- `all(counters.get(f"completed_{name}", 0) > 0 for name in PROMPTS)`
unfoldable pub all_classes_completed : List (Text × Text) → List (Text × ℕ) → Bool
all_classes_completed [] counters = true
all_classes_completed ((name, prompt) ∷ rest) counters =
    ltb 0 (counter (codes "completed_" ++ name) counters) && all_classes_completed rest counters

module _ (fl : Floats) where
  open fl use {F, fle, literal}

  -- `[float(sample["metrics"]["memory.used"]) for sample in gpu_samples]`
  unfoldable pub memory_used : List (Value F) → Result (List F)
  memory_used [] = ok []
  memory_used (sample ∷ rest) = do
    metrics ← subscript sample (codes "metrics")
    used ← subscript metrics (codes "memory.used")
    v ← to_float fl used
    more ← memory_used rest
    ok (v ∷ more)

  pub record Run : Type 0 where
    pub elapsed : F
    pub duration : ℕ
    pub counters : List (Text × ℕ)
    pub gpu_samples : List (Value F)
    pub scheduler_samples : List (Fields F)
    pub final_metrics : Value F
    pub source_before : Value F

  pub record Verdict : Type 0 where
    pub memory : Fields F
    pub accounting : Accounting fl
    pub passed : Bool

  unfoldable pub accept_run : Run → Result (Value F) → Result Verdict
  unfolding memory_used validate_memory_stability all_zero validate_request_accounting
      completed_total all_classes_completed prompt_items counter
  accept_run run after = do
    memory_samples ← memory_used run.gpu_samples
    memory ← validate_memory_stability fl memory_samples (literal 640 1)
    source_after ← after
    no_leaks ← all_zero fl gauges run.final_metrics
    metrics ← as_dict run.final_metrics
    accounting ← validate_request_accounting fl metrics
    ok (record {
      memory = memory;
      accounting = accounting;
      passed =
          fle (literal run.duration 0) run.elapsed
          && (ltb 0 (completed_total run.counters)
              && (all_classes_completed prompt_items run.counters
                  && (counter failures_key run.counters == 0
                      && (leb 10 (length run.scheduler_samples)
                          && (is_true (get (codes "passed") memory)
                              && (no_leaks
                                  && (accounting.passed
                                      && eq_value fl run.source_before source_after)))))));
    })

  -- The verdict without the conditions that a finished run cannot fail
  abbrev pub essential : Run → Verdict → Value F → Bool
  essential run v source_after =
      fle (literal run.duration 0) run.elapsed
      && (all_classes_completed prompt_items run.counters
          && (leb 10 (length run.scheduler_samples)
              && (is_true (get (codes "passed") v.memory)
                  && (v.accounting.passed && eq_value fl run.source_before source_after))))

  counter-completed :
      (key : Text) (counters : List (Text × ℕ))
      → starts_with (codes "completed_") key ≡ true
      → counter key counters ≤ completed_total counters
  unfolding counter completed_total
  counter-completed key [] h = omega arith
  counter-completed key ((k, n) ∷ rest) h = elim (Bool-cases (same k key)) [
    | inl e ↦
        let here : starts_with (codes "completed_") k ≡ true = rw (same_sound k key e) h in
        rw (e, here) (omega arith)
    | inr e ↦ let more = counter-completed key rest h in rw e (omega (arith, more))
  ]

  classes-completed :
      (counters : List (Text × ℕ))
      → all_classes_completed prompt_items counters ≡ true
      → ltb 0 (completed_total counters) ≡ true
  unfolding all_classes_completed prompt_items starts_with
  classes-completed counters h =
      let short : ltb 0 (counter (codes "completed_short") counters) ≡ true = (&&_true _ _ h).0 in
      let counted = counter-completed (codes "completed_short") counters refl in
      lt→ltb _ _ (omega (arith, ltb→lt _ _ short, counted))

  -- The two conditions that hold anyway drop out, and so does the one that another implies.
  simplify :
      (a c k u s m n rest : Bool)
      → u ≡ true
      → n ≡ true
      → (k ≡ true → c ≡ true)
      → (a && (c && (k && (u && (s && (m && (n && rest))))))) ≡ (a && (k && (s && (m && rest))))
  simplify a c false u s m n rest hu hn hk = ground arith
  simplify a c true u s m n rest hu hn hk = rw (hu, hn, hk refl) refl

  -- For a run in which no worker has raised and whose last metrics are those that `wait_drained`
  -- has returned, the verdict is that of six of its nine conditions: there are no unexpected
  -- failures, the gauges are zero, and a completion of each class is a completion.
  pub accept_run-essential :
      (concurrency : ℕ) (p : Pool) (polls : List (Poll F)) (run : Run) (after : Result (Value F))
      (v : Verdict)
      → Reachable fl concurrency p
      → total has_failed p.workers ≡ 0
      → run.counters ≡ p.counters
      → wait_drained fl polls ≡ some (ok run.final_metrics)
      → accept_run run after ≡ ok v
      → (source_after : Value F) × (after ≡ ok source_after)
        × (v.passed ≡ essential run v source_after)
  unfolding accept_run
  accept_run-essential concurrency p polls run after v reached none_failed counters drained h =
      let (memory_samples, used, h1) = >>=-eq-ok (memory_used run.gpu_samples) _ h in
      let (memory, stable, h2) =
        >>=-eq-ok (validate_memory_stability fl memory_samples (literal 640 1)) _ h1 in
      let (source_after, verified, h3) = >>=-eq-ok after _ h2 in
      let (no_leaks, gauged, h4) = >>=-eq-ok (all_zero fl gauges run.final_metrics) _ h3 in
      let (metrics, found, h5) = >>=-eq-ok (as_dict run.final_metrics) _ h4 in
      let (accounting, balanced, h6) = >>=-eq-ok (validate_request_accounting fl metrics) _ h5 in
      let (poll, i, there, answered, idle) = wait_drained-idle fl polls run.final_metrics drained in
      let no_failures : (counter failures_key run.counters == 0) ≡ true =
        rw (counters, Counted.failures (Reachable-Counted fl concurrency p reached), none_failed)
          refl in
      let zero_gauges : no_leaks ≡ true = ok-injective (sym gauged ∙ idle) in
      (
        source_after,
        verified,
        ap Verdict.passed (sym (ok-injective h6))
            ∙ (simplify (fle (literal run.duration 0) run.elapsed)
                  (ltb 0 (completed_total run.counters))
                  (all_classes_completed prompt_items run.counters)
                  (counter failures_key run.counters == 0) (leb 10 (length run.scheduler_samples))
                  (is_true (get (codes "passed") memory)) no_leaks
                  (accounting.passed && eq_value fl run.source_before source_after) no_failures
                  zero_gauges (classes-completed run.counters)
                ∙ ap (λ w. essential run w source_after) (ok-injective h6)),
      )
