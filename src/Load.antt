-- ===== src/Load.antt =====
-- The checks of scripts/load_test.py over the samples and the metrics of a run.
pub mod Memory
pub mod Worker
pub mod Counted
pub mod Monitor
pub mod Rounds
pub mod Monitored
pub mod Accepted
use tinyllama_inference_engi.Prelude.{
  ℕ, zero, suc, ◌+◌, ◌-◌, ◌/◌, min, max, Bool, true, false, ◌&&◌, ◌||◌, not, List, [], ◌∷◌, ◌++◌,
  ltb, if◌then◌else◌, length, take, drop, all, Text, codes,
}
use tinyllama_inference_engi.Prelude.Int.{ℤ, pos, negsuc, eqb_ℤ, ltb_ℤ, leb_ℤ, ◌+ℤ◌}
use tinyllama_inference_engi.Result.{Result, Error, ok, err, value_error, ◌>>=◌, ◌>>◌, raise_if}
use tinyllama_inference_engi.Json.Floats.{Floats}
use tinyllama_inference_engi.Json.{
  Value, Fields, boolean, int, float, obj, end, field, get, get_or, is_dict, as_dict,
}
use tinyllama_inference_engi.Json.Equal.{to_int, to_float}

-- `text * n`
unfoldable pub repeated : ℕ → Text → Text
repeated zero t = []
repeated (suc n) t = t ++ repeated n t

-- `PROMPTS.items()`
unfoldable pub prompt_items : List (Text × Text)
unfolding repeated
prompt_items =
    (codes "short", codes "State one fact about France.")
    ∷ (
      codes "medium",
      codes "Summarize this sequence briefly: " ++ repeated 24 (codes "alpha beta gamma delta "),
    )
    ∷ (
      codes "long",
      codes "Continue this bounded context: "
          ++ repeated 42 (codes "one two three four five six seven eight "),
    )
    ∷ []

abbrev pub formal_concurrency : ℕ
formal_concurrency = 20

abbrev pub formal_duration_seconds : ℕ
formal_duration_seconds = 1800

unfoldable pub validate_formal_workload : ℤ → ℤ → Result (Unit {0})
validate_formal_workload concurrency duration =
    raise_if
      (not (eqb_ℤ concurrency (pos formal_concurrency))
        || not (eqb_ℤ duration (pos formal_duration_seconds)))
      (value_error "M5 formal stability requires concurrency and duration")

-- How many samples are discarded, and how long a window is
unfoldable pub discarded_warmup : ℕ → ℕ
discarded_warmup samples = min 60 (max 1 (samples / 10))

unfoldable pub window_of : ℕ → ℕ
window_of settled = max 2 (min 30 (settled / 4))

-- `values[-n:]` of a list with at least one of its last items
abbrev pub last_items : {A : Type 0} → ℕ → List A → List A
last_items n values = drop (length values - n) values

module _ (fl : Floats) where
  open fl use {F, is_finite, fle, literal, sub, median, nan}

  unfoldable pub validate_memory_stability : List F → F → Result (Fields F)
  unfolding discarded_warmup window_of
  validate_memory_stability samples limit_mib = do
    raise_if (ltb (length samples) 8 || not (all (λ v. is_finite v && fle (literal 0 1) v) samples))
        (value_error "stability run has too few valid GPU memory samples")
    let discarded = discarded_warmup (length samples)
    let settled = drop discarded samples
    let window = window_of (length settled)
    first ← median (take window settled)
    last ← median (last_items window settled)
    let growth = sub last first
    ok (
        field (codes "sample_count") (int (pos (length samples))) (
          field (codes "discarded_warmup_samples") (int (pos discarded)) (
            field (codes "window_samples") (int (pos window)) (
              field (codes "first_window_median_mib") (float first) (
                field (codes "last_window_median_mib") (float last) (
                  field (codes "growth_mib") (float growth) (
                    field (codes "limit_mib") (float limit_mib)
                      (field (codes "passed") (boolean (fle growth limit_mib)) end))))))))

  -- The generator under `all`
  unfoldable pub finite_metrics : List Text → Fields F → Result Bool
  finite_metrics [] metrics = ok true
  finite_metrics (key ∷ keys) metrics =
      let later = finite_metrics keys metrics in
      do
        v ← to_float fl (get_or (float nan) key metrics)
        if is_finite v
            then (do
              w ← to_float fl (get_or (float (sub (literal 0 1) (literal 10 1))) key metrics)
              if fle (literal 0 1) w then later else ok false)
            else ok false

  abbrev pub response_metrics : List Text
  response_metrics =
      codes "queue_ms" ∷ codes "ttft_ms" ∷ codes "tpot_ms" ∷ codes "output_tokens_per_second" ∷ []

  unfoldable pub finite_response_metrics : Value F → Result Bool
  unfolding finite_metrics
  finite_response_metrics document = do
    d ← as_dict document
    let metrics = get (codes "metrics") d
    if is_dict metrics
        then (do m ← as_dict metrics; finite_metrics response_metrics m)
        else ok false

  -- The account of the requests, and whether it balances
  pub record Accounting : Type 0 where
    pub submitted_total : ℤ
    pub completed_total : ℤ
    pub cancelled_total : ℤ
    pub failed_total : ℤ
    pub terminal_total : ℤ
    pub passed : Bool

  unfoldable pub validate_request_accounting : Fields F → Result Accounting
  validate_request_accounting metrics = do
    submitted ← to_int fl (get_or (int (negsuc 0)) (codes "submitted_total") metrics)
    completed ← to_int fl (get_or (int (negsuc 0)) (codes "completed_total") metrics)
    cancelled ← to_int fl (get_or (int (negsuc 0)) (codes "cancelled_total") metrics)
    failed ← to_int fl (get_or (int (negsuc 0)) (codes "failed_total") metrics)
    let nonnegative = all (leb_ℤ (pos 0)) (submitted ∷ completed ∷ cancelled ∷ failed ∷ [])
    let terminal_total = completed +ℤ cancelled +ℤ failed
    ok (record {
      submitted_total = submitted;
      completed_total = completed;
      cancelled_total = cancelled;
      failed_total = failed;
      terminal_total = terminal_total;
      passed = nonnegative && (eqb_ℤ failed (pos 0) && eqb_ℤ terminal_total submitted);
    })
