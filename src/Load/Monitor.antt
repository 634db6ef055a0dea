-- ===== src/Load/Monitor.antt =====
-- The loop of `main` of scripts/load_test.py that polls the server while the workers run.
use tinyllama_inference_engi.Prelude.{
  ℕ, ◌+◌, max, Bool, not, List, [], ◌∷◌, ◌++◌, if◌then◌else◌, codes,
}
use tinyllama_inference_engi.Prelude.Int.{ℤ, pos, eqb_ℤ}
use tinyllama_inference_engi.Result.{Result, ok, err, runtime_error, ◌>>=◌, ◌>>◌, raise_if}
use tinyllama_inference_engi.Json.{Value, Fields, float, set_field, as_dict}
use tinyllama_inference_engi.Server.Polling.{is_os_error}

-- One round: whether the process has ended, the GPU sample, the answer of `/metrics`, the time
pub record Round (F : Type 0) : Type 0 where
  pub exited : Bool
  pub gpu : Result (Value F)
  pub answer : Result (ℤ × Value F)
  pub time : F

pub record Monitor (F : Type 0) : Type 0 where
  pub gpu_samples : List (Value F)
  pub scheduler_samples : List (Fields F)
  pub failures : ℕ
  pub consecutive : ℕ
  pub maximum : ℕ

module _ {F : Type 0} where
  abbrev pub unpolled : Monitor F
  unpolled = record {
    gpu_samples = [];
    scheduler_samples = [];
    failures = 0;
    consecutive = 0;
    maximum = 0;
  }

  -- The answer of a round, under its `except` and `else`
  unfoldable pub record_answer :
      Monitor F → List (Value F) → F → Result (ℤ × Value F) → Result (Monitor F)
  record_answer m gpu_samples time (err e) =
      if is_os_error e
      then ok (record {
        gpu_samples = gpu_samples;
        scheduler_samples = m.scheduler_samples;
        failures = m.failures + 1;
        consecutive = m.consecutive + 1;
        maximum = max m.maximum (m.consecutive + 1);
      })
      else err e
  record_answer m gpu_samples time (ok (status, answer)) = do
    raise_if (not (eqb_ℤ status (pos 200))) (runtime_error "metrics endpoint returned HTTP")
    metrics ← as_dict answer
    ok (record {
      gpu_samples = gpu_samples;
      scheduler_samples =
          m.scheduler_samples ++ set_field (codes "timestamp_monotonic") (float time) metrics ∷ [];
      failures = m.failures;
      consecutive = 0;
      maximum = m.maximum;
    })

  unfoldable pub poll_once : Monitor F → Round F → Result (Monitor F)
  unfolding record_answer
  poll_once m r = do
    raise_if r.exited (runtime_error "server crashed during stability load")
    sample ← r.gpu
    record_answer m (m.gpu_samples ++ sample ∷ []) r.time r.answer

  -- The loop over the rounds that it makes until every worker is done
  unfoldable pub poll_metrics : Monitor F → List (Round F) → Result (Monitor F)
  unfolding poll_once
  poll_metrics m [] = ok m
  poll_metrics m (r ∷ rest) = do next ← poll_once m r; poll_metrics next rest
