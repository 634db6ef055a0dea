-- ===== src/Load/Worker.antt =====
-- `worker` of scripts/load_test.py: what one iteration comes to, and the steps of workers that run
-- beside each other and share the counters under a lock.
use tinyllama_inference_engi.Prelude.{
  ℕ, ◌+◌, ◌%◌, ◌≡◌, true, false, not, some, List, [], ◌∷◌, ◌++◌, ◌==◌, if◌then◌else◌, length,
  get_elem?, replicate, Text, codes, same,
}
use tinyllama_inference_engi.Prelude.Int.{pos, eqb_ℤ}
use tinyllama_inference_engi.Result.{
  Result, Error, ok, err, runtime_error, index_error, ◌>>=◌, ◌>>◌, raise_if, or_raise,
}
use tinyllama_inference_engi.Json.Floats.{Floats}
use tinyllama_inference_engi.Json.{str}
use tinyllama_inference_engi.Json.Equal.{eq_value}
use tinyllama_inference_engi.Server.{
  Request, Loads, Http, Streaming, streaming_completion, request_json, completion, completion_body,
  completions_path, error_code,
}
use tinyllama_inference_engi.Load.{prompt_items, finite_response_metrics}

-- `counters[key] = counters.get(key, 0) + 1`, and `counters.get(key, 0)`
unfoldable pub count_key : Text → List (Text × ℕ) → List (Text × ℕ)
count_key key [] = (key, 1) ∷ []
count_key key ((k, n) ∷ rest) =
    let more = count_key key rest in if same k key then (k, n + 1) ∷ rest else (k, n) ∷ more

unfoldable pub counter : Text → List (Text × ℕ) → ℕ
counter key [] = 0
counter key ((k, n) ∷ rest) = let more = counter key rest in if same k key then n else more

abbrev pub failures_key : Text
failures_key = codes "unexpected_failures"

module _ (fl : Floats) where
  open fl use {F}

  -- The request with `timeout=150.0`
  abbrev pub long_completion : Text → Request F
  long_completion prompt = record {
    method = codes "POST";
    path = completions_path;
    body = some (completion_body fl prompt false 4 120000);
    timeout = 150;
  }

  -- The body of the `try`: the key of the counter, or the exception
  unfoldable pub attempt : Loads F → Http F → Streaming F → ℕ → ℕ → Result Text
  unfolding prompt_items finite_response_metrics request_json streaming_completion
  attempt loads http server worker_id iteration = do
    (prompt_class, prompt) ←
        or_raise (get_elem? prompt_items ((worker_id + iteration) % 3))
          (index_error "tuple index out of range")
    if iteration % 17 == 0
        then (do
          outcome ← streaming_completion fl loads server prompt true
          raise_if (not (same outcome (codes "cancelled")))
              (runtime_error "unexpected cancellation outcome")
          ok (codes "cancelled"))
        else if iteration % 19 == 0
        then (do
          (status, document) ← request_json loads http (completion fl prompt 8 1)
          raise_if (not (eqb_ℤ status (pos 408))) (runtime_error "timeout path returned HTTP")
          code ← error_code document
          raise_if (not (eq_value fl code (str (codes "request_cancelled"))))
              (runtime_error "timeout path returned HTTP")
          ok (codes "timeout"))
        else (do
          (status, document) ← request_json loads http (long_completion prompt)
          raise_if (not (eqb_ℤ status (pos 200))) (runtime_error "completion returned HTTP")
          finite ← finite_response_metrics fl document
          raise_if (not finite) (runtime_error "completion returned HTTP")
          ok (codes "completed_" ++ prompt_class))

pub data Status : Type 0 where
  running finished failed : Status

pub record Worker : Type 0 where
  pub iteration : ℕ
  pub status : Status

pub record Pool : Type 0 where
  pub counters : List (Text × ℕ)
  pub workers : List Worker

abbrev pub at : ℕ → Status → Worker
at n s = record { iteration = n; status = s }

-- The workers with one of them written out
abbrev pub among : List Worker → Worker → List Worker → List Worker
among before w after = before ++ w ∷ after

-- The pool at its start
abbrev pub starting : ℕ → Pool
starting concurrency = record { counters = []; workers = replicate concurrency (at 0 running) }

module _ (fl : Floats) where
  open fl use {F}

  -- One worker ends an iteration, raises, or finds the deadline passed. Each iteration meets the
  -- server in a state of its own.
  pub data Step (p q : Pool) : Type 0 where
    iterate :
        (before after : List Worker) (n : ℕ) (key : Text) (loads : Loads F) (http : Http F)
        (server : Streaming F)
        → attempt fl loads http server (length before) n ≡ ok key
        → p.workers ≡ among before (at n running) after
        → q.workers ≡ among before (at (n + 1) running) after
        → q.counters ≡ count_key key p.counters
        → Step p q
    fail :
        (before after : List Worker) (n : ℕ) (e : Error) (loads : Loads F) (http : Http F)
        (server : Streaming F)
        → attempt fl loads http server (length before) n ≡ err e
        → p.workers ≡ among before (at n running) after
        → q.workers ≡ among before (at n failed) after
        → q.counters ≡ count_key failures_key p.counters
        → Step p q
    stop :
        (before after : List Worker) (n : ℕ)
        → p.workers ≡ among before (at n running) after
        → q.workers ≡ among before (at n finished) after
        → q.counters ≡ p.counters
        → Step p q

  pub data Reachable (concurrency : ℕ) : Pool → Type 0 where
    start : Reachable concurrency (starting concurrency)
    next : {p q : Pool} → Reachable concurrency p → Step p q → Reachable concurrency q
