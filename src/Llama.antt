-- ===== src/Llama.antt =====
-- scripts/benchmark_llamacpp.py: the prompt, the wait for the server, the checkout and the
-- measurements. The server, the two git processes and the clock are arguments. The prompt is also
-- that of scripts/benchmark_pytorch.py.
pub mod Prompt
use tinyllama_inference_engi.Prelude.{
  ℕ, zero, suc, ◌+◌, ◌-◌, ◌/◌, ◌%◌, ◌<◌, Bool, true, false, ◌&&◌, ◌||◌, not, Option, none, some,
  List, [], ◌∷◌, map, ltb, ◌==◌, if◌then◌else◌, length, get_elem?, all, Text, codes, same,
}
use tinyllama_inference_engi.Prelude.Strings.{strip}
use tinyllama_inference_engi.Prelude.Int.{ℤ, pos, eqb_ℤ}
use tinyllama_inference_engi.Result.{
  Result, Error, ok, err, value_error, runtime_error, timeout_error, index_error,
  zero_division_error, ◌>>=◌, ◌>>◌, raise_if, or_raise,
}
use tinyllama_inference_engi.Json.Floats.{Floats}
use tinyllama_inference_engi.Json.{Value, Fields, boolean, int, float, fields, subscript, as_list}
use tinyllama_inference_engi.Json.Equal.{eq_value, to_int, to_float}
use tinyllama_inference_engi.Server.Polling.{is_os_error}

-- `(seed[1 + index % (len(seed) - 1)] for index in range(start, start + n))`
unfoldable pub cycle : {A : Type 0} → List A → ℕ → ℕ → Result (List A)
cycle seed start zero = ok []
cycle seed start (suc n) = do
  token ←
      or_raise (get_elem? seed (1 + start % (length seed - 1)))
        (index_error "list index out of range")
  more ← cycle seed (start + 1) n
  ok (token ∷ more)

unfoldable pub repeated_context : {A : Type 0} → List A → ℕ → Result (List A)
unfolding cycle
repeated_context seed context = do
  raise_if (ltb (length seed) 2) (value_error "golden prompt must have at least two tokens")
  first ← or_raise (get_elem? seed 0) (index_error "list index out of range")
  more ← cycle seed 0 (context - 1)
  ok (first ∷ more)

-- `request`, after the exchange: the status and the payload
unfoldable pub request :
    {F : Type 0} → (Text → Result (Value F)) → Result (ℤ × Text) → Result (Value F)
request loads exchange = do
  (status, content) ← exchange
  raise_if (not (eqb_ℤ status (pos 200))) (runtime_error "llama.cpp HTTP")
  loads content

-- One poll of `wait_ready`
pub record Poll (F : Type 0) : Type 0 where
  pub in_time : Bool
  pub exited : Bool
  pub health : Result (Value F)

-- `except (ConnectionError, OSError, TimeoutError, RuntimeError)`
abbrev pub is_awaited : Error → Bool
is_awaited (runtime_error m) = true
is_awaited e = is_os_error e

abbrev pub retry :
    {F : Type 0} → Result (Value F) → Option (Result (Unit {0})) → Option (Result (Unit {0}))
retry (ok v) again = some (ok tt)
retry (err e) again = if is_awaited e then again else some (err e)

unfoldable pub wait_ready : {F : Type 0} → List (Poll F) → Option (Result (Unit {0}))
wait_ready [] = none
wait_ready (p ∷ rest) =
    let again = wait_ready rest in
    if not p.in_time
    then some (err (timeout_error "llama-server did not become ready"))
    else if p.exited
    then some (err (runtime_error "llama-server exited before ready"))
    else retry p.health again

module _ {F : Type 0} where
  unfoldable pub completion_body : (ℕ → ℕ → F) → Value F → Fields F
  completion_body literal prompt = fields (
      (codes "prompt", prompt)
      ∷ (codes "n_predict", int (pos 32))
      ∷ (codes "temperature", float (literal 0 1))
      ∷ (codes "top_k", int (pos 1))
      ∷ (codes "top_p", float (literal 10 1))
      ∷ (codes "repeat_penalty", float (literal 10 1))
      ∷ (codes "seed", int (pos 0))
      ∷ (codes "ignore_eos", boolean true)
      ∷ (codes "cache_prompt", boolean false)
      ∷ (codes "return_tokens", boolean true)
      ∷ [])

-- `server.resolve()`, as its components below the root, last one first: the root of the checkout is
-- `parents[2]`, and the server must be build-cuda/bin/llama-server below it.
unfoldable pub source_root : List Text → Result (List Text)
source_root (name ∷ bin ∷ build ∷ root) =
    if same name (codes "llama-server")
      && (same bin (codes "bin") && same build (codes "build-cuda"))
    then ok root
    else err (value_error "llama.cpp server is not inside <source>/build-cuda/bin")
source_root _ = err (value_error "llama.cpp server is not inside the expected build tree")

-- The two git processes run with `check=True`: a failing one raises, which their results show.
unfoldable pub validate_llama_checkout :
    List Text → Text → Result Text → Result Text → Result (List Text)
unfolding source_root strip
validate_llama_checkout server expected_commit rev_parse status = do
  root ← source_root server
  head ← rev_parse
  raise_if (not (same (strip head) expected_commit))
      (value_error "llama.cpp checkout commit does not match")
  dirty ← status
  raise_if (not (length dirty == 0))
      (value_error "llama.cpp checkout has uncommitted source changes")
  ok root

module _ (fl : Floats) where
  open fl use {F, is_finite, flt, feq, add, mul, div, literal, median}

  unfoldable pub validate_batch_samples : List F → ℕ → Result (List F)
  validate_batch_samples values expected_count = do
    raise_if (not (length values == expected_count))
        (value_error "llama.cpp Batch 4 returned samples")
    raise_if (not (all (λ v. is_finite v && flt (literal 0 1) v) values))
        (value_error "llama.cpp Batch 4 samples must be finite positive durations")
    ok values

  pub record Observation : Type 0 where
    pub ttft_ms : F
    pub tpot_ms : F
    pub output_tokens_per_second : F

  -- One measured response
  unfoldable pub observe : Value F → Value F → Result Observation
  observe expected_tokens response = do
    timings ← subscript response (codes "timings")
    tokens ← subscript response (codes "tokens")
    predicted ← subscript timings (codes "predicted_n") >>= to_int fl
    raise_if (not (eq_value fl tokens expected_tokens) || not (eqb_ℤ predicted (pos 32)))
        (value_error "llama.cpp generated tokens differ from golden")
    predicted_ms ← subscript timings (codes "predicted_ms") >>= to_float fl
    prompt_ms ← subscript timings (codes "prompt_ms") >>= to_float fl
    let per_token_ms = div predicted_ms (literal 32 0)
    let time = add prompt_ms predicted_ms
    raise_if (feq time (literal 0 1)) (zero_division_error "float division by zero")
    ok (record {
      ttft_ms = add prompt_ms per_token_ms;
      tpot_ms = per_token_ms;
      output_tokens_per_second = div (literal 320000 1) time;
    })

  -- The loop over the measured responses
  unfoldable pub observe_all : Value F → List (Result (Value F)) → Result (List Observation)
  unfolding observe
  observe_all expected_tokens [] = ok []
  observe_all expected_tokens (answer ∷ rest) = do
    response ← answer
    observation ← observe expected_tokens response
    more ← observe_all expected_tokens rest
    ok (observation ∷ more)

  -- `any(response["tokens"] != expected_tokens for response in batch_response)`
  unfoldable pub any_differs : Value F → List (Value F) → Result Bool
  any_differs expected_tokens [] = ok false
  any_differs expected_tokens (response ∷ rest) =
      let later = any_differs expected_tokens rest in
      do
        tokens ← subscript response (codes "tokens")
        if not (eq_value fl tokens expected_tokens) then ok true else later

  -- The loop over the batches: an answer and the time that it took
  unfoldable pub measure_batches : Value F → List (Result (Value F) × F) → Result (List F)
  unfolding any_differs
  measure_batches expected_tokens [] = ok []
  measure_batches expected_tokens ((answer, elapsed) ∷ rest) = do
    response ← answer
    responses ← as_list response
    raise_if (not (length responses == 4))
        (value_error "llama.cpp Batch 4 tokens differ from golden")
    differs ← any_differs expected_tokens responses
    raise_if differs (value_error "llama.cpp Batch 4 tokens differ from golden")
    more ← measure_batches expected_tokens rest
    ok (elapsed ∷ more)

  pub record Medians : Type 0 where
    pub ttft_ms : F
    pub tpot_ms : F
    pub output_tokens_per_second : F
    pub batch_4_rate : F

  -- `4 * output_tokens / elapsed`
  abbrev pub batch_rates : List F → List F
  batch_rates [] = []
  batch_rates (elapsed ∷ rest) = div (literal 128 0) elapsed ∷ batch_rates rest

  -- The measurements of `main`, and their medians
  unfoldable pub measure :
      Value F → List (Result (Value F)) → List (Result (Value F) × F) → Result Medians
  unfolding observe_all measure_batches validate_batch_samples
  measure expected_tokens answers batches = do
    observations ← observe_all expected_tokens answers
    elapsed ← measure_batches expected_tokens batches
    batch_elapsed_samples ← validate_batch_samples elapsed 10
    ttft ← median (map Observation.ttft_ms observations)
    tpot ← median (map Observation.tpot_ms observations)
    rate ← median (map Observation.output_tokens_per_second observations)
    batch_rate ← median (batch_rates batch_elapsed_samples)
    ok (record {
      ttft_ms = ttft;
      tpot_ms = tpot;
      output_tokens_per_second = rate;
      batch_4_rate = batch_rate;
    })
