-- ===== src/Server/Smoke.antt =====
-- `main` of scripts/openai_smoke_test.py from `wait_ready` to the report. The answers of the server,
-- the polls of the two loops, the order in which the concurrent requests finish and the two
-- verifications of the source are arguments.
use tinyllama_inference_engi.Prelude.{
  ℕ, true, false, ◌||◌, not, Option, none, some, List, if◌then◌else◌, Text, codes, same,
}
use tinyllama_inference_engi.Prelude.Strings.{count}
use tinyllama_inference_engi.Prelude.Int.{pos, eqb_ℤ, ltb_ℤ}
use tinyllama_inference_engi.Result.{
  Result, ok, err, runtime_error, out_of_fuel, ◌>>=◌, ◌>>◌, raise_if,
}
use tinyllama_inference_engi.Json.Floats.{Floats}
use tinyllama_inference_engi.Json.{
  Value, Fields, boolean, int, float, str, arr, obj, nil, cons, end, field, get, get_or, as_dict,
  subscript, first_item, is_none, set_field, mentions,
}
use tinyllama_inference_engi.Json.Equal.{eq_value, to_int, to_float}
use tinyllama_inference_engi.Server.{
  Request, Loads, Http, Streaming, streaming_completion, request_json, completion, completion_body,
  completions_path, object_of, error_code,
}
use tinyllama_inference_engi.Server.Polling.{Poll, wait_ready, wait_drained}
use tinyllama_inference_engi.Server.Outcomes.{collect_outcomes, is_complete}

-- A loop that still polls has not returned.
abbrev pub settled : {A : Type 0} → Option (Result A) → Result A
settled none = err out_of_fuel
settled (some r) = r

abbrev pub models_request : {F : Type 0} → Request F
models_request = record {
  method = codes "GET";
  path = codes "/v1/models";
  body = none;
  timeout = 90;
}

abbrev pub invalid_request : {F : Type 0} → Request F
invalid_request = record {
  method = codes "POST";
  path = completions_path;
  body = some (field (codes "messages") (arr nil) (field (codes "max_tokens") (int (pos 0)) end));
  timeout = 90;
}

module _ (fl : Floats) where
  open fl use {F, fle, flt, literal, absolute, sub, mul, div}

  abbrev pub sampled_request : Request F
  sampled_request = record {
    method = codes "POST";
    path = completions_path;
    body = some (
        set_field (codes "top_p") (float (literal 9 1)) (
          set_field (codes "temperature") (float (literal 7 1))
            (completion_body fl (codes "Name one color.") false 2 60000)));
    timeout = 90;
  }

  module _ (loads : Loads F) (http : Http F) where
    unfoldable pub check_models : Result (Unit {0})
    unfolding request_json
    check_models = do
      (status, models) ← request_json loads http models_request
      raise_if (not (eqb_ℤ status (pos 200))) (runtime_error "/v1/models response is invalid")
      listed ← subscript models (codes "data")
      model ← first_item listed
      id ← subscript model (codes "id")
      raise_if (not (eq_value fl id (str (codes "tinyllama-1.1b"))))
          (runtime_error "/v1/models response is invalid")

    unfoldable pub check_invalid : Result (Unit {0})
    unfolding request_json
    check_invalid = do
      (invalid_status, invalid) ← request_json loads http invalid_request
      raise_if (not (eqb_ℤ invalid_status (pos 400)))
          (runtime_error "invalid request did not return a stable error shape")
      named ← mentions (codes "error") invalid
      raise_if (not named) (runtime_error "invalid request did not return a stable error shape")

    -- `nonstream.get("choices", [{}])[0].get("message", {}).get("content")`
    unfoldable pub content_of : Fields F → Result (Value F)
    content_of nonstream = do
      choice ← first_item (get_or (arr (cons (obj end) nil)) (codes "choices") nonstream)
      c ← as_dict choice
      message ← as_dict (get_or (obj end) (codes "message") c)
      ok (get (codes "content") message)

    -- The agreement of the two rates of a completion
    unfoldable pub check_rates : Fields F → Result (Unit {0})
    check_rates nonstream = do
      usage ← as_dict (get_or (obj end) (codes "usage") nonstream)
      tokens ← to_int fl (get_or (int (pos 0)) (codes "completion_tokens") usage)
      if ltb_ℤ (pos 1) tokens
          then (do
            metrics ← as_dict (get_or (obj end) (codes "metrics") nonstream)
            tpot_ms ← to_float fl (get_or (float (literal 0 1)) (codes "tpot_ms") metrics)
            output_tps ←
                to_float fl
                  (get_or (float (literal 0 1)) (codes "output_tokens_per_second") metrics)
            raise_if
                (fle tpot_ms (literal 0 1)
                  || flt (mul (literal 2 2) output_tps)
                      (absolute (sub output_tps (div (literal 10000 1) tpot_ms))))
                (runtime_error "non-streaming TPOT and output tok/s metrics disagree"))
          else ok tt

    unfoldable pub check_nonstream : Result (Unit {0})
    unfolding request_json content_of check_rates
    check_nonstream = do
      (status, document) ←
          request_json loads http (completion fl (codes "The capital of France is") 3 60000)
      raise_if (not (eqb_ℤ status (pos 200))) (runtime_error "non-streaming smoke failed")
      nonstream ← as_dict document
      content ← content_of nonstream
      raise_if (is_none content) (runtime_error "non-streaming smoke failed")
      check_rates nonstream

    unfoldable pub check_timeout : Result (Unit {0})
    unfolding request_json
    check_timeout = do
      (status, late_timeout) ←
          request_json loads http (completion fl (codes "Exercise an in-flight timeout.") 1 1)
      raise_if (not (eqb_ℤ status (pos 408)))
          (runtime_error "in-flight final-token timeout was not cancelled")
      code ← error_code late_timeout
      raise_if (not (eq_value fl code (str (codes "request_cancelled"))))
          (runtime_error "in-flight final-token timeout was not cancelled")

    unfoldable pub check_sampled : Result (Unit {0})
    unfolding request_json
    check_sampled = do
      (sampled_status, sampled) ← request_json loads http sampled_request
      raise_if (not (eqb_ℤ sampled_status (pos 200)))
          (runtime_error "temperature/top-p sampling smoke failed")
      object ← object_of sampled
      raise_if (not (eq_value fl object (str (codes "chat.completion"))))
          (runtime_error "temperature/top-p sampling smoke failed")

    unfoldable pub check_stream : Streaming F → Result (Unit {0})
    unfolding streaming_completion
    check_stream server = do
      outcome ← streaming_completion fl loads server (codes "The capital of France is") false
      raise_if (not (same outcome (codes "completed"))) (runtime_error "streaming smoke failed")

    unfoldable pub check_requests : Streaming F → Result (Unit {0})
    unfolding check_models check_invalid check_nonstream check_timeout check_sampled check_stream
    check_requests server = do
      check_models
      check_invalid
      check_nonstream
      check_timeout
      check_sampled
      check_stream server

  unfoldable pub check_reclaimed : Value F → Result (Unit {0})
  check_reclaimed metrics = do
    used ← subscript metrics (codes "kv_blocks_used")
    blocks ← to_int fl used
    raise_if (not (eqb_ℤ blocks (pos 0)))
        (runtime_error "KV blocks were not reclaimed after cancellation")
    total ← subscript metrics (codes "cancelled_total")
    cancelled ← to_int fl total
    raise_if (ltb_ℤ cancelled (pos 8))
        (runtime_error "KV blocks were not reclaimed after cancellation")

  -- `counts` after its checks: three keys, in any order
  abbrev pub counts_json : List Text → Fields F
  counts_json outcomes =
      field (codes "completed") (int (pos (count (codes "completed") outcomes))) (
        field (codes "timeout") (int (pos (count (codes "timeout") outcomes)))
          (field (codes "cancelled") (int (pos (count (codes "cancelled") outcomes))) end))

  abbrev pub passed_smoke : Value F
  passed_smoke = str (codes "passed")

  abbrev pub smoke_report : List Text → Value F → Value F → Value F → Fields F
  smoke_report outcomes metrics source_before source_after =
      field (codes "schema_version") (int (pos 1)) (
        field (codes "models_smoke") passed_smoke (
          field (codes "nonstream_smoke") passed_smoke (
            field (codes "stream_smoke") passed_smoke (
              field (codes "temperature_top_p_smoke") passed_smoke (
                field (codes "invalid_error_shape") passed_smoke (
                  field (codes "in_flight_timeout") passed_smoke (
                    field (codes "concurrent_requests") (int (pos 20)) (
                      field (codes "outcomes") (obj (counts_json outcomes)) (
                        field (codes "final_metrics") metrics (
                          field (codes "source")
                            (obj (
                              field (codes "before") source_before
                                (field (codes "after") source_after end)))
                            (field (codes "passed") (boolean true) end)))))))))))

  unfoldable pub smoke_test :
      Loads F
      → Http F
      → Streaming F
      → List (Poll F)
      → List ℕ
      → List (Poll F)
      → Result (Value F)
      → Result (Value F)
      → Result (Fields F)
  unfolding wait_ready check_requests collect_outcomes wait_drained is_complete check_reclaimed
  smoke_test loads http server starting order draining before after = do
    source_before ← before
    settled (wait_ready fl starting)
    check_requests loads http server
    outcomes ← collect_outcomes fl loads http server order
    metrics ← settled (wait_drained fl draining)
    source_after ← after
    raise_if (not (is_complete outcomes)) (runtime_error "concurrency outcomes are incomplete")
    check_reclaimed metrics
    ok (smoke_report outcomes metrics source_before source_after)
