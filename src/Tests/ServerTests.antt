-- ===== src/Tests/ServerTests.antt =====
-- Runs of the smoke test of the server, on a server and a parser that know a few payloads.
use tinyllama_inference_engi.Prelude.{
  ℕ, ◌≡◌, refl, ◌↔◌, Bool, true, false, Option, none, some, List, [], ◌∷◌, ◌++◌, ◌==◌,
  if◌then◌else◌, replicate, Text, codes, same,
}
use mathlib.Core.List.Perm
use tinyllama_inference_engi.Prelude.Int.{ℤ, pos}
use tinyllama_inference_engi.Result.{Result, ok, err, os_error, value_error}
use tinyllama_inference_engi.Samples.{sample_floats}
use tinyllama_inference_engi.Json.{
  Value, Fields, null, int, float, str, arr, obj, nil, cons, fields, get, set_field,
}
use tinyllama_inference_engi.Json.Equal.{eq_value, to_int, to_float}
use tinyllama_inference_engi.Server.{
  Loads, Http, Streaming, request_json, completion_body, read_chunks, streaming_completion,
  concurrent_request,
}
use tinyllama_inference_engi.Server.Polling.{
  Poll, is_listing, wait_ready, all_zero, is_drained, wait_drained,
}
use tinyllama_inference_engi.Server.Polled.{Ready, wait_ready-↔-Ready, wait-deadline}
use tinyllama_inference_engi.Server.Outcomes.{
  indices, is_complete, collect_outcomes, collect_outcomes_complete,
}
use tinyllama_inference_engi.Server.Smoke.{
  check_models, check_invalid, content_of, check_rates, check_nonstream, check_timeout,
  check_sampled, check_stream, check_requests, check_reclaimed, smoke_test, smoke_report,
}
use tinyllama_inference_engi.Server.Passed.{Passed, smoke_test-Passed}
use tinyllama_inference_engi.Prelude.Strings.{
  starts_with, remove_prefix, strip, strip_left, strip_right, is_white, count,
}

abbrev models_document : Value ℕ
models_document = obj (
    fields (
      (codes "object", str (codes "list"))
      ∷ (
        codes "data",
        arr (cons (obj (fields ((codes "id", str (codes "tinyllama-1.1b")) ∷ []))) nil),
      )
      ∷ []))

abbrev error_document : Value ℕ
error_document = obj (
    fields
      ((codes "error", obj (fields ((codes "code", str (codes "request_cancelled")) ∷ []))) ∷ []))

abbrev completion_document : Value ℕ
completion_document = obj (
    fields (
      (codes "object", str (codes "chat.completion"))
      ∷ (
        codes "choices",
        arr (
            cons
              (obj (
                fields (
                  (codes "message", obj (fields ((codes "content", str (codes "Paris")) ∷ [])))
                  ∷ [])))
              nil),
      )
      ∷ (codes "usage", obj (fields ((codes "completion_tokens", int (pos 3)) ∷ [])))
      ∷ (
        codes "metrics",
        obj (
            fields
              ((codes "tpot_ms", float 10) ∷ (codes "output_tokens_per_second", float 100) ∷ [])),
      )
      ∷ []))

abbrev chunk_document : Value ℕ
chunk_document = obj (fields ((codes "object", str (codes "chat.completion.chunk")) ∷ []))

-- A payload is one letter.
abbrev loads : Loads ℕ
loads t =
    if same t (codes "m")
    then ok models_document
    else if same t (codes "e")
    then ok error_document
    else if same t (codes "o")
    then ok completion_document
    else if same t (codes "c")
    then ok chunk_document
    else err (value_error "Expecting value")

abbrev is_number : ℕ → Value ℕ → Bool
is_number n (int (pos m)) = m == n
is_number n _ = false

abbrev answer_to : Option (Fields ℕ) → Result (ℤ × Text)
answer_to none = ok (pos 200, 109 ∷ [])
answer_to (some body) =
    if is_number 0 (get (codes "max_tokens") body)
    then ok (pos 400, 101 ∷ [])
    else if is_number 1 (get (codes "timeout_ms") body)
    then ok (pos 408, 101 ∷ [])
    else ok (pos 200, 111 ∷ [])

abbrev http : Http ℕ
http request = answer_to request.body

abbrev stream_lines : List (Result Text)
stream_lines =
    ok (codes "data: c" ++ 10 ∷ []) ∷ ok (10 ∷ []) ∷ ok (codes "data: [DONE]" ++ 10 ∷ []) ∷ []

abbrev server : Streaming ℕ
server request = ok (pos 200, stream_lines)

abbrev drained_metrics : Value ℕ
drained_metrics = obj (
    fields (
      (codes "queued_requests", int (pos 0))
      ∷ (codes "active_sequences", int (pos 0))
      ∷ (codes "kv_blocks_used", int (pos 0))
      ∷ (codes "cancelled_total", int (pos 9))
      ∷ []))

abbrev starting_polls : List (Poll ℕ)
starting_polls =
    record { in_time = true; exited = false; answer = err (os_error "Connection refused") }
    ∷ record { in_time = true; exited = false; answer = ok (pos 503, null) }
    ∷ record { in_time = true; exited = false; answer = ok (pos 200, models_document) }
    ∷ []

abbrev draining_polls : List (Poll ℕ)
draining_polls =
    record { in_time = true; exited = false; answer = ok (pos 503, null) }
    ∷ record { in_time = true; exited = false; answer = ok (pos 200, drained_metrics) }
    ∷ []

-- A loop whose last poll is past the deadline
abbrev late_polls : List (Poll ℕ)
late_polls =
    record { in_time = true; exited = false; answer = ok (pos 503, null) }
    ∷ record { in_time = false; exited = false; answer = ok (pos 503, null) }
    ∷ []

wait_ready-↔-Ready_example :
    (wait_ready sample_floats starting_polls ≡ some (ok tt)) ↔ Ready sample_floats starting_polls
wait_ready-↔-Ready_example = wait_ready-↔-Ready sample_floats starting_polls

ready_ok : wait_ready sample_floats starting_polls ≡ some (ok tt)
unfolding wait_ready is_listing eq_value
ready_ok = refl

wait-deadline_example :
    ((r : Result (Unit {0})) × (wait_ready sample_floats late_polls ≡ some r))
    × ((r : Result (Value ℕ)) × (wait_drained sample_floats late_polls ≡ some r))
wait-deadline_example = wait-deadline sample_floats late_polls refl

abbrev expected_outcomes : List Text
expected_outcomes =
    replicate 12 (codes "completed")
    ++ (replicate 4 (codes "timeout") ++ replicate 4 (codes "cancelled"))

outcomes_ok : collect_outcomes sample_floats loads http server indices ≡ ok expected_outcomes
unfolding collect_outcomes concurrent_request request_json completion_body streaming_completion
    read_chunks eq_value starts_with remove_prefix strip strip_left strip_right is_white
outcomes_ok = refl

none_invalid : count (codes "invalid") expected_outcomes ≡ 0
unfolding count
none_invalid = refl

collect_outcomes_complete_example : is_complete expected_outcomes ≡ true
collect_outcomes_complete_example =
    collect_outcomes_complete sample_floats loads http server indices expected_outcomes Perm.rfl
      outcomes_ok none_invalid

abbrev report : Fields ℕ
report = smoke_report sample_floats expected_outcomes drained_metrics null null

smoke_test_ok :
    smoke_test sample_floats loads http server starting_polls indices draining_polls
      (ok null)
      (ok null)
    ≡ ok report
unfolding smoke_test wait_ready is_listing check_requests check_models check_invalid content_of
    check_rates check_nonstream check_timeout check_sampled check_stream set_field collect_outcomes
    concurrent_request request_json completion_body streaming_completion read_chunks wait_drained
    is_drained all_zero is_complete check_reclaimed eq_value to_int to_float starts_with
    remove_prefix strip strip_left strip_right is_white count
smoke_test_ok = refl

smoke_test-Passed_example :
    Passed sample_floats loads http server starting_polls indices draining_polls report
smoke_test-Passed_example =
    smoke_test-Passed sample_floats loads http server starting_polls indices draining_polls
      (ok null) (ok null) report smoke_test_ok
