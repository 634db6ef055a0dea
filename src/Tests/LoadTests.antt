-- ===== src/Tests/LoadTests.antt =====
-- Runs of the checks of the load test.
use tinyllama_inference_engi.Prelude.{
  ℕ, ◌+◌, ◌≤◌, ◌≡◌, refl, ◌↔◌, true, false, some, List, [], ◌∷◌, map, codes,
}
use tinyllama_inference_engi.Prelude.Int.{pos}
use tinyllama_inference_engi.Prelude.Strings.{
  starts_with, remove_prefix, strip, strip_left, strip_right, is_white,
}
use tinyllama_inference_engi.Result.{ok, err, os_error, value_error}
use tinyllama_inference_engi.Samples.{sample_floats}
use tinyllama_inference_engi.Json.{Value, Fields, null, boolean, int, float, obj, fields, set_field}
use tinyllama_inference_engi.Json.Equal.{eq_value, to_int, to_float}
use tinyllama_inference_engi.Server.{Loads, Http, Streaming, read_chunks, streaming_completion}
use tinyllama_inference_engi.Server.Polling.{Poll, all_zero, is_drained, wait_drained}
use tinyllama_inference_engi.Load.{
  repeated, prompt_items, discarded_warmup, window_of, validate_memory_stability,
  validate_request_accounting, Accounting,
}
use tinyllama_inference_engi.Load.Memory.{
  Compared, validate_memory_stability-Compared, validate_request_accounting-↔,
}
use tinyllama_inference_engi.Load.Worker.{
  count_key, counter, attempt, running, Pool, at, starting, Step, Reachable,
}
use tinyllama_inference_engi.Load.Counted.{Counted, Reachable-Counted}
use tinyllama_inference_engi.Load.Monitor.{
  Round, Monitor, unpolled, record_answer, poll_once, poll_metrics,
}
use tinyllama_inference_engi.Load.Rounds.{Polled}
use tinyllama_inference_engi.Load.Monitored.{Streak, poll_metrics-Polled}
use tinyllama_inference_engi.Load.Accepted.{
  completed_total, all_classes_completed, memory_used, Run, Verdict, accept_run, essential,
  accept_run-essential,
}

abbrev memory_samples : List ℕ
memory_samples = 5 ∷ 1 ∷ 2 ∷ 3 ∷ 4 ∷ 5 ∷ 6 ∷ 7 ∷ []

abbrev memory_report : Fields ℕ
memory_report = fields (
    (codes "sample_count", int (pos 8))
    ∷ (codes "discarded_warmup_samples", int (pos 1))
    ∷ (codes "window_samples", int (pos 2))
    ∷ (codes "first_window_median_mib", float 1)
    ∷ (codes "last_window_median_mib", float 6)
    ∷ (codes "growth_mib", float 5)
    ∷ (codes "limit_mib", float 64)
    ∷ (codes "passed", boolean true)
    ∷ [])

memory_ok : validate_memory_stability sample_floats memory_samples 64 ≡ ok memory_report
unfolding validate_memory_stability discarded_warmup window_of
memory_ok = refl

validate_memory_stability-Compared_example : Compared sample_floats memory_samples 64 memory_report
validate_memory_stability-Compared_example =
    validate_memory_stability-Compared sample_floats memory_samples 64 memory_report memory_ok

abbrev final_metrics : Fields ℕ
final_metrics = fields (
    (codes "submitted_total", int (pos 7))
    ∷ (codes "completed_total", int (pos 4))
    ∷ (codes "cancelled_total", int (pos 3))
    ∷ (codes "failed_total", int (pos 0))
    ∷ (codes "queued_requests", int (pos 0))
    ∷ (codes "active_sequences", int (pos 0))
    ∷ (codes "kv_blocks_used", int (pos 0))
    ∷ [])

abbrev account : Accounting sample_floats
account = record {
  submitted_total = pos 7;
  completed_total = pos 4;
  cancelled_total = pos 3;
  failed_total = pos 0;
  terminal_total = pos 7;
  passed = true;
}

account_ok : validate_request_accounting sample_floats final_metrics ≡ ok account
unfolding validate_request_accounting to_int
account_ok = refl

validate_request_accounting-↔_example :
    (true ≡ true)
    ↔ (n m : ℕ) × (pos 4 ≡ pos n) × (pos 3 ≡ pos m) × (pos 0 ≡ pos 0) × (pos 7 ≡ pos (n + m))
validate_request_accounting-↔_example =
    validate_request_accounting-↔ sample_floats final_metrics account account_ok

abbrev loads : Loads ℕ
loads t = err (value_error "Expecting value")

abbrev http : Http ℕ
http request = err (os_error "Connection refused")

abbrev server : Streaming ℕ
server request = ok (pos 200, ok (codes "data: c") ∷ [])

-- One of two workers has cancelled its first stream.
abbrev stepped : Pool
stepped = record {
  counters = (codes "cancelled", 1) ∷ [];
  workers = at 0 running ∷ at 1 running ∷ [];
}

cancelled_ok : attempt sample_floats loads http server 1 0 ≡ ok (codes "cancelled")
unfolding attempt prompt_items repeated streaming_completion read_chunks starts_with remove_prefix
    strip strip_left strip_right is_white
cancelled_ok = refl

one_iteration : Step sample_floats (starting 2) stepped
unfolding count_key
one_iteration =
    Step.iterate (at 0 running ∷ []) [] 0 (codes "cancelled") loads http server cancelled_ok refl
      refl refl

Reachable-Counted_example : Counted sample_floats stepped
Reachable-Counted_example =
    Reachable-Counted sample_floats 2 stepped (Reachable.next Reachable.start one_iteration)

abbrev refused : Round ℕ
refused = record {
  exited = false;
  gpu = ok null;
  answer = err (os_error "Connection refused");
  time = 1;
}

abbrev answered : Round ℕ
answered = record {
  exited = false;
  gpu = ok null;
  answer = ok (pos 200, obj (fields []));
  time = 2;
}

abbrev monitored : Monitor ℕ
monitored = record {
  gpu_samples = null ∷ null ∷ null ∷ null ∷ [];
  scheduler_samples =
      fields ((codes "timestamp_monotonic", float 2) ∷ [])
      ∷ fields ((codes "timestamp_monotonic", float 2) ∷ [])
      ∷ [];
  failures = 2;
  consecutive = 0;
  maximum = 2;
}

monitored_ok : poll_metrics unpolled (answered ∷ refused ∷ refused ∷ answered ∷ []) ≡ ok monitored
unfolding poll_metrics poll_once record_answer set_field
monitored_ok = refl

abbrev four_rounds : List (Round ℕ)
four_rounds = answered ∷ refused ∷ refused ∷ answered ∷ []

poll_metrics-Polled_example :
    Polled 4 monitored × Streak four_rounds 2 × ((n : ℕ) → Streak four_rounds n → n ≤ 2)
poll_metrics-Polled_example = poll_metrics-Polled four_rounds monitored monitored_ok

abbrev draining_polls : List (Poll ℕ)
draining_polls =
    record { in_time = true; exited = false; answer = ok (pos 200, obj final_metrics) } ∷ []

drained_ok : wait_drained sample_floats draining_polls ≡ some (ok (obj final_metrics))
unfolding wait_drained is_drained all_zero to_int
drained_ok = refl

abbrev gpu_sample : ℕ → Value ℕ
gpu_sample used =
    obj (fields ((codes "metrics", obj (fields ((codes "memory.used", float used) ∷ []))) ∷ []))

abbrev short_run : Run sample_floats
short_run = record {
  elapsed = 1800;
  duration = 1800;
  counters = (codes "cancelled", 1) ∷ [];
  gpu_samples = map gpu_sample memory_samples;
  scheduler_samples = [];
  final_metrics = obj final_metrics;
  source_before = null;
}

-- It has not passed: no completion, and too few samples of the scheduler.
abbrev verdict : Verdict sample_floats
verdict = record { memory = memory_report; accounting = account; passed = false }

verdict_ok : accept_run sample_floats short_run (ok null) ≡ ok verdict
unfolding accept_run memory_used validate_memory_stability discarded_warmup window_of all_zero
    validate_request_accounting to_int to_float completed_total all_classes_completed prompt_items
    starts_with counter eq_value
verdict_ok = refl

accept_run-essential_example :
    (source_after : Value ℕ) × (ok null ≡ ok source_after)
    × (false ≡ essential sample_floats short_run verdict source_after)
accept_run-essential_example =
    accept_run-essential sample_floats 2 stepped draining_polls short_run (ok null) verdict
      (Reachable.next Reachable.start one_iteration) refl refl drained_ok verdict_ok
