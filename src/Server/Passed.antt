-- ===== src/Server/Passed.antt =====
-- What the server has done if `main` of scripts/openai_smoke_test.py writes its report.
use tinyllama_inference_engi.Prelude.{
  ℕ, String, ◌≡◌, sym, ap, ◌∙◌, true, false, not, Option, none, some, List, [], ◌∷◌, refl, ◌==◌,
  ==_iff, &&_true, length, Text, codes, same_sound,
}
use tinyllama_inference_engi.Prelude.Strings.{count}
use tinyllama_inference_engi.Prelude.Int.{ℤ, pos, eqb_ℤ, ltb_ℤ, eqb_ℤ_sound}
use tinyllama_inference_engi.Result.{
  Result, ok, runtime_error, raise_if, >>=-eq-ok, ok-injective, not-false, raise_if-eq-ok,
}
use tinyllama_inference_engi.Json.Floats.{Floats}
use tinyllama_inference_engi.Json.{Value, Fields, get, subscript, obj, int, fields}
use tinyllama_inference_engi.Json.Equal.{to_int}
use tinyllama_inference_engi.Server.{Loads, Http, Streaming, streaming_completion, stream_request}
use tinyllama_inference_engi.Server.Polling.{Poll, wait_ready, wait_drained, all_zero, gauges}
use tinyllama_inference_engi.Server.Polled.{Ready, wait_ready-↔-Ready, wait_drained-idle}
use tinyllama_inference_engi.Server.Stream.{Chunk, streaming_completion-Chunk}
use tinyllama_inference_engi.Server.Outcomes.{collect_outcomes, is_complete}
use tinyllama_inference_engi.Server.Smoke.{
  settled, smoke_test, check_requests, check_models, check_invalid, check_nonstream, check_timeout,
  check_sampled, check_stream, check_reclaimed, counts_json,
}

settled_ok : {A : Type 0} {a : A} (o : Option (Result A)) → settled o ≡ ok a → o ≡ some (ok a)
settled_ok none h = cc
settled_ok (some r) h = ap some h

module _ (fl : Floats) where
  open fl use {F}

  -- A counter of the metrics, read as the script reads it
  abbrev pub Counter : Value F → Text → ℤ → Type 0
  Counter metrics key n = (v : Value F) × (subscript metrics key ≡ ok v) × (to_int fl v ≡ ok n)

  check_reclaimed_lem :
      (metrics : Value F)
      → check_reclaimed fl metrics ≡ ok tt
      → Counter metrics (codes "kv_blocks_used") (pos 0)
        × (n : ℤ) × Counter metrics (codes "cancelled_total") n
        × (ltb_ℤ n (pos 8) ≡ false)
  unfolding check_reclaimed
  check_reclaimed_lem metrics h =
      let message : String = "KV blocks were not reclaimed after cancellation" in
      let (used, there, h1) = >>=-eq-ok (subscript metrics (codes "kv_blocks_used")) _ h in
      let (blocks, counted, h2) = >>=-eq-ok (to_int fl used) _ h1 in
      let (u, zero_blocks, h3) =
        >>=-eq-ok (raise_if (not (eqb_ℤ blocks (pos 0))) (runtime_error message)) _ h2 in
      let (total, there1, h4) = >>=-eq-ok (subscript metrics (codes "cancelled_total")) _ h3 in
      let (cancelled, counted1, h5) = >>=-eq-ok (to_int fl total) _ h4 in
      let none_left = eqb_ℤ_sound blocks (pos 0) (not-false _ (raise_if-eq-ok _ _ zero_blocks)) in
      (
        (used, there, counted ∙ ap ok none_left),
        cancelled,
        (total, there1, counted1),
        raise_if-eq-ok _ _ h5,
      )

  check_stream-Chunk :
      (loads : Loads F) (http : Http F) (server : Streaming F)
      → check_stream fl loads http server ≡ ok tt
      → (lines : List (Result Text)) × (server
            (stream_request fl (codes "The capital of France is") false)
          ≡ ok (pos 200, lines))
        × Chunk fl loads lines
  unfolding check_stream
  check_stream-Chunk loads http server h =
      let (outcome, streamed, h1) =
        >>=-eq-ok (streaming_completion fl loads server (codes "The capital of France is") false) _
          h in
      let completed =
        same_sound outcome (codes "completed") (not-false _ (raise_if-eq-ok _ _ h1)) in
      streaming_completion-Chunk fl loads server (codes "The capital of France is")
        (streamed ∙ ap ok completed)

  check_requests-Chunk :
      (loads : Loads F) (http : Http F) (server : Streaming F)
      → check_requests fl loads http server ≡ ok tt
      → (lines : List (Result Text)) × (server
            (stream_request fl (codes "The capital of France is") false)
          ≡ ok (pos 200, lines))
        × Chunk fl loads lines
  unfolding check_requests
  check_requests-Chunk loads http server h =
      let (u, models, h1) = >>=-eq-ok (check_models fl loads http) _ h in
      let (u1, invalid, h2) = >>=-eq-ok (check_invalid fl loads http) _ h1 in
      let (u2, completed, h3) = >>=-eq-ok (check_nonstream fl loads http) _ h2 in
      let (u3, late, h4) = >>=-eq-ok (check_timeout fl loads http) _ h3 in
      let (u4, sampled, h5) = >>=-eq-ok (check_sampled fl loads http) _ h4 in
      check_stream-Chunk loads http server h5

  -- How often each outcome occurs in a complete list, and how many outcomes there are
  abbrev pub EachOutcome : List Text → Type 0
  EachOutcome outcomes =
      (count (codes "completed") outcomes ≡ 12)
      × (count (codes "timeout") outcomes ≡ 4)
      × (count (codes "cancelled") outcomes ≡ 4)
      × (length outcomes ≡ 20)

  is_complete_lem : (outcomes : List Text) → is_complete outcomes ≡ true → EachOutcome outcomes
  unfolding is_complete
  is_complete_lem outcomes h =
      let (sized, h1) = &&_true (length outcomes == 20) _ h in
      let (completed, h2) = &&_true (count (codes "completed") outcomes == 12) _ h1 in
      let (timeout, cancelled) = &&_true (count (codes "timeout") outcomes == 4) _ h2 in
      (
        (==_iff _ _).0 completed,
        (==_iff _ _).0 timeout,
        (==_iff _ _).0 cancelled,
        (==_iff _ _).0 sized,
      )

  abbrev pub reported_counts : Value F
  reported_counts = obj (
      fields (
        (codes "completed", int (pos 12))
        ∷ (codes "timeout", int (pos 4))
        ∷ (codes "cancelled", int (pos 4))
        ∷ []))

  counts_json-EachOutcome :
      (outcomes : List Text)
      → EachOutcome outcomes
      → obj (counts_json fl outcomes) ≡ reported_counts
  counts_json-EachOutcome outcomes (completed, timeout, cancelled, sized) =
      rw (completed, timeout, cancelled) refl

  -- The run behind a report
  pub record Passed (loads : Loads F) (http : Http F) (server : Streaming F)
      (starting : List (Poll F)) (order : List ℕ) (draining : List (Poll F)) (report : Fields F)
      : Type 0 where
    pub ready : Ready fl starting
    pub lines : List (Result Text)
    pub streamed :
        server (stream_request fl (codes "The capital of France is") false) ≡ ok (pos 200, lines)
    pub chunk : Chunk fl loads lines
    pub outcomes : List Text
    pub collected : collect_outcomes fl loads http server order ≡ ok outcomes
    pub each_outcome : EachOutcome outcomes
    pub counts_reported : get (codes "outcomes") report ≡ reported_counts
    pub metrics : Value F
    pub reported : get (codes "final_metrics") report ≡ metrics
    pub idle : all_zero fl gauges metrics ≡ ok true
    pub cancelled : ℤ
    pub counted : Counter metrics (codes "cancelled_total") cancelled
    pub enough : ltb_ℤ cancelled (pos 8) ≡ false

  -- If the smoke test writes a report, the server has become ready and has streamed a chunk of a
  -- completion; of the twenty concurrent requests twelve were completed, four timed out and four
  -- were cancelled, which the report says too; and the reported metrics are those of an idle
  -- scheduler that has cancelled at least eight requests.
  pub smoke_test-Passed :
      (loads : Loads F) (http : Http F) (server : Streaming F) (starting : List (Poll F))
      (order : List ℕ) (draining : List (Poll F)) (before after : Result (Value F))
      (report : Fields F)
      → smoke_test fl loads http server starting order draining before after ≡ ok report
      → Passed loads http server starting order draining report
  unfolding smoke_test
  smoke_test-Passed loads http server starting order draining before after report h =
      let (source_before, b, h1) = >>=-eq-ok before _ h in
      let (u, started, h2) = >>=-eq-ok (settled (wait_ready fl starting)) _ h1 in
      let (u1, requested, h3) = >>=-eq-ok (check_requests fl loads http server) _ h2 in
      let (outcomes, collected, h4) =
        >>=-eq-ok (collect_outcomes fl loads http server order) _ h3 in
      let (metrics, drained, h5) = >>=-eq-ok (settled (wait_drained fl draining)) _ h4 in
      let (source_after, a, h6) = >>=-eq-ok after _ h5 in
      let (u2, complete, h7) =
        >>=-eq-ok
          (raise_if (not (is_complete outcomes))
            (runtime_error "concurrency outcomes are incomplete"))
          _ h6 in
      let (u3, reclaimed, h8) = >>=-eq-ok (check_reclaimed fl metrics) _ h7 in
      let (lines, streamed, chunk) = check_requests-Chunk loads http server requested in
      let (p, i, there, answered, idle) =
        wait_drained-idle fl draining metrics (settled_ok _ drained) in
      let (none_left, n, counted, enough) = check_reclaimed_lem metrics reclaimed in
      let counts = is_complete_lem outcomes (not-false _ (raise_if-eq-ok _ _ complete)) in
      record {
        ready = (wait_ready-↔-Ready fl starting).0 (settled_ok _ started);
        lines = lines;
        streamed = streamed;
        chunk = chunk;
        outcomes = outcomes;
        collected = collected;
        each_outcome = counts;
        counts_reported =
            ap (get (codes "outcomes")) (sym (ok-injective h8))
            ∙ counts_json-EachOutcome outcomes counts;
        metrics = metrics;
        reported = ap (get (codes "final_metrics")) (sym (ok-injective h8));
        idle = idle;
        cancelled = n;
        counted = counted;
        enough = enough;
      }
