-- ===== src/Load/Rounds.antt =====
-- What a round of the loop of scripts/load_test.py that polls the server counts.
use tinyllama_inference_engi.Prelude.{
  ℕ, ◌+◌, ◌≤◌, ◌≡◌, refl, inl, inr, Bool, true, false, not, List, [], ◌∷◌, ◌++◌, arith, Bool-cases,
  length, All, length-append, codes,
}
use tinyllama_inference_engi.Prelude.Int.{ℤ, pos, eqb_ℤ}
use tinyllama_inference_engi.Result.{
  Result, ok, err, runtime_error, raise_if, >>=-eq-ok, ok-injective,
}
use tinyllama_inference_engi.Json.{Value, float, set_field, as_dict}
use tinyllama_inference_engi.Server.Polling.{is_os_error}
use tinyllama_inference_engi.Load.Monitor.{
  Round, Monitor, unpolled, record_answer, poll_once, poll_metrics,
}

module _ {F : Type 0} where
  -- The counts of `done` rounds
  pub record Polled (done : ℕ) (m : Monitor F) : Type 0 where
    pub sampled : length m.gpu_samples ≡ done
    pub answered : length m.scheduler_samples + m.failures ≡ done
    pub run_counted : m.consecutive ≤ m.maximum
    pub maximum_counted : m.maximum ≤ m.failures

  record_answer-Polled :
      (done : ℕ) (m n : Monitor F) (sample : Value F) (time : F) (answer : Result (ℤ × Value F))
      → Polled done m
      → record_answer m (m.gpu_samples ++ sample ∷ []) time answer ≡ ok n
      → Polled (done + 1) n
  unfolding record_answer
  record_answer-Polled done m n sample time (err e) p h = elim (Bool-cases (is_os_error e)) [
    | inr other ↦ absurd (cc (rw other at h))
    | inl os ↦ rw (← ok-injective (rw os at h)) (record {
      sampled = omega (arith, length-append m.gpu_samples (sample ∷ []), p.sampled);
      answered = omega (arith, p.answered);
      run_counted = omega arith;
      maximum_counted = omega (arith, p.run_counted, p.maximum_counted);
    })
  ]
  record_answer-Polled done m n sample time (ok (status, answer)) p h =
      let (u, good, h1) =
        >>=-eq-ok
          (raise_if (not (eqb_ℤ status (pos 200))) (runtime_error "metrics endpoint returned HTTP"))
          _ h in
      let (metrics, found, h2) = >>=-eq-ok (as_dict answer) _ h1 in
      rw (← ok-injective h2) (record {
        sampled = omega (arith, length-append m.gpu_samples (sample ∷ []), p.sampled);
        answered = omega (
          arith,
          p.answered,
          length-append m.scheduler_samples
              (set_field (codes "timestamp_monotonic") (float time) metrics ∷ []),
        );
        run_counted = omega arith;
        maximum_counted = p.maximum_counted;
      })

  poll_metrics-keeps :
      (done : ℕ) (m n : Monitor F) (rounds : List (Round F))
      → Polled done m
      → poll_metrics m rounds ≡ ok n
      → Polled (done + length rounds) n
  unfolding poll_metrics
  poll_metrics-keeps done m n [] p h = rw (← ok-injective h) (record {
    sampled = omega (arith, p.sampled);
    answered = omega (arith, p.answered);
    run_counted = p.run_counted;
    maximum_counted = p.maximum_counted;
  })
  poll_metrics-keeps done m n (r ∷ rest) p h =
      let (next, once, h1) = >>=-eq-ok (poll_once m r) _ h in
      let (u, alive, h2) =
        >>=-eq-ok (raise_if r.exited (runtime_error "server crashed during stability load")) _
          once in
      let (sample, taken, h3) = >>=-eq-ok r.gpu _ h2 in
      let kept =
        poll_metrics-keeps (done + 1) next n rest
          (record_answer-Polled done m next sample r.time r.answer p h3) h1 in
      record {
        sampled = omega (arith, kept.sampled);
        answered = omega (arith, kept.answered);
        run_counted = kept.run_counted;
        maximum_counted = kept.maximum_counted;
      }

  -- The round counts as a failure.
  abbrev pub is_failing : Result (ℤ × Value F) → Bool
  is_failing (ok a) = false
  is_failing (err e) = is_os_error e

  -- A round never lowers the maximum, which bounds the current run; a failing one prolongs the run.
  record Advanced (m n : Monitor F) (failing : Bool) : Type 0 where
    grown : m.maximum ≤ n.maximum
    bounded : m.consecutive ≤ m.maximum → n.consecutive ≤ n.maximum
    prolonged : failing ≡ true → n.consecutive ≡ m.consecutive + 1

  record_answer-Advanced :
      (m n : Monitor F) (gpu_samples : List (Value F)) (time : F) (answer : Result (ℤ × Value F))
      → record_answer m gpu_samples time answer ≡ ok n
      → Advanced m n (is_failing answer)
  unfolding record_answer
  record_answer-Advanced m n gpu_samples time (err e) h = elim (Bool-cases (is_os_error e)) [
    | inr other ↦ absurd (cc (rw other at h))
    | inl os ↦
        rw (← ok-injective (rw os at h))
          (record { grown = omega arith; bounded = λ b. omega arith; prolonged = λ f. refl })
  ]
  record_answer-Advanced m n gpu_samples time (ok (status, answer)) h =
      let (u, good, h1) =
        >>=-eq-ok
          (raise_if (not (eqb_ℤ status (pos 200))) (runtime_error "metrics endpoint returned HTTP"))
          _ h in
      let (metrics, found, h2) = >>=-eq-ok (as_dict answer) _ h1 in
      rw (← ok-injective h2)
        (record { grown = omega arith; bounded = λ b. omega arith; prolonged = λ f. absurd (cc f) })

  poll_once-Advanced :
      (m n : Monitor F) (r : Round F) → poll_once m r ≡ ok n → Advanced m n (is_failing r.answer)
  unfolding poll_once
  poll_once-Advanced m n r h =
      let (u, alive, h1) =
        >>=-eq-ok (raise_if r.exited (runtime_error "server crashed during stability load")) _ h in
      let (sample, taken, h2) = >>=-eq-ok r.gpu _ h1 in
      record_answer-Advanced m n (m.gpu_samples ++ sample ∷ []) r.time r.answer h2

  poll_metrics-grows :
      (rounds : List (Round F)) (m n : Monitor F)
      → poll_metrics m rounds ≡ ok n
      → m.maximum ≤ n.maximum
  unfolding poll_metrics
  poll_metrics-grows [] m n h = rw (← ok-injective h) (omega arith)
  poll_metrics-grows (r ∷ rest) m n h =
      let (next, once, h1) = >>=-eq-ok (poll_once m r) _ h in
      let step = poll_once-Advanced m next r once in
      omega (arith, step.grown, poll_metrics-grows rest next n h1)

  run-bounded :
      (run rest : List (Round F)) (m n : Monitor F)
      → All (λ r. is_failing r.answer ≡ true) run
      → m.consecutive ≤ m.maximum
      → poll_metrics m (run ++ rest) ≡ ok n
      → m.consecutive + length run ≤ n.maximum
  unfolding poll_metrics
  run-bounded [] rest m n f b h = omega (arith, b, poll_metrics-grows rest m n h)
  run-bounded (r ∷ run) rest m n f b h =
      let (next, once, h1) = >>=-eq-ok (poll_once m r) _ h in
      let step = poll_once-Advanced m next r once in
      omega (arith, step.prolonged f.0, run-bounded run rest next n f.1 (step.bounded b) h1)

  pub poll_metrics_runs :
      (before run after : List (Round F)) (m n : Monitor F)
      → m.consecutive ≤ m.maximum
      → All (λ r. is_failing r.answer ≡ true) run
      → poll_metrics m (before ++ (run ++ after)) ≡ ok n
      → length run ≤ n.maximum
  unfolding poll_metrics
  poll_metrics_runs [] run after m n b f h = omega (arith, run-bounded run after m n f b h)
  poll_metrics_runs (r ∷ before) run after m n b f h =
      let (next, once, h1) = >>=-eq-ok (poll_once m r) _ h in
      let step = poll_once-Advanced m next r once in
      poll_metrics_runs before run after next n (step.bounded b) f h1

  pub poll_metrics-counts :
      (rounds : List (Round F)) (m : Monitor F)
      → poll_metrics unpolled rounds ≡ ok m
      → Polled (length rounds) m
  poll_metrics-counts rounds m h =
      let start : Polled 0 unpolled = record {
        sampled = refl;
        answered = refl;
        run_counted = omega arith;
        maximum_counted = omega arith;
      } in
      let kept = poll_metrics-keeps 0 unpolled m rounds start h in
      record {
        sampled = omega (arith, kept.sampled);
        answered = omega (arith, kept.answered);
        run_counted = kept.run_counted;
        maximum_counted = kept.maximum_counted;
      }
