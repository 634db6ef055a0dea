-- ===== src/Load/Counted.antt =====
-- The counters of the load test, however its workers are interleaved.
use tinyllama_inference_engi.Prelude.{
  ℕ, zero, suc, ◌+◌, ◌/◌, ◌%◌, ◌≡◌, refl, sym, ap, ◌∙◌, inl, inr, Bool, true, false, not, List, [],
  ◌∷◌, arith, ◌==◌, if◌then◌else◌, Bool-cases, length, get_elem?, replicate, Text, codes, same,
  same_sound, same_comm,
}
use tinyllama_inference_engi.Prelude.Int.{pos, eqb_ℤ}
use tinyllama_inference_engi.Result.{
  ok, runtime_error, index_error, raise_if, or_raise, >>=-eq-ok, ok-injective,
}
use tinyllama_inference_engi.Json.Floats.{Floats}
use tinyllama_inference_engi.Json.{str}
use tinyllama_inference_engi.Json.Equal.{eq_value}
use tinyllama_inference_engi.Server.{
  Loads, Http, Streaming, streaming_completion, request_json, completion, error_code,
}
use tinyllama_inference_engi.Load.{prompt_items, finite_response_metrics}
use tinyllama_inference_engi.Load.Worker.{
  count_key, counter, failures_key, attempt, long_completion, Status, running, finished, failed,
  Worker, Pool, at, among, starting, Step, Reachable,
}

abbrev pub total : (Worker → ℕ) → List Worker → ℕ
total f [] = 0
total f (w ∷ ws) = f w + total f ws

abbrev pub all_counts : List (Text × ℕ) → ℕ
all_counts [] = 0
all_counts ((k, n) ∷ rest) = n + all_counts rest

abbrev pub is_failed : Status → Bool
is_failed failed = true
is_failed running = false
is_failed finished = false

-- 1 for a worker that has raised
abbrev pub has_failed : Worker → ℕ
has_failed w = if is_failed w.status then 1 else 0

-- How many of the iterations so far were to cancel a stream: every seventeenth, from the first on
abbrev pub cancellations : Worker → ℕ
cancellations w = (w.iteration + 16) / 17

total-among :
    (f : Worker → ℕ) (before : List Worker) (w : Worker) (after : List Worker)
    → total f (among before w after) ≡ total f before + (f w + total f after)
total-among f [] w after = omega arith
total-among f (x ∷ before) w after = omega (arith, total-among f before w after)

total-replicate : (f : Worker → ℕ) (n : ℕ) (w : Worker) → f w ≡ 0 → total f (replicate n w) ≡ 0
total-replicate f zero w h = refl
total-replicate f (suc n) w h = omega (arith, h, total-replicate f n w h)

all_counts-count_key :
    (key : Text) (cs : List (Text × ℕ)) → all_counts (count_key key cs) ≡ all_counts cs + 1
unfolding count_key
all_counts-count_key key [] = omega arith
all_counts-count_key key ((k, n) ∷ rest) = ground (arith, all_counts-count_key key rest)

counter-count_key :
    (key other : Text) (cs : List (Text × ℕ))
    → counter key (count_key other cs) ≡ counter key cs + (if same other key then 1 else 0)
unfolding count_key counter
counter-count_key key other [] = ground arith
counter-count_key key other ((k, n) ∷ rest) = elim (Bool-cases (same k other)) [
  | inl e ↦ rw (e, ← same_sound k other e) (ground arith)
  | inr e ↦ elim (Bool-cases (same k key)) [
    | inl d ↦
        let other_key : same other key ≡ false = rw (← same_sound k key d, same_comm other k) e in
        rw (e, d, other_key) (omega arith)
    | inr d ↦ rw (e, d) (counter-count_key key other rest)
  ]
]

next_cancellation : (n : ℕ) → (n + 1 + 16) / 17 ≡ (n + 16) / 17 + (if n % 17 == 0 then 1 else 0)
next_cancellation n = ground arith

module _ (fl : Floats) where
  open fl use {F}

  attempt_key :
      (loads : Loads F) (http : Http F) (server : Streaming F) (worker_id n : ℕ) (key : Text)
      → attempt fl loads http server worker_id n ≡ ok key
      → (same key failures_key ≡ false) × (same key (codes "cancelled") ≡ (n % 17 == 0))
  unfolding attempt
  attempt_key loads http server worker_id n key h =
      let (item, chosen, h1) =
        >>=-eq-ok
          (or_raise (get_elem? prompt_items ((worker_id + n) % 3))
            (index_error "tuple index out of range"))
          _ h in
      elim (Bool-cases (n % 17 == 0)) [
        | inl e ↦
            let (outcome, streamed, h2) =
              >>=-eq-ok (streaming_completion fl loads server item.1 true) _ (rw e at h1) in
            let (u, cancelled, h3) =
              >>=-eq-ok
                (raise_if (not (same outcome (codes "cancelled")))
                  (runtime_error "unexpected cancellation outcome"))
                _ h2 in
            rw (← ok-injective h3, e) (refl, refl)
        | inr e ↦ elim (Bool-cases (n % 19 == 0)) [
          | inl d ↦
              let (answer, answered, h2) =
                >>=-eq-ok (request_json loads http (completion fl item.1 8 1)) _
                  (rw (e, d) at h1) in
              let (u, status, h3) =
                >>=-eq-ok
                  (raise_if (not (eqb_ℤ answer.0 (pos 408)))
                    (runtime_error "timeout path returned HTTP"))
                  _ h2 in
              let (code, found, h4) = >>=-eq-ok (error_code answer.1) _ h3 in
              let (u1, named, h5) =
                >>=-eq-ok
                  (raise_if (not (eq_value fl code (str (codes "request_cancelled"))))
                    (runtime_error "timeout path returned HTTP"))
                  _ h4 in
              rw (← ok-injective h5, e) (refl, refl)
          | inr d ↦
              let (answer, answered, h2) =
                >>=-eq-ok (request_json loads http (long_completion fl item.1)) _
                  (rw (e, d) at h1) in
              let (u, status, h3) =
                >>=-eq-ok
                  (raise_if (not (eqb_ℤ answer.0 (pos 200)))
                    (runtime_error "completion returned HTTP"))
                  _ h2 in
              let (finite, tested, h4) = >>=-eq-ok (finite_response_metrics fl answer.1) _ h3 in
              let (u1, yes_finite, h5) =
                >>=-eq-ok (raise_if (not finite) (runtime_error "completion returned HTTP")) _ h4 in
              rw (← ok-injective h5, e) (refl, refl)
        ]
      ]

  -- The counters agree with the workers.
  pub record Counted (p : Pool) : Type 0 where
    pub counts : all_counts p.counters ≡ total (λ w. w.iteration + has_failed w) p.workers
    pub failures : counter failures_key p.counters ≡ total has_failed p.workers
    pub cancelled : counter (codes "cancelled") p.counters ≡ total cancellations p.workers

  Counted-starting : (concurrency : ℕ) → Counted (starting concurrency)
  unfolding counter
  Counted-starting concurrency = record {
    counts = sym (total-replicate _ concurrency (at 0 running) refl);
    failures = sym (total-replicate _ concurrency (at 0 running) refl);
    cancelled = sym (total-replicate _ concurrency (at 0 running) refl);
  }

  -- A step changes one worker, and what is counted by as much.
  moved :
      (f : Worker → ℕ) (before after : List Worker) (v w : Worker) {ps qs : List Worker} {c d : ℕ}
      (k : ℕ)
      → ps ≡ among before v after
      → qs ≡ among before w after
      → c ≡ total f ps
      → d ≡ c + k
      → f w ≡ f v + k
      → d ≡ total f qs
  moved f before after v w {ps} {qs} {c} {d} k hp hq hc hd hw = rw hq (
      omega
        (arith, rw hp at hc, hd, hw, total-among f before v after, total-among f before w after))

  Counted-Step : {p q : Pool} → Counted p → Step fl p q → Counted q
  Counted-Step {p} {q} c (Step.iterate before after n key loads http server h hp hq hc) =
      let (other, cancelling) = attempt_key loads http server (length before) n key h in
      record {
        counts =
            moved (λ w. w.iteration + has_failed w) before after (at n running) (at (n + 1) running)
              1 hp hq c.counts (rw hc (all_counts-count_key key p.counters)) (omega arith);
        failures =
            moved has_failed before after (at n running) (at (n + 1) running) 0 hp hq c.failures
              (rw hc (
                counter-count_key failures_key key p.counters
                ∙ ap (λ b. counter failures_key p.counters + (if b then 1 else 0)) other))
              (omega arith);
        cancelled =
            moved cancellations before after (at n running) (at (n + 1) running)
              (if n % 17 == 0 then 1 else 0) hp hq c.cancelled
              (rw hc (
                counter-count_key (codes "cancelled") key p.counters
                ∙ ap (λ b. counter (codes "cancelled") p.counters + (if b then 1 else 0))
                    cancelling))
              (next_cancellation n);
      }
  Counted-Step {p} {q} c (Step.fail before after n e loads http server h hp hq hc) = record {
    counts =
        moved (λ w. w.iteration + has_failed w) before after (at n running) (at n failed) 1 hp hq
          c.counts (rw hc (all_counts-count_key failures_key p.counters)) (omega arith);
    failures =
        moved has_failed before after (at n running) (at n failed) 1 hp hq c.failures
          (rw hc (counter-count_key failures_key failures_key p.counters)) (omega arith);
    cancelled =
        moved cancellations before after (at n running) (at n failed) 0 hp hq c.cancelled
          (rw hc (counter-count_key (codes "cancelled") failures_key p.counters)) (omega arith);
  }
  Counted-Step {p} {q} c (Step.stop before after n hp hq hc) = record {
    counts =
        moved (λ w. w.iteration + has_failed w) before after (at n running) (at n finished) 0 hp hq
          c.counts (rw hc (omega arith)) (omega arith);
    failures =
        moved has_failed before after (at n running) (at n finished) 0 hp hq c.failures
          (rw hc (omega arith)) (omega arith);
    cancelled =
        moved cancellations before after (at n running) (at n finished) 0 hp hq c.cancelled
          (rw hc (omega arith)) (omega arith);
  }

  -- However the workers are interleaved, there is one count for each finished iteration and each
  -- failure, the unexpected failures are those of the failed workers, and the cancelled streams are
  -- one for each seventeen iterations that a worker has begun.
  pub Reachable-Counted : (concurrency : ℕ) (p : Pool) → Reachable fl concurrency p → Counted p
  Reachable-Counted concurrency p Reachable.start = Counted-starting concurrency
  Reachable-Counted concurrency p (Reachable.next r s) =
      Counted-Step (Reachable-Counted concurrency _ r) s
