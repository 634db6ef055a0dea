-- ===== src/Load/Monitored.antt =====
-- What the loop of scripts/load_test.py that polls the server has counted.
use mathlib.Core.Path.{subst}
use tinyllama_inference_engi.Prelude.{
  sym, ap, ◌∙◌, ◌⊎◌, max, ltb, All-append, append-nil, append_assoc, ℕ, ◌+◌, ◌≤◌, ◌≡◌, refl, inl,
  inr, true, false, not, List, [], ◌∷◌, ◌++◌, arith, Bool-cases, length, All, length-append,
}
use tinyllama_inference_engi.Prelude.Int.{ℤ, pos, eqb_ℤ}
use tinyllama_inference_engi.Result.{
  Result, ok, err, runtime_error, raise_if, >>=-eq-ok, ok-injective,
}
use tinyllama_inference_engi.Json.{Value, as_dict}
use tinyllama_inference_engi.Server.Polling.{is_os_error}
use tinyllama_inference_engi.Load.Monitor.{
  Round, Monitor, unpolled, record_answer, poll_once, poll_metrics,
}
use tinyllama_inference_engi.Load.Rounds.{
  Polled, is_failing, poll_metrics_runs, poll_metrics-counts,
}

max_above : (a b : ℕ) → ltb a b ≡ true → max a b ≡ b
max_above a b h = ground arith

max_within : (a b : ℕ) → ltb a b ≡ false → max a b ≡ a
max_within a b h = ground arith

module _ {F : Type 0} where
  -- A run of so many failing rounds, within the rounds or at their end
  abbrev pub Failing : List (Round F) → Type 0
  Failing = All (λ r. is_failing r.answer ≡ true)

  pub record Streak (rounds : List (Round F)) (n : ℕ) : Type 0 where
    pub before : List (Round F)
    pub run : List (Round F)
    pub after : List (Round F)
    pub parts : rounds ≡ before ++ (run ++ after)
    pub failing : Failing run
    pub counted : length run ≡ n

  record Ending (rounds : List (Round F)) (n : ℕ) : Type 0 where
    before : List (Round F)
    run : List (Round F)
    parts : rounds ≡ before ++ run
    failing : Failing run
    counted : length run ≡ n

  -- The two counters are those of runs that there were.
  record Counts (rounds : List (Round F)) (m : Monitor F) : Type 0 where
    current : Ending rounds m.consecutive
    longest : Streak rounds m.maximum

  Streak-longer :
      (rounds : List (Round F)) (r : Round F) (n : ℕ)
      → Streak rounds n
      → Streak (rounds ++ r ∷ []) n
  Streak-longer rounds r n s = record {
    before = Streak.before s;
    run = Streak.run s;
    after = Streak.after s ++ r ∷ [];
    parts =
        ap (λ l. l ++ r ∷ []) (Streak.parts s)
        ∙ append_assoc (Streak.before s) (Streak.run s ++ Streak.after s) (r ∷ [])
        ∙ ap (λ l. Streak.before s ++ l) (append_assoc (Streak.run s) (Streak.after s) (r ∷ []));
    failing = Streak.failing s;
    counted = Streak.counted s;
  }

  Ending-longer :
      (rounds : List (Round F)) (r : Round F) (n : ℕ)
      → is_failing r.answer ≡ true
      → Ending rounds n
      → Ending (rounds ++ r ∷ []) (n + 1)
  Ending-longer rounds r n f e = record {
    before = Ending.before e;
    run = Ending.run e ++ r ∷ [];
    parts =
        ap (λ l. l ++ r ∷ []) (Ending.parts e)
        ∙ append_assoc (Ending.before e) (Ending.run e) (r ∷ []);
    failing =
        All-append (λ r. is_failing r.answer ≡ true) (Ending.run e) (r ∷ []) (Ending.failing e)
          (f, tt);
    counted = omega (arith, length-append (Ending.run e) (r ∷ []), Ending.counted e);
  }

  Ending-Streak : (rounds : List (Round F)) (n : ℕ) → Ending rounds n → Streak rounds n
  Ending-Streak rounds n e = record {
    before = Ending.before e;
    run = Ending.run e;
    after = [];
    parts = Ending.parts e ∙ ap (λ l. Ending.before e ++ l) (sym (append-nil (Ending.run e)));
    failing = Ending.failing e;
    counted = Ending.counted e;
  }

  -- What an answer does to the two counters
  record_answer-counters :
      (m n : Monitor F) (gpu_samples : List (Value F)) (time : F) (answer : Result (ℤ × Value F))
      → record_answer m gpu_samples time answer ≡ ok n
      → ((is_failing answer ≡ true)
          × (n.consecutive ≡ m.consecutive + 1)
          × (n.maximum ≡ max m.maximum (m.consecutive + 1)))
        ⊎ ((n.consecutive ≡ 0) × (n.maximum ≡ m.maximum))
  unfolding record_answer
  record_answer-counters m n gpu_samples time (err e) h = elim (Bool-cases (is_os_error e)) [
    | inr other ↦ absurd (cc (rw other at h))
    | inl os ↦ rw (← ok-injective (rw os at h)) (inl (os, refl, refl))
  ]
  record_answer-counters m n gpu_samples time (ok (status, answer)) h =
      let (u, good, h1) =
        >>=-eq-ok
          (raise_if (not (eqb_ℤ status (pos 200))) (runtime_error "metrics endpoint returned HTTP"))
          _ h in
      let (metrics, found, h2) = >>=-eq-ok (as_dict answer) _ h1 in
      rw (← ok-injective h2) (inr (refl, refl))

  poll_once-Counts :
      (rounds : List (Round F)) (r : Round F) (m n : Monitor F)
      → Counts rounds m
      → poll_once m r ≡ ok n
      → Counts (rounds ++ r ∷ []) n
  unfolding poll_once
  poll_once-Counts rounds r m n c h =
      let (u, alive, h1) =
        >>=-eq-ok (raise_if r.exited (runtime_error "server crashed during stability load")) _ h in
      let (sample, taken, h2) = >>=-eq-ok r.gpu _ h1 in
      elim (record_answer-counters m n (m.gpu_samples ++ sample ∷ []) r.time r.answer h2) [
        | inr (reset, kept) ↦ record {
          current = rw reset (record {
            before = rounds ++ r ∷ [];
            run = [];
            parts = sym (append-nil (rounds ++ r ∷ []));
            failing = tt;
            counted = refl;
          });
          longest = rw kept (Streak-longer rounds r m.maximum (Counts.longest c));
        }
        | inl (failed, prolonged, grown) ↦
            let more = Ending-longer rounds r m.consecutive failed (Counts.current c) in
            elim (Bool-cases (ltb m.maximum (m.consecutive + 1))) [
              | inl above ↦ record {
                current = rw prolonged more;
                longest =
                    subst (Streak (rounds ++ r ∷ []))
                      (sym (grown ∙ max_above m.maximum (m.consecutive + 1) above))
                      (Ending-Streak (rounds ++ r ∷ []) (m.consecutive + 1) more);
              }
              | inr within ↦ record {
                current = rw prolonged more;
                longest =
                    subst (Streak (rounds ++ r ∷ []))
                      (sym (grown ∙ max_within m.maximum (m.consecutive + 1) within))
                      (Streak-longer rounds r m.maximum (Counts.longest c));
              }
            ]
      ]

  poll_metrics-Counts :
      (done rounds : List (Round F)) (m n : Monitor F)
      → Counts done m
      → poll_metrics m rounds ≡ ok n
      → Counts (done ++ rounds) n
  unfolding poll_metrics
  poll_metrics-Counts done [] m n c h = rw (append-nil, ← ok-injective h) c
  poll_metrics-Counts done (r ∷ rest) m n c h =
      let (next, once, h1) = >>=-eq-ok (poll_once m r) _ h in
      subst (λ l. Counts l n) (append_assoc done (r ∷ []) rest)
        (poll_metrics-Counts (done ++ r ∷ []) rest next n (poll_once-Counts done r m next c once)
          h1)

  nothing_counted : Counts [] unpolled
  nothing_counted = record {
    current = record { before = []; run = []; parts = refl; failing = tt; counted = refl };
    longest = record {
      before = [];
      run = [];
      after = [];
      parts = refl;
      failing = tt;
      counted = refl;
    };
  }

  -- After the loop there is a GPU sample for each round, every round has either a scheduler sample
  -- or a failure, and the recorded maximum is the length of the longest run of failing rounds:
  -- there is a run of that length, and no run is longer, wherever it stands.
  pub poll_metrics-Polled :
      (rounds : List (Round F)) (m : Monitor F)
      → poll_metrics unpolled rounds ≡ ok m
      → Polled (length rounds) m
        × Streak rounds m.maximum
        × ((n : ℕ) → Streak rounds n → n ≤ m.maximum)
  poll_metrics-Polled rounds m h = (
    poll_metrics-counts rounds m h,
    Counts.longest (poll_metrics-Counts [] rounds unpolled m nothing_counted h),
    λ n s. omega (
      arith,
      Streak.counted s,
      poll_metrics_runs (Streak.before s) (Streak.run s) (Streak.after s) unpolled m (omega arith)
          (Streak.failing s) (ap (poll_metrics unpolled) (sym (Streak.parts s)) ∙ h),
    ),
  )
