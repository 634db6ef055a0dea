-- ===== src/Server/Polled.antt =====
-- What `wait_ready` and `wait_drained` of scripts/openai_smoke_test.py return, and that they do.
use tinyllama_inference_engi.Prelude.{
  ℕ, suc, ◌≡◌, refl, sym, ap, ◌∙◌, ◌↔◌, ◌⊎◌, inl, inr, Bool, true, false, not, Option, none, some,
  List, [], ◌∷◌, Bool-cases, get_elem?, any,
}
use tinyllama_inference_engi.Prelude.Int.{ℤ, pos, eqb_ℤ, eqb_ℤ_sound}
use tinyllama_inference_engi.Result.{
  Result, Error, ok, err, runtime_error, timeout_error, >>=-eq-ok,
}
use tinyllama_inference_engi.Json.{Value}
use tinyllama_inference_engi.Json.Floats.{Floats}
use tinyllama_inference_engi.Server.Polling.{
  Poll, is_os_error, gauges, retry, listing, wait_ready, all_zero, is_drained, drained_or, draining,
  wait_drained,
}

module _ (fl : Floats) where
  open fl use {F}

  -- The server runs and the deadline is not reached.
  abbrev pub Alive : Poll F → Type 0
  Alive p = (p.in_time ≡ true) × (p.exited ≡ false)

  -- No answer yet, or one that is not the list of the models
  abbrev pub NotYet : Poll F → Type 0
  NotYet p =
      (listing fl p ≡ ok false) ⊎ ((e : Error) × (listing fl p ≡ err e) × (is_os_error e ≡ true))

  -- Some poll finds the server ready, and each one before it finds it alive and starting.
  pub data Ready : List (Poll F) → Type 0 where
    now : {p : Poll F} {rest : List (Poll F)} → Alive p → listing fl p ≡ ok true → Ready (p ∷ rest)
    later : {p : Poll F} {rest : List (Poll F)} → Alive p → NotYet p → Ready rest → Ready (p ∷ rest)

  Ready-wait_ready : (polls : List (Poll F)) → Ready polls → wait_ready fl polls ≡ some (ok tt)
  unfolding wait_ready
  Ready-wait_ready [] x = elim x [ ]
  Ready-wait_ready (p ∷ rest) (Ready.now alive h) = rw (alive.0, alive.1, h) refl
  Ready-wait_ready (p ∷ rest) (Ready.later alive (inl h) more) =
      rw (alive.0, alive.1, h) (Ready-wait_ready rest more)
  Ready-wait_ready (p ∷ rest) (Ready.later alive (inr (e, h, os)) more) =
      rw (alive.0, alive.1, h, os) (Ready-wait_ready rest more)

  retry-cases :
      (r : Result Bool) (again : Option (Result (Unit {0})))
      → retry fl r again ≡ some (ok tt)
      → (r ≡ ok true)
        ⊎ (((r ≡ ok false) ⊎ ((e : Error) × (r ≡ err e) × (is_os_error e ≡ true)))
            × (again ≡ some (ok tt)))
  retry-cases (ok true) again h = inl refl
  retry-cases (ok false) again h = inr (inl refl, h)
  retry-cases (err e) again h = elim (Bool-cases (is_os_error e)) [
    | inl os ↦ inr (inr (e, refl, os), rw os at h)
    | inr other ↦ absurd (cc (rw other at h))
  ]

  wait_ready-Ready : (polls : List (Poll F)) → wait_ready fl polls ≡ some (ok tt) → Ready polls
  unfolding wait_ready
  wait_ready-Ready [] h = cc
  wait_ready-Ready (p ∷ rest) h = elim (Bool-cases p.in_time) [
    | inl t ↦ elim (Bool-cases p.exited) [
      | inl x ↦ absurd (cc (rw (t, x) at h))
      | inr x ↦ elim (retry-cases (listing fl p) (wait_ready fl rest) (rw (t, x) at h)) [
        | inl ready ↦ Ready.now (t, x) ready
        | inr (starting, more) ↦ Ready.later (t, x) starting (wait_ready-Ready rest more)
      ]
    ]
    | inr t ↦ absurd (cc (rw t at h))
  ]

  -- `wait_ready` returns exactly if some poll before the deadline finds the list of the models, and
  -- at each earlier one the process runs and the answer is another one or an error of the operating
  -- system.
  pub wait_ready-↔-Ready :
      (polls : List (Poll F)) → (wait_ready fl polls ≡ some (ok tt)) ↔ Ready polls
  wait_ready-↔-Ready polls = (wait_ready-Ready polls, Ready-wait_ready polls)

  retry-returns :
      (r : Result Bool) (again : Option (Result (Unit {0}))) {w : Result (Unit {0})}
      → again ≡ some w
      → (v : Result (Unit {0})) × (retry fl r again ≡ some v)
  retry-returns (ok true) again h = (ok tt, refl)
  retry-returns (ok false) again {w} h = (w, h)
  retry-returns (err e) again {w} h = elim (Bool-cases (is_os_error e)) [
    | inl os ↦ (w, rw os h)
    | inr other ↦ (err e, rw other refl)
  ]

  wait_ready-returns :
      (polls : List (Poll F))
      → any (λ p. not p.in_time) polls ≡ true
      → (r : Result (Unit {0})) × (wait_ready fl polls ≡ some r)
  unfolding wait_ready
  wait_ready-returns [] h = cc
  wait_ready-returns (p ∷ rest) h = elim (Bool-cases p.in_time) [
    | inr t ↦ (err (timeout_error "server did not become ready"), rw t refl)
    | inl t ↦ elim (Bool-cases p.exited) [
      | inl x ↦ (err (runtime_error "server exited before ready"), rw (t, x) refl)
      | inr x ↦
          let (w, again) = wait_ready-returns rest (rw t at h) in
          let (v, e) = retry-returns (listing fl p) (wait_ready fl rest) again in (v, rw (t, x) e)
    ]
  ]

  drained-returns :
      (r : Result (Option (Value F))) (again : Option (Result (Value F))) {w : Result (Value F)}
      → again ≡ some w
      → (v : Result (Value F)) × (drained_or fl r again ≡ some v)
  drained-returns (ok (some latest)) again h = (ok latest, refl)
  drained-returns (ok none) again {w} h = (w, h)
  drained-returns (err e) again h = (err e, refl)

  wait_drained-returns :
      (polls : List (Poll F))
      → any (λ p. not p.in_time) polls ≡ true
      → (r : Result (Value F)) × (wait_drained fl polls ≡ some r)
  unfolding wait_drained
  wait_drained-returns [] h = cc
  wait_drained-returns (p ∷ rest) h = elim (Bool-cases p.in_time) [
    | inr t ↦ (err (timeout_error "scheduler did not drain"), rw t refl)
    | inl t ↦
        let (w, again) = wait_drained-returns rest (rw t at h) in
        let (v, e) = drained-returns (draining fl p) (wait_drained fl rest) again in (v, rw t e)
  ]

  -- Once a poll is past the deadline, both loops have a result, whatever the process and the server
  -- say.
  pub wait-deadline :
      (polls : List (Poll F))
      → any (λ p. not p.in_time) polls ≡ true
      → ((r : Result (Unit {0})) × (wait_ready fl polls ≡ some r))
        × ((r : Result (Value F)) × (wait_drained fl polls ≡ some r))
  wait-deadline polls h = (wait_ready-returns polls h, wait_drained-returns polls h)

  is_drained-idle :
      (status : ℤ) (latest v : Value F)
      → is_drained fl status latest ≡ ok (some v)
      → (status ≡ pos 200) × (latest ≡ v) × (all_zero fl gauges v ≡ ok true)
  unfolding is_drained
  is_drained-idle status latest v h = elim (Bool-cases (eqb_ℤ status (pos 200))) [
    | inl found ↦
        let (b, zero_now, e) = >>=-eq-ok (all_zero fl gauges latest) _ (rw found at h) in
        elim (Bool-cases b) [
          | inl idle ↦
              let same_latest : latest ≡ v = cc (rw idle at e) in
              (
                eqb_ℤ_sound _ _ found,
                same_latest,
                ap (all_zero fl gauges) (sym same_latest) ∙ (zero_now ∙ ap ok idle),
              )
          | inr busy ↦ absurd (cc (rw busy at e))
        ]
    | inr other ↦ absurd (cc (rw other at h))
  ]

  pair : (a : ℤ × Value F) {n : ℤ} {v : Value F} → a.0 ≡ n → a.1 ≡ v → a ≡ (n, v)
  pair (m, w) e f = cc

  drained_or-cases :
      (r : Result (Option (Value F))) (again : Option (Result (Value F))) (v : Value F)
      → drained_or fl r again ≡ some (ok v)
      → (r ≡ ok (some v)) ⊎ (again ≡ some (ok v))
  drained_or-cases (ok (some latest)) again v h = inl (cc)
  drained_or-cases (ok none) again v h = inr h
  drained_or-cases (err e) again v h = cc

  -- A scheduler that `wait_drained` returns has answered with status 200 at one of the polls, and
  -- has no queued request, no active sequence and no used block.
  pub wait_drained-idle :
      (polls : List (Poll F)) (v : Value F)
      → wait_drained fl polls ≡ some (ok v)
      → (p : Poll F) × (i : ℕ) × (get_elem? polls i ≡ some p)
        × (p.answer ≡ ok (pos 200, v))
        × (all_zero fl gauges v ≡ ok true)
  unfolding wait_drained
  wait_drained-idle [] v h = cc
  wait_drained-idle (p ∷ rest) v h = elim (Bool-cases p.in_time) [
    | inr t ↦ absurd (cc (rw t at h))
    | inl t ↦ elim (drained_or-cases (draining fl p) (wait_drained fl rest) v (rw t at h)) [
      | inr more ↦
          let (q, i, there, answered, idle) = wait_drained-idle rest v more in
          (q, suc i, there, answered, idle)
      | inl found ↦
          let (a, answered, drained) = >>=-eq-ok p.answer _ found in
          let (s, l, z) = is_drained-idle a.0 a.1 v drained in
          (p, 0, refl, answered ∙ ap ok (pair a s l), z)
    ]
  ]
