-- ===== src/Llama/Prompt.antt =====
-- The prompt of the llama.cpp and PyTorch benchmarks, and what accepted measurements have in common.
use tinyllama_inference_engi.Prelude.{
  ℕ, zero, suc, ◌+◌, ◌-◌, ◌%◌, ◌≤◌, ◌<◌, ◌≡◌, refl, sym, ap, ◌∙◌, true, ◌||◌, not, some, List, [],
  ◌∷◌, arith, ◌==◌, le→ltb, ==_iff, length, get_elem?, All, codes,
}
use tinyllama_inference_engi.Prelude.{or_false}
use tinyllama_inference_engi.Prelude.Int.{pos, eqb_ℤ, eqb_ℤ_sound}
use tinyllama_inference_engi.Result.{
  Result, ok, value_error, ◌>>=◌, raise_if, >>=-eq-ok, raise_if-eq-ok, not-false, ok-injective,
}
use tinyllama_inference_engi.Json.Floats.{Floats}
use tinyllama_inference_engi.Json.{Value, subscript, as_list}
use tinyllama_inference_engi.Json.Equal.{eq_value, to_int}
use tinyllama_inference_engi.Llama.{
  cycle, repeated_context, observe, observe_all, Observation, any_differs, measure_batches,
  validate_batch_samples, measure, Medians,
}

module _ {A : Type 0} where
  at_index : (xs : List A) (i : ℕ) → i < length xs → (a : A) × (get_elem? xs i ≡ some a)
  at_index [] i h = absurd (omega (arith, h))
  at_index (x ∷ xs) zero h = (x, refl)
  at_index (x ∷ xs) (suc i) h = at_index xs i (omega (arith, h))

  -- The tokens of the cycle from one index on
  record Cycle (seed : List A) (start n : ℕ) (result : List A) : Type 0 where
    sized : length result ≡ n
    periodic :
        (i : ℕ) → i < n → get_elem? result i ≡ get_elem? seed (1 + (start + i) % (length seed - 1))

  cycle-Cycle :
      (seed : List A) (start n : ℕ)
      → 2 ≤ length seed
      → (result : List A) × (cycle seed start n ≡ ok result) × Cycle seed start n result
  unfolding cycle
  cycle-Cycle seed start zero h =
      ([], refl, record { sized = refl; periodic = λ i b. absurd (omega (arith, b)) })
  cycle-Cycle seed start (suc n) h =
      let (token, there) = at_index seed (1 + start % (length seed - 1)) (omega (arith, h)) in
      let (more, cycled, c) = cycle-Cycle seed (start + 1) n h in
      (
        token ∷ more,
        rw (there, cycled) refl,
        record {
          sized = ap suc (Cycle.sized c);
          periodic = shifted seed start n token more there (Cycle.periodic c);
        },
      )
    where
      shifted :
          (seed : List A) (start n : ℕ) (token : A) (more : List A)
          → get_elem? seed (1 + start % (length seed - 1)) ≡ some token
          → ((i : ℕ)
              → i < n
              → get_elem? more i ≡ get_elem? seed (1 + (start + 1 + i) % (length seed - 1)))
          → (i : ℕ) → i < suc n
          → get_elem? (token ∷ more) i ≡ get_elem? seed (1 + (start + i) % (length seed - 1))
      shifted seed start n token more there rest zero b =
          sym there ∙ ap (λ k. get_elem? seed (1 + k % (length seed - 1))) (omega arith)
      shifted seed start n token more there rest (suc i) b =
          rest i (omega (arith, b))
          ∙ ap (λ k. get_elem? seed (1 + k % (length seed - 1))) (omega arith)

  -- From a seed of at least two tokens, the prompt of a context of at least one token is always
  -- made: it has as many tokens as the context, begins with the first token of the seed, and goes through the others
  -- over and over.
  pub repeated_context-Cycle :
      (seed : List A) (context : ℕ)
      → 2 ≤ length seed
      → 1 ≤ context
      → (prompt : List A) × (repeated_context seed context ≡ ok prompt)
        × (length prompt ≡ context)
        × (get_elem? prompt 0 ≡ get_elem? seed 0)
        × ((i : ℕ)
            → suc i < context
            → get_elem? prompt (suc i) ≡ get_elem? seed (1 + i % (length seed - 1)))
  unfolding repeated_context
  repeated_context-Cycle seed context h c =
      let (first, there) = at_index seed 0 (omega (arith, h)) in
      let (more, cycled, k) = cycle-Cycle seed 0 (context - 1) h in
      (
        first ∷ more,
        rw (le→ltb (length seed) 2 h, there, cycled) refl,
        omega (arith, Cycle.sized k, c),
        sym there,
        λ i b.
            Cycle.periodic k i (omega (arith, b))
            ∙ ap (λ j. get_elem? seed (1 + j % (length seed - 1))) (omega arith),
      )

module _ (fl : Floats) where
  open fl use {F}

  -- A response with the expected tokens, of which there are thirty-two by its own count
  pub record Matches (expected_tokens response : Value F) : Type 0 where
    pub tokens : Value F
    pub named : subscript response (codes "tokens") ≡ ok tokens
    pub equal : eq_value fl tokens expected_tokens ≡ true
    pub timings : Value F
    pub timed : subscript response (codes "timings") ≡ ok timings
    pub counted : (subscript timings (codes "predicted_n") >>= to_int fl) ≡ ok (pos 32)

  observe-Matches :
      (expected response : Value F) (o : Observation fl)
      → observe fl expected response ≡ ok o
      → Matches expected response
  unfolding observe
  observe-Matches expected response o h =
      let (timings, timed, h1) = >>=-eq-ok (subscript response (codes "timings")) _ h in
      let (tokens, named, h2) = >>=-eq-ok (subscript response (codes "tokens")) _ h1 in
      let (predicted, counted, h3) =
        >>=-eq-ok (subscript timings (codes "predicted_n") >>= to_int fl) _ h2 in
      let (u, found, h4) =
        >>=-eq-ok
          (raise_if (not (eq_value fl tokens expected) || not (eqb_ℤ predicted (pos 32)))
            (value_error "llama.cpp generated tokens differ from golden"))
          _ h3 in
      let (equal, exactly) = or_false _ _ (raise_if-eq-ok _ _ found) in
      record {
        tokens = tokens;
        named = named;
        equal = not-false _ equal;
        timings = timings;
        timed = timed;
        counted = counted ∙ ap ok (eqb_ℤ_sound predicted (pos 32) (not-false _ exactly));
      }

  observe_all-Matches :
      (expected : Value F) (answers : List (Result (Value F))) (os : List (Observation fl))
      → observe_all fl expected answers ≡ ok os
      → All
          (λ answer. (response : Value F) × (answer ≡ ok response) × Matches expected response)
          answers
  unfolding observe_all
  observe_all-Matches expected [] os h = tt
  observe_all-Matches expected (answer ∷ rest) os h =
      let (response, answered, h1) = >>=-eq-ok answer _ h in
      let (o, observed, h2) = >>=-eq-ok (observe fl expected response) _ h1 in
      let (more, observed_more, h3) = >>=-eq-ok (observe_all fl expected rest) _ h2 in
      (
        (response, answered, observe-Matches expected response o observed),
        observe_all-Matches expected rest more observed_more,
      )

  length-measure_batches :
      (expected : Value F) (batches : List (Result (Value F) × F)) (elapsed : List F)
      → measure_batches fl expected batches ≡ ok elapsed
      → length batches ≡ length elapsed
  unfolding measure_batches
  length-measure_batches expected [] elapsed h = ap length (ok-injective h)
  length-measure_batches expected ((answer, time) ∷ rest) elapsed h =
      let (response, answered, h1) = >>=-eq-ok answer _ h in
      let (responses, listed, h2) = >>=-eq-ok (as_list response) _ h1 in
      let (u, four, h3) =
        >>=-eq-ok
          (raise_if (not (length responses == 4))
            (value_error "llama.cpp Batch 4 tokens differ from golden"))
          _ h2 in
      let (differs, compared, h4) = >>=-eq-ok (any_differs fl expected responses) _ h3 in
      let (u1, equal, h5) =
        >>=-eq-ok (raise_if differs (value_error "llama.cpp Batch 4 tokens differ from golden")) _
          h4 in
      let (more, measured, h6) = >>=-eq-ok (measure_batches fl expected rest) _ h5 in
      ap suc (length-measure_batches expected rest more measured) ∙ ap length (ok-injective h6)

  -- If the measurements yield medians, every measured response has the expected tokens, thirty-two
  -- by its own count, and there were exactly ten batches.
  pub measure-Matches :
      (expected : Value F) (answers : List (Result (Value F)))
      (batches : List (Result (Value F) × F)) (m : Medians fl)
      → measure fl expected answers batches ≡ ok m
      → All
          (λ answer. (response : Value F) × (answer ≡ ok response) × Matches expected response)
          answers
        × (length batches ≡ 10)
  unfolding measure validate_batch_samples
  measure-Matches expected answers batches m h =
      let (os, observed, h1) = >>=-eq-ok (observe_all fl expected answers) _ h in
      let (elapsed, measured, h2) = >>=-eq-ok (measure_batches fl expected batches) _ h1 in
      let (valid, v, h3) = >>=-eq-ok (validate_batch_samples fl elapsed 10) _ h2 in
      let (u, counted, h4) =
        >>=-eq-ok
          (raise_if (not (length elapsed == 10)) (value_error "llama.cpp Batch 4 returned samples"))
          _ v in
      (
        observe_all-Matches expected answers os observed,
        length-measure_batches expected batches elapsed measured
            ∙ (==_iff (length elapsed) 10).0 (not-false _ (raise_if-eq-ok _ _ counted)),
      )
