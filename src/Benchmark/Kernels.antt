-- ===== src/Benchmark/Kernels.antt =====
-- `validate_kernel_results` of scripts/benchmark.py, and what an accepted result covers.
use tinyllama_inference_engi.Prelude.{
  ℕ, suc, ◌+◌, ◌≡◌, refl, inl, inr, Bool, true, false, ◌&&◌, ◌||◌, not, List, [], ◌∷◌, arith, ◌==◌,
  if◌then◌else◌, Bool-cases, length, all, any, Text, codes, same,
}
use tinyllama_inference_engi.Prelude.Int.{ℤ, pos, eqb_ℤ}
use tinyllama_inference_engi.Result.{
  Result, ok, value_error, ◌>>=◌, ◌>>◌, >>=-eq-ok, raise_if, raise_if-eq-ok, not-false,
}
use tinyllama_inference_engi.Json.{Value, Fields, int, str, get, index, is_list, as_dict}
use tinyllama_inference_engi.Json.Floats.{Floats}
use tinyllama_inference_engi.Json.Equal.{eq_value, to_int, to_float}
use tinyllama_inference_engi.Json.{items, subscript}

-- `expected_counts`
abbrev pub expected_counts : List (Text × ℕ)
expected_counts =
    (codes "rms_norm", 1)
    ∷ (codes "rope", 1)
    ∷ (codes "softmax", 1)
    ∷ (codes "kv_update", 1)
    ∷ (codes "attention_decode", 4)
    ∷ (codes "silu_multiply", 1)
    ∷ (codes "residual_add", 1)
    ∷ (codes "gemv", 1)
    ∷ (codes "gemm", 1)
    ∷ (codes "int8_weight_only_gemv", 1)
    ∷ (codes "int8_embedding_row", 1)
    ∷ []

-- `{name: 0 for name in expected_counts}`
abbrev pub no_counts : List (Text × ℕ) → List (Text × ℕ)
no_counts [] = []
no_counts ((family, n) ∷ rest) = (family, 0) ∷ no_counts rest

-- `name in observed_counts` and `observed_counts[name] += 1`
abbrev pub counted : Text → List (Text × ℕ) → Bool
counted name [] = false
counted name ((family, n) ∷ rest) = same family name || counted name rest

unfoldable pub count_one : Text → List (Text × ℕ) → List (Text × ℕ)
count_one name [] = []
count_one name ((family, n) ∷ rest) =
    let more = count_one name rest in
    if same family name then (family, n + 1) ∷ rest else (family, n) ∷ more

-- `observed_counts == expected_counts`, which have their keys in one order
unfoldable pub same_counts : List (Text × ℕ) → List (Text × ℕ) → Bool
same_counts [] [] = true
same_counts [] (e ∷ es) = false
same_counts (o ∷ os) [] = false
same_counts ((f, m) ∷ os) ((g, n) ∷ es) = same f g && (m == n && same_counts os es)

-- `{...} == {128, 512, 2048, 4096}`
abbrev pub all_contexts : List ℤ
all_contexts = pos 128 ∷ pos 512 ∷ pos 2048 ∷ pos 4096 ∷ []

abbrev pub covers : List ℤ → Bool
covers contexts =
    all (λ c. any (eqb_ℤ c) all_contexts) contexts && all (λ c. any (eqb_ℤ c) contexts) all_contexts

-- `str(value)`: of anything but a text it is no family's name, and the empty text is none either.
abbrev pub name_of : {F : Type 0} → Value F → Text
name_of (str t) = t
name_of _ = []

module _ (fl : Floats) where
  open fl use {F, is_finite, flt, literal}

  -- The loop over `median_ms` and `p95_ms`
  unfoldable pub valid_times : List Text → Fields F → Result (Unit {0})
  valid_times [] benchmark = ok tt
  valid_times (key ∷ rest) benchmark = do
    found ← index benchmark key
    v ← to_float fl found
    raise_if (not (is_finite v) || flt v (literal 0 1))
        (value_error "kernel benchmark field is invalid")
    valid_times rest benchmark

  -- The loop over the benchmarks
  unfoldable pub count_benchmarks : List (Value F) → List (Text × ℕ) → Result (List (Text × ℕ))
  unfolding count_one valid_times
  count_benchmarks [] observed = ok observed
  count_benchmarks (document ∷ rest) observed = do
    benchmark ← as_dict document
    let name = name_of (get (codes "name") benchmark)
    raise_if (not (counted name observed)) (value_error "unexpected kernel benchmark family")
    raise_if
        (not (eq_value fl (get (codes "warmup") benchmark) (int (pos 10)))
          || not (eq_value fl (get (codes "samples") benchmark) (int (pos 50))))
        (value_error "kernel benchmark used an unexpected sample count")
    valid_times (codes "median_ms" ∷ codes "p95_ms" ∷ []) benchmark
    count_benchmarks rest (count_one name observed)

  -- `int(benchmark["shape"]["context"])` of every benchmark of the attention
  unfoldable pub attention_contexts : List (Value F) → Result (List ℤ)
  attention_contexts [] = ok []
  attention_contexts (document ∷ rest) =
      let others = attention_contexts rest in
      let own : Result (List ℤ) = (do
        shape ← subscript document (codes "shape")
        found ← subscript shape (codes "context")
        context ← to_int fl found
        contexts ← others
        ok (context ∷ contexts)) in
      (do
        name ← subscript document (codes "name")
        if eq_value fl name (str (codes "attention_decode")) then own else others)

  unfoldable pub validate_kernel_results : Fields F → Text → Result (Unit {0})
  unfolding count_benchmarks same_counts attention_contexts
  validate_kernel_results result expected_gpu = do
    raise_if
        (not (eq_value fl (get (codes "gpu") result) (str expected_gpu))
          || not (eq_value fl (get (codes "timing") result) (str (codes "cuda_event"))))
        (value_error "kernel benchmark GPU or timing backend does not match M2")
    let benchmarks = get (codes "benchmarks") result
    raise_if (not (is_list benchmarks))
        (value_error "kernel benchmark result has no benchmark list")
    observed ← count_benchmarks (items benchmarks) (no_counts expected_counts)
    raise_if (not (same_counts observed expected_counts))
        (value_error "kernel benchmark families are incomplete")
    contexts ← attention_contexts (items benchmarks)
    raise_if (not (covers contexts))
        (value_error "attention microbenchmarks do not cover all M2 contexts")

  total : List (Text × ℕ) → ℕ
  total [] = 0
  total ((family, n) ∷ rest) = n + total rest

  total-count_one :
      (name : Text) (l : List (Text × ℕ))
      → counted name l ≡ true
      → total (count_one name l) ≡ suc (total l)
  unfolding total count_one
  total-count_one name [] h = cc
  total-count_one name ((family, n) ∷ rest) h = elim (Bool-cases (same family name)) [
    | inl e ↦ rw e (omega arith)
    | inr e ↦
        let ih : total (count_one name rest) ≡ suc (total rest) =
          total-count_one name rest (rw e at h) in
        rw e (omega (arith, ih))
  ]

  total-same_counts : (os es : List (Text × ℕ)) → same_counts os es ≡ true → total os ≡ total es
  unfolding total same_counts
  total-same_counts [] [] h = refl
  total-same_counts [] (e ∷ es) h = cc
  total-same_counts (o ∷ os) [] h = cc
  total-same_counts ((f, m) ∷ os) ((g, n) ∷ es) h = ground (arith, total-same_counts os es)

  total-count_benchmarks :
      (documents : List (Value F)) (observed counts : List (Text × ℕ))
      → count_benchmarks documents observed ≡ ok counts
      → total counts ≡ length documents + total observed
  unfolding count_benchmarks
  total-count_benchmarks [] observed counts h = ground arith
  total-count_benchmarks (document ∷ rest) observed counts h =
      let (benchmark, hb, h1) = >>=-eq-ok (as_dict document) _ h in
      let name : Text = name_of (get (codes "name") benchmark) in
      let (u1, known, h2) =
        >>=-eq-ok
          (raise_if (not (counted name observed))
            (value_error "unexpected kernel benchmark family"))
          _ h1 in
      let (u2, sampled, h3) =
        >>=-eq-ok
          (raise_if
            (not (eq_value fl (get (codes "warmup") benchmark) (int (pos 10)))
              || not (eq_value fl (get (codes "samples") benchmark) (int (pos 50))))
            (value_error "kernel benchmark used an unexpected sample count"))
          _ h2 in
      let (u3, timed, h4) =
        >>=-eq-ok (valid_times (codes "median_ms" ∷ codes "p95_ms" ∷ []) benchmark) _ h3 in
      let ih : total counts ≡ length rest + total (count_one name observed) =
        total-count_benchmarks rest (count_one name observed) counts h4 in
      let one : total (count_one name observed) ≡ suc (total observed) =
        total-count_one name observed (not-false _ (raise_if-eq-ok _ _ known)) in
      omega (arith, ih, one)

  -- An accepted result has exactly fourteen benchmarks, and those of the attention have run at each
  -- of the four contexts and at no other.
  pub validate_kernel_results_lem :
      (result : Fields F) (expected_gpu : Text)
      → validate_kernel_results result expected_gpu ≡ ok tt
      → (length (items (get (codes "benchmarks") result)) ≡ 14)
        × (contexts : List ℤ) × (attention_contexts (items (get (codes "benchmarks") result))
            ≡ ok contexts)
        × (covers contexts ≡ true)
  unfolding validate_kernel_results total
  validate_kernel_results_lem result expected_gpu h =
      let benchmarks : Value F = get (codes "benchmarks") result in
      let (u1, gpu, h1) =
        >>=-eq-ok
          (raise_if
            (not (eq_value fl (get (codes "gpu") result) (str expected_gpu))
              || not (eq_value fl (get (codes "timing") result) (str (codes "cuda_event"))))
            (value_error "kernel benchmark GPU or timing backend does not match M2"))
          _ h in
      let (u2, listed, h2) =
        >>=-eq-ok
          (raise_if (not (is_list benchmarks))
            (value_error "kernel benchmark result has no benchmark list"))
          _ h1 in
      let (observed, ho, h3) =
        >>=-eq-ok (count_benchmarks (items benchmarks) (no_counts expected_counts)) _ h2 in
      let (u3, complete, h4) =
        >>=-eq-ok
          (raise_if (not (same_counts observed expected_counts))
            (value_error "kernel benchmark families are incomplete"))
          _ h3 in
      let (contexts, hc, h5) = >>=-eq-ok (attention_contexts (items benchmarks)) _ h4 in
      let sum : total observed ≡ length (items benchmarks) + 0 =
        total-count_benchmarks (items benchmarks) (no_counts expected_counts) observed ho in
      let fourteen : total observed ≡ 14 =
        total-same_counts observed expected_counts (not-false _ (raise_if-eq-ok _ _ complete)) in
      (omega (arith, sum, fourteen), contexts, hc, not-false _ (raise_if-eq-ok _ _ h5))
